-- ===== src/Wikilinks/Names.antt =====
-- Resolution of a wikilink by the name of a note (app/services/wikilinks.py).
use vault_bridge.Base.{
  ◌≡◌, refl, ap, sym, ◌∙◌, Bool, true, false, ◌&&◌, ◌||◌, Option, none, some, List, [], ◌∷◌, any,
  arith, Bool-cases, inl, inr,
}
use vault_bridge.Base.Codes.{Codes, same_codes, same_codes_iff}
use vault_bridge.Wikilinks.{
  Library, Wikilink, Candidate, add_path, paths_from, unqualified_paths, Resolution, resolved,
  missing, ambiguous, unsafe, resolve_name, candidate_path, with_slashes, has_code,
  resolve_with_reason,
}

abbrev has_path : Codes → List Codes → Bool
has_path p paths = any (λ q. same_codes q p) paths

-- some live candidate has this name and this canonical path
abbrev pub leads : Library → List Candidate → Codes → Codes → Bool
leads lib candidates name path =
    any (λ c. same_codes (lib.name c.discovered_path) name && same_codes c.canonical_path path)
      candidates

has_path-add :
    (p q : Codes) (paths : List Codes)
    → has_path p (add_path q paths) ≡ (has_path p paths || same_codes q p)
unfolding add_path
has_path-add p q [] = ground arith
has_path-add p q (r ∷ paths) = elim (Bool-cases (same_codes r q)) [
  | inl same ↦
      let equal = ap (λ x. same_codes x p) ((same_codes_iff r q).0 same) in
      rw same (ground (arith, equal))
  | inr other ↦ rw other (ground (arith, has_path-add p q paths))
]

has_path-from :
    (lib : Library) (name p : Codes) (paths : List Codes) (candidates : List Candidate)
    → has_path p (paths_from lib name paths candidates)
      ≡ (has_path p paths || leads lib candidates name p)
unfolding paths_from
has_path-from lib name p paths [] = ground arith
has_path-from lib name p paths (c ∷ candidates) =
    elim (Bool-cases (same_codes (lib.name c.discovered_path) name)) [
      | inl same ↦
          let ih = has_path-from lib name p (add_path c.canonical_path paths) candidates in
          rw same (ground (arith, ih, has_path-add p c.canonical_path paths))
      | inr other ↦ rw other (has_path-from lib name p paths candidates)
    ]

-- no path is there twice
abbrev IsDistinct : List Codes → Type 0
IsDistinct [] = Unit
IsDistinct (p ∷ paths) = (has_path p paths ≡ false) × IsDistinct paths

same_codes_sym : (p q : Codes) → same_codes p q ≡ false → same_codes q p ≡ false
same_codes_sym p q h = ground (arith, same_codes_iff p q, same_codes_iff q p)

add_path-IsDistinct :
    (q : Codes) (paths : List Codes) → IsDistinct paths → IsDistinct (add_path q paths)
unfolding add_path
add_path-IsDistinct q [] h = (refl, tt)
add_path-IsDistinct q (p ∷ paths) h = elim (Bool-cases (same_codes p q)) [
  | inl same ↦ rw same h
  | inr other ↦ rw other (
    ground (arith, has_path-add p q paths, h.0, same_codes_sym p q other),
    add_path-IsDistinct q paths h.1,
  )
]

paths_from-IsDistinct :
    (lib : Library) (name : Codes) (paths : List Codes) (candidates : List Candidate)
    → IsDistinct paths
    → IsDistinct (paths_from lib name paths candidates)
unfolding paths_from
paths_from-IsDistinct lib name paths [] h = h
paths_from-IsDistinct lib name paths (c ∷ candidates) h =
    elim (Bool-cases (same_codes (lib.name c.discovered_path) name)) [
      | inl same ↦ rw same (
          paths_from-IsDistinct lib name (add_path c.canonical_path paths) candidates
            (add_path-IsDistinct c.canonical_path paths h))
      | inr other ↦ rw other (paths_from-IsDistinct lib name paths candidates h)
    ]

-- What the outcome says of the live candidates with the name, and the path of the link.
abbrev pub IsNameAnswer : Library → List Candidate → Codes → Bool → Wikilink × Resolution → Type 0
IsNameAnswer lib candidates name is_unsafe (l, resolved) =
    (path : Codes) × (l.resolved_path ≡ some path)
    × ((p : Codes) → leads lib candidates name p ≡ same_codes path p)
IsNameAnswer lib candidates name is_unsafe (l, ambiguous) =
    (p : Codes) × (q : Codes) × (l.resolved_path ≡ none)
    × (leads lib candidates name p ≡ true)
    × (leads lib candidates name q ≡ true)
    × (same_codes p q ≡ false)
IsNameAnswer lib candidates name is_unsafe (l, missing) =
    (l.resolved_path ≡ none)
    × (is_unsafe ≡ false)
    × ((p : Codes) → leads lib candidates name p ≡ false)
IsNameAnswer lib candidates name is_unsafe (l, unsafe) =
    (l.resolved_path ≡ none)
    × (is_unsafe ≡ true)
    × ((p : Codes) → leads lib candidates name p ≡ false)

same_codes_refl : (p : Codes) → same_codes p p ≡ true
same_codes_refl p = (same_codes_iff p p).1 refl

resolve_name-IsNameAnswer :
    (lib : Library) (candidates : List Candidate) (name : Codes) (l : Wikilink) (is_unsafe : Bool)
    (paths : List Codes)
    → IsDistinct paths
    → ((p : Codes) → leads lib candidates name p ≡ has_path p paths)
    → IsNameAnswer lib candidates name is_unsafe (resolve_name l is_unsafe paths)
unfolding resolve_name
resolve_name-IsNameAnswer lib candidates name l true [] d h = (refl, refl, h)
resolve_name-IsNameAnswer lib candidates name l false [] d h = (refl, refl, h)
resolve_name-IsNameAnswer lib candidates name l is_unsafe (path ∷ []) d h =
    (path, refl, λ p. h p ∙ or_false (same_codes path p))
  where
    or_false : (b : Bool) → (b || false) ≡ b
    or_false true = refl
    or_false false = refl
resolve_name-IsNameAnswer lib candidates name l is_unsafe (p ∷ q ∷ paths) d h = (
  p,
  q,
  refl,
  h p ∙ ground (arith, same_codes_refl p),
  h q ∙ ground (arith, same_codes_refl q),
  same_codes_sym q p (ground (arith, d.0)),
)

-- A target without a folder resolves to a path exactly if that is the one canonical path of all live
-- notes with its name; it is ambiguous only if two notes with the name have different paths, and
-- missing or unsafe only if no note has the name. The vault's answer for a path is not asked for.
pub resolve_with_reason-IsNameAnswer :
    (lib : Library) (verify : Codes → Option Codes × Resolution) (candidates : List Candidate)
    (is_unsafe : Codes → Bool) (l : Wikilink) (name : Codes)
    → candidate_path lib l.target ≡ some name
    → has_code 0x2f (with_slashes name) ≡ false
    → IsNameAnswer lib candidates
        (with_slashes name)
        (is_unsafe (with_slashes name))
        (resolve_with_reason lib verify candidates is_unsafe l)
unfolding resolve_with_reason unqualified_paths
resolve_with_reason-IsNameAnswer lib verify candidates is_unsafe l name found plain =
    rw (found, resolve_with_reason)
      (rw plain (
        resolve_name-IsNameAnswer lib candidates (with_slashes name) l
          (is_unsafe (with_slashes name)) (paths_from lib (with_slashes name) [] candidates)
          (paths_from-IsDistinct lib (with_slashes name) [] candidates tt)
          (λ p. sym (has_path-from lib (with_slashes name) p [] candidates))))
