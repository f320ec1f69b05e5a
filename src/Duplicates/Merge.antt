-- ===== src/Duplicates/Merge.antt =====
-- What `_merge_candidates` (app/services/duplicate_candidates.py) answers: which paths, in which order.
use vault_bridge.Base.{
  ℕ, zero, suc, ◌≡◌, refl, sym, ap, ◌∙◌, String, Bool, true, false, ◌||◌, Option, none, some, List,
  [], ◌∷◌, ◌++◌, str_eq, if◌then◌else◌, take, min, ◌*◌, ◌≤◌, ◌⊎◌, length, subst, arith, eq_iff,
  Bool-cases, Option-cases, inl, inr, is_some,
}
use mathlib.Core.List.{append-nil, append_assoc}
use vault_bridge.Base.Sets.{mem, insert, mem-insert, mem-append, IsDistinct}
use vault_bridge.Base.Dict.{get, put, get-put}
use vault_bridge.Duplicates.{
  Text, Candidate, SemanticResult, Merging, candidate_from, with_scores, by_path, place, merge_one,
  merge_all, replaced, merge_candidates, Answer, answered, search_unavailable, without_search,
  answer_of, exact_candidates_of, find_in_folder, find_candidates,
}

abbrev pub paths_of : List Candidate → List String
paths_of [] = []
paths_of (c ∷ cs) = c.path ∷ paths_of cs

-- The verified paths that are not exact candidates, each where it comes first.
abbrev pub new_paths :
    List String → List String → List (Option String × SemanticResult) → List String
new_paths exact seen [] = []
new_paths exact seen ((none, _) ∷ results) = new_paths exact seen results
new_paths exact seen ((some p, _) ∷ results) =
    let skipped = new_paths exact seen results in
    let rest = new_paths exact (insert p seen) results in
    if mem p seen then skipped else if mem p exact then rest else p ∷ rest

-- The dictionary has an entry for each path that passes the test, and no other, under its path.
record IsIndex (exact : String → Bool) (d : List (String × Candidate)) : Type 0 where
  known : (k : String) → is_some (get k d) ≡ exact k
  named : (k : String) (c : Candidate) → get k d ≡ some c → c.path ≡ k

by_path-IsIndex :
    (exact : String → Bool) (cs : List Candidate) (d : List (String × Candidate))
    → IsIndex exact d
    → IsIndex (λ k. mem k (paths_of cs) || exact k) (by_path cs d)
by_path-IsIndex exact [] d v = v
by_path-IsIndex exact (c ∷ cs) d v =
    let rest =
      by_path-IsIndex (λ k. str_eq c.path k || exact k) cs (put c.path c d)
        (record {
          known = λ k. ground (arith, get-put c.path k c d, v.known k);
          named = λ k e h. ground (arith, get-put c.path k c d, v.named k e, eq_iff c.path k);
        }) in
    record { known = λ k. ground (arith, rest.known k); named = rest.named }

-- One replaced entry keeps the index.
with_scores-IsIndex :
    (exact : String → Bool) (d : List (String × Candidate)) (p : String) (c found : Candidate)
    → get p d ≡ some c
    → IsIndex exact d
    → IsIndex exact (put p (with_scores c found) d)
with_scores-IsIndex exact d p c found h v = record {
  known = λ k. ground (arith, get-put p k (with_scores c found) d, v.known k, eq_iff p k);
  named = λ k e g.
      ground (arith, get-put p k (with_scores c found) d, v.named k e, v.named p c h, eq_iff p k);
}

paths_of-append : (xs ys : List Candidate) → paths_of (xs ++ ys) ≡ paths_of xs ++ paths_of ys
paths_of-append [] ys = refl
paths_of-append (x ∷ xs) ys = ap (λ l. x.path ∷ l) (paths_of-append xs ys)

paths_of-take : (n : ℕ) (xs : List Candidate) → paths_of (take n xs) ≡ take n (paths_of xs)
paths_of-take zero xs = refl
paths_of-take (suc n) [] = refl
paths_of-take (suc n) (x ∷ xs) = ap (λ l. x.path ∷ l) (paths_of-take n xs)

-- What the loop has when it ends, from any state whose index has the exact paths.
abbrev Merged : List String → List (Option String × SemanticResult) → Merging → Merging → Type 0
Merged exact results m n =
    IsIndex (λ k. mem k exact) n.exact_by_path
    × (paths_of n.semantic_only
        ≡ paths_of m.semantic_only ++ new_paths exact m.seen_semantic_paths results)

place-Merged :
    (exact : List String) (results : List (Option String × SemanticResult)) (found : Candidate)
    (o : Option Candidate) (m : Merging)
    → get found.path m.exact_by_path ≡ o
    → IsIndex (λ k. mem k exact) m.exact_by_path
    → IsIndex (λ k. mem k exact) (place found o m).exact_by_path
      × ((place found o m).seen_semantic_paths ≡ m.seen_semantic_paths)
      × (paths_of (place found o m).semantic_only ++ new_paths exact m.seen_semantic_paths results
          ≡ paths_of m.semantic_only
            ++ (if mem found.path exact
                then new_paths exact m.seen_semantic_paths results
                else found.path ∷ new_paths exact m.seen_semantic_paths results))
place-Merged exact results found none m g v =
    let absent : mem found.path exact ≡ false = ground (arith, v.known found.path) in
    (
      v,
      refl,
      rw absent (
          ap (λ l. l ++ new_paths exact m.seen_semantic_paths results)
            (paths_of-append m.semantic_only (found ∷ []))
          ∙ append_assoc (paths_of m.semantic_only) (found.path ∷ [])
              (new_paths exact m.seen_semantic_paths results)),
    )
place-Merged exact results found (some c) m g v =
    let there : mem found.path exact ≡ true = ground (arith, v.known found.path) in
    (with_scores-IsIndex _ m.exact_by_path found.path c found g v, refl, rw there refl)

merge_one-Merged :
    (t : Text) (exact : List String) (results : List (Option String × SemanticResult)) (p : String)
    (r : SemanticResult) (m : Merging)
    → IsIndex (λ k. mem k exact) m.exact_by_path
    → IsIndex (λ k. mem k exact) (merge_one t (some p) r m).exact_by_path
      × (paths_of (merge_one t (some p) r m).semantic_only
            ++ new_paths exact (merge_one t (some p) r m).seen_semantic_paths results
          ≡ paths_of m.semantic_only
            ++ new_paths exact m.seen_semantic_paths ((some p, r) ∷ results))
merge_one-Merged t exact results p r m v =
    let seen : Merging = record m { seen_semantic_paths = p ∷ m.seen_semantic_paths } in
    let found = candidate_from t r p in
    let placed = place found (get p m.exact_by_path) seen in
    let (index, kept, same) =
      place-Merged exact results (candidate_from t r p) (get p m.exact_by_path) seen refl v in
    elim (Bool-cases (mem p m.seen_semantic_paths)) [
      | inl old ↦ rw old (v, refl)
      | inr fresh ↦
          rw fresh (
            index,
            ap (λ l. paths_of placed.semantic_only ++ new_paths exact l results) kept ∙ same,
          )
    ]

merge_all-Merged :
    (t : Text) (exact : List String) (results : List (Option String × SemanticResult)) (m : Merging)
    → IsIndex (λ k. mem k exact) m.exact_by_path
    → Merged exact results m (merge_all t results m)
unfolding merge_all
merge_all-Merged t exact [] m v = (v, sym (append-nil _))
merge_all-Merged t exact ((none, r) ∷ results) m v = merge_all-Merged t exact results m v
merge_all-Merged t exact ((some p, r) ∷ results) m v =
    let (index, same) = merge_one-Merged t exact results p r m v in
    let (final, paths) = merge_all-Merged t exact results (merge_one t (some p) r m) index in
    (final, paths ∙ same)

-- Every exact candidate has its entry, with its path.
replaced-paths :
    (cs : List Candidate) (d : List (String × Candidate)) (exact : String → Bool)
    → IsIndex exact d
    → ((k : String) → mem k (paths_of cs) ≡ true → exact k ≡ true)
    → (es : List Candidate) × (replaced cs d ≡ some es) × (paths_of es ≡ paths_of cs)
unfolding replaced
replaced-paths [] d exact v h = ([], refl, refl)
replaced-paths (c ∷ cs) d exact v h = elim (Option-cases (get c.path d)) [
  | inl gone ↦ absurd (ground (arith, v.known c.path, h c.path, eq_iff c.path c.path))
  | inr (e, g) ↦
      let (es, found, same) = replaced-paths cs d exact v (λ k m. h k (ground arith)) in
      (e ∷ es, ground arith, ground (arith, v.named c.path e g, same))
]

-- A merge always answers. Its paths are the exact candidates' paths, in order, then the verified
-- paths of the semantic results that are not exact candidates, each once and in the order of the
-- results, and the first `limit` of these are kept.
pub merge_candidates-paths :
    (t : Text) (exact : List Candidate) (results : List (Option String × SemanticResult))
    (limit : ℕ)
    → (found : List Candidate) × (merge_candidates t exact results limit ≡ some found)
      × (paths_of found ≡ take limit (paths_of exact ++ new_paths (paths_of exact) [] results))
unfolding merge_candidates get
merge_candidates-paths t exact results limit =
    let index =
      by_path-IsIndex (λ k. false) exact []
        (record { known = λ k. refl; named = λ k c h. absurd (ground arith) }) in
    let start : Merging = record {
      exact_by_path = by_path exact [];
      semantic_only = [];
      seen_semantic_paths = [];
    } in
    let (final, paths) =
      merge_all-Merged t (paths_of exact) results start
        (record { known = λ k. ground (arith, index.known k); named = index.named }) in
    let m = merge_all t results start in
    let (es, all, same) = replaced-paths exact m.exact_by_path _ final (λ k h. h) in
    (
      take limit (es ++ m.semantic_only),
      ground arith,
      paths_of-take limit (es ++ m.semantic_only)
          ∙ ap (λ l. take limit l)
              (paths_of-append es m.semantic_only
                ∙ ap (λ l. l ++ paths_of m.semantic_only) same
                ∙ ap (λ l. paths_of exact ++ l) paths),
    )

new_paths-apart :
    (exact seen : List String) (results : List (Option String × SemanticResult)) (a : String)
    → mem a exact || mem a seen ≡ true
    → mem a (new_paths exact seen results) ≡ false
new_paths-apart exact seen [] a h = refl
new_paths-apart exact seen ((none, r) ∷ results) a h = new_paths-apart exact seen results a h
new_paths-apart exact seen ((some p, r) ∷ results) a h = ground (
  arith,
  new_paths-apart exact seen results a h,
  new_paths-apart exact (insert p seen) results a,
  mem-insert p a seen,
  eq_iff p a,
)

new_paths-IsDistinct :
    (exact seen : List String) (results : List (Option String × SemanticResult))
    → IsDistinct (new_paths exact seen results)
new_paths-IsDistinct exact seen [] = tt
new_paths-IsDistinct exact seen ((none, r) ∷ results) = new_paths-IsDistinct exact seen results
new_paths-IsDistinct exact seen ((some p, r) ∷ results) = ground (
  arith,
  new_paths-IsDistinct exact seen results,
  new_paths-IsDistinct exact (insert p seen) results,
  new_paths-apart exact (insert p seen) results p,
  mem-insert p p seen,
  eq_iff p p,
)

append-IsDistinct :
    (xs ys : List String)
    → IsDistinct xs
    → IsDistinct ys
    → ((a : String) → mem a xs ≡ true → mem a ys ≡ false)
    → IsDistinct (xs ++ ys)
append-IsDistinct [] ys dx dy h = dy
append-IsDistinct (x ∷ xs) ys dx dy h = (
  ground (arith, mem-append x xs ys, h x, eq_iff x x),
  append-IsDistinct xs ys dx.1 dy (λ a m. h a (ground arith)),
)

mem-take : (n : ℕ) (a : String) (xs : List String) → mem a xs ≡ false → mem a (take n xs) ≡ false
mem-take zero a xs h = refl
mem-take (suc n) a [] h = refl
mem-take (suc n) a (x ∷ xs) h = ground (arith, mem-take n a xs)

take-IsDistinct : (n : ℕ) (xs : List String) → IsDistinct xs → IsDistinct (take n xs)
take-IsDistinct zero xs d = tt
take-IsDistinct (suc n) [] d = tt
take-IsDistinct (suc n) (x ∷ xs) d = (mem-take n x xs d.0, take-IsDistinct n xs d.1)

-- When the exact candidates are different notes, so are all the candidates of a merge, although the
-- search may return a note many times.
pub merge_candidates-IsDistinct :
    (t : Text) (exact : List Candidate) (results : List (Option String × SemanticResult))
    (limit : ℕ) {found : List Candidate}
    → IsDistinct (paths_of exact)
    → merge_candidates t exact results limit ≡ some found
    → IsDistinct (paths_of found)
merge_candidates-IsDistinct t exact results limit {found} d h =
    let (out, answer, paths) = merge_candidates-paths t exact results limit in
    let same : out ≡ found = ground arith in
    subst IsDistinct {x = take limit (paths_of exact ++ new_paths (paths_of exact) [] results)}
      (sym paths ∙ ap (λ (l : List Candidate). paths_of l) same)
      (take-IsDistinct limit _ (
        append-IsDistinct (paths_of exact) _ d (new_paths-IsDistinct (paths_of exact) [] results)
          (λ a m. new_paths-apart (paths_of exact) [] results a (ground arith))))

length-take-le {ℓ} : {A : Type ℓ} (n : ℕ) (xs : List A) → length (take n xs) ≤ n
length-take-le zero xs = omega arith
length-take-le (suc n) [] = omega arith
length-take-le (suc n) (x ∷ xs) = omega (arith, length-take-le n xs)

length-paths_of : (cs : List Candidate) → length (paths_of cs) ≡ length cs
length-paths_of [] = refl
length-paths_of (c ∷ cs) = omega (arith, length-paths_of cs)

-- The search ended without candidates to fall back on, or there are at most `limit` candidates.
abbrev pub IsBounded : ℕ → Answer → Type 0
IsBounded limit answer =
    (answer ≡ search_unavailable)
    ⊎ ((cs : List Candidate) × (answer ≡ answered cs) × (length cs ≤ limit))

without_search-IsBounded :
    (cs : List Candidate) (limit : ℕ) → IsBounded limit (without_search cs limit)
without_search-IsBounded [] limit = inl refl
without_search-IsBounded (c ∷ cs) limit = inr (_, refl, length-take-le limit (c ∷ cs))

find_in_folder-IsBounded :
    (t : Text) (live : List String) (search : ℕ → Option (List (Option String × SemanticResult)))
    (title : String) (limit : ℕ) (b : Bool)
    → IsBounded limit (find_in_folder t live search title limit b)
unfolding find_in_folder
find_in_folder-IsBounded t live search title limit false =
    without_search-IsBounded (exact_candidates_of t title live) limit
find_in_folder-IsBounded t live search title limit true = go (search (min 50 (limit * 3)))
  where
    exact : List Candidate
    exact = exact_candidates_of t title live

    go :
        (o : Option (List (Option String × SemanticResult)))
        → IsBounded limit (elim o [
          | none ↦ without_search exact limit
          | some results ↦ answer_of (merge_candidates t exact results limit)
        ])
    go none = without_search-IsBounded exact limit
    go (some results) =
        let (out, answer, paths) = merge_candidates-paths t exact results limit in
        inr (
          out,
          ap (λ (o : Option (List Candidate)). answer_of o) answer,
          omega (
            arith,
            length-paths_of out,
            ap (λ (l : List String). length l) paths,
            length-take-le limit (paths_of exact ++ new_paths (paths_of exact) [] results),
          ),
        )

-- `find_candidates` never fails on a missing entry, and never answers with more than `limit`
-- candidates: it ends with the search error, or with candidates within the limit.
pub find_candidates-IsBounded :
    (t : Text) (live : String → List String)
    (search : String → ℕ → Option (List (Option String × SemanticResult)))
    (folder : Option (Option String)) (title : String) (limit : ℕ) (b : Bool)
    → IsBounded limit (find_candidates t live search folder title limit b)
unfolding find_candidates
find_candidates-IsBounded t live search none title limit b =
    find_in_folder-IsBounded t (live "") (search "") title limit b
find_candidates-IsBounded t live search (some none) title limit b = inr ([], refl, omega arith)
find_candidates-IsBounded t live search (some (some folder)) title limit b =
    find_in_folder-IsBounded t (live folder) (search folder) title limit b
