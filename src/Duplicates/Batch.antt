-- ===== src/Duplicates/Batch.antt =====
-- What `find_bounded_batch` (app/services/duplicate_candidates.py) answers: its rows against a direct
-- description by filters, whatever the vault verifies while the batch runs.
use vault_bridge.Base.{
  ℕ, suc, zero, ◌≤◌, ◌<◌, ◌≡◌, refl, sym, ap, subst, ◌∙◌, String, Bool, true, false, not, ◌&&◌,
  Option, some, List, [], ◌∷◌, ◌++◌, map, ◌==◌, str_eq, if◌then◌else◌, length, take, filter_by,
  arith, eq_iff, Bool-cases, inl, inr, length-append,
}
use mathlib.Core.List.{append-nil, append_assoc}
use vault_bridge.Base.Dict.{get, put, get-put}
use vault_bridge.Base.Sets.{insert}
use vault_bridge.Duplicates.{
  Text, Candidate, BatchResult, Selection, title_of, exact_candidate, listed, add_paths, select,
  batch_rows, find_bounded_batch, empty_result,
}

take-append {ℓ} : {A : Type ℓ} (xs ys : List A) → take (length xs) (xs ++ ys) ≡ xs
take-append [] [] = refl
take-append [] (y ∷ ys) = refl
take-append (x ∷ xs) ys = ap (λ l. x ∷ l) (take-append xs ys)

take_append_of {ℓ} : {A : Type ℓ} (xs ys : List A) (n : ℕ) → length xs ≡ n → take n (xs ++ ys) ≡ xs
take_append_of xs ys n h = subst (λ m. take m (xs ++ ys) ≡ xs) h (take-append xs ys)

take_all {ℓ} : {A : Type ℓ} (n : ℕ) (xs : List A) → length xs ≤ n → take n xs ≡ xs
take_all zero [] h = refl
take_all zero (x ∷ xs) h = absurd (omega arith)
take_all (suc n) [] h = refl
take_all (suc n) (x ∷ xs) h = ap (λ l. x ∷ l) (take_all n xs (omega arith))

-- the paths with the normalized title, in order
abbrev pub titled : Text → String → List String → List String
titled t title paths = filter_by (λ p. str_eq (title_of t p) title) paths

lookup-titled :
    (t : Text) (title : String) (paths : List String) (d : List (String × List String))
    → listed (get title (add_paths t paths d)) ≡ listed (get title d) ++ titled t title paths
unfolding add_paths
lookup-titled t title [] d = sym (append-nil _)
lookup-titled t title (p ∷ ps) d =
    let here_title = title_of t p in
    let old = listed (get here_title d) in
    lookup-titled t title ps (put here_title (old ++ p ∷ []) d)
    ∙ elim (Bool-cases (str_eq here_title title)) [
      | inl e ↦ ground (
        arith,
        get-put here_title title (old ++ p ∷ []) d,
        eq_iff here_title title,
        append_assoc old (p ∷ []) (titled t title ps),
      )
      | inr e ↦ ground (arith, get-put here_title title (old ++ p ∷ []) d)
    ]

-- A path that the work on `source` takes as a candidate, if there is room.
abbrev pub is_candidate : (String → Bool) → String → String → Bool
is_candidate verified source p = not (str_eq p source) && verified p

select-rows :
    (t : Text) (verified : String → Bool) (source : String) (paths : List String) (s : Selection)
    → length s.selected < 5
    → (select t verified source paths s).selected
      ≡ take 5
          (s.selected ++ map (exact_candidate t) (filter_by (is_candidate verified source) paths))
unfolding select
select-rows t v source [] s h =
    sym (ap (λ l. take 5 l) (append-nil s.selected) ∙ take_all 5 s.selected (omega arith))
select-rows t v source (p ∷ ps) s h =
    let c = exact_candidate t p in
    let rest = map (exact_candidate t) (filter_by (is_candidate v source) ps) in
    elim (Bool-cases (str_eq p source)) [
      | inl same ↦ rw same (select-rows t v source ps s h)
      | inr other ↦ elim (Bool-cases (v p)) [
        | inr gone ↦ rw other (rw gone (select-rows t v source ps _ h))
        | inl live ↦ rw other (
            rw live (elim (Bool-cases (length (s.selected ++ c ∷ []) == 5)) [
              | inl five ↦ rw five (
                  sym (
                    ap (λ l. take 5 l) (sym (append_assoc s.selected (c ∷ []) rest))
                    ∙ take_append_of (s.selected ++ c ∷ []) rest 5 (ground arith)))
              | inr room ↦ rw room (
                  select-rows t v source ps (record s { selected = s.selected ++ c ∷ [] })
                    (ground (arith, length-append s.selected (c ∷ [])))
                  ∙ ap (λ l. take 5 l) (append_assoc s.selected (c ∷ []) rest))
            ]))
      ]
    ]

-- The row of a source: the first five live paths with its title, other than its own.
abbrev pub duplicates_of : Text → (String → String → Bool) → List String → String → List Candidate
duplicates_of t verified universe source = take 5 (
    map (exact_candidate t)
      (filter_by (is_candidate (verified source) source) (titled t (title_of t source) universe)))

abbrev pub rows_of :
    Text → (String → String → Bool) → List String → List String → List (String × List Candidate)
rows_of t verified universe sources =
    map (λ s. (s, duplicates_of t verified universe s)) (filter_by (λ s. verified s s) sources)

batch_rows-rows :
    (t : Text) (verified : String → String → Bool) (universe sources : List String)
    (r : BatchResult)
    → (batch_rows t verified (add_paths t universe []) sources r).by_source
      ≡ r.by_source ++ rows_of t verified universe sources
unfolding batch_rows get
batch_rows-rows t v universe [] r = sym (append-nil r.by_source)
batch_rows-rows t v universe (s ∷ sources) r =
    go (λ q. batch_rows-rows t v universe sources q) (v s s)
  where
    lookup : List (String × List String)
    lookup = add_paths t universe []

    start : Selection
    start = record {
      selected = [];
      candidate_unavailable = r.candidate_unavailable;
      raced_paths = r.raced_paths;
    }

    found : Selection
    found = select t (v s) s (listed (get (title_of t s) lookup)) start

    row : found.selected ≡ duplicates_of t v universe s
    row =
        select-rows t (v s) s (listed (get (title_of t s) lookup)) start (omega arith)
        ∙ ap (λ l. take 5 (map (exact_candidate t) (filter_by (is_candidate (v s) s) l)))
            (lookup-titled t (title_of t s) universe [])

    after_row : BatchResult
    after_row = record r {
      by_source = r.by_source ++ (s, found.selected) ∷ [];
      candidate_unavailable = found.candidate_unavailable;
      raced_paths = found.raced_paths;
    }

    missing : BatchResult
    missing = record r { source_unavailable = true; raced_paths = insert s r.raced_paths }

    go :
        ((q : BatchResult)
          → (batch_rows t v lookup sources q).by_source
            ≡ q.by_source ++ rows_of t v universe sources)
        → (b : Bool)
        → (batch_rows t v lookup sources (if b then after_row else missing)).by_source
          ≡ r.by_source
            ++ map
                (λ a. (a, duplicates_of t v universe a))
                (if b then s ∷ filter_by (λ a. v a a) sources else filter_by (λ a. v a a) sources)
    go rest false = rest missing
    go rest true =
        rest after_row
        ∙ append_assoc r.by_source ((s, found.selected) ∷ []) (rows_of t v universe sources)
        ∙ ap (λ l. r.by_source ++ ((s, l) ∷ rows_of t v universe sources)) row

-- The rows of an accepted batch are those of a direct description: one row for each source that is
-- still there, in order, with the first five paths of the universe, in order, that have the same
-- normalized title, are not the source and are still there when the work on the source looks.
pub find_bounded_batch-rows :
    (t : Text) (verified : String → String → Bool) (facts : Option (List String))
    (universe sources : List String) (semantic_candidates : Bool) {r : BatchResult}
    → find_bounded_batch t verified facts universe sources semantic_candidates ≡ some r
    → r.by_source ≡ rows_of t verified universe sources
unfolding find_bounded_batch
find_bounded_batch-rows t v facts universe sources b h =
    ground (arith, batch_rows-rows t v universe sources (empty_result b))
