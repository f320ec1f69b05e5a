-- ===== src/Duplicates.antt =====
-- Duplicate candidates of a note (app/services/duplicate_candidates.py): equal titles, and the merge
-- with the results of semantic search.
-- Scores are only passed on, and are numbers. What `str`, `unicodedata` and `PurePosixPath` answer is
-- the record `Text`. The vault's answers are arguments: in a batch, `verified source path` is the one
-- check of `path` that the work on `source` makes.
pub mod Batch
pub mod Merge
mod Samples
use vault_bridge.Base.{
  ℕ, ◌*◌, min, String, Bool, true, false, not, ◌&&◌, ◌||◌, Option, none, some, List, [], ◌∷◌, ◌++◌,
  map, ltb, leb, ◌==◌, str_eq, if◌then◌else◌, length, take, any, every, filter_by,
}
use vault_bridge.Base.Sets.{mem, insert}
use vault_bridge.Base.Dict.{get, put}

pub data MatchType : Type 0 where
  exact_title semantic : MatchType

-- DuplicateCandidate
pub record Candidate : Type 0 where
  pub path : String
  pub title : String
  pub match_type : MatchType
  pub score : Option ℕ
  pub semantic_score : Option ℕ
  pub lexical_score : Option ℕ
  pub snippet : Option String
  pub heading : Option String

-- DuplicateBatchResult
pub record BatchResult : Type 0 where
  pub by_source : List (String × List Candidate)
  pub raced_paths : List String
  pub source_unavailable : Bool
  pub candidate_unavailable : Bool
  pub semantic_unavailable : Bool

-- state; it is partial or complete
unfoldable pub is_partial : BatchResult → Bool
is_partial r = r.source_unavailable || r.candidate_unavailable || r.semantic_unavailable

-- The standard library on texts: NFKC, `" ".join(t.strip().split())`, `casefold`, the stem of a path,
-- and the order of the pairs of a casefolded path and the path.
pub record Text : Type 0 where
  pub nfkc : String → String
  pub single_spaced : String → String
  pub casefold : String → String
  pub stem : String → String
  pub le : String → String → Bool

-- normalize_note_title
unfoldable pub normalize_note_title : Text → String → String
normalize_note_title t title = t.casefold (t.single_spaced (t.nfkc title))

-- the normalized title of the note at a path
abbrev pub title_of : Text → String → String
title_of t path = normalize_note_title t (t.stem path)

-- sorted(..., key=order)
abbrev pub insert_path : Text → String → List String → List String
insert_path t a [] = a ∷ []
insert_path t a (b ∷ l) = let rest = insert_path t a l in if t.le a b then a ∷ b ∷ l else b ∷ rest

unfoldable pub sorted_paths : Text → List String → List String
sorted_paths t [] = []
sorted_paths t (a ∷ l) = insert_path t a (sorted_paths t l)

abbrev pub same_list : List String → List String → Bool
same_list [] [] = true
same_list [] (_ ∷ _) = false
same_list (_ ∷ _) [] = false
same_list (a ∷ l) (b ∷ m) = str_eq a b && same_list l m

abbrev pub no_repetition : List String → Bool
no_repetition [] = true
no_repetition (a ∷ l) = not (mem a l) && no_repetition l

-- `path_facts is None or set(path_facts) == set(universe)`
abbrev pub facts_match : Option (List String) → List String → Bool
facts_match none universe = true
facts_match (some facts) universe =
    every (λ f. mem f universe) facts && every (λ p. mem p facts) universe

-- the guard of `find_bounded_batch`, with the keys of `path_facts`
unfoldable pub is_bounded : Text → Option (List String) → List String → List String → Bool
unfolding sorted_paths
is_bounded t facts universe sources =
    leb (length universe) 10000
    && no_repetition universe
    && same_list (sorted_paths t universe) universe
    && leb (length sources) 20
    && same_list (sorted_paths t sources) sources
    && no_repetition sources
    && every (λ s. mem s universe) sources
    && facts_match facts universe

abbrev pub listed : Option (List String) → List String
listed none = []
listed (some paths) = paths

-- lookup.setdefault(title, []).append(path), for every path of the universe
unfoldable pub add_paths :
    Text → List String → List (String × List String) → List (String × List String)
add_paths t [] lookup = lookup
add_paths t (path ∷ paths) lookup =
    let title = title_of t path in
    add_paths t paths (put title (listed (get title lookup) ++ path ∷ []) lookup)

abbrev pub exact_candidate : Text → String → Candidate
exact_candidate t path = record {
  path = path;
  title = t.stem path;
  match_type = exact_title;
  score = none;
  semantic_score = none;
  lexical_score = none;
  snippet = none;
  heading = none;
}

-- What the inner loop has so far.
pub record Selection : Type 0 where
  pub selected : List Candidate
  pub candidate_unavailable : Bool
  pub raced_paths : List String

-- the inner loop, for one source
unfoldable pub select : Text → (String → Bool) → String → List String → Selection → Selection
select t verified source [] s = s
select t verified source (path ∷ paths) s =
    let skipped = select t verified source paths s in
    let raced =
      select t verified source paths
        (record s { candidate_unavailable = true; raced_paths = insert path s.raced_paths }) in
    let chosen = record s { selected = s.selected ++ exact_candidate t path ∷ [] } in
    let further = select t verified source paths chosen in
    if str_eq path source
    then skipped
    else if not (verified path)
    then raced
    else if length chosen.selected == 5
    then chosen
    else further

-- the outer loop
unfoldable pub batch_rows :
    Text
    → (String → String → Bool)
    → List (String × List String)
    → List String
    → BatchResult
    → BatchResult
unfolding select
batch_rows t verified lookup [] r = r
batch_rows t verified lookup (source ∷ sources) r =
    let s = select t (verified source) source (listed (get (title_of t source) lookup)) (record {
      selected = [];
      candidate_unavailable = r.candidate_unavailable;
      raced_paths = r.raced_paths;
    }) in
    let missing = record r {
      source_unavailable = true;
      raced_paths = insert source r.raced_paths;
    } in
    let found = record r {
      by_source = r.by_source ++ (source, s.selected) ∷ [];
      candidate_unavailable = s.candidate_unavailable;
      raced_paths = s.raced_paths;
    } in
    batch_rows t verified lookup sources (if verified source source then found else missing)

abbrev pub empty_result : Bool → BatchResult
empty_result semantic_candidates = record {
  by_source = [];
  raced_paths = [];
  source_unavailable = false;
  candidate_unavailable = false;
  semantic_unavailable = semantic_candidates;
}

-- find_bounded_batch; `none` is the `ValueError`
unfoldable pub find_bounded_batch :
    Text
    → (String → String → Bool)
    → Option (List String)
    → List String
    → List String
    → Bool
    → Option BatchResult
unfolding is_bounded add_paths batch_rows sorted_paths
find_bounded_batch t verified facts universe sources semantic_candidates =
    let r =
      batch_rows t verified (add_paths t universe []) sources (empty_result semantic_candidates) in
    if is_bounded t facts universe sources
    then some (record r { raced_paths = sorted_paths t r.raced_paths })
    else none

-- SemanticResult
pub record SemanticResult : Type 0 where
  pub path : String
  pub score : ℕ
  pub semantic_score : ℕ
  pub lexical_score : ℕ
  pub snippet : String
  pub heading : Option String

-- _candidate_from_semantic_result
abbrev pub candidate_from : Text → SemanticResult → String → Candidate
candidate_from t result verified_path = record {
  path = verified_path;
  title = t.stem verified_path;
  match_type = semantic;
  score = some result.score;
  semantic_score = some result.semantic_score;
  lexical_score = some result.lexical_score;
  snippet = some result.snippet;
  heading = result.heading;
}

-- replace(exact_candidate, ...)
abbrev pub with_scores : Candidate → Candidate → Candidate
with_scores exact found = record exact {
  score = found.score;
  semantic_score = found.semantic_score;
  lexical_score = found.lexical_score;
  snippet = found.snippet;
  heading = found.heading;
}

-- the three variables of the loop in `_merge_candidates`
pub record Merging : Type 0 where
  pub exact_by_path : List (String × Candidate)
  pub semantic_only : List Candidate
  pub seen_semantic_paths : List String

abbrev pub by_path : List Candidate → List (String × Candidate) → List (String × Candidate)
by_path [] d = d
by_path (c ∷ cs) d = by_path cs (put c.path c d)

abbrev pub place : Candidate → Option Candidate → Merging → Merging
place found none m = record m { semantic_only = m.semantic_only ++ found ∷ [] }
place found (some exact) m = record m {
  exact_by_path = put found.path (with_scores exact found) m.exact_by_path;
}

-- one round of the loop, with the path that the vault verifies for the result
abbrev pub merge_one : Text → Option String → SemanticResult → Merging → Merging
merge_one t none result m = m
merge_one t (some path) result m =
    if mem path m.seen_semantic_paths
    then m
    else place (candidate_from t result path) (get path m.exact_by_path)
        (record m { seen_semantic_paths = insert path m.seen_semantic_paths })

unfoldable pub merge_all : Text → List (Option String × SemanticResult) → Merging → Merging
merge_all t [] m = m
merge_all t ((verified_path, result) ∷ results) m =
    merge_all t results (merge_one t verified_path result m)

-- [exact_by_path[candidate.path] for candidate in exact_candidates]; `none` is a `KeyError`
unfoldable pub replaced : List Candidate → List (String × Candidate) → Option (List Candidate)
replaced [] d = some []
replaced (c ∷ cs) d = elim (get c.path d) [
  | none ↦ none
  | some e ↦ elim (replaced cs d) [ none ↦ none | some es ↦ some (e ∷ es) ]
]

-- _merge_candidates, with the vault's answer for each result
unfoldable pub merge_candidates :
    Text → List Candidate → List (Option String × SemanticResult) → ℕ → Option (List Candidate)
unfolding merge_all replaced
merge_candidates t exact_candidates semantic_results limit =
    let m = merge_all t semantic_results (record {
      exact_by_path = by_path exact_candidates [];
      semantic_only = [];
      seen_semantic_paths = [];
    }) in
    elim (replaced exact_candidates m.exact_by_path) [
      | none ↦ none
      | some merged ↦ some (take limit (merged ++ m.semantic_only))
    ]

-- How `find_candidates` ends: with candidates, or with an exception.
pub data Answer : Type 0 where
  answered : List Candidate → Answer
  search_unavailable key_error : Answer

abbrev pub answer_of : Option (List Candidate) → Answer
answer_of none = key_error
answer_of (some candidates) = answered candidates

abbrev pub exact_candidates_of : Text → String → List String → List Candidate
exact_candidates_of t title paths =
    map (exact_candidate t)
      (filter_by (λ p. str_eq (title_of t p) (normalize_note_title t title)) paths)

-- the `except` branch
abbrev pub without_search : List Candidate → ℕ → Answer
without_search [] limit = search_unavailable
without_search (c ∷ cs) limit = answered (take limit (c ∷ cs))

-- find_candidates in a folder that is there; `live` are the paths of its notes. `search` answers for
-- a limit, with the vault's answer for each result, and `none` is the search error.
unfoldable pub find_in_folder :
    Text
    → List String
    → (ℕ → Option (List (Option String × SemanticResult)))
    → String
    → ℕ
    → Bool
    → Answer
unfolding merge_candidates
find_in_folder t live search title limit semantic_candidates =
    let exact = exact_candidates_of t title live in
    if not semantic_candidates
    then without_search exact limit
    else elim (search (min 50 (limit * 3))) [
      | none ↦ without_search exact limit
      | some results ↦ answer_of (merge_candidates t exact results limit)
    ]

-- find_candidates; `folder` says whether a folder is given, and what the vault finds for it
unfoldable pub find_candidates :
    Text
    → (String → List String)
    → (String → ℕ → Option (List (Option String × SemanticResult)))
    → Option (Option String)
    → String
    → ℕ
    → Bool
    → Answer
unfolding find_in_folder
find_candidates t live search none title limit semantic_candidates =
    find_in_folder t (live "") (search "") title limit semantic_candidates
find_candidates t live search (some none) title limit semantic_candidates = answered []
find_candidates t live search (some (some folder)) title limit semantic_candidates =
    find_in_folder t (live folder) (search folder) title limit semantic_candidates
