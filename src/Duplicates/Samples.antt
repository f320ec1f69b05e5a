-- ===== src/Duplicates/Samples.antt =====
-- Duplicate candidates at concrete inputs.
use vault_bridge.Base.{
  ◌≡◌, refl, String, Bool, true, false, Option, none, some, List, [], ◌∷◌, ◌++◌, str_eq,
  if◌then◌else◌, take,
}
use vault_bridge.Base.Dict.{get, put}
use vault_bridge.Duplicates.{
  normalize_note_title, Text, Candidate, BatchResult, SemanticResult, exact_candidate,
  find_bounded_batch, merge_candidates, find_candidates, candidate_from, with_scores,
}
use vault_bridge.Duplicates.Batch.{rows_of, find_bounded_batch-rows}
use vault_bridge.Duplicates.Merge.{
  paths_of, new_paths, IsBounded, merge_candidates-paths, find_candidates-IsBounded,
}

-- Texts in normal form, with notes that are called "x" but one.
abbrev plain : Text
plain = record {
  nfkc = λ s. s;
  single_spaced = λ s. s;
  casefold = λ s. s;
  stem = λ p. if str_eq p "z.md" then "z" else "x";
  le = λ a b. true;
}

abbrev universe : List String
universe = "a/x.md" ∷ "b/x.md" ∷ "c/x.md" ∷ "z.md" ∷ []

-- The note in c is gone.
abbrev still_there : String → String → Bool
still_there source path = if str_eq path "c/x.md" then false else true

abbrev batch : BatchResult
batch = record {
  by_source = ("a/x.md", exact_candidate plain "b/x.md" ∷ []) ∷ ("z.md", []) ∷ [];
  raced_paths = "c/x.md" ∷ [];
  source_unavailable = false;
  candidate_unavailable = true;
  semantic_unavailable = false;
}

batch_answer :
    find_bounded_batch plain still_there none universe ("a/x.md" ∷ "z.md" ∷ []) false ≡ some batch
unfolding find_bounded_batch get put normalize_note_title
batch_answer = refl

find_bounded_batch-rows_example :
    batch.by_source ≡ rows_of plain still_there universe ("a/x.md" ∷ "z.md" ∷ [])
find_bounded_batch-rows_example =
    find_bounded_batch-rows plain still_there none universe ("a/x.md" ∷ "z.md" ∷ []) false
      batch_answer

abbrev hit : String → SemanticResult
hit path = record {
  path = path;
  score = 7;
  semantic_score = 8;
  lexical_score = 6;
  snippet = "text";
  heading = none;
}

abbrev hits : List (Option String × SemanticResult)
hits =
    (some "b/x.md", hit "b/x.md")
    ∷ (some "z.md", hit "z.md")
    ∷ (none, hit "gone.md")
    ∷ (some "z.md", hit "z.md")
    ∷ []

abbrev exact : List Candidate
exact = exact_candidate plain "a/x.md" ∷ exact_candidate plain "b/x.md" ∷ []

merge_candidates-paths_example :
    (out : List Candidate) × (merge_candidates plain exact hits 5 ≡ some out)
    × (paths_of out ≡ take 5 (paths_of exact ++ new_paths (paths_of exact) [] hits))
merge_candidates-paths_example = merge_candidates-paths plain exact hits 5

abbrev merged : List Candidate
merged =
    exact_candidate plain "a/x.md"
    ∷ with_scores (exact_candidate plain "b/x.md") (candidate_from plain (hit "b/x.md") "b/x.md")
    ∷ candidate_from plain (hit "z.md") "z.md"
    ∷ []

merged_answer : merge_candidates plain exact hits 5 ≡ some merged
unfolding merge_candidates get put
merged_answer = refl

find_candidates-IsBounded_example :
    IsBounded 1 (find_candidates plain (λ folder. universe) (λ folder n. some hits) none "x" 1 true)
find_candidates-IsBounded_example =
    find_candidates-IsBounded plain (λ folder. universe) (λ folder n. some hits) none "x" 1 true
