-- ===== src/Query/Requests/Tags.antt =====
-- The tags of a validated knowledge query (app/services/knowledge_query.py).
use vault_bridge.Base.{
  ◌≤◌, ◌≡◌, refl, ap, sym, subst, ◌∙◌, Bool, true, false, ◌&&◌, ◌||◌, none, some, List, [], ◌∷◌,
  if◌then◌else◌, length, any, leb, arith, Bool-cases, inl, inr,
}
use vault_bridge.Base.Codes.{Codes, same_codes, same_codes_iff}
use vault_bridge.Query.Requests.{
  KnowledgeQuery, max_tags, max_limit, max_paths, max_metadata_predicates,
  max_relationship_predicates, counts_fit, members_fit, asks_something, accepts_request,
  normalized_tags, validate_request,
}

abbrev pub has_tag : Codes → List Codes → Bool
has_tag t tags = any (λ u. same_codes u t) tags

-- some tag of the request is this one when it is stripped
abbrev pub asks_for : (Codes → Codes) → Codes → List Codes → Bool
asks_for strip t tags = any (λ tag. same_codes (strip tag) t) tags

same_in :
    (t u : Codes) (seen : List Codes) → same_codes t u ≡ true → has_tag t seen ≡ has_tag u seen
same_in t u seen h = ap (λ x. has_tag x seen) ((same_codes_iff t u).0 h)

-- A tag that has been seen or is kept is one that has been seen or is asked for.
normalized_tags_lem :
    (strip : Codes → Codes) (seen tags : List Codes) (t : Codes)
    → (has_tag t seen || has_tag t (normalized_tags strip seen tags))
      ≡ (has_tag t seen || asks_for strip t tags)
unfolding normalized_tags
normalized_tags_lem strip seen [] t = refl
normalized_tags_lem strip seen (tag ∷ tags) t =
    elim (Bool-cases (any (λ u. same_codes u (strip tag)) seen)) [
      | inl old ↦
          rw old (ground (arith, normalized_tags_lem strip seen tags t, same_in (strip tag) t seen))
      | inr new ↦ rw new (ground (arith, normalized_tags_lem strip (strip tag ∷ seen) tags t))
    ]

abbrev pub IsDistinct : List Codes → Type 0
IsDistinct [] = Unit
IsDistinct (t ∷ tags) = (has_tag t tags ≡ false) × IsDistinct tags

-- nothing that has been seen is kept again
normalized_tags-unseen :
    (strip : Codes → Codes) (seen tags : List Codes) (t : Codes)
    → has_tag t seen ≡ true
    → has_tag t (normalized_tags strip seen tags) ≡ false
unfolding normalized_tags
normalized_tags-unseen strip seen [] t h = refl
normalized_tags-unseen strip seen (tag ∷ tags) t h =
    elim (Bool-cases (any (λ u. same_codes u (strip tag)) seen)) [
      | inl old ↦ rw old (normalized_tags-unseen strip seen tags t h)
      | inr new ↦ rw new (
          ground (
            arith,
            normalized_tags-unseen strip (strip tag ∷ seen) tags t (ground arith),
            same_in (strip tag) t seen,
          ))
    ]

normalized_tags-IsDistinct :
    (strip : Codes → Codes) (seen tags : List Codes) → IsDistinct (normalized_tags strip seen tags)
unfolding normalized_tags
normalized_tags-IsDistinct strip seen [] = tt
normalized_tags-IsDistinct strip seen (tag ∷ tags) =
    elim (Bool-cases (any (λ u. same_codes u (strip tag)) seen)) [
      | inl old ↦ rw old (normalized_tags-IsDistinct strip seen tags)
      | inr new ↦ rw new (
        normalized_tags-unseen strip (strip tag ∷ seen) tags (strip tag)
            (ground (arith, (same_codes_iff (strip tag) (strip tag)).1 refl)),
        normalized_tags-IsDistinct strip (strip tag ∷ seen) tags,
      )
    ]

length-normalized_tags :
    (strip : Codes → Codes) (seen tags : List Codes)
    → length (normalized_tags strip seen tags) ≤ length tags
unfolding normalized_tags
length-normalized_tags strip seen [] = omega arith
length-normalized_tags strip seen (tag ∷ tags) =
    elim (Bool-cases (any (λ u. same_codes u (strip tag)) seen)) [
      | inl old ↦ rw old (omega (arith, length-normalized_tags strip seen tags))
      | inr new ↦ rw new (omega (arith, length-normalized_tags strip (strip tag ∷ seen) tags))
    ]

if-some :
    (b : Bool) (x y : List Codes) → (if b then some x else none) ≡ some y → (b ≡ true) × (x ≡ y)
if-some true x y h = (refl, cc)
if-some false x y h = cc

first_holds : (a b : Bool) → (a && b) ≡ true → a ≡ true
first_holds true b h = refl
first_holds false b h = h

last_holds : (a b : Bool) → (a && b) ≡ true → b ≡ true
last_holds true b h = h
last_holds false b h = cc

counts_fit-tags : (q : KnowledgeQuery) → counts_fit q ≡ true → length q.tags ≤ max_tags
unfolding counts_fit
counts_fit-tags q h =
    let few =
      last_holds
        (leb 1 q.limit
          && leb q.limit max_limit
          && leb (length q.paths) max_paths
          && leb (length q.metadata) max_metadata_predicates
          && leb (length q.relationships) max_relationship_predicates)
        (leb (length q.tags) max_tags) h in
    few_tags q few
  where
    few_tags : (q : KnowledgeQuery) → leb (length q.tags) max_tags ≡ true → length q.tags ≤ max_tags
    few_tags q few = ground arith

accepts_request-tags :
    (strip : Codes → Codes) (q : KnowledgeQuery)
    → accepts_request strip q ≡ true
    → length q.tags ≤ max_tags
unfolding accepts_request
accepts_request-tags strip q h = counts_fit-tags q (
    first_holds (counts_fit q) (members_fit strip q)
      (first_holds (counts_fit q && members_fit strip q) (asks_something q) h))

-- A request is validated only if it passes every test, and the validated tags are exactly its tags
-- without the blanks at their ends, each once, at most 16 of them.
pub validate_request-IsDistinct :
    (strip : Codes → Codes) (q : KnowledgeQuery) (tags : List Codes)
    → validate_request strip q ≡ some tags
    → (accepts_request strip q ≡ true)
      × IsDistinct tags
      × (length tags ≤ max_tags)
      × ((t : Codes) → has_tag t tags ≡ asks_for strip t q.tags)
unfolding validate_request
validate_request-IsDistinct strip q tags h =
    let (accepted, same) =
      if-some (accepts_request strip q) (normalized_tags strip [] q.tags) tags h in
    (
      accepted,
      subst (λ l. IsDistinct l) same (normalized_tags-IsDistinct strip [] q.tags),
      omega (
        arith,
        length-normalized_tags strip [] q.tags,
        ap (λ l. length l) same,
        accepts_request-tags strip q accepted,
      ),
      λ t. ap (λ l. has_tag t l) (sym same) ∙ normalized_tags_lem strip [] q.tags t,
    )
