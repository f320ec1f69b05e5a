-- ===== src/Spaces/Document.antt =====
-- The document of `parse_knowledge_spaces` (app/services/knowledge_spaces.py): its records, the sets in
-- them, and the definitions that it gives.
use vault_bridge.Base.{
  ℕ, suc, Bool, true, false, not, ◌&&◌, ◌||◌, Option, none, some, List, [], ◌∷◌, ◌==◌,
  if◌then◌else◌, map, any, every, leb,
}
use vault_bridge.Base.Codes.{Codes, codes, same_codes}
use vault_bridge.Spaces.{
  Capability, Dialect, read_note, list_notes, literal_search, relationships, semantic_retrieval,
  knowledge_query, duplicate_candidates, capture, promotion, create_note, append_note, hygiene,
  obsidian_wikilink, markdown_link, capability_name, dialect_name, Policy, accepts_policy,
  Definition, default_space_id, is_space_id, sort_definitions,
}
use vault_bridge.Spaces.Config.{
  Json, Elements, Pairs, json_integer, json_array, json_object, no_elements, element, no_pairs,
  pair, Library, ◌>>=◌, check, get_pair, has_pair, passes_hooks, json_depth, no_depth, utf8,
  text_of, label_of, native_path,
}

abbrev pub count_elements : Elements → ℕ
count_elements no_elements = 0
count_elements (element v xs) = suc (count_elements xs)

-- the texts of an array of texts
abbrev pub texts_of : Elements → Option (List Codes)
texts_of no_elements = some []
texts_of (element v xs) = text_of v >>= λ s. texts_of xs >>= λ l. some (s ∷ l)

-- `len(set(values)) == len(values)`
abbrev pub all_distinct : List Codes → Bool
all_distinct [] = true
all_distinct (a ∷ l) = not (any (same_codes a) l) && all_distinct l

-- enum(item)
abbrev pub member_of {ℓ} : {A : Type ℓ} → (A → Codes) → List A → Codes → Option A
member_of name [] value = none
member_of name (a ∷ l) value =
    let rest = member_of name l value in if same_codes (name a) value then some a else rest

abbrev pub members_of {ℓ} : {A : Type ℓ} → (A → Codes) → List A → List Codes → Option (List A)
members_of name all [] = some []
members_of name all (v ∷ values) =
    member_of name all v >>= λ a. members_of name all values >>= λ l. some (a ∷ l)

abbrev pub elements_of : Json → Option Elements
elements_of (json_array xs) = some xs
elements_of _ = none

abbrev pub pairs_of : Json → Option Pairs
pairs_of (json_object ps) = some ps
pairs_of _ = none

-- _finite_set, for an enumeration with these members
abbrev pub finite_set {ℓ} : {A : Type ℓ} → (A → Codes) → List A → ℕ → Json → Option (List A)
finite_set name all maximum v = elements_of v >>= λ xs.
    check (leb (count_elements xs) maximum) >>= λ _.
    texts_of xs >>= λ values. check (all_distinct values) >>= λ _. members_of name all values

abbrev pub capabilities : List Capability
capabilities =
    read_note ∷ list_notes ∷ literal_search ∷ relationships ∷ semantic_retrieval ∷ knowledge_query
    ∷ duplicate_candidates ∷ capture ∷ promotion ∷ create_note ∷ append_note ∷ hygiene ∷ []

abbrev pub dialects : List Dialect
dialects = obsidian_wikilink ∷ markdown_link ∷ []

-- a field with one of two values, and whether it has the first
abbrev pub choice : Codes → Codes → Json → Option Bool
choice first second v = text_of v >>= λ s.
    if same_codes s first then some true else if same_codes s second then some false else none

abbrev pub keys_of : Pairs → List Codes
keys_of no_pairs = []
keys_of (pair k v ps) = k ∷ keys_of ps

-- all these keys, and at most those as well
abbrev pub has_keys : List Codes → List Codes → Pairs → Bool
has_keys required optional ps =
    every (λ k. has_pair k ps) required
    && every (λ k. any (same_codes k) required || any (same_codes k) optional) (keys_of ps)

unfoldable pub required_keys : List Codes
unfolding codes
required_keys =
    codes "space_id"
    ∷ codes "root"
    ∷ codes "semantic_data_path"
    ∷ codes "read"
    ∷ codes "write"
    ∷ codes "indexing"
    ∷ codes "dialects"
    ∷ codes "capabilities"
    ∷ []

-- the check of KnowledgeSpacePolicy
abbrev pub checked_policy : Policy → Option Policy
checked_policy p = check (accepts_policy p) >>= λ _. some p

unfoldable pub choice_at : Codes → Codes → Codes → Pairs → Option Bool
unfolding get_pair
choice_at key first second ps = get_pair key ps >>= λ v. choice first second v

abbrev pub PolicyFields : Type 0
PolicyFields = Bool × Bool × Bool × List Dialect × List Capability

-- the arguments of KnowledgeSpacePolicy
unfoldable pub policy_fields : Pairs → Option PolicyFields
unfolding codes choice_at capability_name dialect_name
policy_fields ps = choice_at (codes "read") (codes "allow") (codes "deny") ps >>= λ read.
    choice_at (codes "write") (codes "allow") (codes "deny") ps >>= λ write.
    choice_at (codes "indexing") (codes "enabled") (codes "disabled") ps >>= λ indexing.
    get_pair (codes "dialects") ps >>= λ d. finite_set dialect_name dialects 2 d >>= λ spoken.
    get_pair (codes "capabilities") ps >>= λ c.
    finite_set capability_name capabilities 12 c >>= λ allowed.
    some (read, write, indexing, spoken, allowed)

abbrev pub policy_record : ℕ → PolicyFields → Policy
policy_record number (read, write, indexing, spoken, allowed) = record {
  read = read;
  write = write;
  indexing = indexing;
  dialects = spoken;
  capabilities = allowed;
  object_number = number;
}

-- the policy of a record, with the number of the new object
unfoldable pub policy_of : ℕ → Pairs → Option Policy
unfolding policy_fields
policy_of number ps = policy_fields ps >>= λ fields. checked_policy (policy_record number fields)

-- validate_space_id
abbrev pub space_id_of : Option Json → Option Codes
space_id_of o = o >>= λ v. text_of v >>= λ s. check (is_space_id s) >>= λ _. some s

unfoldable pub optional_label : Library → Option Json → Option (Option Codes)
unfolding label_of
optional_label lib none = some none
optional_label lib (some v) = label_of lib v >>= λ s. some (some s)

-- the label and the two paths
unfoldable pub bindings_at : Library → Pairs → Option (Option Codes × Codes × Codes)
unfolding codes get_pair optional_label native_path
bindings_at lib ps = optional_label lib (get_pair (codes "label") ps) >>= λ label.
    get_pair (codes "root") ps >>= λ r. native_path lib r >>= λ root.
    get_pair (codes "semantic_data_path") ps >>= λ s.
    native_path lib s >>= λ data_path. some (label, root, data_path)

-- the fields of a record, if its keys are right
unfoldable pub record_of : Json → Option Pairs
unfolding codes required_keys
record_of v =
    pairs_of v >>= λ ps. check (has_keys required_keys (codes "label" ∷ []) ps) >>= λ _. some ps

-- the definition of a record
unfoldable pub definition_of : Library → ℕ → Json → Option Definition
unfolding codes get_pair record_of policy_of bindings_at
definition_of lib number v = record_of v >>= λ ps.
    space_id_of (get_pair (codes "space_id") ps) >>= λ space_id. policy_of number ps >>= λ policy.
    bindings_at lib ps >>= λ (label, root, data_path). some (record {
      space_id = space_id;
      label = label;
      policy = policy;
      root_binding = root;
      semantic_data_binding = data_path;
    })

-- the loop over the records, with the numbers of the policies from a number on
unfoldable pub definitions_of : Library → ℕ → Elements → Option (List Definition)
unfolding definition_of
definitions_of lib number no_elements = some []
definitions_of lib number (element v xs) =
    definition_of lib number v >>= λ d. definitions_of lib (suc number) xs >>= λ ds. some (d ∷ ds)

-- ids.count(space_id), of the ids of definitions
unfoldable pub count_id : Codes → List Definition → ℕ
count_id space_id [] = 0
count_id space_id (d ∷ ds) =
    let rest = count_id space_id ds in if same_codes d.space_id space_id then suc rest else rest

-- the checks on all ids, and the sorting
unfoldable pub checked_definitions : List Definition → Option (List Definition)
unfolding count_id default_space_id
checked_definitions ds =
    check (all_distinct (map (λ d. d.space_id) ds) && count_id default_space_id ds == 1) >>= λ _.
    some (sort_definitions ds)

abbrev pub is_one : Json → Bool
is_one (json_integer negative n) = not negative && n == 1
is_one _ = false

-- the tests on the keys and the version, with the value of `spaces`
unfoldable pub versioned : Json → Option Json
unfolding codes get_pair passes_hooks
versioned document = check (passes_hooks document) >>= λ _. pairs_of document >>= λ ps.
    check (has_keys (codes "version" ∷ codes "spaces" ∷ []) [] ps) >>= λ _.
    get_pair (codes "version") ps >>= λ v. check (is_one v) >>= λ _. get_pair (codes "spaces") ps

-- the tests on the document, up to those on its records
unfoldable pub spaces_of : Json → Option Elements
unfolding versioned
spaces_of document = versioned document >>= λ s. elements_of s >>= λ xs.
    check (leb 1 (count_elements xs) && leb (count_elements xs) 8) >>= λ _. some xs

-- the part of `parse_knowledge_spaces` after `json.loads`
unfoldable pub definitions_from : Library → Json → Option (List Definition)
unfolding spaces_of definitions_of checked_definitions
definitions_from lib document =
    spaces_of document >>= λ xs. definitions_of lib 0 xs >>= λ ds. checked_definitions ds

abbrev pub is_empty : Codes → Bool
is_empty [] = true
is_empty (_ ∷ _) = false

abbrev pub starts_with_mark : Codes → Bool
starts_with_mark [] = false
starts_with_mark (c ∷ l) = c == 0xfeff

-- the tests on the text, and `json.loads`
unfoldable pub document_of : Library → Codes → Option Json
unfolding json_depth
document_of lib text = utf8 text 32768 >>= λ raw.
    check (not (is_empty (lib.strip raw)) && not (starts_with_mark raw)) >>= λ _.
    json_depth raw no_depth >>= λ _. lib.loads raw

-- parse_knowledge_spaces
unfoldable pub parse_knowledge_spaces : Library → Codes → Option (List Definition)
unfolding document_of definitions_from
parse_knowledge_spaces lib text = document_of lib text >>= λ document. definitions_from lib document
