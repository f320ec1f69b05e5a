-- ===== src/Spaces.antt =====
-- Knowledge spaces (app/services/knowledge_spaces.py): policies, scopes, the registry and the
-- authorization of operations. The classes raise `SpaceError` where a type is wrong; here the types
-- hold. An `is` of two objects compares the numbers that stand for them.
pub mod Config
pub mod Document
pub mod Reading
pub mod Writing
pub mod Valid
mod Samples
use vault_bridge.Base.{
  ℕ, ◌+◌, Bool, true, false, not, ◌&&◌, ◌||◌, Option, none, some, List, [], ◌∷◌, ◌==◌,
  if◌then◌else◌, map, length, any, every, leb, ltb,
}
use vault_bridge.Base.Codes.{Codes, codes, same_codes, in_range}

-- the categories of `SpaceError` that this file raises
pub data Category : Type 0 where
  invalid_configuration invalid_scope unknown_or_denied_space : Category
  unsupported_capability unsupported_dialect indexing_disabled : Category

pub data Capability : Type 0 where
  read_note list_notes literal_search relationships semantic_retrieval knowledge_query : Capability
  duplicate_candidates capture promotion create_note append_note hygiene : Capability

pub data Dialect : Type 0 where
  obsidian_wikilink markdown_link : Dialect

-- The values of the enumerations. Sets of their members are lists.
unfoldable pub capability_name : Capability → Codes
unfolding codes
capability_name read_note = codes "read_note"
capability_name list_notes = codes "list_notes"
capability_name literal_search = codes "literal_search"
capability_name relationships = codes "relationships"
capability_name semantic_retrieval = codes "semantic_retrieval"
capability_name knowledge_query = codes "knowledge_query"
capability_name duplicate_candidates = codes "duplicate_candidates"
capability_name capture = codes "capture"
capability_name promotion = codes "promotion"
capability_name create_note = codes "create_note"
capability_name append_note = codes "append_note"
capability_name hygiene = codes "hygiene"

unfoldable pub dialect_name : Dialect → Codes
unfolding codes
dialect_name obsidian_wikilink = codes "obsidian_wikilink"
dialect_name markdown_link = codes "markdown_link"

-- `operation in capabilities`
unfoldable pub has_capability : Capability → List Capability → Bool
unfolding capability_name
has_capability c l = any (λ d. same_codes (capability_name d) (capability_name c)) l

unfoldable pub has_dialect : Dialect → List Dialect → Bool
unfolding dialect_name
has_dialect c l = any (λ d. same_codes (dialect_name d) (dialect_name c)) l

-- `required_dialects <= dialects`
unfoldable pub all_dialects : List Dialect → List Dialect → Bool
unfolding has_dialect
all_dialects required dialects = every (λ d. has_dialect d dialects) required

abbrev pub is_semantic : Capability → Bool
is_semantic semantic_retrieval = true
is_semantic _ = false

-- KnowledgeSpacePolicy, with the number of the object
pub record Policy : Type 0 where
  pub read : Bool
  pub write : Bool
  pub indexing : Bool
  pub dialects : List Dialect
  pub capabilities : List Capability
  pub object_number : ℕ

-- the check of `__post_init__` on the values of the fields
abbrev pub accepts_policy : Policy → Bool
accepts_policy p = not (not p.read && (p.write || p.indexing))

-- KnowledgeSpaceDefinition
pub record Definition : Type 0 where
  pub space_id : Codes
  pub label : Option Codes
  pub policy : Policy
  pub root_binding : Codes
  pub semantic_data_binding : Codes

-- DEFAULT_SPACE_ID
unfoldable pub default_space_id : Codes
unfolding codes
default_space_id = codes "default"

-- `space_id < other`
abbrev pub id_less : Codes → Codes → Bool
id_less l [] = false
id_less [] (d ∷ m) = true
id_less (c ∷ l) (d ∷ m) = ltb c d || c == d && id_less l m

-- validate_space_id, of a text
abbrev pub is_space_id : Codes → Bool
is_space_id [] = false
is_space_id (c ∷ l) =
    in_range 0x61 0x7a c
    && leb (length l) 63
    && every (λ d. in_range 0x61 0x7a d || in_range 0x30 0x39 d || d == 0x5f || d == 0x2d) l

-- SpaceRegistry, with the owners by their space ids; an owner is a number
pub record SpaceRegistry : Type 0 where
  pub definitions : List Definition
  pub owners : List (Codes × ℕ)
  pub token : ℕ

-- AuthorizedSpaceBinding
pub record Binding : Type 0 where
  pub bound_id : Codes
  pub bound_policy : Policy
  pub owner : Option ℕ
  pub registry_token : ℕ

-- self._by_id.get(space_id); the ids of the definitions differ
unfoldable pub find_definition : Codes → List Definition → Option Definition
find_definition space_id [] = none
find_definition space_id (d ∷ ds) =
    let rest = find_definition space_id ds in
    if same_codes d.space_id space_id then some d else rest

-- self._owners.get(space_id)
unfoldable pub find_owner : Codes → List (Codes × ℕ) → Option ℕ
find_owner space_id [] = none
find_owner space_id ((key, owner) ∷ l) =
    let rest = find_owner space_id l in if same_codes key space_id then some owner else rest

unfoldable pub is_defined : Codes → List Definition → Bool
unfolding find_definition
is_defined space_id ds = elim (find_definition space_id ds) [ none ↦ false | some d ↦ true ]

-- An operation that answers, or raises `SpaceError`.
pub data Access {ℓ} (A : Type ℓ) : Type ℓ where
  granted : A → Access A
  denied : Category → Access A

infixl 5 ◌>>=◌
abbrev pub ◌>>=◌ {ℓ κ} : {A : Type ℓ} {B : Type κ} → Access A → (A → Access B) → Access B
granted a >>= f = f a
denied c >>= f = denied c

abbrev pub require : Bool → Category → Access (Unit {0})
require true c = granted tt
require false c = denied c

-- sorted(definitions, key=lambda item: item.space_id)
abbrev pub insert_definition : Definition → List Definition → List Definition
insert_definition d [] = d ∷ []
insert_definition d (e ∷ ds) =
    let rest = insert_definition d ds in
    if id_less e.space_id d.space_id then e ∷ rest else d ∷ e ∷ ds

abbrev pub sort_definitions : List Definition → List Definition
sort_definitions [] = []
sort_definitions (d ∷ ds) = insert_definition d (sort_definitions ds)

-- `from_settings`, after the definitions have been resolved: `owns` says that the owner is no
-- `SpaceOwners` of another definition, and `token` is the number of the new object
unfoldable pub new_registry :
    (ℕ → Option Definition → Bool) → List Definition → List (Codes × ℕ) → ℕ → Access SpaceRegistry
unfolding is_defined
new_registry owns definitions owners token =
    let sorted = sort_definitions definitions in
    require (every (λ (key, owner). is_defined key sorted) owners) invalid_configuration >>= λ _.
    require (every (λ (key, owner). owns owner (find_definition key sorted)) owners)
      invalid_configuration
    >>= λ _. granted (record { definitions = sorted; owners = owners; token = token })

-- SpaceRegistry._binding
unfoldable pub binding_of : SpaceRegistry → Codes → Definition → Binding
unfolding find_owner
binding_of r space_id d = record {
  bound_id = d.space_id;
  bound_policy = d.policy;
  owner = find_owner space_id r.owners;
  registry_token = r.token;
}

abbrev pub same_owner : Option ℕ → Option ℕ → Bool
same_owner none none = true
same_owner (some a) (some b) = a == b
same_owner _ _ = false

-- SpaceRegistry._accepts
unfoldable pub accepts : SpaceRegistry → Binding → Bool
unfolding find_definition find_owner
accepts r b =
    b.registry_token == r.token
    && elim (find_definition b.bound_id r.definitions) [
      | none ↦ false
      | some d ↦ b.bound_policy.object_number == d.policy.object_number
    ]
    && same_owner b.owner (find_owner b.bound_id r.owners)

-- the test of `_select` on one item
abbrev pub selected : Bool → Option Definition → Access Definition
selected write none = denied unknown_or_denied_space
selected write (some d) =
    require (d.policy.read && (not write || d.policy.write)) unknown_or_denied_space >>= λ _.
    granted d

-- _select
unfoldable pub select : SpaceRegistry → Bool → List Codes → Access (List Definition)
unfolding find_definition
select r write [] = granted []
select r write (space_id ∷ ids) = selected write (find_definition space_id r.definitions) >>= λ d.
    select r write ids >>= λ ds. granted (d ∷ ds)

-- _indexing
abbrev pub check_indexing : List Definition → Access (Unit {0})
check_indexing ds = require (every (λ d. d.policy.indexing) ds) indexing_disabled

-- _requirements
unfoldable pub requirements : List Definition → Capability → List Dialect → Access (Unit {0})
unfolding has_capability all_dialects
requirements ds operation required =
    require (every (λ d. has_capability operation d.policy.capabilities) ds) unsupported_capability
    >>= λ _.
        require (every (λ d. all_dialects required d.policy.dialects) ds) unsupported_dialect
        >>= λ _. if is_semantic operation then check_indexing ds else granted tt

-- ReadScope: the ids sorted and without repetition
abbrev pub insert_id : Codes → List Codes → List Codes
insert_id a [] = a ∷ []
insert_id a (b ∷ l) =
    let rest = insert_id a l in
    if same_codes a b then b ∷ l else if id_less a b then a ∷ b ∷ l else b ∷ rest

abbrev pub sort_ids : List Codes → List Codes
sort_ids [] = []
sort_ids (a ∷ l) = insert_id a (sort_ids l)

unfoldable pub read_scope : List Codes → Access (List Codes)
read_scope ids =
    require (leb 1 (length ids) && leb (length ids) 8) invalid_scope >>= λ _. granted (sort_ids ids)

-- the ids of an optional scope
unfoldable pub scope_ids : Option (List Codes) → List Codes
unfolding default_space_id
scope_ids none = default_space_id ∷ []
scope_ids (some ids) = ids

-- one for each id, with the definition that was selected for it
unfoldable pub bindings_of : SpaceRegistry → List Codes → List Definition → List Binding
unfolding binding_of
bindings_of r (space_id ∷ ids) (d ∷ ds) = binding_of r space_id d ∷ bindings_of r ids ds
bindings_of r _ _ = []

-- authorize_read
unfoldable pub authorize_read :
    SpaceRegistry → Option (List Codes) → Capability → List Dialect → Access (List Binding)
unfolding select requirements scope_ids bindings_of
authorize_read r scope operation required = select r false (scope_ids scope) >>= λ ds.
    requirements ds operation required >>= λ _. granted (bindings_of r (scope_ids scope) ds)

-- authorize_write
unfoldable pub authorize_write : SpaceRegistry → Option Codes → Capability → Bool → Access Binding
unfolding select requirements default_space_id binding_of
authorize_write r none operation legacy = require legacy invalid_scope >>= λ _.
    selected true (find_definition default_space_id r.definitions) >>= λ d.
    requirements (d ∷ []) operation [] >>= λ _. granted (binding_of r default_space_id d)
authorize_write r (some space_id) operation legacy =
    selected true (find_definition space_id r.definitions) >>= λ d.
    requirements (d ∷ []) operation [] >>= λ _. granted (binding_of r space_id d)

-- authorize_index
unfoldable pub authorize_index : SpaceRegistry → Codes → Access Binding
unfolding select binding_of
authorize_index r space_id = selected false (find_definition space_id r.definitions) >>= λ d.
    check_indexing (d ∷ []) >>= λ _. granted (binding_of r space_id d)
