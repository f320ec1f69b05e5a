-- ===== src/Spaces/Samples.antt =====
-- A registry of two spaces, of which one cannot be read, and a configuration of one space.
use vault_bridge.Base.{ℕ, ◌≡◌, refl, Bool, true, false, Option, none, some, [], ◌∷◌}
use vault_bridge.Base.Codes.{Codes, codes}
use vault_bridge.Spaces.{
  Definition, Policy, SpaceRegistry, read_note, capture, obsidian_wikilink, scope_ids,
  authorize_read, authorize_write,
}
use vault_bridge.Spaces.Reading.{IsReadAnswer, authorize_read-IsReadAnswer}
use vault_bridge.Spaces.Writing.{IsWriteAnswer, authorize_write-IsWriteAnswer}
use vault_bridge.Spaces.Config.{
  Json, Pairs, Library, json_object, json_integer, json_array, json_string, no_pairs, pair,
  no_elements, element,
}
use vault_bridge.Spaces.Document.{parse_knowledge_spaces}
use vault_bridge.Spaces.Valid.{Every, IsConfiguration, parse_knowledge_spaces-IsConfiguration}

abbrev policy_with : Bool → ℕ → Policy
policy_with read number = record {
  read = read;
  write = read;
  indexing = read;
  dialects = obsidian_wikilink ∷ [];
  capabilities = read_note ∷ capture ∷ [];
  object_number = number;
}

abbrev definition_with : Codes → Policy → Definition
definition_with space_id policy = record {
  space_id = space_id;
  label = none;
  policy = policy;
  root_binding = 0x2f ∷ 97 ∷ [];
  semantic_data_binding = 0x2f ∷ 98 ∷ [];
}

abbrev registry : SpaceRegistry
registry = record {
  definitions =
      definition_with (97 ∷ []) (policy_with true 1)
      ∷ definition_with (98 ∷ []) (policy_with false 2)
      ∷ [];
  owners = (97 ∷ [], 5) ∷ [];
  token = 9;
}

authorize_read-IsReadAnswer_example :
    IsReadAnswer registry
      (scope_ids (some ((97 ∷ []) ∷ (98 ∷ []) ∷ [])))
      read_note
      (obsidian_wikilink ∷ [])
      (authorize_read registry
        (some ((97 ∷ []) ∷ (98 ∷ []) ∷ []))
        read_note
        (obsidian_wikilink ∷ []))
authorize_read-IsReadAnswer_example =
    authorize_read-IsReadAnswer registry (some ((97 ∷ []) ∷ (98 ∷ []) ∷ [])) read_note
      (obsidian_wikilink ∷ [])

authorize_write-IsWriteAnswer_example :
    IsWriteAnswer registry
      (some (97 ∷ []))
      capture
      false
      (authorize_write registry (some (97 ∷ [])) capture false)
authorize_write-IsWriteAnswer_example =
    authorize_write-IsWriteAnswer registry (some (97 ∷ [])) capture false

-- one space, with all its fields
abbrev document : Json
document = json_object (
    pair (codes "version") (json_integer false 1)
      (pair (codes "spaces") (json_array (element (json_object space) no_elements)) no_pairs))
  where
    space : Pairs
    space = pair (codes "space_id") (json_string (codes "default")) (
        pair (codes "root") (json_string (codes "/notes")) (
          pair (codes "semantic_data_path") (json_string (codes "/data")) (
            pair (codes "read") (json_string (codes "allow")) (
              pair (codes "write") (json_string (codes "deny")) (
                pair (codes "indexing") (json_string (codes "enabled")) (
                  pair (codes "dialects") (json_array no_elements) (
                    pair (codes "capabilities")
                      (json_array (element (json_string (codes "read_note")) no_elements))
                      no_pairs)))))))

abbrev library : Library
library = record {
  loads = λ raw. some document;
  strip = λ s. s;
  is_control = λ c. false;
  is_absolute = λ path. true;
}

abbrev has_answer {ℓ} : {A : Type ℓ} → Option A → Bool
has_answer none = false
has_answer (some a) = true

document_accepted : has_answer (parse_knowledge_spaces library (0x7b ∷ 0x7d ∷ [])) ≡ true
unfolding parse_knowledge_spaces codes
document_accepted = refl

parse_knowledge_spaces-IsConfiguration_example :
    Every IsConfiguration (parse_knowledge_spaces library (0x7b ∷ 0x7d ∷ []))
parse_knowledge_spaces-IsConfiguration_example =
    parse_knowledge_spaces-IsConfiguration library (0x7b ∷ 0x7d ∷ [])
