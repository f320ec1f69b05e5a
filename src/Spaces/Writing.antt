-- ===== src/Spaces/Writing.antt =====
-- Who may write in a knowledge space (app/services/knowledge_spaces.py).
use vault_bridge.Base.{
  ◌≡◌, refl, ap, ◌∙◌, Bool, true, false, ◌&&◌, Option, none, some, [], ◌∷◌, arith,
}
use vault_bridge.Base.Codes.{Codes}
use vault_bridge.Spaces.{
  Capability, default_space_id, SpaceRegistry, Binding, find_definition, Access, granted, denied,
  ◌>>=◌, binding_of, accepts, selected, requirements, authorize_write,
}
use vault_bridge.Spaces.Reading.{
  serves, served_by, is_open, is_served, Decides, selected-Decides, Decides-bind,
  requirements-Decides, binding_of-accepted, grants, denies,
}

-- the id of an optional scope for writing
abbrev pub write_id : Option Codes → Codes
write_id none = default_space_id
write_id (some space_id) = space_id

-- a scope is given, or the operation is a legacy one
abbrev pub has_scope : Option Codes → Bool → Bool
has_scope none legacy = legacy
has_scope (some space_id) legacy = true

-- Writing is granted only if the space can be read and written and serves the operation, with a binding
-- of its id that the registry accepts; a denial has its reason.
abbrev pub IsWriteAnswer :
    SpaceRegistry → Option Codes → Capability → Bool → Access Binding → Type 0
IsWriteAnswer r scope operation legacy (granted b) =
    (has_scope scope legacy ≡ true)
    × (is_open r true (write_id scope) ≡ true)
    × (is_served r operation [] (write_id scope) ≡ true)
    × (b.bound_id ≡ write_id scope)
    × (accepts r b ≡ true)
IsWriteAnswer r scope operation legacy (denied c) =
    (has_scope scope legacy
      && is_open r true (write_id scope)
      && is_served r operation [] (write_id scope))
    ≡ false

write_to-Decides :
    (r : SpaceRegistry) (space_id : Codes) (operation : Capability)
    → Decides
        (λ b.
          (is_open r true space_id ≡ true)
          × (is_served r operation [] space_id ≡ true)
          × (b.bound_id ≡ space_id)
          × (accepts r b ≡ true))
        (λ c. is_open r true space_id && is_served r operation [] space_id ≡ false)
        (selected true (find_definition space_id r.definitions) >>= λ d.
          requirements (d ∷ []) operation [] >>= λ _. granted (binding_of r space_id d))
write_to-Decides r space_id operation =
    Decides-bind (selected-Decides true (find_definition space_id r.definitions))
      (λ c h. ground (arith, h.1))
      (λ d h.
        let served : is_served r operation [] space_id ≡ (serves operation [] d && true) =
          ap (λ o. served_by operation [] o) h.0 ∙ and_true (serves operation [] d) in
        Decides-bind (requirements-Decides (d ∷ []) operation [])
          (λ c k. ground (arith, h.1, served, k.1))
          (λ _ k.
            let accepted = binding_of-accepted r space_id d h.0 in
            grants (h.1, served ∙ k, accepted.1, accepted.0)))
  where
    and_true : (b : Bool) → b ≡ (b && true)
    and_true true = refl
    and_true false = refl

to-IsWriteAnswer :
    (r : SpaceRegistry) (operation : Capability) (scope : Option Codes) (legacy : Bool)
    {a : Access Binding}
    → has_scope scope legacy ≡ true
    → Decides
        (λ b.
          (is_open r true (write_id scope) ≡ true)
          × (is_served r operation [] (write_id scope) ≡ true)
          × (b.bound_id ≡ write_id scope)
          × (accepts r b ≡ true))
        (λ c. is_open r true (write_id scope) && is_served r operation [] (write_id scope) ≡ false)
        a
    → IsWriteAnswer r scope operation legacy a
to-IsWriteAnswer r operation scope legacy given (grants h) = (given, h.0, h.1, h.2, h.3)
to-IsWriteAnswer r operation scope legacy given (denies h) = ground (arith, given, h)

-- Writing is granted only to a space that is known, can be read and written, and serves the operation,
-- and only with a scope or for a legacy operation; the binding carries the id of the scope and the
-- registry accepts it. Otherwise one of these conditions fails.
pub authorize_write-IsWriteAnswer :
    (r : SpaceRegistry) (scope : Option Codes) (operation : Capability) (legacy : Bool)
    → IsWriteAnswer r scope operation legacy (authorize_write r scope operation legacy)
unfolding authorize_write
authorize_write-IsWriteAnswer r none operation false = refl
authorize_write-IsWriteAnswer r none operation true =
    to-IsWriteAnswer r operation none true refl (write_to-Decides r default_space_id operation)
authorize_write-IsWriteAnswer r (some space_id) operation legacy =
    to-IsWriteAnswer r operation (some space_id) legacy refl (write_to-Decides r space_id operation)
