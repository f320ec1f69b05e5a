-- ===== src/Spaces/Reading.antt =====
-- Who may read knowledge spaces (app/services/knowledge_spaces.py).
use vault_bridge.Base.{
  ℕ, ◌≡◌, ◌≢◌, ◌⊎◌, refl, ap, sym, ◌∙◌, Bool, true, false, not, ◌&&◌, ◌||◌, Option, none, some,
  List, [], ◌∷◌, map, every, arith, Bool-cases, inl, inr,
}
use vault_bridge.Base.Codes.{Codes, same_codes, same_codes_iff}
use vault_bridge.Spaces.{
  Category, unknown_or_denied_space, Capability, Dialect, has_capability, all_dialects, is_semantic,
  Definition, SpaceRegistry, Binding, find_definition, find_owner, Access, granted, denied, ◌>>=◌,
  binding_of, same_owner, accepts, selected, select, requirements, scope_ids, bindings_of,
  authorize_read,
}

-- the policy of a definition allows the operation, with the dialects it needs
abbrev pub serves : Capability → List Dialect → Definition → Bool
serves operation required d =
    has_capability operation d.policy.capabilities
    && all_dialects required d.policy.dialects
    && (not (is_semantic operation) || d.policy.indexing)

abbrev pub opens : Bool → Option Definition → Bool
opens write none = false
opens write (some d) = d.policy.read && (not write || d.policy.write)

abbrev pub served_by : Capability → List Dialect → Option Definition → Bool
served_by operation required none = false
served_by operation required (some d) = serves operation required d

-- the space with this id is known and can be read, or written
abbrev pub is_open : SpaceRegistry → Bool → Codes → Bool
is_open r write space_id = opens write (find_definition space_id r.definitions)

-- the space with this id serves the operation
abbrev pub is_served : SpaceRegistry → Capability → List Dialect → Codes → Bool
is_served r operation required space_id =
    served_by operation required (find_definition space_id r.definitions)

-- the definitions that were selected for the ids
abbrev IsSelected : SpaceRegistry → List Codes → List Definition → Type 0
IsSelected r [] [] = Unit
IsSelected r (space_id ∷ ids) (d ∷ ds) =
    (find_definition space_id r.definitions ≡ some d) × IsSelected r ids ds
IsSelected r _ _ = ⊥

-- What is granted has one property, and the reason of a denial another.
pub data Decides {ℓ} {A : Type ℓ} (P : A → Type 0) (Q : Category → Type 0) : Access A → Type ℓ where
  grants : {a : A} → P a → Decides P Q (granted a)
  denies : {c : Category} → Q c → Decides P Q (denied c)

pub selected-Decides :
    (write : Bool) (o : Option Definition)
    → Decides
        (λ d. (o ≡ some d) × (opens write o ≡ true))
        (λ c. (c ≡ unknown_or_denied_space) × (opens write o ≡ false))
        (selected write o)
selected-Decides write none = denies (refl, refl)
selected-Decides write (some d) =
    elim (Bool-cases (d.policy.read && (not write || d.policy.write))) [
      | inl allowed ↦ rw allowed (grants (refl, refl))
      | inr refused ↦ rw refused (denies (refl, refl))
    ]

pub Decides-bind {ℓ κ} :
    {A : Type ℓ} {B : Type κ} {P : A → Type 0} {Q R : Category → Type 0} {S : B → Type 0}
    {r : Access A} {f : A → Access B}
    → Decides P Q r
    → ((c : Category) → Q c → R c)
    → ((a : A) → P a → Decides S R (f a))
    → Decides S R (r >>= f)
Decides-bind (grants h) g k = k _ h
Decides-bind (denies h) g k = denies (g _ h)

select-Decides :
    (r : SpaceRegistry) (write : Bool) (ids : List Codes)
    → Decides
        (λ ds. IsSelected r ids ds × (every (is_open r write) ids ≡ true))
        (λ c. (c ≡ unknown_or_denied_space) × (every (is_open r write) ids ≡ false))
        (select r write ids)
unfolding select
select-Decides r write [] = grants (tt, refl)
select-Decides r write (space_id ∷ ids) =
    Decides-bind (selected-Decides write (find_definition space_id r.definitions))
      (λ c h. (h.0, ground (arith, h.1)))
      (λ d h.
        Decides-bind (select-Decides r write ids) (λ c k. (k.0, ground (arith, h.1, k.1)))
          (λ ds k. grants ((h.0, k.0), ground (arith, h.1, k.1))))

every-served :
    (r : SpaceRegistry) (operation : Capability) (required : List Dialect) (ids : List Codes)
    (ds : List Definition)
    → IsSelected r ids ds
    → every (is_served r operation required) ids ≡ every (serves operation required) ds
every-served r operation required [] [] h = refl
every-served r operation required [] (d ∷ ds) h = absurd h
every-served r operation required (i ∷ ids) [] h = absurd h
every-served r operation required (i ∷ ids) (d ∷ ds) h =
    ap (λ o. served_by operation required o && every (is_served r operation required) ids) h.0
    ∙ ap (λ b. serves operation required d && b) (every-served r operation required ids ds h.1)

every-serves :
    (operation : Capability) (required : List Dialect) (ds : List Definition)
    → every (serves operation required) ds ≡ (
        every (λ d. has_capability operation d.policy.capabilities) ds
        && every (λ d. all_dialects required d.policy.dialects) ds
        && (not (is_semantic operation) || every (λ d. d.policy.indexing) ds))
every-serves operation required [] = ground arith
every-serves operation required (d ∷ ds) = ground (arith, every-serves operation required ds)

pub requirements-Decides :
    (ds : List Definition) (operation : Capability) (required : List Dialect)
    → Decides
        (λ _. every (serves operation required) ds ≡ true)
        (λ c. (c ≢ unknown_or_denied_space) × (every (serves operation required) ds ≡ false))
        (requirements ds operation required)
unfolding requirements
requirements-Decides ds operation required =
    let all = every-serves operation required ds in
    elim (Bool-cases (every (λ d. has_capability operation d.policy.capabilities) ds)) [
      | inr refused ↦ rw refused (denies (λ e. cc, ground (arith, all)))
      | inl capable ↦
          rw capable (elim (Bool-cases (every (λ d. all_dialects required d.policy.dialects) ds)) [
            | inr refused ↦ rw refused (denies (λ e. cc, ground (arith, all)))
            | inl spoken ↦ rw spoken (elim (Bool-cases (is_semantic operation)) [
              | inr other ↦ rw other (grants (ground (arith, all)))
              | inl semantic ↦ rw semantic (elim (Bool-cases (every (λ d. d.policy.indexing) ds)) [
                | inr refused ↦ rw refused (denies (λ e. cc, ground (arith, all)))
                | inl indexed ↦ rw indexed (grants (ground (arith, all)))
              ])
            ])
          ])
    ]

find_definition-id :
    (space_id : Codes) (ds : List Definition) (d : Definition)
    → find_definition space_id ds ≡ some d
    → d.space_id ≡ space_id
unfolding find_definition
find_definition-id space_id [] d h = cc
find_definition-id space_id (e ∷ ds) d h = elim (Bool-cases (same_codes e.space_id space_id)) [
  | inl same ↦
      let first : e ≡ d = ground arith in
      ap (λ x. x.space_id) (sym first) ∙ (same_codes_iff e.space_id space_id).0 same
  | inr other ↦ find_definition-id space_id ds d (ground arith)
]

same_owner_refl : (o : Option ℕ) → same_owner o o ≡ true
same_owner_refl none = refl
same_owner_refl (some a) = ground arith

-- The registry accepts the bindings that it has issued.
pub binding_of-accepted :
    (r : SpaceRegistry) (space_id : Codes) (d : Definition)
    → find_definition space_id r.definitions ≡ some d
    → (accepts r (binding_of r space_id d) ≡ true) × ((binding_of r space_id d).bound_id ≡ space_id)
unfolding accepts binding_of
binding_of-accepted r space_id d h =
    let same = find_definition-id space_id r.definitions d h in
    let again : find_definition d.space_id r.definitions ≡ some d =
      ap (λ i. find_definition i r.definitions) same ∙ h in
    let owned : same_owner (find_owner space_id r.owners) (find_owner d.space_id r.owners) ≡ true =
      ap (λ i. same_owner (find_owner space_id r.owners) (find_owner i r.owners)) same
      ∙ same_owner_refl (find_owner space_id r.owners) in
    (rw again (ground (arith, owned)), same)

bindings_of-accepted :
    (r : SpaceRegistry) (ids : List Codes) (ds : List Definition)
    → IsSelected r ids ds
    → (every (accepts r) (bindings_of r ids ds) ≡ true)
      × (map (λ b. b.bound_id) (bindings_of r ids ds) ≡ ids)
unfolding bindings_of
bindings_of-accepted r [] [] h = (refl, refl)
bindings_of-accepted r [] (d ∷ ds) h = absurd h
bindings_of-accepted r (i ∷ ids) [] h = absurd h
bindings_of-accepted r (i ∷ ids) (d ∷ ds) h =
    let first = binding_of-accepted r i d h.0 in
    let rest = bindings_of-accepted r ids ds h.1 in
    (ground (arith, first.0, rest.0), cc (first.1, rest.1))

-- An operation is granted only if all spaces are open and serve it, with one binding for each id, in
-- order, that the registry accepts; a denial has its reason.
abbrev pub IsReadAnswer :
    SpaceRegistry → List Codes → Capability → List Dialect → Access (List Binding) → Type 0
IsReadAnswer r ids operation required (granted bs) =
    (every (is_open r false) ids ≡ true)
    × (every (is_served r operation required) ids ≡ true)
    × (map (λ b. b.bound_id) bs ≡ ids)
    × (every (accepts r) bs ≡ true)
IsReadAnswer r ids operation required (denied c) =
    ((c ≡ unknown_or_denied_space) × (every (is_open r false) ids ≡ false))
    ⊎ ((c ≢ unknown_or_denied_space)
        × (every (is_open r false) ids ≡ true)
        × (every (is_served r operation required) ids ≡ false))

-- Reading is granted exactly if every space of the scope is known, can be read and serves the
-- operation, and then there is one binding for each id, in order, that the registry accepts. If some
-- space is unknown or cannot be read, the answer is the same, whichever of the two it is and
-- whatever the operation; any other denial means that all can be read.
pub authorize_read-IsReadAnswer :
    (r : SpaceRegistry) (scope : Option (List Codes)) (operation : Capability)
    (required : List Dialect)
    → IsReadAnswer r
        (scope_ids scope)
        operation
        required
        (authorize_read r scope operation required)
unfolding authorize_read
authorize_read-IsReadAnswer r scope operation required = answer (
    Decides-bind (select-Decides r false (scope_ids scope)) (λ c h. inl h)
      (λ ds h.
        let served = every-served r operation required (scope_ids scope) ds h.0 in
        Decides-bind (requirements-Decides ds operation required)
          (λ c k. inr (k.0, h.1, served ∙ k.1))
          (λ _ k.
            let accepted = bindings_of-accepted r (scope_ids scope) ds h.0 in
            grants (h.1, served ∙ k, accepted.1, accepted.0))))
  where
    answer :
        {a : Access (List Binding)}
        → Decides
            (λ bs. IsReadAnswer r (scope_ids scope) operation required (granted bs))
            (λ c. IsReadAnswer r (scope_ids scope) operation required (denied c))
            a
        → IsReadAnswer r (scope_ids scope) operation required a
    answer (grants h) = h
    answer (denies h) = h
