-- ===== src/Spaces/Valid.antt =====
-- What an accepted configuration of knowledge spaces promises (app/services/knowledge_spaces.py).
use vault_bridge.Base.{
  ℕ, suc, ◌≤◌, ◌≡◌, refl, ap, subst, ◌∙◌, Bool, true, false, ◌&&◌, Option, none, some, List, [],
  ◌∷◌, ◌==◌, if◌then◌else◌, map, length, any, leb, ltb, All, arith, Bool-cases, inl, inr,
}
use vault_bridge.Base.Codes.{Codes, codes, same_codes, same_codes_iff}
use vault_bridge.Spaces.{
  Policy, accepts_policy, Definition, default_space_id, id_less, is_space_id, insert_definition,
  sort_definitions,
}
use vault_bridge.Spaces.Config.{
  Json, Elements, Pairs, no_elements, element, Library, ◌>>=◌, check, get_pair, text_of,
}
use vault_bridge.Spaces.Document.{
  count_elements, all_distinct, checked_policy, policy_fields, policy_record, policy_of,
  space_id_of, bindings_at, record_of, definition_of, definitions_of, count_id, checked_definitions,
  versioned, spaces_of, elements_of, definitions_from, document_of, parse_knowledge_spaces,
}

-- If there is an answer, it has the property.
abbrev pub Every {ℓ} : {A : Type ℓ} → (A → Type 0) → Option A → Type 0
Every P none = Unit
Every P (some a) = P a

Every-bind {ℓ κ} :
    {A : Type ℓ} {B : Type κ} (P : A → Type 0) (Q : B → Type 0) (r : Option A) (f : A → Option B)
    → Every P r
    → ((a : A) → P a → Every Q (f a))
    → Every Q (r >>= f)
Every-bind P Q none f h k = tt
Every-bind P Q (some a) f h k = k a h

-- whatever the first step answers
Every-after {ℓ κ} :
    {A : Type ℓ} {B : Type κ} (Q : B → Type 0) (r : Option A) (f : A → Option B)
    → ((a : A) → Every Q (f a))
    → Every Q (r >>= f)
Every-after Q none f k = tt
Every-after Q (some a) f k = k a

check-Every : (b : Bool) → Every (λ _. b ≡ true) (check b)
check-Every true = refl
check-Every false = tt

checked_policy-Every : (p : Policy) → Every (λ q. accepts_policy q ≡ true) (checked_policy p)
checked_policy-Every p = at (accepts_policy p) refl
  where
    at :
        (b : Bool)
        → accepts_policy p ≡ b
        → Every (λ q. accepts_policy q ≡ true) (check b >>= λ _. some p)
    at true h = h
    at false h = tt

policy_of-Every :
    (number : ℕ) (ps : Pairs) → Every (λ q. accepts_policy q ≡ true) (policy_of number ps)
unfolding policy_of
policy_of-Every number ps =
    Every-after (λ q. accepts_policy q ≡ true) (policy_fields ps) _
      (λ fields. checked_policy-Every (policy_record number fields))

space_id_of-Every : (o : Option Json) → Every (λ i. is_space_id i ≡ true) (space_id_of o)
space_id_of-Every o =
    Every-after (λ i. is_space_id i ≡ true) o _
      (λ v. Every-after (λ i. is_space_id i ≡ true) (text_of v) _ (λ s. at s (is_space_id s) refl))
  where
    at :
        (s : Codes) (b : Bool)
        → is_space_id s ≡ b
        → Every (λ i. is_space_id i ≡ true) (check b >>= λ _. some s)
    at s true h = h
    at s false h = tt

-- the id and the policy of a definition are valid
abbrev pub IsDefinition : Definition → Type 0
IsDefinition d = (is_space_id d.space_id ≡ true) × (accepts_policy d.policy ≡ true)

definition_of-Every :
    (lib : Library) (number : ℕ) (v : Json) → Every IsDefinition (definition_of lib number v)
unfolding definition_of codes
definition_of-Every lib number v = Every-after IsDefinition (record_of v) _ (λ ps.
    Every-bind (λ i. is_space_id i ≡ true) IsDefinition
      (space_id_of (get_pair (codes "space_id") ps)) _
      (space_id_of-Every (get_pair (codes "space_id") ps))
      (λ i h.
        Every-bind (λ q. accepts_policy q ≡ true) IsDefinition (policy_of number ps) _
          (policy_of-Every number ps)
          (λ q k.
            Every-after IsDefinition (bindings_at lib ps) _ (λ (label, root, data_path). (h, k)))))

-- The definitions are valid, and there are as many as records.
abbrev AreDefinitions : ℕ → List Definition → Type 0
AreDefinitions n ds = All IsDefinition ds × (length ds ≡ n)

definitions_of-Every :
    (lib : Library) (number : ℕ) (xs : Elements)
    → Every (AreDefinitions (count_elements xs)) (definitions_of lib number xs)
unfolding definitions_of
definitions_of-Every lib number no_elements = (tt, refl)
definitions_of-Every lib number (element v xs) =
    Every-bind IsDefinition (AreDefinitions (suc (count_elements xs))) (definition_of lib number v)
      _ (definition_of-Every lib number v)
      (λ d h.
        Every-bind (AreDefinitions (count_elements xs)) (AreDefinitions (suc (count_elements xs)))
          (definitions_of lib (suc number) xs) _ (definitions_of-Every lib (suc number) xs)
          (λ ds k. ((h, k.0), omega (arith, k.1))))

insert-All :
    (d : Definition) (ds : List Definition)
    → IsDefinition d
    → All IsDefinition ds
    → All IsDefinition (insert_definition d ds)
insert-All d [] h k = (h, tt)
insert-All d (e ∷ ds) h k = elim (Bool-cases (id_less e.space_id d.space_id)) [
  | inl before ↦ rw before (k.0, insert-All d ds h k.1)
  | inr after ↦ rw after (h, k)
]

sort-All : (ds : List Definition) → All IsDefinition ds → All IsDefinition (sort_definitions ds)
sort-All [] h = tt
sort-All (d ∷ ds) h = insert-All d (sort_definitions ds) h.0 (sort-All ds h.1)

length-insert :
    (d : Definition) (ds : List Definition) → length (insert_definition d ds) ≡ suc (length ds)
length-insert d [] = refl
length-insert d (e ∷ ds) = ground (arith, length-insert d ds)

length-sort : (ds : List Definition) → length (sort_definitions ds) ≡ length ds
length-sort [] = refl
length-sort (d ∷ ds) = omega (arith, length-insert d (sort_definitions ds), length-sort ds)

count-insert :
    (i : Codes) (d : Definition) (ds : List Definition)
    → count_id i (insert_definition d ds) ≡ count_id i (d ∷ ds)
unfolding count_id
count-insert i d [] = refl
count-insert i d (e ∷ ds) = ground (arith, count-insert i d ds)

count-sort : (i : Codes) (ds : List Definition) → count_id i (sort_definitions ds) ≡ count_id i ds
unfolding count_id
count-sort i [] = refl
count-sort i (d ∷ ds) = ground (arith, count-insert i d (sort_definitions ds), count-sort i ds)

count_id-absent :
    (i : Codes) (ds : List Definition)
    → any (same_codes i) (map (λ d. d.space_id) ds) ≡ false
    → count_id i ds ≡ 0
unfolding count_id
count_id-absent i [] h = refl
count_id-absent i (d ∷ ds) h = ground (
  arith,
  count_id-absent i ds (ground arith),
  same_codes_iff d.space_id i,
  same_codes_iff i d.space_id,
)

count_id-distinct :
    (i : Codes) (ds : List Definition)
    → all_distinct (map (λ d. d.space_id) ds) ≡ true
    → count_id i ds ≤ 1
unfolding count_id
count_id-distinct i [] h = omega arith
count_id-distinct i (d ∷ ds) h = elim (Bool-cases (same_codes d.space_id i)) [
  | inl same ↦
      let equal = (same_codes_iff d.space_id i).0 same in
      rw same
        (omega (arith, ap (λ j. count_id j ds) equal, count_id-absent d.space_id ds (ground arith)))
  | inr other ↦ rw other (count_id-distinct i ds (ground arith))
]

id_less_asym : (a b : Codes) → id_less a b ≡ true → id_less b a ≡ false
id_less_asym [] [] h = refl
id_less_asym [] (d ∷ m) h = refl
id_less_asym (c ∷ l) [] h = cc
id_less_asym (c ∷ l) (d ∷ m) h = elim (Bool-cases (ltb c d)) [
  | inl less ↦ ground arith
  | inr more ↦ ground (arith, id_less_asym l m (ground arith))
]

-- no id is before the one on its left
abbrev pub IsSorted : List Definition → Type 0
IsSorted [] = Unit
IsSorted (d ∷ []) = Unit
IsSorted (d ∷ e ∷ ds) = (id_less e.space_id d.space_id ≡ false) × IsSorted (e ∷ ds)

insert-IsSorted :
    (d : Definition) (ds : List Definition) → IsSorted ds → IsSorted (insert_definition d ds)
insert-IsSorted d [] h = tt
insert-IsSorted d (e ∷ []) h = elim (Bool-cases (id_less e.space_id d.space_id)) [
  | inl before ↦ rw before (id_less_asym e.space_id d.space_id before, tt)
  | inr after ↦ rw after (after, tt)
]
insert-IsSorted d (e ∷ f ∷ ds) h = elim (Bool-cases (id_less e.space_id d.space_id)) [
  | inr after ↦ rw after (after, h)
  | inl before ↦
      let rest = insert-IsSorted d (f ∷ ds) h.1 in
      elim (Bool-cases (id_less f.space_id d.space_id)) [
        | inl also ↦
            let rest' =
              subst (λ b. IsSorted (if b then f ∷ insert_definition d ds else d ∷ f ∷ ds)) also
                rest in
            rw before (rw also (h.0, rest'))
        | inr after ↦
            let rest' =
              subst (λ b. IsSorted (if b then f ∷ insert_definition d ds else d ∷ f ∷ ds)) after
                rest in
            rw before (rw after (id_less_asym e.space_id d.space_id before, rest'))
      ]
]

sort-IsSorted : (ds : List Definition) → IsSorted (sort_definitions ds)
sort-IsSorted [] = tt
sort-IsSorted (d ∷ ds) = insert-IsSorted d (sort_definitions ds) (sort-IsSorted ds)

-- What an accepted configuration promises of its definitions.
abbrev pub IsConfiguration : List Definition → Type 0
IsConfiguration ds =
    (1 ≤ length ds)
    × (length ds ≤ 8)
    × All IsDefinition ds
    × IsSorted ds
    × (count_id default_space_id ds ≡ 1)
    × ((i : Codes) → count_id i ds ≤ 1)

checked_definitions-Every :
    (n : ℕ) (ds : List Definition)
    → 1 ≤ n
    → n ≤ 8
    → AreDefinitions n ds
    → Every IsConfiguration (checked_definitions ds)
unfolding checked_definitions
checked_definitions-Every n ds low high h =
    Every-bind
      (λ _. all_distinct (map (λ d. d.space_id) ds) && count_id default_space_id ds == 1 ≡ true)
      IsConfiguration
      (check (all_distinct (map (λ d. d.space_id) ds) && count_id default_space_id ds == 1)) _
      (check-Every (all_distinct (map (λ d. d.space_id) ds) && count_id default_space_id ds == 1))
      (λ _ k. (
        omega (arith, length-sort ds, h.1),
        omega (arith, length-sort ds, h.1),
        sort-All ds h.0,
        sort-IsSorted ds,
        count-sort default_space_id ds ∙ ground (arith, k),
        λ i. omega (arith, count-sort i ds, count_id-distinct i ds (ground (arith, k))),
      ))

abbrev IsCounted : Elements → Type 0
IsCounted xs = (1 ≤ count_elements xs) × (count_elements xs ≤ 8)

spaces_of-Every : (document : Json) → Every IsCounted (spaces_of document)
unfolding spaces_of
spaces_of-Every document = Every-after IsCounted (versioned document) _ (λ s.
    Every-after IsCounted (elements_of s) _ (λ xs.
      Every-bind (λ _. leb 1 (count_elements xs) && leb (count_elements xs) 8 ≡ true) IsCounted
        (check (leb 1 (count_elements xs) && leb (count_elements xs) 8)) _
        (check-Every (leb 1 (count_elements xs) && leb (count_elements xs) 8))
        (λ _ h. (ground arith, ground arith))))

definitions_from-Every :
    (lib : Library) (document : Json) → Every IsConfiguration (definitions_from lib document)
unfolding definitions_from
definitions_from-Every lib document =
    Every-bind IsCounted IsConfiguration (spaces_of document) _ (spaces_of-Every document) (λ xs h.
      Every-bind (AreDefinitions (count_elements xs)) IsConfiguration (definitions_of lib 0 xs) _
        (definitions_of-Every lib 0 xs)
        (λ ds k. checked_definitions-Every (count_elements xs) ds h.0 h.1 k))

-- Whatever the text and the document that `json.loads` makes of it, an accepted configuration has
-- between one and eight definitions, sorted by id, no id twice and the default id once, each with an id
-- of the right form and a policy that lets no space be written or indexed that cannot be read.
pub parse_knowledge_spaces-IsConfiguration :
    (lib : Library) (text : Codes) → Every IsConfiguration (parse_knowledge_spaces lib text)
unfolding parse_knowledge_spaces
parse_knowledge_spaces-IsConfiguration lib text =
    Every-after IsConfiguration (document_of lib text) _
      (λ document. definitions_from-Every lib document)
