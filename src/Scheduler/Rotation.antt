-- ===== src/Scheduler/Rotation.antt =====
-- `_select` takes the ready owner that comes next after the last one in the rotation of ids.
use vault_bridge.Base.{
  ◌≤◌, ◌≡◌, ◌∙◌, ap, sym, refl, inl, inr, ◌⊎◌, Bool, true, false, ◌&&◌, ◌||◌, Option, none, some,
  List, [], ◌∷◌, arith, Bool-cases, Option-cases, ◌==◌, leb, ltb, All, All-map,
}
use vault_bridge.Scheduler.State.{SpaceId}
use vault_bridge.Scheduler.Turn.{ready, insert_sorted, ready_ids, first_after, or_first, choose}
use vault_bridge.Scheduler.Table.{Owners}

abbrev has : SpaceId → List SpaceId → Bool
has j [] = false
has j (a ∷ l) = a == j || has j l

-- A ready owner stands in the table under the id.
abbrev pub is_ready : SpaceId → Owners → Bool
is_ready j [] = false
is_ready j ((sid, e) ∷ m) = sid == j && ready e || is_ready j m

-- The id comes after the last selected one.
abbrev pub is_after : Option SpaceId → SpaceId → Bool
is_after none j = true
is_after (some b) j = ltb b j

abbrev IsSorted : List SpaceId → Type 0
IsSorted [] = Unit
IsSorted (a ∷ l) = All (λ b. a ≤ b) l × IsSorted l

has-insert_sorted :
    (j a : SpaceId) (l : List SpaceId) → has j (insert_sorted a l) ≡ (a == j || has j l)
unfolding insert_sorted
has-insert_sorted j a [] = refl
has-insert_sorted j a (b ∷ l) = ground (arith, has-insert_sorted j a l)

has-ready_ids : (j : SpaceId) (m : Owners) → has j (ready_ids m) ≡ is_ready j m
unfolding ready_ids
has-ready_ids j [] = refl
has-ready_ids j ((sid, e) ∷ m) =
    ground (arith, has-ready_ids j m, has-insert_sorted j sid (ready_ids m))

All-le-insert_sorted :
    (c a : SpaceId) (l : List SpaceId)
    → c ≤ a
    → All (λ b. c ≤ b) l
    → All (λ b. c ≤ b) (insert_sorted a l)
unfolding insert_sorted
All-le-insert_sorted c a [] h k = (h, tt)
All-le-insert_sorted c a (b ∷ l) h k = elim (Bool-cases (leb a b)) [
  | inl le ↦ rw le (h, k)
  | inr gt ↦ rw gt (k.0, All-le-insert_sorted c a l h k.1)
]

insert_sorted-IsSorted :
    (a : SpaceId) (l : List SpaceId) → IsSorted l → IsSorted (insert_sorted a l)
unfolding insert_sorted
insert_sorted-IsSorted a [] h = (tt, tt)
insert_sorted-IsSorted a (b ∷ l) h = elim (Bool-cases (leb a b)) [
  | inl le ↦
      let first : a ≤ b = ground arith in
      rw le ((first, All-map (λ c. b ≤ c) (λ c. a ≤ c) (λ c k. omega arith) l h.0), h)
  | inr gt ↦
      let first : b ≤ a = ground arith in
      rw gt (All-le-insert_sorted b a l first h.0, insert_sorted-IsSorted a l h.1)
]

ready_ids-IsSorted : (m : Owners) → IsSorted (ready_ids m)
unfolding ready_ids
ready_ids-IsSorted [] = tt
ready_ids-IsSorted ((sid, e) ∷ m) = elim (Bool-cases (ready e)) [
  | inl on ↦ rw on (insert_sorted-IsSorted sid (ready_ids m) (ready_ids-IsSorted m))
  | inr off ↦ rw off (ready_ids-IsSorted m)
]

le_of_has : (c j : SpaceId) (l : List SpaceId) → All (λ b. c ≤ b) l → has j l ≡ true → c ≤ j
le_of_has c j [] a h = ground arith
le_of_has c j (b ∷ l) a h = ground (arith, le_of_has c j l a.1)

first_after-some :
    (last : Option SpaceId) (l : List SpaceId) (a : SpaceId)
    → IsSorted l
    → first_after last l ≡ some a
    → (has a l ≡ true)
      × (is_after last a ≡ true)
      × ((j : SpaceId) → has j l ≡ true → is_after last j ≡ true → a ≤ j)
unfolding first_after
first_after-some last [] a s h = ground arith
first_after-some none (b ∷ l) a s h =
    (ground arith, refl, λ j k _. ground (arith, le_of_has b j l s.0))
first_after-some (some c) (b ∷ l) a s h = elim (Bool-cases (ltb c b)) [
  | inl next_one ↦ (ground arith, ground arith, λ j k _. ground (arith, le_of_has b j l s.0))
  | inr early ↦
      let (found, after, least) = first_after-some (some c) l a s.1 (ground arith) in
      (ground arith, after, λ j k q. ground (arith, least j))
]

first_after-none :
    (last : Option SpaceId) (l : List SpaceId) (j : SpaceId)
    → first_after last l ≡ none
    → has j l ≡ true
    → is_after last j ≡ false
unfolding first_after
first_after-none last [] j h k = ground arith
first_after-none none (b ∷ l) j h k = ground arith
first_after-none (some c) (b ∷ l) j h k = ground (arith, first_after-none (some c) l j)

-- The selected owner is ready, and it is the next in the rotation: the least ready id after the last
-- selected one, or, when no ready id comes after that, the least ready id of all.
pub choose-rotates :
    (last : Option SpaceId) (m : Owners) (a : SpaceId)
    → choose last m ≡ some a
    → (is_ready a m ≡ true)
      × (((is_after last a ≡ true)
            × ((j : SpaceId) → is_ready j m ≡ true → is_after last j ≡ true → a ≤ j))
          ⊎ ((j : SpaceId) → is_ready j m ≡ true → (is_after last j ≡ false) × (a ≤ j)))
unfolding choose
choose-rotates last m a h = elim (Option-cases (first_after last (ready_ids m))) [
  | inr (b, found) ↦
      let same : b ≡ a = ground arith in
      let (r, after, least) =
        first_after-some last (ready_ids m) a (ready_ids-IsSorted m) (found ∙ ap some same) in
      (sym (has-ready_ids a m) ∙ r, inl (after, λ j k q. least j (has-ready_ids j m ∙ k) q))
  | inl over ↦ wrapped (ready_ids m) (ready_ids-IsSorted m) refl over h
]
  where
    wrapped :
        (l : List SpaceId)
        → IsSorted l
        → ready_ids m ≡ l
        → first_after last (ready_ids m) ≡ none
        → or_first (first_after last (ready_ids m)) (ready_ids m) ≡ some a
        → (is_ready a m ≡ true)
          × (((is_after last a ≡ true)
                × ((j : SpaceId) → is_ready j m ≡ true → is_after last j ≡ true → a ≤ j))
              ⊎ ((j : SpaceId) → is_ready j m ≡ true → (is_after last j ≡ false) × (a ≤ j)))
    wrapped [] srt e over h = ground arith
    wrapped (b ∷ l) srt e over h =
        let same : b ≡ a = ground arith in
        (
          sym (has-ready_ids a m) ∙ ap (has a) e ∙ ground arith,
          inr (λ j k. (
            first_after-none last (ready_ids m) j over (has-ready_ids j m ∙ k),
            ground (arith, le_of_has b j l srt.0, ap (has j) e, has-ready_ids j m),
          )),
        )

-- Nobody is selected only when nobody is ready.
pub choose-none :
    (last : Option SpaceId) (m : Owners)
    → choose last m ≡ none
    → (j : SpaceId) → is_ready j m ≡ false
unfolding choose
choose-none last m h j =
    sym (has-ready_ids j m) ∙ nothing (ready_ids m) (first_after last (ready_ids m)) h
  where
    nothing : (l : List SpaceId) (o : Option SpaceId) → or_first o l ≡ none → has j l ≡ false
    nothing [] o e = refl
    nothing (b ∷ l) none e = ground arith
    nothing (b ∷ l) (some c) e = ground arith
