-- ===== src/Frontmatter/Build/Fits.antt =====
-- The limits on the values that the builder makes (app/services/frontmatter.py).
use vault_bridge.Base.{
  ℕ, suc, ◌+◌, ◌≤◌, ◌≡◌, refl, Bool, true, false, ◌||◌, Option, none, some, if◌then◌else◌, arith,
}
use vault_bridge.Base.Codes.{Codes, same_codes, same_codes_iff, utf8_size}
use vault_bridge.Frontmatter.{
  Value, Items, Fields, null, text, truth, integer, floating, sequence, mapping, no_items,
  no_fields, item, field, has_field, add_field, add_item, max_mapping_key_bytes,
  max_container_depth,
}

-- All the items in a value: the members of its sequences and the pairs of its mappings.
unfoldable mutual
  pub total : Value → ℕ
  total null = 0
  total (text s) = 0
  total (truth b) = 0
  total (integer b n) = 0
  total (floating x) = 0
  total (sequence xs) = total_items xs
  total (mapping fs) = total_fields fs

  pub total_items : Items → ℕ
  total_items no_items = 0
  total_items (item v xs) = suc (total v + total_items xs)

  pub total_fields : Fields → ℕ
  total_fields no_fields = 0
  total_fields (field k v fs) = suc (total v + total_fields fs)

-- A value that stands at this depth: no container is deeper than 8, no key is written twice in a
-- mapping, and no key is longer than 256 bytes.
unfoldable mutual
  pub Fits : ℕ → Value → Type 0
  Fits depth null = Unit
  Fits depth (text s) = Unit
  Fits depth (truth b) = Unit
  Fits depth (integer b n) = Unit
  Fits depth (floating x) = Unit
  Fits depth (sequence xs) = (depth ≤ max_container_depth) × FitsItems (depth + 1) xs
  Fits depth (mapping fs) = (depth ≤ max_container_depth) × FitsFields (depth + 1) fs

  pub FitsItems : ℕ → Items → Type 0
  FitsItems depth no_items = Unit
  FitsItems depth (item v xs) = Fits depth v × FitsItems depth xs

  pub FitsFields : ℕ → Fields → Type 0
  FitsFields depth no_fields = Unit
  FitsFields depth (field k v fs) =
      (has_field k fs ≡ false)
      × (utf8_size k ≤ max_mapping_key_bytes)
      × Fits depth v
      × FitsFields depth fs

pub total-add_item :
    (xs : Items) (v : Value) → total_items (add_item xs v) ≡ suc (total_items xs + total v)
unfolding total add_item
total-add_item no_items v = omega arith
total-add_item (item w xs) v = omega (arith, total-add_item xs v)

pub total-add_field :
    (fs : Fields) (k : Codes) (v : Value)
    → total_fields (add_field fs k v) ≡ suc (total_fields fs + total v)
unfolding total add_field
total-add_field no_fields k v = omega arith
total-add_field (field j w fs) k v = omega (arith, total-add_field fs k v)

pub FitsItems-add :
    (d : ℕ) (xs : Items) (v : Value) → FitsItems d xs → Fits d v → FitsItems d (add_item xs v)
unfolding Fits add_item
FitsItems-add d no_items v h k = (k, tt)
FitsItems-add d (item w xs) v h k = (h.0, FitsItems-add d xs v h.1 k)

pub has-add_field :
    (fs : Fields) (j k : Codes) (v : Value)
    → has_field j (add_field fs k v) ≡ (has_field j fs || same_codes k j)
unfolding has_field add_field
has-add_field no_fields j k v = ground arith
has-add_field (field i w fs) j k v = ground (arith, has-add_field fs j k v)

pub FitsFields-add :
    (d : ℕ) (fs : Fields) (k : Codes) (v : Value)
    → FitsFields d fs
    → has_field k fs ≡ false
    → utf8_size k ≤ max_mapping_key_bytes
    → Fits d v
    → FitsFields d (add_field fs k v)
unfolding Fits add_field has_field
FitsFields-add d no_fields k v h n s f = (refl, s, f, tt)
FitsFields-add d (field j w fs) k v h n s f = (
  ground (arith, has-add_field fs j k v, h.0, same_codes_iff j k, same_codes_iff k j),
  h.1,
  h.2,
  FitsFields-add d fs k v h.3 (ground arith) s f,
)

abbrev pub is_scalar : Value → Bool
is_scalar (sequence _) = false
is_scalar (mapping _) = false
is_scalar _ = true

pub total_scalar : (v : Value) → is_scalar v ≡ true → total v ≡ 0
unfolding total
total_scalar null h = refl
total_scalar (text s) h = refl
total_scalar (truth b) h = refl
total_scalar (integer b n) h = refl
total_scalar (floating x) h = refl
total_scalar (sequence xs) h = absurd (ground arith)
total_scalar (mapping fs) h = absurd (ground arith)

pub Fits-scalar : (d : ℕ) (v : Value) → is_scalar v ≡ true → Fits d v
unfolding Fits
Fits-scalar d null h = tt
Fits-scalar d (text s) h = tt
Fits-scalar d (truth b) h = tt
Fits-scalar d (integer b n) h = tt
Fits-scalar d (floating x) h = tt
Fits-scalar d (sequence xs) h = absurd (ground arith)
Fits-scalar d (mapping fs) h = absurd (ground arith)

-- no value, or a scalar
abbrev pub scalar_at_most : Option Value → Bool
scalar_at_most none = true
scalar_at_most (some v) = is_scalar v

pub if-scalar :
    (b : Bool) (x y : Option Value)
    → scalar_at_most x ≡ true
    → scalar_at_most y ≡ true
    → scalar_at_most (if b then x else y) ≡ true
if-scalar true x y h k = h
if-scalar false x y h k = k
