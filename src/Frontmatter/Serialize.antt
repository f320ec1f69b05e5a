-- ===== src/Frontmatter/Serialize.antt =====
-- The text of an envelope (app/services/frontmatter.py): `serialize_frontmatter` with its local
-- functions. The printers of Python's library are arguments.
pub mod Reread
use vault_bridge.Base.{
  ℕ, zero, suc, ◌+◌, ◌*◌, Bool, true, false, not, ◌&&◌, Option, none, some, List, [], ◌∷◌, ◌++◌,
  ◌==◌, if◌then◌else◌, any, every, leb,
}
use vault_bridge.Base.Codes.{Codes, codes, same_codes, in_range, utf8_size}
use vault_bridge.Frontmatter.{
  Reason, Outcome, done, raised, out_of_fuel, ◌>>=◌, plain_reason, FrontmatterResult, absent, valid,
  invalid, non_mapping_root, duplicate_key, non_string_key, unsupported_value,
  frontmatter_too_large, scalar_too_large, mapping_key_too_large, container_too_deep,
  too_many_items, max_scalar_bytes, max_mapping_key_bytes, max_container_depth, max_items,
  max_frontmatter_bytes,
}
use vault_bridge.Frontmatter.Build.{Event, Tail, ensure, parse}

-- The Python values that the tests of `scalar` and `emit` tell apart; an integer is its sign and its
-- size, and a float says whether it is finite.
mutual
  pub data Object : Type 0 where
    nothing other : Object
    string_of : Codes → Object
    bool_of : Bool → Object
    int_of : Bool → ℕ → Object
    float_of : Bool → ℕ → Object
    list_of : Objects → Object
    mapping_of : Members → Object

  pub data Objects : Type 0 where
    no_objects : Objects
    object : Object → Objects → Objects

  pub data Members : Type 0 where
    no_members : Members
    member : Object → Object → Members → Members

-- `json.dumps` of a scalar, without a value where it raises; `hex`; `int.bit_length`
pub record Printers : Type 0 where
  pub dumps : Object → Option Codes
  pub hex : Bool → ℕ → Codes
  pub bit_length : ℕ → ℕ

unfoldable pub count_objects : Objects → ℕ
count_objects no_objects = 0
count_objects (object v xs) = suc (count_objects xs)

unfoldable pub count_members : Members → ℕ
count_members no_members = 0
count_members (member k v ms) = suc (count_members ms)

-- source.replace(character, text)
unfoldable pub replace_code : ℕ → Codes → Codes → Codes
replace_code character by [] = []
replace_code character by (c ∷ l) =
    let rest = replace_code character by l in if c == character then by ++ rest else c ∷ rest

abbrev pub backslash_u : Codes → Codes
backslash_u digits = 0x5c ∷ 0x75 ∷ digits

-- the loop over the characters that YAML takes for line breaks
unfoldable pub escape_breaks : Codes → Codes
unfolding replace_code codes
escape_breaks source = replace_code 0x2029 (backslash_u (codes "2029")) (
    replace_code 0x2028 (backslash_u (codes "2028"))
      (replace_code 0x85 (backslash_u (codes "0085")) source))

-- `encode("utf-8")` does not raise
abbrev pub encodes : Codes → Bool
encodes l = every (λ c. not (in_range 0xd800 0xdfff c)) l

abbrev pub reject : Bool → Reason → Outcome (Unit {0})
reject bad reason = ensure (not bad) (plain_reason reason)

abbrev pub is_unsupported : Object → Bool
is_unsupported other = true
is_unsupported (list_of _) = true
is_unsupported (mapping_of _) = true
is_unsupported (float_of finite _) = not finite
is_unsupported _ = false

abbrev pub bits_of : Printers → Object → ℕ
bits_of p (int_of negative n) = p.bit_length n
bits_of p (bool_of true) = 1
bits_of p _ = 0

abbrev pub source_of : Printers → Object → Option Codes
source_of p (int_of negative n) =
    if leb (p.bit_length n) 12000 then p.dumps (int_of negative n) else some (p.hex negative n)
source_of p v = p.dumps v

unfoldable pub checked_source : Option Codes → Outcome Codes
unfolding escape_breaks
checked_source none = raised (plain_reason unsupported_value)
checked_source (some s) =
    let source = escape_breaks s in
    ensure (encodes source) (plain_reason unsupported_value) >>= λ _.
    ensure (leb (utf8_size source) max_scalar_bytes) (plain_reason scalar_too_large) >>= λ _.
    done source

-- scalar
unfoldable pub scalar : Printers → Object → Outcome Codes
unfolding checked_source
scalar p v = ensure (not (is_unsupported v)) (plain_reason unsupported_value) >>= λ _.
    ensure (leb (bits_of p v) (max_scalar_bytes * 4)) (plain_reason scalar_too_large) >>= λ _.
    checked_source (source_of p v)

-- ", ".join(parts)
unfoldable pub join_parts : List Codes → Codes
join_parts [] = []
join_parts (c ∷ []) = c
join_parts (c ∷ d ∷ parts) = c ++ 0x2c ∷ 0x20 ∷ join_parts (d ∷ parts)

unfoldable pub braces : List Codes → Codes
unfolding join_parts
braces parts = 0x7b ∷ (join_parts parts ++ 0x7d ∷ [])

unfoldable pub brackets : List Codes → Codes
unfolding join_parts
brackets parts = 0x5b ∷ (join_parts parts ++ 0x5d ∷ [])

-- the tests on the depth and on the number of the members, with the new number
unfoldable pub enter : ℕ → ℕ → ℕ → Outcome ℕ
enter depth size items =
    ensure (leb depth max_container_depth) (plain_reason container_too_deep) >>= λ _.
    ensure (leb (items + size) max_items) (plain_reason too_many_items) >>= λ _. done (items + size)

-- the tests on a key
unfoldable pub check_key : List Codes → Object → Outcome Codes
check_key seen (string_of key) = ensure (encodes key) (plain_reason unsupported_value) >>= λ _.
    ensure (leb (utf8_size key) max_mapping_key_bytes) (plain_reason mapping_key_too_large) >>= λ _.
    ensure (not (any (same_codes key) seen)) (plain_reason duplicate_key) >>= λ _. done key
check_key seen _ = raised (plain_reason non_string_key)

-- emit, with the two loops over its members; `items` is handed on
unfoldable mutual
  unfolding scalar enter check_key braces brackets count_objects count_members

  pub emit : Printers → ℕ → Object → ℕ → Outcome (Codes × ℕ)
  emit p depth (mapping_of ms) items = enter depth (count_members ms) items >>= λ n.
      emit_members p depth [] ms n >>= λ (parts, k). done (braces parts, k)
  emit p depth (list_of xs) items = enter depth (count_objects xs) items >>= λ n.
      emit_objects p depth xs n >>= λ (parts, k). done (brackets parts, k)
  emit p depth v items = scalar p v >>= λ source. done (source, items)

  pub emit_members : Printers → ℕ → List Codes → Members → ℕ → Outcome (List Codes × ℕ)
  emit_members p depth seen no_members items = done ([], items)
  emit_members p depth seen (member k v ms) items = check_key seen k >>= λ key.
      scalar p (string_of key) >>= λ source. emit p (depth + 1) v items >>= λ (part, n).
      emit_members p depth (key ∷ seen) ms n >>= λ (parts, j).
      done ((source ++ 0x3a ∷ 0x20 ∷ part) ∷ parts, j)

  pub emit_objects : Printers → ℕ → Objects → ℕ → Outcome (List Codes × ℕ)
  emit_objects p depth no_objects items = done ([], items)
  emit_objects p depth (object v xs) items = emit p (depth + 1) v items >>= λ (part, n).
      emit_objects p depth xs n >>= λ (parts, j). done (part ∷ parts, j)

-- What the function does: it returns, raises `FrontmatterSerializationError`, or fails its `assert`;
-- `unfinished` has no counterpart in the code.
pub data Serialized : Type 0 where
  serialized : Codes → Serialized
  serialization_error : Reason → Serialized
  assertion_failed unfinished : Serialized

abbrev pub checked_parse : Codes → Option FrontmatterResult → Serialized
checked_parse envelope none = unfinished
checked_parse envelope (some absent) = assertion_failed
checked_parse envelope (some (valid _ _)) = serialized envelope
checked_parse envelope (some (invalid d)) = serialization_error d.reason

abbrev pub envelope_of : Codes → Codes
envelope_of text = 0x2d ∷ 0x2d ∷ 0x2d ∷ 10 ∷ (text ++ 10 ∷ 0x2d ∷ 0x2d ∷ 0x2d ∷ 10 ∷ [])

unfoldable pub checked_envelope :
    (Codes → List Event × Tail) → (Codes → Option ℕ) → Outcome (Codes × ℕ) → Serialized
unfolding parse
checked_envelope yaml float out_of_fuel = unfinished
checked_envelope yaml float (raised d) = serialization_error d.reason
checked_envelope yaml float (done (text, items)) =
    let envelope = envelope_of text in
    if leb (utf8_size envelope) max_frontmatter_bytes
    then checked_parse envelope (parse yaml float envelope)
    else serialization_error frontmatter_too_large

-- serialize_frontmatter; its parts can be encoded, and so can the envelope
unfoldable pub serialize_frontmatter :
    Printers → (Codes → List Event × Tail) → (Codes → Option ℕ) → Object → Serialized
unfolding emit checked_envelope
serialize_frontmatter p yaml float (mapping_of ms) =
    checked_envelope yaml float (emit p 1 (mapping_of ms) 0)
serialize_frontmatter p yaml float _ = serialization_error non_mapping_root
