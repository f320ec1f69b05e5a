-- ===== src/Spaces/Config.antt =====
-- The configuration of knowledge spaces (app/services/knowledge_spaces.py): `parse_knowledge_spaces` and
-- the validators that it calls, on a POSIX system. `json.loads` without its hooks, `str.strip`, the
-- test for control characters and `Path.is_absolute` are arguments. Each failure raises
-- `invalid_configuration`, here `none`.
use vault_bridge.Base.{
  ℕ, ◌+◌, Bool, true, false, not, ◌&&◌, ◌||◌, Option, none, some, List, [], ◌∷◌, ◌==◌,
  if◌then◌else◌, any, every, leb, ltb,
}
use vault_bridge.Base.Codes.{Codes, same_codes, utf8_size, in_range}

-- The values of `json.loads`; `json_constant` is what `parse_constant` is called with, and `json_other`
-- are null, the truth values and the floats.
mutual
  pub data Json : Type 0 where
    json_other json_constant : Json
    json_string : Codes → Json
    json_integer : Bool → ℕ → Json
    json_array : Elements → Json
    json_object : Pairs → Json

  pub data Elements : Type 0 where
    no_elements : Elements
    element : Json → Elements → Elements

  pub data Pairs : Type 0 where
    no_pairs : Pairs
    pair : Codes → Json → Pairs → Pairs

pub record Library : Type 0 where
  pub loads : Codes → Option Json
  pub strip : Codes → Codes
  pub is_control : ℕ → Bool
  pub is_absolute : Codes → Bool

infixl 5 ◌>>=◌
abbrev pub ◌>>=◌ {ℓ κ} : {A : Type ℓ} {B : Type κ} → Option A → (A → Option B) → Option B
none >>= f = none
some a >>= f = f a

abbrev pub check : Bool → Option (Unit {0})
check true = some tt
check false = none

unfoldable pub get_pair : Codes → Pairs → Option Json
get_pair key no_pairs = none
get_pair key (pair k v ps) = let rest = get_pair key ps in if same_codes k key then some v else rest

abbrev pub has_pair : Codes → Pairs → Bool
has_pair key no_pairs = false
has_pair key (pair k v ps) = same_codes k key || has_pair key ps

-- The two hooks on every object and constant of the document: `_unique_object` and `_no_constant`.
unfoldable mutual
  pub passes_hooks : Json → Bool
  passes_hooks json_constant = false
  passes_hooks (json_array xs) = elements_pass xs
  passes_hooks (json_object ps) = pairs_pass ps
  passes_hooks _ = true

  pub elements_pass : Elements → Bool
  elements_pass no_elements = true
  elements_pass (element v xs) = passes_hooks v && elements_pass xs

  pub pairs_pass : Pairs → Bool
  pairs_pass no_pairs = true
  pairs_pass (pair k v ps) = not (has_pair k ps) && passes_hooks v && pairs_pass ps

-- the state of `_json_depth`; the depth is `opened` less `closed`
pub record Depth : Type 0 where
  pub opened : ℕ
  pub closed : ℕ
  pub in_string : Bool
  pub escaped : Bool

abbrev pub open_one : Depth → Depth
open_one s = record {
  opened = s.opened + 1;
  closed = s.closed;
  in_string = s.in_string;
  escaped = s.escaped;
}

abbrev pub close_one : Depth → Depth
close_one s = record {
  opened = s.opened;
  closed = s.closed + 1;
  in_string = s.in_string;
  escaped = s.escaped;
}

abbrev pub with_string : Bool → Bool → Depth → Depth
with_string in_string escaped s = record {
  opened = s.opened;
  closed = s.closed;
  in_string = in_string;
  escaped = escaped;
}

-- one round of the loop of `_json_depth`
unfoldable pub depth_step : ℕ → Depth → Option Depth
depth_step char s =
    if s.in_string
    then (if s.escaped
        then some (with_string true false s)
        else if char == 0x5c
        then some (with_string true true s)
        else if char == 0x22
        then some (with_string false false s)
        else some s)
    else if char == 0x22
    then some (with_string true s.escaped s)
    else if char == 0x5b || char == 0x7b
    then (if ltb (s.closed + 4) (s.opened + 1) then none else some (open_one s))
    else if char == 0x5d || char == 0x7d
    then some (close_one s)
    else some s

-- _json_depth
unfoldable pub json_depth : Codes → Depth → Option Depth
unfolding depth_step
json_depth [] s = some s
json_depth (char ∷ raw) s = depth_step char s >>= λ t. json_depth raw t

abbrev pub no_depth : Depth
no_depth = record { opened = 0; closed = 0; in_string = false; escaped = false }

-- a text with no lone surrogates
abbrev pub can_encode : Codes → Bool
can_encode l = every (λ c. not (in_range 0xd800 0xdfff c)) l

-- _utf8, of a text
abbrev pub utf8 : Codes → ℕ → Option Codes
utf8 value maximum =
    check (can_encode value && leb 1 (utf8_size value) && leb (utf8_size value) maximum) >>= λ _.
    some value

abbrev pub text_of : Json → Option Codes
text_of (json_string s) = some s
text_of _ = none

-- _label
unfoldable pub label_of : Library → Json → Option Codes
label_of lib v = text_of v >>= λ s.
    utf8 s 128 >>= λ value. check (not (any lib.is_control value)) >>= λ _. some value

-- re.split(r"/", value)
unfoldable pub split_slashes : Codes → List Codes
split_slashes [] = [] ∷ []
split_slashes (c ∷ l) =
    let rest = split_slashes l in
    if c == 0x2f
    then [] ∷ rest
    else elim rest [ [] ↦ (c ∷ []) ∷ [] | part ∷ parts ↦ (c ∷ part) ∷ parts ]

abbrev pub is_dots : Codes → Bool
is_dots part = same_codes part (0x2e ∷ []) || same_codes part (0x2e ∷ 0x2e ∷ [])

abbrev pub is_special : ℕ → Bool
is_special c = c == 0x7e || c == 0x24 || c == 0x25 || c == 0x60

abbrev pub starts_with : Codes → Codes → Bool
starts_with [] value = true
starts_with (c ∷ p) [] = false
starts_with (c ∷ p) (d ∷ value) = c == d && starts_with p value

abbrev pub device_prefixes : List Codes
device_prefixes =
    (0x5c ∷ 0x5c ∷ 0x3f ∷ 0x5c ∷ [])
    ∷ (0x5c ∷ 0x5c ∷ 0x2e ∷ 0x5c ∷ [])
    ∷ (0x2f ∷ 0x2f ∷ 0x3f ∷ 0x2f ∷ [])
    ∷ (0x2f ∷ 0x2f ∷ 0x2e ∷ 0x2f ∷ [])
    ∷ []

-- _native_path; the path is its text
unfoldable pub native_path : Library → Json → Option Codes
unfolding split_slashes
native_path lib v = text_of v >>= λ s. utf8 s 4096 >>= λ value.
    check (
      same_codes value (lib.strip value)
      && not (any lib.is_control value)
      && not (any is_special value)
      && not (any is_dots (split_slashes value))
      && lib.is_absolute value
      && not (any (λ p. starts_with p value) device_prefixes))
    >>= λ _. some value
