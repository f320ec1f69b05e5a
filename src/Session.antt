-- ===== src/Session.antt =====
-- Tokens of UI sessions (app/core/ui_session.py): `create_ui_session_token` and
-- `validate_ui_session_token`. A text is the list of its code points; a time is in seconds. HMAC-SHA256
-- and the base64 encoding are the fields of `Signing`.
pub mod Splitting
pub mod Decimal
pub mod Tokens
mod Samples
use vault_bridge.Base.{
  ℕ, zero, suc, ◌+◌, ◌-◌, ◌*◌, ◌/◌, ◌%◌, Bool, true, false, not, ◌&&◌, ◌||◌, Option, none, some,
  List, [], ◌∷◌, ◌++◌, ◌==◌, if◌then◌else◌, length, every, leb, ltb,
}
use vault_bridge.Base.Codes.{Codes, codes, same_codes}
use vault_bridge.Frontmatter.Scalars.{is_digit, number_from}

-- `hmac.new(key, message, hashlib.sha256).digest()` of encoded texts, and `base64.urlsafe_b64encode`
pub record Signing : Type 0 where
  pub hmac : Codes → Codes → Codes
  pub urlsafe_b64encode : Codes → Codes

-- UI_SESSION_LIFETIME_SECONDS
abbrev pub lifetime_seconds : ℕ
lifetime_seconds = 604800

-- _TOKEN_VERSION
abbrev pub token_version : Codes
token_version = 0x76 ∷ 0x31 ∷ []

-- _MAX_TOKEN_LENGTH
abbrev pub max_token_length : ℕ
max_token_length = 160

-- _SIGNING_KEY_CONTEXT
unfoldable pub signing_key_context : Codes
unfolding codes
signing_key_context = codes "VaultBridge UI session signing key v1"

-- _signing_key, of the secret value of `api_key`
unfoldable pub signing_key : Signing → Codes → Option Codes
signing_key s [] = none
signing_key s (c ∷ l) = some (s.hmac (c ∷ l) signing_key_context)

-- the decimal digits of a number that is below the fuel
unfoldable pub decimal_from : ℕ → ℕ → Codes
decimal_from zero n = []
decimal_from (suc fuel) n =
    let rest = decimal_from fuel (n / 10) in
    if ltb n 10 then (0x30 + n) ∷ [] else rest ++ (0x30 + n % 10) ∷ []

-- f"{n}"
unfoldable pub decimal : ℕ → Codes
unfolding decimal_from
decimal n = decimal_from (suc n) n

-- rstrip(b"=")
unfoldable pub without_padding : Codes → Codes
without_padding [] = []
without_padding (c ∷ l) =
    let rest = without_padding l in if every (λ d. d == 0x3d) (c ∷ l) then [] else c ∷ rest

-- f"{version}.{issued}.{expires}"
abbrev pub payload_of : Codes → Codes → Codes → Codes
payload_of version issued expires = version ++ 0x2e ∷ (issued ++ 0x2e ∷ expires)

-- the encoded signature of a payload
abbrev pub signature_of : Signing → Codes → Codes → Codes
signature_of s key payload = without_padding (s.urlsafe_b64encode (s.hmac key payload))

-- f"{payload}.{encoded_signature}"
abbrev pub token_of : Signing → Codes → Codes → Codes
token_of s key payload = payload ++ 0x2e ∷ signature_of s key payload

-- create_ui_session_token; `none` is the ValueError
unfoldable pub create_ui_session_token : Signing → Codes → ℕ → Option Codes
unfolding signing_key decimal without_padding
create_ui_session_token s api_key issued_at = elim (signing_key s api_key) [
  | none ↦ none
  | some key ↦ some (
      token_of s key
        (payload_of token_version (decimal issued_at) (decimal (issued_at + lifetime_seconds))))
]

-- token.split(".")
unfoldable pub split_dots : Codes → List Codes
split_dots [] = [] ∷ []
split_dots (c ∷ l) =
    let rest = split_dots l in
    if c == 0x2e
    then [] ∷ rest
    else elim rest [ [] ↦ (c ∷ []) ∷ [] | part ∷ parts ↦ (c ∷ part) ∷ parts ]

-- text.isdigit(), of an ASCII text
abbrev pub is_decimal : Codes → Bool
is_decimal [] = false
is_decimal (c ∷ l) = every is_digit (c ∷ l)

abbrev pub is_ascii : Codes → Bool
is_ascii l = every (λ c. leb c 0x7f) l

-- the tests on the four parts before the times
abbrev pub has_form : Codes → Codes → Codes → Codes → Bool
has_form version issued expires signature =
    same_codes version token_version
    && is_decimal issued
    && is_decimal expires
    && leb (length issued) 12
    && leb (length expires) 12
    && length signature == 43

-- the tests on the times
abbrev pub is_current : ℕ → ℕ → ℕ → Bool
is_current issued_at expires_at now =
    leb issued_at now && ltb now expires_at && expires_at == issued_at + lifetime_seconds

-- hmac.compare_digest
unfoldable pub is_signed : Signing → Option Codes → Codes → Codes → Bool
unfolding without_padding
is_signed s none payload signature = false
is_signed s (some key) payload signature = same_codes signature (signature_of s key payload)

-- the part of `validate_ui_session_token` after the split
unfoldable pub validate_parts : Signing → Codes → ℕ → List Codes → Bool
unfolding number_from signing_key is_signed
validate_parts s api_key now (version ∷ issued ∷ expires ∷ signature ∷ []) =
    has_form version issued expires signature
    && is_current (number_from 10 0 issued) (number_from 10 0 expires) now
    && is_signed s (signing_key s api_key) (payload_of version issued expires) signature
validate_parts s api_key now _ = false

abbrev pub may_be_token : Codes → Bool
may_be_token [] = false
may_be_token (c ∷ l) = leb (length (c ∷ l)) max_token_length && is_ascii (c ∷ l)

-- validate_ui_session_token
unfoldable pub validate_ui_session_token : Signing → Codes → ℕ → Option Codes → Bool
unfolding split_dots validate_parts
validate_ui_session_token s api_key now none = false
validate_ui_session_token s api_key now (some token) =
    may_be_token token && validate_parts s api_key now (split_dots token)
