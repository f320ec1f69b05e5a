-- ===== src/Session/Tokens.antt =====
-- What the validation of a token accepts (app/core/ui_session.py).
use vault_bridge.Base.{
  ℕ, ◌+◌, ◌^◌, ◌≤◌, ◌<◌, ◌≡◌, refl, ap, sym, subst, ◌∙◌, true, false, ◌&&◌, Option, none, some,
  List, [], ◌∷◌, ◌++◌, length, length-append, every, leb, ltb, arith,
}
use mathlib.Core.List.{append_assoc}
use vault_bridge.Base.Codes.{Codes, same_codes_iff}
use vault_bridge.Frontmatter.Scalars.{is_digit, number_from}
use vault_bridge.Session.{
  Signing, lifetime_seconds, token_version, signing_key_context, signing_key, decimal,
  without_padding, payload_of, signature_of, token_of, create_ui_session_token, split_dots,
  is_decimal, is_ascii, is_current, is_signed, validate_parts, may_be_token,
  validate_ui_session_token,
}
use vault_bridge.Session.Splitting.{
  has_no_dot, join_dots, split_dots-last, split_dots-part, join-split_dots,
}
use vault_bridge.Session.Decimal.{decimal_lem, every-append}

digits_plain : (l : Codes) → every is_digit l ≡ true → (has_no_dot l ≡ true) × (is_ascii l ≡ true)
digits_plain [] h = (refl, refl)
digits_plain (c ∷ l) h =
    let rest = digits_plain l (ground arith) in (ground (arith, rest), ground (arith, rest))

is_decimal_plain : (l : Codes) → is_decimal l ≡ true → (has_no_dot l ≡ true) × (is_ascii l ≡ true)
is_decimal_plain [] h = (refl, refl)
is_decimal_plain (c ∷ l) h = digits_plain (c ∷ l) h

-- An encoded signature: 43 ASCII characters, and no dot.
abbrev pub IsSignatureText : Codes → Type 0
IsSignatureText l = (length l ≡ 43) × (is_ascii l ≡ true) × (has_no_dot l ≡ true)

split-token :
    (issued expires signature : Codes)
    → has_no_dot issued ≡ true
    → has_no_dot expires ≡ true
    → has_no_dot signature ≡ true
    → split_dots (payload_of token_version issued expires ++ 0x2e ∷ signature)
      ≡ token_version ∷ issued ∷ expires ∷ signature ∷ []
split-token issued expires signature i e s =
    let tail = expires ++ 0x2e ∷ signature in
    ap (λ l. split_dots (token_version ++ 0x2e ∷ l))
      (append_assoc issued (0x2e ∷ expires) (0x2e ∷ signature))
    ∙ split_dots-part token_version (issued ++ 0x2e ∷ tail) refl
    ∙ ap (λ l. token_version ∷ l)
        (split_dots-part issued tail i
          ∙ ap (λ l. issued ∷ l)
              (split_dots-part expires signature e
                ∙ ap (λ l. expires ∷ l) (split_dots-last signature s)))

may_be-token :
    (issued expires signature : Codes)
    → is_ascii issued ≡ true
    → is_ascii expires ≡ true
    → is_ascii signature ≡ true
    → length issued ≤ 12
    → length expires ≤ 12
    → length signature ≡ 43
    → may_be_token (payload_of token_version issued expires ++ 0x2e ∷ signature) ≡ true
may_be-token issued expires signature i e s m n k =
    let payload = issued ++ 0x2e ∷ expires in
    let ascii : is_ascii (payload ++ 0x2e ∷ signature) ≡ true =
      every-append (λ c. leb c 0x7f) payload (0x2e ∷ signature)
        (every-append (λ c. leb c 0x7f) issued (0x2e ∷ expires) i e) s in
    let size : length (payload ++ 0x2e ∷ signature) ≤ 69 =
      omega
        (arith, length-append payload (0x2e ∷ signature), length-append issued (0x2e ∷ expires)) in
    ground (arith, ascii, size)

create_ui_session_token_lem :
    (s : Signing) (c : ℕ) (api_key : Codes) (issued_at : ℕ)
    → create_ui_session_token s (c ∷ api_key) issued_at
      ≡ some (
          token_of s
            (s.hmac (c ∷ api_key) signing_key_context)
            (payload_of token_version (decimal issued_at) (decimal (issued_at + lifetime_seconds))))
unfolding create_ui_session_token
create_ui_session_token_lem s c api_key issued_at = refl

validate-split :
    (s : Signing) (api_key : Codes) (now : ℕ) (token : Codes) {parts : List Codes}
    → may_be_token token ≡ true
    → split_dots token ≡ parts
    → validate_ui_session_token s api_key now (some token) ≡ validate_parts s api_key now parts
unfolding validate_ui_session_token
validate-split s api_key now token may e = rw may (ap (λ l. validate_parts s api_key now l) e)

validate_parts-current :
    (s : Signing) (c : ℕ) (api_key : Codes) (now issued_at : ℕ) (issued expires : Codes)
    → is_decimal issued ≡ true
    → is_decimal expires ≡ true
    → length issued ≤ 12
    → length expires ≤ 12
    → number_from 10 0 issued ≡ issued_at
    → number_from 10 0 expires ≡ issued_at + lifetime_seconds
    → (signature : Codes) → length signature ≡ 43
    → signature
      ≡ signature_of s
          (s.hmac (c ∷ api_key) signing_key_context)
          (payload_of token_version issued expires)
    → validate_parts s (c ∷ api_key) now (token_version ∷ issued ∷ expires ∷ signature ∷ [])
      ≡ (leb issued_at now && ltb now (issued_at + lifetime_seconds))
unfolding validate_parts
validate_parts-current s c api_key now issued_at issued expires i e m n v w signature k signed =
    let same =
      (same_codes_iff signature (
          signature_of s (s.hmac (c ∷ api_key) signing_key_context)
            (payload_of token_version issued expires))).1
        signed in
    rw i (rw e (rw v (rw w (rw same (ground (arith, m, n, k))))))

-- If the encoding of each digest is 43 ASCII characters without a dot, a token that is made at a time
-- whose session ends before 10^12 is accepted with the same key exactly from that time on and before
-- the lifetime has passed.
pub validate-create_ui_session_token :
    (s : Signing) (c : ℕ) (api_key : Codes) (issued_at now : ℕ)
    → ((key message : Codes)
        → IsSignatureText (without_padding (s.urlsafe_b64encode (s.hmac key message))))
    → issued_at + lifetime_seconds < 10 ^ 12
    → validate_ui_session_token s
        (c ∷ api_key)
        now
        (create_ui_session_token s (c ∷ api_key) issued_at)
      ≡ (leb issued_at now && ltb now (issued_at + lifetime_seconds))
validate-create_ui_session_token s c api_key issued_at now encodes small =
    let key = s.hmac (c ∷ api_key) signing_key_context in
    let issued = decimal issued_at in
    let expires = decimal (issued_at + lifetime_seconds) in
    let payload = payload_of token_version issued expires in
    let signature = signature_of s key payload in
    let (i, i_value, i_size) = decimal_lem issued_at in
    let (e, e_value, e_size) = decimal_lem (issued_at + lifetime_seconds) in
    let (i_dot, i_ascii) = is_decimal_plain issued i in
    let (e_dot, e_ascii) = is_decimal_plain expires e in
    let (s_size, s_ascii, s_dot) = encodes key payload in
    let m = i_size (omega arith) in
    let may =
      may_be-token issued expires signature i_ascii e_ascii s_ascii m (e_size small) s_size in
    let parts = split-token issued expires signature i_dot e_dot s_dot in
    ap (λ t. validate_ui_session_token s (c ∷ api_key) now t)
      (create_ui_session_token_lem s c api_key issued_at)
    ∙ validate-split s (c ∷ api_key) now (token_of s key payload) may parts
    ∙ validate_parts-current s c api_key now issued_at issued expires i e m (e_size small) i_value
        e_value signature s_size refl

-- The token carries the signature of the present key over its version and times, and its times are
-- a lifetime apart and around the present time.
abbrev pub IsIssued : Signing → Codes → ℕ → Codes → Type 0
IsIssued s api_key now token =
    (key : Codes) × (issued : Codes) × (expires : Codes) × (signing_key s api_key ≡ some key)
    × (token ≡ token_of s key (payload_of token_version issued expires))
    × (number_from 10 0 issued ≤ now)
    × (now < number_from 10 0 expires)
    × (number_from 10 0 expires ≡ number_from 10 0 issued + lifetime_seconds)

is_signed_key :
    (s : Signing) (o : Option Codes) (payload signature : Codes)
    → is_signed s o payload signature ≡ true
    → (key : Codes) × (o ≡ some key) × (signature ≡ signature_of s key payload)
unfolding is_signed
is_signed_key s none payload signature h = absurd (ground arith)
is_signed_key s (some key) payload signature h =
    (key, refl, (same_codes_iff signature (signature_of s key payload)).0 h)

token-regroup :
    (version issued expires signature : Codes)
    → join_dots (version ∷ issued ∷ expires ∷ signature ∷ [])
      ≡ payload_of version issued expires ++ 0x2e ∷ signature
token-regroup version issued expires signature = sym (
    append_assoc version (0x2e ∷ (issued ++ 0x2e ∷ expires)) (0x2e ∷ signature)
    ∙ ap (λ l. version ++ 0x2e ∷ l) (append_assoc issued (0x2e ∷ expires) (0x2e ∷ signature)))

validate_parts-IsIssued :
    (s : Signing) (api_key : Codes) (now : ℕ) (version issued expires signature : Codes)
    → validate_parts s api_key now (version ∷ issued ∷ expires ∷ signature ∷ []) ≡ true
    → IsIssued s api_key now (payload_of version issued expires ++ 0x2e ∷ signature)
unfolding validate_parts
validate_parts-IsIssued s api_key now version issued expires signature h =
    let signed : is_signed s (signing_key s api_key) (payload_of version issued expires) signature
        ≡ true =
      ground arith in
    let same : version ≡ token_version = (same_codes_iff version token_version).0 (ground arith) in
    let (key, present, signature_same) =
      is_signed_key s (signing_key s api_key) (payload_of version issued expires) signature
        signed in
    let current : is_current (number_from 10 0 issued) (number_from 10 0 expires) now ≡ true =
      ground arith in
    (
      key,
      issued,
      expires,
      present,
      ap (λ l. payload_of version issued expires ++ 0x2e ∷ l) signature_same
          ∙ ap (λ v. token_of s key (payload_of v issued expires)) same,
      ground arith,
      ground arith,
      ground arith,
    )

-- Every token that is accepted has been signed with the key of the present API key, over its own
-- times, and is neither early nor expired.
pub validate_ui_session_token-IsIssued :
    (s : Signing) (api_key : Codes) (now : ℕ) (token : Codes)
    → validate_ui_session_token s api_key now (some token) ≡ true
    → IsIssued s api_key now token
unfolding validate_ui_session_token
validate_ui_session_token-IsIssued s api_key now token h =
    at (split_dots token) (join-split_dots token) (ground arith)
  where
    at :
        (parts : List Codes)
        → join_dots parts ≡ token
        → validate_parts s api_key now parts ≡ true
        → IsIssued s api_key now token
    at (version ∷ issued ∷ expires ∷ signature ∷ []) e v =
        subst (λ t. IsIssued s api_key now t)
          (sym (token-regroup version issued expires signature) ∙ e)
          (validate_parts-IsIssued s api_key now version issued expires signature v)
    at _ e v = absurd (refused v)
      where
        refused : false ≡ true → ⊥
        refused v = cc
