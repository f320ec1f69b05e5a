-- ===== src/Session/Samples.antt =====
-- A session at concrete times, with a signature that is the same for every message.
use vault_bridge.Base.{
  ℕ, zero, suc, ◌+◌, ◌≡◌, refl, ◌&&◌, some, true, [], ◌∷◌, ◌++◌, leb, ltb, arith,
}
use vault_bridge.Base.Codes.{Codes}
use vault_bridge.Session.{
  Signing, lifetime_seconds, create_ui_session_token, validate_ui_session_token, without_padding,
  token_of, payload_of, token_version,
}
use vault_bridge.Session.Tokens.{
  IsSignatureText, IsIssued, validate-create_ui_session_token, validate_ui_session_token-IsIssued,
}

abbrev letters : ℕ → Codes
letters zero = []
letters (suc n) = 65 ∷ letters n

abbrev signing : Signing
signing = record {
  hmac = λ key message. key;
  urlsafe_b64encode = λ digest. letters 43 ++ 0x3d ∷ [];
}

signing-IsSignatureText :
    (key message : Codes)
    → IsSignatureText (without_padding (signing.urlsafe_b64encode (signing.hmac key message)))
unfolding without_padding
signing-IsSignatureText key message = (refl, refl, refl)

validate-create_ui_session_token_example :
    validate_ui_session_token signing
      (97 ∷ [])
      2000
      (create_ui_session_token signing (97 ∷ []) 1000)
    ≡ (leb 1000 2000 && ltb 2000 (1000 + lifetime_seconds))
validate-create_ui_session_token_example =
    validate-create_ui_session_token signing 97 [] 1000 2000 signing-IsSignatureText (omega arith)

abbrev token : Codes
token =
    token_of signing (97 ∷ [])
      (payload_of token_version (49 ∷ []) (54 ∷ 48 ∷ 52 ∷ 56 ∷ 48 ∷ 49 ∷ []))

token_accepted : validate_ui_session_token signing (97 ∷ []) 2000 (some token) ≡ true
unfolding validate_ui_session_token
token_accepted = refl

validate_ui_session_token-IsIssued_example : IsIssued signing (97 ∷ []) 2000 token
validate_ui_session_token-IsIssued_example =
    validate_ui_session_token-IsIssued signing (97 ∷ []) 2000 token token_accepted
