-- ===== src/Wikilinks/Samples.antt =====
-- A link in a line, and the resolution of a name with one live note.
use vault_bridge.Base.{ℕ, ◌+◌, ◌≡◌, refl, false, Option, none, some, List, [], ◌∷◌, ◌++◌, length}
use vault_bridge.Base.Codes.{Codes}
use vault_bridge.Wikilinks.{
  Library, Wikilink, Candidate, Resolution, missing, parse_line, candidate_path,
  resolve_with_reason, with_slashes,
}
use vault_bridge.Wikilinks.Printed.{printed, link_at, parse_line-printed}
use vault_bridge.Wikilinks.Names.{IsNameAnswer, resolve_with_reason-IsNameAnswer}

abbrev library : Library
library = record {
  strip = λ s. s;
  name = λ path. path;
  is_outside = λ path. false;
  has_suffix = λ path. false;
  splitlines = λ text. (text, length text) ∷ [];
}

-- `x[[a#b]]y`
parse_line-printed_example :
    parse_line library 7 (
      (120 ∷ [])
      ++ 0x5b ∷ 0x5b ∷ (printed (97 ∷ []) (some (98 ∷ [])) none ++ 0x5d ∷ 0x5d ∷ (121 ∷ [])))
    ≡ link_at (97 ∷ []) (some (98 ∷ [])) none (7 + length {A = ℕ} (120 ∷ []))
      ∷ parse_line library
          (7 + length {A = ℕ} (120 ∷ []) + 2 + length (printed (97 ∷ []) (some (98 ∷ [])) none) + 2)
          (121 ∷ [])
parse_line-printed_example =
    parse_line-printed library 7 (120 ∷ []) (97 ∷ []) (some (98 ∷ [])) none (121 ∷ []) refl
      (refl, refl, refl, refl, refl, refl, refl) (refl, refl, refl, refl, refl, refl, refl) tt

abbrev link : Wikilink
link = link_at (97 ∷ []) none none 0

-- the note `a.md`
abbrev candidates : List Candidate
candidates =
    record {
      discovered_path = 97 ∷ 0x2e ∷ 0x6d ∷ 0x64 ∷ [];
      canonical_path = 97 ∷ 0x2e ∷ 0x6d ∷ 0x64 ∷ [];
    }
    ∷ []

abbrev verify : Codes → Option Codes × Resolution
verify path = (none, missing)

link_path : candidate_path library link.target ≡ some (97 ∷ 0x2e ∷ 0x6d ∷ 0x64 ∷ [])
unfolding candidate_path
link_path = refl

resolve_with_reason-IsNameAnswer_example :
    IsNameAnswer library candidates
      (with_slashes (97 ∷ 0x2e ∷ 0x6d ∷ 0x64 ∷ []))
      false
      (resolve_with_reason library verify candidates (λ name. false) link)
resolve_with_reason-IsNameAnswer_example =
    resolve_with_reason-IsNameAnswer library verify candidates (λ name. false) link
      (97 ∷ 0x2e ∷ 0x6d ∷ 0x64 ∷ []) link_path refl
