-- ===== src/MarkdownLinks/Samples.antt =====
-- A line with one link.
use vault_bridge.Base.{◌≡◌, refl, false, none, some, List, [], ◌∷◌, length}
use vault_bridge.Wikilinks.{Library as TextLibrary}
use vault_bridge.Base.Codes.{Codes}
use vault_bridge.MarkdownLinks.{Library, MarkdownLink, parse_from, parse_line, parse}
use vault_bridge.MarkdownLinks.Places.{IsAnswer, parse_from-IsOrdered, parse_ends}

abbrev library : Library
library = record { is_space = λ c. false; has_scheme = λ path. false; is_rooted = λ path. false }

-- `x[a](b.md)`
abbrev line : Codes
line = 120 ∷ 0x5b ∷ 97 ∷ 0x5d ∷ 0x28 ∷ 98 ∷ 0x2e ∷ 0x6d ∷ 0x64 ∷ 0x29 ∷ []

abbrev link : MarkdownLink
link = record {
  destination = 98 ∷ 0x2e ∷ 0x6d ∷ 0x64 ∷ [];
  fragment = none;
  label = 97 ∷ [];
  source_position = 8;
}

line_links : parse_line library 7 line ≡ some (link ∷ [])
unfolding parse_line
line_links = refl

-- texts of one line
abbrev texts : TextLibrary
texts = record {
  strip = λ s. s;
  name = λ s. s;
  is_outside = λ s. false;
  has_suffix = λ s. false;
  splitlines = λ s. (s, length s) ∷ [];
}

parse_from-IsOrdered_example : IsAnswer line 11 0 (parse_from 11 library line 0)
parse_from-IsOrdered_example = parse_from-IsOrdered 11 library line 0

parse_ends_example : (links : List MarkdownLink) × (parse texts library line ≡ some links)
parse_ends_example = parse_ends texts library line
