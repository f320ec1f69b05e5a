-- ===== src/Wikilinks/Printed.antt =====
-- A wikilink that is written out is found again (app/services/wikilinks.py).
use vault_bridge.Base.{
  ℕ, suc, ◌+◌, ◌≤◌, ◌≡◌, refl, ap, subst, ◌∙◌, true, false, ◌||◌, Option, none, some, [], ◌∷◌, ◌++◌,
  ◌==◌, length, length-append, leb, arith,
}
use vault_bridge.Base.Codes.{Codes}
use vault_bridge.Wikilinks.{
  Library, Wikilink, has_code, count_code, partition, is_empty, stripped, is_missing, link_of,
  parse_body, at_position, parse_from, parse_line,
}
use vault_bridge.Wikilinks.Lines.{cut_pair-first, cut_pair-absent, parse_from_enough}

-- A text that the parser of a body takes as a part: it is not empty, has no blanks at its ends and none
-- of the characters that delimit parts.
abbrev pub IsPart : Library → Codes → Type 0
IsPart lib l =
    (lib.strip l ≡ l)
    × (is_empty l ≡ false)
    × (has_code 0x5b l ≡ false)
    × (has_code 0x5d l ≡ false)
    × (has_code 0 l ≡ false)
    × (has_code 0x7c l ≡ false)
    × (has_code 0x23 l ≡ false)

abbrev pub IsOptionalPart : Library → Option Codes → Type 0
IsOptionalPart lib none = Unit
IsOptionalPart lib (some l) = IsPart lib l

-- a separator and a part, if there is one
abbrev pub after_separator : ℕ → Option Codes → Codes
after_separator k none = []
after_separator k (some part) = k ∷ part

-- target, `#` heading and `|` alias
abbrev pub printed : Codes → Option Codes → Option Codes → Codes
printed target heading alias =
    (target ++ after_separator 0x23 heading) ++ after_separator 0x7c alias

partition_lem :
    (k : ℕ) (a : Codes) (o : Option Codes)
    → has_code k a ≡ false
    → partition k (a ++ after_separator k o) ≡ (a, o)
unfolding partition
partition_lem k [] none h = refl
partition_lem k [] (some b) h = ground arith
partition_lem k (c ∷ a) o h = let ih = partition_lem k a o (ground arith) in ground (arith, ih)

has_code-append : (k : ℕ) (a b : Codes) → has_code k (a ++ b) ≡ (has_code k a || has_code k b)
has_code-append k [] b = refl
has_code-append k (c ∷ a) b = ground (arith, has_code-append k a b)

count_code-append : (k : ℕ) (a b : Codes) → count_code k (a ++ b) ≡ count_code k a + count_code k b
unfolding count_code
count_code-append k [] b = omega arith
count_code-append k (c ∷ a) b = ground (arith, count_code-append k a b)

count_code-absent : (k : ℕ) (a : Codes) → has_code k a ≡ false → count_code k a ≡ 0
unfolding count_code
count_code-absent k [] h = refl
count_code-absent k (c ∷ a) h = ground (arith, count_code-absent k a (ground arith))

separator-absent :
    (k j : ℕ) (o : Option Codes)
    → k == j ≡ false
    → ((l : Codes) → o ≡ some l → has_code j l ≡ false)
    → has_code j (after_separator k o) ≡ false
separator-absent k j none h f = refl
separator-absent k j (some l) h f = ground (arith, f l refl)

-- a character that stands in none of the parts, and is no separator, stands nowhere in the body
printed-absent :
    (j : ℕ) (target : Codes) (heading alias : Option Codes)
    → (0x23 == j ≡ false)
    → (0x7c == j ≡ false)
    → has_code j target ≡ false
    → ((l : Codes) → heading ≡ some l → has_code j l ≡ false)
    → ((l : Codes) → alias ≡ some l → has_code j l ≡ false)
    → has_code j (printed target heading alias) ≡ false
printed-absent j target heading alias h b t f g =
    let first = target ++ after_separator 0x23 heading in
    ground (
      arith,
      has_code-append j first (after_separator 0x7c alias),
      has_code-append j target (after_separator 0x23 heading),
      separator-absent 0x23 j heading h f,
      separator-absent 0x7c j alias b g,
      t,
    )

IsPart-of :
    (lib : Library) (o : Option Codes)
    → IsOptionalPart lib o
    → (l : Codes) → o ≡ some l
    → IsPart lib l
IsPart-of lib none h l e = cc
IsPart-of lib (some m) h l e = subst (λ x. IsPart lib x) (cc) h

stripped_lem :
    (lib : Library) (o : Option Codes)
    → IsOptionalPart lib o
    → (stripped lib o ≡ o) × (is_missing o ≡ false)
stripped_lem lib none h = (refl, refl)
stripped_lem lib (some l) h = (ap some h.0, h.1)

alias-count :
    (o : Option Codes)
    → ((l : Codes) → o ≡ some l → has_code 0x7c l ≡ false)
    → count_code 0x7c (after_separator 0x7c o) ≤ 1
unfolding count_code
alias-count none f = omega arith
alias-count (some l) f = omega (arith, count_code-absent 0x7c l (f l refl))

abbrev pub link_at : Codes → Option Codes → Option Codes → ℕ → Wikilink
link_at target heading alias position = record {
  target = target;
  heading = heading;
  alias = alias;
  resolved_path = none;
  source_position = position;
}

link_of_lem :
    (lib : Library) (target : Codes) (heading alias : Option Codes)
    → IsPart lib target
    → IsOptionalPart lib heading
    → IsOptionalPart lib alias
    → link_of (lib.strip target) (stripped lib heading) (stripped lib alias)
      ≡ some (link_at target heading alias 0)
link_of_lem lib target heading alias t h a =
    let (heading_same, heading_there) = stripped_lem lib heading h in
    let (alias_same, alias_there) = stripped_lem lib alias a in
    ap (λ x. link_of x (stripped lib heading) (stripped lib alias)) t.0
    ∙ ap (λ x. link_of target x (stripped lib alias)) heading_same
    ∙ ap (λ x. link_of target heading x) alias_same
    ∙ rw (t.1) (rw heading_there (rw alias_there refl))

parse_body-parts :
    (lib : Library) (body first target : Codes) (heading alias : Option Codes)
    → has_code 0x5b body ≡ false
    → has_code 0x5d body ≡ false
    → has_code 0 body ≡ false
    → leb (count_code 0x7c body) 1 ≡ true
    → partition 0x7c body ≡ (first, alias)
    → partition 0x23 first ≡ (target, heading)
    → parse_body lib body ≡ link_of (lib.strip target) (stripped lib heading) (stripped lib alias)
unfolding parse_body
parse_body-parts lib body first target heading alias o c n few outer inner =
    rw o (rw c (rw n (rw few (rw outer (rw inner refl)))))

parse_body-printed :
    (lib : Library) (target : Codes) (heading alias : Option Codes)
    → IsPart lib target
    → IsOptionalPart lib heading
    → IsOptionalPart lib alias
    → (parse_body lib (printed target heading alias) ≡ some (link_at target heading alias 0))
      × (has_code 0x5b (printed target heading alias) ≡ false)
      × (has_code 0x5d (printed target heading alias) ≡ false)
parse_body-printed lib target heading alias t h a =
    let first = target ++ after_separator 0x23 heading in
    let body = printed target heading alias in
    let no_bar : has_code 0x7c first ≡ false = ground (
      arith,
      has_code-append 0x7c target (after_separator 0x23 heading),
      t.5,
      separator-absent 0x23 0x7c heading refl (λ l e. (IsPart-of lib heading h l e).5),
    ) in
    let outer = partition_lem 0x7c first alias no_bar in
    let inner = partition_lem 0x23 target heading (t.6) in
    let no_open =
      printed-absent 0x5b target heading alias refl refl t.2
        (λ l e. (IsPart-of lib heading h l e).2) (λ l e. (IsPart-of lib alias a l e).2) in
    let no_close =
      printed-absent 0x5d target heading alias refl refl t.3
        (λ l e. (IsPart-of lib heading h l e).3) (λ l e. (IsPart-of lib alias a l e).3) in
    let no_null =
      printed-absent 0 target heading alias refl refl t.4 (λ l e. (IsPart-of lib heading h l e).4)
        (λ l e. (IsPart-of lib alias a l e).4) in
    let few : leb (count_code 0x7c body) 1 ≡ true = ground (
      arith,
      count_code-append 0x7c first (after_separator 0x7c alias),
      count_code-absent 0x7c first no_bar,
      alias-count alias (λ l e. (IsPart-of lib alias a l e).5),
    ) in
    (
      parse_body-parts lib body first target heading alias no_open no_close no_null few outer inner
          ∙ link_of_lem lib target heading alias t h a,
      no_open,
      no_close,
    )

parse_from-found :
    (fuel : ℕ) (lib : Library) (position : ℕ) (before body rest : Codes) (l : Wikilink)
    → has_code 0x5b before ≡ false
    → has_code 0x5b body ≡ false
    → has_code 0x5d body ≡ false
    → parse_body lib body ≡ some l
    → parse_from (suc fuel) lib position (before ++ 0x5b ∷ 0x5b ∷ (body ++ 0x5d ∷ 0x5d ∷ rest))
      ≡ at_position
          (position + length before)
          (some l)
          (parse_from fuel lib (position + length before + 2 + length body + 2) rest)
unfolding parse_from
parse_from-found fuel lib position before body rest l b o c parsed =
    let opened = cut_pair-first 0x5b before (body ++ 0x5d ∷ 0x5d ∷ rest) b in
    let closed = cut_pair-first 0x5d body rest c in
    let simple = cut_pair-absent 0x5b body o in
    rw (opened, parse_from) (rw closed (rw simple (rw parsed refl)))

-- A link that is written as `[[target#heading|alias]]`, where the parts have no blanks at their ends and
-- no delimiters and the last two may be left out, is found with exactly these parts and its place in
-- the text, after a text without `[`; the search then goes on right behind it.
pub parse_line-printed :
    (lib : Library) (source_offset : ℕ) (before target : Codes) (heading alias : Option Codes)
    (rest : Codes)
    → has_code 0x5b before ≡ false
    → IsPart lib target
    → IsOptionalPart lib heading
    → IsOptionalPart lib alias
    → parse_line lib source_offset
        (before ++ 0x5b ∷ 0x5b ∷ (printed target heading alias ++ 0x5d ∷ 0x5d ∷ rest))
      ≡ link_at target heading alias (source_offset + length before)
        ∷ parse_line lib
            (source_offset + length before + 2 + length (printed target heading alias) + 2)
            rest
unfolding parse_line
parse_line-printed lib source_offset before target heading alias rest b t h a =
    let body = printed target heading alias in
    let line = before ++ 0x5b ∷ 0x5b ∷ (body ++ 0x5d ∷ 0x5d ∷ rest) in
    let (parsed, no_open, no_close) = parse_body-printed lib target heading alias t h a in
    let next = source_offset + length before + 2 + length body + 2 in
    let size : length line ≡ length before + (length body + length rest + 4) = omega (
      arith,
      length-append before (0x5b ∷ 0x5b ∷ (body ++ 0x5d ∷ 0x5d ∷ rest)),
      length-append body (0x5d ∷ 0x5d ∷ rest),
    ) in
    parse_from_enough (length line) (suc (length line)) lib source_offset line (omega arith)
      (omega arith)
    ∙ parse_from-found (length line) lib source_offset before body rest
        (link_at target heading alias 0) b no_open no_close parsed
    ∙ ap (λ links. link_at target heading alias (source_offset + length before) ∷ links)
        (parse_from_enough (length line) (length rest) lib next rest (omega (arith, size))
          (omega arith))
