-- ===== src/Wikilinks.antt =====
-- Wikilinks in Markdown (app/services/wikilinks.py): the parser of `WikilinkResolver`, the snapshot of
-- the live notes, and the resolution of a link against it. The functions of Python's `str` and
-- `pathlib` are the fields of `Library`. What the vault answers for a path with a folder is an argument.
pub mod Lines
pub mod Printed
pub mod Names
mod Samples
use vault_bridge.Base.{
  ℕ, zero, suc, ◌+◌, Bool, true, false, not, ◌&&◌, ◌||◌, Option, none, some, List, [], ◌∷◌, ◌++◌,
  ◌==◌, if◌then◌else◌, length, any, leb,
}
use vault_bridge.Base.Codes.{Codes, same_codes}

-- `str.strip`; `PurePosixPath(path).name`; the tests of `_candidate_path` on the two kinds of paths,
-- and whether the POSIX path has a suffix; `markdown.splitlines`, with the length of each line with its
-- line break
pub record Library : Type 0 where
  pub strip : Codes → Codes
  pub name : Codes → Codes
  pub is_outside : Codes → Bool
  pub has_suffix : Codes → Bool
  pub splitlines : Codes → List (Codes × ℕ)

-- the position is set where a link is added to the links of a line
pub record Wikilink : Type 0 where
  pub target : Codes
  pub heading : Option Codes
  pub alias : Option Codes
  pub resolved_path : Option Codes
  pub source_position : ℕ

-- The texts before and after the first place where a character stands twice, `line.find("[[", cursor)`
-- of the text from the cursor on.
unfoldable pub cut_pair : ℕ → Codes → Option (Codes × Codes)
cut_pair k [] = none
cut_pair k (c ∷ []) = none
cut_pair k (c ∷ d ∷ l) =
    let rest = cut_pair k (d ∷ l) in
    if c == k && d == k
    then some ([], l)
    else elim rest [ none ↦ none | some cut ↦ some (c ∷ cut.0, cut.1) ]

abbrev pub has_code : ℕ → Codes → Bool
has_code k l = any (λ c. c == k) l

-- text.count(character)
unfoldable pub count_code : ℕ → Codes → ℕ
count_code k [] = 0
count_code k (c ∷ l) = let rest = count_code k l in if c == k then suc rest else rest

-- text.partition(separator); without a separator there is no third part
unfoldable pub partition : ℕ → Codes → Codes × Option Codes
partition k [] = ([], none)
partition k (c ∷ l) =
    let rest = partition k l in if c == k then ([], some l) else (c ∷ rest.0, rest.1)

abbrev pub is_empty : Codes → Bool
is_empty [] = true
is_empty (_ ∷ _) = false

-- the stripped part, if there is one
abbrev pub stripped : Library → Option Codes → Option Codes
stripped lib none = none
stripped lib (some part) = some (lib.strip part)

-- a part that is there and empty
abbrev pub is_missing : Option Codes → Bool
is_missing none = false
is_missing (some part) = is_empty part

abbrev pub link_of : Codes → Option Codes → Option Codes → Option Wikilink
link_of target heading alias =
    if is_empty target || is_missing heading || is_missing alias
    then none
    else some (record {
      target = target;
      heading = heading;
      alias = alias;
      resolved_path = none;
      source_position = 0;
    })

-- _parse_body
unfoldable pub parse_body : Library → Codes → Option Wikilink
unfolding count_code partition
parse_body lib body =
    let (target_with_heading, raw_alias) = partition 0x7c body in
    let (raw_target, raw_heading) = partition 0x23 target_with_heading in
    if has_code 0x5b body
      || has_code 0x5d body
      || has_code 0 body
      || not (leb (count_code 0x7c body) 1)
    then none
    else link_of (lib.strip raw_target) (stripped lib raw_heading) (stripped lib raw_alias)

abbrev pub at_position : ℕ → Option Wikilink → List Wikilink → List Wikilink
at_position p none links = links
at_position p (some l) links =
    record {
      target = l.target;
      heading = l.heading;
      alias = l.alias;
      resolved_path = l.resolved_path;
      source_position = p;
    }
    ∷ links

abbrev pub has_pair : Option (Codes × Codes) → Bool
has_pair none = false
has_pair (some _) = true

-- the loop of `_parse_line`, from a position, with the text from there on; each round takes four
-- characters at least
unfoldable pub parse_from : ℕ → Library → ℕ → Codes → List Wikilink
unfolding cut_pair parse_body
parse_from zero lib position text = []
parse_from (suc fuel) lib position text = elim (cut_pair 0x5b text) [
  | none ↦ []
  | some (before, after) ↦ elim (cut_pair 0x5d after) [
    | none ↦ []
    | some (body, rest) ↦
        let start = position + length before in
        let links = parse_from fuel lib (start + 2 + length body + 2) rest in
        if has_pair (cut_pair 0x5b body)
        then links
        else at_position start (parse_body lib body) links
  ]
]

-- _parse_line
unfoldable pub parse_line : Library → ℕ → Codes → List Wikilink
unfolding parse_from
parse_line lib source_offset line = parse_from (length line) lib source_offset line

-- the characters of a run, and the rest
unfoldable pub run_of : ℕ → Codes → ℕ × Codes
run_of k [] = (0, [])
run_of k (c ∷ l) = let rest = run_of k l in if c == k then (suc rest.0, rest.1) else (0, c ∷ l)

-- `[ \t]{0,3}`, before a character that is no blank
unfoldable pub skip_blanks : ℕ → Codes → Codes
skip_blanks zero l = l
skip_blanks (suc n) [] = []
skip_blanks (suc n) (c ∷ l) = if c == 0x20 || c == 9 then skip_blanks n l else c ∷ l

pub record Fence : Type 0 where
  pub character : ℕ
  pub size : ℕ
  pub after : Codes

abbrev pub fence_if : ℕ → ℕ × Codes → Option Fence
fence_if k (size, after) =
    if leb 3 size then some (record { character = k; size = size; after = after }) else none

-- _FENCE_PATTERN.match(line)
unfoldable pub fence_of : Codes → Option Fence
unfolding skip_blanks run_of
fence_of line = elim (skip_blanks 3 line) [
  | [] ↦ none
  | c ∷ l ↦ if c == 0x60 || c == 0x7e then fence_if c (run_of c (c ∷ l)) else none
]

-- fence_character and fence_length after a line with a fence
abbrev pub next_fence : Library → Option (ℕ × ℕ) → Fence → Option (ℕ × ℕ)
next_fence lib none f = some (f.character, f.size)
next_fence lib (some (character, size)) f =
    if f.character == character && leb size f.size && is_empty (lib.strip f.after)
    then none
    else some (character, size)

abbrev pub is_open : Option (ℕ × ℕ) → Bool
is_open none = false
is_open (some _) = true

-- the loop of `parse` over the lines
unfoldable pub parse_lines : Library → Option (ℕ × ℕ) → ℕ → List (Codes × ℕ) → List Wikilink
unfolding parse_line fence_of
parse_lines lib fence source_offset [] = []
parse_lines lib fence source_offset ((line, size) ∷ lines) = elim (fence_of line) [
  | some f ↦ parse_lines lib (next_fence lib fence f) (source_offset + size) lines
  | none ↦
      let links = parse_lines lib fence (source_offset + size) lines in
      if is_open fence then links else parse_line lib source_offset line ++ links
]

-- WikilinkResolver.parse
unfoldable pub parse : Library → Codes → List Wikilink
unfolding parse_lines
parse lib markdown = parse_lines lib none 0 (lib.splitlines markdown)

-- LiveMarkdownPathCandidate, of the vault service
pub record Candidate : Type 0 where
  pub discovered_path : Codes
  pub canonical_path : Codes

-- `grouped[name][canonical_path] = None`: the paths of a name, in the order of their first candidate
unfoldable pub add_path : Codes → List Codes → List Codes
add_path path [] = path ∷ []
add_path path (p ∷ paths) =
    let rest = add_path path paths in if same_codes p path then p ∷ paths else p ∷ rest

-- unqualified_paths.get(name, ()) of `from_candidates`, from the paths collected so far
unfoldable pub paths_from : Library → Codes → List Codes → List Candidate → List Codes
unfolding add_path
paths_from lib name paths [] = paths
paths_from lib name paths (c ∷ candidates) =
    paths_from lib name
      (if same_codes (lib.name c.discovered_path) name
        then add_path c.canonical_path paths
        else paths)
      candidates

unfoldable pub unqualified_paths : Library → List Candidate → Codes → List Codes
unfolding paths_from
unqualified_paths lib candidates name = paths_from lib name [] candidates

-- target.replace("\\", "/")
abbrev pub with_slashes : Codes → Codes
with_slashes [] = []
with_slashes (c ∷ l) = (if c == 0x5c then 0x2f else c) ∷ with_slashes l

-- _candidate_path
unfoldable pub candidate_path : Library → Codes → Option Codes
candidate_path lib target =
    let normalized = with_slashes (lib.strip target) in
    if is_empty normalized || lib.is_outside normalized
    then none
    else if lib.has_suffix normalized
    then some normalized
    else some (normalized ++ 0x2e ∷ 0x6d ∷ 0x64 ∷ [])

pub data Resolution : Type 0 where
  resolved missing ambiguous unsafe : Resolution

-- replace(link, resolved_path=path)
abbrev pub resolve_to : Option Codes → Wikilink → Wikilink
resolve_to path l = record {
  target = l.target;
  heading = l.heading;
  alias = l.alias;
  resolved_path = path;
  source_position = l.source_position;
}

-- the last part of `_resolve_with_reason`, for a name; `is_unsafe` is the test on
-- `unsafe_unqualified_names`
unfoldable pub resolve_name : Wikilink → Bool → List Codes → Wikilink × Resolution
resolve_name l is_unsafe [] = (resolve_to none l, if is_unsafe then unsafe else missing)
resolve_name l is_unsafe (p ∷ []) = (resolve_to (some p) l, resolved)
resolve_name l is_unsafe (p ∷ q ∷ paths) = (resolve_to none l, ambiguous)

-- _resolve_with_reason without exact candidates; `verify` stands for
-- `verify_existing_markdown_path_result` of the vault service
unfoldable pub resolve_with_reason :
    Library
    → (Codes → Option Codes × Resolution)
    → List Candidate
    → (Codes → Bool)
    → Wikilink
    → Wikilink × Resolution
unfolding candidate_path unqualified_paths resolve_name
resolve_with_reason lib verify candidates is_unsafe l = elim (candidate_path lib l.target) [
  | none ↦ (resolve_to none l, unsafe)
  | some candidate ↦
      let normalized = with_slashes candidate in
      let verification = verify candidate in
      if has_code 0x2f normalized
      then (resolve_to verification.0 l, verification.1)
      else resolve_name l (is_unsafe normalized) (unqualified_paths lib candidates normalized)
]
