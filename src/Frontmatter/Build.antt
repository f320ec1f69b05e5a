-- ===== src/Frontmatter/Build.antt =====
-- The values of the frontmatter from the parser's events (app/services/frontmatter.py): `_BuildState`,
-- `_parse_payload` and the functions that it calls. The events of the YAML parser are a list, and what
-- happens at its end, the end of the iteration or a YAML error, is an argument.
pub mod Ensures
pub mod Fits
pub mod Scalar
pub mod Limits
use vault_bridge.Base.{
  ℕ, zero, suc, ◌+◌, ◌*◌, Bool, true, false, not, ◌&&◌, ◌||◌, Option, none, some, List, [], ◌∷◌,
  if◌then◌else◌, length, leb, ltb,
}
use vault_bridge.Base.Codes.{Codes, same_codes, utf8_size, slice}
use vault_bridge.Frontmatter.{
  Value, Items, Fields, null, text, truth, integer, floating, sequence, mapping, no_items,
  no_fields, Reason, Diagnostic, Outcome, done, raised, out_of_fuel, ◌>>=◌, plain_reason, has_field,
  add_field, add_item, invalid_yaml, non_mapping_root, duplicate_key, multiple_documents,
  disallowed_yaml_feature, non_string_key, unsupported_value, scalar_too_large,
  mapping_key_too_large, container_too_deep, too_many_items, max_scalar_bytes,
  max_mapping_key_bytes, max_container_depth, max_items, FrontmatterResult, absent, valid, invalid,
}
use vault_bridge.Frontmatter.Scalars.{resolve_core_scalar}
use vault_bridge.Frontmatter.Envelope.{extract_envelope, no_envelope, refused, envelope, Extracted}

-- start_mark
pub record Mark : Type 0 where
  pub index : ℕ
  pub line : ℕ
  pub column : ℕ

-- ScalarEvent; `plain` is `style is None`, `implicit` is `implicit[0]`, and `named` says that there is
-- an anchor or a tag
pub record ScalarEvent : Type 0 where
  pub start_mark : Mark
  pub end_index : ℕ
  pub named : Bool
  pub plain : Bool
  pub implicit : Bool
  pub value : Codes

-- The parser's events; `explicit` says that the document has a version or tags, and `named` that the
-- collection has an anchor or a tag.
pub data Event : Type 0 where
  stream_start stream_end document_end mapping_end sequence_end : Event
  document_start : (explicit : Bool) → Event
  alias : Mark → Event
  scalar : ScalarEvent → Event
  mapping_start sequence_start : (named : Bool) → Mark → Event

-- the start mark of a node event; `none` for the other events
abbrev pub mark_of : Event → Option Mark
mark_of (alias m) = some m
mark_of (scalar e) = some e.start_mark
mark_of (mapping_start _ m) = some m
mark_of (sequence_start _ m) = some m
mark_of _ = none

-- _InvalidFrontmatter(reason, event)
abbrev pub invalid_at : Reason → Mark → Diagnostic
invalid_at r m = record { reason = r; line = some (m.line + 1); column = some (m.column + 1) }

-- How the iteration ends: by itself, or with a `yaml.YAMLError` and the place that it names, if any.
pub data Tail : Type 0 where
  stop : Tail
  yaml_error : Option (ℕ × ℕ) → Tail

-- the diagnostic of `_parse_payload` for the end of the iteration
abbrev pub end_of : Tail → Diagnostic
end_of stop = plain_reason invalid_yaml
end_of (yaml_error none) = plain_reason invalid_yaml
end_of (yaml_error (some (line, column))) = record {
  reason = invalid_yaml;
  line = some (line + 1);
  column = some (column + 1);
}

-- What the functions share: the payload, the parser's tail, and `float`.
pub record Source : Type 0 where
  pub payload : Codes
  pub tail : Tail
  pub float : Codes → Option ℕ

abbrev pub ensure : Bool → Diagnostic → Outcome (Unit {0})
ensure true d = done tt
ensure false d = raised d

-- count_item, with the new count
unfoldable pub count_item : ℕ → Mark → Outcome ℕ
count_item count m =
    if ltb max_items (count + 1) then raised (invalid_at too_many_items m) else done (count + 1)

-- _check_depth
abbrev pub check_depth : Mark → ℕ → Outcome (Unit {0})
check_depth m depth = ensure (leb depth max_container_depth) (invalid_at container_too_deep m)

abbrev pub is_merge : Codes → Bool
is_merge value = same_codes value (0x3c ∷ 0x3c ∷ [])

abbrev pub resolved : Option Value → Outcome Value
resolved none = raised (plain_reason unsupported_value)
resolved (some v) = done v

abbrev pub checked_key : ScalarEvent → Value → Outcome Value
checked_key e (text k) =
    ensure (leb (utf8_size k) max_mapping_key_bytes) (invalid_at mapping_key_too_large e.start_mark)
    >>= λ _. done (text k)
checked_key e _ = raised (invalid_at non_string_key e.start_mark)

abbrev pub checked_if : Bool → ScalarEvent → Value → Outcome Value
checked_if true e v = checked_key e v
checked_if false e v = done v

-- _build_scalar
unfoldable pub build_scalar : Source → Bool → ScalarEvent → Outcome Value
unfolding resolve_core_scalar
build_scalar s mapping_key e =
    let source = slice e.start_mark.index e.end_index s.payload in
    let is_plain = e.plain && e.implicit in
    ensure (leb (utf8_size source) max_scalar_bytes) (invalid_at scalar_too_large e.start_mark)
    >>= λ _.
        ensure (not (mapping_key && is_plain && is_merge e.value))
          (invalid_at disallowed_yaml_feature e.start_mark)
        >>= λ _. resolved (resolve_core_scalar s.float e.value is_plain) >>= λ v.
            checked_if mapping_key e v

-- `_reject_disallowed_event` and the tests of `_build_node`, for a node that has to be a key
unfoldable pub build_key : Source → Event → Outcome Codes
unfolding build_scalar
build_key s (alias m) = raised (invalid_at disallowed_yaml_feature m)
build_key s (scalar e) =
    ensure (not e.named) (invalid_at disallowed_yaml_feature e.start_mark) >>= λ _.
    build_scalar s true e >>= λ v. elim v [
      | text k ↦ done k
      | _ ↦ raised (invalid_at non_string_key e.start_mark)
    ]
build_key s (mapping_start named m) =
    ensure (not named) (invalid_at disallowed_yaml_feature m) >>= λ _.
    raised (invalid_at non_string_key m)
build_key s (sequence_start named m) =
    ensure (not named) (invalid_at disallowed_yaml_feature m) >>= λ _.
    raised (invalid_at non_string_key m)
build_key s _ = raised (plain_reason invalid_yaml)

abbrev pub node_mark : Event → Outcome Mark
node_mark e = elim (mark_of e) [ none ↦ raised (plain_reason invalid_yaml) | some m ↦ done m ]

-- An answer with the events that are left and the count of the items.
abbrev pub Built : Type 0 → Type 0
Built A = Outcome (A × List Event × ℕ)

-- _build_node for a value, _build_mapping and _build_sequence from a place in their loops. Each call
-- takes one unit of fuel.
unfoldable mutual
  unfolding build_key count_item

  pub build_node : ℕ → Source → ℕ → Event → List Event → ℕ → Built Value
  build_node zero s depth event events count = out_of_fuel
  build_node (suc fuel) s depth (alias m) events count =
      raised (invalid_at disallowed_yaml_feature m)
  build_node (suc fuel) s depth (scalar e) events count =
      ensure (not e.named) (invalid_at disallowed_yaml_feature e.start_mark) >>= λ _.
      build_scalar s false e >>= λ v. done (v, events, count)
  build_node (suc fuel) s depth (mapping_start named m) events count =
      ensure (not named) (invalid_at disallowed_yaml_feature m) >>= λ _.
      check_depth m depth >>= λ _.
      build_mapping fuel s depth no_fields events count >>= λ (fields, rest, n).
      done (mapping fields, rest, n)
  build_node (suc fuel) s depth (sequence_start named m) events count =
      ensure (not named) (invalid_at disallowed_yaml_feature m) >>= λ _.
      check_depth m depth >>= λ _.
      build_sequence fuel s depth no_items events count >>= λ (items, rest, n).
      done (sequence items, rest, n)
  build_node (suc fuel) s depth _ events count = raised (plain_reason invalid_yaml)

  pub build_mapping : ℕ → Source → ℕ → Fields → List Event → ℕ → Built Fields
  build_mapping zero s depth result events count = out_of_fuel
  build_mapping (suc fuel) s depth result [] count = raised (end_of s.tail)
  build_mapping (suc fuel) s depth result (mapping_end ∷ events) count =
      done (result, events, count)
  build_mapping (suc fuel) s depth result (event ∷ []) count = node_mark event >>= λ m.
      count_item count m >>= λ n. build_key s event >>= λ key.
      ensure (not (has_field key result)) (invalid_at duplicate_key m) >>= λ _.
      raised (end_of s.tail)
  build_mapping (suc fuel) s depth result (event ∷ value_event ∷ events) count =
      node_mark event >>= λ m. count_item count m >>= λ n. build_key s event >>= λ key.
      ensure (not (has_field key result)) (invalid_at duplicate_key m) >>= λ _.
      build_node fuel s (depth + 1) value_event events n >>= λ (v, rest, k).
      build_mapping fuel s depth (add_field result key v) rest k

  pub build_sequence : ℕ → Source → ℕ → Items → List Event → ℕ → Built Items
  build_sequence zero s depth result events count = out_of_fuel
  build_sequence (suc fuel) s depth result [] count = raised (end_of s.tail)
  build_sequence (suc fuel) s depth result (sequence_end ∷ events) count =
      done (result, events, count)
  build_sequence (suc fuel) s depth result (event ∷ events) count = node_mark event >>= λ m.
      count_item count m >>= λ n. build_node fuel s (depth + 1) event events n >>= λ (v, rest, k).
      build_sequence fuel s depth (add_item result v) rest k

-- the part of `_parse_payload` after the root has been built
abbrev pub parse_tail : Source → Fields → List Event → Outcome Fields
parse_tail s metadata (document_end ∷ stream_end ∷ _) = done metadata
parse_tail s metadata (document_end ∷ document_start _ ∷ _) =
    raised (plain_reason multiple_documents)
parse_tail s metadata (document_end ∷ []) = raised (end_of s.tail)
parse_tail s metadata [] = raised (end_of s.tail)
parse_tail s metadata _ = raised (plain_reason invalid_yaml)

-- Twice the number of events is fuel enough.
abbrev pub fuel_for : List Event → ℕ
fuel_for events = 2 * length events + 1

-- the root node of `_parse_payload`; the parser puts a node there, so that the place of another event
-- is left out
unfoldable pub parse_root : Source → List Event → Outcome Fields
unfolding build_mapping
parse_root s [] = raised (end_of s.tail)
parse_root s (mapping_start named m ∷ events) =
    ensure (not named) (invalid_at disallowed_yaml_feature m) >>= λ _. check_depth m 1 >>= λ _.
    build_mapping (fuel_for events) s 1 no_fields events 0 >>= λ (metadata, rest, n).
    parse_tail s metadata rest
parse_root s (alias m ∷ events) = raised (invalid_at disallowed_yaml_feature m)
parse_root s (scalar e ∷ events) =
    ensure (not e.named) (invalid_at disallowed_yaml_feature e.start_mark) >>= λ _.
    raised (invalid_at non_mapping_root e.start_mark)
parse_root s (sequence_start named m ∷ events) =
    ensure (not named) (invalid_at disallowed_yaml_feature m) >>= λ _.
    raised (invalid_at non_mapping_root m)
parse_root s _ = raised (plain_reason non_mapping_root)

-- _parse_payload
unfoldable pub parse_payload : Source → List Event → Outcome Fields
unfolding parse_root
parse_payload s (stream_start ∷ stream_end ∷ _) = done no_fields
parse_payload s (stream_start ∷ document_start explicit ∷ events) =
    ensure (not explicit) (plain_reason disallowed_yaml_feature) >>= λ _. parse_root s events
parse_payload s (stream_start ∷ []) = raised (end_of s.tail)
parse_payload s [] = raised (end_of s.tail)
parse_payload s _ = raised (plain_reason invalid_yaml)

-- `FrontmatterResult` of what `_parse_payload` does; running out of fuel has no result
abbrev pub result_of : ℕ → Outcome Fields → Option FrontmatterResult
result_of offset (done metadata) = some (valid metadata offset)
result_of offset (raised d) = some (invalid d)
result_of offset out_of_fuel = none

-- the part of `parse` after the envelope has been extracted
unfoldable pub result_for :
    (Codes → List Event × Tail) → (Codes → Option ℕ) → Extracted → Option FrontmatterResult
unfolding parse_payload
result_for yaml float no_envelope = some absent
result_for yaml float (refused reason) = some (invalid (plain_reason reason))
result_for yaml float (envelope payload offset) =
    let (events, tail) = yaml payload in
    result_of offset
      (parse_payload (record { payload = payload; tail = tail; float = float }) events)

-- FrontmatterParser.parse; `yaml` stands for `yaml.parse` with `BaseLoader`
unfoldable pub parse :
    (Codes → List Event × Tail) → (Codes → Option ℕ) → Codes → Option FrontmatterResult
unfolding extract_envelope result_for
parse yaml float markdown = result_for yaml float (extract_envelope markdown)
