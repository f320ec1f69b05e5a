-- ===== src/Frontmatter/Build/Limits.antt =====
-- What the builder makes of any events (app/services/frontmatter.py) keeps the limits of the profile,
-- and the fuel of `parse_payload` is enough.
use vault_bridge.Base.{
  ℕ, zero, suc, ◌+◌, ◌*◌, ◌≤◌, ◌≡◌, ◌≢◌, refl, not, Option, none, some, List, [], ◌∷◌, length, leb,
  arith,
}
use vault_bridge.Base.Codes.{Codes}
use vault_bridge.Frontmatter.{
  Items, Fields, sequence, mapping, no_items, no_fields, Outcome, has_field, add_field, add_item,
  max_container_depth, max_items, plain_reason, non_mapping_root, disallowed_yaml_feature,
  container_too_deep, duplicate_key,
}
use vault_bridge.Frontmatter.Build.{
  Event, Source, stream_start, stream_end, document_end, mapping_end, sequence_end, document_start,
  alias, scalar, mapping_start, sequence_start, build_node, build_mapping, build_sequence,
  parse_tail, fuel_for, parse_root, parse_payload, invalid_at, end_of,
}
use vault_bridge.Frontmatter.{FrontmatterResult, absent, valid, invalid}
use vault_bridge.Frontmatter.Envelope.{extract_envelope, no_envelope, refused, envelope, Extracted}
use vault_bridge.Frontmatter.Build.{result_of, result_for, parse, Tail}
use vault_bridge.Frontmatter.Build.Ensures.{
  Ensures, holds, rejected, Ensures-bind, Ensures-map, ensure-holds,
}
use vault_bridge.Frontmatter.Build.Fits.{
  total, total_items, total_fields, Fits, FitsItems, FitsFields, total-add_item, total-add_field,
  FitsItems-add, FitsFields-add, total_scalar, Fits-scalar,
}
use vault_bridge.Frontmatter.Build.Scalar.{
  build_value-scalar, build_key-size, node_mark-holds, count_item-holds,
}

-- What a build answers: no more events than before, a count that has grown by the items of the answer,
-- within its limit, and the property of the answer.
abbrev IsBuilt {ℓ} :
    {A : Type ℓ} → List Event → ℕ → (A → ℕ) → (A → Type 0) → A × List Event × ℕ → Type 0
IsBuilt events count size P (a, rest, n) =
    (length rest ≤ length events) × (n ≡ count + size a) × (n ≤ max_items) × P a

mutual
  unfolding build_node total Fits

  build_node-IsBuilt :
      (fuel : ℕ) (s : Source) (depth : ℕ) (event : Event) (events : List Event) (count : ℕ)
      → 2 * length events + 2 ≤ fuel
      → count ≤ max_items
      → Ensures
          (IsBuilt events count total (Fits depth))
          (build_node fuel s depth event events count)
  build_node-IsBuilt zero s depth event events count f c = absurd (omega arith)
  build_node-IsBuilt (suc fuel) s depth (alias m) events count f c = rejected
  build_node-IsBuilt (suc fuel) s depth (scalar e) events count f c =
      Ensures-bind (ensure-holds (not e.named) (invalid_at disallowed_yaml_feature e.start_mark))
        (λ _ _.
          Ensures-bind (build_value-scalar s e)
            (λ v h. holds (omega arith, omega (arith, total_scalar v h), c, Fits-scalar depth v h)))
  build_node-IsBuilt (suc fuel) s depth (mapping_start named m) events count f c =
      Ensures-bind (ensure-holds (not named) (invalid_at disallowed_yaml_feature m)) (λ _ _.
        Ensures-bind
          (ensure-holds (leb depth max_container_depth) (invalid_at container_too_deep m))
          (λ _ h.
            Ensures-bind
              (build_mapping-IsBuilt fuel s depth no_fields events count count (omega arith) c
                (omega arith) tt)
              (λ (fs, rest, n) q.
                holds {a = (mapping fs, rest, n)} (q.0, q.1, q.2, (ground arith, q.3)))))
  build_node-IsBuilt (suc fuel) s depth (sequence_start named m) events count f c =
      Ensures-bind (ensure-holds (not named) (invalid_at disallowed_yaml_feature m)) (λ _ _.
        Ensures-bind
          (ensure-holds (leb depth max_container_depth) (invalid_at container_too_deep m))
          (λ _ h.
            Ensures-bind
              (build_sequence-IsBuilt fuel s depth no_items events count count (omega arith) c
                (omega arith) tt)
              (λ (xs, rest, n) q.
                holds {a = (sequence xs, rest, n)} (q.0, q.1, q.2, (ground arith, q.3)))))
  build_node-IsBuilt (suc fuel) s depth _ events count f c = rejected

  build_mapping-IsBuilt :
      (fuel : ℕ) (s : Source) (depth : ℕ) (result : Fields) (events : List Event) (start count : ℕ)
      → 2 * length events + 1 ≤ fuel
      → count ≤ max_items
      → count ≡ start + total_fields result
      → FitsFields (depth + 1) result
      → Ensures
          (IsBuilt events start total_fields (FitsFields (depth + 1)))
          (build_mapping fuel s depth result events count)
  build_mapping-IsBuilt zero s depth result events start count f c q r = absurd (omega arith)
  build_mapping-IsBuilt (suc fuel) s depth result [] start count f c q r = rejected
  build_mapping-IsBuilt (suc fuel) s depth result (mapping_end ∷ events) start count f c q r =
      holds (omega arith, q, c, r)
  build_mapping-IsBuilt (suc fuel) s depth result (event ∷ []) start count f c q r =
      Ensures-bind (node_mark-holds event) (λ m _. Ensures-bind (count_item-holds count m) (λ n _.
        Ensures-bind (build_key-size s event) (λ key _.
          Ensures-bind (ensure-holds (not (has_field key result)) (invalid_at duplicate_key m))
            (λ _ _. rejected {d = end_of s.tail}))))
  build_mapping-IsBuilt (suc fuel) s depth result (event ∷ value_event ∷ events) start count f c q
        r =
      Ensures-bind (node_mark-holds event) (λ m _.
        Ensures-bind (count_item-holds count m) (λ n (grown, few).
          Ensures-bind (build_key-size s event) (λ key short.
            Ensures-bind (ensure-holds (not (has_field key result)) (invalid_at duplicate_key m))
              (λ _ new.
                Ensures-bind
                  (build_node-IsBuilt fuel s (depth + 1) value_event events n (omega arith) few)
                  (λ (v, rest, k) b.
                    Ensures-map (λ (fs, more, j) a. (omega (arith, a.0, b.0), a.1, a.2, a.3))
                      (build_mapping-IsBuilt fuel s depth (add_field result key v) rest start k
                        (omega (arith, b.0)) b.2
                        (omega (arith, b.1, grown, q, total-add_field result key v))
                        (FitsFields-add (depth + 1) result key v r (ground arith) short b.3)))))))

  build_sequence-IsBuilt :
      (fuel : ℕ) (s : Source) (depth : ℕ) (result : Items) (events : List Event) (start count : ℕ)
      → 2 * length events + 1 ≤ fuel
      → count ≤ max_items
      → count ≡ start + total_items result
      → FitsItems (depth + 1) result
      → Ensures
          (IsBuilt events start total_items (FitsItems (depth + 1)))
          (build_sequence fuel s depth result events count)
  build_sequence-IsBuilt zero s depth result events start count f c q r = absurd (omega arith)
  build_sequence-IsBuilt (suc fuel) s depth result [] start count f c q r = rejected
  build_sequence-IsBuilt (suc fuel) s depth result (sequence_end ∷ events) start count f c q r =
      holds (omega arith, q, c, r)
  build_sequence-IsBuilt (suc fuel) s depth result (event ∷ events) start count f c q r =
      Ensures-bind (node_mark-holds event) (λ m _.
        Ensures-bind (count_item-holds count m) (λ n (grown, few).
          Ensures-bind (build_node-IsBuilt fuel s (depth + 1) event events n (omega arith) few)
            (λ (v, rest, k) b.
              Ensures-map (λ (xs, more, j) a. (omega (arith, a.0, b.0), a.1, a.2, a.3))
                (build_sequence-IsBuilt fuel s depth (add_item result v) rest start k
                  (omega (arith, b.0)) b.2 (omega (arith, b.1, grown, q, total-add_item result v))
                  (FitsItems-add (depth + 1) result v r b.3)))))

-- The fields of a whole envelope: at most 1024 keys and members in all, and each container in its
-- depth, each key once and short.
abbrev pub WithinLimits : Fields → Type 0
WithinLimits fields = (total_fields fields ≤ max_items) × FitsFields 2 fields

parse_tail-keeps :
    (s : Source) (fs : Fields) (rest : List Event)
    → WithinLimits fs
    → Ensures WithinLimits (parse_tail s fs rest)
parse_tail-keeps s fs (document_end ∷ stream_end ∷ l) w = holds w
parse_tail-keeps s fs _ w = rejected

parse_root-WithinLimits :
    (s : Source) (events : List Event) → Ensures WithinLimits (parse_root s events)
unfolding parse_root FitsFields total_fields
parse_root-WithinLimits s (mapping_start named m ∷ events) =
    Ensures-bind (ensure-holds (not named) (invalid_at disallowed_yaml_feature m)) (λ _ _.
      Ensures-bind
        (build_mapping-IsBuilt (fuel_for events) s 1 no_fields events 0 0 (omega arith)
          (omega arith) (omega arith) tt)
        (λ (fs, rest, n) b. parse_tail-keeps s fs rest (omega (arith, b.1, b.2), b.3)))
parse_root-WithinLimits s (scalar e ∷ events) =
    Ensures-bind (ensure-holds (not e.named) (invalid_at disallowed_yaml_feature e.start_mark))
      (λ _ _. rejected {d = invalid_at non_mapping_root e.start_mark})
parse_root-WithinLimits s (sequence_start named m ∷ events) =
    Ensures-bind (ensure-holds (not named) (invalid_at disallowed_yaml_feature m))
      (λ _ _. rejected {d = invalid_at non_mapping_root m})
parse_root-WithinLimits s _ = rejected

-- Whatever events the YAML parser gives, and however they end, `parse_payload` has fuel enough, and
-- the fields that it answers are within the limits of the profile.
pub parse_payload-WithinLimits :
    (s : Source) (events : List Event) → Ensures WithinLimits (parse_payload s events)
unfolding parse_payload FitsFields total_fields
parse_payload-WithinLimits s (stream_start ∷ stream_end ∷ _) = holds (omega arith, tt)
parse_payload-WithinLimits s (stream_start ∷ document_start explicit ∷ events) =
    Ensures-bind (ensure-holds (not explicit) (plain_reason disallowed_yaml_feature))
      (λ _ _. parse_root-WithinLimits s events)
parse_payload-WithinLimits s _ = rejected

-- What `parse` may answer: nothing read where there is no envelope, or fields within the limits and
-- the place that the envelope gives for the body, or a diagnostic of an envelope.
abbrev pub IsResult : Codes → Option FrontmatterResult → Type 0
IsResult markdown none = ⊥
IsResult markdown (some absent) = extract_envelope markdown ≡ no_envelope
IsResult markdown (some (valid fields offset)) =
    WithinLimits fields × (payload : Codes) × (extract_envelope markdown ≡ envelope payload offset)
IsResult markdown (some (invalid d)) = extract_envelope markdown ≢ no_envelope

result_of-IsResult :
    (markdown payload : Codes) (offset : ℕ) {r : Outcome Fields}
    → extract_envelope markdown ≡ envelope payload offset
    → Ensures WithinLimits r
    → IsResult markdown (result_of offset r)
result_of-IsResult markdown payload offset e (holds w) = (w, payload, e)
result_of-IsResult markdown payload offset e rejected = (cc)

pub parse-IsResult :
    (yaml : Codes → List Event × Tail) (float : Codes → Option ℕ) (markdown : Codes)
    → IsResult markdown (parse yaml float markdown)
unfolding parse result_for
parse-IsResult yaml float markdown = at (extract_envelope markdown) refl
  where
    at :
        (e : Extracted)
        → extract_envelope markdown ≡ e
        → IsResult markdown (result_for yaml float e)
    at no_envelope same = same
    at (refused reason) same = (cc)
    at (envelope payload offset) same = result_of-IsResult markdown payload offset same (
        parse_payload-WithinLimits
          (record { payload = payload; tail = (yaml payload).1; float = float }) (yaml payload).0)
