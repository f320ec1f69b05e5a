-- ===== src/Frontmatter/Serialize/Reread.antt =====
-- The parser finds again what `serialize_frontmatter` writes (app/services/frontmatter.py).
use vault_bridge.Base.{
  ℕ, ◌+◌, ◌*◌, ◌≤◌, ◌≡◌, ◌≢◌, refl, sym, ap, ◌∙◌, Bool, true, not, ◌&&◌, Option, none, some, List,
  [], ◌∷◌, ◌++◌, ◌==◌, any, every, leb, length, length-append, All, All-append, arith, Bool-cases,
  Option-cases, inl, inr,
}
use mathlib.Core.List.{append_assoc}
use vault_bridge.Base.Codes.{Codes, codes, same_codes, utf8_size}
use vault_bridge.Frontmatter.{
  Fields, Outcome, done, plain_reason, FrontmatterResult, absent, valid, invalid, duplicate_key,
  unsupported_value, scalar_too_large, mapping_key_too_large, container_too_deep, too_many_items,
  max_scalar_bytes, max_mapping_key_bytes, max_container_depth, max_items, max_frontmatter_bytes,
}
use vault_bridge.Frontmatter.Envelope.Wrapped.{wrapped, IsInline, extract_envelope-wrapped}
use vault_bridge.Frontmatter.Build.{Event, Tail, parse, result_for}
use vault_bridge.Frontmatter.Build.Ensures.{Ensures, holds, rejected, Ensures-bind, ensure-holds}
use vault_bridge.Frontmatter.Build.Limits.{WithinLimits, IsResult, parse-IsResult}
use vault_bridge.Frontmatter.Serialize.{
  Object, Objects, Members, string_of, int_of, list_of, mapping_of, no_objects, object, no_members,
  member, Printers, replace_code, escape_breaks, backslash_u, encodes, is_unsupported, bits_of,
  source_of, checked_source, scalar, join_parts, braces, brackets, enter, check_key, emit,
  emit_members, emit_objects, Serialized, serialized, serialization_error, assertion_failed,
  unfinished, checked_parse, envelope_of, checked_envelope, serialize_frontmatter, count_members,
  count_objects,
}

-- no line break
abbrev pub IsOneLine : Codes → Type 0
IsOneLine l = All (λ c. (c ≢ 10) × (c ≢ 13)) l

abbrev pub is_one_line : Codes → Bool
is_one_line l = every (λ c. not (c == 10) && not (c == 13)) l

pub IsOneLine-of : (l : Codes) → is_one_line l ≡ true → IsOneLine l
IsOneLine-of [] h = tt
IsOneLine-of (c ∷ l) h = ((λ e. ground arith, λ e. ground arith), IsOneLine-of l (ground arith))

pub IsOneLine-append : (l m : Codes) → IsOneLine l → IsOneLine m → IsOneLine (l ++ m)
IsOneLine-append l m h k = All-append (λ c. (c ≢ 10) × (c ≢ 13)) l m h k

replace_code-IsOneLine :
    (character : ℕ) (by l : Codes)
    → IsOneLine by
    → IsOneLine l
    → IsOneLine (replace_code character by l)
unfolding replace_code
replace_code-IsOneLine character by [] h k = tt
replace_code-IsOneLine character by (c ∷ l) h k =
    let rest = replace_code-IsOneLine character by l h k.1 in
    elim (Bool-cases (c == character)) [
      | inl same ↦ rw same (IsOneLine-append by (replace_code character by l) h rest)
      | inr differs ↦ rw differs (k.0, rest)
    ]

escape_code-IsOneLine :
    (character : ℕ) (digits l : Codes)
    → is_one_line digits ≡ true
    → IsOneLine l
    → IsOneLine (replace_code character (backslash_u digits) l)
escape_code-IsOneLine character digits l d h =
    replace_code-IsOneLine character (backslash_u digits) l (IsOneLine-of (backslash_u digits) d) h

escape_breaks-IsOneLine : (l : Codes) → IsOneLine l → IsOneLine (escape_breaks l)
unfolding escape_breaks codes
escape_breaks-IsOneLine l h =
    let first = replace_code 0x85 (backslash_u (codes "0085")) l in
    let second = replace_code 0x2028 (backslash_u (codes "2028")) first in
    escape_code-IsOneLine 0x2029 (codes "2029") second refl (
      escape_code-IsOneLine 0x2028 (codes "2028") first refl
        (escape_code-IsOneLine 0x85 (codes "0085") l refl h))

join_parts-IsOneLine : (parts : List Codes) → All IsOneLine parts → IsOneLine (join_parts parts)
unfolding join_parts
join_parts-IsOneLine [] h = tt
join_parts-IsOneLine (c ∷ []) h = h.0
join_parts-IsOneLine (c ∷ d ∷ parts) h = IsOneLine-append c _ h.0 (
    IsOneLine-append (0x2c ∷ 0x20 ∷ []) _ (IsOneLine-of (0x2c ∷ 0x20 ∷ []) refl)
      (join_parts-IsOneLine (d ∷ parts) h.1))

-- The text begins with a bracket or a brace and is in one line.
braces-IsOneLine : (parts : List Codes) → All IsOneLine parts → IsOneLine (braces parts)
unfolding braces
braces-IsOneLine parts h = (
  (λ e. ground arith, λ e. ground arith),
  IsOneLine-append (join_parts parts) (0x7d ∷ []) (join_parts-IsOneLine parts h)
      (IsOneLine-of (0x7d ∷ []) refl),
)

brackets-IsOneLine : (parts : List Codes) → All IsOneLine parts → IsOneLine (brackets parts)
unfolding brackets
brackets-IsOneLine parts h = (
  (λ e. ground arith, λ e. ground arith),
  IsOneLine-append (join_parts parts) (0x5d ∷ []) (join_parts-IsOneLine parts h)
      (IsOneLine-of (0x5d ∷ []) refl),
)

enter-holds : (depth size items : ℕ) → Ensures (λ n. n ≡ items + size) (enter depth size items)
unfolding enter
enter-holds depth size items =
    Ensures-bind (ensure-holds (leb depth max_container_depth) (plain_reason container_too_deep))
      (λ _ _.
        Ensures-bind (ensure-holds (leb (items + size) max_items) (plain_reason too_many_items))
          (λ _ _. holds refl))

module _ (p : Printers)
    (dumps_one_line : (v : Object) (c : Codes) → p.dumps v ≡ some c → IsOneLine c)
    (hex_one_line : (negative : Bool) (n : ℕ) → IsOneLine (p.hex negative n)) where
  -- a source, if there is one, is in one line
  abbrev SourceInLine : Option Codes → Type 0
  SourceInLine none = Unit
  SourceInLine (some c) = IsOneLine c

  dumps-SourceInLine : (v : Object) → SourceInLine (p.dumps v)
  dumps-SourceInLine v = elim (Option-cases (p.dumps v)) [
    | inl no_source ↦ rw no_source tt
    | inr (c, e) ↦ rw e (dumps_one_line v c e)
  ]

  source_of-SourceInLine : (v : Object) → SourceInLine (source_of p v)
  source_of-SourceInLine (int_of negative n) = elim (Bool-cases (leb (p.bit_length n) 12000)) [
    | inl small ↦ rw small (dumps-SourceInLine (int_of negative n))
    | inr large ↦ rw large (hex_one_line negative n)
  ]
  source_of-SourceInLine v = dumps-SourceInLine v

  checked_source-IsOneLine :
      (o : Option Codes) → SourceInLine o → Ensures IsOneLine (checked_source o)
  unfolding checked_source
  checked_source-IsOneLine none h = rejected
  checked_source-IsOneLine (some s) h =
      Ensures-bind (ensure-holds (encodes (escape_breaks s)) (plain_reason unsupported_value))
        (λ _ _.
          Ensures-bind
            (ensure-holds (leb (utf8_size (escape_breaks s)) max_scalar_bytes)
              (plain_reason scalar_too_large))
            (λ _ _. holds (escape_breaks-IsOneLine s h)))

  scalar-IsOneLine : (v : Object) → Ensures IsOneLine (scalar p v)
  unfolding scalar
  scalar-IsOneLine v =
      Ensures-bind (ensure-holds (not (is_unsupported v)) (plain_reason unsupported_value)) (λ _ _.
        Ensures-bind
          (ensure-holds (leb (bits_of p v) (max_scalar_bytes * 4)) (plain_reason scalar_too_large))
          (λ _ _. checked_source-IsOneLine (source_of p v) (source_of-SourceInLine v)))

  check_key-holds : (seen : List Codes) (k : Object) → Ensures (λ key. Unit {0}) (check_key seen k)
  unfolding check_key
  check_key-holds seen (string_of key) =
      Ensures-bind (ensure-holds (encodes key) (plain_reason unsupported_value)) (λ _ _.
        Ensures-bind
          (ensure-holds (leb (utf8_size key) max_mapping_key_bytes)
            (plain_reason mapping_key_too_large))
          (λ _ _.
            Ensures-bind
              (ensure-holds (not (any (same_codes key) seen)) (plain_reason duplicate_key))
              (λ _ _. holds tt)))
  check_key-holds seen _ = rejected

  mutual
    unfolding emit

    emit-IsOneLine :
        (depth : ℕ) (v : Object) (items : ℕ) → Ensures (λ a. IsOneLine a.0) (emit p depth v items)
    emit-IsOneLine depth (mapping_of ms) items =
        Ensures-bind (enter-holds depth (count_members ms) items) (λ n _.
          Ensures-bind (emit_members-IsOneLine depth [] ms n)
            (λ (parts, k) h. holds (braces-IsOneLine parts h)))
    emit-IsOneLine depth (list_of xs) items =
        Ensures-bind (enter-holds depth (count_objects xs) items) (λ n _.
          Ensures-bind (emit_objects-IsOneLine depth xs n)
            (λ (parts, k) h. holds (brackets-IsOneLine parts h)))
    emit-IsOneLine depth v items =
        Ensures-bind {f = λ source. done (source, items)} (scalar-IsOneLine v) (λ source h. holds h)

    pub emit_members-IsOneLine :
        (depth : ℕ) (seen : List Codes) (ms : Members) (items : ℕ)
        → Ensures (λ a. All IsOneLine a.0) (emit_members p depth seen ms items)
    emit_members-IsOneLine depth seen no_members items = holds tt
    emit_members-IsOneLine depth seen (member k v ms) items =
        Ensures-bind (check_key-holds seen k) (λ key _.
          Ensures-bind (scalar-IsOneLine (string_of key)) (λ source s.
            Ensures-bind (emit-IsOneLine (depth + 1) v items) (λ (part, n) t.
              Ensures-bind (emit_members-IsOneLine depth (key ∷ seen) ms n) (λ (parts, j) h. holds (
                IsOneLine-append source _ s (
                    IsOneLine-append (0x3a ∷ 0x20 ∷ []) part (IsOneLine-of (0x3a ∷ 0x20 ∷ []) refl)
                      t),
                h,
              )))))

    emit_objects-IsOneLine :
        (depth : ℕ) (xs : Objects) (items : ℕ)
        → Ensures (λ a. All IsOneLine a.0) (emit_objects p depth xs items)
    emit_objects-IsOneLine depth no_objects items = holds tt
    emit_objects-IsOneLine depth (object v xs) items =
        Ensures-bind (emit-IsOneLine (depth + 1) v items) (λ (part, n) t.
          Ensures-bind (emit_objects-IsOneLine depth xs n) (λ (parts, j) h. holds (t, h)))

utf8_size-append : (l m : Codes) → utf8_size (l ++ m) ≡ utf8_size l + utf8_size m
utf8_size-append [] m = omega arith
utf8_size-append (c ∷ l) m = omega (arith, utf8_size-append l m)

-- The size that the serializer checks is the size of its text with the nine bytes around it.
envelope_of-size : (text : Codes) → utf8_size (envelope_of text) ≡ utf8_size text + 9
envelope_of-size text = omega (arith, utf8_size-append text (10 ∷ 0x2d ∷ 0x2d ∷ 0x2d ∷ 10 ∷ []))

parse-wrapped :
    (yaml : Codes → List Event × Tail) (float : Codes → Option ℕ) (text body : Codes)
    → IsInline text
    → utf8_size (envelope_of text) ≤ max_frontmatter_bytes
    → parse yaml float (wrapped text body) ≡ parse yaml float (envelope_of text)
unfolding parse
parse-wrapped yaml float text body h k =
    let small : utf8_size text + 9 ≤ max_frontmatter_bytes = omega (arith, envelope_of-size text) in
    ap (λ e. result_for yaml float e)
      (extract_envelope-wrapped text body h small ∙ sym (extract_envelope-wrapped text [] h small))

-- A text in braces closes no envelope.
braces-IsInline : (parts : List Codes) → All IsOneLine parts → IsInline (braces parts)
unfolding braces
braces-IsInline parts h = (braces-IsOneLine parts h, refl, refl)

-- What the function may do: write an envelope in the limit, which the parser reads as valid fields
-- within the limits, with the body at the end of the envelope, whatever the body is; or raise its error.
abbrev pub IsReread : (Codes → List Event × Tail) → (Codes → Option ℕ) → Serialized → Type 0
IsReread yaml float (serialized c) =
    (utf8_size c ≤ max_frontmatter_bytes)
    × (fields : Fields) × WithinLimits fields
    × ((body : Codes) → parse yaml float (c ++ body) ≡ some (valid fields (length c)))
IsReread yaml float (serialization_error reason) = Unit
IsReread yaml float assertion_failed = ⊥
IsReread yaml float unfinished = ⊥

length-envelope_of : (text : Codes) → length (envelope_of text) ≡ length text + 9
length-envelope_of text = omega (arith, length-append text (10 ∷ 0x2d ∷ 0x2d ∷ 0x2d ∷ 10 ∷ []))

envelope_of-append : (text body : Codes) → envelope_of text ++ body ≡ wrapped text body
envelope_of-append text body =
    ap (λ l. 0x2d ∷ 0x2d ∷ 0x2d ∷ 10 ∷ l)
      (append_assoc text (10 ∷ 0x2d ∷ 0x2d ∷ 0x2d ∷ 10 ∷ []) body)

checked_parse-IsReread :
    (yaml : Codes → List Event × Tail) (float : Codes → Option ℕ) (text : Codes)
    → IsInline text
    → utf8_size (envelope_of text) ≤ max_frontmatter_bytes
    → (o : Option FrontmatterResult) → parse yaml float (envelope_of text) ≡ o
    → IsResult (envelope_of text) o
    → IsReread yaml float (checked_parse (envelope_of text) o)
checked_parse-IsReread yaml float text h k none same r = absurd r
checked_parse-IsReread yaml float text h k (some absent) same r =
    absurd (cc (r, extract_envelope-wrapped text [] h (omega (arith, envelope_of-size text))))
checked_parse-IsReread yaml float text h k (some (valid fields offset)) same (w, payload, e) =
    let small : utf8_size text + 9 ≤ max_frontmatter_bytes = omega (arith, envelope_of-size text) in
    let at_end : offset ≡ length (envelope_of text) =
      cc (e, extract_envelope-wrapped text [] h small, length-envelope_of text) in
    (
      k,
      fields,
      w,
      λ body.
          ap (λ l. parse yaml float l) (envelope_of-append text body)
          ∙ parse-wrapped yaml float text body h k
          ∙ same
          ∙ ap (λ n. some (valid fields n)) at_end,
    )
checked_parse-IsReread yaml float text h k (some (invalid d)) same r = tt

-- If the printers write no line breaks, then for any object, YAML parser and reading of floats the
-- serializer ends without a failed `assert`: it raises its error, or it writes an envelope of at most
-- 65536 bytes, and whatever body follows the envelope, `parse` reads fields within the limits, the same
-- for each body, and puts the body at the end of the envelope.
pub serialize_frontmatter-IsReread :
    (p : Printers) (yaml : Codes → List Event × Tail) (float : Codes → Option ℕ) (metadata : Object)
    → ((v : Object) (c : Codes) → p.dumps v ≡ some c → IsOneLine c)
    → ((negative : Bool) (n : ℕ) → IsOneLine (p.hex negative n))
    → IsReread yaml float (serialize_frontmatter p yaml float metadata)
unfolding serialize_frontmatter emit checked_envelope
serialize_frontmatter-IsReread p yaml float (mapping_of ms) dumps_one_line hex_one_line = ended (
    Ensures-bind (enter-holds 1 (count_members ms) 0) (λ n _.
      Ensures-bind (emit_members-IsOneLine p dumps_one_line hex_one_line 1 [] ms n)
        (λ (parts, k) h. holds (braces-IsInline parts h))))
  where
    ended :
        {r : Outcome (Codes × ℕ)}
        → Ensures (λ a. IsInline a.0) r
        → IsReread yaml float (checked_envelope yaml float r)
    ended rejected = tt
    ended (holds {a = (text, items)} h) =
        elim (Bool-cases (leb (utf8_size (envelope_of text)) max_frontmatter_bytes)) [
          | inr large ↦ rw large tt
          | inl small ↦ rw small (
              checked_parse-IsReread yaml float text h (ground arith)
                (parse yaml float (envelope_of text)) refl
                (parse-IsResult yaml float (envelope_of text)))
        ]
serialize_frontmatter-IsReread p yaml float _ dumps_one_line hex_one_line = tt
