-- ===== src/Audit/Digest/Binding.antt =====
-- What the text of internal/audit/record.go's `Preimage` determines of a record.
use Prim.Native.Char.{code}
use Prim.Native.String as Str
use text.Mathlib.TextEquality.{Char-path}
use nodary.Prelude.{
  ℕ, String, ◌≡◌, ◌≤◌, refl, sym, ap, ◌∙◌, true, false, Option, none, some, [], str_eq, eq_iff, pos,
  inl, inr, Bool-cases, arith,
}
use nodary.Audit.Record.{Record, Target, codes, preimage, truncate_ms}
use nodary.Canonical.Text.{Text}
use nodary.Canonical.Number.{text_eq, max_exact, write_int}
use nodary.Canonical.Number.Digits.{format_int-digits}
use nodary.Canonical.Number.Spelled.{write_int-injective}
use nodary.Canonical.Order.{less_utf16, less_units, utf16, units_of}
use nodary.Canonical.Encode.{
  Value, Fields, null, str, int, literal, obj, end, field, Numerals, encode_value,
}
use nodary.Canonical.Encode.Normal.{
  HaveDigits, IsValue, AreFields, AreItems, normal, number, sort_fields, insert_field,
}
use nodary.Canonical.Encode.RoundTrip.{encode_value-injective}
use nodary.Canonical.Encode.Plain.{encode_value-normal}
use nodary.Audit.Digest.{nullable, target_value, preimage_value, preimage_text}

pub codes-injective : (s t : String) → codes s ≡ codes t → s ≡ t
codes-injective Str.[] Str.[] e = refl
codes-injective Str.[] (Str.◌∷◌ d t) e = absurd (cc e)
codes-injective (Str.◌∷◌ c s) Str.[] e = absurd (cc e)
codes-injective (Str.◌∷◌ c s) (Str.◌∷◌ d t) e =
    let same : code c ≡ code d = cc e in
    let rest : codes s ≡ codes t = cc e in cc (Char-path c d same, codes-injective s t rest)

str-injective : (s t : String) → str (codes s) ≡ str (codes t) → s ≡ t
str-injective s t e = let q : codes s ≡ codes t = cc e in codes-injective s t q

nullable-injective :
    (m : Numerals) (s t : String) → normal m (nullable s) ≡ normal m (nullable t) → s ≡ t
unfolding normal
nullable-injective m s t e = elim (Bool-cases (str_eq s "")) [
  | inl x ↦ elim (Bool-cases (str_eq t "")) [
    | inl y ↦ cc ((eq_iff s "").0 x, (eq_iff t "").0 y)
    | inr y ↦ absurd (cc (rw (x, y) at e))
  ]
  | inr x ↦ elim (Bool-cases (str_eq t "")) [
    | inl y ↦ absurd (cc (rw (x, y) at e))
    | inr y ↦ str-injective s t (rw (x, y) at e)
  ]
]

-- The member of an object under a key.
get : Text → Fields → Value
get k end = null
get k (field l v fs) = elim (text_eq k l) [ true ↦ v | false ↦ (get k fs) ]

at : Text → Value → Value
unfolding get
at k (obj fs) = get k fs
at k _ = null

text_of : Value → Text
text_of (str t) = t
text_of _ = []

target_value-injective :
    (m : Numerals) (s t : Option Target)
    → normal m (target_value s) ≡ normal m (target_value t)
    → s ≡ t
unfolding normal sort_fields insert_field less_utf16 less_units utf16 units_of at get text_eq
target_value-injective m none none e = refl
target_value-injective m none (some t) e = absurd (cc e)
target_value-injective m (some s) none e = absurd (cc e)
target_value-injective m (some s) (some t) e =
    let kind = nullable-injective m s.kind t.kind (ap (at (codes "kind")) e) in
    let name = nullable-injective m s.id t.id (ap (at (codes "id")) e) in cc (kind, name)

seq-injective :
    (m : Numerals) (a b : ℕ)
    → a ≤ max_exact
    → b ≤ max_exact
    → normal m (int (pos a)) ≡ normal m (int (pos b))
    → a ≡ b
unfolding normal
seq-injective m a b h k e =
    let p = format_int-digits m.nearest (pos a) (omega (arith, h)) in
    let q = format_int-digits m.nearest (pos b) (omega (arith, k)) in
    let r : literal (write_int (pos a)) ≡ literal (write_int (pos b)) =
      ap number (sym p) ∙ e ∙ ap number q in
    let s : write_int (pos a) ≡ write_int (pos b) = cc r in
    let z = write_int-injective (pos a) (pos b) s in cc z

nullable-IsValue : (s : String) → IsValue (nullable s)
unfolding IsValue
nullable-IsValue s = elim (Bool-cases (str_eq s "")) [ inl e ↦ rw e tt | inr e ↦ rw e tt ]

target_value-IsValue : (t : Option Target) → IsValue (target_value t)
unfolding IsValue AreFields AreItems
target_value-IsValue none = tt
target_value-IsValue (some t) = (nullable-IsValue t.kind, (nullable-IsValue t.id, tt))

module _ (format_time : ℕ → Text) (detail_of : String → Fields) (m : Numerals) where
  -- A record as the chain stores it: the time is whole milliseconds, and the column of the detail is the
  -- canonical text of the detail map.
  pub record IsStored (r : Record) : Type 0 where
    pub v_small : r.v ≤ max_exact
    pub seq_small : r.seq ≤ max_exact
    pub whole : truncate_ms r.ts ≡ r.ts
    pub detail_text : encode_value m (obj (detail_of r.detail)) ≡ some (codes r.detail)
    pub detail_floats : AreFields (detail_of r.detail)

  preimage_value-IsValue :
      (r : Record) → IsStored r → IsValue (preimage_value format_time detail_of r)
  unfolding preimage_value IsValue AreFields AreItems text_eq
  preimage_value-IsValue r h = (
    tt,
    (
      tt,
      (
        tt,
        (
          tt,
          (
            (
              nullable-IsValue r.actor.id,
              (nullable-IsValue r.actor.method, (nullable-IsValue r.actor.session, tt)),
            ),
            (
              (nullable-IsValue r.source.ip, (nullable-IsValue r.source.version, tt)),
              (
                tt,
                (
                  target_value-IsValue r.target,
                  (
                    nullable-IsValue r.intent_hash,
                    (nullable-IsValue r.justification, (tt, (h.detail_floats, (tt, tt)))),
                  ),
                ),
              ),
            ),
          ),
        ),
      ),
    ),
  )

  normal-preimage :
      (r s : Record)
      → IsStored r
      → IsStored s
      → ((a b : ℕ) → format_time a ≡ format_time b → truncate_ms a ≡ truncate_ms b)
      → normal m (preimage_value format_time detail_of r)
        ≡ normal m (preimage_value format_time detail_of s)
      → preimage r ≡ preimage s
  unfolding preimage_value normal sort_fields insert_field less_utf16 less_units utf16 units_of at
      get text_eq text_of
  normal-preimage r s h k time e =
      let v = seq-injective m r.v s.v h.v_small k.v_small (ap (at (codes "v")) e) in
      let seq = seq-injective m r.seq s.seq h.seq_small k.seq_small (ap (at (codes "seq")) e) in
      let install = str-injective r.install s.install (ap (at (codes "install")) e) in
      let text : format_time r.ts ≡ format_time s.ts = ap text_of (ap (at (codes "ts")) e) in
      let ts : r.ts ≡ s.ts = sym h.whole ∙ time r.ts s.ts text ∙ k.whole in
      let actor = ap (at (codes "actor")) e in
      let actor_id = nullable-injective m r.actor.id s.actor.id (ap (at (codes "id")) actor) in
      let actor_method =
        nullable-injective m r.actor.method s.actor.method (ap (at (codes "method")) actor) in
      let actor_session =
        nullable-injective m r.actor.session s.actor.session (ap (at (codes "session")) actor) in
      let source = ap (at (codes "source")) e in
      let ip = nullable-injective m r.source.ip s.source.ip (ap (at (codes "ip")) source) in
      let version =
        nullable-injective m r.source.version s.source.version (ap (at (codes "version")) source) in
      let action = str-injective r.action s.action (ap (at (codes "action")) e) in
      let target = target_value-injective m r.target s.target (ap (at (codes "target")) e) in
      let intent =
        nullable-injective m r.intent_hash s.intent_hash (ap (at (codes "intent_hash")) e) in
      let why =
        nullable-injective m r.justification s.justification (ap (at (codes "justification")) e) in
      let outcome = str-injective r.outcome s.outcome (ap (at (codes "outcome")) e) in
      let detail = codes-injective r.detail s.detail (
        encode_value-normal m (obj (detail_of r.detail)) (obj (detail_of s.detail)) (codes r.detail)
          (codes s.detail) h.detail_text k.detail_text (ap (at (codes "detail")) e)) in
      let prev = str-injective r.prev_hash s.prev_hash (ap (at (codes "prev_hash")) e) in
      cc (
        v, seq, install, ts, actor_id, actor_method, actor_session, ip, version, action, target,
        intent, why, outcome, detail, prev,
      )

  -- Two stored records whose hashes are taken over one text agree in every field but the hash.
  pub preimage_text-injective :
      (r s : Record) (t : Text)
      → HaveDigits m
      → IsStored r
      → IsStored s
      → ((a b : ℕ) → format_time a ≡ format_time b → truncate_ms a ≡ truncate_ms b)
      → preimage_text format_time detail_of m r ≡ some t
      → preimage_text format_time detail_of m s ≡ some t
      → preimage r ≡ preimage s
  unfolding preimage_text
  preimage_text-injective r s t w h k time e f = normal-preimage r s h k time (
      encode_value-injective m w (preimage_value format_time detail_of r)
        (preimage_value format_time detail_of s) t (preimage_value-IsValue r h)
        (preimage_value-IsValue s k) e f)
