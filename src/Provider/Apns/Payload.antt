-- ===== src/Provider/Apns/Payload.antt =====
-- The payload of a push to APNs.
use mathlib.Core.Path.{subst}
use mathlib.Core.Bool.{false≢true}
use slay_push.Provider.{SendRequest}
use slay_push.Base.Text.{str_eq_iff, str_eq}
use slay_push.Provider.Apns.{alert_of, fields_of, payload_of, merge, set_field}
use slay_push.Base.{
  Bool, sym, ◌∙◌, false, inr, refl, inl, Bool-cases, true, if◌then◌else◌, ◌≡◌, some, none, String,
  Option,
}
use slay_push.Base.Json.{end, field, Value, Fields}

unfoldable pub field_at : String → Fields → Option Value
field_at k end = none
field_at k (field j v fs) = if str_eq j k then some v else field_at k fs

-- A map's keys differ.
unfoldable pub HasDistinctKeys : Fields → Type 0
HasDistinctKeys end = Unit
HasDistinctKeys (field k v fs) = (field_at k fs ≡ none) × HasDistinctKeys fs

abbrev pub or_else : Option Value → Option Value → Option Value
or_else (some v) o = some v
or_else none o = o

apart : (i j k : String) → str_eq i j ≡ false → str_eq i k ≡ true → str_eq j k ≡ false
apart i j k differ hit = elim (Bool-cases (str_eq j k)) [
  | inr other ↦ other
  | inl same ↦
      let e = (str_eq_iff i k).0 hit ∙ sym ((str_eq_iff j k).0 same) in
      absurd (false≢true (sym differ ∙ (str_eq_iff i j).1 e))
]

if_again {ℓ} :
    {A : Type ℓ} (b : Bool) (x y z : A)
    → (if b then x else z) ≡ (if b then x else if b then y else z)
if_again true x y z = refl
if_again false x y z = refl

field_at-set :
    (k j : String) (v : Value) (p : Fields)
    → field_at k (set_field j v p) ≡ (if str_eq j k then some v else field_at k p)
unfolding field_at set_field
field_at-set k j v end = refl
field_at-set k j v (field i u fs) = elim (Bool-cases (str_eq i j)) [
  | inl same ↦
      let e = (str_eq_iff i j).0 same in
      rw (same, e) (if_again (str_eq j k) (some v) (some u) (field_at k fs))
  | inr differ ↦ elim (Bool-cases (str_eq i k)) [
    | inl hit ↦ rw (differ, hit, apart i j k differ hit) refl
    | inr miss ↦ rw (differ, miss) (field_at-set k j v fs)
  ]
]

field_at-merge :
    (k : String) (p fs : Fields)
    → HasDistinctKeys fs
    → field_at k (merge p fs) ≡ or_else (field_at k fs) (field_at k p)
unfolding merge field_at HasDistinctKeys
field_at-merge k p end d = refl
field_at-merge k p (field j v fs) d =
    field_at-merge k (set_field j v p) fs d.1 ∙ elim (Bool-cases (str_eq j k)) [
      | inl hit ↦
          let gone : field_at k fs ≡ none =
            subst (λ s. field_at s fs ≡ none) ((str_eq_iff j k).0 hit) d.0 in
          rw (field_at-set k j v p, hit, gone) refl
      | inr miss ↦ rw (field_at-set k j v p, miss) refl
    ]

-- A field of the payload is the one of the request's data, where the data has it; otherwise it is
-- the alert, under aps, or none. Data with a field aps takes the alert's place.
pub payload_of-fields :
    (req : SendRequest) (k : String)
    → HasDistinctKeys (fields_of req.payload)
    → field_at k (payload_of req)
      ≡ or_else (field_at k (fields_of req.payload)) (field_at k (field "aps" (alert_of req) end))
unfolding payload_of
payload_of-fields req k = field_at-merge k (field "aps" (alert_of req) end) (fields_of req.payload)
