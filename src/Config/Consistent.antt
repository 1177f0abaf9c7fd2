-- ===== src/Config/Consistent.antt =====
-- What Validate accepts.
use slay_push.Base.Text.{str_eq, str_eq_iff}
use slay_push.Base.{
  Bool-cases, false, ◌&&◌, not, inr, inl, String, refl, zero, suc, ℕ, arith, ◌≢◌, ◌↔◌, true, ◌⊎◌,
  none, ◌≡◌,
}
use slay_push.Base.Int.{negsuc, pos, ltb_ℤ, ℤ}
use slay_push.Config.{Printers, validate, Config}

-- One of the two formats of logs, with a URL for the one that needs it, and a positive limit.
pub record IsConsistent (c : Config) : Type 0 where
  pub format : (c.log_format ≡ "json") ⊎ (c.log_format ≡ "seq")
  pub url : c.log_format ≡ "seq" → c.seq_url ≢ ""
  pub limit : (n : ℕ) × (c.outbound_rate_limit_rps ≡ pos (suc n))

positive : (z : ℤ) → ltb_ℤ (pos 0) z ≡ true → (n : ℕ) × (z ≡ pos (suc n))
positive (pos zero) h = ground arith
positive (pos (suc n)) h = (n, refl)
positive (negsuc n) h = ground arith

format_of :
    (f : String)
    → not (str_eq f "json") && not (str_eq f "seq") ≡ false
    → (f ≡ "json") ⊎ (f ≡ "seq")
format_of f h = elim (Bool-cases (str_eq f "json")) [
  | inl plain ↦ inl ((str_eq_iff f "json").0 plain)
  | inr other ↦ inr ((str_eq_iff f "seq").0 (ground arith))
]

above : (n : ℕ) → ltb_ℤ (pos 0) (pos (suc n)) ≡ true
above n = ground arith

different : (s t : String) → s ≢ t → str_eq s t ≡ false
different s t ne = elim (Bool-cases (str_eq s t)) [
  | inl same ↦ absurd (ne ((str_eq_iff s t).0 same))
  | inr other ↦ other
]

module _ (p : Printers) (c : Config) where
  accepted-IsConsistent : validate p c ≡ none → IsConsistent c
  unfolding validate
  accepted-IsConsistent h = record {
    format = format_of c.log_format (ground arith);
    url = λ s e.
        let seq = (str_eq_iff c.log_format "seq").1 s in
        let empty = (str_eq_iff c.seq_url "").1 e in ground arith;
    limit = positive c.outbound_rate_limit_rps (ground arith);
  }

  IsConsistent-accepted : IsConsistent c → validate p c ≡ none
  unfolding validate
  IsConsistent-accepted k =
      let (n, limit) = k.limit in
      elim k.format [
        | inl json ↦ rw (validate, json, limit, above n) refl
        | inr seq ↦ rw (validate, seq, different c.seq_url "" (k.url seq), limit, above n) refl
      ]

  -- Validate reports no error for exactly the consistent configurations.
  pub validate-IsConsistent : (validate p c ≡ none) ↔ IsConsistent c
  validate-IsConsistent = (accepted-IsConsistent, IsConsistent-accepted)
