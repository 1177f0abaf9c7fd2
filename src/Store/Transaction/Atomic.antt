-- ===== src/Store/Transaction/Atomic.antt =====
-- What a transaction leaves.
use slay_push.Store.Fates.{read_cases, fate-cases}
use slay_push.Errors.{other, wrapped, Err, err, ok, Result}
use slay_push.Store.{World}
use slay_push.Store.Transaction.{rolled_back, commit, in_transaction, conclude_tx}
use slay_push.Store.Monad.{advance, M}
use slay_push.Base.{◌∙◌, refl, sym, suc, ◌⊎◌, ap, ℕ, inr, inl, ◌≡◌, String}

module _ {A : Type 0} (begin_text commit_text : String) (body : M A) where
  abbrev tx : M A
  tx = in_transaction begin_text commit_text body

  conclude_ok :
      (w u v : World) (r : Result A) (a : A)
      → conclude_tx commit_text w r u ≡ (ok a, v)
      → (r ≡ ok a) × (v ≡ advance u)
  unfolding conclude_tx commit
  conclude_ok w u v (err e) a h = cc
  conclude_ok w u v (ok b) a h = elim (fate-cases (u.env.query_fate u.tick)) [
    | inl e ↦ let k = rw (commit, e) at h in (ap (λ x. x.0) k, sym (ap (λ x. x.1) k))
    | inr (inl (s, e)) ↦ let k = rw (commit, e) at h in cc
    | inr (inr (s, e)) ↦ let k = rw (commit, e) at h in cc
  ]

  conclude_err :
      (w u v : World) (r : Result A) (e : Err)
      → conclude_tx commit_text w r u ≡ (err e, v)
      → ((n : ℕ) × (v ≡ record w { tick = n })) ⊎ ((a : A) × (r ≡ ok a) × (v ≡ advance u))
  unfolding conclude_tx commit rolled_back
  conclude_err w u v (err _) e h = inl (u.tick, sym (ap (λ x. x.1) h))
  conclude_err w u v (ok b) e h = elim (fate-cases (u.env.query_fate u.tick)) [
    | inl q ↦ let k = rw (commit, q) at h in cc
    | inr (inl (s, q)) ↦ let k = rw (commit, q) at h in inl (suc u.tick, sym (ap (λ x. x.1) k))
    | inr (inr (s, q)) ↦ let k = rw (commit, q) at h in inr (b, refl, sym (ap (λ x. x.1) k))
  ]

  abbrev body_run : World → Result A × World
  body_run w = body (advance w)

  tx_cases :
      (w : World)
      → ((e : Err) × (tx w ≡ (err e, advance w)))
        ⊎ (tx w ≡ conclude_tx commit_text (advance w) (body_run w).0 (body_run w).1)
  unfolding in_transaction
  tx_cases w = elim (read_cases (λ x. ok tt) w) [
    | inr (s, q) ↦ inl (wrapped begin_text (other s), rw (in_transaction, q) refl)
    | inl q ↦ inr (rw (in_transaction, q) refl)
  ]

  -- A transaction that returns no error has run its body to the end, and keeps what it did.
  pub in_transaction_ok :
      (w v : World) (a : A)
      → tx w ≡ (ok a, v)
      → (u : World) × (body (advance w) ≡ (ok a, u)) × (v ≡ advance u)
  in_transaction_ok w v a h = elim (tx_cases w) [
    | inl (e, q) ↦ cc
    | inr q ↦
        let c = conclude_ok (advance w) (body_run w).1 v (body_run w).0 a (sym q ∙ h) in
        ((body_run w).1, ap (λ r. (r, (body_run w).1)) c.0, c.1)
  ]

  -- A transaction that returns an error leaves every table as it was, but where the commit itself
  -- went through and only its reply was lost.
  pub in_transaction_err :
      (w v : World) (e : Err)
      → tx w ≡ (err e, v)
      → ((n : ℕ) × (v ≡ record w { tick = n }))
        ⊎ ((a : A) × (u : World) × (body (advance w) ≡ (ok a, u)) × (v ≡ advance u))
  in_transaction_err w v e h = elim (tx_cases w) [
    | inl (f, q) ↦ inl (suc w.tick, ap (λ x. x.1) (sym h ∙ q))
    | inr q ↦ elim (conclude_err (advance w) (body_run w).1 v (body_run w).0 e (sym q ∙ h)) [
      | inl (n, same) ↦ inl (n, same)
      | inr (a, r, kept) ↦ inr (a, (body_run w).1, ap (λ x. (x, (body_run w).1)) r, kept)
    ]
  ]
