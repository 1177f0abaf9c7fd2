-- ===== src/Server/Loadtest/Polls.antt =====
-- The polling of one notification comes to an end.
use slay_push.Errors.{Result}
use slay_push.Base.{
  refl, zero, ltb, arith, lt→ltb, inr, ◌-◌, inl, Bool-cases, some, ◌≡◌, ◌*◌, suc, ◌<◌, ◌≤◌, Bool,
  ◌+◌, ℕ,
}
use slay_push.Server.Loadtest.{timed_out, completed, says_done, PollOutcome, poll}

-- The clock is read after each request, and the loop sleeps for 250 ms before the next.
abbrev pub Sleeps : (ℕ → ℕ) → Type 0
Sleeps clock = (n : ℕ) → clock n + 250 ≤ clock (suc n)

-- Where the clock advances by the 250 ms that the loop sleeps between two polls, and the sleeps that
-- the fuel gives pass the deadline, the loop returns with fuel for one poll more.
pub poll_ends :
    (fuel : ℕ) (reply : ℕ → Result Bool) (clock : ℕ → ℕ) (created_at timeout n : ℕ)
    → Sleeps clock
    → created_at + timeout < clock n + 250 * fuel
    → (o : PollOutcome) × (poll (suc fuel) reply clock created_at timeout n ≡ some o)
unfolding poll
poll_ends zero reply clock created_at timeout n sleeps h = elim (Bool-cases (says_done (reply n))) [
  | inl done ↦ (completed (clock n - created_at), rw done refl)
  | inr more ↦ (timed_out, rw (more, lt→ltb (created_at + timeout) (clock n) (omega arith)) refl)
]
poll_ends (suc fuel) reply clock created_at timeout n sleeps h =
    elim (Bool-cases (says_done (reply n))) [
      | inl done ↦ (completed (clock n - created_at), rw done refl)
      | inr more ↦ elim (Bool-cases (ltb (created_at + timeout) (clock n))) [
        | inl late ↦ (timed_out, rw (more, late) refl)
        | inr early ↦
            let (o, e) =
              poll_ends fuel reply clock created_at timeout (suc n) sleeps
                (omega (arith, sleeps n)) in
            (o, rw (more, early) e)
      ]
    ]
