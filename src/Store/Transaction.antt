-- ===== src/Store/Transaction.antt =====
-- A transaction (`Begin`, `Commit` and the deferred `Rollback` of pgx): what its body has done stays
-- only if the commit goes through.
pub mod Atomic
use slay_push.Store.{QueryFate}
use slay_push.Errors.{other, wrapped, err, ok, Result}
use slay_push.Store.Monad.{advance, query, wrapping, bind_result, M}
use slay_push.Store.{World}
use slay_push.Base.{String}

-- The tables as they were; the contacts with the outside have been made.
unfoldable pub rolled_back : World → World → World
rolled_back before after = record before { tick = after.tick }

-- A commit that the database does not take rolls the work back; one whose reply is lost keeps it.
commit : {A : Type 0} → String → World → A → M A
commit text before a w = elim (w.env.query_fate w.tick) [
  | QueryFate.runs ↦ (ok a, advance w)
  | QueryFate.refused s ↦ (err (wrapped text (other s)), rolled_back before (advance w))
  | QueryFate.lost s ↦ (err (wrapped text (other s)), advance w)
]

conclude_tx : {A : Type 0} → String → World → Result A → M A
unfolding commit
conclude_tx text before (ok a) w = commit text before a w
conclude_tx text before (err e) w = (err e, rolled_back before w)

-- `begin_text` and `commit_text` are what the caller wraps the errors of Begin and Commit in.
unfoldable pub in_transaction : {A : Type 0} → String → String → M A → M A
unfolding conclude_tx
in_transaction begin_text commit_text body w =
    bind_result (wrapping begin_text (query λ v. (ok tt, v)) w)
      λ _ v. let (r, u) = body v in conclude_tx commit_text v r u
