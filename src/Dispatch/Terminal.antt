-- ===== src/Dispatch/Terminal.antt =====
-- Recipients in a terminal state, through HandleSend and any history.
use slay_push.Dispatch.Send.Effects.{handle_send-moves}
use native.Mathlib.Decide.{ℕ_discrete}
use slay_push.Dispatch.Fanout.Effects.{handle_fanout-moves}
use slay_push.Store.Notifications.{one_row}
use slay_push.Store.Fates.{read_cases}
use slay_push.Store.Moves.{here}
use slay_push.Dispatch.Create.Effects.{create_notification-moves}
use slay_push.Store.Untouched.{Trace-Found}
use slay_push.Dispatch.History.{sends_to, fans_out, creates, Op, step, run}
use slay_push.Errors.{other, err, ok}
use slay_push.Base.{
  refl, ◌≢◌, ◌∙◌, [], ◌∷◌, String, ◌⊎◌, inr, List, inl, ℕ, true, some, ◌≡◌, find_where,
}
use slay_push.Store.{NotificationRecipient, World}
use slay_push.Queue.{SendPayload}
use slay_push.Dispatch.{is_terminal, Attempt}
use slay_push.Store.Monad.{advance}
use slay_push.Store.Recipients.{recipient_has_id, get_notification_recipient}
use slay_push.Dispatch.Send.{handle_send}

-- The fetch of a recipient that is there.
get_cases :
    (id : ℕ) (w : World) (r : NotificationRecipient)
    → find_where (recipient_has_id id) w.recipients ≡ some r
    → (get_notification_recipient id w ≡ (ok r, advance w))
      ⊎ ((s : String) × (get_notification_recipient id w ≡ (err (other s), advance w)))
unfolding get_notification_recipient
get_cases id w r h =
    elim (read_cases (λ u. one_row (find_where (recipient_has_id id) u.recipients)) w) [
      | inl e ↦ inl (e ∙ rw h refl)
      | inr (s, e) ↦ inr (s, e)
    ]

-- A send task for a recipient in a terminal state, delivered again by asynq at any time, makes no
-- push and changes no row, whether or not the fetch fails: its one effect is to contact the database.
pub handle_send_terminal :
    (a : Attempt) (p : SendPayload) (w : World) (r : NotificationRecipient)
    → find_where (recipient_has_id p.recipient_id) w.recipients ≡ some r
    → is_terminal r.status ≡ true
    → (handle_send a p w).1 ≡ advance w
unfolding handle_send
handle_send_terminal a p w r h t = elim (get_cases p.recipient_id w r h) [
  | inl e ↦ rw (e, t) refl
  | inr (s, e) ↦ rw e refl
]

module _ (id : ℕ) (r : NotificationRecipient) (t : is_terminal r.status ≡ true) where
  abbrev Found : World → Type 0
  Found w = find_where (recipient_has_id id) w.recipients ≡ some r

  step-Found : (op : Op) (w : World) → Found w → Found (step op w)
  unfolding step
  step-Found (creates project_id req) w h =
      Trace-Found (λ _. ⊥) id r (λ x. x) ((create_notification-moves w project_id req).keep w here)
        h
  step-Found (fans_out p) w h =
      Trace-Found (λ _. ⊥) id r (λ x. x) ((handle_fanout-moves w p).keep w here) h
  step-Found (sends_to a p) w h = elim (ℕ_discrete p.recipient_id id) [
    | yes same ↦ rw (handle_send_terminal a p w r (rw same h) t) h
    | no other_row ↦
        Trace-Found (λ j. j ≢ id) id r (λ x. x refl)
          ((handle_send-moves w p other_row a).keep w here) h
  ]

  -- Once a recipient is sent, delivered or failed, its row is the same after any history of
  -- CreateNotification, HandleFanout and HandleSend calls, with any statement refused or lost.
  pub run-terminal : (ops : List Op) (w : World) → Found w → Found (run ops w)
  unfolding run
  run-terminal [] w h = h
  run-terminal (op ∷ ops) w h = run-terminal ops (step op w) (step-Found op w h)
