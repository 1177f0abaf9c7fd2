-- ===== src/Dispatch/Retry.antt =====
-- A notification's key through any history, and what a client's retry gets.
use slay_push.Dispatch.Send.Effects.{handle_send-moves}
use slay_push.Store.Monad.{advance}
use slay_push.Errors.{other, wrapped, err, ok}
use slay_push.Dispatch.Fanout.Effects.{handle_fanout-moves}
use slay_push.Dispatch.Create.Orphan.{create_refused, Insertable}
use slay_push.Store.Fates.{AllRun}
use slay_push.Dispatch.{text_from}
use slay_push.Dispatch.Create.Effects.{create_notification-moves}
use slay_push.Dispatch.History.{sends_to, fans_out, creates, Op, step, run}
use slay_push.Dispatch.Create.{create_notification, CreateNotificationRequest}
use mathlib.Core.Option
use slay_push.Dispatch.Create.Idempotent.{
  create_replay, row_of, HasTargets, Encodable, find-any, same_key-by_key,
}
use slay_push.Base.Text.{str_eq_refl, str_eq_iff}
use slay_push.Store.Moves.{
  edit_device, edit_recipient, here, add_recipient, then_move, Trace, edit_notification,
  add_notification, outside, Move,
}
use slay_push.Store.Notifications.{new_notification, has_id, same_key, by_key, opt_str_eq}
use slay_push.Store.{EnqueueFate, World, Notification}
use slay_push.Base.{
  ==_refl, suc, refl, [], find_where-update, if◌then◌else◌, ◌∙◌, any_where-congr, arith, none, inl,
  update_where, inr, ◌∷◌, ap, Bool-cases, true, false, ◌≡◌, any_where, some, List, find_where,
  String, ℕ, Option,
}

opt_str_eq-some : (s : Option String) (k : String) → opt_str_eq s (some k) ≡ true → s ≡ some k
opt_str_eq-some none k h = cc
opt_str_eq-some (some s) k h = ap some ((str_eq_iff s k).0 h)

module _ (project_id : ℕ) (k : String) where
  other_key :
      (x : Notification) (ns : List Notification) (n : Notification)
      → any_where (same_key x) ns ≡ false
      → find_where (by_key project_id (some k)) ns ≡ some n
      → by_key project_id (some k) x ≡ false
  other_key x ns n h f = elim (Bool-cases (by_key project_id (some k) x)) [
    | inr miss ↦ miss
    | inl hit ↦
        let same_project : x.project_id ≡ project_id = ground arith in
        let same_text : x.idempotency_key ≡ some k =
          opt_str_eq-some x.idempotency_key k (ground arith) in
        let clash : any_where (same_key x) ns ≡ true =
          any_where-congr _ _ ns (same_key-by_key x)
          ∙ rw (same_project, same_text) (find-any _ ns n f) in
        cc (clash, h)
  ]

  cons_key :
      (x : Notification) (ns : List Notification) (n : Notification)
      → by_key project_id (some k) x ≡ false
      → find_where (by_key project_id (some k)) ns ≡ some n
      → find_where (by_key project_id (some k)) (x ∷ ns) ≡ some n
  unfolding find_where
  cons_key x ns n h f = rw h f

  -- The id that a key stands for.
  abbrev KeyOf : ℕ → World → Type 0
  KeyOf id w =
      (n : Notification) × (find_where (by_key project_id (some k)) w.notifications ≡ some n)
      × (n.id ≡ id)

  Move-KeyOf : (id : ℕ) {E : ℕ → Type 0} {w v : World} → Move E w v → KeyOf id w → KeyOf id v
  Move-KeyOf id (outside en er ed ep) h = (h.0, rw en h.1, h.2)
  Move-KeyOf id {w = w} (add_notification x new _ _ e) h = (
    h.0,
    rw e (cons_key x w.notifications h.0 (other_key x w.notifications h.0 new h.1) h.1),
    h.2,
  )
  Move-KeyOf id {w = w} (edit_notification j f kept e) h = elim (Bool-cases (has_id j h.0)) [
    | inl hit ↦ (f h.0, rw (e, edited, h.1, hit) refl, (kept h.0).0 ∙ h.2)
    | inr miss ↦ (h.0, rw (e, edited, h.1, miss) refl, h.2)
  ]
    where
      edited :
          find_where (by_key project_id (some k)) (update_where (has_id j) f w.notifications)
          ≡ Option.map
              (λ a. if has_id j a then f a else a)
              (find_where (by_key project_id (some k)) w.notifications)
      edited =
          find_where-update (by_key project_id (some k)) (has_id j) f w.notifications
            (λ a. rw ((kept a).1, (kept a).2) refl)
  Move-KeyOf id (add_recipient r t i b e) h = (h.0, rw e h.1, h.2)
  Move-KeyOf id (edit_recipient j f allowed kept e) h = (h.0, rw e h.1, h.2)
  Move-KeyOf id (edit_device j s at e) h = (h.0, rw e h.1, h.2)

  Trace-KeyOf : (id : ℕ) {E : ℕ → Type 0} {w v : World} → Trace E w v → KeyOf id w → KeyOf id v
  Trace-KeyOf id here h = h
  Trace-KeyOf id (then_move t m) h = Move-KeyOf id m (Trace-KeyOf id t h)

  step-KeyOf : (id : ℕ) (op : Op) (w : World) → KeyOf id w → KeyOf id (step op w)
  unfolding step
  step-KeyOf id (creates pid req) w h =
      Trace-KeyOf id {E = λ _. Unit {0}} ((create_notification-moves w pid req).keep w here) h
  step-KeyOf id (fans_out p) w h =
      Trace-KeyOf id {E = λ _. Unit {0}} ((handle_fanout-moves w p).keep w here) h
  step-KeyOf id (sends_to a p) w h =
      Trace-KeyOf id {E = λ _. Unit {0}} ((handle_send-moves w p tt a).keep w here) h

  run-KeyOf : (id : ℕ) (ops : List Op) (w : World) → KeyOf id w → KeyOf id (run ops w)
  unfolding run
  run-KeyOf id [] w h = h
  run-KeyOf id (op ∷ ops) w h = run-KeyOf id ops (step op w) (step-KeyOf id op w h)

-- Once a project has a notification under an idempotency key, a call with that key after any
-- history of handler calls, made while the database is up, returns a notification of the same id
-- and only contacts the database twice: no second row, and no second fanout task. The call names
-- some device or user, and its data and its targets encode as JSON that Postgres takes as jsonb.
pub retry_same :
    (project_id : ℕ) (req : CreateNotificationRequest) (k : String) (ops : List Op) (w : World)
    (n : Notification)
    → HasTargets project_id req
    → text_from req.idempotency_key ≡ some k
    → find_where (by_key project_id (some k)) w.notifications ≡ some n
    → AllRun (run ops w)
    → Encodable req (run ops w)
    → (m : Notification) × (create_notification project_id req (run ops w)
        ≡ (ok m, advance (advance (run ops w))))
      × (m.id ≡ n.id)
retry_same project_id req k ops w n t key h up e =
    let kept = run-KeyOf project_id k n.id ops w (n, h, refl) in
    (kept.0, create_replay project_id req (run ops w) kept.0 t up e (rw key kept.1), kept.2)

found_first :
    (project_id : ℕ) (req : CreateNotificationRequest) (k : String) (w : World)
    (e : Encodable req w) (ns : List Notification)
    → text_from req.idempotency_key ≡ some k
    → find_where
        (by_key project_id (text_from req.idempotency_key))
        (row_of project_id req w e ∷ ns)
      ≡ some (row_of project_id req w e)
unfolding find_where new_notification
found_first project_id req k w e ns key = rw (key, ==_refl project_id, str_eq_refl k) refl

-- A first call with a key, which names some device or user, whose data and targets encode as JSON
-- that Postgres takes as jsonb, and whose project is there, its key and its row's id being new: where
-- asynq refuses its fanout task, the database being up, the call returns an error but leaves its
-- row. A retry with the same key then returns that row as a success, and the queued fanout tasks are
-- still those from before the first call.
pub create_orphan :
    (project_id : ℕ) (req : CreateNotificationRequest) (k s : String) (w : World)
    (e : Encodable req w)
    → HasTargets project_id req
    → text_from req.idempotency_key ≡ some k
    → AllRun w
    → Insertable (row_of project_id req w e) w
    → w.env.enqueue_fate (suc w.tick) ≡ EnqueueFate.refused s
    → let first = create_notification project_id req w in
      let second = create_notification project_id req first.1 in
      (first.0 ≡ err (wrapped "enqueue fanout" (other s)))
      × (second.0 ≡ ok (row_of project_id req w e))
      × (second.1.fanouts ≡ w.fanouts)
create_orphan project_id req k s w e t key up i no_fate =
    let first = create_refused project_id req w e s t up i no_fate in
    (ap (λ x. x.0) first, rw first (ap (λ x. x.0) second), rw first (ap (λ x. x.1.fanouts) second))
  where
    left : World
    left = record w {
      tick = suc (suc w.tick);
      notifications = row_of project_id req w e ∷ w.notifications;
    }

    encodable : Encodable req left
    encodable = record {
      data_json = e.data_json;
      spec_json = e.spec_json;
      payload = e.payload;
      target_spec = e.target_spec;
      data_encodes = e.data_encodes;
      spec_encodes = e.spec_encodes;
      data_stores = e.data_stores;
      spec_stores = e.spec_stores;
    }

    second :
        create_notification project_id req left
        ≡ (ok (row_of project_id req w e), advance (advance left))
    second =
        create_replay project_id req left (row_of project_id req w e) t up encodable
          (found_first project_id req k w e w.notifications key)
