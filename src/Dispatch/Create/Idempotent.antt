-- ===== src/Dispatch/Create/Idempotent.antt =====
-- CreateNotification called again with an idempotency key.
use slay_push.Base.Text.{str_eq_iff}
use slay_push.Dispatch.{text_from}
use slay_push.Errors.{ok, is_no_rows}
use slay_push.Store.Monad.{attempt, bind_result, advance}
use slay_push.Store.Fates.{query_runs, AllRun}
use slay_push.Store.{World, Notification}
use slay_push.Store.Notifications.{
  get_notification_by_idempotency_key, opt_str_eq, create_notification_stmt, by_key,
  new_notification, insert_notification, create_notification_row, same_key,
}
use slay_push.Base.{
  [], ◌∷◌, suc, refl, any_where-congr, ◌∙◌, true, some, none, false, arith, List, ◌≡◌, Bool,
  any_where, String, ℕ, find_where, Option,
}
use slay_push.Dispatch.Create.{
  params, after_insert, has_no_targets, create_notification, CreateNotificationRequest,
}

-- The request can be stored: both encodings succeed and Postgres takes their texts as jsonb.
pub record Encodable (req : CreateNotificationRequest) (w : World) : Type 0 where
  pub data_json : String
  pub spec_json : String
  pub payload : String
  pub target_spec : String
  pub data_encodes : w.env.marshal_data req.payload ≡ ok data_json
  pub spec_encodes : w.env.marshal_spec req.spec ≡ ok spec_json
  pub data_stores : w.env.jsonb data_json ≡ some payload
  pub spec_stores : w.env.jsonb spec_json ≡ some target_spec

-- The row that a call in this world would insert.
abbrev pub row_of :
    ℕ → (req : CreateNotificationRequest) (w : World) → Encodable req w → Notification
row_of project_id req w e =
    new_notification (params project_id req e.data_json e.spec_json) e.payload e.target_spec
      (advance w)

opt_str_eq_comm : (s t : Option String) → opt_str_eq s t ≡ opt_str_eq t s
opt_str_eq_comm none none = refl
opt_str_eq_comm none (some t) = refl
opt_str_eq_comm (some s) none = refl
opt_str_eq_comm (some s) (some t) = ground (arith, str_eq_iff s t, str_eq_iff t s)

pub same_key-by_key : (a b : Notification) → same_key a b ≡ by_key a.project_id a.idempotency_key b
unfolding same_key
same_key-by_key a b = ground (arith, opt_str_eq_comm a.idempotency_key b.idempotency_key)

pub find-any {ℓ} :
    {A : Type ℓ} (p : A → Bool) (xs : List A) (a : A)
    → find_where p xs ≡ some a
    → any_where p xs ≡ true
unfolding find_where any_where
find-any p [] a h = ground arith
find-any p (x ∷ xs) a h = ground (arith, find-any p xs a)

module _ (project_id : ℕ) (req : CreateNotificationRequest) where
  abbrev pub HasTargets : Type 0
  HasTargets = has_no_targets req.spec.device_ids req.spec.external_user_ids ≡ false

  pub create_unfolds :
      (w : World) (e : Encodable req w)
      → HasTargets
      → create_notification project_id req w
        ≡ bind_result
            (attempt (create_notification_row (params project_id req e.data_json e.spec_json)) w)
            (after_insert project_id req)
  unfolding create_notification
  create_unfolds w e t = rw (t, e.data_encodes, e.spec_encodes)

  pub row_inserts :
      (w : World) (e : Encodable req w)
      → AllRun w
      → create_notification_row (params project_id req e.data_json e.spec_json) w
        ≡ insert_notification (row_of project_id req w e) (advance w)
  unfolding create_notification_row create_notification_stmt
  row_inserts w e up =
      rw (query_runs _ w (up w.tick), e.data_stores, create_notification_stmt, e.spec_stores)

  row_taken :
      (w : World) (e : Encodable req w) (n : Notification)
      → find_where (by_key project_id (text_from req.idempotency_key)) w.notifications ≡ some n
      → any_where (same_key (row_of project_id req w e)) w.notifications ≡ true
  unfolding new_notification
  row_taken w e n h =
      any_where-congr _ _ w.notifications (same_key-by_key (row_of project_id req w e))
      ∙ find-any _ w.notifications n h

  -- A call whose key the project has used, with the database up, returns the notification of that
  -- key, adds no row and queues no fanout: it only reads the database twice.
  pub create_replay :
      (w : World) (n : Notification)
      → HasTargets
      → AllRun w
      → Encodable req w
      → find_where (by_key project_id (text_from req.idempotency_key)) w.notifications ≡ some n
      → create_notification project_id req w ≡ (ok n, advance (advance w))
  unfolding insert_notification after_insert is_no_rows get_notification_by_idempotency_key
  create_replay w n t up e h =
      create_unfolds w e t
      ∙ rw
          (
            row_inserts w e up,
            insert_notification,
            row_taken w e n h,
            query_runs _ (advance w) (up (suc w.tick)),
            h,
          )
          refl
