-- ===== src/Api/Create.antt =====
-- internal/transport/http/notifications.go: POST /notifications (handleCreateNotification).
pub mod Accepted
use slay_push.Base.Strings.{byte_len}
use slay_push.Base.Text.{◌<>◌}
use slay_push.Store.{Notification}
use slay_push.Store.Monad.{attempt, ◌>>=◌, pure, M}
use slay_push.Base.Json.{Fields, Data}
use slay_push.Dispatch.Create.{create_notification, CreateNotificationRequest}
use slay_push.Api.{
  created, write_json, write_error, in_project, decode_json, Reply, Decoded, Server,
}
use slay_push.Errors.{message, is_empty_targets, ok, err, Result}
use slay_push.Base.{
  false, true, none, [], ◌∷◌, ◌||◌, some, not, length, inr, inl, ◌⊎◌, ltb, if◌then◌else◌, ℕ, String,
  Option, List, Bool,
}

pub record CreateRequest : Type 0 where
  pub idempotency_key : String
  pub include_player_ids : List String
  pub include_external_user_ids : List String
  pub included_segments : List String
  pub filters : List Fields
  pub title : String
  pub body : String
  pub payload : Data

abbrev pub max_title_length : ℕ
max_title_length = 200

abbrev pub max_body_length : ℕ
max_body_length = 1000

abbrev pub max_idempotency_key_length : ℕ
max_idempotency_key_length = 255

abbrev pub max_data_bytes : ℕ
max_data_bytes = 4096

abbrev pub max_device_ids_per_request : ℕ
max_device_ids_per_request = 1000

-- A check of a request: its 422 and the handler's `return`, or the rest of the handler.
unfoldable pub reject : Bool → String → M Reply → M Reply
reject true text next = pure (write_error 422 text)
reject false text next = next

abbrev pub non_empty {ℓ} : {A : Type ℓ} → List A → Bool
non_empty xs = ltb 0 (length xs)

abbrev pub same_bool : Bool → Bool → Bool
same_bool a b = if a then b else not b

unfoldable pub check_encoded : Server → Result String → M Reply → M Reply
check_encoded srv (err e) next =
    pure (write_error 422 "data must be valid JSON-serializable content")
check_encoded srv (ok text) next =
    reject (ltb max_data_bytes (byte_len text))
      ("data must be at most " <> srv.itoa max_data_bytes <> " bytes serialized") next

-- `req.Data`, where it is not nil.
unfoldable pub check_data : Server → Data → M Reply → M Reply
unfolding check_encoded
check_data srv none next w = next w
check_data srv (some fields) next w = check_encoded srv (w.env.marshal_data (some fields)) next w

parsed : Option ℕ → String → String ⊎ List ℕ → String ⊎ List ℕ
parsed none text rest = inl text
parsed (some id) text (inl bad) = inl bad
parsed (some id) text (inr ids) = inr (id ∷ ids)

-- The loop over the player ids: the first that is no UUID, or the ids.
unfoldable pub parse_ids : Server → List String → String ⊎ List ℕ
unfolding parsed
parse_ids srv [] = inr []
parse_ids srv (text ∷ texts) = parsed (srv.uuid_parse text) text (parse_ids srv texts)

unfoldable pub with_ids : String ⊎ List ℕ → (List ℕ → M Reply) → M Reply
with_ids (inl text) next =
    pure (write_error 422 ("include_player_ids must be valid UUIDs, got: " <> text))
with_ids (inr ids) next = next ids

abbrev pub dispatch_request : CreateRequest → List ℕ → CreateNotificationRequest
dispatch_request req ids = record {
  idempotency_key = req.idempotency_key;
  spec = record { device_ids = ids; external_user_ids = req.include_external_user_ids };
  title = req.title;
  body = req.body;
  payload = req.payload;
}

conclude : Result Notification → M Reply
conclude (ok n) w = (ok (write_json 202 (created (w.env.uuid_text n.id) n.status)), w)
conclude (err e) w =
    if is_empty_targets e
    then (ok (write_error 422 (message w.env.texts e)), w)
    else (ok (write_error 500 "failed to create notification"), w)

-- The call of CreateNotification and the reply made of its result.
unfoldable pub submit : ℕ → CreateRequest → List ℕ → M Reply
unfolding conclude
submit project_id req ids = do
  r ← attempt (create_notification project_id (dispatch_request req ids))
  conclude r

-- What follows the checks of the request's fields.
unfoldable pub resolve_and_submit : Server → Option ℕ → CreateRequest → M Reply
resolve_and_submit srv project req =
    with_ids (parse_ids srv req.include_player_ids)
      λ ids. in_project project λ project_id. submit project_id req ids

unfoldable pub at_most : Server → String → ℕ → ℕ → M Reply → M Reply
at_most srv name max len =
    reject (ltb max len) (name <> " must be at most " <> srv.itoa max <> " characters")

unfoldable pub at_most_entries : Server → String → ℕ → M Reply → M Reply
at_most_entries srv name len = reject (ltb max_device_ids_per_request len) (
    name
    <> " must contain at most "
    <> srv.itoa max_device_ids_per_request
    <> " entries per request, got "
    <> srv.itoa len)

unfoldable pub create : Server → Option ℕ → CreateRequest → M Reply
unfolding resolve_and_submit at_most at_most_entries
create srv project req =
    reject (non_empty req.included_segments || non_empty req.filters)
      "included_segments/filters (segmentation) are not yet supported — use include_player_ids or include_external_user_ids"
      (reject
        (same_bool (non_empty req.include_player_ids) (non_empty req.include_external_user_ids))
        "exactly one of include_player_ids or include_external_user_ids is required"
        (at_most_entries srv "include_player_ids" (length req.include_player_ids) (
          at_most_entries srv "include_external_user_ids" (length req.include_external_user_ids) (
            at_most srv "idempotency_key" max_idempotency_key_length (byte_len req.idempotency_key)
              (at_most srv "title" max_title_length (byte_len req.title) (
                at_most srv "body" max_body_length (byte_len req.body)
                  (check_data srv req.payload (resolve_and_submit srv project req))))))))

unfoldable pub handle_create_notification : Server → Option ℕ → Decoded CreateRequest → M Reply
handle_create_notification srv project body = decode_json srv body (create srv project)
