-- ===== src/Api/Create/Accepted.antt =====
-- Which requests POST /notifications hands to the dispatcher.
use slay_push.Base.Strings.{byte_len}
use slay_push.Errors.{ok, Result}
use slay_push.Base.Json.{Data}
use slay_push.Api.Create.{submit, parse_ids, length, CreateRequest}
use slay_push.Store.{World}
use slay_push.Api.{write_error, Reply, Server}
use slay_push.Base.{inr, none, ◌⊎◌, ◌≡◌, ◌≤◌, ℕ, some, String, List}

-- The payload encodes, within its limit.
abbrev pub DataFits : World → Data → Type 0
DataFits w none = Unit
DataFits w (some fields) =
    (text : String) × (w.env.marshal_data (some fields) ≡ ok text) × (byte_len text ≤ 4096)

-- Exactly one of the two lists of targets is given.
abbrev pub OneList : List String → List String → Type 0
OneList players externals =
    ((1 ≤ length players) × (length externals ≡ 0))
    ⊎ ((length players ≡ 0) × (1 ≤ length externals))

-- A request that the API takes, without the order of its checks. The sizes are in bytes.
pub record IsAcceptable (srv : Server) (req : CreateRequest) (w : World) : Type 0 where
  pub ids : List ℕ
  pub no_segments : length req.included_segments ≡ 0
  pub no_filters : length req.filters ≡ 0
  pub one_list : OneList req.include_player_ids req.include_external_user_ids
  pub players : length req.include_player_ids ≤ 1000
  pub externals : length req.include_external_user_ids ≤ 1000
  pub key : byte_len req.idempotency_key ≤ 255
  pub title : byte_len req.title ≤ 200
  pub body : byte_len req.body ≤ 1000
  pub data_fits : DataFits w req.payload
  pub parses : parse_ids srv req.include_player_ids ≡ inr ids

module _ (w : World) {A : Type 0} (go : A → Result Reply × World) where
  -- The rest of the handler for what is acceptable, and otherwise a 422 that changes nothing.
  abbrev pub Verdict : Result Reply × World → Type 0
  Verdict x =
      ((a : A) × (x ≡ go a)) ⊎ ((text : String) × (x ≡ (ok (write_error 422 text), w)) × ¬ A)

module _ (srv : Server) (project_id : ℕ) (req : CreateRequest) (w : World) where
  abbrev pub submits : IsAcceptable srv req w → Result Reply × World
  submits a = submit project_id req a.ids w
