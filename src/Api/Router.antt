-- ===== src/Api/Router.antt =====
-- internal/transport/http/server.go: the routes, with the scope that each asks for. chi matches a
-- method and a path to one of them.
pub mod ReadOnly
use slay_push.Api.Status.{handle_list_recipients, handle_get_notification}
use slay_push.Api.Auth.{require_scope}
use slay_push.Api.Create.{handle_create_notification, CreateRequest}
use slay_push.Store.Monad.{M}
use slay_push.Base.{some, ℕ, String}
use slay_push.Api.{Reply, Decoded, Server}
use slay_push.Apikey.{read, send, Scope}
use slay_push.Api.Devices.{handle_register_device, RegisterRequest, Origin}

pub data Request : Type 0 where
  post_devices : Origin → Decoded RegisterRequest → Request
  post_notifications : Decoded CreateRequest → Request
  get_one : String → Request
  get_recipients_of : String → Request

unfoldable pub required_scope : Request → Scope
required_scope (post_devices origin body) = send
required_scope (post_notifications body) = send
required_scope (get_one id) = read
required_scope (get_recipients_of id) = read

unfoldable pub handler : Server → Request → ℕ → M Reply
handler srv (post_devices origin body) project_id =
    handle_register_device srv origin (some project_id) body
handler srv (post_notifications body) project_id =
    handle_create_notification srv (some project_id) body
handler srv (get_one id) project_id = handle_get_notification srv (some project_id) id
handler srv (get_recipients_of id) project_id = handle_list_recipients srv (some project_id) id

unfoldable pub serve : Server → Request → String → M Reply
serve srv q header = require_scope srv (required_scope q) (handler srv q) header
