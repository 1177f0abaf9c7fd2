-- ===== src/Api/Router/ReadOnly.antt =====
-- What a key of scope read can do.
use slay_push.Store.Monad.{advance}
use mathlib.Core.Path.{subst}
use slay_push.Api.Auth.Sound.{require_scope_sound, IsRefused}
use slay_push.Apikey.{hash, send, satisfies, parse_scope}
use slay_push.Store.ApiKeys.{has_key_hash, is_live_key}
use slay_push.Api.{Server}
use slay_push.Store.{World, ApiKey}
use slay_push.Api.Auth.{bearer_token, scope_grants}
use slay_push.Base.{
  refl, arith, All-find, find_where_sound, inl, inr, some, All, true, List, ◌≡◌, find_where, String,
}
use slay_push.Api.Router.{
  handler, required_scope, serve, Request, post_devices, post_notifications, get_one,
  get_recipients_of,
}

-- A request by POST, of the routes that write.
abbrev pub IsPost : Request → Type 0
IsPost (post_devices origin body) = Unit
IsPost (post_notifications body) = Unit
IsPost (get_one id) = ⊥
IsPost (get_recipients_of id) = ⊥

post_needs_send : (q : Request) → IsPost q → required_scope q ≡ send
unfolding required_scope
post_needs_send (post_devices origin body) h = refl
post_needs_send (post_notifications body) h = refl
post_needs_send (get_one id) h = absurd h
post_needs_send (get_recipients_of id) h = absurd h

-- Every key with this hash has the scope read.
abbrev pub IsReadOnly : String → ApiKey → Type 0
IsReadOnly h k = has_key_hash h k ≡ true → k.scope ≡ "read"

no-grant : (scope : String) → scope ≡ "read" → scope_grants (parse_scope scope) send ≡ true → ⊥
unfolding scope_grants parse_scope satisfies
no-grant scope e g =
    let k = subst (λ s. scope_grants (parse_scope s) send ≡ true) e g in ground arith

live-hash :
    (h : String) (u : World) (ks : List ApiKey) (k : ApiKey)
    → All (IsReadOnly h) ks
    → find_where (is_live_key h u) ks ≡ some k
    → k.scope ≡ "read"
unfolding is_live_key
live-hash h u ks k a e =
    let live = find_where_sound (is_live_key h u) ks k e in
    All-find (IsReadOnly h) (is_live_key h u) ks k e a (ground arith)

-- A POST to /devices or to /notifications with the token of a key of scope read is refused, and
-- changes no table.
pub serve_read_only :
    (srv : Server) (q : Request) (header raw : String) (w : World)
    → IsPost q
    → bearer_token header ≡ some raw
    → All (IsReadOnly (hash srv.codec raw)) w.api_keys
    → IsRefused w (serve srv q header w)
unfolding serve
serve_read_only srv q header raw w post b own =
    elim (require_scope_sound srv (required_scope q) (handler srv q) header w) [
      | inr refused ↦ refused
      | inl admitted ↦
          let bears = admitted.bears in
          let same : admitted.raw ≡ raw = cc in
          let live =
            subst
              (λ r.
                find_where (is_live_key (hash srv.codec r) (advance w)) w.api_keys
                ≡ some admitted.key)
              same admitted.live in
          let scope = live-hash (hash srv.codec raw) (advance w) w.api_keys admitted.key own live in
          let grants =
            subst (λ s. scope_grants (parse_scope admitted.key.scope) s ≡ true)
              (post_needs_send q post) admitted.grants in
          absurd (no-grant admitted.key.scope scope grants)
    ]
