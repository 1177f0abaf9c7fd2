-- ===== src/Api/Auth/Sound.antt =====
-- Which requests requireScope lets through to a handler.
use slay_push.Store.Notifications.{one_row}
use slay_push.Base.Text.{◌<>◌}
use slay_push.Dispatch.Limiter.{allows}
use slay_push.Store.Fates.{read_cases, fate-cases}
use slay_push.Errors.{is_no_rows, Result, ok}
use slay_push.Base.Int.{pos, ℤ}
use slay_push.Store.{ApiKey, World}
use slay_push.Store.Monad.{attempt, bind_result, advance, M, query}
use slay_push.Base.{
  Option-cases, ap, refl, update_where, false, true, suc, inr, inl, find_where, some, Bool-cases,
  String, List, Bool, ◌⊎◌, ℕ, ◌≡◌,
}
use slay_push.Store.ApiKeys.{
  get_active_api_key_by_hash, touched, key_has_id, is_live_key, touch_api_key_last_used,
}
use slay_push.Apikey.{parse_scope, hash, Scope}
use slay_push.Api.Auth.{
  too_many, within_limits, with_key, scope_grants, bearer_token, require_scope, touch,
}
use slay_push.Apikey.Limiter.{RateLimiter, check, allow}
use slay_push.Api.{write_error, Server, Reply}

-- The replies with which a request is turned away.
abbrev pub IsRefusal : Reply → Type 0
IsRefusal r = (r.status ≡ 401) ⊎ (r.status ≡ 403) ⊎ (r.status ≡ 429) ⊎ (r.status ≡ 500)

-- A refusal with nothing but contacts made.
abbrev pub IsRefused : World → Result Reply × World → Type 0
IsRefused w x = (r : Reply) × (n : ℕ) × (x ≡ (ok r, record w { tick = n })) × IsRefusal r

-- The handler's own run, from a world where only the keys' times of use and the contacts differ.
abbrev pub IsRun : World → M Reply → Result Reply × World → Type 0
IsRun w next x = (n : ℕ) × (ks : List ApiKey) × (x ≡ next (record w { tick = n; api_keys = ks }))

module _ (l : RateLimiter) (key project : ℕ) (w : World) where
  abbrev of_key : Bool × ℤ
  of_key = allows (l.reply ("apikey:" <> w.env.uuid_text key) l.per_key w.tick)

  abbrev of_project : Bool × ℤ
  of_project = allows (l.reply ("project:" <> w.env.uuid_text project) l.per_project (suc w.tick))

  allow_cases :
      (verdict : Bool × ℤ) × (n : ℕ) × (allow l key project w ≡ (ok verdict, record w { tick = n }))
  unfolding allow check
  allow_cases = elim (Bool-cases of_key.0) [
    | inr above ↦ ((false, of_key.1), suc w.tick, rw above refl)
    | inl within ↦ elim (Bool-cases of_project.0) [
      | inr above ↦ ((false, of_project.1), suc (suc w.tick), rw (within, above) refl)
      | inl fits ↦ ((true, pos 0), suc (suc w.tick), rw (within, fits) refl)
    ]
  ]

touch_cases :
    (id : ℕ) (w : World)
    → (n : ℕ) × (ks : List ApiKey) × (touch id w ≡ (ok tt, record w { tick = n; api_keys = ks }))
unfolding touch touch_api_key_last_used query
touch_cases id w =
    let ks = update_where (key_has_id id) (touched (w.env.now (suc w.tick))) w.api_keys in
    elim (fate-cases (w.env.query_fate w.tick)) [
      | inl e ↦ (suc w.tick, ks, rw e refl)
      | inr (inl (s, e)) ↦ (suc w.tick, w.api_keys, rw e refl)
      | inr (inr (s, e)) ↦ (suc w.tick, ks, rw e refl)
    ]

within_cases :
    (srv : Server) (k : ApiKey) (next : ℕ → M Reply) (w : World)
    → IsRun w (next k.project_id) (within_limits srv k next w)
      ⊎ IsRefused w (within_limits srv k next w)
unfolding within_limits
within_cases srv k next w =
    let (verdict, n, e) = allow_cases srv.limiter k.id k.project_id w in
    let (m, ks, t) = touch_cases k.id (record w { tick = n }) in
    elim (Bool-cases verdict.0) [
      | inl within ↦ inl (m, ks, rw (e, within) (ap (λ x. bind_result x λ _. next k.project_id) t))
      | inr above ↦ inr (too_many srv verdict.1, n, rw (e, above) refl, inr (inr (inl refl)))
    ]

module _ (srv : Server) (required : Scope) (next : ℕ → M Reply) (header : String) (w : World) where
  abbrev answer : Result Reply × World
  answer = require_scope srv required next header w

  -- The handler runs for the project of a key that is live, has the hash of the request's token,
  -- and a scope that grants what is required.
  pub record IsAdmitted : Type 0 where
    pub raw : String
    pub key : ApiKey
    pub bears : bearer_token header ≡ some raw
    pub live : find_where (is_live_key (hash srv.codec raw) (advance w)) w.api_keys ≡ some key
    pub grants : scope_grants (parse_scope key.scope) required ≡ true
    pub runs : IsRun w (next key.project_id) answer

  key_cases :
      (raw : String) (k : ApiKey)
      → bearer_token header ≡ some raw
      → find_where (is_live_key (hash srv.codec raw) (advance w)) w.api_keys ≡ some k
      → answer ≡ with_key srv required next (ok k) (advance w)
      → IsAdmitted ⊎ IsRefused w answer
  unfolding with_key
  key_cases raw k b l e = elim (Bool-cases (scope_grants (parse_scope k.scope) required)) [
    | inr g ↦ inr (
      write_error 403 "API key does not have the required scope",
      suc w.tick,
      rw (e, g) refl,
      inr (inl refl),
    )
    | inl g ↦ elim (within_cases srv k next (advance w)) [
      | inl (n, ks, r) ↦ inl (record {
        raw = raw;
        key = k;
        bears = b;
        live = l;
        grants = g;
        runs = (n, ks, rw (e, g) r);
      })
      | inr (r, n, q, i) ↦ inr (r, n, rw (e, g) q, i)
    ]
  ]

  token_cases :
      (raw : String)
      → bearer_token header ≡ some raw
      → answer
        ≡ bind_result
            (attempt (get_active_api_key_by_hash (hash srv.codec raw)) w)
            (with_key srv required next)
      → IsAdmitted ⊎ IsRefused w answer
  unfolding get_active_api_key_by_hash with_key is_no_rows
  token_cases raw b e =
      elim (read_cases (λ u. one_row (find_where (is_live_key (hash srv.codec raw) u) u.api_keys))
        w) [
          | inr (s, q) ↦ inr (
            write_error 500 "failed to resolve API key",
            suc w.tick,
            rw (e, q) refl,
            inr (inr (inr refl)),
          )
          | inl q ↦
              elim (Option-cases
                (find_where (is_live_key (hash srv.codec raw) (advance w)) w.api_keys)) [
                  | inl n ↦ inr (
                    write_error 401 "invalid or revoked API key",
                    suc w.tick,
                    rw (e, q, n) refl,
                    inl refl,
                  )
                  | inr (k, l) ↦ key_cases raw k b l (rw (e, q, l) refl)
                ]
        ]

  -- A request reaches the handler only for the project of a live key that has the hash of its
  -- bearer token and grants the scope required; any other request is answered by 401, 403, 429 or
  -- 500, and changes no table.
  pub require_scope_sound : IsAdmitted ⊎ IsRefused w answer
  unfolding require_scope
  require_scope_sound = elim (Option-cases (bearer_token header)) [
    | inl b ↦ inr (
      write_error 401 "missing or malformed Authorization header",
      w.tick,
      rw (require_scope, b) refl,
      inl refl,
    )
    | inr (raw, b) ↦ token_cases raw b (rw (require_scope, b) refl)
  ]
