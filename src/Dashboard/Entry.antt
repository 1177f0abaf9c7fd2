-- ===== src/Dashboard/Entry.antt =====
-- What a login with the right password opens.
use Prim.Native.Char.{Char}
use slay_push.Dashboard.Sound.{session_touch}
use slay_push.Base.Strings.Split.{contains-append}
use slay_push.Base.Strings.{contains_char}
use slay_push.Store.Monad.{bind_result, M, advance}
use slay_push.Base.Text.{str_eq_refl, str_eq_iff, str_eq, ◌<>◌}
use slay_push.Store.Fates.{query_runs, AllRun}
use slay_push.Store.Users.{user_has_id, has_email, get_user_by_email}
use slay_push.Errors.{Result-cases, ok}
use slay_push.Store.Sessions.{
  is_live_session, get_active_session_by_hash, has_token_hash, new_session, session_has_id,
  insert_session, create_session,
}
use slay_push.Store.{User, Session, World}
use slay_push.Base.{
  ap, lt→ltb, List, ◌<◌, sym, Bool-cases, ==_refl, true, find_where-any_other, refl, find_where,
  inr, inl, ◌+◌, ◌∷◌, false, suc, some, ℕ, any_where, ◌≡◌, String,
}
use slay_push.Apikey.{KeyCodec}
use slay_push.Auth.{verify_password, session_ttl, hash_session_token, generate_session_token}
use slay_push.Dashboard.{
  char_at, Answer, with_session, require_session, redirect, logged_in, start_session, on_verified,
  on_user, handle_login, cookie_value, Form, AuthCodec,
}

sd : Char
sd = char_at "s" 0

token-text :
    (k : KeyCodec) (raw : String) → generate_session_token k ≡ ok raw → contains_char sd raw ≡ true
unfolding generate_session_token contains_char sd
token-text k raw h = elim (Result-cases (k.random 32)) [
  | inl (e, bad) ↦ let z = rw (generate_session_token, bad) at h in cc
  | inr (b, made) ↦
      let named : ok ("sd_" <> k.encode_raw_url b) ≡ ok raw =
        rw (generate_session_token, made) at h in
      let x : "sd_" <> k.encode_raw_url b ≡ raw = cc in
      rw (sym x, contains-append sd "sd_" (k.encode_raw_url b)) refl
]

-- A token is no empty text, so that a cookie that holds it counts as one.
token-cookie :
    (k : KeyCodec) (raw : String)
    → generate_session_token k ≡ ok raw
    → cookie_value (some raw) ≡ some raw
unfolding cookie_value contains_char sd
token-cookie k raw h = elim (Bool-cases (str_eq raw "")) [
  | inl empty ↦
      let e : raw ≡ "" = (str_eq_iff raw "").0 empty in
      let s = token-text k raw h in let z : contains_char sd "" ≡ true = rw e at s in cc
  | inr full ↦ rw full refl
]

module _ (c : AuthCodec) (form : Form) (raw : String) (v : World) where
  abbrev stamp : String
  stamp = hash_session_token c.tokens raw

  -- The session that the login makes.
  abbrev pub fresh : ℕ → Session
  fresh id = new_session id stamp (v.env.now (suc v.tick) + session_ttl) (advance (advance v))

  abbrev pub signed_in : ℕ → World
  signed_in id = record v { tick = suc (suc v.tick); sessions = fresh id ∷ v.sessions }

  -- The id and the hash of the new session are new.
  abbrev pub IsNew : Type 0
  IsNew =
      (any_where (session_has_id (v.env.gen_random_uuid (suc (suc v.tick)))) v.sessions ≡ false)
      × (any_where (has_token_hash stamp) v.sessions ≡ false)

  inserts :
      (u : User)
      → AllRun v
      → find_where (has_email form.email) v.users ≡ some u
      → IsNew
      → create_session u.id stamp (v.env.now (suc v.tick) + session_ttl) (advance v)
        ≡ (ok (fresh u.id), signed_in u.id)
  unfolding create_session insert_session new_session
  inserts u up found (new_id, new_hash) =
      rw
        (
          query_runs _ (advance v) (up (suc v.tick)),
          new_id,
          new_hash,
          find_where-any_other (has_email form.email) (user_has_id u.id) v.users u found
              (==_refl u.id),
        )
        refl

  -- With the database up, a login with the email and the password of a user sets a cookie.
  pub login_signs :
      (u : User)
      → AllRun v
      → find_where (has_email form.email) v.users ≡ some u
      → verify_password c.passwords u.password_hash form.password ≡ ok true
      → generate_session_token c.tokens ≡ ok raw
      → IsNew
      → handle_login c (some form) v
        ≡ (ok (record { page = redirect "/"; set_cookie = some raw }), signed_in u.id)
  unfolding handle_login get_user_by_email on_user on_verified start_session logged_in
  login_signs u up found verified token new =
      rw (query_runs _ v (up v.tick), found, verified, token, inserts u up found new) refl

  -- The request of the fresh session's cookie reaches its page, before the session ends.
  pub fresh_enters :
      (id : ℕ) (next : ℕ → M Answer)
      → AllRun v
      → generate_session_token c.tokens ≡ ok raw
      → v.env.now (suc (suc (suc v.tick))) < v.env.now (suc v.tick) + session_ttl
      → (n : ℕ) × (ss : List Session) × (require_session c (some raw) next (signed_in id)
          ≡ next id (record (signed_in id) { tick = n; sessions = ss }))
  unfolding require_session get_active_session_by_hash with_session is_live_session new_session
      find_where
  fresh_enters id next up token early =
      let (n, ss, t) =
        session_touch c (some raw) next (signed_in id) (fresh id).id (advance (signed_in id)) in
      let live : find_where (is_live_session stamp (v.env.now (suc (suc (suc v.tick)))))
            (fresh id ∷ v.sessions)
          ≡ some (fresh id) =
        rw (str_eq_refl stamp, lt→ltb _ _ early) refl in
      (
        n,
        ss,
        rw
            (
              require_session,
              token-cookie c.tokens raw token,
              query_runs _ (signed_in id) (up (suc (suc v.tick))),
              live,
            )
            (ap (λ x. bind_result x λ _. next id) t),
      )
