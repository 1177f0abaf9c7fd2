-- ===== src/Server/Commands/Passwords.antt =====
-- The password that reset-password sets.
use slay_push.Provider.Cache.{same_bytes_refl}
use slay_push.Store.Monad.{wrapping, bind_result}
use slay_push.Store.Success.{wrapping_ok, query_ok, bind_ok}
use slay_push.Base.Text.{str_eq}
use slay_push.Base.Strings.{byte_len, trim_line_end}
use slay_push.Store.Users.{has_email, update_user_password}
use slay_push.Errors.{Result-cases, ok}
use slay_push.Store.{User, World}
use slay_push.Auth.RoundTrip.{verify-hash, IsFaithful}
use slay_push.Base.{
  find_where-replaced, ◌∙◌, sym, update_where, ap, refl, [], ◌∷◌, Option-cases, inr, arith, inl,
  false, ◌≤◌, true, some, ltb, ◌==◌, length, Bool-cases, ◌≡◌, List, Bool, find_where, String,
  select_where,
}
use slay_push.Auth.{argon2_params, verify_password, hash_password, PasswordCodec}
use slay_push.Server.Commands.{
  reset_password_min_length, set_password, run_reset_password, new_password, connect, Cli,
}

selected-found :
    {A : Type 0} (p : A → Bool) (xs : List A)
    → (length (select_where p xs) == 0) ≡ false
    → (a : A) × (find_where p xs ≡ some a)
unfolding select_where find_where
selected-found p [] h = absurd (ground arith)
selected-found p (x ∷ xs) h = elim (Bool-cases (p x)) [
  | inl hit ↦ (x, rw hit refl)
  | inr miss ↦ let (a, e) = selected-found p xs (rw (select_where, miss) at h) in (a, rw miss e)
]

-- The user of the email has a hash that verifies the password.
pub record Verifies (codec : PasswordCodec) (email password : String) (v : World) : Type 0 where
  pub user : User
  pub found : find_where (has_email email) v.users ≡ some user
  pub verified : verify_password codec user.password_hash password ≡ ok true
  pub long : reset_password_min_length ≤ byte_len password

module _ (c : Cli) (codec : PasswordCodec) (f : IsFaithful codec) (email : String) where
  pub hash_verifies :
      (password hash : String)
      → hash_password codec password ≡ ok hash
      → verify_password codec hash password ≡ ok true
  hash_verifies password hash h =
      let (salt, drawn, e) = verify-hash codec f password password hash h in
      rw (e, same_bytes_refl (codec.id_key password salt argon2_params 32)) refl

  set_resets :
      (password hash : String) (w v : World)
      → hash_password codec password ≡ ok hash
      → reset_password_min_length ≤ byte_len password
      → set_password email hash w ≡ (ok tt, v)
      → Verifies codec email password v
  unfolding set_password update_user_password
  set_resets password hash w v made long h =
      let (rows, u, s, rest) =
        bind_ok (wrapping "update password" (update_user_password email hash) w) _ tt v h in
      let q = query_ok _ w rows u (wrapping_ok "update password" _ rows u s) in
      elim (Bool-cases (rows == 0)) [
        | inl nobody ↦ let k = rw nobody at rest in cc
        | inr some_row ↦
            let same : u ≡ v = ap (λ x. x.1) (rw some_row at rest) in
            let count : rows ≡ length (select_where (has_email email) w.users) = cc in
            let (old, there) = selected-found (has_email email) w.users (rw count at some_row) in
            let users : v.users
                ≡ update_where (has_email email) (λ x. record x { password_hash = hash }) w.users =
              ap (λ x. x.users) (sym same) ∙ ap (λ x. x.1.users) (sym q) in
            record {
              user = record old { password_hash = hash };
              found =
                  rw
                    (
                      users,
                      find_where-replaced (has_email email) (has_email email)
                          (λ x. record x { password_hash = hash }) w.users (λ a k. k) (λ a k. k),
                      there,
                    )
                    refl;
              verified = hash_verifies password hash made;
              long = long;
            }
      ]

  connected_resets :
      (password hash : String) (w v : World)
      → hash_password codec password ≡ ok hash
      → reset_password_min_length ≤ byte_len password
      → bind_result (connect c w) (λ _. set_password email hash) ≡ (ok tt, v)
      → Verifies codec email password v
  unfolding connect
  connected_resets password hash w v made long h = elim (Option-cases c.unreachable) [
    | inl reached ↦ set_resets password hash w v made long (rw (connect, reached) at h)
    | inr (e, down) ↦ let k = rw (connect, down) at h in cc
  ]

  new_resets :
      (password : String) (w v : World)
      → new_password c codec email password w ≡ (ok tt, v)
      → Verifies codec email password v
  unfolding new_password
  new_resets password w v h =
      elim (Bool-cases (ltb (byte_len password) reset_password_min_length)) [
        | inl short ↦ let k = rw (new_password, short) at h in cc
        | inr long ↦ elim (Result-cases (hash_password codec password)) [
          | inl (e, bad) ↦ let k = rw (new_password, long, bad) at h in cc
          | inr (hash, made) ↦
              connected_resets password hash w v made (ground arith)
                (rw (new_password, long, made) at h)
        ]
      ]

  -- Where reset-password returns no error, the user of the email has a hash that verifies the
  -- password that was read, without the line's end, which has eight bytes at least; under fmt, base64
  -- and argon2 that behave as documented.
  pub reset_password-Verifies :
      (raw : String) (w v : World)
      → run_reset_password c codec email (ok raw) w ≡ (ok tt, v)
      → Verifies codec email (trim_line_end raw) v
  unfolding run_reset_password
  reset_password-Verifies raw w v h = elim (Bool-cases (str_eq email "")) [
    | inl empty ↦ let k = rw (run_reset_password, empty) at h in cc
    | inr given ↦ new_resets (trim_line_end raw) w v (rw (run_reset_password, given) at h)
  ]
