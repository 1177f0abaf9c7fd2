-- ===== src/Server/Commands/Bootstraps.antt =====
-- bootstrap makes one admin at most.
use slay_push.Server.Commands.Passwords.{hash_verifies}
use slay_push.Base.Text.{str_eq}
use slay_push.Store.Fates.{read_cases, fate-cases}
use slay_push.Store.Monad.{pure, advance, wrapping, wrap_result, bind_result, query}
use slay_push.Store.{World, User}
use slay_push.Base.{
  arith, suc, lt→ltb, List, ap, ◌∙◌, Option-cases, refl, inr, ◌||◌, true, inl, any_where, ◌∷◌,
  length, Bool-cases, ◌⊎◌, ltb, [], ◌≡◌, if◌then◌else◌, String,
}
use slay_push.Auth.RoundTrip.{IsFaithful}
use slay_push.Store.Users.{has_email, user_has_id, new_user, count_users, insert_user, create_user}
use slay_push.Errors.{err, ok, Result-cases, Result}
use slay_push.Auth.{verify_password, hash_password, PasswordCodec}
use slay_push.Server.Commands.{connect, run_bootstrap, make_admin, Cli}

-- The admin that bootstrap made in an empty table.
pub record IsFirst (codec : PasswordCodec) (email password : String) (w v : World) : Type 0 where
  pub admin : User
  pub vacant : w.users ≡ []
  pub only : v.users ≡ admin ∷ []
  pub named : admin.email ≡ email
  pub verified : verify_password codec admin.password_hash password ≡ ok true

insert_cases :
    (u : User) (w : World)
    → ((insert_user u w).1.users ≡ w.users) ⊎ ((insert_user u w).1.users ≡ u ∷ w.users)
unfolding insert_user
insert_cases u w = elim (Bool-cases (any_where (user_has_id u.id) w.users)) [
  | inl taken ↦ inl (rw (insert_user, taken) refl)
  | inr a ↦ elim (Bool-cases (any_where (has_email u.email) w.users)) [
    | inl taken ↦ inl (rw (insert_user, a, taken) refl)
    | inr b ↦ inr (rw (insert_user, a, b) refl)
  ]
]

create_cases :
    (email hash : String) (w : World)
    → ((create_user email hash w).1.users ≡ w.users)
      ⊎ ((create_user email hash w).1.users ≡ new_user email hash (advance w) ∷ w.users)
unfolding create_user query
create_cases email hash w = elim (fate-cases (w.env.query_fate w.tick)) [
  | inl e ↦ rw e (insert_cases (new_user email hash (advance w)) (advance w))
  | inr (inl (s, e)) ↦ inl (rw e refl)
  | inr (inr (s, e)) ↦ rw e (insert_cases (new_user email hash (advance w)) (advance w))
]

-- What follows a creation changes nothing.
creation_world :
    (x : Result User × World)
    → (bind_result {A = User} (wrap_result "create admin user" x.0, x.1) (λ _. pure tt)).1 ≡ x.1
creation_world (ok u, v) = refl
creation_world (err e, v) = refl

module _ (c : Cli) (codec : PasswordCodec) (f : IsFaithful codec) (email password : String) where
  abbrev Bootstrapped : World → World → Type 0
  Bootstrapped w v = (v.users ≡ w.users) ⊎ IsFirst codec email password w v

  make_admin_once :
      (w u : World)
      → w.users ≡ []
      → u.users ≡ w.users
      → Bootstrapped w (make_admin codec email password u).1
  unfolding make_admin new_user
  make_admin_once w u vacant same = elim (Result-cases (hash_password codec password)) [
    | inl (e, bad) ↦ rw (make_admin, bad) (inl same)
    | inr (hash, made) ↦ elim (create_cases email hash u) [
      | inl kept ↦
          rw (make_admin, made, creation_world (create_user email hash u)) (inl (kept ∙ same))
      | inr added ↦
          rw (make_admin, made, creation_world (create_user email hash u))
            (inr (record {
              admin = new_user email hash (advance u);
              vacant = vacant;
              only = added ∙ ap (λ us. new_user email hash (advance u) ∷ us) (same ∙ vacant);
              named = refl;
              verified = hash_verifies c codec f email password hash made;
            }))
    ]
  ]

  counted_once :
      (w : World) (us : List User)
      → w.users ≡ us
      → Bootstrapped w
          ((if ltb 0 (length us) then pure tt else make_admin codec email password) (advance w)).1
  counted_once w [] vacant = make_admin_once w (advance w) vacant refl
  counted_once w (u ∷ us) taken = rw (lt→ltb 0 (suc (length us)) (omega arith)) (inl refl)

  connected_once :
      (w : World)
      → Bootstrapped w
          (bind_result
            (wrapping "count users" count_users w)
            (λ count. if ltb 0 count then pure tt else make_admin codec email password)).1
  unfolding count_users
  connected_once w = elim (read_cases (λ u. ok (length u.users)) w) [
    | inl q ↦ rw q (counted_once w w.users refl)
    | inr (s, q) ↦ rw q (inl refl)
  ]

  -- Where fmt, base64 and argon2 print, encode and derive as documented: whatever fails, bootstrap
  -- leaves the users as they were, or makes the one user of a table that was empty, with the email
  -- given and a hash that verifies the password given.
  pub bootstrap-IsFirst :
      (w : World)
      → ((run_bootstrap c codec email password w).1.users ≡ w.users)
        ⊎ IsFirst codec email password w (run_bootstrap c codec email password w).1
  unfolding run_bootstrap connect
  bootstrap-IsFirst w = elim (Bool-cases (str_eq email "" || str_eq password "")) [
    | inl missing ↦ rw (run_bootstrap, missing) (inl refl)
    | inr given ↦ elim (Option-cases c.unreachable) [
      | inr (e, down) ↦ rw (run_bootstrap, given, connect, down) (inl refl)
      | inl reached ↦ rw (run_bootstrap, given, connect, reached) (connected_once w)
    ]
  ]
