-- ===== src/Store/Users.antt =====
-- internal/store/postgres/users.sql.go.
use slay_push.Base.Text.{str_eq}
use slay_push.Store.Notifications.{one_row}
use slay_push.Errors.{violation, err, ok, Result}
use slay_push.Store.{World, User}
use slay_push.Base.{
  ◌∷◌, update_where, select_where, any_where, length, if◌then◌else◌, find_where, ◌==◌, Bool, ℕ,
  String,
}
use slay_push.Store.Monad.{query, M}

abbrev pub has_email : String → User → Bool
has_email email u = str_eq u.email email

abbrev pub user_has_id : ℕ → User → Bool
user_has_id id u = u.id == id

unfoldable pub count_users : M ℕ
count_users = query λ w. (ok (length w.users), w)

unfoldable pub new_user : String → String → World → User
new_user email password_hash w = record {
  id = w.env.gen_random_uuid w.tick;
  email = email;
  password_hash = password_hash;
  role = "admin";
  created_at = w.env.now w.tick;
}

unfoldable pub insert_user : User → World → Result User × World
insert_user u w =
    if any_where (user_has_id u.id) w.users
    then (err (violation "users_pkey"), w)
    else if any_where (has_email u.email) w.users
    then (err (violation "users_email_key"), w)
    else (ok u, record w { users = u ∷ w.users })

unfoldable pub create_user : String → String → M User
create_user email password_hash = query λ w. insert_user (new_user email password_hash w) w

unfoldable pub get_user_by_email : String → M User
get_user_by_email email = query λ w. (one_row (find_where (has_email email) w.users), w)

unfoldable pub get_user_by_id : ℕ → M User
get_user_by_id id = query λ w. (one_row (find_where (user_has_id id) w.users), w)

-- The number of rows changed: at most one, as an email is unique.
unfoldable pub update_user_password : String → String → M ℕ
update_user_password email password_hash = query λ w. (
  ok (length (select_where (has_email email) w.users)),
  record w {
    users =
        update_where (has_email email) (λ u. record u { password_hash = password_hash }) w.users;
  },
)
