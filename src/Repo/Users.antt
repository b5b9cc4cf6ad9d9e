-- ===== src/Repo/Users.antt =====
-- internal/repo/users.sql.go and the password update of password_resets.sql.go.
use vergo.Prelude.{ℕ, String, ◌==◌, ◌++◌, ◌∷◌, [], is_some, if◌then◌else◌}
use vergo.Table.{find, update}
use vergo.Db.{Act, Err, ok, err, query, one}
use vergo.Db.Rows.{User}

-- The primary key and the unique e-mail make a second insert fail.
unfoldable pub insert_user : String → String → String → ℕ → Act Err (Unit {0})
unfolding query
insert_user id email password_hash created_at = query λ w.
    if is_some (find (λ u. u.id == id) w.users)
    then err Err.unique_violation
    else if is_some (find (λ u. u.email == email) w.users)
    then err Err.unique_violation
    else ok (
      tt,
      record w.db {
        users =
            w.users
            ++ record {
              id = id;
              email = email;
              password_hash = password_hash;
              created_at = created_at;
            }
              ∷ [];
      },
    )

unfoldable pub get_user_by_email : String → Act Err User
unfolding query
get_user_by_email email = query λ w. one w (find (λ u. u.email == email) w.users)

unfoldable pub get_user_by_id : String → Act Err User
unfolding query
get_user_by_id id = query λ w. one w (find (λ u. u.id == id) w.users)

unfoldable pub update_user_password : String → String → Act Err (Unit {0})
unfolding query
update_user_password id password_hash = query λ w. ok (
  tt,
  record w.db {
    users = update (λ u. u.id == id) (λ u. record u { password_hash = password_hash }) w.users;
  },
)
