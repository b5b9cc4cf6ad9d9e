-- ===== src/Domain/User.antt =====
-- internal/domain/user/service_pg.go. The row that is read stands for the `User` that is returned.
pub mod Accounts
pub mod Memory
use vergo.Prelude.{String, Option, none, some, if◌then◌else◌}
use vergo.Platform.{Platform}
use vergo.Db.{Act, Err, pure, raise, gets, lift, draw, or_fail, ◌>>=◌, ◌>>◌}
use vergo.Db.Rows
use vergo.Repo.Users.{insert_user, get_user_by_email, get_user_by_id, update_user_password}
use vergo.Auth.Jwt.{or_error}

-- internal/domain/user/model.go
pub record User : Type 0 where
  pub id : String
  pub email : String
  pub password_hash : String

abbrev of_row : Rows.User → User
of_row r = record { id = r.id; email = r.email; password_hash = r.password_hash }

abbrev no_rows_as : Err → Err → Err
no_rows_as e Err.no_rows = e
no_rows_as e other = other

module _ (p : Platform) where
  unfoldable pub signup : String → String → Act Err User
  unfolding insert_user
  signup email password = do
    salt ← draw
    hash ← lift (or_error Err.bcrypt_error (p.bcrypt_generate salt password))
    n ← draw
    now ← gets (λ w. w.now)
    insert_user (p.uuid n) email hash now
    pure (record { id = p.uuid n; email = email; password_hash = hash })

  unfoldable pub login : String → String → Act Err User
  unfolding get_user_by_email
  login email password = do
    row ← or_fail (no_rows_as Err.invalid_login) (get_user_by_email email)
    if p.bcrypt_compare row.password_hash password
        then pure (of_row row)
        else raise Err.invalid_login

unfoldable pub get_by_id : String → Act Err User
unfolding get_user_by_id
get_by_id id = do
  row ← or_fail (no_rows_as Err.user_not_found) (get_user_by_id id)
  pure (of_row row)

unfoldable pub get_by_email : String → Act Err User
unfolding get_user_by_email
get_by_email email = do
  row ← or_fail (no_rows_as Err.user_not_found) (get_user_by_email email)
  pure (of_row row)

unfoldable pub update_password : String → String → Act Err (Unit {0})
unfolding update_user_password
update_password user_id new_password_hash = update_user_password user_id new_password_hash
