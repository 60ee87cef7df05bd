-- ===== src/Api/Users.antt =====
-- src/api/http_server.cpp: signing in, passwords and users, behind authentication and parsing. A
-- text of the body is what its conversion gives, an exception where it is no text.
use night_watcher.Base.{
  ℕ, suc, Bool, true, false, Option, none, some, List, [], ◌∷◌, if◌then◌else◌, Bytes, codes,
  is_empty, bytes_eq, leb, Result, ok, err,
}
use night_watcher.Base.Int.{ℤ, pos}
use night_watcher.Auth.{hash_password, verify_password, random_hex}
use night_watcher.Api.Names.{Reply, fails, sends}
use night_watcher.Database.{Db, ret, throw, ◌>>=◌, ◌>>◌}
use night_watcher.Database.RowTypes.{UserRow, SessionInfo}
use night_watcher.Database.Accounts.{
  find_user, create_session, delete_session, validate_session, set_user_password, create_user,
  users, delete_user,
}

-- A value, or its exception.
unfoldable pub lifted : {A : Type 0} → Result A → Db A
lifted (ok a) = ret a
lifted (err e) = throw e

-- `const int ttl = 7 * 24 * 3600`.
abbrev pub session_ttl : ℤ
session_ttl = pos 604800

unfoldable pub is_admin : UserRow → Bool
unfolding bytes_eq
is_admin u = bytes_eq u.role (codes "admin")

unfoldable pub admins : List UserRow → ℕ
unfolding is_admin
admins [] = 0
admins (u ∷ us) = let rest = admins us in if is_admin u then suc rest else rest

unfoldable pub remove_now : Bytes → Db (Reply Bytes)
unfolding delete_user ◌>>=◌ ◌>>◌
remove_now uname = do delete_user uname; ret (sends uname)

-- DELETE /api/v1/users/<name> for an admin, with all users.
unfoldable pub remove_admin : Bytes → List UserRow → Db (Reply Bytes)
unfolding admins remove_now
remove_admin uname us =
    if leb (admins us) 1
    then ret (fails 409 (codes "cannot delete the last admin"))
    else remove_now uname

-- The same behind the search for the user.
unfoldable pub remove_found : Bytes → Option UserRow → Db (Reply Bytes)
unfolding is_admin remove_admin remove_now users ◌>>=◌
remove_found uname none = ret (fails 404 (codes "no such user"))
remove_found uname (some u) = if is_admin u then users >>= remove_admin uname else remove_now uname

unfoldable pub remove_user : Bytes → Db (Reply Bytes)
unfolding find_user remove_found ◌>>=◌
remove_user uname = do u ← find_user uname; remove_found uname u

-- POST /api/v1/logout: an exception of the database is dropped.
unfoldable pub logout : Bytes → Db Unit
unfolding delete_session
logout sess = if is_empty sess then ret tt else delete_session sess

module _ (hmac : Bytes → Bytes → ℕ → ℕ → Option Bytes) (rand : ℕ → Option Bytes) where
  -- POST /api/v1/login once the password is checked: the token and the user.
  unfoldable pub checked : UserRow → Bool → Db (Reply (Bytes × UserRow))
  unfolding random_hex lifted create_session ◌>>=◌ ◌>>◌
  checked u false = ret (fails 401 (codes "invalid credentials"))
  checked u true = do
    sess ← lifted (random_hex rand 32)
    create_session sess u.id session_ttl
    ret (sends (sess, u))

  unfoldable pub login_found : Result Bytes → Option UserRow → Db (Reply (Bytes × UserRow))
  unfolding lifted verify_password checked ◌>>=◌
  login_found password none = ret (fails 401 (codes "invalid credentials"))
  login_found password (some u) = do
    given ← lifted password
    passes ← lifted (verify_password hmac given u.password_hash)
    checked u passes

  unfoldable pub login : Result Bytes → Result Bytes → Db (Reply (Bytes × UserRow))
  unfolding lifted find_user login_found ◌>>=◌
  login username password = do name ← lifted username; u ← find_user name; login_found password u

  -- POST /api/v1/me/password, with the token of the session.
  unfoldable pub change_checked : SessionInfo → Result Bytes → Bool → Db (Reply Unit)
  unfolding lifted hash_password set_user_password ◌>>=◌ ◌>>◌
  change_checked si new_password false = ret (fails 403 (codes "current password is incorrect"))
  change_checked si new_password true = do
    chosen ← lifted new_password
    hash ← lifted (hash_password hmac rand chosen)
    set_user_password si.username hash false
    ret (sends tt)

  unfoldable pub change_known :
      SessionInfo → Result Bytes → Result Bytes → Option UserRow → Db (Reply Unit)
  unfolding lifted verify_password change_checked ◌>>=◌
  change_known si current new_password none =
      ret (fails 403 (codes "current password is incorrect"))
  change_known si current new_password (some u) = do
    given ← lifted current
    passes ← lifted (verify_password hmac given u.password_hash)
    change_checked si new_password passes

  unfoldable pub change_session : Result Bytes → Result Bytes → Option SessionInfo → Db (Reply Unit)
  unfolding find_user change_known ◌>>=◌
  change_session current new_password none = ret (fails 401 (codes "not logged in"))
  change_session current new_password (some si) = do
    u ← find_user si.username
    change_known si current new_password u

  unfoldable pub change_password : Bytes → Result Bytes → Result Bytes → Db (Reply Unit)
  unfolding validate_session change_session ◌>>=◌
  change_password sess current new_password =
      if is_empty sess
      then change_session current new_password none
      else (do si ← validate_session sess; change_session current new_password si)

  -- POST /api/v1/users.
  unfoldable pub add_missing :
      Bytes → Result Bytes → Bytes → Option UserRow → Db (Reply (Bytes × Bytes))
  unfolding lifted hash_password create_user ◌>>=◌ ◌>>◌
  add_missing uname password role (some u) = ret (fails 409 (codes "user already exists"))
  add_missing uname password role none = do
    chosen ← lifted password
    hash ← lifted (hash_password hmac rand chosen)
    create_user uname hash role false
    ret (sends (uname, role))

  unfoldable pub add_user : Result Bytes → Result Bytes → Bytes → Db (Reply (Bytes × Bytes))
  unfolding lifted find_user add_missing ◌>>=◌
  add_user username password role = do
    uname ← lifted username
    u ← find_user uname
    add_missing uname password role u
