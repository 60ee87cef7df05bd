-- ===== src/Api/Logins.antt =====
-- Who signs in, and that an admin stays.
use night_watcher.Base.{
  All, bytes_eq, bytes_eq_iff, Bool-cases, ℕ, ◌≤◌, Bool, true, false, Option, some, List, [], ◌∷◌,
  ◌≡◌, refl, ◌≢◌, ◌⊎◌, inl, inr, Bytes, codes, arith, ok, err, Exception, Result-cases, ap, ◌∙◌,
}
use night_watcher.Auth.{
  k_iterations, k_salt_len, k_hash_len, pbkdf2, hash_password, verify_password, random_hex,
}
use night_watcher.Auth.Verify.{Fills, verify-hash_password}
use night_watcher.Api.Names.{fails, sends}
use night_watcher.Api.Users.{
  lifted, checked, login_found, is_admin, admins, remove_found, session_ttl,
}
use night_watcher.Api.Users
use night_watcher.Database.{
  Answer, accepted, ResultSet, ret, throw, ◌>>=◌, ◌>>◌, run, all_rows, exec, answered, select,
  store_result,
}
use night_watcher.Database.Rows.{user_from_row}
use night_watcher.Database.RowTypes.{UserRow}
use night_watcher.Database.Accounts.{create_session, users}
use night_watcher.Database.RoundTrip.{answer_next}

-- What becomes of a sign-in whose password has been tested.
login_tested :
    (hmac : Bytes → Bytes → ℕ → ℕ → Option Bytes) (rand : ℕ → Option Bytes) (given : Bytes)
    (u : UserRow) (b : Bool)
    → verify_password hmac given u.password_hash ≡ ok b
    → login_found hmac rand (ok given) (some u) ≡ checked hmac rand u b
unfolding login_found lifted ◌>>=◌
login_tested hmac rand given u b h = rw h refl

login_thrown :
    (hmac : Bytes → Bytes → ℕ → ℕ → Option Bytes) (rand : ℕ → Option Bytes) (given : Bytes)
    (u : UserRow) (e : Exception)
    → verify_password hmac given u.password_hash ≡ err e
    → login_found hmac rand (ok given) (some u) ≡ throw e
unfolding login_found lifted ◌>>=◌
login_thrown hmac rand given u e h = rw h refl

-- Signing in with `other` as a user whose stored password is what hash_password wrote for
-- `password`. If the two give the same digest under the salt that was written, the sign-in stores a
-- new session for the user and answers with it, once a token can be drawn; if not, it stores no
-- session: it is refused or throws. The C functions fill the buffers that they are given.
pub login_found-hash_password :
    (hmac : Bytes → Bytes → ℕ → ℕ → Option Bytes) (rand : ℕ → Option Bytes)
    (password other sess : Bytes) (u : UserRow)
    → Fills (rand k_salt_len) k_salt_len
    → ((pw salt : Bytes) → Fills (hmac pw salt k_iterations k_hash_len) k_hash_len)
    → hash_password hmac rand password ≡ ok u.password_hash
    → random_hex rand 32 ≡ ok sess
    → (salt : Bytes) × (rand k_salt_len ≡ some salt)
      × ((pbkdf2 hmac other salt k_iterations k_hash_len
            ≡ pbkdf2 hmac password salt k_iterations k_hash_len)
          → login_found hmac rand (ok other) (some u)
            ≡ (create_session sess u.id session_ttl >> ret (sends (sess, u))))
      × ((pbkdf2 hmac other salt k_iterations k_hash_len
            ≢ pbkdf2 hmac password salt k_iterations k_hash_len)
          → (login_found hmac rand (ok other) (some u)
              ≡ ret (fails 401 (codes "invalid credentials")))
            ⊎ ((e : Exception) × (login_found hmac rand (ok other) (some u) ≡ throw e)))
unfolding checked lifted ◌>>=◌
login_found-hash_password hmac rand password other sess u fr fh h token =
    let (salt, drawn, iff) =
      verify-hash_password hmac rand password other u.password_hash fr fh h in
    (
      salt,
      drawn,
      (λ same. login_tested hmac rand other u true (iff.1 same) ∙ rw token refl),
      λ differs. elim (Result-cases (verify_password hmac other u.password_hash)) [
        | inr (e, f) ↦ inr (e, login_thrown hmac rand other u e f)
        | inl (true, f) ↦ absurd (differs (iff.0 f))
        | inl (false, f) ↦ inl (login_tested hmac rand other u false f)
      ],
    )

refused :
    (uname : Bytes) (us : List UserRow)
    → admins us ≤ 1
    → Users.remove_admin uname us ≡ ret (fails 409 (codes "cannot delete the last admin"))
unfolding Users.remove_admin
refused uname us h = ground arith

-- At most one of the users has the role admin.
abbrev pub AtMostOneAdmin : List UserRow → Type 0
AtMostOneAdmin [] = Unit {0}
AtMostOneAdmin (u ∷ us) =
    ((u.role ≡ codes "admin") × All (λ v. v.role ≢ codes "admin") us)
    ⊎ ((u.role ≢ codes "admin") × AtMostOneAdmin us)

is_admin-role : (u : UserRow) → u.role ≡ codes "admin" → is_admin u ≡ true
unfolding is_admin
is_admin-role u e = (bytes_eq_iff u.role (codes "admin")).1 e

is_admin-other : (u : UserRow) → u.role ≢ codes "admin" → is_admin u ≡ false
unfolding is_admin
is_admin-other u h = elim (Bool-cases (bytes_eq u.role (codes "admin"))) [
  | inl e ↦ absurd (h ((bytes_eq_iff u.role (codes "admin")).0 e))
  | inr e ↦ e
]

admins-none : (us : List UserRow) → All (λ v. v.role ≢ codes "admin") us → admins us ≡ 0
unfolding admins
admins-none [] h = refl
admins-none (u ∷ us) h = rw (is_admin-other u h.0) (admins-none us h.1)

admins_le_one : (us : List UserRow) → AtMostOneAdmin us → admins us ≤ 1
unfolding admins
admins_le_one [] h = omega arith
admins_le_one (u ∷ us) (inl h) = rw (is_admin-role u h.0) (omega (arith, admins-none us h.1))
admins_le_one (u ∷ us) (inr h) = rw (is_admin-other u h.0) (admins_le_one us h.1)

-- The last admin stays: where the user to delete has the role admin, and at most one user of the
-- table that the server then shows has it, the request is answered with 409 and no statement
-- follows, whatever the server would say next.
pub remove_found-last_admin :
    (esc : Bytes → Bytes) (uname : Bytes) (u : UserRow) (res : ResultSet) (later : List Answer)
    → u.role ≡ codes "admin"
    → AtMostOneAdmin (all_rows user_from_row res)
    → run esc answer_next (remove_found uname (some u)) (accepted (some res) [] 0 0 ∷ later)
      ≡ (ok (fails 409 (codes "cannot delete the last admin")), later)
unfolding remove_found Users.remove_admin run answer_next users select exec answered store_result
    ◌>>=◌
remove_found-last_admin esc uname u res later admin few = rw (is_admin-role u admin) (
    ap (λ m. run esc answer_next m later)
      (refused uname (all_rows user_from_row res) (admins_le_one (all_rows user_from_row res) few)))
