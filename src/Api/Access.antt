-- ===== src/Api/Access.antt =====
-- src/api/http_server.cpp: who may do what. A request is what the code reads of it; a header that
-- is absent is empty. `attempt` opens a connection and runs a program on it.
use night_watcher.Base.{
  ℕ, zero, suc, ◌+◌, Bool, false, not, ◌&&◌, ◌||◌, Option, none, some, [], ◌++◌, ◌==◌,
  if◌then◌else◌, Bytes, codes, is_empty, bytes_eq, length, drop, Result, ok, err,
}
use night_watcher.Text.{cut, drop_while}
use night_watcher.Database.{Db}
use night_watcher.Database.RowTypes.{SessionInfo}
use night_watcher.Database.Accounts.{validate_session}
use night_watcher.Api.Json.{starts}

pub record Request : Type 0 where
  pub path : Bytes
  pub authorization : Bytes
  pub cookie : Bytes

-- The set " \t".
unfoldable pub is_gap : ℕ → Bool
is_gap c = c == b' ' || c == 9

-- The loop of get_cookie on what is left of the header, which each round shortens.
unfoldable pub cookie_from : ℕ → Bytes → Bytes → Bytes
unfolding cut drop_while is_gap
cookie_from zero name c = []
cookie_from (suc fuel) name c = elim (cut b'=' c) [
  | none ↦ []
  | some (before, behind) ↦ elim (cut b';' behind) [
    | none ↦ if bytes_eq (drop_while is_gap before) name then behind else []
    | some (val, rest) ↦
        let later = cookie_from fuel name rest in
        if bytes_eq (drop_while is_gap before) name then val else later
  ]
]

unfoldable pub get_cookie : Bytes → Bytes → Bytes
unfolding cookie_from
get_cookie c name = cookie_from (length c + 1) name c

unfoldable pub session_token : Request → Bytes
unfolding get_cookie starts
session_token req =
    let sess = get_cookie req.cookie (codes "nw_session") in
    if is_empty sess
    then (if starts (codes "Bearer ") req.authorization then drop 7 req.authorization else [])
    else sess

unfoldable pub is_api_token : Bytes → Bytes → Bool
unfolding bytes_eq
is_api_token token h =
    not (is_empty token) && (bytes_eq h token || bytes_eq h (codes "Bearer " ++ token))

pub data Access : Type 0 where
  granted : Access
  denied : (status : ℕ) (message : Bytes) → Access

-- What a session may do; `none` where the database knows no valid one or fails.
unfoldable pub session_access : Bool → Result (Option SessionInfo) → Access
unfolding bytes_eq
session_access need_admin (ok (some si)) =
    if need_admin && not (bytes_eq si.role (codes "admin"))
    then denied 403 (codes "admin role required")
    else granted
session_access need_admin (ok none) = denied 401 (codes "unauthorized")
session_access need_admin (err e) = denied 401 (codes "unauthorized")

-- The caller's name for the audit trail.
unfoldable pub session_user : Result (Option SessionInfo) → Bytes
session_user (ok (some si)) = si.username
session_user (ok none) = []
session_user (err e) = []

unfoldable pub is_public : Bytes → Bool
unfolding bytes_eq
is_public path =
    bytes_eq path (codes "/api/v1/login")
    || (bytes_eq path (codes "/api/v1/logout")
        || (bytes_eq path (codes "/api/v1/me")
            || (bytes_eq path (codes "/api/v1/version") || bytes_eq path (codes "/api/v1/health"))))

module _ (attempt : Db (Option SessionInfo) → Result (Option SessionInfo)) (token : Bytes) where
  unfoldable pub require_auth : Bool → Request → Access
  unfolding is_api_token session_token session_access validate_session
  require_auth need_admin req =
      if is_api_token token req.authorization
      then granted
      else if is_empty (session_token req)
      then denied 401 (codes "unauthorized")
      else session_access need_admin (attempt (validate_session (session_token req)))

  unfoldable pub auth_user : Request → Bytes
  unfolding is_api_token session_token session_user validate_session
  auth_user req =
      if is_api_token token req.authorization
      then codes "api-token"
      else if is_empty (session_token req)
      then []
      else session_user (attempt (validate_session (session_token req)))

  -- The handler in front of the routes, where the server is reachable from outside: `granted` is
  -- HandlerResponse::Unhandled, on to the routes.
  unfoldable pub pre_routing : Request → Access
  unfolding starts is_public require_auth
  pre_routing req =
      if not (starts (codes "/api/v1/") req.path)
      then granted
      else if is_public req.path
      then granted
      else require_auth false req
