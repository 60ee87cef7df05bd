-- ===== src/Api/Granted.antt =====
-- Exactly who gets through require_auth and the handler in front of the routes.
use night_watcher.Base.{
  Bool, true, false, not, Option, none, some, ◌≡◌, refl, ◌↔◌, ◌⊎◌, inl, inr, Bytes, codes, arith,
  is_empty, bytes_eq, bytes_eq_iff, Bool-cases, Result, ok, err, ok-injective, subst, sym,
  if◌then◌else◌, List, [], ◌++◌, ◌∙◌, ap, All,
}
use night_watcher.Database.{Db}
use night_watcher.Database.RowTypes.{SessionInfo}
use night_watcher.Database.Accounts.{validate_session}
use night_watcher.Api.Json.{starts}
use night_watcher.Api.Cookies.{Cookie, IsCookie, header_of, get_cookie-header_of}
use night_watcher.Api.Access.{
  Request, Access, granted, denied, session_token, get_cookie, is_api_token, session_access,
  require_auth, is_public, pre_routing,
}
use night_watcher.Api.Carried.{
  CarriesSession, IsAuthorized, IsInApi, IsPublic, is_public_iff, IsInApi-iff, is_api_token_iff,
  chosen_iff,
}

abbrev Suffices : Bool → SessionInfo → Type 0
Suffices need_admin si = (need_admin ≡ false) ⊎ (si.role ≡ codes "admin")

session_access_sound :
    (need_admin : Bool) (si : SessionInfo)
    → session_access need_admin (ok (some si)) ≡ granted
    → Suffices need_admin si
unfolding session_access
session_access_sound false si h = inl refl
session_access_sound true si h = elim (Bool-cases (bytes_eq si.role (codes "admin"))) [
  | inl e ↦ inr ((bytes_eq_iff si.role (codes "admin")).0 e)
  | inr e ↦ cc (rw e at h)
]

session_access_complete :
    (need_admin : Bool) (si : SessionInfo)
    → Suffices need_admin si
    → session_access need_admin (ok (some si)) ≡ granted
unfolding session_access
session_access_complete need_admin si (inl e) = rw e refl
session_access_complete need_admin si (inr e) =
    rw ((bytes_eq_iff si.role (codes "admin")).1 e) (ground arith)

some_injective : {A : Type 0} {x y : A} → some x ≡ some y → x ≡ y
some_injective h = cc

session_access_iff :
    (need_admin : Bool) (r : Result (Option SessionInfo))
    → (session_access need_admin r ≡ granted)
      ↔ ((si : SessionInfo) × (r ≡ ok (some si)) × Suffices need_admin si)
unfolding session_access
session_access_iff need_admin (ok (some si)) = (
  λ h. (si, refl, session_access_sound need_admin si h),
  λ p.
      session_access_complete need_admin si
        (subst (Suffices need_admin) (sym (some_injective (ok-injective p.1))) p.2),
)
session_access_iff need_admin (ok none) = (λ h. cc, λ p. cc (p.1))
session_access_iff need_admin (err e) = (λ h. cc, λ p. cc (p.1))

-- The decision of require_auth, for its two tests and what the database says.
decided_iff :
    (by_token no_session need_admin : Bool) (r : Result (Option SessionInfo))
    → ((if by_token
          then granted
          else if no_session
          then denied 401 (codes "unauthorized")
          else session_access need_admin r)
        ≡ granted)
      ↔ ((by_token ≡ true)
          ⊎ ((no_session ≡ false)
              × (si : SessionInfo) × (r ≡ ok (some si))
              × Suffices need_admin si))
decided_iff true no_session need_admin r = (λ h. inl refl, λ p. refl)
decided_iff false true need_admin r = (λ h. cc, λ p. elim p [ inl e ↦ cc | inr q ↦ cc (q.0) ])
decided_iff false false need_admin r =
    let (sound, complete) = session_access_iff need_admin r in
    (
      λ h. let (si, e, suffices) = sound h in inr (refl, si, e, suffices),
      λ p. elim p [ inl e ↦ cc | inr q ↦ complete (q.1, q.2, q.3) ],
    )

gate_iff :
    {P : Type 0} {a : Access} (api public : Bool)
    → ((a ≡ granted) ↔ P)
    → ((if not api then granted else if public then granted else a) ≡ granted)
      ↔ ((api ≡ false) ⊎ ((public ≡ true) ⊎ P))
gate_iff false public h = (λ _. inl refl, λ _. refl)
gate_iff true true h = (λ _. inr (inl refl), λ _. refl)
gate_iff true false (sound, complete) = (
  λ e. inr (inr (sound e)),
  λ p. elim p [ inl e ↦ cc | inr q ↦ elim q [ inl e ↦ cc | inr r ↦ complete r ] ],
)

module _ (attempt : Db (Option SessionInfo) → Result (Option SessionInfo)) (token : Bytes)
    (cookies : List Cookie) (valid : All IsCookie cookies) (path authorization : Bytes) where
  abbrev request : Request
  request = record { path = path; authorization = authorization; cookie = header_of cookies }

  session_token_iff :
      (t : Bytes)
      → is_empty t ≡ false
      → (session_token request ≡ t) ↔ CarriesSession cookies authorization t
  unfolding session_token
  session_token_iff t full =
      let found = get_cookie-header_of cookies (codes "nw_session") valid in
      let (sound, complete) =
        chosen_iff (get_cookie (header_of cookies) (codes "nw_session")) authorization t full in
      (
        λ h. (
          full,
          subst (λ v. (v ≡ t) ⊎ ((v ≡ []) × (authorization ≡ codes "Bearer " ++ t))) found
              (sound h),
        ),
        λ p. complete (
            subst (λ v. (v ≡ t) ⊎ ((v ≡ []) × (authorization ≡ codes "Bearer " ++ t))) (sym found)
              p.1),
      )

  -- A request passes require_auth exactly if it carries the static token, if that is set, or the token
  -- of a session that the database finds valid, whose role is admin where one is needed. A database
  -- that cannot be reached lets no session pass. The session's token is the first cookie nw_session,
  -- or stands behind `Bearer ` where that is missing or empty. The Cookie header is a list of
  -- `name=value` parted by `; `: no name holds `=` or starts with a blank, no value holds `;`.
  pub require_auth_iff :
      (need_admin : Bool)
      → (require_auth attempt token need_admin request ≡ granted)
        ↔ IsAuthorized attempt token need_admin cookies authorization
  unfolding require_auth
  require_auth_iff need_admin =
      let (sound, complete) =
        decided_iff (is_api_token token authorization) (is_empty (session_token request)) need_admin
          (attempt (validate_session (session_token request))) in
      let static = is_api_token_iff token authorization in
      (
        λ h. elim (sound h) [
          | inl e ↦ inl (static.0 e)
          | inr (full, si, known, suffices) ↦ inr (
            session_token request,
            (session_token_iff (session_token request) full).0 refl,
            si,
            known,
            suffices,
          )
        ],
        λ p. elim p [
          | inl e ↦ complete (inl (static.1 e))
          | inr (t, carried, si, known, suffices) ↦
              let same = (session_token_iff t carried.0).1 carried in
              complete (
                inr (
                  ap is_empty same ∙ carried.0,
                  si,
                  ap (λ u. attempt (validate_session u)) same ∙ known,
                  suffices,
                ))
        ],
      )

  -- Where reads need authentication, a request gets to the routes exactly if its path does not start
  -- with `/api/v1/`, or is `/api/v1/` with login, logout, me, version or health behind it, or if it is
  -- authorized without the admin role. The Cookie header is a list of `name=value` parted by `; `: no
  -- name holds `=` or starts with a blank, no value holds `;`.
  pub pre_routing_iff : (pre_routing attempt token request ≡ granted) ↔ (
      (¬ IsInApi path) ⊎ (IsPublic path ⊎ IsAuthorized attempt token false cookies authorization))
  unfolding pre_routing
  pre_routing_iff =
      let (sound, complete) =
        gate_iff (starts (codes "/api/v1/") path) (is_public path) (require_auth_iff false) in
      let api = IsInApi-iff path in
      let public = is_public_iff path in
      (
        λ h. elim (sound h) [
          | inl e ↦ inl (api.0 e)
          | inr (inl e) ↦ inr (inl (public.0 e))
          | inr (inr a) ↦ inr (inr a)
        ],
        λ p. complete (elim p [
          | inl n ↦ inl (api.1 n)
          | inr (inl e) ↦ inr (inl (public.1 e))
          | inr (inr a) ↦ inr (inr a)
        ]),
      )
