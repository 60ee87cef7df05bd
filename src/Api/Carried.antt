-- ===== src/Api/Carried.antt =====
-- What a request carries, told without the tests of the code: a token, a session, a path.
use night_watcher.Base.{
  Bool, true, false, not, Option, some, ◌≡◌, refl, ◌↔◌, ◌⊎◌, inl, inr, Bytes, codes, arith,
  is_empty, bytes_eq_iff, Bool-cases, Result, ok, sym, if◌then◌else◌, List, [], ◌∷◌, ◌++◌, ◌∙◌, ap,
  ap₂, ◌&&◌, ◌||◌, ==_iff, drop,
}
use night_watcher.Database.{Db}
use night_watcher.Database.RowTypes.{SessionInfo}
use night_watcher.Database.Accounts.{validate_session}
use night_watcher.Api.Json.{starts}
use night_watcher.Api.Cookies.{Cookie, value_of}
use night_watcher.Api.Access.{is_api_token, is_public}

-- The static token is set, and the Authorization header is it, with or without `Bearer `.
abbrev pub CarriesStatic : Bytes → Bytes → Type 0
CarriesStatic token authorization =
    (is_empty token ≡ false)
    × ((authorization ≡ token) ⊎ (authorization ≡ codes "Bearer " ++ token))

-- The session's token is the first cookie nw_session, or, where that is missing or empty, what stands
-- behind `Bearer `.
abbrev pub CarriesSession : List Cookie → Bytes → Bytes → Type 0
CarriesSession cookies authorization t =
    (is_empty t ≡ false)
    × ((value_of (codes "nw_session") cookies ≡ t)
        ⊎ ((value_of (codes "nw_session") cookies ≡ []) × (authorization ≡ codes "Bearer " ++ t)))

-- The request carries the static token, or the token of a session that the database knows and
-- whose role suffices.
abbrev pub IsAuthorized :
    (Db (Option SessionInfo) → Result (Option SessionInfo))
    → Bytes
    → Bool
    → List Cookie
    → Bytes
    → Type 0
IsAuthorized attempt token need_admin cookies authorization =
    CarriesStatic token authorization
    ⊎ ((t : Bytes) × CarriesSession cookies authorization t
        × (si : SessionInfo) × (attempt (validate_session t) ≡ ok (some si))
        × ((need_admin ≡ false) ⊎ (si.role ≡ codes "admin")))

-- The path is under `/api/v1/`.
abbrev pub IsInApi : Bytes → Type 0
IsInApi path = (rest : Bytes) × (path ≡ codes "/api/v1/" ++ rest)

abbrev pub IsPublic : Bytes → Type 0
IsPublic path =
    (path ≡ codes "/api/v1/login")
    ⊎ ((path ≡ codes "/api/v1/logout")
        ⊎ ((path ≡ codes "/api/v1/me")
            ⊎ ((path ≡ codes "/api/v1/version") ⊎ (path ≡ codes "/api/v1/health"))))

starts_sound : (p s : Bytes) → starts p s ≡ true → (rest : Bytes) × (s ≡ p ++ rest)
unfolding starts
starts_sound [] s h = (s, refl)
starts_sound (c ∷ p) [] h = cc
starts_sound (c ∷ p) (d ∷ s) h =
    let (rest, e) = starts_sound p s (ground arith) in (rest, ap₂ (◌∷◌) (ground arith) e)

starts_complete : (p rest : Bytes) → starts p (p ++ rest) ≡ true
unfolding starts
starts_complete [] rest = refl
starts_complete (c ∷ p) rest = rw ((==_iff c c).1 refl, starts_complete p rest, starts) refl

or_iff :
    {P Q : Type 0} (a b : Bool) → ((a ≡ true) ↔ P) → ((b ≡ true) ↔ Q) → ((a || b) ≡ true) ↔ (P ⊎ Q)
or_iff true b (f, g) k = (λ _. inl (f refl), λ _. refl)
or_iff false b (f, g) (h, k) = (λ e. inr (h e), λ p. elim p [ inl x ↦ cc (g x) | inr y ↦ k y ])

pub is_public_iff : (path : Bytes) → (is_public path ≡ true) ↔ IsPublic path
unfolding is_public
is_public_iff path = or_iff _ _ (bytes_eq_iff path (codes "/api/v1/login")) (
    or_iff _ _ (bytes_eq_iff path (codes "/api/v1/logout")) (
      or_iff _ _ (bytes_eq_iff path (codes "/api/v1/me")) (
        or_iff _ _ (bytes_eq_iff path (codes "/api/v1/version"))
          (bytes_eq_iff path (codes "/api/v1/health")))))

pub IsInApi-iff : (path : Bytes) → (starts (codes "/api/v1/") path ≡ false) ↔ (¬ IsInApi path)
IsInApi-iff path = (
  λ h p. cc (h, ap (starts (codes "/api/v1/")) p.1, starts_complete (codes "/api/v1/") p.0),
  λ n. elim (Bool-cases (starts (codes "/api/v1/") path)) [
    | inl e ↦ absurd (n (starts_sound (codes "/api/v1/") path e))
    | inr e ↦ e
  ],
)

pub is_api_token_iff : (token h : Bytes) → (is_api_token token h ≡ true) ↔ CarriesStatic token h
unfolding is_api_token
is_api_token_iff token h =
    by_token (is_empty token)
      (or_iff _ _ (bytes_eq_iff h token) (bytes_eq_iff h (codes "Bearer " ++ token)))
  where
    by_token :
        {b : Bool} {P : Type 0} (e : Bool)
        → ((b ≡ true) ↔ P)
        → ((not e && b) ≡ true) ↔ ((e ≡ false) × P)
    by_token true k = (λ h. cc, λ p. cc (p.0))
    by_token false (f, g) = (λ h. (refl, f h), λ p. g p.1)

-- The token that session_token takes, for the cookie's value.
pub chosen_iff :
    (v authorization t : Bytes)
    → is_empty t ≡ false
    → ((if is_empty v
          then (if starts (codes "Bearer ") authorization then drop 7 authorization else [])
          else v)
        ≡ t)
      ↔ ((v ≡ t) ⊎ ((v ≡ []) × (authorization ≡ codes "Bearer " ++ t)))
chosen_iff (c ∷ v) authorization t full = (λ h. inl h, λ p. elim p [ inl e ↦ e | inr q ↦ cc (q.0) ])
chosen_iff [] authorization t full = elim (Bool-cases (starts (codes "Bearer ") authorization)) [
  | inl e ↦
      let (rest, q) = starts_sound (codes "Bearer ") authorization e in
      (
        λ h. inr (refl, q ∙ ap (λ u. codes "Bearer " ++ u) (sym (ap (drop 7) q) ∙ rw e at h)),
        λ p. elim p [ inl x ↦ absurd (nonempty x) | inr y ↦ rw e (ap (drop 7) y.1) ],
      )
  | inr e ↦ (
    λ h. absurd (nonempty (rw e at h)),
    λ p. elim p [
      | inl x ↦ absurd (nonempty x)
      | inr y ↦ cc (e, ap (starts (codes "Bearer ")) y.1, starts_complete (codes "Bearer ") t)
    ],
  )
]
  where
    nonempty : [] ≡ t → ⊥
    nonempty x = cc (full, ap is_empty x)
