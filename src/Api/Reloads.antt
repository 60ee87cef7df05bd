-- ===== src/Api/Reloads.antt =====
-- Which edits of a sensor reach the daemon.
use Prim.Native.String.{String}
use night_watcher.Base.{
  true, false, Option, none, ◌≡◌, refl, sym, inl, inr, arith, Option-cases, is_some, Result, ok,
  err, ◌>>=◌, ok-injective, subst, Bytes, codes, ap, ◌∙◌,
}
use night_watcher.Base.Int.{ℤ}
use night_watcher.Api.Json.{Json, lookup, members_of}
use night_watcher.Api.Sensors.{
  patch_reloads, Getters, contains, given, asks_reload, described, polled, members_from_json,
  with_address, sensor_fields_from_json, affects_polling,
}
use night_watcher.Api.Names.{sends}
use night_watcher.Database.Fields.{SensorFields}

module _ {A B : Type 0} where
  bind_ok :
      (m : Result A) (k : A → Result B) (b : B)
      → (m >>= k) ≡ ok b
      → (a : A) × (m ≡ ok a) × (k a ≡ ok b)
  bind_ok (ok a) k b h = (a, refl, h)
  bind_ok (err e) k b h = cc

module _ {N A : Type 0} where
  -- A member that is set was there.
  given-contains :
      (get : Json N → Result A) (k : String) (b : Json N) (o : Option A)
      → given get k b ≡ ok o
      → is_some o ≡ true
      → contains k b ≡ true
  unfolding given contains
  given-contains get k b o h s = elim (Option-cases (lookup (codes k) (members_of b))) [
    | inl e ↦
        let unset = ok-injective (rw (given, e) at h) in
        cc (subst (λ p. is_some p ≡ true) (sym unset) s)
    | inr (v, e) ↦ rw (contains, e) refl
  ]

module _ {N D : Type 0} (getters : Getters N D) where
  abbrev Polled : Type 0
  Polled =
      Option Bytes
      × Option Bytes
      × Option Bytes
      × Option ℤ
      × Option Bytes
      × Option Bytes
      × Option Bytes

  -- Where the members of an edit that polling depends on come from.
  polled_members :
      (b : Json N) (p : Polled)
      → polled getters b ≡ ok p
      → (given getters.get_string "transport" b ≡ ok p.1)
        × (given getters.get_string "address" b ≡ ok p.2)
        × (given getters.get_int "poll_interval_s" b ≡ ok p.3)
        × (given getters.get_string "status" b ≡ ok p.4)
  unfolding polled
  polled_members b p h0 =
      let (v0, e0, h1) = bind_ok (given getters.get_string "timezone" b) _ p h0 in
      let (v1, e1, h2) = bind_ok (given getters.get_string "transport" b) _ p h1 in
      let (v2, e2, h3) = bind_ok (given getters.get_string "address" b) _ p h2 in
      let (v3, e3, h4) = bind_ok (given getters.get_int "poll_interval_s" b) _ p h3 in
      let (v4, e4, h5) = bind_ok (given getters.get_string "status" b) _ p h4 in
      let (v5, e5, h6) = bind_ok (given getters.get_string "installed_at" b) _ p h5 in
      let (v6, e6, h7) = bind_ok (given getters.get_string "notes" b) _ p h6 in
      let same = ok-injective h7 in
      (
        e1 ∙ ap (λ q. ok q.1) same,
        e2 ∙ ap (λ q. ok q.2) same,
        e3 ∙ ap (λ q. ok q.3) same,
        e4 ∙ ap (λ q. ok q.4) same,
      )

  polling_members :
      (b : Json N) (f : SensorFields D)
      → members_from_json getters b ≡ ok f
      → (given getters.get_string "transport" b ≡ ok f.transport)
        × (given getters.get_string "address" b ≡ ok f.address)
        × (given getters.get_int "poll_interval_s" b ≡ ok f.poll_interval_s)
        × (given getters.get_string "status" b ≡ ok f.status)
  unfolding members_from_json
  polling_members b f h =
      let (d, _, h1) = bind_ok (described getters b) _ f h in
      let (p, e, h2) = bind_ok (polled getters b) _ f h1 in
      let (transport, address, interval, status) = polled_members b p e in
      let same = ok-injective h2 in
      (
        transport ∙ ap (λ g. ok g.transport) same,
        address ∙ ap (λ g. ok g.address) same,
        interval ∙ ap (λ g. ok g.poll_interval_s) same,
        status ∙ ap (λ g. ok g.status) same,
      )

  polling_asks :
      (b : Json N) (f : SensorFields D)
      → members_from_json getters b ≡ ok f
      → affects_polling f ≡ true
      → asks_reload b ≡ true
  unfolding affects_polling asks_reload
  polling_asks b f h k =
      let (transport, address, interval, status) = polling_members b f h in
      ground (
        arith,
        given-contains getters.get_string "transport" b f.transport transport,
        given-contains getters.get_string "address" b f.address address,
        given-contains getters.get_int "poll_interval_s" b f.poll_interval_s interval,
        given-contains getters.get_string "status" b f.status status,
      )

  given_absent :
      (k : String) (b : Json N) → contains k b ≡ false → given getters.get_string k b ≡ ok none
  unfolding given contains
  given_absent k b h = elim (Option-cases (lookup (codes k) (members_of b))) [
    | inl e ↦ rw (given, e) refl
    | inr (v, e) ↦ cc (rw (contains, e) at h)
  ]

  plain_members :
      (b : Json N) (f : SensorFields D)
      → sensor_fields_from_json getters b ≡ ok f
      → contains "tcp" b ≡ false
      → contains "serial" b ≡ false
      → members_from_json getters b ≡ ok f
  unfolding sensor_fields_from_json with_address
  plain_members b f h tcp serial =
      let (g, e, h1) = bind_ok (members_from_json getters b) _ f h in
      e ∙ rw (given_absent "tcp" b tcp, given_absent "serial" b serial) at h1

-- An edit of a sensor that the API accepts and that sets how or how often the sensor is polled (its
-- interval, transport, address or status) makes the handler ask the daemon to reload, once it has
-- been stored. The edit does not use the keys `tcp` and `serial`, for which the handler does not
-- ask.
pub patch_reloads-accepted :
    {N D A : Type 0} (getters : Getters N D) (b : Json N) (f : SensorFields D) (stored : A)
    → sensor_fields_from_json getters b ≡ ok f
    → affects_polling f ≡ true
    → contains "tcp" b ≡ false
    → contains "serial" b ≡ false
    → patch_reloads b (ok (sends stored)) ≡ true
unfolding patch_reloads
patch_reloads-accepted getters b f stored h k tcp serial =
    polling_asks getters b f (plain_members getters b f h tcp serial) k
