-- ===== src/Api/Masking.antt =====
-- Masking hides the secrets, and merging what was masked restores them.
use night_watcher.Base.{
  true, false, some, [], ◌∷◌, ◌≡◌, refl, ap, ap₂, ◌∙◌, Bytes, arith, is_empty, bytes_eq,
  bytes_eq_refl,
}
use night_watcher.Api.SecretNames.{IsSecretName, is_secret_key-name}
use night_watcher.Api.Json.{
  Json, null, boolean, number, string, array, object, Members, no_members, member, key_lt, lookup,
  set, members_of, members_at, mask_members, mask_entry, mask_config_json, merge_items, merge_entry,
  merge_config_json,
}

key_lt_irrefl : (s : Bytes) → key_lt s s ≡ false
unfolding key_lt
key_lt_irrefl [] = refl
key_lt_irrefl (c ∷ s) = ground (arith, key_lt_irrefl s)

key_lt-flip : (s t : Bytes) → key_lt s t ≡ true → (bytes_eq t s ≡ false) × (key_lt t s ≡ false)
unfolding key_lt bytes_eq
key_lt-flip [] [] h = cc
key_lt-flip [] (d ∷ t) h = (refl, refl)
key_lt-flip (c ∷ s) [] h = cc
key_lt-flip (c ∷ s) (d ∷ t) h = ground (arith, key_lt-flip s t)

module _ {N : Type 0} where
  -- Each key of `ms` is behind `k`.
  abbrev pub Above : Bytes → Members N → Type 0
  Above k no_members = Unit
  Above k (member l v ms) = (key_lt k l ≡ true) × Above k ms

  -- The keys of the object and of the objects in it are in order, each once.
  unfoldable mutual
    pub IsSorted : Members N → Type 0
    IsSorted no_members = Unit
    IsSorted (member k v ms) = Above k ms × (IsSortedEntry v × IsSorted ms)

    pub IsSortedEntry : Json N → Type 0
    IsSortedEntry (object ms) = IsSorted ms
    IsSortedEntry null = Unit
    IsSortedEntry (boolean b) = Unit
    IsSortedEntry (number n) = Unit
    IsSortedEntry (string s) = Unit
    IsSortedEntry (array es) = Unit

  -- Every member of `ms` stands in `existing`.
  abbrev Holds : Members N → Members N → Type 0
  Holds existing no_members = Unit
  Holds existing (member k v ms) =
      (lookup k existing ≡ some v) × ((set k v existing ≡ existing) × Holds existing ms)

  Holds-behind :
      (k : Bytes) (v : Json N) (existing ms : Members N)
      → Above k ms
      → Holds existing ms
      → Holds (member k v existing) ms
  unfolding lookup set
  Holds-behind k v existing no_members h hs = tt
  Holds-behind k v existing (member l w ms) h hs =
      let (differs, after) = key_lt-flip k l h.0 in
      rw (differs, after) (hs.0, (ap (member k v) hs.1.0, Holds-behind k v existing ms h.1 hs.1.1))

  Holds-self : (ms : Members N) → IsSorted ms → Holds ms ms
  unfolding lookup set IsSorted
  Holds-self no_members h = tt
  Holds-self (member k v ms) h =
      rw (bytes_eq_refl k) (refl, (refl, Holds-behind k v ms ms h.0 (Holds-self ms h.1.1)))

  at_holds :
      (k : Bytes) (vs existing : Members N)
      → lookup k existing ≡ some (object vs)
      → members_at k existing ≡ vs
  unfolding members_at members_of
  at_holds k vs existing h = rw (members_at, h) refl

  secret_kept :
      (existing : Members N) (k s : Bytes)
      → set k (string s) existing ≡ existing
      → merge_entry existing k (mask_entry k (string s)) ≡ existing
  unfolding merge_entry mask_entry bytes_eq
  secret_kept existing k s e = ground arith

  mutual
    unfolding merge_items merge_entry mask_members mask_entry IsSorted

    merge_items-mask :
        (existing ms : Members N)
        → IsSorted ms
        → Holds existing ms
        → merge_items existing (mask_members ms) ≡ existing
    merge_items-mask existing no_members h hs = refl
    merge_items-mask existing (member k v ms) h hs =
        ap (λ e. merge_items e (mask_members ms)) (merge_entry-mask existing k v h.1.0 hs.0 hs.1.0)
        ∙ merge_items-mask existing ms h.1.1 hs.1.1

    merge_entry-mask :
        (existing : Members N) (k : Bytes) (v : Json N)
        → IsSortedEntry v
        → lookup k existing ≡ some v
        → set k v existing ≡ existing
        → merge_entry existing k (mask_entry k v) ≡ existing
    merge_entry-mask existing k (object vs) h l e =
        ap (λ ms. set k (object (merge_items ms (mask_members vs))) existing)
          (at_holds k vs existing l)
        ∙ ap (λ ms. set k (object ms) existing) (merge_items-mask vs vs h (Holds-self vs h))
        ∙ e
    merge_entry-mask existing k (string s) h l e = secret_kept existing k s e
    merge_entry-mask existing k null h l e = e
    merge_entry-mask existing k (boolean b) h l e = e
    merge_entry-mask existing k (number n) h l e = e
    merge_entry-mask existing k (array es) h l e = e

-- Merging the masked settings back into the settings they were masked from changes nothing: every
-- secret survives. The settings are an object, with the keys of each object in order.
pub merge_config_json-mask :
    {N : Type 0} (ms : Members N)
    → IsSorted ms
    → merge_config_json (object ms) (mask_config_json (object ms)) ≡ object ms
unfolding merge_config_json mask_config_json members_of
merge_config_json-mask ms h = ap object (merge_items-mask ms ms h (Holds-self ms h))

-- The same settings but for texts of members with the name of a secret, none of them blank, at any
-- depth of objects; arrays are the same.
mutual
  pub data AgreePublicly (N : Type 0) : Members N → Members N → Type 0 where
    agree_end : AgreePublicly N no_members no_members
    agree_member :
        {k : Bytes} {v w : Json N} {ms ns : Members N}
        → EntriesAgree N k v w
        → AgreePublicly N ms ns
        → AgreePublicly N (member k v ms) (member k w ns)

  pub data EntriesAgree (N : Type 0) : Bytes → Json N → Json N → Type 0 where
    agree_same : {k : Bytes} {v : Json N} → EntriesAgree N k v v
    agree_inside :
        {k : Bytes} {ms ns : Members N}
        → AgreePublicly N ms ns
        → EntriesAgree N k (object ms) (object ns)
    agree_secret :
        {k s t : Bytes}
        → IsSecretName k
        → is_empty s ≡ false
        → is_empty t ≡ false
        → EntriesAgree N k (string s) (string t)

module _ {N : Type 0} where
  mutual
    unfolding mask_members mask_entry

    mask_members-agree :
        {ms ns : Members N} → AgreePublicly N ms ns → mask_members ms ≡ mask_members ns
    mask_members-agree agree_end = refl
    mask_members-agree (agree_member {k} h hs) =
        ap₂ (member k) (mask_entry-agree h) (mask_members-agree hs)

    mask_entry-agree :
        {k : Bytes} {v w : Json N} → EntriesAgree N k v w → mask_entry k v ≡ mask_entry k w
    mask_entry-agree agree_same = refl
    mask_entry-agree (agree_inside hs) = ap object (mask_members-agree hs)
    mask_entry-agree (agree_secret {k} {s} {t} secret hs ht) =
        rw (is_secret_key-name k secret, hs, ht) refl

-- What is served does not depend on the secrets outside arrays: settings that differ only in the
-- texts, none of them blank, of members whose names hold `key`, `secret`, `password` or `token` in
-- small or capital letters, at any depth of objects, are masked alike. Arrays are served as they are,
-- so settings that differ in one are not covered.
pub mask_config_json-AgreePublicly :
    {N : Type 0} (ms ns : Members N)
    → AgreePublicly N ms ns
    → mask_config_json (object ms) ≡ mask_config_json (object ns)
unfolding mask_config_json
mask_config_json-AgreePublicly ms ns h = ap object (mask_members-agree h)
