-- ===== src/Api/Json.antt =====
-- src/api/http_server.cpp: JSON values and the masking and merging of provider settings. The
-- members of an object stand in the order of their keys, as in std::map. `N` is the type of the
-- numbers.
use night_watcher.Base.{
  ℕ, Bool, true, false, not, ◌&&◌, ◌||◌, Option, none, some, [], ◌∷◌, ◌==◌, if◌then◌else◌, Bytes,
  codes, is_empty, bytes_eq, ltb, leb, ◌+◌, map,
}

mutual
  pub data Json (N : Type 0) : Type 0 where
    null : Json N
    boolean : Bool → Json N
    number : N → Json N
    string : Bytes → Json N
    array : Elements N → Json N
    object : Members N → Json N

  pub data Elements (N : Type 0) : Type 0 where
    no_elements : Elements N
    element : Json N → Elements N → Elements N

  pub data Members (N : Type 0) : Type 0 where
    no_members : Members N
    member : Bytes → Json N → Members N → Members N

-- std::string's `<` on bytes.
unfoldable pub key_lt : Bytes → Bytes → Bool
key_lt [] [] = false
key_lt [] (d ∷ t) = true
key_lt (c ∷ s) [] = false
key_lt (c ∷ s) (d ∷ t) =
    let rest = key_lt s t in if ltb c d then true else if c == d then rest else false

-- tolower in the "C" locale.
unfoldable pub tolower : ℕ → ℕ
tolower c = if leb b'A' c && leb c b'Z' then c + 32 else c

unfoldable pub starts : Bytes → Bytes → Bool
starts [] s = true
starts (c ∷ t) [] = false
starts (c ∷ t) (d ∷ s) = c == d && starts t s

-- `s.find(t) != npos`.
unfoldable pub occurs : Bytes → Bytes → Bool
unfolding starts
occurs t [] = is_empty t
occurs t (c ∷ s) = starts t (c ∷ s) || occurs t s

unfoldable pub is_secret_key : Bytes → Bool
unfolding tolower occurs
is_secret_key k =
    let lk = map tolower k in
    occurs (codes "key") lk
    || (occurs (codes "secret") lk || (occurs (codes "password") lk || occurs (codes "token") lk))

abbrev pub stars : Bytes
stars = codes "***"

module _ {N : Type 0} where
  -- `j.contains(k) ? j[k] : ...`.
  unfoldable pub lookup : Bytes → Members N → Option (Json N)
  lookup k no_members = none
  lookup k (member l v ms) = let rest = lookup k ms in if bytes_eq k l then some v else rest

  -- `j[k] = v`.
  unfoldable pub set : Bytes → Json N → Members N → Members N
  unfolding key_lt
  set k v no_members = member k v no_members
  set k v (member l w ms) =
      let rest = set k v ms in
      if bytes_eq k l
      then member l v ms
      else if key_lt k l
      then member k v (member l w ms)
      else member l w rest

  -- The members, none where the value is no object.
  unfoldable pub members_of : Json N → Members N
  members_of (object ms) = ms
  members_of _ = no_members

  unfoldable pub members_at : Bytes → Members N → Members N
  unfolding lookup members_of
  members_at k ms = elim (lookup k ms) [ none ↦ no_members | some v ↦ members_of v ]

  -- The loop of mask_config_json: `out` gets the keys in the order in which `c` has them.
  unfoldable mutual
    pub mask_members : Members N → Members N
    mask_members no_members = no_members
    mask_members (member k v ms) = member k (mask_entry k v) (mask_members ms)

    pub mask_entry : Bytes → Json N → Json N
    mask_entry k (object ms) = object (mask_members ms)
    mask_entry k (string s) = if is_secret_key k && not (is_empty s) then string stars else string s
    mask_entry k null = null
    mask_entry k (boolean b) = boolean b
    mask_entry k (number n) = number n
    mask_entry k (array es) = array es

  unfoldable pub mask_config_json : Json N → Json N
  unfolding mask_members
  mask_config_json (object ms) = object (mask_members ms)
  mask_config_json c = c

  -- The loop of merge_config_json over the items of `incoming`.
  unfoldable mutual
    pub merge_items : Members N → Members N → Members N
    merge_items existing no_members = existing
    merge_items existing (member k v ms) = merge_items (merge_entry existing k v) ms

    pub merge_entry : Members N → Bytes → Json N → Members N
    merge_entry existing k (object vs) =
        set k (object (merge_items (members_at k existing) vs)) existing
    merge_entry existing k (string s) =
        if is_secret_key k && (is_empty s || bytes_eq s stars)
        then existing
        else set k (string s) existing
    merge_entry existing k null = set k null existing
    merge_entry existing k (boolean b) = set k (boolean b) existing
    merge_entry existing k (number n) = set k (number n) existing
    merge_entry existing k (array es) = set k (array es) existing

  unfoldable pub merge_config_json : Json N → Json N → Json N
  unfolding members_of merge_items
  merge_config_json existing (object ms) = object (merge_items (members_of existing) ms)
  merge_config_json existing _ = object (members_of existing)

  -- mask_config and merge_config on the stored text; `parse` and `dump` are the JSON library's,
  -- `none` where json::parse throws.
  unfoldable pub mask_config : (Bytes → Option (Json N)) → Bytes → Json N
  unfolding mask_config_json members_of
  mask_config parse config_json =
      if is_empty config_json then object no_members else elim (parse config_json) [
        | none ↦ object no_members
        | some c ↦ mask_config_json (object (members_of c))
      ]

  unfoldable pub merge_config :
      (Bytes → Option (Json N)) → (Json N → Bytes) → Bytes → Json N → Bytes
  unfolding merge_config_json
  merge_config parse dump existing_json incoming =
      if is_empty existing_json
      then dump (merge_config_json (object no_members) incoming)
      else elim (parse existing_json) [
        | none ↦ dump (merge_config_json (object no_members) incoming)
        | some c ↦ dump (merge_config_json c incoming)
      ]
