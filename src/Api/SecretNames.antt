-- ===== src/Api/SecretNames.antt =====
-- The names of secrets: those that hold one of four words, in small or capital letters.
use night_watcher.Base.{
  ℕ, ◌≤◌, ◌+◌, leb, Bool, ◌&&◌, true, [], ◌∷◌, ◌++◌, ◌≡◌, refl, ap, ap₂, ◌∙◌, ◌⊎◌, inl, inr, Bytes,
  codes, arith, ==_iff, map, All,
}
use night_watcher.Api.Json.{tolower, starts, occurs, is_secret_key}

-- A text is a word in small letters, up to capitals.
abbrev pub InAnyCase : Bytes → Bytes → Type 0
InAnyCase [] [] = Unit {0}
InAnyCase [] (d ∷ word) = ⊥
InAnyCase (c ∷ s) [] = ⊥
InAnyCase (c ∷ s) (d ∷ word) = ((c ≡ d) ⊎ (c + 32 ≡ d)) × InAnyCase s word

abbrev pub HoldsWord : Bytes → Bytes → Type 0
HoldsWord word k = (before w behind : Bytes) × (k ≡ before ++ (w ++ behind)) × InAnyCase w word

abbrev pub IsSecretName : Bytes → Type 0
IsSecretName k =
    HoldsWord (codes "key") k
    ⊎ (HoldsWord (codes "secret") k
        ⊎ (HoldsWord (codes "password") k ⊎ HoldsWord (codes "token") k))

abbrev IsSmall : ℕ → Type 0
IsSmall d = (97 ≤ d) × (d ≤ 122)

tolower-small : (c d : ℕ) → IsSmall d → (c ≡ d) ⊎ (c + 32 ≡ d) → tolower c ≡ d
unfolding tolower
tolower-small c d h (inl e) = ground arith
tolower-small c d h (inr e) = ground arith

tolower-word : (w word : Bytes) → All IsSmall word → InAnyCase w word → map tolower w ≡ word
tolower-word [] [] h i = refl
tolower-word [] (d ∷ word) h i = elim i [ ]
tolower-word (c ∷ w) [] h i = elim i [ ]
tolower-word (c ∷ w) (d ∷ word) h i =
    ap₂ (◌∷◌) (tolower-small c d h.0 i.0) (tolower-word w word h.1 i.1)

starts_self : (t s : Bytes) → starts t (t ++ s) ≡ true
unfolding starts
starts_self [] s = refl
starts_self (c ∷ t) s = rw ((==_iff c c).1 refl, starts_self t s, starts) refl

occurs_first : (t s : Bytes) → starts t s ≡ true → occurs t s ≡ true
unfolding occurs starts
occurs_first [] [] h = refl
occurs_first (c ∷ t) [] h = cc
occurs_first t (d ∷ s) h = rw (h, occurs) refl

occurs_behind : (before t s : Bytes) → occurs t s ≡ true → occurs t (before ++ s) ≡ true
unfolding occurs
occurs_behind [] t s h = h
occurs_behind (c ∷ before) t s h = ground (arith, occurs_behind before t s h)

map-append : (s t : Bytes) → map tolower (s ++ t) ≡ map tolower s ++ map tolower t
map-append [] t = refl
map-append (c ∷ s) t = ap (◌∷◌ (tolower c)) (map-append s t)

holds_word :
    (word k : Bytes) → All IsSmall word → HoldsWord word k → occurs word (map tolower k) ≡ true
holds_word word k h (before, w, behind, e, i) =
    ap (λ t. occurs word (map tolower t)) e
    ∙ ap (occurs word) (
        map-append before (w ++ behind)
        ∙ ap (λ t. map tolower before ++ t)
            (map-append w behind ∙ ap (λ t. t ++ map tolower behind) (tolower-word w word h i)))
    ∙ occurs_behind (map tolower before) word (word ++ map tolower behind)
        (occurs_first word (word ++ map tolower behind) (starts_self word (map tolower behind)))

abbrev all_small : Bytes → Bool
all_small [] = true
all_small (d ∷ word) = leb 97 d && (leb d 122 && all_small word)

all_small-All : (word : Bytes) → all_small word ≡ true → All IsSmall word
all_small-All [] h = tt
all_small-All (d ∷ word) h = ((ground arith, ground arith), all_small-All word (ground arith))

-- Each of these names is taken for a secret's.
pub is_secret_key-name : (k : Bytes) → IsSecretName k → is_secret_key k ≡ true
unfolding is_secret_key
is_secret_key-name k (inl h) =
    ground (arith, holds_word (codes "key") k (all_small-All (codes "key") refl) h)
is_secret_key-name k (inr (inl h)) =
    ground (arith, holds_word (codes "secret") k (all_small-All (codes "secret") refl) h)
is_secret_key-name k (inr (inr (inl h))) =
    ground (arith, holds_word (codes "password") k (all_small-All (codes "password") refl) h)
is_secret_key-name k (inr (inr (inr h))) =
    ground (arith, holds_word (codes "token") k (all_small-All (codes "token") refl) h)
