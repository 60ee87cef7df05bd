-- ===== src/Config/Tls.antt =====
-- The certificate's paths of a configuration that loads.
use night_watcher.Base.{
  subst, ok-injective, ℕ, ◌≡◌, refl, false, Option, none, some, [], ◌∷◌, ◌++◌, Bytes, is_empty,
  Result, ok, err, ◌>>=◌, if◌then◌else◌,
}
use night_watcher.Config.{load, with_tls_paths, directory}
use night_watcher.Settings.{Config, LoadState}

append-full : (s : Bytes) (c : ℕ) (t : Bytes) → is_empty (s ++ c ∷ t) ≡ false
append-full [] c t = refl
append-full (b ∷ s) c t = refl

or_default :
    (dir s : Bytes) (c : ℕ) (t : Bytes) → is_empty (if is_empty s then dir ++ c ∷ t else s) ≡ false
or_default dir [] c t = append-full dir c t
or_default dir (b ∷ s) c t = refl

with_tls_paths-set :
    (path : Bytes) (cfg : Config)
    → (is_empty (with_tls_paths path cfg).api_tls_cert ≡ false)
      × (is_empty (with_tls_paths path cfg).api_tls_key ≡ false)
unfolding with_tls_paths
with_tls_paths-set path cfg = (
  or_default (directory path) cfg.api_tls_cert _ _,
  or_default (directory path) cfg.api_tls_key _ _,
)

-- A configuration that loads has a certificate and a key path, whatever the file sets.
pub load-tls_paths :
    (path : Bytes) (file : Option Bytes) (cfg : Config)
    → load path file ≡ ok cfg
    → (is_empty cfg.api_tls_cert ≡ false) × (is_empty cfg.api_tls_key ≡ false)
unfolding load
load-tls_paths path none cfg h = cc
load-tls_paths path (some text) cfg h = by_result _ h
  where
    by_result :
        (r : Result LoadState)
        → (r >>= λ st. ok (with_tls_paths path st.cfg)) ≡ ok cfg
        → (is_empty cfg.api_tls_cert ≡ false) × (is_empty cfg.api_tls_key ≡ false)
    by_result (ok st) e =
        subst (λ c. (is_empty c.api_tls_cert ≡ false) × (is_empty c.api_tls_key ≡ false))
          (ok-injective e) (with_tls_paths-set path st.cfg)
    by_result (err x) e = cc
