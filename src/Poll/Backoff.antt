-- ===== src/Poll/Backoff.antt =====
-- The waits between polls: bounded, and doubling while the device fails.
use native.Mathlib.Nat.{pow-suc}
use night_watcher.Base.{
  ℕ, zero, suc, ◌*◌, ◌^◌, ◌≤◌, min, ◌≡◌, refl, ap, ap₂, ◌∙◌, List, [], ◌∷◌, map, arith, err,
  Exception, Bool, true, false, length, All, if◌then◌else◌,
}
use night_watcher.Poll.{Policy, WorkerState, Cycle, initial, cycle, run}

pub record IsValid (policy : Policy) (s : WorkerState) : Type 0 where
  pub first_pos : 1 ≤ policy.first_backoff
  pub first_le : policy.first_backoff ≤ policy.max_backoff
  pub low : policy.first_backoff ≤ s.backoff
  pub high : s.backoff ≤ policy.max_backoff

-- The waits of consecutive failures, from the k-th on.
abbrev pub doubling : Policy → ℕ → ℕ → ℕ → List ℕ
doubling policy interval k zero = []
doubling policy interval k (suc n) =
    min interval (min (policy.first_backoff * 2 ^ k) policy.max_backoff)
    ∷ doubling policy interval (suc k) n

-- What stands behind a test for the end of the loop.
pub All-unless {ℓ κ} :
    {A : Type ℓ} (P : A → Type κ) (b : Bool) (xs : List A) → All P xs → All P (if b then [] else xs)
All-unless P true xs h = tt
All-unless P false xs h = h

pub map_unless {ℓ κ} :
    {A : Type ℓ} {B : Type κ} (f : A → B) (b : Bool) (xs : List A)
    → b ≡ false
    → map f (if b then [] else xs) ≡ map f xs
map_unless f true xs h = cc
map_unless f false xs h = refl

double :
    (policy : Policy) (k b : ℕ)
    → b ≡ min (policy.first_backoff * 2 ^ k) policy.max_backoff
    → min (b * 2) policy.max_backoff ≡ min (policy.first_backoff * 2 ^ suc k) policy.max_backoff
double policy k b h =
    omega (arith, pow-suc 2 k, ap (λ (p : ℕ). policy.first_backoff * p) (pow-suc 2 k))

module _ {A : Type 0} (policy : Policy) (interval : ℕ) where
  cycle-IsValid :
      (s : WorkerState) (c : Cycle A)
      → IsValid policy s
      → 1 ≤ interval
      → IsValid policy (cycle policy interval s c).state
        × (1 ≤ (cycle policy interval s c).wait_s)
        × ((cycle policy interval s c).wait_s ≤ interval)
  unfolding cycle
  cycle-IsValid s c v i = ground arith

  -- Every wait of a worker is at least a second and at most its interval, and its backoff stays
  -- between the first and the greatest.
  pub run-waits-bounded :
      (s : WorkerState) (cycles : List (Cycle A))
      → IsValid policy s
      → 1 ≤ interval
      → All
          (λ o. IsValid policy o.state × (1 ≤ o.wait_s) × (o.wait_s ≤ interval))
          (run policy interval s cycles)
  unfolding run
  run-waits-bounded s [] v i = tt
  run-waits-bounded s (c ∷ cycles) v i =
      let kept = cycle-IsValid s c v i in
      (
        kept,
        All-unless _ c.stop_requested _
            (run-waits-bounded (cycle policy interval s c).state cycles kept.0 i),
      )

  abbrev pub Fails : Cycle A → Type 0
  Fails c = ((e : Exception) × (c.poll ≡ err e)) × (c.stop_requested ≡ false)

  failing :
      (s : WorkerState) (c : Cycle A) (e : Exception)
      → c.poll ≡ err e
      → ((cycle policy interval s c).wait_s ≡ min interval s.backoff)
        × ((cycle policy interval s c).state.backoff ≡ min (s.backoff * 2) policy.max_backoff)
  unfolding cycle
  failing s c e h = ground arith

  run-doubling :
      (k : ℕ) (s : WorkerState) (cycles : List (Cycle A))
      → s.backoff ≡ min (policy.first_backoff * 2 ^ k) policy.max_backoff
      → All Fails cycles
      → map (λ o. o.wait_s) (run policy interval s cycles)
        ≡ doubling policy interval k (length cycles)
  unfolding run
  run-doubling k s [] b h = refl
  run-doubling k s (c ∷ cycles) b (((e, fails), goes_on), more) =
      let (wait, backoff) = failing s c e fails in
      ap₂ ◌∷◌ (wait ∙ ap (min interval) b) (
        map_unless _ c.stop_requested _ goes_on
        ∙ run-doubling (suc k) (cycle policy interval s c).state cycles
            (backoff ∙ double policy k s.backoff b) more)

  -- A device that keeps failing is polled again after first, 2 first, 4 first, … seconds, cut off at
  -- the greatest backoff and at the interval.
  pub run-waits-doubling :
      (cycles : List (Cycle A))
      → policy.first_backoff ≤ policy.max_backoff
      → All Fails cycles
      → map (λ o. o.wait_s) (run policy interval (initial policy) cycles)
        ≡ doubling policy interval 0 (length cycles)
  unfolding initial
  run-waits-doubling cycles le = run-doubling 0 (initial policy) cycles (omega arith)
