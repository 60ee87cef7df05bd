-- ===== src/Sqm/Discovery/Pool.antt =====
-- src/sqm/discovery.cpp: the pool of threads that `discover` and `discover_serial` start. A turn is
-- what a worker does between two points where another may run: taking the next index, or probing
-- and storing what it finds; a schedule says which worker takes each turn.
pub mod Ended
pub mod Balance
use night_watcher.Base.{
  ℕ, zero, suc, ◌+◌, Bool, true, false, List, [], ◌∷◌, ◌++◌, if◌then◌else◌, ltb, leb, Bytes, length,
  get_or, Result, ok, err, ◌>>=◌, replicate, min, max,
}

pub data Worker : Type 0 where
  idle returned : Worker
  probing : ℕ → Worker

pub record Pool (F : Type 0) : Type 0 where
  pub next : ℕ
  pub workers : List Worker
  pub results : List F

-- `std::max(1, std::min(concurrency, hosts))`, for a concurrency that is not negative.
unfoldable pub nthreads : ℕ → ℕ → ℕ
nthreads concurrency count = max 1 (min concurrency count)

unfoldable pub start : {F : Type 0} → ℕ → ℕ → Pool F
unfolding nthreads
start concurrency count = record {
  next = 0;
  workers = replicate (nthreads concurrency count) idle;
  results = [];
}

module _ {I : Type 0} (probe : Bytes → Result I) where
  -- What one host adds to the results; `probe` is what opening and asking it comes to: a UnitInfo, or
  -- an exception.
  unfoldable pub found : Bytes → List (Bytes × I)
  found host = elim (probe host) [ err e ↦ [] | ok info ↦ (host, info) ∷ [] ]

module _ {I : Type 0} (probe : Bytes → Result I) (hosts : List Bytes) where
  -- The worker behind its turn, with the counter and the results.
  unfoldable pub turn : Worker → ℕ → List (Bytes × I) → Worker × ℕ × List (Bytes × I)
  unfolding found
  turn idle next results =
      (if leb (length hosts) next then returned else probing next, suc next, results)
  turn (probing i) next results = (idle, next, results ++ found probe (get_or hosts i []))
  turn returned next results = (returned, next, results)

  -- The turn of the worker at an index; there is none beyond the last.
  unfoldable pub step_at :
      ℕ → List Worker → ℕ → List (Bytes × I) → List Worker × ℕ × List (Bytes × I)
  unfolding turn
  step_at i [] next results = ([], next, results)
  step_at zero (w ∷ workers) next results =
      let (w', next', results') = turn w next results in (w' ∷ workers, next', results')
  step_at (suc i) (w ∷ workers) next results =
      let (workers', next', results') = step_at i workers next results in
      (w ∷ workers', next', results')

  unfoldable pub step : ℕ → Pool (Bytes × I) → Pool (Bytes × I)
  unfolding step_at
  step i pool =
      let (workers, next, results) = step_at i pool.workers pool.next pool.results in
      record { next = next; workers = workers; results = results }

  unfoldable pub run : List ℕ → Pool (Bytes × I) → Pool (Bytes × I)
  unfolding step
  run [] pool = pool
  run (i ∷ schedule) pool = run schedule (step i pool)

-- The two scans, under a schedule behind which the threads have been joined. std::sort is a parameter,
-- with the order that each scan asks for.
module _ {I : Type 0} (probe : Bytes → Result I) (sort : List (Bytes × I) → List (Bytes × I))
    (schedule : List ℕ) where
  unfoldable pub discover :
      (hosts : Result (List Bytes)) → (concurrency : ℕ) → Result (List (Bytes × I))
  unfolding run start
  discover hosts concurrency =
      hosts >>= λ hs. ok (sort (run probe hs schedule (start concurrency (length hs))).results)

  unfoldable pub discover_serial : (devices : List Bytes) → List (Bytes × I)
  unfolding run start
  discover_serial [] = []
  discover_serial (d ∷ devices) =
      sort (run probe (d ∷ devices) schedule (start 8 (length (d ∷ devices)))).results
