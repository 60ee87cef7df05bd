-- ===== src/Poll/Workers/Waits.antt =====
-- The waits and the events of the two workers, from their start.
use night_watcher.Base.{
  ℕ, ◌≤◌, refl, map, All, arith, Bool, Option, none, some, List, [], ◌∷◌, bytes_eq, Exception,
}
use night_watcher.Base.Int.{ℤ}
use night_watcher.Db.{SensorRow}
use night_watcher.Poll.{Policy, Cycle, Outcome, initial}
use night_watcher.Poll.Backoff.{IsValid, run-waits-bounded}
use night_watcher.Poll.Events.{Alternates, EventsStored, changes, run-initial-Alternates}
use night_watcher.Poll.Workers.{interval_of, sqm_policy, sqm_cycle, sqm_worker}
use night_watcher.Sqm.Protocol.{Reading}

interval-pos : (v : ℤ) → 1 ≤ interval_of v
unfolding interval_of
interval-pos v = ground arith

abbrev pub WaitsWithin : {A : Type 0} → ℕ → List (Outcome A) → Type 0
WaitsWithin interval os = All (λ o. (1 ≤ o.wait_s) × (o.wait_s ≤ interval)) os

initial-IsValid : {D : Type 0} (s : SensorRow D) → IsValid (sqm_policy s) (initial (sqm_policy s))
unfolding initial sqm_policy
initial-IsValid s = omega arith

waits_of :
    {A : Type 0} (policy : Policy) (interval : ℕ) (os : List (Outcome A))
    → All (λ o. IsValid policy o.state × (1 ≤ o.wait_s) × (o.wait_s ≤ interval)) os
    → WaitsWithin interval os
waits_of policy interval [] h = tt
waits_of policy interval (o ∷ os) h = ((h.0.1, h.0.2), waits_of policy interval os h.1)

-- An SQM worker never waits less than a second, nor longer than the interval of its sensor.
pub sqm_worker-WaitsWithin :
    {D : Type 0} (not_positive : D → Bool) (s : SensorRow D) (connecting : Option Exception)
    (cycles : List (Cycle (Reading D)))
    → WaitsWithin (interval_of s.poll_interval_s) (sqm_worker not_positive s connecting cycles)
unfolding sqm_worker
sqm_worker-WaitsWithin not_positive s (some e) cycles = tt
sqm_worker-WaitsWithin not_positive s none cycles = waits_of (sqm_policy s) _ _ (
    run-waits-bounded (sqm_policy s) (interval_of s.poll_interval_s) _ _ (initial-IsValid s)
      (interval-pos s.poll_interval_s))

-- While the event inserts succeed, the connect and read_error events of an SQM worker take turns.
pub sqm_worker-Alternates :
    {D : Type 0} (not_positive : D → Bool) (s : SensorRow D) (cycles : List (Cycle (Reading D)))
    → All EventsStored cycles
    → Alternates none (changes (sqm_worker not_positive s none cycles))
unfolding sqm_worker sqm_policy bytes_eq
sqm_worker-Alternates not_positive s cycles h =
    run-initial-Alternates (sqm_policy s) _ _ refl (mapped cycles h)
  where
    mapped :
        (cs : List (Cycle (Reading _)))
        → All EventsStored cs
        → All EventsStored (map (sqm_cycle not_positive s) cs)
    mapped [] g = tt
    mapped (c ∷ cs) g = (g.0, mapped cs g.1)
