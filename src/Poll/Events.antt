-- ===== src/Poll/Events.antt =====
-- What the workers store: the readings, and the events of a device going up and down.
use night_watcher.Base.{
  ℕ, ◌≡◌, ◌≢◌, refl, List, [], ◌∷◌, ◌++◌, arith, Result, ok, err, Exception, Option, none, some,
  Bool, true, false, All, codes, bytes_eq, if◌then◌else◌,
}
use night_watcher.Poll.{
  Policy, WorkerState, Cycle, Outcome, Stored, event, reading, initial, cycle, run, connected,
  warning,
}

-- No two events of one kind in a row, `last` being the one before.
abbrev pub Alternates : Option Bool → List Bool → Type 0
Alternates last [] = Unit {0}
Alternates last (b ∷ bs) = (last ≢ some b) × Alternates (some b) bs

-- The last event, as the state knows it.
abbrev pub last_change : WorkerState → Option Bool
last_change s = if s.up then some true else if s.reported then some false else none

module _ {A : Type 0} where
  abbrev pub readings_of : List (Stored A) → List A
  readings_of [] = []
  readings_of (event e ∷ rows) = readings_of rows
  readings_of (reading r ∷ rows) = r ∷ readings_of rows

  abbrev pub readings_stored : List (Outcome A) → List A
  readings_stored [] = []
  readings_stored (o ∷ os) = readings_of o.stored ++ readings_stored os

  -- What one cycle is to store: its reading, if the device answers and the insert succeeds.
  abbrev pub polled : Result A → Option Exception → List A
  polled (err e) insert = []
  polled (ok r) none = r ∷ []
  polled (ok r) (some e) = []

  abbrev pub polled_until_stop : List (Cycle A) → List A
  polled_until_stop [] = []
  polled_until_stop (c ∷ cycles) =
      let rest = polled_until_stop cycles in
      polled c.poll c.reading_insert ++ (if c.stop_requested then [] else rest)

  cycle-readings :
      (policy : Policy) (interval : ℕ) (s : WorkerState) (c : Cycle A)
      → readings_of (cycle policy interval s c).stored ≡ polled c.poll c.reading_insert
  unfolding cycle
  cycle-readings policy interval s c = ground arith

  readings_unless :
      (b : Bool) (os : List (Outcome A))
      → readings_stored (if b then [] else os) ≡ (if b then [] else readings_stored os)
  readings_unless true os = refl
  readings_unless false os = refl

  -- A worker stores each reading that it polls up to its stop and whose insert succeeds, once and
  -- in order, whatever happens to its events.
  pub readings-run :
      (policy : Policy) (interval : ℕ) (s : WorkerState) (cycles : List (Cycle A))
      → readings_stored (run policy interval s cycles) ≡ polled_until_stop cycles
  unfolding run
  readings-run policy interval s [] = refl
  readings-run policy interval s (c ∷ cycles) = rw (
    cycle-readings policy interval s c,
    readings_unless c.stop_requested,
    readings-run policy interval (cycle policy interval s c).state cycles,
  )

  -- The events that are stored: true for a connect event.
  abbrev pub changes_of : List (Stored A) → List Bool
  changes_of [] = []
  changes_of (event e ∷ rows) = bytes_eq e.event (codes "connect") ∷ changes_of rows
  changes_of (reading r ∷ rows) = changes_of rows

  abbrev pub changes : List (Outcome A) → List Bool
  changes [] = []
  changes (o ∷ os) = changes_of o.stored ++ changes os

  abbrev pub EventsStored : Cycle A → Type 0
  EventsStored c = (c.warning_insert ≡ none) × (c.connect_insert ≡ none)

  cycle-changes :
      (policy : Policy) (interval : ℕ) (s : WorkerState) (c : Cycle A) (bs : List Bool)
      → bytes_eq policy.error_event (codes "connect") ≡ false
      → EventsStored c
      → Alternates (last_change (cycle policy interval s c).state) bs
      → Alternates (last_change s) (changes_of (cycle policy interval s c).stored ++ bs)
  unfolding cycle bytes_eq connected warning
  cycle-changes policy interval s c bs name h a = ground arith

  changes_unless :
      (last : Option Bool) (b : Bool) (os : List (Outcome A))
      → Alternates last (changes os)
      → Alternates last (changes (if b then [] else os))
  changes_unless last true os h = tt
  changes_unless last false os h = h

  run-Alternates :
      (policy : Policy) (interval : ℕ) (s : WorkerState) (cycles : List (Cycle A))
      → bytes_eq policy.error_event (codes "connect") ≡ false
      → All EventsStored cycles
      → Alternates (last_change s) (changes (run policy interval s cycles))
  unfolding run
  run-Alternates policy interval s [] name h = tt
  run-Alternates policy interval s (c ∷ cycles) name (h, hs) =
      cycle-changes policy interval s c _ name h (
        changes_unless _ c.stop_requested _
          (run-Alternates policy interval (cycle policy interval s c).state cycles name hs))

  -- While the event inserts succeed, a worker reports each outage once and each recovery once: its
  -- connect and error events take turns, through any cycles.
  pub run-initial-Alternates :
      (policy : Policy) (interval : ℕ) (cycles : List (Cycle A))
      → bytes_eq policy.error_event (codes "connect") ≡ false
      → All EventsStored cycles
      → Alternates none (changes (run policy interval (initial policy) cycles))
  unfolding initial
  run-initial-Alternates policy interval cycles name h =
      run-Alternates policy interval (initial policy) cycles name h
