-- ===== src/Poll.antt =====
-- src/daemon/scheduler.cpp and src/weather/weather_scheduler.cpp: the polling workers.
-- The two worker loops have one text up to the device that is read and the constants of `Policy`.
-- A cycle's environment says how the device and each database call of the cycle answer, and whether
-- stop was requested by the end of the wait. Log lines on stderr are left out.
pub mod Backoff
pub mod Events
pub mod Workers
use Prim.Native.Nat.{min}
use night_watcher.Base.{
  ℕ, ◌*◌, Bool, true, false, not, ◌||◌, Option, none, some, List, [], ◌∷◌, ◌++◌, if◌then◌else◌,
  Bytes, codes, Exception, what, Result, ok, err,
}
use night_watcher.Db.{Event}

pub record Policy : Type 0 where
  pub source : Bytes
  pub error_event : Bytes
  pub connect_detail : Bytes
  pub device_id : Bytes
  pub first_backoff : ℕ
  pub max_backoff : ℕ

pub record WorkerState : Type 0 where
  pub up : Bool
  pub reported : Bool
  pub backoff : ℕ

unfoldable pub initial : Policy → WorkerState
initial policy = record { up = false; reported = false; backoff = policy.first_backoff }

-- `A` is what a poll reads. The three database calls answer `none`, or an exception.
pub record Cycle (A : Type 0) : Type 0 where
  pub poll : Result A
  pub warning_insert : Option Exception
  pub reading_insert : Option Exception
  pub connect_insert : Option Exception
  pub stop_requested : Bool

-- What reached the database.
pub data Stored (A : Type 0) : Type 0 where
  event : Event → Stored A
  reading : A → Stored A

pub record Outcome (A : Type 0) : Type 0 where
  pub state : WorkerState
  pub wait_s : ℕ
  pub stored : List (Stored A)

unfoldable pub warning : Policy → Bytes → Event
warning policy text = record {
  source = policy.source;
  level = codes "warning";
  event = policy.error_event;
  detail = text;
  device_id = policy.device_id;
}

unfoldable pub connected : Policy → Event
connected policy = record {
  source = policy.source;
  level = codes "info";
  event = codes "connect";
  detail = policy.connect_detail;
  device_id = policy.device_id;
}

module _ {A : Type 0} (policy : Policy) (interval : ℕ) where
  -- An insert whose exception is swallowed.
  attempt : Option Exception → Stored A → List (Stored A)
  attempt none row = row ∷ []
  attempt (some e) row = []

  -- The catch block of the poll.
  unfoldable pub on_error : WorkerState → Exception → Option Exception → Outcome A
  unfolding attempt warning
  on_error s e warning_insert = record {
    state = record {
      up = false;
      reported = true;
      backoff = min (s.backoff * 2) policy.max_backoff;
    };
    wait_s = min interval s.backoff;
    stored =
        if s.up || not s.reported
        then attempt warning_insert (event (warning policy (what e)))
        else [];
  }

  -- The block behind the two inserts of a successful poll.
  settled : List (Stored A) → Outcome A
  settled rows = record {
    state = record { up = true; reported = true; backoff = policy.first_backoff };
    wait_s = interval;
    stored = rows;
  }

  -- An exception on the way leaves the state and the wait as they are.
  failed_insert : WorkerState → List (Stored A) → Outcome A
  failed_insert s rows = record { state = s; wait_s = interval; stored = rows }

  after_reading : WorkerState → A → Option Exception → Outcome A
  unfolding settled failed_insert connected
  after_reading s r connect_insert =
      if s.up then settled (reading r ∷ []) else elim connect_insert [
        | none ↦ settled (reading r ∷ event (connected policy) ∷ [])
        | some e ↦ failed_insert s (reading r ∷ [])
      ]

  unfoldable pub on_reading : WorkerState → A → Option Exception → Option Exception → Outcome A
  unfolding after_reading failed_insert
  on_reading s r none connect_insert = after_reading s r connect_insert
  on_reading s r (some e) connect_insert = failed_insert s []

  -- One round of the loop, up to the wait.
  unfoldable pub cycle : WorkerState → Cycle A → Outcome A
  unfolding on_error on_reading
  cycle s c = elim c.poll [
    | err e ↦ on_error s e c.warning_insert
    | ok r ↦ on_reading s r c.reading_insert c.connect_insert
  ]

  -- The loop over the cycles that the environment brings, up to the one that requests a stop: the
  -- waits, and what is stored.
  unfoldable pub run : WorkerState → List (Cycle A) → List (Outcome A)
  unfolding cycle
  run s [] = []
  run s (c ∷ cycles) =
      let o = cycle s c in
      let rest = run o.state cycles in o ∷ (if c.stop_requested then [] else rest)
