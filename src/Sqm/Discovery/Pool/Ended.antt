-- ===== src/Sqm/Discovery/Pool/Ended.antt =====
-- The workers of the pool that have returned have met the end of the list.
use night_watcher.Base.{ℕ, ◌≤◌, List, [], ◌∷◌, arith}
use night_watcher.Sqm.Discovery.Pool.{Worker, idle, returned, probing}

abbrev pub AllReturned : List Worker → Type 0
AllReturned [] = Unit {0}
AllReturned (returned ∷ workers) = AllReturned workers
AllReturned (_ ∷ workers) = ⊥

-- A worker that has returned has met the end of the list.
abbrev pub Ended : ℕ → List Worker → ℕ → Type 0
Ended count [] next = Unit {0}
Ended count (returned ∷ workers) next = (count ≤ next) × Ended count workers next
Ended count (idle ∷ workers) next = Ended count workers next
Ended count (probing i ∷ workers) next = Ended count workers next

pub Ended-mono :
    (count : ℕ) (workers : List Worker) (next next' : ℕ)
    → next ≤ next'
    → Ended count workers next
    → Ended count workers next'
Ended-mono count [] next next' le h = tt
Ended-mono count (returned ∷ workers) next next' le h =
    (omega (arith, h.0), Ended-mono count workers next next' le h.1)
Ended-mono count (idle ∷ workers) next next' le h = Ended-mono count workers next next' le h
Ended-mono count (probing i ∷ workers) next next' le h = Ended-mono count workers next next' le h

pub Ended-cons :
    (count : ℕ) (w : Worker) (workers : List Worker) (next : ℕ)
    → Ended count (w ∷ []) next
    → Ended count workers next
    → Ended count (w ∷ workers) next
Ended-cons count returned workers next h k = (h.0, k)
Ended-cons count idle workers next h k = k
Ended-cons count (probing i) workers next h k = k
