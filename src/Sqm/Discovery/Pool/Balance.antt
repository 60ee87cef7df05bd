-- ===== src/Sqm/Discovery/Pool/Balance.antt =====
-- Whatever the schedule, the pool finds what a scan of the hosts in order finds.
use night_watcher.Base.{
  ℕ, zero, suc, ◌+◌, ◌≤◌, ◌<◌, ◌≡◌, refl, ap, List, [], ◌∷◌, ◌++◌, arith, Bytes, length, get_or,
  take, min, max, Result, Bool-cases, inl, inr, leb, replicate,
}
use night_watcher.Sqm.Discovery.Pool.{
  Worker, idle, returned, probing, Pool, nthreads, start, found, turn, step_at, step, run,
}
use night_watcher.Sqm.Discovery.Pool.Ended.{AllReturned, Ended, Ended-mono, Ended-cons}

-- The sum of a measure over a list.
abbrev pub total : {F : Type 0} → (F → ℕ) → List F → ℕ
total measure [] = 0
total measure (x ∷ xs) = measure x + total measure xs

total-append :
    {F : Type 0} (measure : F → ℕ) (xs ys : List F)
    → total measure (xs ++ ys) ≡ total measure xs + total measure ys
total-append measure [] ys = omega arith
total-append measure (x ∷ xs) ys = omega (arith, total-append measure xs ys)

-- What the hosts add one after another.
abbrev pub scan : {I : Type 0} → (Bytes → Result I) → List Bytes → List (Bytes × I)
scan probe [] = []
scan probe (host ∷ hosts) = found probe host ++ scan probe hosts

module _ {I : Type 0} (probe : Bytes → Result I) (measure : Bytes × I → ℕ) where
  -- What the first `k` hosts come to.
  abbrev upto : List Bytes → ℕ → ℕ
  upto hosts k = total measure (scan probe (take k hosts))

  upto-suc :
      (hosts : List Bytes) (i : ℕ)
      → i < length hosts
      → upto hosts (suc i) ≡ upto hosts i + total measure (found probe (get_or hosts i []))
  upto-suc [] i lt = absurd (omega arith)
  upto-suc (host ∷ hosts) zero lt = omega (arith, total-append measure (found probe host) [])
  upto-suc (host ∷ hosts) (suc i) lt = omega (
    arith,
    total-append measure (found probe host) (scan probe (take (suc i) hosts)),
    total-append measure (found probe host) (scan probe (take i hosts)),
    upto-suc hosts i (omega arith),
  )

  take-all : (hosts : List Bytes) (k : ℕ) → length hosts ≤ k → take k hosts ≡ hosts
  take-all [] zero le = refl
  take-all [] (suc k) le = refl
  take-all (host ∷ hosts) zero le = absurd (omega arith)
  take-all (host ∷ hosts) (suc k) le = ap (◌∷◌ host) (take-all hosts k (omega arith))

  module _ (hosts : List Bytes) where
    -- What a worker has taken and not yet stored.
    abbrev held : Worker → ℕ
    held (probing i) = total measure (found probe (get_or hosts i []))
    held _ = 0

    abbrev all_held : List Worker → ℕ
    all_held [] = 0
    all_held (w ∷ workers) = held w + all_held workers

    -- A step moves no measure but what it takes from the list.
    abbrev Balanced : ℕ → ℕ → List (Bytes × I) → ℕ × ℕ × List (Bytes × I) → Type 0
    Balanced before next results (after, next', results') =
        (total measure results' + after + upto hosts next
          ≡ total measure results + before + upto hosts next')
        × (next ≤ next')

    turn-Balanced :
        (w : Worker) (next : ℕ) (results : List (Bytes × I))
        → let t = turn probe hosts w next results in
          Balanced (held w) next results (held t.0, t.1, t.2)
    unfolding turn
    turn-Balanced idle next results = elim (Bool-cases (leb (length hosts) next)) [
      | inl e ↦ rw e (
        omega (
          arith,
          same (take-all hosts next (ground arith)) (take-all hosts (suc next) (ground arith)),
        ),
        omega arith,
      )
      | inr e ↦ rw e (omega (arith, upto-suc hosts next (ground arith)), omega arith)
    ]
      where
        same :
            take next hosts ≡ hosts
            → take (suc next) hosts ≡ hosts
            → upto hosts next ≡ upto hosts (suc next)
        same p q = rw (p, q) refl
    turn-Balanced (probing i) next results =
        (omega (arith, total-append measure results (found probe (get_or hosts i []))), omega arith)
    turn-Balanced returned next results = (refl, omega arith)

    turn-Ended :
        (w : Worker) (next : ℕ) (results : List (Bytes × I))
        → Ended (length hosts) (w ∷ []) next
        → let t = turn probe hosts w next results in Ended (length hosts) (t.0 ∷ []) t.1
    unfolding turn
    turn-Ended idle next results h = elim (Bool-cases (leb (length hosts) next)) [
      | inl e ↦ rw e (ground arith, tt)
      | inr e ↦ rw e tt
    ]
    turn-Ended (probing i) next results h = tt
    turn-Ended returned next results h = h

    Ended-first :
        (w : Worker) (workers : List Worker) (next : ℕ)
        → Ended (length hosts) (w ∷ workers) next
        → Ended (length hosts) (w ∷ []) next × Ended (length hosts) workers next
    Ended-first idle workers next h = (tt, h)
    Ended-first (probing i) workers next h = (tt, h)
    Ended-first returned workers next h = ((h.0, tt), h.1)

    -- What a turn of the pool keeps.
    step_at-keeps :
        (i : ℕ) (workers : List Worker) (next : ℕ) (results : List (Bytes × I))
        → Ended (length hosts) workers next
        → let t = step_at probe hosts i workers next results in
          Balanced (all_held workers) next results (all_held t.0, t.1, t.2)
          × Ended (length hosts) t.0 t.1
          × (length t.0 ≡ length workers)
    unfolding step_at
    step_at-keeps i [] next results h = ((refl, omega arith), h, refl)
    step_at-keeps zero (w ∷ workers) next results h =
        let b = turn-Balanced w next results in
        let e = Ended-first w workers next h in
        (
          (omega (arith, b.0), b.1),
          Ended-cons (length hosts) _ workers _ (turn-Ended w next results e.0)
              (Ended-mono (length hosts) workers next _ b.1 e.1),
          refl,
        )
    step_at-keeps (suc i) (w ∷ workers) next results h =
        let e = Ended-first w workers next h in
        let k = step_at-keeps i workers next results e.1 in
        (
          (omega (arith, k.0.0), k.0.1),
          Ended-cons (length hosts) w _ _ (Ended-mono (length hosts) (w ∷ []) next _ k.0.1 e.0) k.1,
          ap suc k.2,
        )

    -- Nothing is lost and nothing counted twice: what is stored and what workers hold is what the
    -- hosts that were taken come to.
    record IsBalanced (pool : Pool (Bytes × I)) : Type 0 where
      balance : total measure pool.results + all_held pool.workers ≡ upto hosts pool.next
      ended : Ended (length hosts) pool.workers pool.next
      manned : 1 ≤ length pool.workers

    run-IsBalanced :
        (schedule : List ℕ) (pool : Pool (Bytes × I))
        → IsBalanced pool
        → IsBalanced (run probe hosts schedule pool)
    unfolding run
    run-IsBalanced [] pool v = v
    run-IsBalanced (i ∷ schedule) pool v =
        let k = step_at-keeps i pool.workers pool.next pool.results v.ended in
        run-IsBalanced schedule (step probe hosts i pool) (record {
          balance = omega (arith, k.0.0, v.balance);
          ended = k.1;
          manned = omega (arith, k.2, v.manned);
        })

    idle_pool :
        (n : ℕ)
        → (all_held (replicate n idle) ≡ 0)
          × Ended (length hosts) (replicate n idle) 0
          × (length (replicate n idle) ≡ n)
    idle_pool zero = (refl, tt, refl)
    idle_pool (suc n) = let k = idle_pool n in (omega (arith, k.0), k.1, ap suc k.2)

    start-IsBalanced : (concurrency : ℕ) → IsBalanced (start concurrency (length hosts))
    unfolding start nthreads
    start-IsBalanced concurrency =
        let k = idle_pool (max 1 (min concurrency (length hosts))) in
        record { balance = omega (arith, k.0); ended = k.1; manned = omega (arith, k.2) }

    at_end :
        (pool : Pool (Bytes × I))
        → IsBalanced pool
        → AllReturned pool.workers
        → total measure pool.results ≡ total measure (scan probe hosts)
    at_end pool v done = by_workers pool.workers v.balance v.ended v.manned done
      where
        none_held : (workers : List Worker) → AllReturned workers → all_held workers ≡ 0
        none_held [] h = refl
        none_held (returned ∷ workers) h = omega (arith, none_held workers h)
        none_held (idle ∷ workers) h = elim h [ ]
        none_held (probing i ∷ workers) h = elim h [ ]

        by_workers :
            (workers : List Worker)
            → total measure pool.results + all_held workers ≡ upto hosts pool.next
            → Ended (length hosts) workers pool.next
            → 1 ≤ length workers
            → AllReturned workers
            → total measure pool.results ≡ total measure (scan probe hosts)
        by_workers [] b e m h = absurd (omega arith)
        by_workers (idle ∷ workers) b e m h = elim h [ ]
        by_workers (probing i ∷ workers) b e m h = elim h [ ]
        by_workers (returned ∷ workers) b e m h = omega (
          arith,
          b,
          none_held workers h,
          ap (λ hs. total measure (scan probe hs)) (take-all hosts pool.next e.0),
        )

    -- Under any schedule behind which every worker has returned, any measure of the results is that of
    -- a scan of the hosts in order: each host that answers is found, and once.
    pub run-total :
        (concurrency : ℕ) (schedule : List ℕ)
        → AllReturned (run probe hosts schedule (start concurrency (length hosts))).workers
        → total measure (run probe hosts schedule (start concurrency (length hosts))).results
          ≡ total measure (scan probe hosts)
    run-total concurrency schedule done =
        at_end (run probe hosts schedule (start concurrency (length hosts)))
          (run-IsBalanced schedule (start concurrency (length hosts))
            (start-IsBalanced concurrency))
          done
