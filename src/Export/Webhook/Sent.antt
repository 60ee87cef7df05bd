-- ===== src/Export/Webhook/Sent.antt =====
-- What a webhook run sends: the readings of its context, in order and none twice.
use mathlib.Core.List.{append-nil, append_assoc}
use night_watcher.Base.{
  ℕ, zero, suc, ◌≤◌, ◌≡◌, refl, sym, ap, ◌∙◌, ◌||◌, List, [], ◌∷◌, ◌++◌, map, arith, length, take,
  drop, take-append-drop, length-drop, subst, Bool-cases, inl, inr, is_empty, ltb, leb,
}
use night_watcher.Base.Int.{ℤ}
use night_watcher.Db.{ReadingRow}
use night_watcher.Export.Run.{ExportContext}
use night_watcher.Export.Webhook.{
  WebhookConfig, Point, Request, Answer, unanswered, answered, PushOutcome, delivered, push_throws,
  push_waits, batch_of, batches, point, request_of, result_of, post_all, webhook_run,
}

abbrev pub concat : {A : Type 0} → List (List A) → List A
concat [] = []
concat (xs ∷ xss) = xs ++ concat xss

concat-batches :
    {A : Type 0} (fuel batch : ℕ) (rs : List A)
    → 1 ≤ batch
    → length rs ≤ fuel
    → concat (batches fuel batch rs) ≡ rs
unfolding batches
concat-batches zero batch [] b le = refl
concat-batches zero batch (r ∷ rs) b le = absurd (omega arith)
concat-batches (suc fuel) batch [] b le = refl
concat-batches (suc fuel) batch (r ∷ rs) b le =
    ap (◌++◌ (take batch (r ∷ rs))) (
      concat-batches fuel batch (drop batch (r ∷ rs)) b (omega (arith, length-drop batch (r ∷ rs))))
    ∙ take-append-drop batch (r ∷ rs)

batch-pos : (batch : ℤ) → 1 ≤ batch_of batch
unfolding batch_of
batch-pos batch = ground arith

module _ {D : Type 0} where
  abbrev pub sent_points : List (Request D) → List (Point D)
  sent_points [] = []
  sent_points (r ∷ requests) = r.readings ++ sent_points requests

  -- The requests hold the first of `points`, and all of them if the run delivers.
  abbrev pub Sends : List (Point D) → ℕ → List (Request D) × PushOutcome → Type 0
  Sends points count (requests, delivered r) =
      (sent_points requests ≡ points) × (r.row_count ≡ count)
  Sends points count (requests, push_throws why) =
      (unsent : List (Point D)) × (sent_points requests ++ unsent ≡ points)
  Sends points count (requests, push_waits) =
      (unsent : List (Point D)) × (sent_points requests ++ unsent ≡ points)

  map-append : (xs ys : List (ReadingRow D)) → map point (xs ++ ys) ≡ map point xs ++ map point ys
  map-append [] ys = refl
  map-append (x ∷ xs) ys = ap (◌∷◌ (point x)) (map-append xs ys)

  Sends-cons :
      (r : Request D) (points : List (Point D)) (count : ℕ) (requests : List (Request D))
      (o : PushOutcome)
      → Sends points count (requests, o)
      → Sends (r.readings ++ points) count (r ∷ requests, o)
  Sends-cons r points count requests (delivered res) (h, k) = (ap (◌++◌ r.readings) h, k)
  Sends-cons r points count requests (push_throws why) (unsent, h) =
      (unsent, append_assoc r.readings (sent_points requests) unsent ∙ ap (◌++◌ r.readings) h)
  Sends-cons r points count requests push_waits (unsent, h) =
      (unsent, append_assoc r.readings (sent_points requests) unsent ∙ ap (◌++◌ r.readings) h)

  first_batch :
      (rows : List (ReadingRow D)) (more : List (List (ReadingRow D)))
      → (map point rows ++ []) ++ map point (concat more) ≡ map point (concat (rows ∷ more))
  first_batch rows more =
      ap (λ (xs : List (Point D)). xs ++ map point (concat more)) (append-nil (map point rows))
      ∙ sym (map-append rows (concat more))

  post_all-Sends :
      (cfg : WebhookConfig) (ctx : ExportContext D) (rows : List (List (ReadingRow D)))
      (tape : List Answer)
      → Sends (map point (concat rows)) (length ctx.readings) (post_all cfg ctx rows tape)
  unfolding post_all request_of result_of
  post_all-Sends cfg ctx [] tape = (refl, refl)
  post_all-Sends cfg ctx (rows ∷ more) [] = (map point (concat more), first_batch rows more)
  post_all-Sends cfg ctx (rows ∷ more) (unanswered why ∷ tape) =
      (map point (concat more), first_batch rows more)
  post_all-Sends cfg ctx (rows ∷ more) (answered status body ∷ tape) =
      elim (Bool-cases (ltb status 200 || leb 300 status)) [
        | inl e ↦ rw e (map point (concat more), first_batch rows more)
        | inr e ↦
            rw (e, map-append rows (concat more))
              (Sends-cons (request_of cfg ctx rows) (map point (concat more)) (length ctx.readings)
                (post_all cfg ctx more tape).0 (post_all cfg ctx more tape).1
                (post_all-Sends cfg ctx more tape))
      ]

  -- Whatever the server answers, the requests hold readings of the context from its first on, in
  -- order and none twice; if the run delivers, all of them, and its count says how many.
  pub webhook_run-Sends :
      (cfg : WebhookConfig) (ctx : ExportContext D) (tape : List Answer)
      → Sends (map point ctx.readings) (length ctx.readings) (webhook_run cfg ctx tape)
  unfolding webhook_run
  webhook_run-Sends cfg ctx tape = elim (Bool-cases (is_empty cfg.url)) [
    | inl e ↦ rw e (map point ctx.readings, refl)
    | inr e ↦ rw e (
        subst (λ rs. Sends (map point rs) (length ctx.readings) (post_all cfg ctx split_up tape))
          (concat-batches (length ctx.readings) (batch_of cfg.batch) ctx.readings
            (batch-pos cfg.batch) (omega arith))
          (post_all-Sends cfg ctx split_up tape))
  ]
    where
      split_up : List (List (ReadingRow D))
      split_up = batches (length ctx.readings) (batch_of cfg.batch) ctx.readings
