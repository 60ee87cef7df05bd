-- ===== src/Export/Runner/Marks.antt =====
-- The watermarks among what an export run writes, and the computations that write none.
use night_watcher.Base.{◌≡◌, refl, ap, ◌∙◌, List, [], ◌∷◌, ◌++◌, Bytes, Result, ok, err}
use night_watcher.Db.{ExportLogRow}
use night_watcher.Export.Run.{Written, logged, watermark, Run, query, ◌>>=◌, after}

-- The watermarks among what is written.
abbrev pub marks : List Written → List (Bytes × Bytes)
marks [] = []
marks (logged row ∷ w) = marks w
marks (watermark id ts ∷ w) = (id, ts) ∷ marks w

pub marks-logged : (w : List Written) (row : ExportLogRow) → marks (w ++ logged row ∷ []) ≡ marks w
marks-logged [] row = refl
marks-logged (logged r ∷ w) row = marks-logged w row
marks-logged (watermark id ts ∷ w) row = ap (◌∷◌ (id, ts)) (marks-logged w row)

pub marks-watermark :
    (w : List Written) (id ts : Bytes)
    → marks (w ++ watermark id ts ∷ []) ≡ marks w ++ (id, ts) ∷ []
marks-watermark [] id ts = refl
marks-watermark (logged r ∷ w) id ts = marks-watermark w id ts
marks-watermark (watermark i t ∷ w) id ts = ap (◌∷◌ (i, t)) (marks-watermark w id ts)

-- A computation that moves no watermark.
abbrev pub Keeps : {A : Type 0} → Run A → Type 0
Keeps m = (w : List Written) → marks (m w).1 ≡ marks w

pub Keeps->>= :
    {A B : Type 0} (m : Run A) (f : A → Run B) → Keeps m → ((a : A) → Keeps (f a)) → Keeps (m >>= f)
Keeps->>= {A} {B} m f km kf w = by_result (m w).0 ∙ km w
  where
    by_result : (r : Result A) → marks (after f r (m w).1).1 ≡ marks (m w).1
    by_result (ok a) = kf a (m w).1
    by_result (err e) = refl

pub Keeps-query : {A : Type 0} (r : Result A) → Keeps (query r)
Keeps-query r w = refl
