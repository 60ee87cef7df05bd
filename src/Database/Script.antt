-- ===== src/Database/Script.antt =====
-- What run_schema_script sends.
use mathlib.Core.Path.{fun_ext}
use mathlib.Core.List.{append_assoc, append-nil}
use night_watcher.Base.{
  ap, sym, ◌∙◌, List, map, if◌then◌else◌, ℕ, Bool, false, ◌&&◌, [], ◌∷◌, ◌++◌, ◌≡◌, refl, ◌==◌,
  Bytes, Bool-cases, inl, inr, is_empty, All-append,
}
use night_watcher.Text.{drop_while, drop_end_while, split, cons_head}
use night_watcher.Text.Split.{Free}
use night_watcher.Text.Trim.{IsBare, first_is, drop_end_while_split}
use night_watcher.Database.{
  Statement, code, Answer, accepted, rejected, Db, ret, throw, query, ◌>>=◌, ◌>>◌, exec, answered,
}
use night_watcher.Database.Calls.{Every}
use night_watcher.Database.Schema.{cleaned, is_white, stripped, flush, each_byte, run_schema_script}

-- One statement, not blank, without `;` and without white space at its ends.
abbrev pub IsScriptStatement : Statement → Type 0
IsScriptStatement (code s ∷ []) = (is_empty s ≡ false) × Free b';' s × IsBare is_white s
IsScriptStatement _ = ⊥

module _ (d : ℕ) (p : ℕ → Bool) where
  drop_while-Free : (s : Bytes) → Free d s → Free d (drop_while p s)
  unfolding drop_while
  drop_while-Free [] h = tt
  drop_while-Free (c ∷ s) h = elim (Bool-cases (p c)) [
    | inl e ↦ rw e (drop_while-Free s h.1)
    | inr e ↦ rw e h
  ]

  drop_end_while-Free : (s : Bytes) → Free d s → Free d (drop_end_while p s)
  unfolding drop_end_while
  drop_end_while-Free [] h = tt
  drop_end_while-Free (c ∷ s) h = elim (Bool-cases (is_empty (drop_end_while p s) && p c)) [
    | inl e ↦ rw e tt
    | inr e ↦ rw e (h.0, drop_end_while-Free s h.1)
  ]

module _ (p : ℕ → Bool) where
  drop_while-first : (s : Bytes) → first_is p (drop_while p s) ≡ false
  unfolding drop_while
  drop_while-first [] = refl
  drop_while-first (c ∷ s) = elim (Bool-cases (p c)) [
    | inl e ↦ rw e (drop_while-first s)
    | inr e ↦ rw e e
  ]

stripped-IsBare : (stmt : Bytes) → IsBare is_white (stripped stmt)
unfolding stripped
stripped-IsBare stmt =
    let (_, _, _, last, keeps) = drop_end_while_split is_white (drop_while is_white stmt) in
    (keeps (drop_while-first is_white stmt), last)

stripped-Free : (stmt : Bytes) → Free b';' stmt → Free b';' (stripped stmt)
unfolding stripped
stripped-Free stmt h =
    drop_end_while-Free b';' is_white (drop_while is_white stmt)
      (drop_while-Free b';' is_white stmt h)

module _ {A B : Type 0} (P : Statement → Type 0) where
  pub bind-Every :
      (m : Db A) (k : A → Db B) → Every P m → ((a : A) → Every P (k a)) → Every P (m >>= k)
  unfolding ◌>>=◌
  bind-Every (ret a) k h l = l a
  bind-Every (throw e) k h l = tt
  bind-Every (query q next) k h l = (h.0, λ a. bind-Every (next a) k (h.1 a) l)

answered-Every : (a : Answer) → Every IsScriptStatement (answered a >>= λ _. ret tt)
unfolding answered ◌>>=◌
answered-Every (rejected e) = tt
answered-Every (accepted r e i n) = tt

flush-Every : (stmt : Bytes) → Free b';' stmt → Every IsScriptStatement (flush stmt)
unfolding flush exec ◌>>=◌ ◌>>◌
flush-Every stmt h = elim (Bool-cases (is_empty (stripped stmt))) [
  | inl e ↦ rw e tt
  | inr e ↦ rw e ((e, stripped-Free stmt h, stripped-IsBare stmt), answered-Every)
]

each_byte-Every : (stmt s : Bytes) → Free b';' stmt → Every IsScriptStatement (each_byte stmt s)
unfolding each_byte ◌>>◌
each_byte-Every stmt [] h = flush-Every stmt h
each_byte-Every stmt (c ∷ s) h = elim (Bool-cases (c == b';')) [
  | inl e ↦
      rw (each_byte, e)
        (bind-Every IsScriptStatement (flush stmt) (λ _. each_byte [] s) (flush-Every stmt h)
          (λ _. each_byte-Every [] s tt))
  | inr e ↦
      rw (each_byte, e) (each_byte-Every (stmt ++ c ∷ []) s (All-append _ stmt (c ∷ []) h (e, tt)))
]

-- One exec for each text that is not blank, in order; an exec that throws ends it.
abbrev pub send_all : List Bytes → Db Unit
send_all [] = ret tt
send_all (s ∷ texts) = if is_empty s then send_all texts else exec (code s ∷ []) >> send_all texts

module _ {A B C : Type 0} where
  >>=-assoc : (m : Db A) (f : A → Db B) (g : B → Db C) → ((m >>= f) >>= g) ≡ (m >>= λ a. f a >>= g)
  unfolding ◌>>=◌
  >>=-assoc (ret a) f g = refl
  >>=-assoc (throw e) f g = refl
  >>=-assoc (query q next) f g = ap (query q) (fun_ext (λ a. >>=-assoc (next a) f g))

-- The text so far goes in front of the first item.
abbrev glued : Bytes → List Bytes → List Bytes
glued stmt [] = stmt ∷ []
glued stmt (item ∷ items) = (stmt ++ item) ∷ items

flush_then :
    (stmt : Bytes) (m : Db Unit)
    → (flush stmt >> m)
      ≡ (if is_empty (stripped stmt) then m else exec (code (stripped stmt) ∷ []) >> m)
unfolding flush ◌>>◌ ◌>>=◌
flush_then stmt m = elim (Bool-cases (is_empty (stripped stmt))) [
  | inl e ↦ rw e refl
  | inr e ↦ rw e (>>=-assoc (exec (code (stripped stmt) ∷ [])) (λ _. ret tt) (λ _. m))
]

glued_nil :
    (items : List Bytes) → send_all (map stripped (glued [] items)) ≡ send_all (map stripped items)
unfolding stripped drop_while drop_end_while
glued_nil [] = refl
glued_nil (item ∷ items) = refl

glued_cons :
    (stmt : Bytes) (c : ℕ) (items : List Bytes)
    → glued (stmt ++ c ∷ []) items ≡ glued stmt (cons_head c items)
glued_cons stmt c [] = refl
glued_cons stmt c (item ∷ items) = ap (λ t. t ∷ items) (append_assoc stmt (c ∷ []) item)

flush_last : (stmt : Bytes) → flush stmt ≡ send_all (stripped stmt ∷ [])
unfolding flush
flush_last stmt = refl

each_byte-send_all :
    (stmt s : Bytes) → each_byte stmt s ≡ send_all (map stripped (glued stmt (split b';' s)))
unfolding each_byte split
each_byte-send_all stmt [] = flush_last stmt
each_byte-send_all stmt (c ∷ s) = elim (Bool-cases (c == b';')) [
  | inl e ↦
      rw (e, each_byte, split)
        (flush_then stmt (each_byte [] s)
          ∙ ap (λ m. if is_empty (stripped stmt) then m else exec (code (stripped stmt) ∷ []) >> m)
              (each_byte-send_all [] s ∙ glued_nil (split b';' s))
          ∙ ap (λ t. send_all (stripped t ∷ map stripped (split b';' s))) (sym (append-nil stmt)))
  | inr e ↦
      rw (e, each_byte, split)
        (each_byte-send_all (stmt ++ c ∷ []) s
          ∙ ap (λ items. send_all (map stripped items)) (glued_cons stmt c (split b';' s)))
]

-- run_schema_script sends the items of the script, cut at each `;` once the comments are off, in
-- order, each without the white space at its ends, and leaves out those that are blank then; whatever
-- the server answers, so it stops at the first statement that fails. None that is sent is blank, holds
-- a `;`, or has white space at an end. A `;` inside a literal cuts like any other.
pub run_schema_script-send_all :
    (script : Bytes)
    → (run_schema_script script
        ≡ send_all (map stripped (split b';' (cleaned (split b'\n' script)))))
      × Every IsScriptStatement (run_schema_script script)
unfolding run_schema_script
run_schema_script-send_all script = (
  each_byte-send_all [] (cleaned (split 10 script))
      ∙ glued_nil (split b';' (cleaned (split 10 script))),
  each_byte-Every [] (cleaned (split 10 script)) tt,
)
