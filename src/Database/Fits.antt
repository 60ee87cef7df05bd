-- ===== src/Database/Fits.antt =====
-- The statements that the methods build are sound: the pieces, the lists of columns and values,
-- and the programs that execute them.
use night_watcher.Base.{
  ℕ, zero, suc, ◌+◌, ◌/◌, ◌%◌, true, none, some, [], ◌∷◌, ◌++◌, ◌≡◌, refl, Bytes, codes, arith,
}
use night_watcher.Base.Int.{ℤ, pos, negsuc}
use night_watcher.Text.{decimal, to_string}
use night_watcher.Database.{
  Piece, code, quoted, fixed, named, Statement, Answer, accepted, rejected, Db, ret, ResultSet,
  throw, query, ◌>>=◌, exec, answered, select, store_result, int_text, sql, or_null, or_now,
}
use night_watcher.Database.Calls.{Every}
use night_watcher.Database.Lexer.{sound, tame, is_tame, is_quote, starts_code}

unfoldable pub Safe : {A : Type 0} → Db A → Type 0
Safe m = Every (λ q. sound q ≡ true) m

-- It can stand in front of code.
abbrev pub Fits : Statement → Type 0
Fits item = (q : Statement) → starts_code q ≡ true → sound q ≡ true → sound (item ++ q) ≡ true

abbrev pub FitsPiece : Piece → Type 0
FitsPiece p = Fits (p ∷ [])

pub tame-append : (s t : Bytes) → tame s ≡ true → tame t ≡ true → tame (s ++ t) ≡ true
unfolding tame
tame-append [] t h k = k
tame-append (c ∷ s) t h k = ground (arith, tame-append s t)

tame-decimal : (fuel n : ℕ) → tame (decimal fuel n) ≡ true
unfolding decimal tame is_tame is_quote
tame-decimal zero n = refl
tame-decimal (suc fuel) n =
    ground (
      arith,
      tame-decimal fuel (n / 10),
      tame-append (decimal fuel (n / 10)) ((b'0' + n % 10) ∷ []),
    )

pub tame-int_text : (v : ℤ) → tame (int_text v) ≡ true
unfolding int_text to_string tame is_tame is_quote
tame-int_text (pos n) = tame-decimal (n + 1) n
tame-int_text (negsuc n) = tame-decimal (suc n + 1) (suc n)

pub code-Fits : (s : Bytes) → tame s ≡ true → FitsPiece (code s)
unfolding sound
code-Fits s h q k l = ground arith

pub quoted-Fits : (s : Bytes) → FitsPiece (quoted s)
unfolding sound
quoted-Fits s q k l = ground arith

pub fixed-Fits : (s : Bytes) → tame s ≡ true → FitsPiece (fixed s)
unfolding sound
fixed-Fits s h q k l = ground arith

pub named-Fits : (s : Bytes) → tame s ≡ true → FitsPiece (named s)
unfolding sound
named-Fits s h q k l = ground arith

pub or_null-Fits : (s : Bytes) → FitsPiece (or_null s)
unfolding or_null sql sound tame is_tame is_quote
or_null-Fits s q k l = ground arith

pub or_now-Fits : (s : Bytes) → FitsPiece (or_now s)
unfolding or_now sql sound tame is_tame is_quote
or_now-Fits s q k l = ground arith

pub ret-Safe : {A : Type 0} (a : A) → Safe (ret a)
unfolding Safe
ret-Safe a = tt

module _ {A B : Type 0} where
  pub bind-Safe : (m : Db A) (k : A → Db B) → Safe m → ((a : A) → Safe (k a)) → Safe (m >>= k)
  unfolding Safe ◌>>=◌
  bind-Safe (ret a) k h l = l a
  bind-Safe (throw e) k h l = tt
  bind-Safe (query q next) k h l = (h.0, λ a. bind-Safe (next a) k (h.1 a) l)

answered-Safe : (a : Answer) → Safe (answered a)
unfolding Safe answered
answered-Safe (rejected e) = tt
answered-Safe (accepted r e i n) = tt

pub exec-Safe : (q : Statement) → sound q ≡ true → Safe (exec q)
unfolding Safe exec
exec-Safe q h = (h, answered-Safe)

pub store_result-Safe : (what : Bytes) (a : Answer) → Safe (store_result what a)
unfolding Safe store_result
store_result-Safe what (rejected e) = tt
store_result-Safe what (accepted none e i n) = tt
store_result-Safe what (accepted (some r) e i n) = tt

module _ {B : Type 0} where
  pub then-Safe :
      (q : Statement) (k : Answer → Db B)
      → sound q ≡ true
      → ((a : Answer) → Safe (k a))
      → Safe (exec q >>= k)
  then-Safe q k h l = bind-Safe (exec q) k (exec-Safe q h) l

  -- One statement, and then a result.
  pub only-Safe :
      (q : Statement) (f : Answer → B) → sound q ≡ true → Safe (exec q >>= λ a. ret (f a))
  unfolding Safe
  only-Safe q f h = then-Safe q (λ a. ret (f a)) h (λ a. tt)

pub select-Safe : (q : Statement) → sound q ≡ true → Safe (select q)
unfolding select
select-Safe q h =
    then-Safe q (store_result (codes "store_result: ")) h
      (store_result-Safe (codes "store_result: "))

module _ {B : Type 0} where
  pub selected-Safe :
      (q : Statement) (f : ResultSet → B) → sound q ≡ true → Safe (select q >>= λ r. ret (f r))
  unfolding Safe
  selected-Safe q f h = bind-Safe (select q) (λ r. ret (f r)) (select-Safe q h) (λ r. tt)
