-- ===== src/Sqm/Tcp/Writing.antt =====
-- `write`: partial sends go out whole and in order.
use mathlib.Core.List.{append-nil, append_assoc}
use night_watcher.Base.{
  ℕ, ◌+◌, ◌≤◌, ◌≡◌, refl, sym, ap, ◌∙◌, List, [], ◌∷◌, ◌++◌, arith, Bytes, length, take, drop,
  take-append-drop, length-drop,
}
use night_watcher.Sqm.Tcp.{
  Send, sent, send_interrupted, send_failed, WriteOutcome, wrote, write_throws, write_waits,
  write_from, write,
}

-- What went out is a prefix of the data, and all of it if the call returns.
abbrev pub IsPrefixOf : WriteOutcome → Bytes → Type 0
IsPrefixOf (wrote wire) data_ = wire ≡ data_
IsPrefixOf (write_throws _ wire) data_ = (unsent : Bytes) × (wire ++ unsent ≡ data_)
IsPrefixOf (write_waits wire) data_ = (unsent : Bytes) × (wire ++ unsent ≡ data_)

write_from-IsPrefixOf :
    (wire rest : Bytes) (tape : List Send) → IsPrefixOf (write_from wire rest tape) (wire ++ rest)
unfolding write_from
write_from-IsPrefixOf wire [] [] = sym (append-nil wire)
write_from-IsPrefixOf wire [] (e ∷ tape) = sym (append-nil wire)
write_from-IsPrefixOf wire (b ∷ rest) [] = (b ∷ rest, refl)
write_from-IsPrefixOf wire (b ∷ rest) (sent n ∷ tape) =
    rw (shifted) at (write_from-IsPrefixOf (wire ++ take n (b ∷ rest)) (drop n (b ∷ rest)) tape)
  where
    shifted : (wire ++ take n (b ∷ rest)) ++ drop n (b ∷ rest) ≡ wire ++ b ∷ rest
    shifted =
        append_assoc wire (take n (b ∷ rest)) (drop n (b ∷ rest))
        ∙ ap (◌++◌ wire) (take-append-drop n (b ∷ rest))
write_from-IsPrefixOf wire (b ∷ rest) (send_interrupted ∷ tape) =
    write_from-IsPrefixOf wire (b ∷ rest) tape
write_from-IsPrefixOf wire (b ∷ rest) (send_failed why ∷ tape) = (b ∷ rest, refl)

-- On every path the bytes on the wire are a prefix of the data, in order and with none twice; a
-- call that returns has sent them all.
pub write-IsPrefixOf : (data_ : Bytes) (tape : List Send) → IsPrefixOf (write data_ tape) data_
unfolding write
write-IsPrefixOf data_ tape = write_from-IsPrefixOf [] data_ tape

-- The bytes that a tape without errors accepts.
abbrev pub accepts : List Send → ℕ
accepts [] = 0
accepts (sent n ∷ tape) = n + accepts tape
accepts (_ ∷ tape) = accepts tape

abbrev pub NoFailure : List Send → Type 0
NoFailure [] = Unit {0}
NoFailure (send_failed _ ∷ tape) = ⊥
NoFailure (_ ∷ tape) = NoFailure tape

write_from_total :
    (wire rest : Bytes) (tape : List Send)
    → NoFailure tape
    → length rest ≤ accepts tape
    → write_from wire rest tape ≡ wrote (wire ++ rest)
unfolding write_from
write_from_total wire [] [] ok_ enough = ap wrote (sym (append-nil wire))
write_from_total wire [] (e ∷ tape) ok_ enough = ap wrote (sym (append-nil wire))
write_from_total wire (b ∷ rest) [] ok_ enough = absurd (omega arith)
write_from_total wire (b ∷ rest) (sent n ∷ tape) ok_ enough =
    write_from_total (wire ++ take n (b ∷ rest)) (drop n (b ∷ rest)) tape ok_
      (omega (arith, length-drop n (b ∷ rest)))
    ∙ ap wrote (
        append_assoc wire (take n (b ∷ rest)) (drop n (b ∷ rest))
        ∙ ap (◌++◌ wire) (take-append-drop n (b ∷ rest)))
write_from_total wire (b ∷ rest) (send_interrupted ∷ tape) ok_ enough =
    write_from_total wire (b ∷ rest) tape ok_ enough
write_from_total wire (b ∷ rest) (send_failed why ∷ tape) ok_ enough = elim ok_ [ ]

-- If the socket accepts enough bytes and no send fails, the loop ends and all has been sent.
pub write_total :
    (data_ : Bytes) (tape : List Send)
    → NoFailure tape
    → length data_ ≤ accepts tape
    → write data_ tape ≡ wrote data_
unfolding write
write_total data_ tape fine enough = write_from_total [] data_ tape fine enough
