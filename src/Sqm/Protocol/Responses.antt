-- ===== src/Sqm/Protocol/Responses.antt =====
-- The parsers on the response lines of docs/sqm-protocol.md: each field reaches its member.
use mathlib.Core.List.{append-nil}
use night_watcher.Base.{
  ℕ, ◌<◌, ◌^◌, true, false, ◌&&◌, List, [], ◌∷◌, ◌++◌, ◌≡◌, ◌⊎◌, inl, inr, refl, sym, ap, ◌∙◌,
  arith, if◌then◌else◌, Bytes, codes, All, Result, ok, bytes_eq, get_or, not, ltb, length, suc,
}
use night_watcher.Base.Int.{ℤ, pos, to_int32, to_int32-eq_self}
use night_watcher.Sqm.Protocol.Fields.{IsField, to_ll-IsField, to_double-IsField, to_ll-digits}
use night_watcher.Sqm.Protocol.{to_ll, to_double, parse_reading, parse_unit_info, parse_calibration}
use night_watcher.Text.Number.{value}
use night_watcher.Text.Split.{Free, join, ends_full, split-join}
use night_watcher.Text.Trim.{IsBare, Only, trim-between}
use night_watcher.Text.{is_space, is_digit, drop_while, drop_end_while, trim, split, stoll}

-- A line of comma-separated items between white space, as `parse_*` sees it.
pub record IsLine (line : Bytes) (items : List Bytes) : Type 0 where
  pub before : Bytes
  pub behind : Bytes
  pub splits : line ≡ before ++ (join b',' items ++ behind)
  pub blank_before : Only is_space before
  pub blank_behind : Only is_space behind
  pub bare : IsBare is_space (join b',' items)
  pub free : All (Free b',') items
  pub full : ends_full items ≡ true

pub trim-IsLine :
    {line : Bytes} {items : List Bytes} → IsLine line items → trim line ≡ join b',' items
trim-IsLine {line} {items} l =
    ap trim l.splits
    ∙ trim-between l.before (join b',' items) l.behind l.blank_before l.bare l.blank_behind

pub split-IsLine :
    {line : Bytes} {items : List Bytes} → IsLine line items → split b',' (trim line) ≡ items
split-IsLine {line} {items} l =
    ap (split b',') (trim-IsLine l) ∙ split-join b',' items l.free l.full

-- A field whose token the conversion reads as `v`.
abbrev pub Reads : {A : Type 0} → (Bytes → Result A) → Bytes → A → Type 0
Reads conversion text v = (token : Bytes) × IsField text token × (conversion token ≡ ok v)

to_ll-Reads : {text : Bytes} {v : ℤ} → Reads stoll text v → to_ll text ≡ ok v
to_ll-Reads (token, f, e) = to_ll-IsField f ∙ e

six_items : (n : ℕ) → ltb (suc (suc (suc (suc (suc (suc n)))))) 6 ≡ false
six_items n = ground arith

five_items : (n : ℕ) → ltb (suc (suc (suc (suc (suc n))))) 5 ≡ false
five_items n = ground arith

-- The seventh item, when there is one.
serial_item :
    (more : List Bytes)
    → (if ltb 6 (suc (suc (suc (suc (suc (suc (length more)))))))
        then trim (get_or more 0 [])
        else [])
      ≡ trim (get_or more 0 [])
unfolding trim drop_while drop_end_while
serial_item [] = refl
serial_item (item ∷ more) = ground arith

module _ {D : Type 0} (stod : Bytes → Result D) where
  pub to_double-Reads : {text : Bytes} {v : D} → Reads stod text v → to_double stod text ≡ ok v
  to_double-Reads (token, f, e) = to_double-IsField stod f ∙ e

  is_tag :
      (tag : Bytes)
      → (trim tag ≡ codes "r") ⊎ (trim tag ≡ codes "u")
      → (not (bytes_eq (trim tag) (codes "r")) && not (bytes_eq (trim tag) (codes "u"))) ≡ false
  unfolding bytes_eq
  is_tag tag (inl e) = rw e refl
  is_tag tag (inr e) = rw e refl

  -- A line that starts with the tag r or u and holds five numeric fields gives their values, with
  -- the trimmed item behind them for a serial number, empty where there is none.
  pub parse_reading-IsLine :
      {line mag freq counts period temp : Bytes} {m p t : D} {f c : ℤ} (tag : Bytes)
      (more : List Bytes)
      → (trim tag ≡ codes "r") ⊎ (trim tag ≡ codes "u")
      → IsLine line (tag ∷ mag ∷ freq ∷ counts ∷ period ∷ temp ∷ more)
      → Reads stod mag m
      → Reads stoll freq f
      → Reads stoll counts c
      → Reads stod period p
      → Reads stod temp t
      → parse_reading stod line
        ≡ ok (record {
          mag_arcsec2 = m;
          freq_hz = f;
          period_counts = c;
          period_s = p;
          temp_c = t;
          serial = trim (get_or more 0 []);
          raw = join b',' (tag ∷ mag ∷ freq ∷ counts ∷ period ∷ temp ∷ more);
        })
  unfolding parse_reading
  parse_reading-IsLine {line} tag more k l m f c p t = rw (
    split-IsLine l,
    trim-IsLine l,
    six_items (length more),
    is_tag tag k,
    to_double-Reads m,
    to_ll-Reads f,
    to_ll-Reads c,
    to_double-Reads p,
    to_double-Reads t,
    serial_item more,
  )

  -- A line with the tag c and five numeric fields gives their values; more items are ignored.
  pub parse_calibration-IsLine :
      {line light dark temp_light offset temp_dark : Bytes} {l d tl o td : D} (tag : Bytes)
      (more : List Bytes)
      → trim tag ≡ codes "c"
      → IsLine line (tag ∷ light ∷ dark ∷ temp_light ∷ offset ∷ temp_dark ∷ more)
      → Reads stod light l
      → Reads stod dark d
      → Reads stod temp_light tl
      → Reads stod offset o
      → Reads stod temp_dark td
      → parse_calibration stod line
        ≡ ok (record {
          light_cal_offset = l;
          dark_cal_period_s = d;
          temp_light_c = tl;
          sensor_offset = o;
          temp_dark_c = td;
          raw = join b',' (tag ∷ light ∷ dark ∷ temp_light ∷ offset ∷ temp_dark ∷ more);
        })
  unfolding parse_calibration bytes_eq
  parse_calibration-IsLine tag more k line l d tl o td = rw (
    split-IsLine line,
    trim-IsLine line,
    six_items (length more),
    k,
    to_double-Reads l,
    to_double-Reads d,
    to_double-Reads tl,
    to_double-Reads o,
    to_double-Reads td,
  )

-- A text of decimal digits.
pub record IsNumber (text : Bytes) (n : ℕ) : Type 0 where
  pub first : ℕ
  pub others : Bytes
  pub splits : text ≡ first ∷ others
  pub digits : Only is_digit (first ∷ others)
  pub reads : value 0 (first ∷ others) ≡ n

to_ll-IsNumber : {text : Bytes} {n : ℕ} → IsNumber text n → n < 2 ^ 31 → to_ll text ≡ ok (pos n)
to_ll-IsNumber {text} {n} i lt =
    ap to_ll (i.splits ∙ sym (append-nil (i.first ∷ i.others)))
    ∙ to_ll-digits i.first i.others [] i.digits tt (omega (arith, i.reads))
    ∙ ap (λ k. ok (pos k)) i.reads

to_int32_small : (n : ℕ) → n < 2 ^ 31 → to_int32 (pos n) ≡ pos n
to_int32_small n lt = to_int32-eq_self (pos n) (omega arith) (omega arith)

-- A unit-information line in numbers below 2 ^ 31 is read whole: the numbers, zero-padded or not,
-- and the serial number as text, with its leading zeros.
pub parse_unit_info-IsLine :
    {line protocol model feature : Bytes} {p m f : ℕ} (tag serial : Bytes) (more : List Bytes)
    → trim tag ≡ codes "i"
    → IsLine line (tag ∷ protocol ∷ model ∷ feature ∷ serial ∷ more)
    → IsNumber protocol p
    → p < 2 ^ 31
    → IsNumber model m
    → m < 2 ^ 31
    → IsNumber feature f
    → f < 2 ^ 31
    → parse_unit_info line
      ≡ ok (record {
        protocol = pos p;
        model = pos m;
        feature = pos f;
        serial = trim serial;
        raw = join b',' (tag ∷ protocol ∷ model ∷ feature ∷ serial ∷ more);
      })
unfolding parse_unit_info bytes_eq
parse_unit_info-IsLine {p} {m} {f} tag serial more k l ip lp im lm jf lf = rw (
  split-IsLine l,
  trim-IsLine l,
  five_items (length more),
  k,
  to_ll-IsNumber ip lp,
  to_ll-IsNumber im lm,
  to_ll-IsNumber jf lf,
  to_int32_small p lp,
  to_int32_small m lm,
  to_int32_small f lf,
)
