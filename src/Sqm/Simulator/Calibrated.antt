-- ===== src/Sqm/Simulator/Calibrated.antt =====
-- The device of sqm_device.cpp on a connection to the simulator: the calibration values that it
-- sets are confirmed, and are those that it reads afterwards.
use night_watcher.Base.{
  ℕ, ◌≤◌, zero, suc, false, Option, none, some, List, [], ◌∷◌, ◌++◌, ◌≡◌, refl, ap, ◌∙◌, sym, arith,
  Bytes, codes, take, length, is_empty, Result, ok, err, runtime_error,
}
use mathlib.Core.List.{append_assoc, append-nil}
use night_watcher.Sqm.Device.{Transport, query, calibration}
use night_watcher.Sqm.Line.{strip_cr, take_line}
use night_watcher.Sqm.Protocol.{Calibration, parse_calibration}
use night_watcher.Sqm.Protocol.Responses.{IsLine, Reads, parse_calibration-IsLine}
use night_watcher.Sqm.Simulator.Chunks.{joined}
use night_watcher.Sqm.Simulator.{SimState, Prints, crlf, cx_line, response_for, serve}
use night_watcher.Text.Split.{Free, join}
use night_watcher.Text.Cut.{cut-append}
use night_watcher.Text.Trim.{last_is, last_is-append}
use night_watcher.Text.{is_space, trim}

-- A connection: the simulator with the bytes that it has not answered yet, and its answers that have
-- not been read.
pub record Link (D : Type 0) : Type 0 where
  pub sim : SimState D
  pub unanswered : Bytes
  pub inbox : Bytes

abbrev pub next_line : {D : Type 0} → Link D → Option (Bytes × Bytes) → Result Bytes × Link D
next_line s none = (err (runtime_error (codes "read timeout")), s)
next_line s (some (l, behind)) = (ok l, record s { inbox = behind })

-- A command arrives in one segment, and all that the simulator sends is read line by line.
abbrev pub link : {D : Type 0} → Prints D → Transport (Link D)
link p = record {
  write = λ cmd s.
      let r = serve p s.unanswered s.sim (cmd ∷ []) in
      (ok tt, record { sim = r.2; unanswered = r.1; inbox = s.inbox ++ joined r.0 });
  read_line = λ s. next_line s (take_line s.inbox);
}

-- With nothing on its way.
abbrev pub idle : {D : Type 0} → SimState D → Link D
idle st = record { sim = st; unanswered = []; inbox = [] }

strip_cr-append : (s : Bytes) → strip_cr (s ++ 13 ∷ []) ≡ s
unfolding strip_cr
strip_cr-append [] = refl
strip_cr-append (c ∷ []) = refl
strip_cr-append (c ∷ d ∷ s) = ap (◌∷◌ c) (strip_cr-append (d ∷ s))

pub Free-append : (c : ℕ) (s t : Bytes) → Free c s → Free c t → Free c (s ++ t)
Free-append c [] t f g = g
Free-append c (d ∷ s) t f g = (f.0, Free-append c s t f.1 g)

-- A line with its terminator is taken whole.
take_line-crlf : (l : Bytes) → Free b'\n' l → take_line (l ++ crlf) ≡ some (l, [])
unfolding take_line
take_line-crlf l f =
    ap take_line (sym (append_assoc l (13 ∷ []) (10 ∷ [])))
    ∙ rw (cut-append 10 (l ++ 13 ∷ []) [] (Free-append 10 l (13 ∷ []) f (refl, tt)), take_line)
        (ap (λ k. some (k, [])) (strip_cr-append l))

pub take_all : (n : ℕ) (s : Bytes) → length s ≤ n → take n s ≡ s
take_all zero [] h = refl
take_all (suc n) [] h = refl
take_all zero (c ∷ s) h = absurd (omega arith)
take_all (suc n) (c ∷ s) h = ap (◌∷◌ c) (take_all n s (omega arith))

is_empty-crlf : (l : Bytes) → is_empty (l ++ crlf) ≡ false
is_empty-crlf [] = refl
is_empty-crlf (c ∷ l) = refl

pub is_empty-append : (s : Bytes) (c : ℕ) → is_empty (s ++ c ∷ []) ≡ false
is_empty-append [] c = refl
is_empty-append (d ∷ s) c = refl

-- A text that ends in `c`.
abbrev pub EndsIn : ℕ → Bytes → Type 0
EndsIn c t = (a : Bytes) × (t ≡ a ++ c ∷ [])

pub EndsIn-append : (c : ℕ) (s t : Bytes) → EndsIn c t → EndsIn c (s ++ b',' ∷ t)
EndsIn-append c s t (a, e) =
    (s ++ b',' ∷ a, ap (λ x. s ++ b',' ∷ x) e ∙ sym (append_assoc s (b',' ∷ a) (c ∷ [])))

pub last_is-EndsIn :
    (c : ℕ) (t : Bytes) → is_space c ≡ false → EndsIn c t → last_is is_space t ≡ false
last_is-EndsIn c t b (a, e) = ap (last_is is_space) e ∙ (last_is-append is_space a c [] ∙ b)

module _ {D : Type 0} (p : Prints D) where
  serve_one :
      (cmd l : Bytes) (st st' : SimState D)
      → response_for p cmd st ≡ (l ++ crlf, st')
      → serve p [] st (cmd ∷ []) ≡ ((l ++ crlf) ∷ [], [], st')
  unfolding serve
  serve_one cmd l st st' e = rw (e, is_empty-crlf l)

  -- One exchange with an idle simulator: the response is a line, and the connection is idle again.
  pub exchange :
      {A : Type 0} (parse : Bytes → Result A) (cmd l : Bytes) (st st' : SimState D)
      → response_for p cmd st ≡ (l ++ crlf, st')
      → Free b'\n' l
      → query (link p) parse cmd (idle st) ≡ (parse l, idle st')
  unfolding query
  exchange parse cmd l st st' e f =
      rw (serve_one cmd l st st' e) (rw (append-nil (l ++ crlf), take_line-crlf l f))

  -- The fields of the calibration response.
  abbrev pub cx_items : SimState D → List Bytes
  cx_items st =
      codes "c"
      ∷ (p.wide2 st.light_offset ++ codes "m")
      ∷ (p.wide3 st.dark_period ++ codes "s")
      ∷ (p.spaced1 st.temp_light ++ codes "C")
      ∷ (p.wide2 st.sensor_offset ++ codes "m")
      ∷ (p.spaced1 st.temp_dark ++ codes "C")
      ∷ []

  cx_response : (st : SimState D) → response_for p (codes "cx") st ≡ (cx_line p st, st)
  unfolding response_for cx_line
  cx_response st = refl

  cx_line-items :
      (st : SimState D)
      → length (join b',' (cx_items st) ++ crlf) ≤ 127
      → cx_line p st ≡ join b',' (cx_items st) ++ crlf
  unfolding cx_line
  cx_line-items st h = ap (take 127) same ∙ take_all 127 (join b',' (cx_items st) ++ crlf) h
    where
      same :
          codes "c,"
            ++ (p.wide2 st.light_offset
                ++ (codes "m,"
                    ++ (p.wide3 st.dark_period
                        ++ (codes "s,"
                            ++ (p.spaced1 st.temp_light
                                ++ (codes "C,"
                                    ++ (p.wide2 st.sensor_offset
                                        ++ (codes "m,"
                                            ++ (p.spaced1 st.temp_dark ++ codes "C\r\n")))))))))
          ≡ join b',' (cx_items st) ++ crlf
      same = simp append_assoc

  module _ (stod : Bytes → Result D) where
    -- A printed value with its unit: it reads back, and holds no comma and no line break.
    abbrev pub Shown : Bytes → D → Type 0
    Shown text v = Reads stod text v × Free b',' text × Free b'\n' text

    pub record IsShown (st : SimState D) : Type 0 where
      pub shows_light : Shown (p.wide2 st.light_offset ++ codes "m") st.light_offset
      pub shows_period : Shown (p.wide3 st.dark_period ++ codes "s") st.dark_period
      pub shows_temp_light : Shown (p.spaced1 st.temp_light ++ codes "C") st.temp_light
      pub shows_sensor : Shown (p.wide2 st.sensor_offset ++ codes "m") st.sensor_offset
      pub shows_temp_dark : Shown (p.spaced1 st.temp_dark ++ codes "C") st.temp_dark
      pub line_fits : length (join b',' (cx_items st) ++ crlf) ≤ 127

    abbrev pub calibration_of : SimState D → Calibration D
    calibration_of st = record {
      light_cal_offset = st.light_offset;
      dark_cal_period_s = st.dark_period;
      temp_light_c = st.temp_light;
      sensor_offset = st.sensor_offset;
      temp_dark_c = st.temp_dark;
      raw = join b',' (cx_items st);
    }

    pub comma : (s t : Bytes) → Free b'\n' s → Free b'\n' t → Free b'\n' (s ++ b',' ∷ t)
    comma s t f g = Free-append b'\n' s (b',' ∷ t) f (refl, g)

    cx_items-lines : {st : SimState D} → IsShown st → Free b'\n' (join b',' (cx_items st))
    cx_items-lines {st} h =
        comma (codes "c") _ (refl, tt)
          (comma _ _ h.shows_light.2 (
            comma _ _ h.shows_period.2
              (comma _ _ h.shows_temp_light.2 (comma _ _ h.shows_sensor.2 h.shows_temp_dark.2))))

    cx_items-EndsIn : (st : SimState D) → EndsIn b'C' (join b',' (cx_items st))
    cx_items-EndsIn st = EndsIn-append b'C' (codes "c") _ (
        EndsIn-append b'C' (p.wide2 st.light_offset ++ codes "m") _ (
          EndsIn-append b'C' (p.wide3 st.dark_period ++ codes "s") _ (
            EndsIn-append b'C' (p.spaced1 st.temp_light ++ codes "C") _ (
              EndsIn-append b'C' (p.wide2 st.sensor_offset ++ codes "m") _
                (p.spaced1 st.temp_dark, refl)))))

    cx_items-IsLine :
        {st : SimState D} → IsShown st → IsLine (join b',' (cx_items st)) (cx_items st)
    unfolding is_space
    cx_items-IsLine {st} h = record {
      before = [];
      behind = [];
      splits = sym (append-nil (join b',' (cx_items st)));
      blank_before = tt;
      blank_behind = tt;
      bare = (refl, last_is-EndsIn b'C' _ refl (cx_items-EndsIn st));
      free = (
        (refl, tt),
        (
          h.shows_light.1,
          (h.shows_period.1, (h.shows_temp_light.1, (h.shows_sensor.1, (h.shows_temp_dark.1, tt)))),
        ),
      );
      full = rw (is_empty-append (p.spaced1 st.temp_dark) b'C');
    }

    -- The calibration that the device reads is the simulator's.
    pub calibration-idle :
        (fixed : ℕ → D → Bytes) {st : SimState D}
        → IsShown st
        → calibration (link p) stod fixed (idle st) ≡ (ok (calibration_of st), idle st)
    unfolding calibration trim
    calibration-idle fixed {st} h =
        exchange (parse_calibration stod) (codes "cx") (join b',' (cx_items st)) st st
          (cx_response st ∙ ap (λ l. (l, st)) (cx_line-items st h.line_fits)) (cx_items-lines h)
        ∙ ap (λ r. (r, idle st))
            (parse_calibration-IsLine stod (codes "c") [] refl (cx_items-IsLine h) h.shows_light.0
              h.shows_period.0 h.shows_temp_light.0 h.shows_sensor.0 h.shows_temp_dark.0)
