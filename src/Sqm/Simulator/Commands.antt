-- ===== src/Sqm/Simulator/Commands.antt =====
-- The commands that set a calibration value, as the simulator takes them.
use night_watcher.Text.Cut.{cut-append}
use night_watcher.Base.{
  ℕ, ◌≤◌, ◌<◌, false, some, List, [], ◌∷◌, ◌++◌, ◌≡◌, refl, ap, ◌∙◌, sym, arith, ◌==◌, Bytes, codes,
  take, length,
}
use mathlib.Core.List.{append_assoc}
use night_watcher.Sqm.Simulator.Calibrated.{Free-append, take_all}
use night_watcher.Sqm.Simulator.Chunks.{find_behind-Free, found-Free}
use night_watcher.Sqm.Simulator.{
  SimState, Prints, crlf, set_and_echo, set_value, set_loop, response_for,
}
use night_watcher.Text.Split.{Free, join}
use night_watcher.Text.{trim}

-- The values that can be set.
pub data Setting : Type 0 where
  light_offset light_temp dark_period dark_temp : Setting

-- What the device sends for one: the digit, and the decimals.
abbrev pub which_of : Setting → ℕ
which_of light_offset = b'5'
which_of light_temp = b'6'
which_of dark_period = b'7'
which_of dark_temp = b'8'

abbrev pub decimals_of : Setting → ℕ
decimals_of dark_period = 3
decimals_of _ = 2

-- A text between the command's start and its end: with no byte of the other commands.
pub record IsPlain (text : Bytes) : Type 0 where
  pub no_a : Free b'A' text
  pub no_b : Free b'B' text
  pub no_d : Free b'D' text
  pub no_x : Free b'x' text
  pub no_z : Free b'z' text

which_apart :
    (s : Setting)
    → ((which_of s == b'A') ≡ false)
      × ((which_of s == b'B') ≡ false)
      × ((which_of s == b'D') ≡ false)
which_apart light_offset = (refl, refl, refl)
which_apart light_temp = (refl, refl, refl)
which_apart dark_period = (refl, refl, refl)
which_apart dark_temp = (refl, refl, refl)

-- The command with the text of a number.
abbrev pub command : Setting → Bytes → Bytes
command s text = codes "zcal" ++ which_of s ∷ (text ++ codes "x")

-- It has no other capital letter than its text.
armless :
    (c : ℕ) (s : Setting) (text : Bytes)
    → c < b'a'
    → (which_of s == c) ≡ false
    → Free c text
    → Free c (command s text)
armless c s text lt w f = (
  ground arith,
  (
    ground arith,
    (ground arith, (ground arith, (w, Free-append c text (codes "x") f (ground arith, tt)))),
  ),
)

pub z_tag : trim (codes "z") ≡ codes "z"
unfolding trim
z_tag = refl

pub which_lem :
    (s : Setting)
    → ((which_of s == b',') ≡ false)
      × ((which_of s == b'\n') ≡ false)
      × (trim (which_of s ∷ []) ≡ which_of s ∷ [])
unfolding trim
which_lem light_offset = (refl, refl, refl)
which_lem light_temp = (refl, refl, refl)
which_lem dark_period = (refl, refl, refl)
which_lem dark_temp = (refl, refl, refl)

unit_and_end :
    (t : Bytes) (u : ℕ)
    → length ((t ++ u ∷ []) ++ crlf) ≤ 59
    → take 59 (t ++ u ∷ crlf) ≡ (t ++ u ∷ []) ++ crlf
unit_and_end t u h =
    ap (take 59) (sym (append_assoc t (u ∷ []) crlf)) ∙ take_all 59 ((t ++ u ∷ []) ++ crlf) h

-- The unit in the echo.
abbrev pub unit_of : Setting → ℕ
unit_of light_offset = b'm'
unit_of dark_period = b's'
unit_of _ = b'C'

module _ {D : Type 0} (p : Prints D) where
  -- The simulator's state behind it.
  abbrev pub stored : Setting → D → SimState D → SimState D
  stored light_offset v st = record st { light_offset = v }
  stored light_temp v st = record st { temp_light = v }
  stored dark_period v st = record st { dark_period = v }
  stored dark_temp v st = record st { temp_dark = v }

  -- The number in the echo.
  abbrev pub printed : Setting → D → Bytes
  printed light_offset v = p.wide2 v
  printed light_temp v = p.short1 v
  printed dark_period v = p.wide3 v
  printed dark_temp v = p.short1 v

  abbrev pub echo_items : Setting → D → List Bytes
  echo_items s v = codes "z" ∷ (which_of s ∷ []) ∷ (printed s v ++ unit_of s ∷ []) ∷ []

  set_and_echo-stored :
      (s : Setting) (v : D) (st : SimState D)
      → length (join b',' (echo_items s v) ++ crlf) ≤ 63
      → set_and_echo p (which_of s) v st ≡ (join b',' (echo_items s v) ++ crlf, stored s v st)
  unfolding set_and_echo
  set_and_echo-stored light_offset v st h = rw (unit_and_end (p.wide2 v) b'm' (omega (arith, h)))
  set_and_echo-stored light_temp v st h = rw (unit_and_end (p.short1 v) b'C' (omega (arith, h)))
  set_and_echo-stored dark_period v st h = rw (unit_and_end (p.wide3 v) b's' (omega (arith, h)))
  set_and_echo-stored dark_temp v st h = rw (unit_and_end (p.short1 v) b'C' (omega (arith, h)))

  -- The loop takes the command by its digit.
  set_loop-which :
      (s : Setting) (rest : Bytes) (st : SimState D)
      → Free b'z' rest
      → set_loop p (b'5' ∷ b'6' ∷ b'7' ∷ b'8' ∷ []) (codes "zcal" ++ which_of s ∷ rest) st
        ≡ some (set_value p (which_of s) rest st)
  unfolding set_loop
  set_loop-which light_offset rest st f = refl
  set_loop-which light_temp rest st f = rw (find_behind-Free b'z' (codes "zcal5") rest refl f)
  set_loop-which dark_period rest st f = rw (
    find_behind-Free b'z' (codes "zcal5") rest refl f,
    find_behind-Free b'z' (codes "zcal6") rest refl f,
  )
  set_loop-which dark_temp rest st f = rw (
    find_behind-Free b'z' (codes "zcal5") rest refl f,
    find_behind-Free b'z' (codes "zcal6") rest refl f,
    find_behind-Free b'z' (codes "zcal7") rest refl f,
  )

  set_value-text :
      (which : ℕ) (text : Bytes) (st : SimState D)
      → Free b'x' text
      → set_value p which (text ++ codes "x") st ≡ set_and_echo p which (p.atof text) st
  unfolding set_value
  set_value-text which text st f = rw (cut-append b'x' text [] f, set_value)

  -- The whole of the response.
  pub response_for-set :
      (s : Setting) (text : Bytes) (st : SimState D)
      → IsPlain text
      → length (join b',' (echo_items s (p.atof text)) ++ crlf) ≤ 63
      → response_for p (command s text) st
        ≡ (join b',' (echo_items s (p.atof text)) ++ crlf, stored s (p.atof text) st)
  unfolding response_for
  response_for-set s text st i h =
      rw
        (
          found-Free b'A' (codes "zcalA") (command s text) refl
              (armless b'A' s text (omega arith) (which_apart s).0 i.no_a),
          found-Free b'B' (codes "zcalB") (command s text) refl
              (armless b'B' s text (omega arith) (which_apart s).1 i.no_b),
          found-Free b'D' (codes "zcalD") (command s text) refl
              (armless b'D' s text (omega arith) (which_apart s).2 i.no_d),
          set_loop-which s (text ++ codes "x") st
              (Free-append b'z' text (codes "x") i.no_z (refl, tt)),
        )
        (set_value-text (which_of s) text st i.no_x ∙ set_and_echo-stored s (p.atof text) st h)
