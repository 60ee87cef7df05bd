-- ===== src/Sqm/Simulator.antt =====
-- tools/sqm-sim.cpp: the simulated device. `double` with atof and the printf conversions of the
-- source is a parameter; the bytes of each recv are a list of chunks.
pub mod Chunks
pub mod Calibrated
pub mod Commands
pub mod Confirmed
use night_watcher.Base.{
  ℕ, Bool, true, false, not, Option, none, some, List, [], ◌∷◌, ◌++◌, if◌then◌else◌, ◌==◌, Bytes,
  codes, take, is_empty, is_some,
}
use night_watcher.Text.{cut}

-- What is behind `t` at the start of a text, and behind its first occurrence: `buf.find(t)`.
unfoldable pub strip_prefix : Bytes → Bytes → Option Bytes
strip_prefix [] s = some s
strip_prefix (c ∷ t) [] = none
strip_prefix (c ∷ t) (d ∷ s) = let rest = strip_prefix t s in if c == d then rest else none

unfoldable pub find_behind : Bytes → Bytes → Option Bytes
unfolding strip_prefix
find_behind t [] = strip_prefix t []
find_behind t (c ∷ s) = elim (strip_prefix t (c ∷ s)) [
  | some rest ↦ some rest
  | none ↦ find_behind t s
]

unfoldable pub found : Bytes → Bytes → Bool
unfolding find_behind
found t s = is_some (find_behind t s)

pub record SimState (D : Type 0) : Type 0 where
  pub light_offset : D
  pub dark_period : D
  pub temp_light : D
  pub sensor_offset : D
  pub temp_dark : D
  pub armed : ℕ
  pub locked : Bool

-- atof, and the conversions %011.2f, %011.3f, % 06.1f and %05.1f.
pub record Prints (D : Type 0) : Type 0 where
  pub atof : Bytes → D
  pub wide2 : D → Bytes
  pub wide3 : D → Bytes
  pub spaced1 : D → Bytes
  pub short1 : D → Bytes

abbrev pub crlf : Bytes
crlf = codes "\r\n"

-- The response to zcalA, zcalB and zcalD.
unfoldable pub armed_response : {D : Type 0} → Bytes → SimState D → Bytes
armed_response start st = start ++ (if st.locked then b'L' else b'U') ∷ crlf

module _ {D : Type 0} (p : Prints D) where
  -- snprintf into a buffer of 128 bytes.
  unfoldable pub cx_line : SimState D → Bytes
  cx_line st = take 127 (
      codes "c,"
      ++ (p.wide2 st.light_offset
          ++ (codes "m,"
              ++ (p.wide3 st.dark_period
                  ++ (codes "s,"
                      ++ (p.spaced1 st.temp_light
                          ++ (codes "C,"
                              ++ (p.wide2 st.sensor_offset
                                  ++ (codes "m,"
                                      ++ (p.spaced1 st.temp_dark ++ codes "C\r\n"))))))))))

  -- The body of the loop over '5' to '8' behind the tests: the response, cut off at the buffer of 64
  -- bytes, and the state.
  unfoldable pub set_and_echo : ℕ → D → SimState D → Bytes × SimState D
  set_and_echo which v st =
      if which == b'5'
      then (take 63 (codes "z,5," ++ (p.wide2 v ++ codes "m\r\n")), record st { light_offset = v })
      else if which == b'6'
      then (take 63 (codes "z,6," ++ (p.short1 v ++ codes "C\r\n")), record st { temp_light = v })
      else if which == b'7'
      then (take 63 (codes "z,7," ++ (p.wide3 v ++ codes "s\r\n")), record st { dark_period = v })
      else (take 63 (codes "z,8," ++ (p.short1 v ++ codes "C\r\n")), record st { temp_dark = v })

  -- The number up to the 'x'; without one the response is empty.
  unfoldable pub set_value : ℕ → Bytes → SimState D → Bytes × SimState D
  unfolding cut set_and_echo
  set_value which behind st = elim (cut b'x' behind) [
    | none ↦ ([], st)
    | some (digits, _) ↦ set_and_echo which (p.atof digits) st
  ]

  -- The loop over `which`; `none` where it goes on to the queries.
  unfoldable pub set_loop : List ℕ → Bytes → SimState D → Option (Bytes × SimState D)
  unfolding find_behind set_value
  set_loop [] buf st = none
  set_loop (which ∷ more) buf st = elim (find_behind (codes "zcal" ++ which ∷ []) buf) [
    | some behind ↦ some (set_value which behind st)
    | none ↦ set_loop more buf st
  ]

  unfoldable pub query_response : Bytes → SimState D → Bytes
  unfolding found cx_line
  query_response buf st =
      if found (codes "ix") buf
      then codes "i,00000002,00000003,00000001,00000413\r\n"
      else if found (codes "ux") buf
      then codes "u, 06.53m,0000022921Hz,0000000020c,0000000.000s, 039.4C\r\n"
      else if found (codes "cx") buf
      then cx_line st
      else if found (codes "rx") buf
      then codes "r, 06.70m,0000022921Hz,0000000020c,0000000.000s, 039.4C\r\n"
      else []

  abbrev or_query : Bytes → SimState D → Option (Bytes × SimState D) → Bytes × SimState D
  or_query buf st (some r) = r
  or_query buf st none = (query_response buf st, st)

  -- The response to the bytes so far, empty if there is none yet, and the state.
  unfoldable pub response_for : Bytes → SimState D → Bytes × SimState D
  unfolding found armed_response set_loop query_response
  response_for buf st =
      if found (codes "zcalA") buf
      then (armed_response (codes "zAa") st, record st { armed = b'A' })
      else if found (codes "zcalB") buf
      then (armed_response (codes "zBa") st, record st { armed = b'B' })
      else if found (codes "zcalD") buf
      then (armed_response (codes "zxd") st, record st { armed = 0 })
      else or_query buf st (set_loop (b'5' ∷ b'6' ∷ b'7' ∷ b'8' ∷ []) buf st)

  -- The loop over the recv calls of a connection: what it sends, and its buffer and state behind them.
  unfoldable pub serve : Bytes → SimState D → List Bytes → List Bytes × Bytes × SimState D
  unfolding response_for
  serve buf st [] = ([], buf, st)
  serve buf st (c ∷ chunks) =
      let r = response_for (buf ++ c) st in
      let kept = serve (buf ++ c) r.1 chunks in
      let cleared = serve [] r.1 chunks in
      if is_empty r.0 then kept else (r.0 ∷ cleared.0, cleared.1, cleared.2)
