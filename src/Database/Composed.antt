-- ===== src/Database/Composed.antt =====
-- The statements that Columns composes are sound: the lists of columns and values, the upserts, the
-- updates and the searches.
use night_watcher.Base.{
  true, false, none, some, List, [], ◌∷◌, ◌++◌, ◌≡◌, refl, subst, if◌then◌else◌, Bytes, codes, map,
  All, arith, is_empty, All-append,
}
use Prim.Native.String.{String}
use mathlib.Core.List.{append_assoc, append-nil}
use night_watcher.Database.{Piece, code, Statement, sql}
use night_watcher.Database.Columns
use night_watcher.Database.Lexer.{sound, tame, is_tame, is_quote, starts_code}
use night_watcher.Database.Fits.{Fits, FitsPiece, code-Fits, quoted-Fits, tame-append}

-- A separator of one tame byte or more.
abbrev pub Separates : String → Type 0
Separates sep = (tame (codes sep) ≡ true) × (is_empty (codes sep) ≡ false)

sep-Fits :
    (sep : String) (q : Statement)
    → Separates sep
    → sound q ≡ true
    → (sound (sql sep ∷ q) ≡ true) × (starts_code (sql sep ∷ q) ≡ true)
unfolding sql sound starts_code
sep-Fits String.[] q h k = cc
sep-Fits (String.◌∷◌ c s) q h k = ground arith

pub separated-Fits :
    (sep : String) (items : List Statement)
    → Separates sep
    → All Fits items
    → Fits (Columns.separated sep items)
unfolding Columns.separated
separated-Fits sep [] h fits q k l = l
separated-Fits sep (item ∷ []) h fits q k l = fits.0 q k l
separated-Fits sep (item ∷ next ∷ items) h fits q k l =
    let rest = separated-Fits sep (next ∷ items) h fits.1 q k l in
    let (s, c) = sep-Fits sep (Columns.separated sep (next ∷ items) ++ q) h rest in
    rw (append_assoc item (sql sep ∷ Columns.separated sep (next ∷ items)) q) (fits.0 _ c s)

-- A setting of a tame column.
abbrev pub IsSetting : Columns.Setting → Type 0
IsSetting (c, none) = tame c ≡ true
IsSetting (c, some v) = (tame c ≡ true) × FitsPiece v

tame_values : tame (codes "=VALUES(") ≡ true
unfolding tame is_tame is_quote
tame_values = refl

tame_equals : tame (codes "=") ≡ true
unfolding tame is_tame is_quote
tame_equals = refl

tame_paren : tame (codes ")") ≡ true
unfolding tame is_tame is_quote
tame_paren = refl

tame-column_update : (c : Bytes) → tame c ≡ true → tame (Columns.column_update c) ≡ true
unfolding Columns.column_update
tame-column_update c h = tame-append c (codes "=VALUES(" ++ (c ++ codes ")")) h (
    tame-append (codes "=VALUES(") (c ++ codes ")") tame_values
      (tame-append c (codes ")") h tame_paren))

AreColumns : Columns.Columns → Type 0
AreColumns st =
    All (λ c. tame c ≡ true) st.cols × (All FitsPiece st.vals × All (λ c. tame c ≡ true) st.ups)

add_all-AreColumns :
    (st : Columns.Columns) (settings : List Columns.Setting)
    → AreColumns st
    → All IsSetting settings
    → AreColumns (Columns.add_all st settings)
unfolding Columns.add_all Columns.add AreColumns
add_all-AreColumns st [] h k = h
add_all-AreColumns st ((c, none) ∷ settings) h k = add_all-AreColumns st settings h k.1
add_all-AreColumns st ((c, some v) ∷ settings) h k =
    add_all-AreColumns _ settings
      (
        All-append _ st.cols (c ∷ []) h.0 (k.0.0, tt),
        (
          All-append _ st.vals (v ∷ []) h.1.0 (k.0.1, tt),
          All-append _ st.ups (Columns.column_update c ∷ []) h.1.1 (tame-column_update c k.0.0, tt),
        ),
      )
      k.1

id_tame : tame (codes "id") ≡ true
unfolding tame is_tame is_quote
id_tame = refl

columns-AreColumns :
    (id : Bytes) (settings : List Columns.Setting)
    → All IsSetting settings
    → AreColumns (Columns.columns id settings)
unfolding Columns.columns AreColumns
columns-AreColumns id settings k =
    add_all-AreColumns _ settings ((id_tame, tt), ((quoted-Fits id, tt), tt)) k

map-code-Fits : (cs : List Bytes) → All (λ c. tame c ≡ true) cs → All Fits (map Columns.one_code cs)
map-code-Fits [] h = tt
map-code-Fits (c ∷ cs) h = (code-Fits c h.0, map-code-Fits cs h.1)

pub map-one-Fits : (ps : List Piece) → All FitsPiece ps → All Fits (map Columns.one ps)
map-one-Fits [] h = tt
map-one-Fits (p ∷ ps) h = (h.0, map-one-Fits ps h.1)

pub comma-Separates : Separates ", "
unfolding tame is_tame is_quote
comma-Separates = (refl, refl)

abbrev pub Tame : String → Type 0
Tame s = tame (codes s) ≡ true

-- A list that fits is sound alone.
alone-sound :
    (items : List Statement)
    → Fits (Columns.separated ", " items)
    → sound (Columns.separated ", " items) ≡ true
unfolding sound starts_code
alone-sound items h =
    subst (λ q. sound q ≡ true) (append-nil (Columns.separated ", " items)) (h [] refl refl)

updates-sound :
    (ups : List Bytes)
    → All (λ c. tame c ≡ true) ups
    → sound (
        if is_empty ups
        then []
        else sql " ON DUPLICATE KEY UPDATE " ∷ Columns.separated ", " (map Columns.one_code ups))
      ≡ true
unfolding sql sound tame is_tame is_quote
updates-sound [] h = refl
updates-sound (u ∷ ups) h =
    alone-sound _ (separated-Fits ", " _ comma-Separates (map-code-Fits (u ∷ ups) h))

pub upsert_statement-sound :
    (table : String) (id : Bytes) (settings : List Columns.Setting)
    → Tame table
    → All IsSetting settings
    → sound (Columns.upsert_statement table id settings) ≡ true
unfolding Columns.upsert_statement sql sound tame is_tame is_quote starts_code AreColumns
upsert_statement-sound table id settings h k =
    let (cs, (vs, us)) = columns-AreColumns id settings k in
    rw h (
      separated-Fits ", " _ comma-Separates (map-code-Fits _ cs) _ refl
        (separated-Fits ", " _ comma-Separates (map-one-Fits _ vs) _ refl (updates-sound _ us)))

set-Fits :
    (c : Bytes) (v : Piece) → tame c ≡ true → FitsPiece v → Fits (code (c ++ codes "=") ∷ v ∷ [])
unfolding sound
set-Fits c v h fits q k l = rw (tame-append c (codes "=") h tame_equals) (fits q k l)

sets-Fits :
    (settings : List Columns.Setting) → All IsSetting settings → All Fits (Columns.sets settings)
unfolding Columns.sets
sets-Fits [] h = tt
sets-Fits ((c, none) ∷ settings) h = sets-Fits settings h.1
sets-Fits ((c, some v) ∷ settings) h = (set-Fits c v h.0.0 h.0.1, sets-Fits settings h.1)

pub update_statement-sound :
    (table : String) (id : Bytes) (settings : List Columns.Setting)
    → Tame table
    → All IsSetting settings
    → sound (Columns.update_statement table id settings) ≡ true
unfolding Columns.update_statement sql sound tame is_tame is_quote starts_code
update_statement-sound table id settings h k =
    rw h (separated-Fits ", " _ comma-Separates (sets-Fits settings k) _ refl refl)

pub find_statement-sound :
    (cols table : String) (id : Bytes)
    → Tame cols
    → Tame table
    → sound (Columns.find_statement cols table id) ≡ true
unfolding Columns.find_statement sql sound tame is_tame is_quote starts_code
find_statement-sound cols table id h k = rw (h, k) refl
