-- ===== src/Hook.antt =====
-- dags/utils/clickhouse_hook.py: a query over HTTP and its rows. A text is the list of its codes, which
-- are ASCII. The HTTP client and `json.loads` are parameters, `none` of a conversion where it raises.
pub mod Lines
use paystream.Base.{
  ℕ, zero, suc, ◌+◌, ◌-◌, Bool, true, false, not, ◌&&◌, List, [], ◌∷◌, ◌++◌, map, length, any,
  Option, none, some, leb, ◌==◌, if◌then◌else◌,
}
use paystream.Base.Number.{Number}
use paystream.Base.Task.{Exn, Result, ok, raised, external_error}
use paystream.Quality.{is_space}

abbrev pub Text : Type 0
Text = List ℕ

abbrev pub to_upper : ℕ → ℕ
to_upper c = if leb 97 c && leb c 122 then c - 32 else c

abbrev pub lstrip : Text → Text
lstrip [] = []
lstrip (c ∷ text) = let rest = lstrip text in if is_space c then rest else c ∷ text

abbrev pub add_front : ℕ → Text → Text
add_front c [] = if is_space c then [] else c ∷ []
add_front c (d ∷ text) = c ∷ d ∷ text

abbrev pub rstrip : Text → Text
rstrip [] = []
rstrip (c ∷ text) = add_front c (rstrip text)

abbrev pub strip : Text → Text
strip text = rstrip (lstrip text)

abbrev pub starts_with : Text → Text → Bool
starts_with [] text = true
starts_with (p ∷ ps) [] = false
starts_with (p ∷ ps) (c ∷ text) = (p == c) && starts_with ps text

-- `query.replace(pattern, value)` for a pattern with a character; the number is how many characters of a
-- match are still to be passed over.
unfoldable pub replace : Text → Text → ℕ → Text → Text
replace pattern value skip [] = []
replace pattern value (suc skip) (c ∷ text) = replace pattern value skip text
replace pattern value zero (c ∷ text) =
    let matched = replace pattern value (length pattern - 1) text in
    let passed = replace pattern value zero text in
    if starts_with pattern (c ∷ text) then value ++ matched else c ∷ passed

-- `%(k)s`
abbrev pub placeholder : Text → Text
placeholder k = 37 ∷ 40 ∷ (k ++ 41 ∷ 115 ∷ [])

unfoldable pub fill_in : List (Text × Text) → Text → Text
unfolding replace
fill_in [] query = query
fill_in ((k, v) ∷ params) query = fill_in params (replace (placeholder k) v 0 query)

abbrev pub select : Text
select = 83 ∷ 69 ∷ 76 ∷ 69 ∷ 67 ∷ 84 ∷ []

unfoldable pub is_select : Text → Bool
is_select query = starts_with select (lstrip (map to_upper query))

-- `text.split("\n")`
abbrev pub add_to_first : ℕ → List Text → List Text
add_to_first c [] = (c ∷ []) ∷ []
add_to_first c (line ∷ lines) = (c ∷ line) ∷ lines

abbrev pub split : Text → List Text
split [] = [] ∷ []
split (c ∷ text) = let rest = split text in if c == 10 then [] ∷ rest else add_to_first c rest

abbrev pub is_nil : Text → Bool
is_nil [] = true
is_nil (c ∷ cs) = false

abbrev pub is_blank : Text → Bool
is_blank text = is_nil (strip text)

pub data Json : Type 0 where
  text : Text → Json
  num : Number → Json
  other : Json

pub record Parsers : Type 0 where
  pub loads : Text → Option (List (Text × Json))
  pub float_of : Text → Option Number
  pub int_of : Text → Option Number

abbrev pub or_text : Text → Option Number → Json
or_text v none = text v
or_text v (some x) = num x

module _ (parsers : Parsers) where
  -- `_auto_convert`
  unfoldable pub auto_convert : Json → Json
  auto_convert (num x) = num x
  auto_convert other = other
  auto_convert (text v) =
      or_text v (if any (λ c. c == 46) v then parsers.float_of v else parsers.int_of v)

  -- `Row(d)`
  unfoldable pub row : List (Text × Json) → List (Text × Json)
  unfolding auto_convert
  row [] = []
  row ((k, v) ∷ d) = (k, auto_convert v) ∷ row d

  abbrev pub add_row :
      Option (List (Text × Json))
      → Result (List (List (Text × Json)))
      → Result (List (List (Text × Json)))
  add_row none rest = raised external_error
  add_row (some d) (raised e) = raised e
  add_row (some d) (ok rows) = ok (row d ∷ rows)

  -- The loop over the lines.
  unfoldable pub rows_of : List Text → Result (List (List (Text × Json)))
  rows_of [] = ok []
  rows_of (line ∷ lines) =
      let rest = rows_of lines in if is_blank line then rest else add_row (parsers.loads line) rest

  -- What follows the answer to the POST.
  unfoldable pub read_answer : Bool → ℕ × Text → Result (List (List (Text × Json)))
  unfolding rows_of
  read_answer selects (status_code, body) =
      if not (status_code == 200)
      then raised external_error
      else if not selects
      then ok []
      else if is_blank body
      then ok []
      else rows_of (split (strip body))

  abbrev pub on_answer : Bool → Result (ℕ × Text) → Result (List (List (Text × Json)))
  on_answer selects (raised e) = raised e
  on_answer selects (ok answer) = read_answer selects answer

  -- `post` takes whether rows are asked for as JSONEachRow, and the query.
  unfoldable pub execute_clickhouse_query :
      (Bool → Text → Result (ℕ × Text))
      → Text
      → List (Text × Text)
      → Result (List (List (Text × Json)))
  unfolding fill_in is_select read_answer
  execute_clickhouse_query post sql params =
      let query = fill_in params (strip sql) in
      on_answer (is_select query) (post (is_select query) query)
