-- ===== src/Tests/HookRuns.antt =====
-- A query of the hook and its rows.
use paystream.Base.{ℕ, ◌≡◌, refl, Bool, true, List, [], ◌∷◌, Option, none, some}
use paystream.Base.Task.{Result, ok}
use paystream.Hook.{
  Text, Json, text, Parsers, execute_clickhouse_query, is_select, fill_in, replace, read_answer,
  rows_of, row, auto_convert, strip,
}
use paystream.Hook.Lines.{lines_of, parsed, execute_clickhouse_query-lines}

-- ` select %(k)s`
abbrev sql : Text
sql = 32 ∷ 115 ∷ 101 ∷ 108 ∷ 101 ∷ 99 ∷ 116 ∷ 32 ∷ 37 ∷ 40 ∷ 107 ∷ 41 ∷ 115 ∷ []

abbrev params : List (Text × Text)
params = (107 ∷ [], 55 ∷ []) ∷ []

abbrev query : Text
query = 115 ∷ 101 ∷ 108 ∷ 101 ∷ 99 ∷ 116 ∷ 32 ∷ 55 ∷ []

query_run : fill_in params (strip sql) ≡ query
unfolding fill_in replace
query_run = refl

query_selects : is_select (fill_in params (strip sql)) ≡ true
unfolding is_select fill_in replace
query_selects = refl

abbrev inners : List Text
inners = (97 ∷ []) ∷ (98 ∷ []) ∷ []

abbrev post : Bool → Text → Result (ℕ × Text)
post selects sent = ok (200, lines_of inners)

-- Of an object `{c}`: the character as the value of the key `k`.
abbrev load : Text → Option (List (Text × Json))
load (b ∷ c ∷ cs) = some ((107 ∷ [], text (c ∷ [])) ∷ [])
load (b ∷ []) = none
load [] = none

abbrev parsers : Parsers
parsers = record { loads = load; float_of = λ t. none; int_of = λ t. none }

execute_clickhouse_query_run :
    execute_clickhouse_query parsers post sql params
    ≡ ok (((107 ∷ [], text (97 ∷ [])) ∷ []) ∷ ((107 ∷ [], text (98 ∷ [])) ∷ []) ∷ [])
unfolding execute_clickhouse_query is_select fill_in replace read_answer rows_of row auto_convert
execute_clickhouse_query_run = refl

execute_clickhouse_query-lines_example :
    execute_clickhouse_query parsers post sql params ≡ parsed parsers inners
execute_clickhouse_query-lines_example =
    execute_clickhouse_query-lines parsers post sql params (97 ∷ []) ((98 ∷ []) ∷ []) query_selects
      refl ((refl, tt), ((refl, tt), tt))
