-- ===== src/Clickhouse.antt =====
-- The queries that the feature API sends to ClickHouse, the replies, and the driver, which is outside.
use paystream.Base.{ℕ, String, List}
use paystream.Base.Int.{ℤ}
use paystream.Base.Number.{Value}
use paystream.Base.Task.{Result}

pub data Query : Type 0 where
  select_one : Query
  latest : ℤ → String → Query  -- LATEST_QUERY, by user and feature version
  point_in_time : ℤ → String → String → Query  -- POINT_IN_TIME_QUERY, by `as_of` too
  other : String → Query

-- The reply of `execute(..., with_column_types=True)`: the rows, and a name and a type per column.
pub record Reply : Type 0 where
  pub rows : List (List Value)
  pub col_types : List (String × String)

-- What a connection does when it is used.
pub record Driver : Type 0 where
  pub execute : ℕ → Query → Result Reply
  pub disconnect : ℕ → Result (Unit {0})
