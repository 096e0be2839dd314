-- ===== src/Pool.antt =====
-- `ClickHousePool` of api/feature_store/clickhouse_client.py. The event loop runs a handler from its
-- start to its end, so calls do not overlap. `Client` is the driver's: a connection is a number, and
-- the parameter `Driver` says what `execute` and `disconnect` do on each.
-- `Queue(maxsize)` is a list, oldest first; `get` on an empty queue raises `Empty` after the timeout,
-- and `put` on a full one waits for ever, which is `blocked`.
pub mod Conservation
pub mod Leak
pub mod Lifecycle
use paystream.Base.{
  ℕ, zero, suc, ◌+◌, Bool, true, false, String, List, [], ◌∷◌, ◌++◌, length, ltb, if◌then◌else◌,
}
use paystream.Clickhouse.{Query, select_one, Reply, Driver}
use paystream.Base.Task.{Exn, runtime_error, Result, ok, raised}

pub record Pool : Type 0 where
  pub idle : List ℕ  -- `_pool`
  pub pool_size : ℕ  -- its `maxsize`
  pub next_client : ℕ  -- the next connection that `Client(...)` makes
  pub closed : List ℕ  -- connections on which `disconnect` was called, latest first

-- What a method leaves behind: it returns, raises, or waits for ever.
pub data Outcome (A : Type 0) : Type 0 where
  returns : A → Pool → Outcome A
  raises : Exn → Pool → Outcome A
  blocked : Outcome A

abbrev pub pool_after : {A : Type 0} → Outcome A → Pool → Pool
pool_after (returns a p) q = p
pool_after (raises e p) q = p
pool_after blocked q = q

module _ {A B : Type 0} where
  infixl 5 ◌>>=◌
  abbrev pub ◌>>=◌ : Outcome A → (A → Pool → Outcome B) → Outcome B
  returns a p >>= f = f a p
  raises e p >>= f = raises e p
  blocked >>= f = blocked

create_connection : Pool → ℕ × Pool
create_connection p = (p.next_client, record p { next_client = p.next_client + 1 })

unfoldable pub get : Pool → Outcome ℕ
get p = elim p.idle [
  | [] ↦ raises runtime_error p
  | conn ∷ rest ↦ returns conn (record p { idle = rest })
]

unfoldable pub put : Pool → ℕ → Outcome (Unit {0})
put p conn =
    if ltb (length p.idle) p.pool_size
    then returns tt (record p { idle = p.idle ++ conn ∷ [] })
    else blocked

-- The loop of `__init__`.
fill : ℕ → Pool → Outcome (Unit {0})
unfolding create_connection put
fill zero p = returns tt p
fill (suc n) p = let (conn, q) = create_connection p in put q conn >>= λ _ r. fill n r

unfoldable pub init : ℕ → Outcome (Unit {0})
unfolding fill
init pool_size =
    fill pool_size (record { idle = []; pool_size = pool_size; next_client = 0; closed = [] })

disconnected : Pool → ℕ → Pool
disconnected p conn = record p { closed = conn ∷ p.closed }

-- The handler of `execute`: `disconnect` may raise and that is passed over; the fresh connection is
-- put back, and the error raised again.
replace_broken : Pool → ℕ → Exn → {A : Type 0} → Outcome A
unfolding create_connection put disconnected
replace_broken p conn e =
    let (fresh, q) = create_connection (disconnected p conn) in put q fresh >>= λ _ r. raises e r

-- `finally: self.put(conn)`
unfoldable pub put_finally : {A : Type 0} → Pool → ℕ → A → Outcome A
unfolding put
put_finally p conn a = put p conn >>= λ _ q. returns a q

unfoldable pub answered : Result Reply → Bool
answered (ok rows) = true
answered (raised e) = false

module _ (d : Driver) where
  -- The `else` clause of a `try` runs only if the body is left at its end. This body is left by
  -- `return`, so the `else` with its `put` never runs.
  outcome_of : Result Reply → ℕ → Pool → Outcome Reply
  unfolding replace_broken
  outcome_of (ok rows) conn p = returns rows p
  outcome_of (raised e) conn p = replace_broken p conn e

  unfoldable pub execute : Query → Pool → Outcome Reply
  unfolding get outcome_of
  execute query p = get p >>= λ conn q. outcome_of (d.execute conn query) conn q

  unfoldable pub ping : Pool → Outcome Bool
  unfolding get put_finally answered
  ping p = get p >>= λ conn q. put_finally q conn (answered (d.execute conn select_one))

  -- The loop of `close`; no other thread takes from the queue, so `get_nowait` does not raise.
  drain : List ℕ → Pool → Outcome (Unit {0})
  unfolding disconnected
  drain [] p = returns tt (record p { idle = [] })
  drain (conn ∷ rest) p = elim (d.disconnect conn) [
    | ok _ ↦ drain rest (disconnected p conn)
    | raised e ↦ raises e (record (disconnected p conn) { idle = rest })
  ]

  unfoldable pub close : Pool → Outcome (Unit {0})
  unfolding drain
  close p = drain p.idle p
