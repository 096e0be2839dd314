-- ===== src/Api.antt =====
-- The handlers `get_features` and `health` of api/feature_store/routes.py with the metrics of
-- api/feature_store/metrics.py. The handler has no `await`: on the event loop it runs from its start
-- to its end. What the clocks read during a request is `Clocks`; logging is left out.
mod Types
pub mod Accounting
pub mod Serving
pub mod Outage
pub mod Lifespan
pub mod Lifetime
pub use Types.*
use paystream.Base.{
  ℕ, suc, ◌+◌, Bool, true, false, String, List, [], ◌∷◌, ◌++◌, Option, none, some, str_eq, any, map,
  if◌then◌else◌,
}
use paystream.Base.Int.{ℤ}
use paystream.Base.Number.{Number, Value}
use paystream.Base.Task.{Exn, Result, ok, raised}
use paystream.Clickhouse.{Query, latest, point_in_time, Reply, Driver}
use paystream.Breaker.{Breaker, can_execute, record_success, record_failure}
use paystream.Pool.{Pool, Outcome, returns, raises, blocked, get, put_finally, ping}
use paystream.Features.{Row, Pydantic, is_valid}

abbrev pub meta_keys : List String
meta_keys = "user_id" ∷ "feature_version" ∷ "valid_from" ∷ "valid_to" ∷ []

-- `col in meta_keys`
unfoldable pub is_meta : String → Bool
is_meta col = any (λ key. str_eq col key) meta_keys

-- `_row_to_features`; `zip` stops with the shorter list.
unfoldable pub row_to_features : List Value → List String → Row
row_to_features (value ∷ row) (col ∷ columns) =
    let rest = row_to_features row columns in if is_meta col then rest else (col, value) ∷ rest
row_to_features [] columns = []
row_to_features (value ∷ row) [] = []

module _ (env : Env) where
  or_latest : ℤ → ℕ → Result Reply → Result Reply
  or_latest user conn (raised e) = raised e
  or_latest user conn (ok reply) = elim reply.rows [
    | [] ↦ env.driver.execute conn (latest user env.feature_version)
    | _ ∷ _ ↦ ok reply
  ]

  -- The queries of one request, on the connection taken for it.
  unfoldable pub fetch : Request → ℕ → Result Reply
  unfolding or_latest
  fetch req conn = elim req.as_of [
    | none ↦ env.driver.execute conn (latest req.user_id env.feature_version)
    | some t ↦
        or_latest req.user_id conn
          (env.driver.execute conn (point_in_time req.user_id env.feature_version t))
  ]

  -- The branch for an open breaker.
  reject : App → Request → Handled
  reject app req =
      answers
        (record app {
          metrics = record app.metrics {
            breaker_trips = app.metrics.breaker_trips + 1;
            requests_error = app.metrics.requests_error + 1;
          };
        })
        (http_error 503 (degraded req.user_id))

  -- `except Exception`
  on_exception : App → Clocks → Exn → Handled
  on_exception app clocks e =
      answers
        (record app {
          breaker = record_failure app.breaker clocks.failed_at;
          metrics = record app.metrics {
            latencies = clocks.elapsed ∷ app.metrics.latencies;
            requests_error = app.metrics.requests_error + 1;
          };
        })
        (http_error 500 (failed e))

  serve : App → Request → Clocks → Row → Handled
  serve app req clocks features =
      if is_valid env.pydantic env.float_of features
      then answers
          (record app {
            breaker = record_success app.breaker;
            metrics = record app.metrics { requests_ok = app.metrics.requests_ok + 1 };
          })
          (served (record {
            user_id = req.user_id;
            as_of = req.as_of;
            feature_version = env.feature_version;
            latency_ms = env.round_ms clocks.elapsed;
            features = features;
          }))
      else answers
          (record app {
            metrics = record app.metrics {
              validation_failures = app.metrics.validation_failures + 1;
              requests_error = app.metrics.requests_error + 1;
            };
          })
          (http_error 503 (validation_failed req.user_id))

  -- From `elapsed_ms = ...` to the end of the `try`.
  respond : App → Request → Clocks → Reply → Handled
  unfolding serve
  respond app req clocks reply =
      let seen = record app {
        metrics = record app.metrics { latencies = clocks.elapsed ∷ app.metrics.latencies };
      } in
      elim reply.rows [
        | [] ↦
            answers
              (record seen {
                metrics = record seen.metrics {
                  requests_not_found = seen.metrics.requests_not_found + 1;
                };
              })
              (http_error 404 (no_features req.user_id))
        | row ∷ _ ↦
            serve seen req clocks (row_to_features row (map (λ (name, _). name) reply.col_types))
      ]

  settle : App → Request → Clocks → Outcome (Result Reply) → Handled
  unfolding respond on_exception
  settle app req clocks blocked = hangs
  settle app req clocks (raises e pool) = on_exception (record app { pool = pool }) clocks e
  settle app req clocks (returns (raised e) pool) =
      on_exception (record app { pool = pool }) clocks e
  settle app req clocks (returns (ok reply) pool) =
      respond (record app { pool = pool }) req clocks reply

  -- `conn = pool.get()`, the queries, and `finally: pool.put(conn)`.
  unfoldable pub query_pool : Pool → Request → Outcome (Result Reply)
  query_pool pool req = elim (get pool) [
    | returns conn pool' ↦ put_finally pool' conn (fetch req conn)
    | raises e pool' ↦ raises e pool'
    | blocked ↦ blocked
  ]

  decide : App → Request → Clocks → Breaker × Bool → Handled
  unfolding reject settle
  decide app req clocks (breaker, false) = reject (record app { breaker = breaker }) req
  decide app req clocks (breaker, true) =
      settle (record app { breaker = breaker }) req clocks (query_pool app.pool req)

  unfoldable pub get_features : App → Request → Clocks → Handled
  unfolding decide
  get_features app req clocks = decide app req clocks (can_execute app.breaker clocks.asked_at)

  health_of : Bool → HealthResponse
  health_of ch_ok = record {
    status = if ch_ok then "healthy" else "degraded";
    clickhouse = if ch_ok then "ok" else "unreachable";
    version = env.feature_version;
  }

  unfoldable pub health : App → Outcome HealthResponse
  unfolding health_of ping
  health app = elim (ping env.driver app.pool) [
    | returns ch_ok pool ↦ returns (health_of ch_ok) pool
    | raises e pool ↦ raises e pool
    | blocked ↦ blocked
  ]
