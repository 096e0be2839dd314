-- ===== src/Api/Lifespan.antt =====
-- `lifespan` of api/feature_store/main.py: the pool of api/feature_store/config.py's POOL_SIZE
-- connections is made, the requests are handled one after another on the event loop, and the pool is
-- closed. An exception of `health` is answered by the framework.
use paystream.Base.{ℕ, List, [], ◌∷◌, Option, none, some}
use paystream.Base.Task.{Result, ok, raised}
use paystream.Breaker
use paystream.Breaker.{Breaker}
use paystream.Pool
use paystream.Pool.{Pool, Outcome, returns, raises, blocked, close}
use paystream.Api.{
  App, Clocks, Request, Handled, answers, hangs, Env, HealthResponse, get_features, health,
}

abbrev pub pool_size : ℕ
pool_size = 3

-- The breaker and the counters of the module.
abbrev pub initial : Pool → App
initial pool = record {
  breaker = Breaker.init 3 30;
  pool = pool;
  metrics = record {
    requests_ok = 0;
    requests_not_found = 0;
    requests_error = 0;
    breaker_trips = 0;
    validation_failures = 0;
    latencies = [];
  };
}

pub data Call : Type 0 where
  features : Request → Clocks → Call
  health_check : Call

-- `none` where the event loop is stuck.
abbrev pub after_features : Handled → Option App
after_features (answers app response) = some app
after_features hangs = none

abbrev pub after_health : App → Outcome HealthResponse → Option App
after_health app (returns response pool) = some (record app { pool = pool })
after_health app (raises e pool) = some (record app { pool = pool })
after_health app blocked = none

module _ (env : Env) where
  unfoldable pub step : App → Call → Option App
  step app (features req clocks) = after_features (get_features env app req clocks)
  step app health_check = after_health app (health env app)

  abbrev pub or_stuck : Option App → (App → Option App) → Option App
  or_stuck none f = none
  or_stuck (some app) f = f app

  unfoldable pub run : List Call → App → Option App
  unfolding step
  run [] app = some app
  run (call ∷ calls) app = or_stuck (step app call) (run calls)

  abbrev pub closed_by : App → Outcome (Unit {0}) → Option (App × Result (Unit {0}))
  closed_by app (returns u pool) = some (record app { pool = pool }, ok u)
  closed_by app (raises e pool) = some (record app { pool = pool }, raised e)
  closed_by app blocked = none

  abbrev pub shut_down : Option App → Option (App × Result (Unit {0}))
  shut_down none = none
  shut_down (some app) = closed_by app (close env.driver app.pool)

  abbrev pub with_pool : List Call → Outcome (Unit {0}) → Option (App × Result (Unit {0}))
  with_pool calls (returns u pool) = shut_down (run calls (initial pool))
  with_pool calls (raises e pool) = none
  with_pool calls blocked = none

  -- The application at the end, and how `close` ended.
  unfoldable pub lifespan : List Call → Option (App × Result (Unit {0}))
  unfolding run
  lifespan calls = with_pool calls (Pool.init pool_size)
