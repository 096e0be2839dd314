-- ===== src/Api/Types.antt =====
-- The state, the requests and the responses of the feature API: api/feature_store/metrics.py, the
-- response models of api/feature_store/models.py, and what the handlers take from outside.
use paystream.Base.{ℕ, String, List, Option}
use paystream.Base.Int.{ℤ}
use paystream.Base.Number.{Number}
use paystream.Base.Task.{Exn}
use paystream.Clickhouse.{Driver}
use paystream.Breaker.{Breaker}
use paystream.Pool.{Pool}
use paystream.Features.{Row, Pydantic}

pub record Metrics : Type 0 where
  pub requests_ok : ℕ
  pub requests_not_found : ℕ
  pub requests_error : ℕ
  pub breaker_trips : ℕ
  pub validation_failures : ℕ
  pub latencies : List ℕ  -- observations, latest first

pub record App : Type 0 where
  pub breaker : Breaker
  pub pool : Pool
  pub metrics : Metrics

-- `time.time()` in the breaker, and the microseconds that `perf_counter` counts.
pub record Clocks : Type 0 where
  pub asked_at : ℕ
  pub failed_at : ℕ
  pub elapsed : ℕ

pub record Request : Type 0 where
  pub user_id : ℤ
  pub as_of : Option String

pub record FeatureResponse : Type 0 where
  pub user_id : ℤ
  pub as_of : Option String
  pub feature_version : String
  pub latency_ms : ℕ
  pub features : Row

pub data Detail : Type 0 where
  degraded : ℤ → Detail
  no_features : ℤ → Detail
  validation_failed : ℤ → Detail
  failed : Exn → Detail

pub data Response : Type 0 where
  served : FeatureResponse → Response
  http_error : ℕ → Detail → Response

pub data Handled : Type 0 where
  answers : App → Response → Handled
  hangs : Handled

pub record HealthResponse : Type 0 where
  pub status : String
  pub clickhouse : String
  pub version : String

-- The parameters: the driver, pydantic, `float(str)`, FEATURE_VERSION, and `round(x / 1000, 2)`.
pub record Env : Type 0 where
  pub driver : Driver
  pub pydantic : Pydantic
  pub float_of : String → Option Number
  pub feature_version : String
  pub round_ms : ℕ → ℕ
