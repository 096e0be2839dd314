-- ===== src/Tests/ApiRuns.antt =====
-- Requests to the feature API.
use paystream.Base.{ℕ, ◌+◌, ◌≡◌, refl, String, none, some, List, [], ◌∷◌, ◌++◌, All, arith}
use paystream.Base.Int.{pos}
use paystream.Base.Number.{ratio, Value, number, text}
use paystream.Base.Task.{external_error, ok, raised, Result}
use paystream.Clickhouse.{Query, latest, Reply}
use paystream.Breaker
use paystream.Breaker.{Breaker, closed, open_, can_execute}
use paystream.Pool.{get, put, put_finally}
use paystream.Pool.Conservation.{IsValid}
use paystream.Features.{in_range, lookup, coerce_numeric, check_all, is_valid, fields, check}
use paystream.Features.Ranges.{Holds}
use paystream.Api.{
  App, Clocks, Request, FeatureResponse, served, http_error, degraded, answers, Env, get_features,
  fetch, query_pool, row_to_features, is_meta, meta_keys,
}
use paystream.Api.Accounting.{Accounts, get_features-Accounts}
use paystream.Api.Serving.{IsFaithful, served-IsFaithful, served-Holds}
use paystream.Api.Outage.{run, response, after, outage_refuses}

abbrev whole : ℕ → Value
whole n = number (ratio (pos n) 0)

abbrev columns : List (String × String)
columns =
    ("user_id", "UInt64")
    ∷ ("snapshot_ts", "DateTime64(3)")
    ∷ ("valid_from", "DateTime64(3)")
    ∷ ("valid_to", "DateTime64(3)")
    ∷ ("feature_version", "String")
    ∷ ("tx_velocity_7d", "UInt16")
    ∷ ("tx_velocity_30d", "UInt16")
    ∷ ("avg_tx_amount_30d", "Decimal(10, 2)")
    ∷ ("repayment_rate_90d", "Float32")
    ∷ ("merchant_diversity_30d", "UInt8")
    ∷ ("declined_rate_7d", "Float32")
    ∷ ("active_installments", "UInt8")
    ∷ ("days_since_first_tx", "UInt16")
    ∷ []

abbrev stored_row : List Value
stored_row =
    whole 42
    ∷ text "2025-01-01"
    ∷ text "2025-01-01"
    ∷ text "2025-01-02"
    ∷ text "v2.1.0"
    ∷ whole 5
    ∷ whole 15
    ∷ number (ratio (pos 5001) 1)
    ∷ number (ratio (pos 3) 3)
    ∷ whole 8
    ∷ number (ratio (pos 1) 9)
    ∷ whole 3
    ∷ whole 200
    ∷ []

abbrev accept : Query → Result Reply
accept (latest user version) = ok (record { rows = stored_row ∷ []; col_types = columns })
accept _ = ok (record { rows = []; col_types = columns })

abbrev pub env : Env
env = record {
  driver = record { execute = λ conn query. accept query; disconnect = λ conn. ok tt };
  pydantic = record { accepts = in_range; finite_exact = λ kind z d. refl };
  float_of = λ s. none;
  feature_version = "v2.1.0";
  round_ms = λ us. us;
}

abbrev down : Env
down = record env {
  driver = record { execute = λ conn query. raised external_error; disconnect = λ conn. ok tt };
}

abbrev started : App
started = record {
  breaker = record {
    state = closed;
    failure_count = 0;
    failure_threshold = 3;
    recovery_timeout = 30;
    last_failure_time = 0;
  };
  pool = record { idle = 0 ∷ 1 ∷ 2 ∷ []; pool_size = 3; next_client = 3; closed = [] };
  metrics = record {
    requests_ok = 0;
    requests_not_found = 0;
    requests_error = 0;
    breaker_trips = 0;
    validation_failures = 0;
    latencies = [];
  };
}

abbrev started-IsValid : IsValid started.pool
started-IsValid = record { bounded = omega arith }

-- A point-in-time request that falls back to the latest row.
abbrev pub request : Request
request = record { user_id = pos 42; as_of = some "2024-06-01" }

abbrev pub at : ℕ → Clocks
at t = record { asked_at = t; failed_at = t + 1; elapsed = 1200 }

abbrev answer : FeatureResponse
answer = record {
  user_id = pos 42;
  as_of = some "2024-06-01";
  feature_version = "v2.1.0";
  latency_ms = 1200;
  features =
      ("snapshot_ts", text "2025-01-01")
      ∷ ("tx_velocity_7d", whole 5)
      ∷ ("tx_velocity_30d", whole 15)
      ∷ ("avg_tx_amount_30d", number (ratio (pos 5001) 1))
      ∷ ("repayment_rate_90d", number (ratio (pos 3) 3))
      ∷ ("merchant_diversity_30d", whole 8)
      ∷ ("declined_rate_7d", number (ratio (pos 1) 9))
      ∷ ("active_installments", whole 3)
      ∷ ("days_since_first_tx", whole 200)
      ∷ [];
}

abbrev answered_app : App
answered_app = record started {
  pool = record started.pool { idle = 1 ∷ 2 ∷ 0 ∷ [] };
  metrics = record started.metrics { requests_ok = 1; latencies = 1200 ∷ [] };
}

get_features_run : get_features env started request (at 7) ≡ answers answered_app (served answer)
unfolding get_features query_pool fetch get put put_finally can_execute Breaker.record_success
    row_to_features is_meta is_valid check_all check coerce_numeric lookup in_range
get_features_run = refl

get_features-Accounts_example :
    Accounts started.metrics started.pool
      (at 7)
      (can_execute started.breaker 7).0
      (get_features env started request (at 7))
get_features-Accounts_example = get_features-Accounts env request (at 7) started started-IsValid

served-IsFaithful_example :
    (conn : ℕ) × (rest : List ℕ) × (started.pool.idle ≡ conn ∷ rest)
    × IsFaithful env request conn answer
served-IsFaithful_example =
    served-IsFaithful env request (at 7) started answered_app answer started-IsValid
      get_features_run

served-Holds_example :
    All (Holds env.pydantic env.float_of answer.features) fields
    × All (λ key. lookup key answer.features ≡ none) meta_keys
served-Holds_example =
    served-Holds env request (at 7) started answered_app answer started-IsValid get_features_run

outage_refuses_example :
    let q = run down started (((request, at 1) ∷ (request, at 5) ∷ []) ++ (request, at 9) ∷ []) in
    let h = get_features down q request (at 39) in
    (response h ≡ some (http_error 503 (degraded (pos 42))))
    × ((after h q).pool ≡ q.pool)
    × ((after h q).breaker ≡ q.breaker)
outage_refuses_example =
    outage_refuses down ((request, at 1) ∷ (request, at 5) ∷ []) (request, at 9) started request
      (at 39) (λ conn query. (external_error, refl)) started-IsValid refl refl refl (omega arith)
