-- ===== src/Api/Accounting.antt =====
-- What a request leaves behind, told from its response alone.
use paystream.Base.{
  subst, sym, ℕ, ◌+◌, ◌≡◌, refl, ◌⊎◌, inl, inr, Bool, true, false, List, [], ◌∷◌, ◌++◌, arith,
  Bool-cases,
}
use paystream.Base.Task.{runtime_error, Result, ok, raised}
use paystream.Breaker.{Breaker, can_execute, record_success, record_failure}
use paystream.Pool.{Pool, returns, raises, get, put, put_finally}
use paystream.Pool.Conservation.{IsValid}
use paystream.Features.{Row, is_valid}
use paystream.Base.Number.{Value}
use paystream.Clickhouse.{Reply}
use paystream.Base.{String}
use paystream.Api.{
  Metrics, App, Clocks, Request, Response, served, http_error, Detail, degraded, no_features,
  validation_failed, failed, Handled, answers, hangs, Env, get_features, query_pool, settle,
  respond, serve, decide, fetch, row_to_features,
}

-- The counters after a response: one request more under its status, one trip more for a refused
-- one, one validation failure more for a bad row, one latency observed unless it was refused.
abbrev pub tally : Response → ℕ → Metrics → Metrics
tally (served resp) elapsed m = record m {
  requests_ok = m.requests_ok + 1;
  latencies = elapsed ∷ m.latencies;
}
tally (http_error status (degraded u)) elapsed m = record m {
  requests_error = m.requests_error + 1;
  breaker_trips = m.breaker_trips + 1;
}
tally (http_error status (no_features u)) elapsed m = record m {
  requests_not_found = m.requests_not_found + 1;
  latencies = elapsed ∷ m.latencies;
}
tally (http_error status (validation_failed u)) elapsed m = record m {
  requests_error = m.requests_error + 1;
  validation_failures = m.validation_failures + 1;
  latencies = elapsed ∷ m.latencies;
}
tally (http_error status (failed e)) elapsed m = record m {
  requests_error = m.requests_error + 1;
  latencies = elapsed ∷ m.latencies;
}

-- The breaker after a response: only a served request is a success, and only an exception a failure.
abbrev pub noted : Response → Clocks → Breaker → Breaker
noted (served resp) clocks cb = record_success cb
noted (http_error status (failed e)) clocks cb = record_failure cb clocks.failed_at
noted (http_error status detail) clocks cb = cb

abbrev pub status_of : Detail → ℕ
status_of (degraded u) = 503
status_of (no_features u) = 404
status_of (validation_failed u) = 503
status_of (failed e) = 500

abbrev pub StatusFits : Response → Type 0
StatusFits (served resp) = Unit {0}
StatusFits (http_error status detail) = status ≡ status_of detail

-- The pool after a request: as it was, or with its oldest connection moved to the end.
abbrev pub Returned : Pool → Pool → Type 0
Returned p q =
    (q ≡ p)
    ⊎ ((conn : ℕ) × (rest : List ℕ) × (p.idle ≡ conn ∷ rest)
        × (q ≡ record p { idle = rest ++ conn ∷ [] }))

pub record Accounted (m : Metrics) (clocks : Clocks) (cb : Breaker) (app' : App) (r : Response)
    : Type 0 where
  pub metrics : app'.metrics ≡ tally r clocks.elapsed m
  pub breaker : app'.breaker ≡ noted r clocks cb
  pub status : StatusFits r

abbrev pub Settles : Metrics → Clocks → Breaker → Pool → Handled → Type 0
Settles m clocks cb pool (answers app' r) = Accounted m clocks cb app' r × (app'.pool ≡ pool)
Settles m clocks cb pool hangs = ⊥

abbrev pub Accounts : Metrics → Pool → Clocks → Breaker → Handled → Type 0
Accounts m pool clocks cb (answers app' r) = Accounted m clocks cb app' r × Returned pool app'.pool
Accounts m pool clocks cb hangs = ⊥

Settles→Accounts :
    (m : Metrics) (clocks : Clocks) (cb : Breaker) {p q : Pool} (h : Handled)
    → Returned p q
    → Settles m clocks cb q h
    → Accounts m p clocks cb h
Settles→Accounts m clocks cb {p} (answers app' r) back (accounted, same) =
    (accounted, subst (Returned p) (sym same) back)
Settles→Accounts m clocks cb hangs back s = s

module _ (env : Env) (req : Request) (clocks : Clocks) where
  serve-Settles :
      (app : App) (features : Row)
      → Settles app.metrics clocks app.breaker app.pool (
          serve env
            (record app {
              metrics = record app.metrics { latencies = clocks.elapsed ∷ app.metrics.latencies };
            })
            req
            clocks
            features)
  unfolding serve
  serve-Settles app features = elim (Bool-cases (is_valid env.pydantic env.float_of features)) [
    | inl good ↦ rw good (record { metrics = refl; breaker = refl; status = tt }, refl)
    | inr bad ↦ rw bad (record { metrics = refl; breaker = refl; status = refl }, refl)
  ]

  respond-Settles :
      (app : App) (cells : List (List Value)) (cols : List (String × String))
      → Settles app.metrics clocks app.breaker app.pool
          (respond env app req clocks (record { rows = cells; col_types = cols }))
  unfolding respond
  respond-Settles app [] cols = (record { metrics = refl; breaker = refl; status = refl }, refl)
  respond-Settles app (row ∷ cells) cols = serve-Settles app (row_to_features row _)

  settle-Settles :
      (app : App) (pool : Pool) (r : Result Reply)
      → Settles app.metrics clocks app.breaker pool (settle env app req clocks (returns r pool))
  unfolding settle
  settle-Settles app pool (ok reply) =
      respond-Settles (record app { pool = pool }) reply.rows reply.col_types
  settle-Settles app pool (raised e) =
      (record { metrics = refl; breaker = refl; status = refl }, refl)

  pub query_empty :
      (pool : Pool) → pool.idle ≡ [] → query_pool env pool req ≡ raises runtime_error pool
  unfolding query_pool get
  query_empty pool e = ground arith

  pub query_front :
      (pool : Pool) (conn : ℕ) (rest : List ℕ)
      → IsValid pool
      → pool.idle ≡ conn ∷ rest
      → query_pool env pool req
        ≡ returns (fetch env req conn) (record pool { idle = rest ++ conn ∷ [] })
  unfolding query_pool get put_finally put
  query_front pool conn rest v e = ground arith

  settle-Accounts :
      (app : App) (idle : List ℕ)
      → IsValid app.pool
      → app.pool.idle ≡ idle
      → Accounts app.metrics app.pool clocks app.breaker
          (settle env app req clocks (query_pool env app.pool req))
  settle-Accounts app [] v e =
      rw (query_empty app.pool e)
        (unfold settle in (record { metrics = refl; breaker = refl; status = refl }, inl refl))
  settle-Accounts app (conn ∷ rest) v e = rw (query_front app.pool conn rest v e) (
      Settles→Accounts app.metrics clocks app.breaker
        (settle env app req clocks (returns (fetch env req conn) _)) (inr (conn, rest, e, refl))
        (settle-Settles app _ (fetch env req conn)))

  decide-Accounts :
      (app : App) (cb : Breaker) (allowed : Bool)
      → IsValid app.pool
      → Accounts app.metrics app.pool clocks cb (decide env app req clocks (cb, allowed))
  unfolding decide
  decide-Accounts app cb false v =
      (record { metrics = refl; breaker = refl; status = refl }, inl refl)
  decide-Accounts app cb true v = settle-Accounts (record app { breaker = cb }) app.pool.idle v refl

  -- A request always gets an answer. Its connection is back in the pool on every path, and the
  -- metrics, the breaker and the status are what the response says.
  pub get_features-Accounts :
      (app : App)
      → IsValid app.pool
      → Accounts app.metrics app.pool clocks
          (can_execute app.breaker clocks.asked_at).0
          (get_features env app req clocks)
  unfolding get_features
  get_features-Accounts app v =
      let (cb, allowed) = can_execute app.breaker clocks.asked_at in
      decide-Accounts app cb allowed v
