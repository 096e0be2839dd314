-- ===== src/Api/Outage.antt =====
-- A database that is down: the breaker opens, and requests are then refused without a query.
use paystream.Base.{
  subst, ap, ℕ, ◌+◌, ◌<◌, ◌≡◌, refl, inl, inr, true, false, List, [], ◌∷◌, ◌++◌, Option, none, some,
  length, length-append, arith, Option-cases,
}
use paystream.Base.Task.{Exn, raised}
use paystream.Clickhouse.{Query, latest, point_in_time}
use paystream.Breaker.{Breaker, closed, open_, can_execute, record_failure}
use paystream.Pool.Conservation.{IsValid}
use paystream.Api.Accounting.{query_empty, query_front}
use paystream.Api.{
  App, Clocks, Request, Response, http_error, degraded, Handled, answers, hangs, Env, get_features,
  query_pool, settle, decide, fetch, or_latest, reject,
}

-- The state after a request.
abbrev pub after : Handled → App → App
after (answers app r) before = app
after hangs before = before

admits : (cb : Breaker) (now : ℕ) → cb.state ≡ closed → can_execute cb now ≡ (cb, true)
unfolding can_execute
admits cb now c = ground arith

refuses :
    (cb : Breaker) (now : ℕ)
    → cb.state ≡ open_
    → now < cb.last_failure_time + cb.recovery_timeout
    → can_execute cb now ≡ (cb, false)
unfolding can_execute
refuses cb now o early = ground arith

abbrev pub response : Handled → Option Response
response (answers app r) = some r
response hangs = none

module _ (env : Env) where
  -- Requests one after another.
  unfoldable pub run : App → List (Request × Clocks) → App
  run app [] = app
  run app ((req, clocks) ∷ rs) = run (after (get_features env app req clocks) app) rs

  -- Every query on every connection raises.
  abbrev pub IsDown : Type 0
  IsDown = (conn : ℕ) (query : Query) → (e : Exn) × (env.driver.execute conn query ≡ raised e)

  fetch_down : (req : Request) (conn : ℕ) → IsDown → (e : Exn) × (fetch env req conn ≡ raised e)
  unfolding fetch or_latest
  fetch_down req conn down = elim (Option-cases req.as_of) [
    | inl now ↦
        let (e, x) = down conn (latest req.user_id env.feature_version) in (e, rw (now, fetch) x)
    | inr (t, then) ↦
        let (e, x) = down conn (point_in_time req.user_id env.feature_version t) in
        (e, rw (then, fetch) (rw (x, or_latest) refl))
  ]

  -- A failed request: its error is counted by the breaker, and its connection is back.
  pub record Failed (app app' : App) (clocks : Clocks) : Type 0 where
    pub breaker : app'.breaker ≡ record_failure app.breaker clocks.failed_at
    pub valid : IsValid app'.pool

  module _ (req : Request) (clocks : Clocks) (down : IsDown) where
    settle_down :
        (app : App) (idle : List ℕ)
        → IsValid app.pool
        → app.pool.idle ≡ idle
        → Failed app (after (settle env app req clocks (query_pool env app.pool req)) app) clocks
    settle_down app [] v e =
        rw (query_empty env req clocks app.pool e)
          (unfold settle in (record { breaker = refl; valid = v }))
    settle_down app (conn ∷ rest) v e =
        let (x, fails) = fetch_down req conn down in
        rw (query_front env req clocks app.pool conn rest v e, fails)
          (unfold settle in
            (record {
              breaker = refl;
              valid = record {
                bounded = omega (arith, length-append rest (conn ∷ []), ap length e);
              };
            }))

    request_down :
        (app : App)
        → IsValid app.pool
        → app.breaker.state ≡ closed
        → Failed app (after (get_features env app req clocks) app) clocks
    unfolding get_features
    request_down app v c =
        rw (admits app.breaker clocks.asked_at c, get_features)
          (settle_down app app.pool.idle v refl)

  -- While the breaker is closed and the failures stay below the threshold, it stays closed.
  record Below (app : App) (threshold timeout failures : ℕ) : Type 0 where
    valid : IsValid app.pool
    still_closed : app.breaker.state ≡ closed
    count_exact : app.breaker.failure_count ≡ failures
    threshold_kept : app.breaker.failure_threshold ≡ threshold
    timeout_kept : app.breaker.recovery_timeout ≡ timeout

  Below-step :
      {app app' : App} {clocks : Clocks} (threshold timeout failures : ℕ)
      → failures + 1 < threshold
      → Below app threshold timeout failures
      → Failed app app' clocks
      → Below app' threshold timeout (failures + 1)
  Below-step threshold timeout failures few b f = record {
    valid = f.valid;
    still_closed = rw f.breaker (unfold record_failure in ground arith);
    count_exact = rw f.breaker (unfold record_failure in ground arith);
    threshold_kept = rw f.breaker (unfold record_failure in ground arith);
    timeout_kept = rw f.breaker (unfold record_failure in ground arith);
  }

  run-Below :
      (down : IsDown) (rs : List (Request × Clocks)) (app : App) (threshold timeout failures : ℕ)
      → failures + length rs < threshold
      → Below app threshold timeout failures
      → Below (run app rs) threshold timeout (failures + length rs)
  unfolding run
  run-Below down [] app threshold timeout failures few b =
      subst (Below app threshold timeout) (omega arith) b
  run-Below down ((req, clocks) ∷ rs) app threshold timeout failures few b =
      subst (Below (run (after (get_features env app req clocks) app) rs) threshold timeout)
        (omega arith)
        (run-Below down rs _ threshold timeout (failures + 1) (omega arith) (
          Below-step threshold timeout failures (omega arith) b
            (request_down req clocks down app b.valid b.still_closed)))

  run-append :
      (xs ys : List (Request × Clocks)) (app : App) → run app (xs ++ ys) ≡ run (run app xs) ys
  unfolding run
  run-append [] ys app = refl
  run-append ((req, clocks) ∷ xs) ys app =
      run-append xs ys (after (get_features env app req clocks) app)

  Below-opens :
      {app app' : App} {clocks : Clocks} (threshold timeout failures : ℕ)
      → failures + 1 ≡ threshold
      → Below app threshold timeout failures
      → Failed app app' clocks
      → (app'.breaker.state ≡ open_)
        × (app'.breaker.last_failure_time ≡ clocks.failed_at)
        × (app'.breaker.recovery_timeout ≡ timeout)
  Below-opens threshold timeout failures full b f =
      rw f.breaker (unfold record_failure in (ground arith, ground arith, ground arith))

  -- The request that reaches the threshold opens the breaker.
  run_opens :
      (down : IsDown) (rs : List (Request × Clocks)) (last : Request × Clocks) (app : App)
      (threshold timeout : ℕ)
      → length rs + 1 ≡ threshold
      → Below app threshold timeout 0
      → let q = run app (rs ++ last ∷ []) in
        (q.breaker.state ≡ open_)
        × (q.breaker.last_failure_time ≡ last.1.failed_at)
        × (q.breaker.recovery_timeout ≡ timeout)
  unfolding run
  run_opens down rs (req, clocks) app threshold timeout e b =
      let below = run-Below down rs app threshold timeout 0 (omega arith) b in
      rw (run-append rs ((req, clocks) ∷ []) app) (
        Below-opens threshold timeout (0 + length rs) (omega arith) below
          (request_down req clocks down (run app rs) below.valid below.still_closed))

  -- While the database is down, `failure_threshold` requests in a row, the last of which fails at
  -- `last.1.failed_at`, open a closed breaker with no failures: every request that asks before
  -- `recovery_timeout` has passed is answered 503, and the pool and its connections are not touched.
  pub outage_refuses :
      (rs : List (Request × Clocks)) (last : Request × Clocks) (app : App) (req : Request)
      (clocks : Clocks)
      → IsDown
      → IsValid app.pool
      → app.breaker.state ≡ closed
      → app.breaker.failure_count ≡ 0
      → length rs + 1 ≡ app.breaker.failure_threshold
      → clocks.asked_at < last.1.failed_at + app.breaker.recovery_timeout
      → let q = run app (rs ++ last ∷ []) in
        let h = get_features env q req clocks in
        (response h ≡ some (http_error 503 (degraded req.user_id)))
        × ((after h q).pool ≡ q.pool)
        × ((after h q).breaker ≡ q.breaker)
  unfolding get_features decide reject
  outage_refuses rs last app req clocks down v c z e early =
      let opened =
        run_opens down rs last app app.breaker.failure_threshold app.breaker.recovery_timeout e
          (record {
            valid = v;
            still_closed = c;
            count_exact = z;
            threshold_kept = refl;
            timeout_kept = refl;
          }) in
      rw
        (
          refuses (run app (rs ++ last ∷ [])).breaker clocks.asked_at opened.0 (omega arith),
          get_features,
        )
        (refl, refl, refl)
