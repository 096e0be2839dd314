-- ===== src/Api/Lifetime.antt =====
-- The connections and the counters over a lifetime of the application.
use mathlib.Core.List.{reverse}
use paystream.Base.{
  ℕ, ◌+◌, ◌≡◌, refl, sym, ap, ◌∙◌, subst, List, [], ◌∷◌, ◌++◌, length, Option, some, inl, inr,
  arith,
}
use paystream.Base.Task.{ok}
use paystream.Breaker.{can_execute}
use paystream.Pool.{Pool}
use paystream.Pool.Conservation.{IsValid, ping_lem, init_lem}
use paystream.Pool.Lifecycle.{Disconnects, close_lem}
use paystream.Api.{
  Metrics, App, Clocks, Request, Response, served, http_error, degraded, no_features,
  validation_failed, failed, Handled, answers, hangs, Env, get_features, health,
}
use paystream.Api.Accounting.{tally, Accounts, Returned, get_features-Accounts}
use paystream.Api.Lifespan.{
  initial, Call, features, health_check, after_features, after_health, step, run, or_stuck,
  closed_by, shut_down, with_pool, lifespan,
}

-- The three connections, each once: in the order of their making, turned round.
pub data AreAll : List ℕ → Type 0 where
  first : AreAll (0 ∷ 1 ∷ 2 ∷ [])
  second : AreAll (1 ∷ 2 ∷ 0 ∷ [])
  third : AreAll (2 ∷ 0 ∷ 1 ∷ [])

-- A pool between two requests.
record Kept (p : Pool) : Type 0 where
  pub idle : AreAll p.idle
  pub size : p.pool_size ≡ 3
  pub unclosed : p.closed ≡ []

abbrev turned : List ℕ → List ℕ
turned [] = []
turned (conn ∷ rest) = rest ++ conn ∷ []

turned-AreAll : (xs : List ℕ) → AreAll xs → AreAll (turned xs)
turned-AreAll _ first = second
turned-AreAll _ second = third
turned-AreAll _ third = first

length-AreAll : (xs : List ℕ) → AreAll xs → length xs ≡ 3
length-AreAll _ first = refl
length-AreAll _ second = refl
length-AreAll _ third = refl

Kept-IsValid : (p : Pool) → Kept p → IsValid p
Kept-IsValid p k = record { bounded = omega (arith, length-AreAll p.idle k.idle, k.size) }

turned-Kept :
    (p : Pool) (conn : ℕ) (rest : List ℕ)
    → p.idle ≡ conn ∷ rest
    → Kept p
    → Kept (record p { idle = rest ++ conn ∷ [] })
turned-Kept p conn rest e k = record {
  idle = subst AreAll (ap turned e) (turned-AreAll p.idle k.idle);
  size = k.size;
  unclosed = k.unclosed;
}

returned-Kept : (p q : Pool) → Returned p q → Kept p → Kept q
returned-Kept p q (inl same) k = subst Kept (sym same) k
returned-Kept p q (inr (conn, rest, e, same)) k =
    subst Kept (sym same) (turned-Kept p conn rest e k)

closed-AreAll :
    (idle closed : List ℕ) → AreAll idle → closed ≡ [] → AreAll (reverse (reverse idle ++ closed))
closed-AreAll idle closed all e =
    subst (λ l. AreAll (reverse (reverse idle ++ l))) (sym e) (of_order idle all)
  where
    of_order : (conns : List ℕ) → AreAll conns → AreAll (reverse (reverse conns ++ []))
    of_order _ first = first
    of_order _ second = second
    of_order _ third = third

-- The counter of each status, all together.
abbrev pub answered : Metrics → ℕ
answered m = m.requests_ok + m.requests_not_found + m.requests_error

tally-answered :
    (r : Response) (elapsed : ℕ) (m : Metrics) → answered (tally r elapsed m) ≡ answered m + 1
tally-answered (served resp) elapsed m = omega arith
tally-answered (http_error status (degraded u)) elapsed m = omega arith
tally-answered (http_error status (no_features u)) elapsed m = omega arith
tally-answered (http_error status (validation_failed u)) elapsed m = omega arith
tally-answered (http_error status (failed e)) elapsed m = omega arith

-- How many of the calls are feature requests.
abbrev pub requests : List Call → ℕ
requests [] = 0
requests (features req clocks ∷ calls) = 1 + requests calls
requests (health_check ∷ calls) = requests calls

-- The application after calls with `n` feature requests, from `m` counted.
record Ran (m n : ℕ) (o : Option App) : Type 0 where
  pub app : App
  pub ends : o ≡ some app
  pub kept : Kept app.pool
  pub counted : answered app.metrics ≡ m + n

module _ (env : Env) where
  features-Ran :
      (app : App) (req : Request) (clocks : Clocks)
      → Kept app.pool
      → Ran (answered app.metrics) 1 (step env app (features req clocks))
  unfolding step
  features-Ran app req clocks k =
      of_handled (get_features env app req clocks)
        (get_features-Accounts env req clocks app (Kept-IsValid app.pool k))
    where
      of_handled :
          (h : Handled)
          → Accounts app.metrics app.pool clocks (can_execute app.breaker clocks.asked_at).0 h
          → Ran (answered app.metrics) 1 (after_features h)
      of_handled (answers app' r) (accounted, back) = record {
        app = app';
        ends = refl;
        kept = returned-Kept app.pool app'.pool back k;
        counted = ap answered (accounted.metrics) ∙ tally-answered r clocks.elapsed app.metrics;
      }
      of_handled hangs h = absurd h

  health-Ran :
      (app : App) → Kept app.pool → Ran (answered app.metrics) 0 (step env app health_check)
  unfolding step health
  health-Ran app k = of_idle app.pool.idle refl
    where
      of_idle :
          (idle : List ℕ)
          → app.pool.idle ≡ idle
          → Ran (answered app.metrics) 0 (after_health app (health env app))
      of_idle [] e = absurd (omega (arith, length-AreAll app.pool.idle k.idle, ap length e))
      of_idle (conn ∷ rest) e =
          rw (ping_lem app.pool conn rest (Kept-IsValid app.pool k) e env.driver, after_health)
            (record {
              app = record app { pool = record app.pool { idle = rest ++ conn ∷ [] } };
              ends = refl;
              kept = turned-Kept app.pool conn rest e k;
              counted = omega arith;
            })

  Ran-then :
      (calls : List Call) (m n l t : ℕ) (o : Option App)
      → t ≡ n + l
      → Ran m n o
      → ((app : App) → Kept app.pool → Ran (answered app.metrics) l (run env calls app))
      → Ran m t (or_stuck env o (run env calls))
  Ran-then calls m n l t o e ran next =
      let later = next ran.app ran.kept in
      subst (λ p. Ran m t (or_stuck env p (run env calls))) (sym ran.ends)
        (record {
          app = later.app;
          ends = later.ends;
          kept = later.kept;
          counted = omega (arith, e, ran.counted, later.counted);
        })

  run-Ran :
      (calls : List Call) (app : App)
      → Kept app.pool
      → Ran (answered app.metrics) (requests calls) (run env calls app)
  unfolding run
  run-Ran [] app k = record { app = app; ends = refl; kept = k; counted = omega arith }
  run-Ran (features req clocks ∷ calls) app k =
      Ran-then calls (answered app.metrics) 1 (requests calls) _ _ refl
        (features-Ran app req clocks k) (λ app' k'. run-Ran calls app' k')
  run-Ran (health_check ∷ calls) app k =
      Ran-then calls (answered app.metrics) 0 (requests calls) _ _ (omega arith) (health-Ran app k)
        (λ app' k'. run-Ran calls app' k')

  all_disconnect :
      ((conn : ℕ) → env.driver.disconnect conn ≡ ok tt)
      → (conns : List ℕ) → Disconnects env.driver conns
  all_disconnect h [] = tt
  all_disconnect h (conn ∷ conns) = (h conn, all_disconnect h conns)

  -- The application after a shutdown.
  pub record Shut (calls : List Call) : Type 0 where
    pub app : App
    pub ends : lifespan env calls ≡ some (app, ok tt)
    pub none_idle : app.pool.idle ≡ []
    pub all_closed : AreAll (reverse app.pool.closed)
    pub counted : answered app.metrics ≡ requests calls

  -- Where no disconnect raises, the application starts, answers any calls without getting stuck, and
  -- shuts down. Each of the three connections has then been closed once, whatever the database
  -- answered, and each feature request is counted under one status.
  pub lifespan-Shut :
      ((conn : ℕ) → env.driver.disconnect conn ≡ ok tt) → (calls : List Call) → Shut calls
  unfolding lifespan
  lifespan-Shut disconnects calls =
      let pool : Pool = record {
        idle = 0 ∷ 1 ∷ 2 ∷ [];
        pool_size = 3;
        next_client = 3;
        closed = [];
      } in
      let ran =
        run-Ran calls (initial pool) (record { idle = first; size = refl; unclosed = refl }) in
      let last = ran.app.pool in
      record {
        app = record ran.app {
          pool = record last { idle = []; closed = reverse last.idle ++ last.closed };
        };
        ends =
            ap (with_pool env calls) (init_lem 3)
            ∙ (ap (shut_down env) ran.ends
                ∙ ap (closed_by env ran.app)
                    (close_lem env.driver last (all_disconnect disconnects last.idle)));
        none_idle = refl;
        all_closed = closed-AreAll last.idle last.closed ran.kept.idle ran.kept.unclosed;
        counted = omega (arith, ran.counted);
      }
