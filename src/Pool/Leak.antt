-- ===== src/Pool/Leak.antt =====
-- `execute` does not give back the connection of a query that succeeds.
use paystream.Base.{ap, ℕ, ◌≡◌, refl, List, [], ◌∷◌, length, arith}
use paystream.Base.Task.{runtime_error, ok}
use paystream.Clickhouse.{Query, Reply, Driver}
use paystream.Pool.{Pool, returns, raises, pool_after, get, execute}

module _ (d : Driver) where
  -- Queries one after another, each on the pool that the one before left.
  pub run : List Query → Pool → Pool
  run [] p = p
  run (query ∷ queries) p = run queries (pool_after (execute d query p) p)

  -- The driver answers every query on every connection.
  abbrev pub Answers : Type 0
  Answers = (conn : ℕ) (query : Query) → (rows : Reply) × (d.execute conn query ≡ ok rows)

  -- A query that succeeds leaves the pool without its connection.
  pub execute_leaks :
      (query : Query) (p : Pool) (conn : ℕ) (rest : List ℕ) (rows : Reply)
      → p.idle ≡ conn ∷ rest
      → d.execute conn query ≡ ok rows
      → execute d query p ≡ returns rows (record p { idle = rest })
  unfolding execute get
  execute_leaks query p conn rest rows front answer = ground arith

  run_drains :
      (queries : List Query) (p : Pool) (idle : List ℕ)
      → Answers
      → length queries ≡ length idle
      → p.idle ≡ idle
      → run queries p ≡ record p { idle = [] }
  unfolding run
  run_drains [] p [] all e front = ap (λ l. record p { idle = l }) front
  run_drains [] p (conn ∷ rest) all e front = absurd (omega arith)
  run_drains (query ∷ queries) p [] all e front = absurd (omega arith)
  run_drains (query ∷ queries) p (conn ∷ rest) all e front =
      rw (execute_leaks query p conn rest _ front (all conn query).1)
        (run_drains queries (record p { idle = rest }) rest all (omega arith) refl)

  -- If the driver answers every query, the pool has given out its last connection after as many
  -- queries as it had connections: none is left, and the next query raises.
  pub run_exhausts :
      (queries : List Query) (query : Query) (p : Pool)
      → Answers
      → length queries ≡ length p.idle
      → ((run queries p).idle ≡ [])
        × (execute d query (run queries p) ≡ raises runtime_error (run queries p))
  unfolding execute get
  run_exhausts queries query p all e = rw (run_drains queries p p.idle all e refl) (refl, refl)
