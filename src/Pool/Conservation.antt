-- ===== src/Pool/Conservation.antt =====
-- How many connections the pool holds before and after each call that keeps them.
use mathlib.Core.Path.{ap₂}
use native.Mathlib.Nat.{add-zero}
use paystream.Base.{
  ap, append-nil, append_assoc, ◌∙◌, ℕ, zero, suc, ◌+◌, ◌≤◌, ◌<◌, ◌≡◌, List, [], ◌∷◌, ◌++◌, length,
  length-append, arith,
}
use paystream.Base.Task.{Exn, raised}
use paystream.Clickhouse.{Query, select_one, Driver}
use paystream.Pool.{
  Pool, returns, raises, ◌>>=◌, get, put, put_finally, fill, init, execute, ping, answered,
  replace_broken,
}

-- The queue keeps to its bound.
pub record IsValid (p : Pool) : Type 0 where
  pub bounded : length p.idle ≤ p.pool_size

-- The numbers from `i`, `n` of them.
abbrev pub clients_from : ℕ → ℕ → List ℕ
clients_from i zero = []
clients_from i (suc n) = i ∷ clients_from (i + 1) n

put_free :
    (p : Pool) (conn : ℕ)
    → length p.idle < p.pool_size
    → put p conn ≡ returns tt (record p { idle = p.idle ++ conn ∷ [] })
unfolding put
put_free p conn h = ground arith

abbrev holding : List ℕ → ℕ → ℕ → Pool
holding idle size next = record { idle = idle; pool_size = size; next_client = next; closed = [] }

fill_lem :
    (n : ℕ) (idle : List ℕ) (size next : ℕ)
    → length idle + n ≤ size
    → fill n (holding idle size next)
      ≡ returns tt (holding (idle ++ clients_from next n) size (next + n))
unfolding fill
fill_lem zero idle size next h = rw (append-nil, add-zero)
fill_lem (suc n) idle size next h =
    rw (put_free (holding idle size (next + 1)) next (omega arith)) (
      fill_lem n (idle ++ next ∷ []) size (next + 1) (omega (arith, length-append idle (next ∷ [])))
      ∙ ap₂ (λ xs k. returns tt (holding xs size k))
          (append_assoc idle (next ∷ []) (clients_from (next + 1) n)) (omega arith))

-- A new pool of any size comes up, with that many connections, all different.
pub init_lem :
    (n : ℕ)
    → init n
      ≡ returns tt (record { idle = clients_from 0 n; pool_size = n; next_client = n; closed = [] })
unfolding init
init_lem n =
    fill_lem n [] n 0 (omega arith)
    ∙ ap (λ k. returns tt (holding (clients_from 0 n) n k)) (omega arith)

module _ (p : Pool) (conn : ℕ) (rest : List ℕ) (v : IsValid p) (front : p.idle ≡ conn ∷ rest) where
  -- A connection that was just taken can always be put back: `put` does not block.
  pub put-get : (get p >>= λ c q. put q c) ≡ returns tt (record p { idle = rest ++ conn ∷ [] })
  unfolding get put
  put-get = ground arith

  module _ (d : Driver) where
    -- A ping answers whether the oldest connection does, and puts it back either way.
    pub ping_lem :
        ping d p
        ≡ returns (answered (d.execute conn select_one)) (record p { idle = rest ++ conn ∷ [] })
    unfolding ping get put_finally put
    ping_lem = ground arith

    -- A query that fails costs no connection: the broken one is closed and a fresh one stands in.
    pub execute_failure :
        (query : Query) (e : Exn)
        → d.execute conn query ≡ raised e
        → execute d query p
          ≡ raises e (record p {
            idle = rest ++ p.next_client ∷ [];
            next_client = p.next_client + 1;
            closed = conn ∷ p.closed;
          })
    unfolding execute get put replace_broken
    execute_failure query e h = ground arith
