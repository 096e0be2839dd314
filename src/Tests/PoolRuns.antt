-- ===== src/Tests/PoolRuns.antt =====
-- The connection pool of api/feature_store/clickhouse_client.py, with POOL_SIZE 3.
use paystream.Base.{◌≡◌, refl, List, [], ◌∷◌, arith, ◌==◌, if◌then◌else◌}
use paystream.Base.Task.{external_error, runtime_error, ok, raised}
use paystream.Clickhouse.{Query, select_one, other, Reply, Driver}
use paystream.Pool.{Pool, returns, raises, get, put, init, execute}
use paystream.Pool.Conservation.{IsValid, execute_failure}
use paystream.Pool.Leak.{run, run_exhausts}

abbrev no_rows : Reply
no_rows = record { rows = []; col_types = [] }

-- Every connection but number 1 works.
abbrev driver : Driver
driver = record {
  execute = λ conn query. if conn == 1 then raised external_error else ok no_rows;
  disconnect = λ conn. if conn == 1 then raised external_error else ok tt;
}

-- Every connection works.
abbrev healthy : Driver
healthy = record { execute = λ conn query. ok no_rows; disconnect = λ conn. ok tt }

abbrev fresh : Pool
fresh = record { idle = 0 ∷ 1 ∷ 2 ∷ []; pool_size = 3; next_client = 3; closed = [] }

abbrev rotated : Pool
rotated = record fresh { idle = 1 ∷ 2 ∷ 0 ∷ [] }

init_run : init 3 ≡ returns tt fresh
unfolding init put
init_run = refl

-- The broken connection is replaced by number 3.
execute_replaces :
    execute driver (other "q") rotated
    ≡ raises external_error
        (record { idle = 2 ∷ 0 ∷ 3 ∷ []; pool_size = 3; next_client = 4; closed = 1 ∷ [] })
unfolding execute get put
execute_replaces = refl

fresh-IsValid : IsValid fresh
fresh-IsValid = record { bounded = omega arith }

execute_failure_example :
    execute driver (other "q") rotated
    ≡ raises external_error
        (record rotated { idle = 2 ∷ 0 ∷ 3 ∷ []; next_client = 4; closed = 1 ∷ [] })
execute_failure_example =
    execute_failure rotated 1 (2 ∷ 0 ∷ []) (record { bounded = omega arith }) refl driver
      (other "q") external_error refl

abbrev three : List Query
three = other "a" ∷ other "b" ∷ other "c" ∷ []

run_exhausts_example :
    ((run healthy three fresh).idle ≡ [])
    × (execute healthy select_one (run healthy three fresh)
        ≡ raises runtime_error (run healthy three fresh))
run_exhausts_example =
    run_exhausts healthy three select_one fresh (λ conn query. (no_rows, refl)) refl
