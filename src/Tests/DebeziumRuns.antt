-- ===== src/Tests/DebeziumRuns.antt =====
-- Checks of the Debezium connectors.
use paystream.Base.{◌≡◌, refl, Bool, true, String, List, [], ◌∷◌, ◌++◌, All, some}
use paystream.Base.Task.{ok, raised, external_error}
use paystream.Debezium.{
  pg, mongo, Effect, restart, event, states, restarts, task_states, Detail, Services, Status,
  or_else, detail_ip, attachment_ip, task_ip, describe, get_task_ip, check_debezium, dag_run,
}
use paystream.Debezium.Restarts.{Allowed, check_debezium-Allowed}
use paystream.Debezium.Report.{response_to, check_debezium-Does}
use paystream.Debezium.Blindness.{dag_run_blind}

abbrev always : List Effect → Effect → Bool
always log w = true

abbrev taken : (log : List Effect) (w : Effect) → always log w ≡ true
taken log w = refl

abbrev detail : String → String → Detail
detail name value = record { name = some name; value = some value }

abbrev conn_status : Status
conn_status = record {
  connector = some "RUNNING";
  tasks = some (some "RUNNING" ∷ some "FAILED" ∷ some "FAILED" ∷ []);
}

abbrev services : Services
services = record {
  list_tasks = λ name. ok (some (name ∷ []));
  describe_tasks = λ arn. ok (
      some (
        some (some (detail "subnetId" "s-1" ∷ detail "privateIPv4Address" "10.0.0.7" ∷ []) ∷ [])
        ∷ []));
  status = λ ip name. ok (record { status_code = 200; json = ok conn_status });
}

-- ECS cannot be asked.
abbrev denied : Services
denied = record {
  list_tasks = λ name. raised external_error;
  describe_tasks = λ arn. raised external_error;
  status = λ ip name. raised external_error;
}

address : get_task_ip services "paystream-debezium-pg" ≡ ok (some "10.0.0.7")
unfolding get_task_ip describe task_ip attachment_ip detail_ip or_else
address = refl

abbrev failed_states : List String
failed_states = "RUNNING" ∷ "FAILED" ∷ "FAILED" ∷ []

response_run :
    response_to pg "r1" "RUNNING" failed_states
    ≡ restart pg 1
      ∷ restart pg 2
      ∷ event "r1" "check_pg" "restarted" (restarts "RUNNING" failed_states (1 ∷ 2 ∷ []))
      ∷ []
response_run = refl

-- No tasks at all: nothing is wrong with them.
no_tasks_run :
    response_to mongo "r1" "RUNNING" []
    ≡ event "r1" "check_mongo" "success" (states "RUNNING" []) ∷ []
no_tasks_run = refl

check_debezium-Does_example :
    check_debezium always services pg "r1" []
    ≡ (ok tt, [] ++ response_to pg "r1" "RUNNING" failed_states)
check_debezium-Does_example =
    check_debezium-Does always taken services pg "r1" "10.0.0.7" "RUNNING" conn_status failed_states
      [] address refl refl refl refl

check_debezium-Allowed_example :
    (added : List Effect) × ((check_debezium always services pg "r1" []).1 ≡ [] ++ added)
    × All (Allowed services pg) added
check_debezium-Allowed_example = check_debezium-Allowed always services pg "r1" []

dag_run_blind_example :
    (added : List Effect) × (dag_run always denied "r1" [] ≡ (
      ok tt,
      ([] ++ added)
          ++ event "r1" "audit_log" "success" (task_states (some "success") (some "success")) ∷ [],
    ))
dag_run_blind_example = dag_run_blind always (λ log c d. refl) denied "r1" [] (λ l d. refl)
