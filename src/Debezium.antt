-- ===== src/Debezium.antt =====
-- dags/debezium_health_check.py: the check of a Debezium connector, which restarts its failed tasks.
-- ECS and the REST API of Kafka Connect are a parameter, `Services`; a key that an answer lacks is
-- `none`. What the check does to the outside, in its order, is the list of writes of a task; `accepts`
-- says which of them are taken.
mod Discovery
pub mod Restarts
pub mod Report
pub mod Blindness
unfoldable pub use Discovery.*
use paystream.Base.{
  ℕ, suc, Bool, true, false, not, ◌&&◌, ◌≡◌, String, List, [], ◌∷◌, all, Option, none, some, ◌==◌,
  str_eq, if◌then◌else◌,
}
use paystream.Base.Task.{Exn, Result, ok, raised, Task, pure, lift, catch, insert, ◌>>=◌, ◌>>◌}
use paystream.Audit.{AuditEvent, log_pipeline_event}

pub data Connector : Type 0 where
  pg mongo : Connector

abbrev pub service : Connector → String
service pg = "paystream-debezium-pg"
service mongo = "paystream-debezium-mongo"

abbrev pub connector_name : Connector → String
connector_name pg = "paystream-pg-connector"
connector_name mongo = "paystream-mongo-connector"

abbrev pub check_task : Connector → String
check_task pg = "check_pg"
check_task mongo = "check_mongo"

pub data Details : Type 0 where
  ecs_api_error : Exn → Details
  ecs_task_not_found : Details
  rest_api_returned : ℕ → Details
  states : String → List String → Details
  restarts : String → List String → List ℕ → Details
  error : Exn → Details
  task_states : Option String → Option String → Details

pub data Effect : Type 0 where
  audit_row : AuditEvent Details → Effect
  dq_fail : Connector → Details → Effect
  restart : Connector → ℕ → Effect

abbrev pub event : String → String → String → Details → Effect
event run_id task_id status details = audit_row (record {
  dag_id = "debezium_health_check";
  task_id = task_id;
  run_id = run_id;
  status = status;
  duration_seconds = 0;
  details = details;
})

abbrev pub is_running : String → Bool
is_running s = str_eq s "RUNNING"

abbrev pub is_empty : List ℕ → Bool
is_empty [] = true
is_empty (i ∷ is) = false

module _ (accepts : List Effect → Effect → Bool) where
  -- The loop over the tasks, with `restarted.append(i)`.
  unfoldable pub restart_failed : Connector → ℕ → List String → Task Effect (List ℕ)
  restart_failed c i [] = pure []
  restart_failed c i (s ∷ ss) =
      let rest = restart_failed c (suc i) ss in
      if str_eq s "FAILED"
      then insert accepts (restart c i) >> (rest >>= λ restarted. pure (i ∷ restarted))
      else rest

  -- The end of the `try`, where the connector or a task is not running.
  unfoldable pub restart_and_report :
      Connector → String → String → List String → Task Effect (Unit {0})
  restart_and_report c run_id conn_state tasks = do
    restarted ← restart_failed c 0 tasks
    log_pipeline_event accepts (
        event run_id (check_task c) (if is_empty restarted then "degraded" else "restarted")
          (restarts conn_state tasks restarted))
    if is_empty restarted && not (is_running conn_state)
        then insert accepts (dq_fail c (states conn_state tasks))
        else pure tt

  unfoldable pub judge : Connector → String → String → List String → Task Effect (Unit {0})
  judge c run_id conn_state tasks =
      if is_running conn_state && all is_running tasks
      then log_pipeline_event accepts
          (event run_id (check_task c) "success" (states conn_state tasks))
      else restart_and_report c run_id conn_state tasks

  -- `log_pipeline_event(status="error", ...)` and `_write_dq_fail`.
  unfoldable pub report_error : Connector → String → Details → Task Effect (Unit {0})
  report_error c run_id details = do
    log_pipeline_event accepts (event run_id (check_task c) "error" details)
    insert accepts (dq_fail c details)

  unfoldable pub read_status : Connector → String → Response → Task Effect (Unit {0})
  read_status c run_id response = do
    status ← lift (response.json)
    conn_state ← lift (require (status.connector))
    tasks ← lift (require_all (or_empty (status.tasks)))
    judge c run_id conn_state tasks

  -- The body of the second `try`.
  unfoldable pub ask_connect : Connector → String → Result Response → Task Effect (Unit {0})
  ask_connect c run_id answer = do
    response ← lift answer
    if response.status_code == 200
        then read_status c run_id response
        else report_error c run_id (rest_api_returned (response.status_code))

  module _ (services : Services) where
    unfoldable pub check_address : Connector → String → Option String → Task Effect (Unit {0})
    check_address c run_id none = report_error c run_id ecs_task_not_found
    check_address c run_id (some ip) =
        if str_eq ip ""
        then report_error c run_id ecs_task_not_found
        else catch (ask_connect c run_id (services.status ip (connector_name c)))
            (λ e. report_error c run_id (error e))

    unfoldable pub check_debezium : Connector → String → Task Effect (Unit {0})
    check_debezium c run_id = elim (get_task_ip services (service c)) [
      | raised e ↦ log_pipeline_event accepts (event run_id (check_task c) "skip" (ecs_api_error e))
      | ok ip ↦ check_address c run_id ip
    ]

-- `ti and ti.state == "success"`
abbrev succeeded : Option String → Bool
succeeded none = false
succeeded (some state) = str_eq state "success"

module _ (accepts : List Effect → Effect → Bool) where
  -- `_debezium_audit_log`, from the states of the two task instances.
  unfoldable pub debezium_audit_log :
      String → Option String → Option String → Task Effect (Unit {0})
  debezium_audit_log run_id ti_pg ti_mongo = log_pipeline_event accepts (
      event run_id "audit_log"
        (if succeeded ti_pg && succeeded ti_mongo then "success" else "failed")
        (task_states ti_pg ti_mongo))

-- The state of a task instance that has run, which has no retries.
abbrev pub task_state : Result (Unit {0}) → String
task_state (ok u) = "success"
task_state (raised e) = "failed"

module _ (accepts : List Effect → Effect → Bool) (services : Services) where
  abbrev pub audit_after :
      String → Result (Unit {0}) → Result (Unit {0}) × List Effect → Result (Unit {0}) × List Effect
  audit_after run_id ran_pg (ran_mongo, log) =
      debezium_audit_log accepts run_id (some (task_state ran_pg)) (some (task_state ran_mongo)) log

  abbrev pub mongo_after :
      String → Result (Unit {0}) × List Effect → Result (Unit {0}) × List Effect
  mongo_after run_id (ran_pg, log) =
      audit_after run_id ran_pg (check_debezium accepts services mongo run_id log)

  -- `[check_pg, check_mongo] >> audit` with the trigger rule all_done, the checks one after the other.
  unfoldable pub dag_run : String → Task Effect (Unit {0})
  dag_run run_id log = mongo_after run_id (check_debezium accepts services pg run_id log)
