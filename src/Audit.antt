-- ===== src/Audit.antt =====
-- dags/utils/audit_logger.py: the audit events of the DAGs. A write that the database refuses is
-- printed and forgotten. `Details` is what a DAG says in the JSON column of its events.
use paystream.Base.{◌≡◌, true, [], ◌∷◌, Bool, ℕ, String, List, str_eq, if◌then◌else◌}
use paystream.Base.Task.{ok, Task, pure, catch, insert}
use paystream.Base.Trace.{
  Adds, Succeeds, catch-Adds, insert-Adds, lift-Adds, catch-Succeeds, pure-Succeeds, Does,
  catch-Does, insert-Does,
}

pub record AuditEvent (Details : Type 0) : Type 0 where
  pub dag_id : String
  pub task_id : String
  pub run_id : String
  pub status : String
  pub duration_seconds : ℕ
  pub details : Details

module _ {W : Type 0} (accepts : List W → W → Bool) where
  -- `row` is the INSERT that the event becomes.
  unfoldable pub log_pipeline_event : W → Task W (Unit {0})
  log_pipeline_event row = catch (insert accepts row) (λ e. pure tt)

  pub log_pipeline_event-Adds : (P : W → Type 0) (row : W) → P row → Adds P (log_pipeline_event row)
  unfolding log_pipeline_event
  log_pipeline_event-Adds P row h =
      catch-Adds P _ _ (insert-Adds P accepts row h) (λ e. lift-Adds P (ok tt))

  pub log_pipeline_event-Succeeds : (row : W) → Succeeds (log_pipeline_event row)
  unfolding log_pipeline_event
  log_pipeline_event-Succeeds row =
      catch-Succeeds (insert accepts row) (λ e. pure tt) (λ e. pure-Succeeds tt)

  pub log_pipeline_event-Does :
      (row : W)
      → ((log : List W) → accepts log row ≡ true)
      → Does (log_pipeline_event row) tt (row ∷ [])
  unfolding log_pipeline_event
  log_pipeline_event-Does row h =
      catch-Does (insert accepts row) (λ e. pure tt) (insert-Does accepts row h)

-- The details of `write_dag_audit_log`.
pub record RunState : Type 0 where
  pub state : String
  pub external_trigger : Bool

module _ {W : Type 0} (row_of : AuditEvent RunState → W) (accepts : List W → W → Bool) where
  unfoldable pub write_dag_audit_log : String → String → RunState → Task W (Unit {0})
  write_dag_audit_log dag_id run_id run = log_pipeline_event accepts (
      row_of (record {
        dag_id = dag_id;
        task_id = "audit_log";
        run_id = run_id;
        status = if str_eq (run.state) "success" then "success" else "failed";
        duration_seconds = 0;
        details = run;
      }))
