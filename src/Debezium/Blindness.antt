-- ===== src/Debezium/Blindness.antt =====
-- What the audit event of a run of the DAG can tell: `check_debezium` handles every error itself.
use paystream.Base.{
  ◌≡◌, ap, ◌∙◌, Bool, true, String, List, [], ◌∷◌, ◌++◌, Option, none, some, str_eq, append_assoc,
  inl, inr,
}
use paystream.Base.Task.{Result, ok, raised, Result-cases}
use paystream.Base.Trace.{Succeeds, >>=-Succeeds, insert-Succeeds, catch-Succeeds, if-Succeeds}
use paystream.Audit.{log_pipeline_event-Succeeds, log_pipeline_event-Does}
use paystream.Debezium.{
  Connector, pg, mongo, service, Effect, dq_fail, event, Details, task_states, error, Services,
  get_task_ip, report_error, ask_connect, check_address, check_debezium, debezium_audit_log,
  task_state, dag_run,
}
use paystream.Debezium.Restarts.{check_debezium-Allowed}

module _ (accepts : List Effect → Effect → Bool)
    (dq_taken : (log : List Effect) (c : Connector) (d : Details)
      → accepts log (dq_fail c d) ≡ true) where
  report_error-Succeeds :
      (c : Connector) (run_id : String) (d : Details) → Succeeds (report_error accepts c run_id d)
  unfolding report_error
  report_error-Succeeds c run_id d =
      >>=-Succeeds _ _ (log_pipeline_event-Succeeds accepts _)
        (λ u. insert-Succeeds accepts _ (λ log. dq_taken log c d))

  check_address-Succeeds :
      (services : Services) (c : Connector) (run_id : String) (ip : Option String)
      → Succeeds (check_address accepts services c run_id ip)
  unfolding check_address
  check_address-Succeeds services c run_id none = report_error-Succeeds c run_id _
  check_address-Succeeds services c run_id (some a) =
      if-Succeeds (str_eq a "") (report_error-Succeeds c run_id _) (
        catch-Succeeds (ask_connect accepts c run_id _) _
          (λ e. report_error-Succeeds c run_id (error e)))

  -- A check never raises, whatever ECS and the REST API do and whichever restarts and audit events are
  -- refused, as long as gold.dq_results takes its rows.
  pub check_debezium-Succeeds :
      (services : Services) (c : Connector) (run_id : String) (log : List Effect)
      → (u : Unit {0}) × ((check_debezium accepts services c run_id log).0 ≡ ok u)
  unfolding check_debezium
  check_debezium-Succeeds services c run_id log =
      elim (Result-cases (get_task_ip services (service c))) [
        | inr (x, e) ↦ rw (e, check_debezium) ((log_pipeline_event-Succeeds accepts _).succeeds log)
        | inl (ip, e) ↦
            rw (e, check_debezium) ((check_address-Succeeds services c run_id ip).succeeds log)
      ]

  audit_of_successes :
      (run_id : String) (r1 r2 : Result (Unit {0})) (log : List Effect) {u v : Unit {0}}
      → r1 ≡ ok u
      → r2 ≡ ok v
      → ((l : List Effect) (d : Details) → accepts l (event run_id "audit_log" "success" d) ≡ true)
      → debezium_audit_log accepts run_id (some (task_state r1)) (some (task_state r2)) log ≡ (
        ok tt,
        log
            ++ event run_id "audit_log" "success" (task_states (some "success") (some "success"))
              ∷ [],
      )
  unfolding debezium_audit_log
  audit_of_successes run_id (ok u) (ok v) log e1 e2 h =
      (log_pipeline_event-Does accepts _ (λ l. h l _)).does log
  audit_of_successes run_id (ok u) (raised e) log e1 e2 h = cc
  audit_of_successes run_id (raised e) r2 log e1 e2 h = cc

  -- Where gold.dq_results takes its rows and the audit log its event, a run of the DAG ends with the
  -- event "success", whatever state the connectors are in.
  pub dag_run_blind :
      (services : Services) (run_id : String) (log : List Effect)
      → ((l : List Effect) (d : Details) → accepts l (event run_id "audit_log" "success" d) ≡ true)
      → (added : List Effect) × (dag_run accepts services run_id log ≡ (
        ok tt,
        (log ++ added)
            ++ event run_id "audit_log" "success" (task_states (some "success") (some "success"))
              ∷ [],
      ))
  unfolding dag_run
  dag_run_blind services run_id log h =
      let (u1, e1) = check_debezium-Succeeds services pg run_id log in
      let (xs, a1, _) = check_debezium-Allowed accepts services pg run_id log in
      let mid = (check_debezium accepts services pg run_id log).1 in
      let (u2, e2) = check_debezium-Succeeds services mongo run_id mid in
      let (ys, a2, _) = check_debezium-Allowed accepts services mongo run_id mid in
      let last =
        event run_id "audit_log" "success" (task_states (some "success") (some "success")) in
      let path : (check_debezium accepts services mongo run_id mid).1 ≡ log ++ (xs ++ ys) =
        a2 ∙ ap (λ l. l ++ ys) a1 ∙ append_assoc log xs ys in
      (xs ++ ys, audit_of_successes run_id _ _ _ e1 e2 h ∙ ap (λ l. (ok tt, l ++ last ∷ [])) path)
