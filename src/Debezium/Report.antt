-- ===== src/Debezium/Report.antt =====
-- What a check of a connector does when the REST API answers and every write is taken.
use paystream.Base.{
  ℕ, suc, ◌≡◌, Bool, true, false, not, ◌&&◌, String, List, [], ◌∷◌, ◌++◌, all, map, some, str_eq,
  if◌then◌else◌, Bool-cases, inl, inr, append-nil,
}
use paystream.Base.Task.{pure, ◌>>=◌, ok}
use paystream.Base.Trace.{Does, pure-Does, >>=-Does, insert-Does, if-Does, catch-Does}
use paystream.Audit.{log_pipeline_event-Does}
use paystream.Debezium.{
  Connector, service, connector_name, check_task, Effect, dq_fail, restart, event, states, restarts,
  Status, Services, or_empty, require_all, get_task_ip, is_running, is_empty, restart_failed,
  restart_and_report, judge, read_status, ask_connect, check_address, check_debezium,
}

-- The positions of the FAILED tasks, in order, from `i` on.
abbrev pub failed_from : ℕ → List String → List ℕ
failed_from i [] = []
failed_from i (s ∷ ss) =
    let rest = failed_from (suc i) ss in if str_eq s "FAILED" then i ∷ rest else rest

-- What the check does about a state of the connector and of its tasks.
abbrev pub response_to : Connector → String → String → List String → List Effect
response_to c run_id conn_state ss =
    let failed = failed_from 0 ss in
    if is_running conn_state && all is_running ss
    then event run_id (check_task c) "success" (states conn_state ss) ∷ []
    else map (restart c) failed
      ++ event run_id (check_task c) (if is_empty failed then "degraded" else "restarted")
          (restarts conn_state ss failed)
        ∷ (if is_empty failed && not (is_running conn_state)
            then dq_fail c (states conn_state ss) ∷ []
            else [])

module _ (accepts : List Effect → Effect → Bool)
    (taken : (log : List Effect) (w : Effect) → accepts log w ≡ true) where
  restart_failed-Does :
      (c : Connector) (i : ℕ) (ss : List String)
      → Does (restart_failed accepts c i ss) (failed_from i ss) (map (restart c) (failed_from i ss))
  unfolding restart_failed
  restart_failed-Does c i [] = pure-Does []
  restart_failed-Does c i (s ∷ ss) =
      let later = restart_failed accepts c (suc i) ss in
      let rest = restart_failed-Does c (suc i) ss in
      let then_cons : Does (later >>= λ is. pure (i ∷ is)) (i ∷ failed_from (suc i) ss) _ =
        >>=-Does later (λ is. pure (i ∷ is)) rest (pure-Does (i ∷ failed_from (suc i) ss)) in
      elim (Bool-cases (str_eq s "FAILED")) [
        | inr e ↦ rw e rest
        | inl e ↦ rw e (
            >>=-Does _ _ (insert-Does accepts (restart c i) (λ log. taken log _))
              (rw append-nil at then_cons))
      ]

  judge-Does :
      (c : Connector) (run_id conn_state : String) (ss : List String)
      → Does (judge accepts c run_id conn_state ss) tt (response_to c run_id conn_state ss)
  unfolding judge restart_and_report
  judge-Does c run_id conn_state ss =
      let failed = failed_from 0 ss in
      if-Does (is_running conn_state && all is_running ss)
        (log_pipeline_event-Does accepts _ (λ log. taken log _))
        (>>=-Does _ _ (restart_failed-Does c 0 ss) (
          >>=-Does _ _ (log_pipeline_event-Does accepts _ (λ log. taken log _)) (
            if-Does (is_empty failed && not (is_running conn_state))
              (insert-Does accepts _ (λ log. taken log _)) (pure-Does tt))))

  -- Where ECS has an address and the REST API a status with every key, and every write is taken, a check
  -- returns and does just this: on a connector and tasks that are all RUNNING it writes the event
  -- "success"; otherwise it restarts the FAILED tasks, each once and in order, writes one event, and a
  -- row of gold.dq_results only if nothing was restarted and the connector is not RUNNING.
  pub check_debezium-Does :
      (services : Services) (c : Connector) (run_id ip conn_state : String) (status : Status)
      (ss : List String) (log : List Effect)
      → get_task_ip services (service c) ≡ ok (some ip)
      → str_eq ip "" ≡ false
      → services.status ip (connector_name c) ≡ ok (record { status_code = 200; json = ok status })
      → status.connector ≡ some conn_state
      → require_all (or_empty (status.tasks)) ≡ ok ss
      → check_debezium accepts services c run_id log
        ≡ (ok tt, log ++ response_to c run_id conn_state ss)
  unfolding check_debezium check_address ask_connect read_status
  check_debezium-Does services c run_id ip conn_state status ss log e1 e2 e3 e4 e5 =
      rw (e1, check_debezium)
        (rw e2 (
          rw e3 (
            rw e4 (
              rw e5 (
                (catch-Does (judge accepts c run_id conn_state ss) _
                    (judge-Does c run_id conn_state ss)).does
                  log)))))
