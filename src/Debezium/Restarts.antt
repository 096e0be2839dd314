-- ===== src/Debezium/Restarts.antt =====
-- What a check of a connector may do to the outside, whatever the services answer.
use paystream.Base.{
  ℕ, zero, suc, ◌+◌, ◌≡◌, refl, ap, ◌∙◌, subst, Bool, inl, inr, String, List, [], ◌∷◌, ◌++◌, Option,
  none, some, All, all, not, ◌&&◌, get_elem?, str_eq, ◌==◌, eq_iff, Bool-cases, arith,
}
use paystream.Base.Task.{Result, ok, Result-cases}
use paystream.Base.Trace.{
  Adds, lift-Adds, >>=-Adds, catch-Adds, lift->>=-Adds, insert-Adds, if-Adds,
}
use paystream.Audit.{AuditEvent, log_pipeline_event-Adds}
use paystream.Debezium.{
  Connector, service, connector_name, Effect, audit_row, dq_fail, restart, Details, Status,
  Response, Services, or_empty, require, require_all, get_task_ip, is_running, is_empty,
  restart_failed, restart_and_report, judge, report_error, read_status, ask_connect, check_address,
  check_debezium,
}

-- A list that `require_all` lets through has all its elements.
pub require_all-get_elem? :
    (os : List (Option String)) (ss : List String) (i : ℕ) (s : String)
    → require_all os ≡ ok ss
    → get_elem? ss i ≡ some s
    → get_elem? os i ≡ some (some s)
require_all-get_elem? [] ss i s h k = ground arith
require_all-get_elem? (none ∷ os) ss i s h k = ground arith
require_all-get_elem? (some a ∷ os) ss zero s h k = elim (Result-cases (require_all os)) [
  | inr (x, e) ↦ ground arith
  | inl (rest, e) ↦ ground arith
]
require_all-get_elem? (some a ∷ os) ss (suc i) s h k = elim (Result-cases (require_all os)) [
  | inr (x, e) ↦ ground arith
  | inl (rest, e) ↦
      let tail : ok (a ∷ rest) ≡ ok ss = rw e at h in
      let found : get_elem? rest i ≡ some s = ground arith in
      require_all-get_elem? os rest i s e found
]

-- The answer of the REST API has the task `i` as FAILED.
abbrev pub IsFailed : Response → ℕ → Type 0
IsFailed response i =
    (status : Status) × (response.json ≡ ok status)
    × (get_elem? (or_empty (status.tasks)) i ≡ some (some "FAILED"))

-- A check of `c` writes audit events, rows on `c`, and restarts of tasks of `c` that were reported as
-- FAILED by the REST API at the address that ECS gave.
abbrev pub Allowed : Services → Connector → Effect → Type 0
Allowed services c (audit_row e) = Unit
Allowed services c (dq_fail c' d) = c' ≡ c
Allowed services c (restart c' i) =
    (c' ≡ c)
    × ((ip : String) × (response : Response) × (get_task_ip services (service c) ≡ ok (some ip))
        × (services.status ip (connector_name c) ≡ ok response)
        × IsFailed response i)

module _ (accepts : List Effect → Effect → Bool) (P : Effect → Type 0) where
  restart_failed-Adds :
      (c : Connector) (i : ℕ) (ss : List String)
      → ((j : ℕ) → get_elem? ss j ≡ some "FAILED" → P (restart c (i + j)))
      → Adds P (restart_failed accepts c i ss)
  unfolding restart_failed
  restart_failed-Adds c i [] h = lift-Adds P (ok [])
  restart_failed-Adds c i (s ∷ ss) h =
      let rest : Adds P (restart_failed accepts c (suc i) ss) =
        restart_failed-Adds c (suc i) ss
          (λ j e. subst (λ k. P (restart c k)) (omega arith) (h (suc j) e)) in
      elim (Bool-cases (str_eq s "FAILED")) [
        | inr e ↦ rw e rest
        | inl e ↦ rw e (
            >>=-Adds P _ _
              (insert-Adds P accepts (restart c i) (
                subst (λ k. P (restart c k)) (omega arith)
                  (h 0 (ap some ((eq_iff s "FAILED").0 e)))))
              (λ u. >>=-Adds P _ _ rest (λ is. lift-Adds P (ok (i ∷ is)))))
      ]

  module _ (c : Connector) (audits : (e : AuditEvent Details) → P (audit_row e))
      (fails : (d : Details) → P (dq_fail c d)) where
    judge-Adds :
        (run_id conn_state : String) (ss : List String)
        → ((j : ℕ) → get_elem? ss j ≡ some "FAILED" → P (restart c j))
        → Adds P (judge accepts c run_id conn_state ss)
    unfolding judge restart_and_report
    judge-Adds run_id conn_state ss h =
        if-Adds P (is_running conn_state && all is_running ss)
          (log_pipeline_event-Adds accepts P _ (audits _))
          (>>=-Adds P _ _
            (restart_failed-Adds c 0 ss (λ j e. subst (λ k. P (restart c k)) (omega arith) (h j e)))
            (λ restarted. >>=-Adds P _ _ (log_pipeline_event-Adds accepts P _ (audits _)) (λ u.
              if-Adds P (is_empty restarted && not (is_running conn_state))
                (insert-Adds P accepts _ (fails _)) (lift-Adds P (ok tt)))))

    report_error-Adds : (run_id : String) (d : Details) → Adds P (report_error accepts c run_id d)
    unfolding report_error
    report_error-Adds run_id d =
        >>=-Adds P _ _ (log_pipeline_event-Adds accepts P _ (audits _))
          (λ u. insert-Adds P accepts _ (fails d))

    read_status-Adds :
        (run_id : String) (response : Response)
        → ((i : ℕ) → IsFailed response i → P (restart c i))
        → Adds P (read_status accepts c run_id response)
    unfolding read_status
    read_status-Adds run_id response h = lift->>=-Adds P (response.json) _ (λ status e.
        lift->>=-Adds P (require (status.connector)) _ (λ conn_state e'.
          lift->>=-Adds P (require_all (or_empty (status.tasks))) _ (λ tasks e''.
            judge-Adds run_id conn_state tasks (λ j k. h j (
              status,
              e,
              require_all-get_elem? (or_empty (status.tasks)) tasks j "FAILED" e'' k,
            )))))

    ask_connect-Adds :
        (run_id : String) (answer : Result Response)
        → ((response : Response) (i : ℕ)
            → answer ≡ ok response
            → IsFailed response i
            → P (restart c i))
        → Adds P (ask_connect accepts c run_id answer)
    unfolding ask_connect
    ask_connect-Adds run_id answer h = lift->>=-Adds P answer _ (λ response e.
        if-Adds P (response.status_code == 200)
          (read_status-Adds run_id response (λ i k. h response i e k)) (report_error-Adds run_id _))

    check_address-Adds :
        (services : Services) (run_id : String) (ip : Option String)
        → ((a : String) (response : Response) (i : ℕ)
            → ip ≡ some a
            → services.status a (connector_name c) ≡ ok response
            → IsFailed response i
            → P (restart c i))
        → Adds P (check_address accepts services c run_id ip)
    unfolding check_address
    check_address-Adds services run_id none h = report_error-Adds run_id _
    check_address-Adds services run_id (some a) h =
        if-Adds P (str_eq a "") (report_error-Adds run_id _) (
          catch-Adds P _ _ (ask_connect-Adds run_id _ (λ response i e k. h a response i refl e k))
            (λ e. report_error-Adds run_id _))

module _ (accepts : List Effect → Effect → Bool) (services : Services) where
  -- A check, whatever the services answer and whichever writes are refused, only appends: audit events,
  -- rows on its own connector, and restarts of tasks of its connector that the REST API at the address
  -- of the ECS task has reported as FAILED.
  pub check_debezium-Allowed :
      (c : Connector) (run_id : String) (log : List Effect)
      → (added : List Effect) × ((check_debezium accepts services c run_id log).1 ≡ log ++ added)
        × All (Allowed services c) added
  unfolding check_debezium
  check_debezium-Allowed c run_id log =
      let P : Effect → Type 0 = Allowed services c in
      elim (Result-cases (get_task_ip services (service c))) [
        | inr (x, e) ↦ rw (e, check_debezium) ((log_pipeline_event-Adds accepts P _ tt).adds log)
        | inl (ip, e) ↦
            rw (e, check_debezium)
              ((check_address-Adds accepts P c (λ ev. tt) (λ d. refl) services run_id ip
                  (λ a response i e1 e2 k. (refl, (a, response, e ∙ ap ok e1, e2, k)))).adds
                log)
      ]
