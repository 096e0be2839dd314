-- ===== src/Lib.antt =====
-- PayStream: the Python code of a data platform for Buy Now Pay Later operations. A feature API
-- serves credit features from ClickHouse behind a connection pool and a circuit breaker; a scheduled
-- pipeline computes the features, validates them and writes them; other jobs watch over the quality
-- of the data.
--
-- Files:
-- - Base: shared names. Base/Tests has Python's comparisons, Base/Lists its list operations,
--   Base/Int and Base/Number its numbers (a finite float, int or Decimal is an exact fraction),
--   Base/Task an exception monad over the writes to a database, Base/Rounding its `round`, Base/Batches the loop `range(0,
--   len(xs), step)`, Base/Action the monad and Base/Numeral the texts of Seed, Alerts and
--   Dashboards, Base/Json the values of JSON.
-- - Clickhouse: the queries and replies of the API, and the driver, which is a parameter.
-- - Breaker: `CircuitBreaker` of api/feature_store/routes.py. `can_execute`, `record_success` and
--   `record_failure` are the functions of those names. Breaker/Counting compares it with a count of
--   failures, Breaker/Diagram with a state diagram, Breaker/Refusal says when it refuses.
-- - Pool: `ClickHousePool` of api/feature_store/clickhouse_client.py: `init`, `get`, `put`,
--   `execute`, `ping`, `close`. Pool/Conservation, Pool/Leak and Pool/Lifecycle follow its
--   connections.
-- - Features: a row of the feature store and `FeatureValues` of api/feature_store/models.py.
-- - Api: `get_features` and `health` of api/feature_store/routes.py with their metrics.
--   Api/Accounting tells the state after a request from its response, Api/Serving what a response
--   holds, Api/Outage what happens when the database is down. Api/Lifespan is `lifespan` of
--   api/feature_store/main.py around any requests, Api/Lifetime what a lifetime of the application
--   leaves.
-- - Pipeline: `validate_features` and `main` of dags/utils/compute_features.py. Pipeline/Gate and
--   Pipeline/Clean are about the validation, Pipeline/Writing about the rows written.
-- - Audit: `log_pipeline_event` and `write_dag_audit_log` of dags/utils/audit_logger.py, which the
--   DAGs call.
-- - Debezium: `check_debezium`, its discovery and `_debezium_audit_log` of
--   dags/debezium_health_check.py. Debezium/Report says what a check does when the services answer,
--   Debezium/Restarts what it may do at all, Debezium/Blindness what the audit of a run can tell.
-- - Quality: the checks and the gate of dags/dq_validation.py. Quality/Parser is the regular
--   expression for the summary line of dbt and Quality/Parsing its round trip, Quality/Rows what the
--   checks write, Quality/Gate when the gate opens, Quality/Silence what becomes of checks that
--   cannot tell.
-- - Spark: the features and the gate of spark/jobs/credit_feature_engineer.py. Spark/Columns has the
--   functions of Spark that it uses; Spark/Bounds and Spark/Passing show that the features pass the
--   gate, Spark/Soundness what the gate lets through, Spark/PointInTime what after the
--   snapshot does not count. Spark/Job has `get_snapshot_ts`, `write_to_delta` and the run
--   around the features.
-- - SchemaDrift: `check_schema_drift` of dags/schema_drift_detector.py. SchemaDrift/Verdicts says
--   which row each table gets, SchemaDrift/Drift what its status says of the columns.
-- - Slo: the measurements of stress_test/measure_slos.py and the statistics and exit code of
--   stress_test/run_stress_test.py. Slo/Sorting is about their sort, Slo/Percentiles about a wave,
--   Slo/Verdict and Slo/Runner about the exit code.
-- - Retention: `cleanup_old_audit_files` of dags/audit_log_compaction.py.
-- - Settlement: the two tasks of dags/settlement_reconciliation.py.
-- - Hook: `execute_clickhouse_query` of dags/utils/clickhouse_hook.py, on texts of ASCII codes.
--   Hook/Lines reads the rows of an answer back.
-- - Seed: scripts/seed_data.py. Seed/Random has its helpers over any sequence of draws, Seed/Options
--   its constants, Seed/Rows and Seed/Documents the generators, Seed/Tables the constraints of its
--   DDL and the drivers, which are a parameter, Seed/Batching `batch_iter`; Seed itself has
--   `seed_postgresql`, `seed_documentdb` and `main`. Seed/Kinds, Seed/Ranges, Seed/Conformity and
--   Seed/Events say what the generators return, Seed/Filling, Seed/Taking and Seed/Loading how a
--   table is filled, Seed/Seeding what a run does.
-- - Bastion: scripts/compute_features.py from the answers of ClickHouse on. Bastion/Gate compares
--   its gate with the one of Spark, Bastion/Window its days, Bastion/Writing says what a run writes.
-- - Alerts: the forwarders of alerts, terraform/modules/observability/lambda/grafana_to_sns.py and
--   grafana/grafana_sns_bridge.py. Alerts/Replies says what the first answers and publishes, Alerts/Brief and
--   Alerts/Server the second.
-- - Dashboards: scripts/fix_panels.py, scripts/fix_time_col.py, scripts/fix_slo_panels.py and
--   scripts/fix_stat_panels.py. Dashboards/Queries has their constants, Dashboards/Panels and
--   Dashboards/Times are about fix_panels and fix_time_col, with lemmas on a second run from
--   Dashboards/Again, Dashboards/Unique is about fix_stat_panels.
-- - DriftMonitor: `detect_and_write_drift` of dags/feature_drift_monitor.py. DriftMonitor/Blind says
--   what it can write.
-- - FeatureDag: dags/feature_pipeline.py around the script of Pipeline. FeatureDag/Gated says what a
--   run of its tasks comes to.
-- - DbtDags: `check_new_data` of dags/dbt_hourly_snapshots.py and `write_test_results_to_clickhouse` of
--   dags/data_quality_gate.py. DbtDags/Copying is about the second.
-- - Tests: runs on concrete inputs.
--
-- Time is an argument of each operation, in any unit that counts. Loops are over lists. Only the
-- numeral of a number, `str` of Base/Numeral, runs on fuel: one more than the number, which is
-- enough for its digits. Concurrent calls of the breaker are lists of whole calls, since each
-- holds the lock; a handler of the API has no `await`, so it runs to its end on the event loop.
--
-- Parameters, for code that is not in the repository: what the ClickHouse driver answers and
-- raises, pydantic's verdict on a number (exact on finite ones), whether the database accepts a
-- write. So are `float(str)`, `int(str)`, `bytes.decode`, `json.loads` and `str.upper`, of which
-- nothing is assumed, whether SNS takes a message, and the answers of ECS, of the REST API of
-- Kafka Connect and of the queries of the DAGs. That Airflow marks a task as success exactly if
-- its function returns, and goes on after a failed task where the trigger rule is all_done, is
-- written into `task_state` and `attempt`, and that a task is not started after one that failed
-- into `FeatureDag.dag_run` and `Settlement.settle_day`.
--
-- Not modelled: logging, printing, CORS and the metrics endpoint, which prints the counters; the
-- wiring of the DAGs other than that above; the SQL of dbt and ClickHouse; the deployment.
pub mod Base
pub mod Clickhouse
pub mod Breaker
pub mod Pool
pub mod Features
pub mod Api
pub mod Pipeline
pub mod Audit
pub mod Debezium
pub mod Quality
pub mod Spark
pub mod SchemaDrift
pub mod Slo
pub mod Retention
pub mod Settlement
pub mod Hook
pub mod Seed
pub mod Bastion
pub mod Alerts
pub mod Dashboards
pub mod DriftMonitor
pub mod FeatureDag
pub mod DbtDags
pub mod Tests
