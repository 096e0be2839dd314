-- ===== src/Dashboards/Queries.antt =====
-- The constants of scripts/fix_panels.py and scripts/fix_slo_panels.py.
use paystream.Base.{List, [], ◌∷◌, ℕ}
use paystream.Base.Numeral.{Text, codes}
use paystream.Base.Json.{Json, text, obj, end, field}

abbrev pub ds_ref : Json
ds_ref = obj (
    field (codes "type") (text (codes "grafana-clickhouse-datasource"))
      (field (codes "uid") (text (codes "PDEE91DDB90597936")) end))

pub record PanelQuery : Type 0 where
  pub key : Text
  pub raw_sql : Text
  pub format : ℕ

abbrev pub panel_queries : List PanelQuery
panel_queries =
    record {
      key = codes "Drift Score";
      raw_sql =
          codes
            "SELECT measured_at AS time, feature_name, drift_score FROM feature_store.drift_metrics ORDER BY measured_at";
      format = 0;
    }
    ∷ record {
      key = codes "Baseline vs Current";
      raw_sql =
          codes
            "SELECT feature_name, baseline_median, current_median FROM feature_store.drift_metrics WHERE measured_at = (SELECT max(measured_at) FROM feature_store.drift_metrics)";
      format = 1;
    }
    ∷ record {
      key = codes "IQR Threshold";
      raw_sql =
          codes
            "SELECT feature_name, drift_score, if(drift_score > 3.0, 'EXCEEDED', 'OK') AS status FROM feature_store.drift_metrics WHERE measured_at = (SELECT max(measured_at) FROM feature_store.drift_metrics) ORDER BY drift_score DESC";
      format = 1;
    }
    ∷ record {
      key = codes "Drift Detected";
      raw_sql =
          codes
            "SELECT count() AS drifted_features FROM feature_store.drift_metrics WHERE is_drifted = 1 AND measured_at = (SELECT max(measured_at) FROM feature_store.drift_metrics)";
      format = 1;
    }
    ∷ record {
      key = codes "Last Drift";
      raw_sql =
          codes
            "SELECT max(measured_at) AS last_drift FROM feature_store.drift_metrics WHERE is_drifted = 1";
      format = 1;
    }
    ∷ record {
      key = codes "Feature Freshness";
      raw_sql =
          codes "SELECT max(_ingested_at) AS last_update FROM feature_store.user_credit_features";
      format = 1;
    }
    ∷ record {
      key = codes "P99 Latency";
      raw_sql =
          codes
            "SELECT toStartOfMinute(event_time) AS time, quantile(0.99)(query_duration_ms) AS p99_ms FROM system.query_log WHERE query LIKE '%feature_store%' AND type = 'QueryFinish' AND event_time >= now() - INTERVAL 24 HOUR GROUP BY time ORDER BY time";
      format = 0;
    }
    ∷ record {
      key = codes "Request Rate";
      raw_sql =
          codes
            "SELECT toStartOfMinute(event_time) AS time, count() AS requests FROM system.query_log WHERE query LIKE '%feature_store%' AND type = 'QueryFinish' AND event_time >= now() - INTERVAL 24 HOUR GROUP BY time ORDER BY time";
      format = 0;
    }
    ∷ record {
      key = codes "Row Count";
      raw_sql = codes "SELECT count() AS total_rows FROM feature_store.user_credit_features";
      format = 1;
    }
    ∷ record {
      key = codes "Version Distribution";
      raw_sql =
          codes
            "SELECT feature_version, count() AS cnt FROM feature_store.user_credit_features GROUP BY feature_version ORDER BY cnt DESC";
      format = 1;
    }
    ∷ record {
      key = codes "GMV";
      raw_sql =
          codes
            "SELECT merchant_id, merchant_category, gmv, transaction_count, approval_rate FROM gold.merchant_daily_kpis ORDER BY gmv DESC";
      format = 1;
    }
    ∷ record {
      key = codes "Approval Rate";
      raw_sql =
          codes
            "SELECT merchant_id, date, approval_rate FROM gold.merchant_daily_kpis ORDER BY merchant_id, date";
      format = 1;
    }
    ∷ record {
      key = codes "BNPL";
      raw_sql = codes "SELECT avg(bnpl_penetration) AS avg_bnpl FROM gold.merchant_daily_kpis";
      format = 1;
    }
    ∷ record {
      key = codes "Decision Latency";
      raw_sql =
          codes
            "SELECT quantile(0.50)(decision_latency_ms) AS p50, quantile(0.95)(decision_latency_ms) AS p95, quantile(0.99)(decision_latency_ms) AS p99 FROM silver.transactions_silver WHERE _ingested_at > now() - INTERVAL 24 HOUR";
      format = 1;
    }
    ∷ record {
      key = codes "Top 10";
      raw_sql =
          codes
            "SELECT merchant_id, sum(gmv) AS total_gmv FROM gold.merchant_daily_kpis GROUP BY merchant_id ORDER BY total_gmv DESC LIMIT 10";
      format = 1;
    }
    ∷ record {
      key = codes "Ingestion";
      raw_sql =
          codes
            "SELECT max(_ingested_at) AS last_ingested, dateDiff('minute', max(_ingested_at), now()) AS lag_minutes FROM bronze.pg_transactions_raw";
      format = 1;
    }
    ∷ record {
      key = codes "dbt";
      raw_sql =
          codes
            "SELECT test_name, status, execution_time, tested_at FROM gold.dbt_test_results ORDER BY tested_at DESC LIMIT 10";
      format = 1;
    }
    ∷ record {
      key = codes "Gold Freshness";
      raw_sql = codes "SELECT max(_ingested_at) AS last_update FROM gold.merchant_daily_kpis";
      format = 1;
    }
    ∷ record {
      key = codes "Feature Pipeline";
      raw_sql =
          codes
            "SELECT max(_ingested_at) AS last_feature_update, dateDiff('hour', max(_ingested_at), now()) AS hours_since FROM feature_store.user_credit_features";
      format = 1;
    }
    ∷ record {
      key = codes "Settlement";
      raw_sql =
          codes
            "SELECT settlement_date, count() AS merchants, countIf(status = 'matched') AS matched, countIf(status = 'mismatch') AS mismatches FROM gold.settlement_reconciliation GROUP BY settlement_date ORDER BY settlement_date DESC LIMIT 5";
      format = 1;
    }
    ∷ record {
      key = codes "SLO Summary";
      raw_sql =
          codes
            "SELECT 'Feature Freshness' AS slo, '<6h' AS target, if(dateDiff('hour', max_ts, now()) < 6, 'PASS', 'FAIL') AS status FROM (SELECT max(_ingested_at) AS max_ts FROM feature_store.user_credit_features)";
      format = 1;
    }
    ∷ record {
      key = codes "Storage";
      raw_sql =
          codes
            "SELECT database, formatReadableSize(sum(bytes_on_disk)) AS disk_usage, sum(rows) AS total_rows FROM system.parts WHERE active GROUP BY database ORDER BY sum(bytes_on_disk) DESC";
      format = 1;
    }
    ∷ record {
      key = codes "Query Cost";
      raw_sql =
          codes
            "SELECT type, substring(query, 1, 80) AS query_short, read_rows, formatReadableSize(read_bytes) AS read_size, query_duration_ms FROM system.query_log WHERE type = 'QueryFinish' AND event_time >= now() - INTERVAL 1 HOUR ORDER BY read_bytes DESC LIMIT 10";
      format = 1;
    }
    ∷ record { key = codes "Spark"; raw_sql = codes "SELECT 0 AS executor_hours"; format = 1 }
    ∷ record {
      key = codes "Invocations";
      raw_sql =
          codes
            "SELECT toStartOfHour(event_time) AS time, count() AS queries FROM system.query_log WHERE query LIKE '%feature_store%' AND type = 'QueryFinish' AND event_time >= now() - INTERVAL 24 HOUR GROUP BY time ORDER BY time";
      format = 0;
    }
    ∷ record {
      key = codes "Engine Distribution";
      raw_sql =
          codes
            "SELECT database, engine, count() AS table_count FROM system.tables WHERE database IN ('bronze','silver','gold','feature_store') GROUP BY database, engine ORDER BY database, engine";
      format = 1;
    }
    ∷ []

abbrev pub gold_query : Text
gold_query =
    codes
      "SELECT max(modification_time) AS last_gold_update FROM system.parts WHERE database = 'gold' AND active"

abbrev pub pipeline_query : Text
pipeline_query =
    codes
      "SELECT max(_ingested_at) AS last_feature_update, dateDiff('hour', max(_ingested_at), now()) AS hours_since_update FROM feature_store.user_credit_features"

abbrev pub settlement_query : Text
settlement_query =
    codes
      "SELECT settlement_date, count() AS merchants, countIf(status = 'matched') AS matched, countIf(status = 'mismatch') AS mismatches, avg(variance_pct) AS avg_variance_pct FROM gold.settlement_reconciliation GROUP BY settlement_date ORDER BY settlement_date DESC LIMIT 5"
