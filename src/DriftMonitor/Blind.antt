-- ===== src/DriftMonitor/Blind.antt =====
-- What a run of the monitor can write.
use paystream.Base.{◌≡◌, refl, Bool, true, String, List, [], ◌∷◌, Option, All, any, str_eq}
use paystream.Base.Int.{pos}
use paystream.Base.Number.{Number, ratio}
use paystream.Base.Task.{ok}
use paystream.Base.Trace.{lift->>=-Adds, Adds, lift-Adds, >>=-Adds, insert-Adds, if-Adds}
use paystream.DriftMonitor.{
  DriftMetric, Quartiles, Answers, feature_names, is_empty, float, metric, write_drift, write_all,
  detect_and_write_drift,
}

-- No drift is reported: the score is 0 and the two medians are one.
pub record Undrifted (row : DriftMetric) : Type 0 where
  pub name : any (str_eq (row.feature_name)) feature_names ≡ true
  pub score : row.drift_score ≡ ratio (pos 0) 0
  pub flag : row.is_drifted ≡ 0
  pub medians : row.current_median ≡ row.baseline_median

IsFeature : String → Type 0
IsFeature name = any (str_eq name) feature_names ≡ true

module _ (float_of : String → Option Number) (accepts : List DriftMetric → DriftMetric → Bool) where
  write_drift-Adds :
      (name : String)
      → IsFeature name
      → (rows : List Quartiles) → Adds Undrifted (write_drift float_of accepts name rows)
  unfolding write_drift IsFeature
  write_drift-Adds name h [] = lift-Adds Undrifted (ok tt)
  write_drift-Adds name h (row ∷ rows) =
      lift->>=-Adds Undrifted (float float_of accepts (row.q1)) _ (λ q1 e1.
        lift->>=-Adds Undrifted (float float_of accepts (row.q3)) _ (λ q3 e3.
          lift->>=-Adds Undrifted (float float_of accepts (row.med)) _ (λ med e.
            insert-Adds Undrifted accepts (metric float_of accepts name med)
              (record { name = h; score = refl; flag = refl; medians = refl }))))

  module _ (answers : Answers) where
    write_all-Adds :
        (names : List String)
        → All IsFeature names
        → Adds Undrifted (write_all float_of accepts answers names)
    unfolding write_all
    write_all-Adds [] h = lift-Adds Undrifted (ok tt)
    write_all-Adds (name ∷ names) (h, hs) = >>=-Adds Undrifted _ _ (lift-Adds Undrifted _) (λ stats.
        >>=-Adds Undrifted _ _ (write_drift-Adds name h stats) (λ u. write_all-Adds names hs))

    features-All : All IsFeature feature_names
    unfolding IsFeature
    features-All = (refl, (refl, (refl, (refl, (refl, (refl, (refl, (refl, tt))))))))

    -- Whatever ClickHouse answers, each row that a run adds is of one of the eight features and
    -- reports no drift: its score is 0, its flag is 0, and its baseline median is the current one.
    pub detect_and_write_drift-Adds :
        Adds Undrifted (detect_and_write_drift float_of accepts answers)
    unfolding detect_and_write_drift
    detect_and_write_drift-Adds = >>=-Adds Undrifted _ _ (lift-Adds Undrifted _) (λ count.
        if-Adds Undrifted (is_empty count) (lift-Adds Undrifted (ok tt))
          (write_all-Adds feature_names features-All))
