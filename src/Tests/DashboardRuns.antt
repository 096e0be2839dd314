-- ===== src/Tests/DashboardRuns.antt =====
-- Dashboards through the scripts that repair them.
use paystream.Base.{◌≡◌, refl, List, [], ◌∷◌, Option, none, some}
use paystream.Base.Numeral.{Text, codes}
use paystream.Base.Json.{null, text, end}
use paystream.Dashboards.Queries.{settlement_query, ds_ref}
use paystream.Dashboards.{
  Target, Panel, Dashboard, or_none, as_json, fix_panels, fix_time_col, with_time, fix_slo_panels,
  fix_stat_panels, dedupe,
}
use paystream.Dashboards.Panels.{AreFixed, fix_panels-AreFixed}
use paystream.Dashboards.Times.{fix_time_col-again}
use paystream.Dashboards.Unique.{Deduped, fix_stat_panels-Deduped}

abbrev target_on : Text → Target
target_on sql = record {
  datasource = some (text (codes "old"));
  editor_type = none;
  query_type = none;
  raw_sql = some sql;
  format = none;
  others = end;
}

abbrev stat_panel : Option Text → List Target → Panel
stat_panel title targets = record {
  title = title;
  kind = some (text (codes "stat"));
  datasource = some (text (codes "old"));
  time_from = none;
  time_shift = none;
  targets = some targets;
  others = end;
}

abbrev board : List Panel → Dashboard
board panels = record { panels = some panels; others = end }

abbrev executors : Panel
executors = stat_panel (some (codes "Spark hours")) (target_on (codes " SELECT 1") ∷ [])

abbrev same_query : Dashboard
same_query = board (
    stat_panel (some (codes "Spark hours")) (target_on (codes "SELECT 0 AS executor_hours ") ∷ [])
    ∷ [])

one_fixed : (fix_panels (board (executors ∷ executors ∷ []) ∷ [])).1 ≡ 2
unfolding fix_panels
one_fixed = refl

-- A dashboard whose queries are right keeps its old source.
source_kept : fix_panels (same_query ∷ []) ≡ (same_query ∷ [], 0)
unfolding fix_panels
source_kept = refl

fix_panels-AreFixed_example : AreFixed (fix_panels (board (executors ∷ []) ∷ same_query ∷ [])).0
fix_panels-AreFixed_example = fix_panels-AreFixed (board (executors ∷ []) ∷ same_query ∷ [])

time_added : with_time (codes " SELECT 1") ≡ some (codes "SELECT now() AS time, 1")
unfolding with_time
time_added = refl

fix_time_col-again_example :
    fix_time_col (fix_time_col (same_query ∷ [])).0 ≡ ((fix_time_col (same_query ∷ [])).0, 0)
fix_time_col-again_example = fix_time_col-again (same_query ∷ [])

-- The two scripts undo each other.
undone : (fix_panels (fix_time_col (fix_panels (same_query ∷ [])).0).0).1 ≡ 1
unfolding fix_panels fix_time_col with_time
undone = refl

slo_run :
    fix_slo_panels
      (board (stat_panel (some (codes "Settlement")) (target_on (codes "SELECT 3") ∷ []) ∷ []))
    ≡ board (
        stat_panel (some (codes "Settlement")) (
          record (target_on settlement_query) {
            datasource = some ds_ref;
            editor_type = some (text (codes "sql"));
            query_type = some (text (codes "sql"));
            format = some (as_json 1);
          }
          ∷ [])
        ∷ [])
unfolding fix_slo_panels
slo_run = refl

abbrev untitled : Panel
untitled = stat_panel none (target_on (codes "SELECT 2") ∷ [])

abbrev mixed : Dashboard
mixed = board (executors ∷ untitled ∷ executors ∷ stat_panel none [] ∷ [])

-- Of the panels without a title only the first is left.
dedupe_run :
    fix_stat_panels mixed
    ≡ board (
        record executors { time_from = some null; time_shift = some null }
        ∷ record untitled { time_from = some null; time_shift = some null }
        ∷ [])
unfolding fix_stat_panels dedupe
dedupe_run = refl

fix_stat_panels-Deduped_example :
    Deduped (or_none (mixed.panels)) (or_none ((fix_stat_panels mixed).panels))
fix_stat_panels-Deduped_example = fix_stat_panels-Deduped mixed
