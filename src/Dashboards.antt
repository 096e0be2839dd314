-- ===== src/Dashboards.antt =====
-- The scripts that repair Grafana's dashboards: scripts/fix_panels.py, scripts/fix_slo_panels.py,
-- scripts/fix_stat_panels.py and scripts/fix_time_col.py. A dashboard is the value of its file; a text
-- is the list of its codes, which are ASCII.
pub mod Queries
pub mod Again
pub mod Panels
pub mod Times
pub mod Unique
use paystream.Base.{
  ℕ, zero, suc, ◌+◌, Bool, true, false, not, ◌&&◌, ◌||◌, List, [], ◌∷◌, ◌++◌, map, any, take, drop,
  Option, none, some, leb, ltb, ◌==◌, if◌then◌else◌,
}
use paystream.Base.Number.{ratio}
use paystream.Base.Int.{pos}
use paystream.Base.Numeral.{Text, codes, text_eq}
use paystream.Base.Json.{Json, null, bool, num, text, arr, obj, Fields}
use paystream.Hook.{strip, starts_with, is_blank}
use paystream.Dashboards.Queries.{
  ds_ref, PanelQuery, panel_queries, gold_query, pipeline_query, settlement_query,
}

-- The keys that the scripts read or set, `none` where one is missing, and the others.
pub record Target : Type 0 where
  pub datasource : Option Json
  pub editor_type : Option Json
  pub query_type : Option Json
  pub raw_sql : Option Text
  pub format : Option Json
  pub others : Fields

pub record Panel : Type 0 where
  pub title : Option Text
  pub kind : Option Json
  pub datasource : Option Json
  pub time_from : Option Json
  pub time_shift : Option Json
  pub targets : Option (List Target)
  pub others : Fields

pub record Dashboard : Type 0 where
  pub panels : Option (List Panel)
  pub others : Fields

abbrev pub or_blank : Option Text → Text
or_blank none = []
or_blank (some t) = t

-- `panel.get("title", "")`
abbrev pub title_of : Panel → Text
title_of panel = or_blank (panel.title)

abbrev pub to_lower : ℕ → ℕ
to_lower c = if leb 65 c && leb c 90 then c + 32 else c

-- `part in whole`
abbrev pub contains : Text → Text → Bool
contains part [] = starts_with part []
contains part (c ∷ whole) = starts_with part (c ∷ whole) || contains part whole

-- A loop that changes each element and counts its repairs.
abbrev pub each : {A : Type 0} → (A → A × ℕ) → List A → List A × ℕ
each f [] = ([], 0)
each f (x ∷ xs) = let rest = each f xs in ((f x).0 ∷ rest.0, (f x).1 + rest.1)

abbrev pub each_in : {A : Type 0} → (A → A × ℕ) → Option (List A) → Option (List A) × ℕ
each_in f none = (none, 0)
each_in f (some xs) = (some (each f xs).0, (each f xs).1)

-- A dashboard is written back only where something was repaired.
abbrev pub fix_file : (Panel → Panel × ℕ) → Dashboard → Dashboard × ℕ
fix_file on_panel d =
    let (panels, fixed) = each_in on_panel (d.panels) in
    (if ltb 0 fixed then record d { panels = panels } else d, fixed)

-- The settings that two of the scripts give each target.
abbrev pub set_source : Target → Target
set_source target = record target {
  datasource = some ds_ref;
  editor_type = some (text (codes "sql"));
  query_type = some (text (codes "sql"));
}

-- The loop over the queries, to the first whose key is in the title.
abbrev pub query_for : List PanelQuery → Text → Option PanelQuery
query_for [] title = none
query_for (q ∷ qs) title =
    let later = query_for qs title in
    if contains (map to_lower (q.key)) (map to_lower title) then some q else later

abbrev pub as_json : ℕ → Json
as_json n = num (ratio (pos n) 0)

abbrev pub apply_query : Target → Option PanelQuery → Target × ℕ
apply_query target none = (set_source target, 0)
apply_query target (some fix) = (
  record (set_source target) { raw_sql = some (fix.raw_sql); format = some (as_json (fix.format)) },
  if text_eq (strip (or_blank (target.raw_sql))) (fix.raw_sql) then 0 else 1,
)

abbrev pub fix_target : List PanelQuery → Text → Target → Target × ℕ
fix_target queries title target = apply_query target (query_for queries title)

abbrev pub fix_panel : List PanelQuery → Panel → Panel × ℕ
fix_panel queries panel =
    let (targets, fixed) = each_in (fix_target queries (title_of panel)) (panel.targets) in
    (record panel { datasource = some ds_ref; targets = targets }, fixed)

-- scripts/fix_panels.py: the dashboards after it, and how many panels it says it has fixed.
unfoldable pub fix_panels : List Dashboard → List Dashboard × ℕ
fix_panels ds = each (fix_file (fix_panel panel_queries)) ds

-- `panel.get("type") == "stat"`
abbrev pub is_stat_kind : Option Json → Bool
is_stat_kind none = false
is_stat_kind (some (text t)) = text_eq t (codes "stat")
is_stat_kind (some null) = false
is_stat_kind (some (bool b)) = false
is_stat_kind (some (num n)) = false
is_stat_kind (some (arr xs)) = false
is_stat_kind (some (obj fs)) = false

abbrev pub is_stat : Panel → Bool
is_stat panel = is_stat_kind (panel.kind)

abbrev pub has_time : Text → Bool
has_time lower = contains (codes "as time") lower || contains (codes "now() as time") lower

-- The query with a time column, where it gets one.
unfoldable pub with_time : Text → Option Text
with_time sql =
    let lower = map to_lower sql in
    if is_blank sql || has_time lower
    then none
    else if starts_with (codes "select") (strip lower)
    then some (take 6 (strip sql) ++ (codes " now() AS time," ++ drop 6 (strip sql)))
    else none

abbrev pub set_query : Target → Option Text → Target × ℕ
set_query target none = (target, 0)
set_query target (some sql) = (record target { raw_sql = some sql }, 1)

abbrev pub add_time : Target → Target × ℕ
add_time target = set_query target (with_time (or_blank (target.raw_sql)))

abbrev pub add_times : Panel → Panel × ℕ
add_times panel =
    let (targets, fixed) = each_in add_time (panel.targets) in
    if is_stat panel then (record panel { targets = targets }, fixed) else (panel, 0)

-- scripts/fix_time_col.py
unfoldable pub fix_time_col : List Dashboard → List Dashboard × ℕ
fix_time_col ds = each (fix_file add_times) ds

abbrev pub set_sql : Text → Target → Target
set_sql sql target = record target { raw_sql = some sql; format = some (as_json 1) }

abbrev pub fix_slo_target : Text → Target → Target
fix_slo_target title target =
    let target = set_source target in
    if contains (codes "Gold Freshness") title || contains (codes "Gold Layer") title
    then set_sql gold_query target
    else if contains (codes "Feature Pipeline") title
    then set_sql pipeline_query target
    else if contains (codes "Settlement") title
    then set_sql settlement_query target
    else target

abbrev pub map_in : {A : Type 0} → (A → A) → Option (List A) → Option (List A)
map_in f none = none
map_in f (some xs) = some (map f xs)

abbrev pub fix_slo_panel : Panel → Panel
fix_slo_panel panel = record panel {
  targets = map_in (fix_slo_target (title_of panel)) (panel.targets);
}

-- scripts/fix_slo_panels.py
unfoldable pub fix_slo_panels : Dashboard → Dashboard
fix_slo_panels d = record d { panels = map_in fix_slo_panel (d.panels) }

-- A stat panel shows no time range of its own.
abbrev pub unset_times : Panel → Panel
unset_times panel =
    if is_stat panel then record panel { time_from = some null; time_shift = some null } else panel

-- The loop over the panels, with the titles seen so far.
unfoldable pub dedupe : List Text → List Panel → List Panel
dedupe seen_titles [] = []
dedupe seen_titles (panel ∷ panels) =
    let skipped = dedupe seen_titles panels in
    let rest = dedupe (title_of panel ∷ seen_titles) panels in
    if any (text_eq (title_of panel)) seen_titles then skipped else unset_times panel ∷ rest

abbrev pub or_none : Option (List Panel) → List Panel
or_none none = []
or_none (some panels) = panels

-- scripts/fix_stat_panels.py
unfoldable pub fix_stat_panels : Dashboard → Dashboard
unfolding dedupe
fix_stat_panels d = record d { panels = some (dedupe [] (or_none (d.panels))) }
