-- ===== src/Dashboards/Panels.antt =====
-- What fix_panels leaves.
use paystream.Base.{
  ◌≡◌, refl, List, [], ◌∷◌, map, Option, none, some, ltb, All, Bool-cases, inl, inr, arith,
}
use paystream.Base.Numeral.{Text, text_eq, text_eq→eq, text_eq_refl}
use paystream.Hook.{strip}
use paystream.Dashboards.Queries.{PanelQuery, panel_queries}
use paystream.Dashboards.{
  Target, Panel, Dashboard, or_blank, or_none, title_of, to_lower, contains, each, fix_file,
  query_for, apply_query, fix_target, fix_panel, fix_panels,
}
use paystream.Dashboards.Again.{each_in-count, each-zero, each-All, each-again, fix_file-again}

-- The trimmed query of the target is that of the panel's title, where there is one.
abbrev pub IsQuery : Target → Option PanelQuery → Type 0
IsQuery target none = Unit {0}
IsQuery target (some fix) = strip (or_blank (target.raw_sql)) ≡ fix.raw_sql

abbrev pub targets_of : Option (List Target) → List Target
targets_of none = []
targets_of (some targets) = targets

abbrev pub HasQueries : List PanelQuery → Panel → Type 0
HasQueries queries panel =
    All (λ target. IsQuery target (query_for queries (title_of panel))) (targets_of (panel.targets))

abbrev pub IsQueried : List PanelQuery → Dashboard → Type 0
IsQueried queries d = All (HasQueries queries) (or_none (d.panels))

abbrev IsTrimmed : PanelQuery → Type 0
IsTrimmed q = strip (q.raw_sql) ≡ q.raw_sql

panel_queries-IsTrimmed : All IsTrimmed panel_queries
panel_queries-IsTrimmed = (
  refl,
  (
    refl,
    (
      refl,
      (
        refl,
        (
          refl,
          (
            refl,
            (
              refl,
              (
                refl,
                (
                  refl,
                  (
                    refl,
                    (
                      refl,
                      (
                        refl,
                        (
                          refl,
                          (
                            refl,
                            (
                              refl,
                              (
                                refl,
                                (
                                  refl,
                                  (
                                    refl,
                                    (
                                      refl,
                                      (refl, (refl, (refl, (refl, (refl, (refl, (refl, tt))))))),
                                    ),
                                  ),
                                ),
                              ),
                            ),
                          ),
                        ),
                      ),
                    ),
                  ),
                ),
              ),
            ),
          ),
        ),
      ),
    ),
  ),
)

module _ (queries : List PanelQuery) (trimmed : All IsTrimmed queries) where
  query_for-IsTrimmed :
      (qs : List PanelQuery)
      → All IsTrimmed qs
      → (title : Text) → (target : Target)
      → IsQuery (apply_query target (query_for qs title)).0 (query_for qs title)
  query_for-IsTrimmed [] h title target = tt
  query_for-IsTrimmed (q ∷ qs) (h, hs) title target =
      elim (Bool-cases (contains (map to_lower (q.key)) (map to_lower title))) [
        | inl e ↦ rw e h
        | inr e ↦ rw e (query_for-IsTrimmed qs hs title target)
      ]

  no_repair :
      (target : Target) (o : Option PanelQuery) → IsQuery target o → (apply_query target o).1 ≡ 0
  no_repair target none h = refl
  no_repair target (some fix) h = rw h (rw (text_eq_refl (fix.raw_sql)) refl)

  unrepaired :
      (target : Target) (o : Option PanelQuery) → (apply_query target o).1 ≡ 0 → IsQuery target o
  unrepaired target none h = tt
  unrepaired target (some fix) h =
      elim (Bool-cases (text_eq (strip (or_blank (target.raw_sql))) (fix.raw_sql))) [
        | inl e ↦ text_eq→eq _ _ e
        | inr e ↦ absurd (ground arith)
      ]

  fix_target-again :
      (title : Text) (target : Target)
      → (fix_target queries title (fix_target queries title target).0).1 ≡ 0
  fix_target-again title target =
      no_repair (fix_target queries title target).0 (query_for queries title)
        (query_for-IsTrimmed queries trimmed title target)

  fix_panel-again : (p : Panel) → (fix_panel queries (fix_panel queries p).0).1 ≡ 0
  fix_panel-again p =
      each_in-count (fix_target queries (title_of p)) (fix_target-again (title_of p)) (p.targets)

  fixed-HasQueries : (p : Panel) → HasQueries queries (fix_panel queries p).0
  fixed-HasQueries p = of_targets (p.targets)
    where
      of_targets :
          (targets : Option (List Target))
          → HasQueries queries (fix_panel queries (record p { targets = targets })).0
      of_targets none = tt
      of_targets (some ts) =
          each-All (fix_target queries (title_of p))
            (λ target. IsQuery target (query_for queries (title_of p)))
            (query_for-IsTrimmed queries trimmed (title_of p)) ts

  unfixed-HasQueries : (p : Panel) → (fix_panel queries p).1 ≡ 0 → HasQueries queries p
  unfixed-HasQueries p = of_targets (p.targets)
    where
      of_targets :
          (targets : Option (List Target))
          → (fix_panel queries (record p { targets = targets })).1 ≡ 0
          → HasQueries queries (record p { targets = targets })
      of_targets none h = tt
      of_targets (some ts) h =
          each-zero (fix_target queries (title_of p))
            (λ target. IsQuery target (query_for queries (title_of p)))
            (λ target. unrepaired target (query_for queries (title_of p))) ts h

  fix_file-IsQueried : (d : Dashboard) → IsQueried queries (fix_file (fix_panel queries) d).0
  fix_file-IsQueried d = of_panels (d.panels)
    where
      of_panels :
          (panels : Option (List Panel))
          → IsQueried queries (fix_file (fix_panel queries) (record d { panels = panels })).0
      of_panels none = tt
      of_panels (some ps) = elim (Bool-cases (ltb 0 (each (fix_panel queries) ps).1)) [
        | inl e ↦ rw e (each-All (fix_panel queries) (HasQueries queries) fixed-HasQueries ps)
        | inr e ↦ rw e (
            each-zero (fix_panel queries) (HasQueries queries) unfixed-HasQueries ps (ground arith))
      ]

-- The dashboards after a run of fix_panels.
pub record AreFixed (ds : List Dashboard) : Type 0 where
  pub queried : All (IsQueried panel_queries) ds
  pub again : fix_panels ds ≡ (ds, 0)

-- After a run of fix_panels, from any dashboards, each target of a panel whose title has one of the
-- keys has the query of the first such key, up to blanks around it, and a second run writes no file
-- and counts no repair.
pub fix_panels-AreFixed : (ds : List Dashboard) → AreFixed (fix_panels ds).0
unfolding fix_panels
fix_panels-AreFixed ds = record {
  queried =
      each-All (fix_file (fix_panel panel_queries)) (IsQueried panel_queries)
        (fix_file-IsQueried panel_queries panel_queries-IsTrimmed) ds;
  again =
      each-again (fix_file (fix_panel panel_queries))
        (fix_file-again (fix_panel panel_queries)
          (fix_panel-again panel_queries panel_queries-IsTrimmed))
        ds;
}
