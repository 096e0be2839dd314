-- ===== src/Dashboards/Unique.antt =====
-- The titles of a dashboard after fix_stat_panels.
use paystream.Base.{
  ◌≡◌, refl, Bool, true, false, ◌||◌, List, [], ◌∷◌, Option, none, some, any, All, All-weaken,
  Bool-cases, inl, inr, arith, if◌then◌else◌,
}
use paystream.Base.Numeral.{Text, text_eq, text_eq→eq, text_eq_refl}
use paystream.Dashboards.{
  Panel, Dashboard, title_of, is_stat, unset_times, dedupe, or_none, fix_stat_panels,
}

abbrev pub has_title : Text → List Panel → Bool
has_title title panels = any (λ p. text_eq (title_of p) title) panels

-- The first panel with the title.
abbrev pub find : Text → List Panel → Option Panel
find title [] = none
find title (p ∷ ps) =
    let later = find title ps in if text_eq (title_of p) title then some p else later

-- No two panels have one title.
abbrev pub AreDistinct : List Panel → Type 0
AreDistinct [] = Unit {0}
AreDistinct (p ∷ ps) = (has_title (title_of p) ps ≡ false) × AreDistinct ps

-- What is left of the panels.
pub record Deduped (panels kept : List Panel) : Type 0 where
  pub distinct : AreDistinct kept
  pub firsts :
      All (λ q. (p : Panel) × (find (title_of q) panels ≡ some p) × (q ≡ unset_times p)) kept
  pub titles : All (λ p. has_title (title_of p) kept ≡ true) panels

abbrev IsFirst : List Panel → Panel → Type 0
IsFirst panels q = (p : Panel) × (find (title_of q) panels ≡ some p) × (q ≡ unset_times p)

abbrev is_seen : Text → List Text → Bool
is_seen title seen = any (text_eq title) seen

-- `kept` is what is left, where the titles of `seen` are passed over.
record Passing (seen : List Text) (panels kept : List Panel) : Type 0 where
  pub distinct : AreDistinct kept
  pub firsts : All (λ q. (is_seen (title_of q) seen ≡ false) × IsFirst panels q) kept
  pub titles : All (λ p. (has_title (title_of p) kept || is_seen (title_of p) seen) ≡ true) panels

title-unset_times : (p : Panel) → title_of (unset_times p) ≡ title_of p
title-unset_times p = elim (Bool-cases (is_stat p)) [ inl e ↦ rw e refl | inr e ↦ rw e refl ]

-- A title that is seen is no other's.
seen_apart :
    (seen : List Text) (s t : Text)
    → is_seen s seen ≡ true
    → is_seen t seen ≡ false
    → text_eq s t ≡ false
seen_apart seen s t h k = elim (Bool-cases (text_eq s t)) [
  | inl e ↦ let same : s ≡ t = text_eq→eq s t e in absurd cc
  | inr e ↦ e
]

false_sym : (s t : Text) → text_eq s t ≡ false → text_eq t s ≡ false
false_sym s t h = elim (Bool-cases (text_eq t s)) [
  | inl e ↦ let same : t ≡ s = text_eq→eq t s e in absurd (ground (arith, text_eq_refl s))
  | inr e ↦ e
]

find-tail :
    (panel : Panel) (panels : List Panel) (q : Panel)
    → text_eq (title_of panel) (title_of q) ≡ false
    → IsFirst panels q
    → IsFirst (panel ∷ panels) q
find-tail panel panels q h (p, found, e) = (p, rw h found, e)

other_titles :
    (title : Text) (kept : List Panel)
    → All (λ q. text_eq (title_of q) title ≡ false) kept
    → has_title title kept ≡ false
other_titles title [] h = refl
other_titles title (q ∷ kept) (h, hs) = rw h (other_titles title kept hs)

unseen_either :
    (seen : List Text) (title : Text) (q : Panel)
    → is_seen (title_of q) (title ∷ seen) ≡ false
    → (text_eq (title_of q) title ≡ false) × (is_seen (title_of q) seen ≡ false)
unseen_either seen title q h = ground arith

drop_middle : (a b c : Bool) → b ≡ false → (a || (b || c)) ≡ true → (a || c) ≡ true
drop_middle a b c e h = ground arith

module _ (seen : List Text) (panel : Panel) (panels kept : List Panel) where
  skip-Passing :
      is_seen (title_of panel) seen ≡ true
      → Passing seen panels kept
      → Passing seen (panel ∷ panels) kept
  skip-Passing h rest = record {
    distinct = rest.distinct;
    firsts =
        All-weaken kept
          (λ q (unseen, first). (
            unseen,
            find-tail panel panels q (seen_apart seen (title_of panel) (title_of q) h unseen) first,
          ))
          (rest.firsts);
    titles = (rw h (ground arith), rest.titles);
  }

  title_kept :
      (p : Panel)
      → (has_title (title_of p) kept || is_seen (title_of p) (title_of panel ∷ seen)) ≡ true
      → (has_title (title_of p) (unset_times panel ∷ kept) || is_seen (title_of p) seen) ≡ true
  title_kept p h =
      rw (title-unset_times panel) (elim (Bool-cases (text_eq (title_of panel) (title_of p))) [
        | inl e ↦ rw e refl
        | inr e ↦
            let apart : text_eq (title_of p) (title_of panel) ≡ false =
              false_sym (title_of panel) (title_of p) e in
            rw e (drop_middle (has_title (title_of p) kept) _ _ apart h)
      ])

  keep-Passing :
      is_seen (title_of panel) seen ≡ false
      → Passing (title_of panel ∷ seen) panels kept
      → Passing seen (panel ∷ panels) (unset_times panel ∷ kept)
  keep-Passing h rest = record {
    distinct = (
      rw (title-unset_times panel) (
          other_titles (title_of panel) kept (
            All-weaken kept (λ q (unseen, first). (unseen_either seen (title_of panel) q unseen).0)
              (rest.firsts))),
      rest.distinct,
    );
    firsts = (
      rw (title-unset_times panel) (h, (panel, rw (text_eq_refl (title_of panel)) refl, refl)),
      All-weaken kept
          (λ q (unseen, first).
            let (apart, unseen') = unseen_either seen (title_of panel) q unseen in
            (
              unseen',
              find-tail panel panels q (false_sym (title_of q) (title_of panel) apart) first,
            ))
          (rest.firsts),
    );
    titles = (
      rw (title-unset_times panel) (rw (text_eq_refl (title_of panel)) refl),
      All-weaken panels title_kept (rest.titles),
    );
  }

dedupe-Passing : (seen : List Text) (panels : List Panel) → Passing seen panels (dedupe seen panels)
unfolding dedupe
dedupe-Passing seen [] = record { distinct = tt; firsts = tt; titles = tt }
dedupe-Passing seen (panel ∷ panels) = elim (Bool-cases (is_seen (title_of panel) seen)) [
  | inl e ↦ rw e (skip-Passing seen panel panels _ e (dedupe-Passing seen panels))
  | inr e ↦
      rw e (keep-Passing seen panel panels _ e (dedupe-Passing (title_of panel ∷ seen) panels))
]

dedupe-Deduped : (panels : List Panel) → Deduped panels (dedupe [] panels)
dedupe-Deduped panels =
    let passing = dedupe-Passing [] panels in
    record {
      distinct = passing.distinct;
      firsts = All-weaken (dedupe [] panels) (λ q (unseen, first). first) (passing.firsts);
      titles = All-weaken panels (λ p h. ground arith) (passing.titles);
    }

-- After a run of fix_stat_panels no two panels have one title, each is the first one of its title
-- before the run, with its times unset if it is a stat panel, and no title is lost; a panel without a
-- title has the empty one.
pub fix_stat_panels-Deduped :
    (d : Dashboard) → Deduped (or_none (d.panels)) (or_none ((fix_stat_panels d).panels))
unfolding fix_stat_panels
fix_stat_panels-Deduped d = dedupe-Deduped (or_none (d.panels))
