-- ===== src/Dashboards/Times.antt =====
-- What fix_time_col leaves.
use paystream.Base.{
  ◌≡◌, refl, ap, ◌∙◌, true, ◌||◌, List, [], ◌∷◌, ◌++◌, map, take, drop, none, some, Bool-cases, ◌⊎◌,
  inl, inr, arith,
}
use paystream.Base.Numeral.{Text, codes}
use paystream.Hook.{strip, starts_with, is_blank}
use paystream.Dashboards.{
  Target, Panel, Dashboard, or_blank, to_lower, contains, fix_file, has_time, with_time, add_time,
  add_times, is_stat, fix_time_col,
}
use paystream.Dashboards.Again.{each_in-count, each-again, fix_file-again}

contains-append : (part xs ys : Text) → contains part ys ≡ true → contains part (xs ++ ys) ≡ true
contains-append part [] ys h = h
contains-append part (x ∷ xs) ys h = rw (contains-append part xs ys h) (ground arith)

map-append : {A B : Type 0} (f : A → B) (xs ys : List A) → map f (xs ++ ys) ≡ map f xs ++ map f ys
map-append f [] ys = refl
map-append f (x ∷ xs) ys = ap (◌∷◌ (f x)) (map-append f xs ys)

-- A query that has got a time column has one.
timed :
    (xs ys : Text)
    → contains (codes "as time") (map to_lower (xs ++ (codes " now() AS time," ++ ys))) ≡ true
timed xs ys =
    ap (contains (codes "as time")) (map-append to_lower xs (codes " now() AS time," ++ ys))
    ∙ contains-append (codes "as time") (map to_lower xs)
        (map to_lower (codes " now() AS time," ++ ys)) refl

-- A query stays as it is, or gets the column.
with_time-cases :
    (sql : Text)
    → (with_time sql ≡ none)
      ⊎ ((xs : Text) × (ys : Text) × (with_time sql ≡ some (xs ++ (codes " now() AS time," ++ ys))))
unfolding with_time
with_time-cases sql = elim (Bool-cases (is_blank sql || has_time (map to_lower sql))) [
  | inl e ↦ inl (rw e refl)
  | inr e ↦ elim (Bool-cases (starts_with (codes "select") (strip (map to_lower sql)))) [
    | inl e' ↦ inr (take 6 (strip sql), drop 6 (strip sql), rw e (rw e' refl))
    | inr e' ↦ inl (rw e (rw e' refl))
  ]
]

with_time-timed :
    (sql : Text) → contains (codes "as time") (map to_lower sql) ≡ true → with_time sql ≡ none
unfolding with_time
with_time-timed sql h = elim (Bool-cases (is_blank sql)) [
  | inl e ↦ rw e refl
  | inr e ↦ rw e (rw h refl)
]

add_time-again : (target : Target) → (add_time (add_time target).0).1 ≡ 0
add_time-again target = elim (with_time-cases (or_blank (target.raw_sql))) [
  | inl e ↦ rw e (rw e refl)
  | inr (xs, ys, e) ↦
      rw e (rw (with_time-timed (xs ++ (codes " now() AS time," ++ ys)) (timed xs ys)) refl)
]

add_times-again : (p : Panel) → (add_times (add_times p).0).1 ≡ 0
add_times-again p = elim (Bool-cases (is_stat p)) [
  | inl e ↦ rw e (rw e (each_in-count add_time add_time-again (p.targets)))
  | inr e ↦ rw e (rw e refl)
]

-- A second run of fix_time_col writes no file and counts no repair, from any dashboards.
pub fix_time_col-again :
    (ds : List Dashboard) → fix_time_col (fix_time_col ds).0 ≡ ((fix_time_col ds).0, 0)
unfolding fix_time_col
fix_time_col-again ds =
    each-again (fix_file add_times) (fix_file-again add_times add_times-again) ds
