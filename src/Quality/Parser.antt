-- ===== src/Quality/Parser.antt =====
-- The regular expression of `parse_and_write_dbt_results` of dags/dq_validation.py,
--   PASS=(\d+)\s+WARN=(\d+)\s+ERROR=(\d+)\s+SKIP=(\d+)\s+TOTAL=(\d+)
-- on a text as the list of its codes, which are ASCII. What follows a greedy `\d+` or `\s+` is no
-- digit or no space, so the first way to match is the only one and nothing is tried twice.
use paystream.Base.{
  ℕ, ◌+◌, ◌-◌, ◌*◌, Bool, ◌&&◌, ◌||◌, List, [], ◌∷◌, Option, none, some, ◌==◌, leb, if◌then◌else◌,
}

abbrev pub is_digit : ℕ → Bool
is_digit c = leb 48 c && leb c 57

-- Tab to carriage return, the four separators, and the space.
abbrev pub is_space : ℕ → Bool
is_space c = (leb 9 c && leb c 13) || (leb 28 c && leb c 32)

abbrev pub pass_label : List ℕ
pass_label = 80 ∷ 65 ∷ 83 ∷ 83 ∷ 61 ∷ []

abbrev pub warn_label : List ℕ
warn_label = 87 ∷ 65 ∷ 82 ∷ 78 ∷ 61 ∷ []

abbrev pub error_label : List ℕ
error_label = 69 ∷ 82 ∷ 82 ∷ 79 ∷ 82 ∷ 61 ∷ []

abbrev pub skip_label : List ℕ
skip_label = 83 ∷ 75 ∷ 73 ∷ 80 ∷ 61 ∷ []

abbrev pub total_label : List ℕ
total_label = 84 ∷ 79 ∷ 84 ∷ 65 ∷ 76 ∷ 61 ∷ []

pub record Summary : Type 0 where
  pub passed : ℕ
  pub warned : ℕ
  pub errored : ℕ
  pub skipped : ℕ
  pub total : ℕ

-- A literal at the start of the text, and the text after it.
unfoldable pub literal : List ℕ → List ℕ → Option (List ℕ)
literal [] text = some text
literal (l ∷ ls) [] = none
literal (l ∷ ls) (c ∷ text) = let rest = literal ls text in if l == c then rest else none

-- `\s*`
unfoldable pub skip_spaces : List ℕ → List ℕ
skip_spaces [] = []
skip_spaces (c ∷ text) = let rest = skip_spaces text in if is_space c then rest else c ∷ text

-- `\s+`
unfoldable pub spaces : List ℕ → Option (List ℕ)
unfolding skip_spaces
spaces [] = none
spaces (c ∷ text) = if is_space c then some (skip_spaces text) else none

-- `\d*`, as the number that `int` reads on top of `n`, and the text after it.
unfoldable pub more_digits : ℕ → List ℕ → ℕ × List ℕ
more_digits n [] = (n, [])
more_digits n (c ∷ text) =
    let rest = more_digits (10 * n + (c - 48)) text in if is_digit c then rest else (n, c ∷ text)

-- `(\d+)`
unfoldable pub digits : List ℕ → Option (ℕ × List ℕ)
unfolding more_digits
digits [] = none
digits (c ∷ text) = if is_digit c then some (more_digits (c - 48) text) else none

abbrev pub then_digits : Option (List ℕ) → Option (ℕ × List ℕ)
then_digits none = none
then_digits (some text) = digits text

-- `LABEL=(\d+)`
unfoldable pub field : List ℕ → List ℕ → Option (ℕ × List ℕ)
field label text = then_digits (literal label text)

abbrev pub then_field : List ℕ → Option (List ℕ) → Option (ℕ × List ℕ)
then_field label none = none
then_field label (some text) = field label text

-- `\s+LABEL=(\d+)`
unfoldable pub next_field : List ℕ → List ℕ → Option (ℕ × List ℕ)
next_field label text = then_field label (spaces text)

abbrev pub then_end : (p w e s : ℕ) → Option (ℕ × List ℕ) → Option Summary
then_end p w e s none = none
then_end p w e s (some (t, text)) =
    some (record { passed = p; warned = w; errored = e; skipped = s; total = t })

abbrev pub then_total : (p w e : ℕ) → Option (ℕ × List ℕ) → Option Summary
then_total p w e none = none
then_total p w e (some (s, text)) = then_end p w e s (next_field total_label text)

abbrev pub then_skip : (p w : ℕ) → Option (ℕ × List ℕ) → Option Summary
then_skip p w none = none
then_skip p w (some (e, text)) = then_total p w e (next_field skip_label text)

abbrev pub then_error : ℕ → Option (ℕ × List ℕ) → Option Summary
then_error p none = none
then_error p (some (w, text)) = then_skip p w (next_field error_label text)

abbrev pub then_warn : Option (ℕ × List ℕ) → Option Summary
then_warn none = none
then_warn (some (p, text)) = then_error p (next_field warn_label text)

-- The expression at the start of the text.
unfoldable pub match : List ℕ → Option Summary
match text = then_warn (field pass_label text)

-- `re.search`: the first position with a match.
unfoldable pub search_summary : List ℕ → Option Summary
search_summary [] = none
search_summary (c ∷ text) =
    let rest = search_summary text in elim (match (c ∷ text)) [ none ↦ rest | some s ↦ some s ]
