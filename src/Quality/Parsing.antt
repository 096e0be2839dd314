-- ===== src/Quality/Parsing.antt =====
-- The summary line of dbt is read back, wherever it stands in the output.
use paystream.Base.{
  ℕ, ◌+◌, ◌-◌, ◌*◌, ◌≡◌, refl, ap, ◌∙◌, Bool, true, false, List, [], ◌∷◌, ◌++◌, All, none, some,
  ◌==◌, ==_iff,
}
use paystream.Quality.{
  Summary, is_digit, is_space, pass_label, warn_label, error_label, skip_label, total_label,
  literal, then_digits, then_field, then_warn, then_error, then_skip, then_total, then_end,
  skip_spaces, spaces, more_digits, digits, field, next_field, match, search_summary,
}

-- Decimal digits after the digits of `n`.
abbrev pub value : ℕ → List ℕ → ℕ
value n [] = n
value n (d ∷ ds) = value (10 * n + (d - 48)) ds

abbrev pub StartsNot : (ℕ → Bool) → List ℕ → Type 0
StartsNot p [] = Unit
StartsNot p (c ∷ text) = p c ≡ false

-- A number as it is written: at least one digit.
pub record Numeral : Type 0 where
  pub first : ℕ
  pub rest : List ℕ
  pub first_digit : is_digit first ≡ true
  pub rest_digits : All (λ c. is_digit c ≡ true) rest

abbrev pub shown : Numeral → List ℕ
shown n = n.first ∷ n.rest

abbrev pub read : Numeral → ℕ
read n = value (n.first - 48) (n.rest)

eq_self : (c : ℕ) → (c == c) ≡ true
eq_self c = (==_iff c c).1 refl

literal-append : (label text : List ℕ) → literal label (label ++ text) ≡ some text
unfolding literal
literal-append [] text = refl
literal-append (l ∷ ls) text = rw (eq_self l) (literal-append ls text)

more_digits-append :
    (n : ℕ) (ds text : List ℕ)
    → All (λ c. is_digit c ≡ true) ds
    → StartsNot is_digit text
    → more_digits n (ds ++ text) ≡ (value n ds, text)
unfolding more_digits
more_digits-append n [] [] h k = refl
more_digits-append n [] (c ∷ text) h k = rw k refl
more_digits-append n (d ∷ ds) text (h, hs) k =
    rw h (more_digits-append (10 * n + (d - 48)) ds text hs k)

field-append :
    (label : List ℕ) (n : Numeral) (text : List ℕ)
    → StartsNot is_digit text
    → field label (label ++ (shown n ++ text)) ≡ some (read n, text)
unfolding field digits
field-append label n text k =
    ap then_digits (literal-append label (shown n ++ text))
    ∙ rw (n.first_digit)
        (ap some (more_digits-append (n.first - 48) (n.rest) text (n.rest_digits) k))

-- One space, as dbt writes it.
next_field-append :
    (l : ℕ) (ls : List ℕ) (n : Numeral) (text : List ℕ)
    → is_space l ≡ false
    → StartsNot is_digit text
    → next_field (l ∷ ls) (32 ∷ (l ∷ ls) ++ (shown n ++ text)) ≡ some (read n, text)
unfolding next_field spaces skip_spaces
next_field-append l ls n text h k =
    let found : spaces (32 ∷ (l ∷ ls) ++ (shown n ++ text)) ≡ some ((l ∷ ls) ++ (shown n ++ text)) =
      rw h refl in
    ap (then_field (l ∷ ls)) found ∙ field-append (l ∷ ls) n text k

-- `PASS=.. WARN=.. ERROR=.. SKIP=.. TOTAL=..`, before `text`.
abbrev pub line : (p w e s t : Numeral) → List ℕ → List ℕ
line p w e s t text =
    pass_label
    ++ (shown p
        ++ (32
            ∷ (warn_label
                ++ (shown w
                    ++ (32
                        ∷ (error_label
                            ++ (shown e
                                ++ (32
                                    ∷ (skip_label
                                        ++ (shown s
                                            ++ (32 ∷ (total_label ++ (shown t ++ text)))))))))))))

abbrev pub summary : (p w e s t : Numeral) → Summary
summary p w e s t = record {
  passed = read p;
  warned = read w;
  errored = read e;
  skipped = read s;
  total = read t;
}

match-line :
    (p w e s t : Numeral) (text : List ℕ)
    → StartsNot is_digit text
    → match (line p w e s t text) ≡ some (summary p w e s t)
unfolding match
match-line p w e s t text k =
    let t4 = 32 ∷ (total_label ++ (shown t ++ text)) in
    let t3 = 32 ∷ (skip_label ++ (shown s ++ t4)) in
    let t2 = 32 ∷ (error_label ++ (shown e ++ t3)) in
    let t1 = 32 ∷ (warn_label ++ (shown w ++ t2)) in
    ap then_warn (field-append pass_label p t1 refl)
    ∙ ap (then_error (read p)) (next_field-append 87 _ w t2 refl refl)
    ∙ ap (then_skip (read p) (read w)) (next_field-append 69 _ e t3 refl refl)
    ∙ ap (then_total (read p) (read w) (read e)) (next_field-append 83 _ s t4 refl refl)
    ∙ ap (then_end (read p) (read w) (read e) (read s)) (next_field-append 84 _ t text refl k)

-- The expression cannot start where there is no P.
match_no_pass : (c : ℕ) (text : List ℕ) → (80 == c) ≡ false → match (c ∷ text) ≡ none
unfolding match field literal
match_no_pass c text h = rw (h, match) refl

-- A summary line is read with its five numbers, after any text without a P and before any text that
-- does not go on with a digit.
pub search_summary-line :
    (before : List ℕ) (p w e s t : Numeral) (text : List ℕ)
    → All (λ c. (80 == c) ≡ false) before
    → StartsNot is_digit text
    → search_summary (before ++ line p w e s t text) ≡ some (summary p w e s t)
unfolding search_summary
search_summary-line [] p w e s t text h k = rw (match-line p w e s t text k, search_summary) refl
search_summary-line (c ∷ before) p w e s t text (h, hs) k =
    rw (match_no_pass c _ h, search_summary) (search_summary-line before p w e s t text hs k)

-- A text without a P has no summary.
pub search_summary-none :
    (text : List ℕ) → All (λ c. (80 == c) ≡ false) text → search_summary text ≡ none
unfolding search_summary
search_summary-none [] h = refl
search_summary-none (c ∷ text) (h, hs) =
    rw (match_no_pass c text h, search_summary) (search_summary-none text hs)
