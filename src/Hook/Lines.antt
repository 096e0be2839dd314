-- ===== src/Hook/Lines.antt =====
-- The rows of an answer are the objects on its lines.
use paystream.Base.{
  ℕ, ◌≡◌, refl, sym, ap, ◌∙◌, Bool, true, false, List, [], ◌∷◌, ◌++◌, map, All, ◌==◌, if◌then◌else◌,
  append-nil, append_assoc,
}
use paystream.Base.Trace.{All-append}
use paystream.Base.Task.{Result, ok}
use paystream.Hook.{
  Text, add_front, rstrip, strip, add_to_first, split, is_nil, add_row, Json, Parsers, rows_of,
  read_answer, is_select, fill_in, execute_clickhouse_query, on_answer,
}

-- `{...}`
abbrev pub object : Text → Text
object inner = 123 ∷ (inner ++ 125 ∷ [])

-- Objects on a line each, and after each line its end.
abbrev pub lines_of : List Text → Text
lines_of [] = []
lines_of (o ∷ os) = object o ++ (10 ∷ lines_of os)

abbrev pub OneLine : Text → Type 0
OneLine inner = All (λ c. (c == 10) ≡ false) inner

-- After a line, without the end of the last one.
abbrev pub following : List Text → Text
following [] = []
following (p ∷ ps) = 10 ∷ (object p ++ following ps)

add_front-append : (c d : ℕ) (a ds : Text) → add_front c (a ++ (d ∷ ds)) ≡ c ∷ (a ++ (d ∷ ds))
add_front-append c d [] ds = refl
add_front-append c d (x ∷ a) ds = refl

rstrip-append :
    (a t : Text) (d : ℕ) (ds : Text) → rstrip t ≡ d ∷ ds → rstrip (a ++ t) ≡ a ++ (d ∷ ds)
rstrip-append [] t d ds h = h
rstrip-append (x ∷ a) t d ds h =
    ap (add_front x) (rstrip-append a t d ds h) ∙ add_front-append x d a ds

-- The brace at the end of a line keeps what is before it.
brace : (os : List Text) → add_front 125 (following os) ≡ 125 ∷ following os
brace [] = refl
brace (p ∷ ps) = refl

rstrip-object :
    (o : Text) (os : List Text)
    → rstrip (10 ∷ lines_of os) ≡ following os
    → rstrip (lines_of (o ∷ os)) ≡ object o ++ following os
rstrip-object o os h =
    ap rstrip (append_assoc (123 ∷ o) (125 ∷ []) (10 ∷ lines_of os))
    ∙ rstrip-append (123 ∷ o) (125 ∷ (10 ∷ lines_of os)) 125 (following os)
        (ap (add_front 125) h ∙ brace os)
    ∙ sym (append_assoc (123 ∷ o) (125 ∷ []) (following os))

rstrip-following : (os : List Text) → rstrip (10 ∷ lines_of os) ≡ following os
rstrip-following [] = refl
rstrip-following (p ∷ ps) = ap (add_front 10) (rstrip-object p ps (rstrip-following ps))

split-line : (a t : Text) → OneLine a → split (a ++ (10 ∷ t)) ≡ a ∷ split t
split-line [] t h = refl
split-line (c ∷ a) t (h, hs) = rw h (ap (add_to_first c) (split-line a t hs))

split_last : (a : Text) → OneLine a → split a ≡ a ∷ []
split_last [] h = refl
split_last (c ∷ a) (h, hs) = rw h (ap (add_to_first c) (split_last a hs))

object-OneLine : (o : Text) → OneLine o → OneLine (object o)
object-OneLine o h = (refl, All-append (λ c. (c == 10) ≡ false) o (125 ∷ []) h (refl, tt))

split-lines :
    (o : Text) (os : List Text)
    → All OneLine (o ∷ os)
    → split (object o ++ following os) ≡ map object (o ∷ os)
split-lines o [] (h, hs) =
    ap split (append-nil (object o)) ∙ split_last (object o) (object-OneLine o h)
split-lines o (p ∷ ps) (h, hs) =
    split-line (object o) (object p ++ following ps) (object-OneLine o h)
    ∙ ap (◌∷◌ (object o)) (split-lines p ps hs)

is_nil-add_front : (t : Text) → is_nil (add_front 123 t) ≡ false
is_nil-add_front [] = refl
is_nil-add_front (c ∷ t) = refl

module _ (parsers : Parsers) where
  -- Every object is parsed, in order; one that cannot be parsed raises.
  abbrev pub parsed : List Text → Result (List (List (Text × Json)))
  parsed [] = ok []
  parsed (o ∷ os) = add_row parsers (parsers.loads (object o)) (parsed os)

  rows_of-objects : (os : List Text) → rows_of parsers (map object os) ≡ parsed os
  unfolding rows_of
  rows_of-objects [] = refl
  rows_of-objects (o ∷ os) =
      rw (is_nil-add_front (rstrip (o ++ 125 ∷ [])))
        (ap (add_row parsers (parsers.loads (object o))) (rows_of-objects os))

  pub execute_clickhouse_query-lines :
      (post : Bool → Text → Result (ℕ × Text)) (sql : Text) (params : List (Text × Text)) (o : Text)
      (os : List Text)
      → is_select (fill_in params (strip sql)) ≡ true
      → post true (fill_in params (strip sql)) ≡ ok (200, lines_of (o ∷ os))
      → All OneLine (o ∷ os)
      → execute_clickhouse_query parsers post sql params ≡ parsed (o ∷ os)
  unfolding execute_clickhouse_query read_answer
  execute_clickhouse_query-lines post sql params o os selects answered one_line =
      let query = fill_in params (strip sql) in
      let stripped : rstrip (lines_of (o ∷ os)) ≡ object o ++ following os =
        rstrip-object o os (rstrip-following os) in
      ap (λ b. on_answer parsers b (post b query)) selects
      ∙ ap (on_answer parsers true) answered
      ∙ ap (λ t. if is_nil t then ok [] else rows_of parsers (split t)) stripped
      ∙ ap (rows_of parsers) (split-lines o os one_line)
      ∙ rows_of-objects (o ∷ os)
