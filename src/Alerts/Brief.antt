-- ===== src/Alerts/Brief.antt =====
-- What the HTTP server grafana/grafana_sns_bridge.py publishes.
use paystream.Base.{
  ℕ, zero, suc, ◌≤◌, ◌≡◌, ◌⊎◌, refl, ap, sym, ◌∙◌, Bool, true, false, List, [], ◌∷◌, ◌++◌, Option,
  subst, length-append, length, take, inl, inr, if◌then◌else◌, arith,
}
use paystream.Base.Task.{type_error, Exn, Result, ok, raised, Task, lift}
use paystream.Base.Action.{pure, ◌>>=◌}
use paystream.Base.Numeral.{Text, codes, str}
use paystream.Base.Json.{
  Json, null, bool, num, text, arr, obj, Items, nil, cons, elements, is_true, slice, take_items,
  to_list, characters,
}
use paystream.Alerts.{
  Message, join, alert_line, all_lines, summarize, forward_post, as_message, text_of,
}
use paystream.Alerts.Replies.{Publishes, insert-Publishes, short_take}

-- The task publishes nothing, and its value satisfies `P`.
record Yields {A : Type 0} (P : A → Type 0) (m : Task Message A) : Type 0 where
  pub yields :
      (log : List Message)
      → ((a : A) × P a × (m log ≡ (ok a, log))) ⊎ ((e : Exn) × (m log ≡ (raised e, log)))

module _ {A : Type 0} where
  lift-Yields : (r : Result A) → Yields (λ a. r ≡ ok a) (lift r)
  lift-Yields (ok a) = record { yields = λ log. inl (a, refl, refl) }
  lift-Yields (raised e) = record { yields = λ log. inr (e, refl) }

  pure-Yields : (P : A → Type 0) (a : A) → P a → Yields P (pure a)
  unfolding pure
  pure-Yields P a h = record { yields = λ log. inl (a, h, refl) }

  module _ {B : Type 0} (P : A → Type 0) (m : Task Message A) (h : Yields P m) where
    >>=-Yields :
        (Q : B → Type 0) (f : A → Task Message B)
        → ((a : A) → P a → Yields Q (f a))
        → Yields Q (m >>= f)
    unfolding ◌>>=◌
    >>=-Yields Q f k = record {
      yields = λ log. elim (h.yields log) [
        | inl (a, p, e) ↦ rw e ((k a p).yields log)
        | inr (x, e) ↦ rw e (inr (x, refl))
      ];
    }

  module _ (P : A → Type 0) (m : Task Message A) (h : Yields P m) where
    >>=-Publishes :
        (Q : Message → Type 0) (f : A → Task Message (Unit {0}))
        → ((a : A) → P a → Publishes Q (f a))
        → Publishes Q (m >>= f)
    unfolding ◌>>=◌
    >>=-Publishes Q f k = record {
      publishes = λ log. elim (h.yields log) [
        | inl (a, p, e) ↦ rw e ((k a p).publishes log)
        | inr (x, e) ↦ rw e (inr (x, refl))
      ];
    }

-- A message of the server: the number of the alerts and a line for each of the first five, or the title
-- and the message of the post, cut.
pub data IsBrief (m : Message) : Type 0 where
  of_alerts :
      (n : ℕ) (lines : List Text)
      → m.subject ≡ codes "PayStream: " ++ (str n ++ codes " alert(s)")
      → m.body ≡ join lines
      → length lines ≤ 5
      → IsBrief m
  of_post : length m.subject ≤ 100 → length m.body ≤ 2000 → IsBrief m

few_items : (n : ℕ) (xs : Items) → length (to_list (take_items n xs)) ≤ n
few_items zero xs = omega arith
few_items (suc n) nil = omega arith
few_items (suc n) (cons x xs) = omega (arith, few_items n xs)

length-characters : (t : Text) → length (characters t) ≡ length t
length-characters [] = refl
length-characters (c ∷ cs) = ap suc (length-characters cs)

slice-elements : (j first : Json) → slice 5 j ≡ ok first → length (elements first) ≤ 5
slice-elements (text t) first h =
    let few : length (elements (text (take 5 t))) ≤ 5 =
      omega (arith, length-characters (take 5 t), short_take 5 t) in
    let same : text (take 5 t) ≡ first = cc in subst (λ j. length (elements j) ≤ 5) same few
slice-elements (arr xs) first h =
    let same : arr (take_items 5 xs) ≡ first = cc in
    subst (λ j. length (elements j) ≤ 5) same (few_items 5 xs)
slice-elements null first h = cc
slice-elements (bool b) first h = cc
slice-elements (num n) first h = cc
slice-elements (obj fs) first h = cc

module _ (loads : Text → Option Json) (repr : Json → Text)
    (takes : List Message → Message → Bool) where
  text_of-short :
      (n : ℕ) (j : Json) (t u : Text)
      → j ≡ text (take n t)
      → text_of loads repr takes j ≡ ok u
      → length u ≤ n
  text_of-short n j t u h k =
      let f : ok (take n t) ≡ ok u = sym (ap (text_of loads repr takes) h) ∙ k in
      let e : take n t ≡ u = cc in subst (λ l. length l ≤ n) e (short_take n t)

  text_of-arr :
      {A : Type 0} (j : Json) (xs : Items) (u : Text)
      → j ≡ arr xs
      → text_of loads repr takes j ≡ ok u
      → A
  text_of-arr j xs u h k =
      let e : raised type_error ≡ ok u = sym (ap (text_of loads repr takes) h) ∙ k in cc

  slice-text :
      (n : ℕ) (j sliced : Json) (u : Text)
      → slice n j ≡ ok sliced
      → text_of loads repr takes sliced ≡ ok u
      → length u ≤ n
  slice-text n (text t) sliced u h k =
      let same : sliced ≡ text (take n t) = cc in text_of-short n sliced t u same k
  slice-text n (arr xs) sliced u h k =
      let same : sliced ≡ arr (take_items n xs) = cc in
      text_of-arr sliced (take_items n xs) u same k
  slice-text n null sliced u h k = cc
  slice-text n (bool b) sliced u h k = cc
  slice-text n (num x) sliced u h k = cc
  slice-text n (obj fs) sliced u h k = cc

  module _ (upper : Text → Text) where
    alert_line-Yields :
        (alert : Json)
        → Yields (λ lines. length lines ≡ 1) (alert_line loads repr takes upper alert)
    unfolding alert_line
    alert_line-Yields alert = >>=-Yields _ _ (lift-Yields _) _ _ (λ status _.
        >>=-Yields _ _ (lift-Yields _) _ _ (λ loud _.
          >>=-Yields _ _ (lift-Yields _) _ _
            (λ labels _. >>=-Yields _ _ (lift-Yields _) _ _ (λ name _. pure-Yields _ _ refl))))

    all_lines-Yields :
        (alerts : List Json)
        → Yields
            (λ lines. length lines ≡ length alerts)
            (all_lines loads repr takes (alert_line loads repr takes upper) alerts)
    unfolding all_lines
    all_lines-Yields [] = pure-Yields _ _ refl
    all_lines-Yields (alert ∷ alerts) = >>=-Yields _ _ (alert_line-Yields alert) _ _ (λ lines one.
        >>=-Yields _ _ (all_lines-Yields alerts) _ _
          (λ more same. pure-Yields _ _ (omega (arith, length-append lines more))))

    summarize-Yields : (alerts : Json) → Yields IsBrief (summarize loads repr takes upper alerts)
    unfolding summarize
    summarize-Yields alerts = >>=-Yields _ _ (lift-Yields _) _ _ (λ first e.
        >>=-Yields _ _ (all_lines-Yields (elements first)) _ _ (λ lines same.
          >>=-Yields _ _ (lift-Yields _) _ _ (λ n _.
            pure-Yields _ _
              (of_alerts n lines refl refl (omega (arith, slice-elements alerts first e))))))

    message-Yields :
        (some_alerts : Bool) (alerts whole title said msg : Json)
        → slice 100 whole ≡ ok title
        → slice 2000 said ≡ ok msg
        → Yields IsBrief (
            if some_alerts
            then summarize loads repr takes upper alerts
            else as_message loads repr takes upper title msg)
    message-Yields true alerts whole title said msg h k = summarize-Yields alerts
    message-Yields false alerts whole title said msg h k =
        >>=-Yields _ _ (lift-Yields _) _ _ (λ subject s.
          >>=-Yields _ _ (lift-Yields _) _ _ (λ body b.
            pure-Yields _ _ (
              of_post (slice-text 100 whole title subject h s)
                (slice-text 2000 said msg body k b))))

    pub forward_post-Publishes :
        (posted : Text) → Publishes IsBrief (forward_post loads repr takes upper posted)
    unfolding forward_post
    forward_post-Publishes posted = >>=-Publishes _ _ (lift-Yields _) _ _ (λ content _.
        >>=-Publishes _ _ (lift-Yields _) _ _ (λ whole _.
          >>=-Publishes _ _ (lift-Yields _) _ _ (λ title h.
            >>=-Publishes _ _ (lift-Yields _) _ _ (λ said _.
              >>=-Publishes _ _ (lift-Yields _) _ _ (λ msg k.
                >>=-Publishes _ _ (lift-Yields _) _ _ (λ alerts _.
                  >>=-Publishes _ _
                    (message-Yields (is_true alerts) alerts whole title said msg h k) _ _
                    (λ message brief. insert-Publishes _ takes message brief)))))))
