-- ===== src/Alerts/Replies.antt =====
-- What the Lambda function answers to Grafana, and what it publishes.
use paystream.Base.{
  ℕ, ◌≤◌, ◌≡◌, ◌⊎◌, refl, ap, ◌∙◌, Bool, List, [], ◌∷◌, ◌++◌, Option, length, take, length-take,
  Bool-cases, inl, inr, arith,
}
use paystream.Base.Task.{Exn, Result, ok, raised, http_error, Task, lift, insert}
use paystream.Base.Action.{pure, continue, ◌>>=◌}
use paystream.Base.Numeral.{Text, codes}
use paystream.Base.Json.{Json, elements}
use paystream.Alerts.{Message, shown, join, alert_lines, all_lines, forward, handler}

-- The task publishes nothing.
record Quiet {A : Type 0} (m : Task Message A) : Type 0 where
  pub quiet : (log : List Message) → (m log).1 ≡ log

lift-Quiet : {A : Type 0} (r : Result A) → Quiet (lift r)
lift-Quiet r = record { quiet = λ log. refl }

pure-Quiet : {A : Type 0} (a : A) → Quiet (pure a)
unfolding pure
pure-Quiet a = record { quiet = λ log. refl }

>>=-Quiet :
    {A B : Type 0} (m : Task Message A) (f : A → Task Message B)
    → Quiet m
    → ((a : A) → Quiet (f a))
    → Quiet (m >>= f)
unfolding ◌>>=◌
>>=-Quiet {A} {B} m f h k = record { quiet = λ log. went log (m log) (h.quiet log) }
  where
    went : (log : List Message) (r : Result A × List Message) → r.1 ≡ log → (continue r f).1 ≡ log
    went log (ok a, mid) e = (k a).quiet mid ∙ e
    went log (raised x, mid) e = e

module _ (P : Message → Type 0) where
  -- The task publishes one message that satisfies `P`, or raises and publishes nothing.
  pub record Publishes (m : Task Message (Unit {0})) : Type 0 where
    pub publishes :
        (log : List Message)
        → ((msg : Message) × P msg × (m log ≡ (ok tt, log ++ msg ∷ [])))
          ⊎ ((e : Exn) × (m log ≡ (raised e, log)))

  pub insert-Publishes :
      (takes : List Message → Message → Bool) (msg : Message) → P msg → Publishes (insert takes msg)
  insert-Publishes takes msg h = record { publishes = run }
    where
      run :
          (log : List Message)
          → ((m : Message) × P m × (insert takes msg log ≡ (ok tt, log ++ m ∷ [])))
            ⊎ ((e : Exn) × (insert takes msg log ≡ (raised e, log)))
      run log = elim (Bool-cases (takes log msg)) [
        | inl e ↦ inl (msg, h, rw e refl)
        | inr e ↦ inr (http_error, rw e refl)
      ]

  module _ {A : Type 0} where
    lift-Publishes :
        (r : Result A) (f : A → Task Message (Unit {0}))
        → ((a : A) → Publishes (f a))
        → Publishes (lift r >>= f)
    unfolding ◌>>=◌
    lift-Publishes (ok a) f k = record { publishes = (k a).publishes }
    lift-Publishes (raised e) f k = record { publishes = λ log. inr (e, refl) }

    after-Publishes :
        (m : Task Message A) (f : A → Task Message (Unit {0}))
        → Quiet m
        → ((a : A) → Publishes (f a))
        → Publishes (m >>= f)
    unfolding ◌>>=◌
    after-Publishes m f h k = record { publishes = λ log. went log (m log) (h.quiet log) }
      where
        went :
            (log : List Message) (r : Result A × List Message)
            → r.1 ≡ log
            → ((msg : Message) × P msg × (continue r f ≡ (ok tt, log ++ msg ∷ [])))
              ⊎ ((e : Exn) × (continue r f ≡ (raised e, log)))
        went log (raised x, mid) e = inr (x, ap (λ l. (raised x, l)) e)
        went log (ok a, mid) e = rw e ((k a).publishes log)

pub short_take : (n : ℕ) (t : Text) → length (take n t) ≤ n
short_take n t = omega (arith, length-take n t)

-- The limits of the Lambda function.
abbrev pub IsShort : Message → Type 0
IsShort m = (length m.subject ≤ 100) × (length m.body ≤ 1000)

-- The answer to an alert: 200 after one short message, or 500 after none.
pub data Replied (log : List Message) : Result ℕ × List Message → Type 0 where
  published : (m : Message) → IsShort m → Replied log (ok 200, log ++ m ∷ [])
  failed : Replied log (ok 500, log)

module _ (loads : Text → Option Json) (repr : Json → Text)
    (takes : List Message → Message → Bool) where
  all_lines-Quiet :
      (lines_of : Json → Task Message (List Text))
      → ((alert : Json) → Quiet (lines_of alert))
      → (alerts : List Json) → Quiet (all_lines loads repr takes lines_of alerts)
  unfolding all_lines
  all_lines-Quiet lines_of each [] = pure-Quiet _
  all_lines-Quiet lines_of each (alert ∷ alerts) =
      >>=-Quiet (lines_of alert) _ (each alert) (λ lines.
        >>=-Quiet (all_lines loads repr takes lines_of alerts) _
          (all_lines-Quiet lines_of each alerts) (λ more. pure-Quiet _))

  alert_lines-Quiet : (alert : Json) → Quiet (alert_lines loads repr takes alert)
  unfolding alert_lines
  alert_lines-Quiet alert = >>=-Quiet _ _ (lift-Quiet _) (λ labels.
      >>=-Quiet _ _ (lift-Quiet _) (λ annotations. >>=-Quiet _ _ (lift-Quiet _) (λ rule.
        >>=-Quiet _ _ (lift-Quiet _) (λ status.
          >>=-Quiet _ _ (lift-Quiet _)
            (λ severity. >>=-Quiet _ _ (lift-Quiet _) (λ summary. pure-Quiet _))))))

  forward-Publishes : (event : Json) → Publishes IsShort (forward loads repr takes event)
  unfolding forward
  forward-Publishes event = lift-Publishes IsShort _ _ (λ raw. lift-Publishes IsShort _ _ (λ body.
      lift-Publishes IsShort _ _ (λ whole. lift-Publishes IsShort _ _ (λ title.
        lift-Publishes IsShort _ _ (λ state. lift-Publishes IsShort _ _ (λ listed.
          lift-Publishes IsShort _ _ (λ first.
            after-Publishes IsShort
              (all_lines loads repr takes (alert_lines loads repr takes) (elements first)) _
              (all_lines-Quiet _ alert_lines-Quiet (elements first))
              (λ lines. insert-Publishes IsShort takes _ (
                short_take 100 (codes "[PayStream] " ++ shown loads repr takes title),
                short_take 1000 (
                    join (
                      (codes "Alert: " ++ shown loads repr takes title)
                      ∷ (codes "State: " ++ shown loads repr takes state)
                      ∷ lines)),
              )))))))))

  -- The Lambda function never raises. It answers 200 after it has published one message, with a
  -- subject of at most 100 characters and a body of at most 1000, and 500 where it has published none.
  pub handler-Replied :
      (event : Json) (log : List Message) → Replied log (handler loads repr takes event log)
  unfolding handler pure ◌>>=◌
  handler-Replied event log = elim ((forward-Publishes event).publishes log) [
    | inl (m, short, e) ↦ rw e (published m short)
    | inr (x, e) ↦ rw e failed
  ]
