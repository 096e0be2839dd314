-- ===== src/Alerts/Server.antt =====
-- What the HTTP server grafana/grafana_sns_bridge.py answers to Grafana.
use paystream.Base.{
  ℕ, zero, suc, ◌≡◌, ◌↔◌, refl, sym, Bool, List, [], ◌∷◌, ◌++◌, Option, none, some, subst, length,
  take, inl, inr,
}
use paystream.Base.Int.{ℤ, pos, negsuc}
use paystream.Base.Task.{value_error, catch, Exn, Result, ok, raised, Task, lift}
use paystream.Base.Action.{pure, ◌>>=◌, ◌>>◌}
use paystream.Base.Numeral.{Text}
use paystream.Base.Json.{Json}
use paystream.Alerts.{Message, forward_post, decoded, do_post}
use paystream.Alerts.Brief.{IsBrief, forward_post-Publishes}

or_value_iff :
    (o : Option Text) (u : Text)
    → (o ≡ some u) ↔ ((elim o [ none ↦ raised value_error | some t ↦ ok t ]) ≡ ok u)
or_value_iff none u = (λ k. cc, λ k. cc)
or_value_iff (some t) u = (λ k. cc, λ k. cc)

or_value-raised :
    (o : Option Text) (e : Exn)
    → (elim o [ none ↦ raised value_error | some t ↦ ok t ]) ≡ raised e
    → e ≡ value_error
or_value-raised none e h = cc
or_value-raised (some t) e h = cc

module _ (loads : Text → Option Json) (repr : Json → Text) (takes : List Message → Message → Bool)
    (upper : Text → Text) (int_of : Text → Option ℤ) (decode : List ℕ → Option Text) where
  -- The text of a request: none without a length or with the length 0, and else what the bytes of
  -- that length, or all for a negative one, are decoded to.
  abbrev pub ReadsNumber : Option ℤ → List ℕ → Text → Type 0
  ReadsNumber none bytes posted = ⊥
  ReadsNumber (some (pos zero)) bytes posted = posted ≡ []
  ReadsNumber (some (pos (suc n))) bytes posted = decode (take (suc n) bytes) ≡ some posted
  ReadsNumber (some (negsuc n)) bytes posted = decode bytes ≡ some posted

  abbrev pub Reads : Option Text → List ℕ → Text → Type 0
  Reads none bytes posted = posted ≡ []
  Reads (some t) bytes posted = ReadsNumber (int_of t) bytes posted

  -- The answer to a post.
  pub data Posted (content_length : Option Text) (bytes : List ℕ) (log : List Message)
      : Result ℕ × List Message → Type 0 where
    published :
        (posted : Text) (m : Message)
        → Reads content_length bytes posted
        → IsBrief m
        → Posted content_length bytes log (ok 200, log ++ m ∷ [])
    swallowed :
        (posted : Text) (e : Exn)
        → Reads content_length bytes posted
        → forward_post loads repr takes upper posted log ≡ (raised e, log)
        → Posted content_length bytes log (ok 200, log)
    unanswered :
        ((posted : Text) → ¬ Reads content_length bytes posted)
        → Posted content_length bytes log (raised value_error, log)

  posted_lem :
      (content_length : Option Text) (bytes : List ℕ) (posted : Text) (log : List Message)
      → Reads content_length bytes posted
      → Posted content_length bytes log
          (catch (do forward_post loads repr takes upper posted; pure 200) (λ e. pure 200) log)
  unfolding pure ◌>>=◌
  posted_lem content_length bytes posted log r =
      elim ((forward_post-Publishes loads repr takes upper posted).publishes log) [
        | inl (m, brief, e) ↦ rw e (published posted m r brief)
        | inr (x, e) ↦ rw e (swallowed posted x r e)
      ]

  -- `do_post` from the text on, and from the length on.
  abbrev from_text : Result Text → Task Message ℕ
  from_text r = do
    posted ← lift r
    catch (do forward_post loads repr takes upper posted; pure 200) (λ e. pure 200)

  abbrev from_length : List ℕ → Result ℤ → Task Message ℕ
  from_length bytes r = do length ← lift r; from_text (decoded decode length bytes)

  from_text-Posted :
      (content_length : Option Text) (bytes : List ℕ) (log : List Message) (r : Result Text)
      → ((posted : Text) → Reads content_length bytes posted ↔ (r ≡ ok posted))
      → ((e : Exn) → r ≡ raised e → e ≡ value_error)
      → Posted content_length bytes log (from_text r log)
  unfolding pure ◌>>=◌
  from_text-Posted content_length bytes log (ok posted) h k =
      posted_lem content_length bytes posted log ((h posted).1 refl)
  from_text-Posted content_length bytes log (raised e) h k =
      rw (k e refl)
        (unanswered (λ posted r. let same : raised e ≡ ok posted = (h posted).0 r in cc))

  decoded_iff :
      (z : ℤ) (bytes : List ℕ) (posted : Text)
      → ReadsNumber (some z) bytes posted ↔ (decoded decode z bytes ≡ ok posted)
  decoded_iff (pos zero) bytes posted = (λ k. cc, λ k. cc)
  decoded_iff (pos (suc n)) bytes posted = or_value_iff (decode (take (suc n) bytes)) posted
  decoded_iff (negsuc n) bytes posted = or_value_iff (decode bytes) posted

  decoded-raised :
      (z : ℤ) (bytes : List ℕ) (e : Exn) → decoded decode z bytes ≡ raised e → e ≡ value_error
  decoded-raised (pos zero) bytes e h = cc
  decoded-raised (pos (suc n)) bytes e h = or_value-raised (decode (take (suc n) bytes)) e h
  decoded-raised (negsuc n) bytes e h = or_value-raised (decode bytes) e h

  number-Posted :
      (t : Text) (bytes : List ℕ) (log : List Message) (o : Option ℤ)
      → int_of t ≡ o
      → Posted
          (some t)
          bytes
          log
          (from_length bytes (elim o [ none ↦ raised value_error | some n ↦ ok n ]) log)
  unfolding pure ◌>>=◌
  number-Posted t bytes log none e =
      unanswered (λ posted r. subst (λ o. ReadsNumber o bytes posted) e r)
  number-Posted t bytes log (some z) e =
      from_text-Posted (some t) bytes log (decoded decode z bytes)
        (λ posted.
          subst (λ o. ReadsNumber o bytes posted ↔ (decoded decode z bytes ≡ ok posted)) (sym e)
            (decoded_iff z bytes posted))
        (decoded-raised z bytes)

  pub do_post-Posted :
      (content_length : Option Text) (bytes : List ℕ) (log : List Message)
      → Posted content_length bytes log
          (do_post loads repr takes upper int_of decode content_length bytes log)
  unfolding do_post pure ◌>>=◌
  do_post-Posted none bytes log = posted_lem none bytes [] log refl
  do_post-Posted (some t) bytes log = number-Posted t bytes log (int_of t) refl
