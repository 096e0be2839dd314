-- ===== src/Pool/Lifecycle.antt =====
-- Shutting the pool down.
use paystream.Base.{append-nil, ap, sym, ◌∙◌, ℕ, ◌≡◌, refl, List, [], ◌∷◌, ◌++◌, All, append_assoc}
use mathlib.Core.List.{reverse, reverse-cons}
use paystream.Base.Task.{Exn, ok, raised}
use paystream.Clickhouse.{Driver}
use paystream.Pool.{Pool, returns, raises, drain, close}

regroup : (x : ℕ) (xs ys : List ℕ) → reverse xs ++ x ∷ ys ≡ reverse (x ∷ xs) ++ ys
regroup x xs ys = rw reverse-cons (sym (append_assoc (reverse xs) (x ∷ []) ys))

module _ (d : Driver) where
  abbrev pub Disconnects : List ℕ → Type 0
  Disconnects = All (λ conn. d.disconnect conn ≡ ok tt)

  drain_step :
      (conn : ℕ) (rest : List ℕ) (p : Pool)
      → d.disconnect conn ≡ ok tt
      → drain d (conn ∷ rest) p ≡ drain d rest (record p { closed = conn ∷ p.closed })
  unfolding drain
  drain_step conn rest p h = rw (h, drain)

  -- The connections of `before` are disconnected one after another, whatever follows.
  drain_prefix :
      (before rest : List ℕ) (p : Pool)
      → Disconnects before
      → drain d (before ++ rest) p ≡ drain d rest (record p { closed = reverse before ++ p.closed })
  drain_prefix [] rest p h = refl
  drain_prefix (conn ∷ before) rest p h =
      drain_step conn (before ++ rest) p h.0
      ∙ drain_prefix before rest (record p { closed = conn ∷ p.closed }) h.1
      ∙ ap (λ l. drain d rest (record p { closed = l })) (regroup conn before p.closed)

  -- Where no `disconnect` raises, `close` ends, disconnects every idle connection once, the oldest
  -- first, and leaves the queue empty.
  pub close_lem :
      (p : Pool)
      → Disconnects p.idle
      → close d p ≡ returns tt (record p { idle = []; closed = reverse p.idle ++ p.closed })
  unfolding close drain
  close_lem p h = ap (λ l. drain d l p) (sym (append-nil p.idle)) ∙ drain_prefix p.idle [] p h

  -- A `disconnect` that raises ends the loop: the later connections stay open in the queue.
  pub close_stops :
      (p : Pool) (before : List ℕ) (conn : ℕ) (rest : List ℕ) (e : Exn)
      → p.idle ≡ before ++ conn ∷ rest
      → Disconnects before
      → d.disconnect conn ≡ raised e
      → close d p ≡ raises e (record p { idle = rest; closed = conn ∷ reverse before ++ p.closed })
  unfolding close drain
  close_stops p before conn rest e s h r =
      ap (λ l. drain d l p) s ∙ drain_prefix before (conn ∷ rest) p h ∙ rw (r, drain)
