-- ===== src/Base/Task.antt =====
-- Code that writes rows to a database and may raise: an exception monad over the list of writes.
-- The database is outside: `accepts` says whether it takes a write, given those made before.
use mathlib.Core.Path.{◌≡◌, refl}
use native.Mathlib.Omega.{arith}
use mathlib.Core.Logic.{◌⊎◌, inl, inr}
use mathlib.Core.Bool.{Bool}
use mathlib.Core.List.{List, [], ◌∷◌, ◌++◌}
use paystream.Base.Tests.{if◌then◌else◌}

pub data Exn : Type 0 where
  value_error type_error key_error runtime_error http_error index_error system_exit external_error :
      Exn

pub data Result {ℓ} (A : Type ℓ) : Type ℓ where
  ok : A → Result A
  raised : Exn → Result A

abbrev pub Task : Type 0 → Type 0 → Type 0
Task W A = List W → Result A × List W

module _ {W A : Type 0} where
  abbrev pub pure : A → Task W A
  pure a log = (ok a, log)

  abbrev pub raise : Exn → Task W A
  raise e log = (raised e, log)

  abbrev pub lift : Result A → Task W A
  lift r log = (r, log)

  abbrev pub resume : Result A × List W → (Exn → Task W A) → Result A × List W
  resume (ok a, log) handler = (ok a, log)
  resume (raised e, log) handler = handler e log

  -- `try: m except Exception: handler`
  abbrev pub catch : Task W A → (Exn → Task W A) → Task W A
  catch m handler log = resume (m log) handler

module _ {W A B : Type 0} where
  abbrev pub continue : Result A × List W → (A → Task W B) → Result B × List W
  continue (ok a, log) f = f a log
  continue (raised e, log) f = (raised e, log)

  infixl 5 ◌>>=◌
  abbrev pub ◌>>=◌ : Task W A → (A → Task W B) → Task W B
  ◌>>=◌ m f log = continue (m log) f

module _ {W B : Type 0} where
  infixl 5 ◌>>◌
  abbrev pub ◌>>◌ : Task W (Unit {0}) → Task W B → Task W B
  m >> k = m >>= λ _. k

-- One INSERT. A refused one raises and leaves no row.
abbrev pub insert : {W : Type 0} → (List W → W → Bool) → W → Task W (Unit {0})
insert accepts w log = if accepts log w then (ok tt, log ++ w ∷ []) else (raised http_error, log)

module _ {W A B : Type 0} where
  -- A task that returns went through its first part.
  pub >>=-eq-ok :
      (m : Task W A) (f : A → Task W B) (log log' : List W) {b : B}
      → (m >>= f) log ≡ (ok b, log')
      → (a : A) × (mid : List W) × (m log ≡ (ok a, mid)) × (f a mid ≡ (ok b, log'))
  >>=-eq-ok m f log log' h = went (m log) refl h
    where
      went :
          (r : Result A × List W) {b : B}
          → m log ≡ r
          → continue r f ≡ (ok b, log')
          → (a : A) × (mid : List W) × (m log ≡ (ok a, mid)) × (f a mid ≡ (ok b, log'))
      went (ok a, mid) e h = (a, mid, e, h)
      went (raised x, mid) e h = cc

-- An INSERT that returns has added its row.
pub insert-eq-ok :
    {W : Type 0} (accepts : List W → W → Bool) (w : W) (log log' : List W) {u : Unit {0}}
    → insert accepts w log ≡ (ok u, log')
    → log' ≡ log ++ w ∷ []
insert-eq-ok accepts w log log' h = ground arith

pub Result-cases {ℓ} :
    {A : Type ℓ} (r : Result A) → ((a : A) × (r ≡ ok a)) ⊎ ((e : Exn) × (r ≡ raised e))
Result-cases (ok a) = inl (a, refl)
Result-cases (raised e) = inr (e, refl)
