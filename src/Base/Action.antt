-- ===== src/Base/Action.antt =====
-- Actions that change a state and may raise, kept shut. `Gives` says what one returns on
-- every run.
use paystream.Base.{◌≡◌, refl}
use paystream.Base.Task.{Exn, Result, ok, raised}

abbrev pub Act : Type 0 → Type 0 → Type 0
Act S A = S → Result A × S

module _ {S A : Type 0} where
  unfoldable pub pure : A → Act S A
  pure a s = (ok a, s)

  abbrev pub raise : Exn → Act S A
  raise e s = (raised e, s)

  abbrev pub gets : (S → A) → Act S A
  gets f s = (ok (f s), s)

module _ {S A B : Type 0} where
  abbrev pub continue : Result A × S → (A → Act S B) → Result B × S
  continue (ok a, s) f = f a s
  continue (raised e, s) f = (raised e, s)

  infixl 5 ◌>>=◌
  unfoldable pub ◌>>=◌ : Act S A → (A → Act S B) → Act S B
  ◌>>=◌ m f s = continue (m s) f

module _ {S B : Type 0} where
  infixl 5 ◌>>◌
  abbrev pub ◌>>◌ : Act S (Unit {0}) → Act S B → Act S B
  m >> k = m >>= λ _. k

-- On every state the action returns a value that satisfies `P`.
pub record Gives {S A : Type 0} (P : A → Type 0) (m : Act S A) : Type 0 where
  pub gives : (s : S) → (a : A) × (s' : S) × (m s ≡ (ok a, s')) × P a

pub pure-Gives : {S A : Type 0} (P : A → Type 0) (a : A) → P a → Gives {S = S} P (pure a)
unfolding pure
pure-Gives P a h = record { gives = λ s. (a, s, refl, h) }

pub >>=-Gives :
    {S A B : Type 0} {P : A → Type 0} {Q : B → Type 0} (m : Act S A) (f : A → Act S B)
    → Gives P m
    → ((a : A) → P a → Gives Q (f a))
    → Gives Q (m >>= f)
unfolding ◌>>=◌
>>=-Gives {S} {B = B} {Q = Q} m f h k = record { gives = run }
  where
    run : (s : S) → (b : B) × (s' : S) × ((m >>= f) s ≡ (ok b, s')) × Q b
    run s =
        let (a, s1, e, p) = h.gives s in
        let (b, s2, e', q) = (k a p).gives s1 in (b, s2, rw e e', q)

pub Gives-weaken :
    {S A : Type 0} {P Q : A → Type 0} (m : Act S A) → Gives P m → ((a : A) → P a → Q a) → Gives Q m
Gives-weaken m h k = record { gives = λ s. let (a, s', e, p) = h.gives s in (a, s', e, k a p) }
