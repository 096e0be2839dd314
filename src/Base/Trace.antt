-- ===== src/Base/Trace.antt =====
-- Reasoning on the tasks of Base/Task: what they may write, and when they cannot raise.
use mathlib.Core.Path.{◌≡◌, refl, sym, ap, ◌∙◌}
use mathlib.Core.Bool.{Bool, true, false}
use mathlib.Core.Logic.{inl, inr}
use mathlib.Core.List.{List, [], ◌∷◌, ◌++◌, append-nil, append_assoc}
use paystream.Base.Tests.{Bool-cases, if◌then◌else◌}
use paystream.Base.Lists.{All}
use paystream.Base.Task.{
  Result, ok, raised, Exn, Task, pure, lift, catch, insert, continue, resume, ◌>>=◌,
}

-- Any run of the task only appends writes that satisfy `P`.
pub record Adds {W A : Type 0} (P : W → Type 0) (m : Task W A) : Type 0 where
  pub adds : (log : List W) → (added : List W) × ((m log).1 ≡ log ++ added) × All P added

-- No run of the task raises.
pub record Succeeds {W A : Type 0} (m : Task W A) : Type 0 where
  pub succeeds : (log : List W) → (a : A) × ((m log).0 ≡ ok a)

pub All-append {ℓ κ} :
    {A : Type ℓ} (P : A → Type κ) (xs ys : List A) → All P xs → All P ys → All P (xs ++ ys)
All-append P [] ys h k = k
All-append P (x ∷ xs) ys (h, hs) k = (h, All-append P xs ys hs k)

module _ {W A : Type 0} (P : W → Type 0) where
  pub lift-Adds : (r : Result A) → Adds P (lift {W = W} r)
  lift-Adds r = record { adds = λ log. ([], sym (append-nil log), tt) }

  module _ {B : Type 0} where
    pub >>=-Adds :
        (m : Task W A) (f : A → Task W B) → Adds P m → ((a : A) → Adds P (f a)) → Adds P (m >>= f)
    >>=-Adds m f h k = record { adds = λ log. went log (m log) (h.adds log) }
      where
        went :
            (log : List W) (r : Result A × List W)
            → (added : List W) × (r.1 ≡ log ++ added) × All P added
            → (added : List W) × ((continue r f).1 ≡ log ++ added) × All P added
        went log (raised e, mid) h = h
        went log (ok a, mid) (xs, e, hs) =
            let (ys, e', hs') = (k a).adds mid in
            (xs ++ ys, e' ∙ ap (λ l. l ++ ys) e ∙ append_assoc log xs ys, All-append P xs ys hs hs')

  pub catch-Adds :
      (m : Task W A) (f : Exn → Task W A)
      → Adds P m
      → ((e : Exn) → Adds P (f e))
      → Adds P (catch m f)
  catch-Adds m f h k = record { adds = λ log. went log (m log) (h.adds log) }
    where
      went :
          (log : List W) (r : Result A × List W)
          → (added : List W) × (r.1 ≡ log ++ added) × All P added
          → (added : List W) × ((resume r f).1 ≡ log ++ added) × All P added
      went log (ok a, mid) h = h
      went log (raised e, mid) (xs, e1, hs) =
          let (ys, e2, hs') = (k e).adds mid in
          (xs ++ ys, e2 ∙ ap (λ l. l ++ ys) e1 ∙ append_assoc log xs ys, All-append P xs ys hs hs')

pub insert-Adds :
    {W : Type 0} (P : W → Type 0) (accepts : List W → W → Bool) (w : W)
    → P w
    → Adds P (insert accepts w)
insert-Adds {W} P accepts w h = record { adds = run }
  where
    run :
        (log : List W) → (added : List W) × ((insert accepts w log).1 ≡ log ++ added) × All P added
    run log = elim (Bool-cases (accepts log w)) [
      | inl e ↦ rw e (w ∷ [], refl, (h, tt))
      | inr e ↦ rw e ([], sym (append-nil log), tt)
    ]

module _ {W A B : Type 0} where
  pub >>=-Succeeds :
      (m : Task W A) (f : A → Task W B)
      → Succeeds m
      → ((a : A) → Succeeds (f a))
      → Succeeds (m >>= f)
  >>=-Succeeds m f h k = record { succeeds = λ log. went (m log) (h.succeeds log) }
    where
      went : (r : Result A × List W) → (a : A) × (r.0 ≡ ok a) → (b : B) × ((continue r f).0 ≡ ok b)
      went (ok a, mid) h = (k a).succeeds mid
      went (raised e, mid) h = cc

module _ {W A : Type 0} where
  -- A handler that cannot raise makes the whole `try` one that cannot.
  pub catch-Succeeds :
      (m : Task W A) (f : Exn → Task W A) → ((e : Exn) → Succeeds (f e)) → Succeeds (catch m f)
  catch-Succeeds m f k = record { succeeds = λ log. went (m log) }
    where
      went : (r : Result A × List W) → (a : A) × ((resume r f).0 ≡ ok a)
      went (ok a, mid) = (a, refl)
      went (raised e, mid) = (k e).succeeds mid

pub insert-Succeeds :
    {W : Type 0} (accepts : List W → W → Bool) (w : W)
    → ((log : List W) → accepts log w ≡ true)
    → Succeeds (insert accepts w)
insert-Succeeds accepts w h = record { succeeds = λ log. rw (h log) (tt, refl) }

pub pure-Succeeds : {W A : Type 0} (a : A) → Succeeds (pure {W = W} a)
pure-Succeeds a = record { succeeds = λ log. (a, refl) }

pub if-Adds :
    {W A : Type 0} (P : W → Type 0) (b : Bool) {m n : Task W A}
    → Adds P m
    → Adds P n
    → Adds P (if b then m else n)
if-Adds P true h k = h
if-Adds P false h k = k

pub if-Succeeds :
    {W A : Type 0} (b : Bool) {m n : Task W A}
    → Succeeds m
    → Succeeds n
    → Succeeds (if b then m else n)
if-Succeeds true h k = h
if-Succeeds false h k = k

-- A value from outside: what follows knows that it was that one.
pub lift->>=-Adds :
    {W A B : Type 0} (P : W → Type 0) (r : Result A) (f : A → Task W B)
    → ((a : A) → r ≡ ok a → Adds P (f a))
    → Adds P (lift r >>= f)
lift->>=-Adds P (ok a) f h = record { adds = (h a refl).adds }
lift->>=-Adds P (raised e) f h = record { adds = λ log. ([], sym (append-nil log), tt) }

-- Every run of the task returns `a` and appends `ws`.
pub record Does {W A : Type 0} (m : Task W A) (a : A) (ws : List W) : Type 0 where
  pub does : (log : List W) → m log ≡ (ok a, log ++ ws)

pub pure-Does : {W A : Type 0} (a : A) → Does (pure {W = W} a) a []
pure-Does a = record { does = λ log. ap (λ l. (ok a, l)) (sym (append-nil log)) }

pub >>=-Does :
    {W A B : Type 0} (m : Task W A) (f : A → Task W B) {a : A} {b : B} {xs ys : List W}
    → Does m a xs
    → Does (f a) b ys
    → Does (m >>= f) b (xs ++ ys)
>>=-Does m f {a} {b} {xs} {ys} h k = record {
  does = λ log.
      ap (λ r. continue r f) (h.does log)
      ∙ k.does (log ++ xs)
      ∙ ap (λ l. (ok b, l)) (append_assoc log xs ys);
}

pub catch-Does :
    {W A : Type 0} (m : Task W A) (f : Exn → Task W A) {a : A} {ws : List W}
    → Does m a ws
    → Does (catch m f) a ws
catch-Does m f h = record { does = λ log. ap (λ r. resume r f) (h.does log) }

pub insert-Does :
    {W : Type 0} (accepts : List W → W → Bool) (w : W)
    → ((log : List W) → accepts log w ≡ true)
    → Does (insert accepts w) tt (w ∷ [])
insert-Does accepts w h = record { does = λ log. rw (h log) refl }

pub if-Does :
    {W A : Type 0} (b : Bool) {m n : Task W A} {a : A} {xs ys : List W}
    → Does m a xs
    → Does n a ys
    → Does (if b then m else n) a (if b then xs else ys)
if-Does true h k = record { does = h.does }
if-Does false h k = record { does = k.does }
