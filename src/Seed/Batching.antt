-- ===== src/Seed/Batching.antt =====
-- `batch_iter` of scripts/seed_data.py.
use native.Mathlib.Nat.{mod-add-div', mod-lt}
use paystream.Base.{
  ℕ, zero, suc, ◌+◌, ◌-◌, ◌*◌, ◌/◌, ◌%◌, ◌≤◌, ◌<◌, ◌≡◌, subst, List, [], ◌∷◌, ◌==◌, min, arith,
  if◌then◌else◌,
}
use paystream.Base.Task.{Result, ok, raised, value_error}
use paystream.Base.Batches.{range, offsets}

abbrev pub parts : ℕ → ℕ → List ℕ → List (ℕ × ℕ)
parts total size [] = []
parts total size (off ∷ offs) = (off, min size (total - off)) ∷ parts total size offs

-- `range` raises on a step of 0.
unfoldable pub batch_iter : ℕ → ℕ → Result (List (ℕ × ℕ))
batch_iter total size =
    if size == 0 then raised value_error else ok (parts total size (range total size))

-- Each part begins where the one before it ends, none is empty or larger than `size`, and the last one
-- ends at `total`.
abbrev pub Partition : ℕ → ℕ → ℕ → List (ℕ × ℕ) → Type 0
Partition size total off [] = off ≡ total
Partition size total off ((o, c) ∷ bs) =
    (o ≡ off) × (0 < c) × (c ≤ size) × Partition size total (off + c) bs

-- From an offset on, with enough rounds left and not one too many.
parts-Partition :
    (n off total size : ℕ)
    → 0 < size
    → total ≤ off + n * size
    → off + n * size < total + size
    → Partition size total (min off total) (parts total size (offsets n off size))
parts-Partition zero off total size h b c = omega arith
parts-Partition (suc n) off total size h b c =
    let ends : off + size + n * size ≡ off + suc n * size = grind arith in
    let below : off < total = grind arith in
    let next : min (off + size) total ≡ min off total + min size (total - off) = omega arith in
    let rest = parts-Partition n (off + size) total size h (omega arith) (omega arith) in
    (
      omega arith,
      omega arith,
      omega arith,
      subst (λ s. Partition size total s (parts total size (offsets n (off + size) size))) next
          rest,
    )

-- The parts of `batch_iter` for a positive size are nonempty, at most that size, and follow each other
-- from 0 to the total.
pub batch_iter_lem :
    (total size : ℕ)
    → 0 < size
    → (bs : List (ℕ × ℕ)) × (batch_iter total size ≡ ok bs) × Partition size total 0 bs
unfolding batch_iter
batch_iter_lem total size h =
    let whole : (total + (size - 1)) % size + (total + (size - 1)) / size * size
        ≡ total + (size - 1) =
      mod-add-div' (total + (size - 1)) size in
    let small : (total + (size - 1)) % size < size = mod-lt (total + (size - 1)) h in
    let start : min 0 total ≡ 0 = omega arith in
    (
      parts total size (range total size),
      ground arith,
      subst (λ s. Partition size total s (parts total size (range total size))) start
          (parts-Partition ((total + (size - 1)) / size) 0 total size h (omega arith)
            (omega arith)),
    )
