-- ===== src/Server/Loadtest/Percentiles.antt =====
-- The percentiles of a phase.
use slay_push.Server.Loadtest.{percentile, nth}
use slay_push.Base.{
  zero, ◌-◌, arith, ◌/◌, length, leb, [], ◌<◌, ◌*◌, ◌∷◌, ◌≤◌, ◌∷◌, suc, if◌then◌else◌, All, ℕ, List,
}

abbrev pub Sorted : List ℕ → Type 0
Sorted [] = Unit {0}
Sorted (x ∷ xs) = All (λ y. x ≤ y) xs × Sorted xs

nth-All : (x : ℕ) (xs : List ℕ) (i : ℕ) → All (λ y. x ≤ y) xs → i < length xs → x ≤ nth xs i
unfolding nth
nth-All x [] i h lt = absurd (omega arith)
nth-All x (y ∷ ys) zero h lt = h.0
nth-All x (y ∷ ys) (suc i) h lt = nth-All x ys i h.1 (omega arith)

nth_mono : (xs : List ℕ) (i j : ℕ) → Sorted xs → i ≤ j → j < length xs → nth xs i ≤ nth xs j
unfolding nth
nth_mono [] i j s h lt = absurd (omega arith)
nth_mono (x ∷ xs) zero zero s h lt = omega arith
nth_mono (x ∷ xs) zero (suc j) s h lt = nth-All x xs j s.0 (omega arith)
nth_mono (x ∷ xs) (suc i) zero s h lt = absurd (omega arith)
nth_mono (x ∷ xs) (suc i) (suc j) s h lt = nth_mono xs i j s.1 (omega arith) (omega arith)

-- The index of a percentile in a list of so many latencies.
abbrev index_of : ℕ → ℕ → ℕ
index_of count p = if leb count (count * p / 100) then count - 1 else count * p / 100

index_mono : (count p q : ℕ) → p ≤ q → index_of count p ≤ index_of count q
index_mono count p q h = let scaled : count * p ≤ count * q = grind arith in ground arith

index_lt : (count p : ℕ) → index_of (suc count) p < suc count
index_lt count p = ground arith

-- Of sorted latencies a higher percentile is no lower, and every percentile lies between the first
-- and the last of them.
pub percentile_ordered :
    (x : ℕ) (xs : List ℕ) (p q : ℕ)
    → Sorted (x ∷ xs)
    → p ≤ q
    → (x ≤ percentile (x ∷ xs) p)
      × (percentile (x ∷ xs) p ≤ percentile (x ∷ xs) q)
      × (percentile (x ∷ xs) q ≤ nth (x ∷ xs) (length xs))
unfolding percentile nth
percentile_ordered x xs p q s h =
    let count = length (x ∷ xs) in
    let first : x ≤ nth (x ∷ xs) (index_of count p) =
      nth_mono (x ∷ xs) 0 (index_of count p) s (omega arith) (index_lt (length xs) p) in
    (
      first,
      nth_mono (x ∷ xs) (index_of count p) (index_of count q) s (index_mono count p q h)
          (index_lt (length xs) q),
      nth_mono (x ∷ xs) (index_of count q) (length xs) s (omega (arith, index_lt (length xs) q))
          (omega arith),
    )
