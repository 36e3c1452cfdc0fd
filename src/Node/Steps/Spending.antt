-- ===== src/Node/Steps/Spending.antt =====
-- Attempts taken off budgets (bloc-node/internal/app/node.go: `claimCombine`, `recordCombineStats`).
use bloc.Prelude.{
  ℕ, suc, ◌+◌, ◌*◌, ◌≤◌, ◌≡◌, refl, ap, false, List, [], ◌∷◌, ◌++◌, arith, length, All,
}
use bloc.Node.Combine.{CombineAttempt, Combiner, budget_each, spend, total}
use bloc.Node.Steps.{Flight, combining, combined, missed}
use bloc.Node.Steps.Core.{Core}

-- One after the other, each number is at most the one it stands under, and 0 where none is.
abbrev pub Within : List ℕ → List ℕ → Type 0
Within [] ls = Unit
Within (a ∷ rest) [] = (a ≡ 0) × Within rest []
Within (a ∷ rest) (l ∷ ls) = (a ≤ l) × Within rest ls

-- A combiner makes no more attempts than it is allowed.
abbrev pub Limited : Combiner → Type 0
Limited combiner = (a : CombineAttempt) → Within (combiner a).1 a.attempt_limits

pub total-spend :
    (ls attempts : List ℕ)
    → Within attempts ls
    → total attempts + total (spend ls attempts) ≡ total ls
unfolding spend total
total-spend [] [] h = refl
total-spend [] (a ∷ rest) h = omega (arith, h.0, total-spend [] rest h.1)
total-spend (l ∷ ls) [] h = omega arith
total-spend (l ∷ ls) (a ∷ rest) h = omega (arith, h.0, total-spend ls rest h.1)

pub length-spend : (ls attempts : List ℕ) → length (spend ls attempts) ≡ length ls
unfolding spend
length-spend [] attempts = refl
length-spend (l ∷ ls) [] = refl
length-spend (l ∷ ls) (a ∷ rest) = ap suc (length-spend ls rest)

pub total-budget_each :
    (bs : List (List ℕ)) (max : ℕ) → total (budget_each bs max) ≡ length bs * max
unfolding total
total-budget_each [] max = omega arith
total-budget_each (b ∷ bs) max = omega (arith, total-budget_each bs max)

pub length-budget_each : (bs : List (List ℕ)) (max : ℕ) → length (budget_each bs max) ≡ length bs
length-budget_each [] max = refl
length-budget_each (b ∷ bs) max = ap suc (length-budget_each bs max)

-- A running attempt knows what is left.
abbrev pub Fresh : List ℕ → Flight → Type 0
Fresh left (combining a) = a.attempt_limits ≡ left
Fresh left (combined a r) = Unit
Fresh left (missed a) = Unit

pub record Budgeted (max : ℕ) (c : Core) (fs : List Flight) : Type 0 where
  pub covers : length c.combine_attempts_left ≡ length c.plan.sub_batches
  pub spent :
      c.share_subset_attempts + total c.combine_attempts_left ≡ length c.plan.sub_batches * max
  pub unplanned : c.planned ≡ false → c.plan.sub_batches ≡ []
  pub unclaimed : c.planned ≡ false → c.combine_in_flight ≡ false
  pub fresh : All (Fresh c.combine_attempts_left) fs

pub none_left {ℓ} : {A : Type ℓ} (P : A → Type 0) (xs : List A) → length xs ≡ 0 → All P xs
none_left P [] h = tt
none_left P (x ∷ xs) h = absurd (omega (arith, h))

pub All-drop {ℓ} :
    {A : Type ℓ} (P : A → Type 0) (before : List A) (x : A) (after : List A)
    → All P (before ++ x ∷ after)
    → All P (before ++ after)
All-drop P [] x after h = h.1
All-drop P (y ∷ before) x after h = (h.0, All-drop P before x after h.1)

pub All-at {ℓ} :
    {A : Type ℓ} (P : A → Type 0) (before : List A) (x : A) (after : List A)
    → All P (before ++ x ∷ after)
    → P x
All-at P [] x after h = h.0
All-at P (y ∷ before) x after h = All-at P before x after h.1
