-- ===== src/Bte/Combine/Subsets.antt =====
-- The order in which the threshold subsets are tried (bte/btd-impl-main/be/cluster.go:
-- `forEachShareCombination`).
use bloc.Prelude.{
  ℕ, zero, suc, ◌+◌, ◌≡◌, refl, sym, ap, subst, ◌∙◌, Option, none, some, List, [], ◌∷◌, ◌++◌, ◌==◌,
  arith, length, map, if◌then◌else◌,
}
use bloc.Bte.Combine.{count_from, advance}

-- The sets of `k` numbers of `slack + k` from `x` on, each as its ascending list, in lexicographic
-- order: first those with `x`.
abbrev pub subsets : ℕ → ℕ → ℕ → List (List ℕ)
subsets x zero slack = [] ∷ []
subsets x (suc k) zero = map (◌∷◌ x) (subsets (suc x) k zero)
subsets x (suc k) (suc slack) =
    map (◌∷◌ x) (subsets (suc x) k (suc slack)) ++ subsets (suc x) (suc k) slack

abbrev pub subset_at : ℕ → List (List ℕ) → Option (List ℕ)
subset_at m [] = none
subset_at zero (s ∷ ss) = some s
subset_at (suc m) (s ∷ ss) = subset_at m ss

-- The combination that comes `m` places after another.
abbrev pub later_combination : ℕ → ℕ → List ℕ → Option (List ℕ)
later_combination slack zero indices = some indices
later_combination slack (suc m) indices = elim (advance slack 0 indices) [
  | none ↦ none
  | some next ↦ later_combination slack m next
]

-- Lists of length `k` of which each one is advanced to the next, and the last one to `end`.
abbrev Chain : ℕ → ℕ → ℕ → Option (List ℕ) → List (List ℕ) → Type 0
Chain slack i k end [] = Unit
Chain slack i k end (a ∷ []) = (length a ≡ k) × (advance slack i a ≡ end)
Chain slack i k end (a ∷ b ∷ ss) =
    (length a ≡ k) × (advance slack i a ≡ some b) × Chain slack i k end (b ∷ ss)

-- What follows the last list that begins with `x`.
abbrev after_last : ℕ → ℕ → ℕ → ℕ → Option (List ℕ)
after_last slack i x k = if x == i + slack then none else some (count_from (suc x) (suc k))

map-Chain :
    (slack i x k : ℕ) (ss : List (List ℕ))
    → Chain slack (suc i) k none ss
    → Chain slack i (suc k) (after_last slack i x k) (map (◌∷◌ x) ss)
unfolding advance
map-Chain slack i x k [] c = tt
map-Chain slack i x k (a ∷ []) (l, e) = (ap suc l, rw (e, l, advance) refl)
map-Chain slack i x k (a ∷ b ∷ ss) (l, e, c) =
    (ap suc l, rw (e, advance) refl, map-Chain slack i x k (b ∷ ss) c)

append-Chain :
    (slack i k : ℕ) (end : Option (List ℕ)) (ss : List (List ℕ)) (b : List ℕ) (ts : List (List ℕ))
    → Chain slack i k (some b) ss
    → Chain slack i k end (b ∷ ts)
    → Chain slack i k end (ss ++ b ∷ ts)
append-Chain slack i k end [] b ts c d = d
append-Chain slack i k end (a ∷ []) b ts (l, e) d = (l, e, d)
append-Chain slack i k end (a ∷ a' ∷ ss) b ts (l, e, c) d =
    (l, e, append-Chain slack i k end (a' ∷ ss) b ts c d)

-- The first subset.
subsets-first :
    (x k slack : ℕ) → (rest : List (List ℕ)) × (subsets x k slack ≡ count_from x k ∷ rest)
subsets-first x zero slack = ([], refl)
subsets-first x (suc k) zero =
    let (rest, e) = subsets-first (suc x) k zero in (map (◌∷◌ x) rest, ap (map (◌∷◌ x)) e)
subsets-first x (suc k) (suc slack) =
    let (rest, e) = subsets-first (suc x) k (suc slack) in
    (
      map (◌∷◌ x) rest ++ subsets (suc x) (suc k) slack,
      ap (λ ss. map (◌∷◌ x) ss ++ subsets (suc x) (suc k) slack) e,
    )

subsets-Chain :
    (slack i x k more : ℕ) → x + more ≡ i + slack → Chain slack i k none (subsets x k more)
unfolding advance
subsets-Chain slack i x zero more h = (refl, refl)
subsets-Chain slack i x (suc k) zero h =
    let last : after_last slack i x k ≡ none = ground (arith, h) in
    subst (λ end. Chain slack i (suc k) end (subsets x (suc k) zero)) last
      (map-Chain slack i x k (subsets (suc x) k zero)
        (subsets-Chain slack (suc i) (suc x) k zero (omega (arith, h))))
subsets-Chain slack i x (suc k) (suc more) h =
    let next : after_last slack i x k ≡ some (count_from (suc x) (suc k)) = ground (arith, h) in
    let begun =
      subst (λ end. Chain slack i (suc k) end (map (◌∷◌ x) (subsets (suc x) k (suc more)))) next
        (map-Chain slack i x k (subsets (suc x) k (suc more))
          (subsets-Chain slack (suc i) (suc x) k (suc more) (omega (arith, h)))) in
    let (rest, e) = subsets-first (suc x) (suc k) more in
    let others =
      subst (Chain slack i (suc k) none) e
        (subsets-Chain slack i (suc x) (suc k) more (omega (arith, h))) in
    subst (λ ss. Chain slack i (suc k) none (map (◌∷◌ x) (subsets (suc x) k (suc more)) ++ ss))
      (sym e)
      (append-Chain slack i (suc k) none (map (◌∷◌ x) (subsets (suc x) k (suc more)))
        (count_from (suc x) (suc k)) rest begun others)

later-Chain :
    (slack k m : ℕ) (a good : List ℕ) (ss : List (List ℕ))
    → Chain slack 0 k none (a ∷ ss)
    → subset_at m (a ∷ ss) ≡ some good
    → later_combination slack m a ≡ some good
later-Chain slack k zero a good ss c h = h
later-Chain slack k (suc m) a good [] c h = cc
later-Chain slack k (suc m) a good (b ∷ ss) (l, e, c) h =
    rw (e, later_combination) (later-Chain slack k m b good ss c h)

-- The subset at a place is the one that the code comes to after as many steps.
pub later-subset :
    (slack k m : ℕ) (good : List ℕ)
    → subset_at m (subsets 0 k slack) ≡ some good
    → later_combination slack m (count_from 0 k) ≡ some good
later-subset slack k m good h =
    let (rest, e) = subsets-first 0 k slack in
    later-Chain slack k m (count_from 0 k) good rest
      (subst (Chain slack 0 k none) e (subsets-Chain slack 0 0 k slack refl))
      (ap (subset_at m) (sym e) ∙ h)
