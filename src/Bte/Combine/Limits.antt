-- ===== src/Bte/Combine/Limits.antt =====
-- A combination keeps to the attempts that it is allowed (bte/btd-impl-main/be/cluster.go:
-- `CombineSharesBounded`).
use bloc.Prelude.{
  ℕ, zero, suc, ◌-◌, ◌≤◌, ◌<◌, ◌≡◌, refl, false, not, ◌||◌, Option, List, [], ◌∷◌, ◌==◌, ltb, leb,
  arith, if_cases, length, Option-cases, inl, inr,
}
use bloc.Prelude.Bytes.{Bytes}
use bloc.Prelude.Maps.{Map}
use bloc.Node.{PubShare, DecryptionShare}
use bloc.Node.Steps.Spending.{Within}
use bloc.Bte.{BatchItem, BatchPlan}
use bloc.Bte.Combine.{
  Opening, zeros_for, count_from, advance, search, for_each_combination, try_subset,
  combine_sub_batch, shares_for, sort_shares, store_results, combine_all, shares_valid,
  limits_in_force, combine_shares_bounded,
}

-- How many attempts an answer reports.
abbrev AtMost {ℓ} : {A : Type ℓ} → ℕ → Option A × ℕ → Type 0
AtMost max r = r.1 ≤ max

search-le {ℓ} :
    {A : Type ℓ} (slack : ℕ) (try : List ℕ → Option A) (max fuel : ℕ) (indices : List ℕ)
    (attempts : ℕ)
    → attempts ≤ max
    → (search slack try max fuel indices attempts).1 ≤ max
unfolding search
search-le slack try max zero indices attempts h = h
search-le slack try max (suc fuel) indices attempts h =
    if_cases (AtMost max) (leb max attempts) _ _ (λ e. h)
      λ e. elim (Option-cases (try indices)) [
        | inr (out, f) ↦ rw (f, search) (omega (arith, below e))
        | inl f ↦
            rw (f, search)
              (elim (Option-cases (advance slack 0 indices)) [
                | inl g ↦ rw g (omega (arith, below e))
                | inr (next, g) ↦
                    rw g (search-le slack try max fuel next (suc attempts) (omega (arith, below e)))
              ])
      ]
  where
    below : leb max attempts ≡ false → attempts < max
    below e = ground arith

module _ {El : Type 0} (opening : Opening El) where
  sub_batch-le :
      (threshold : ℕ) (items : List (BatchItem El)) (shares : List PubShare) (max : ℕ)
      → (combine_sub_batch opening threshold items shares max).1 ≤ max
  unfolding combine_sub_batch for_each_combination
  sub_batch-le threshold items shares max =
      if_cases (AtMost max) (threshold == 0 || ltb (length shares) threshold) _ _ (λ e. omega arith)
        λ e.
          search-le (length shares - threshold) (try_subset opening items shares) max (suc max)
            (count_from 0 threshold) 0 (omega arith)

  zeros-Within {ℓ} : {A : Type ℓ} (xs : List A) (limits : List ℕ) → Within (zeros_for xs) limits
  zeros-Within [] limits = tt
  zeros-Within (x ∷ xs) [] = (refl, zeros-Within xs [])
  zeros-Within (x ∷ xs) (l ∷ limits) = (omega arith, zeros-Within xs limits)

  abbrev Keeps : List ℕ → Option (Map Bytes) × List ℕ → Type 0
  Keeps limits r = Within (r.1) limits

  all-Within :
      (threshold : ℕ) (shares : List DecryptionShare) (j : ℕ) (subs : List (List (BatchItem El)))
      (limits : List ℕ) (results : Map Bytes)
      → Within (combine_all opening threshold shares j subs limits results).1 limits
  unfolding combine_all
  all-Within threshold shares j [] limits results = tt
  all-Within threshold shares j (items ∷ subs) [] results = zeros-Within (items ∷ subs) []
  all-Within threshold shares j (items ∷ subs) (limit ∷ limits) results =
      let own = sort_shares opening (shares_for opening j shares) in
      let tried = combine_sub_batch opening threshold items own limit in
      let few = sub_batch-le threshold items own limit in
      if_cases (Keeps (limit ∷ limits)) (ltb (length own) threshold) _ _
        (λ e. zeros-Within (items ∷ subs) (limit ∷ limits))
        λ e.
          if_cases (Keeps (limit ∷ limits)) (ltb limit 1) _ _
            (λ f. zeros-Within (items ∷ subs) (limit ∷ limits))
            λ f. elim (Option-cases tried.0) [
              | inl g ↦ rw (g, combine_all) (few, zeros-Within subs limits)
              | inr (rs, g) ↦
                  rw (g, combine_all)
                    (
                      few,
                      all-Within threshold shares (suc j) subs limits
                          (store_results opening rs results),
                    )
            ]

  -- Whatever the plan, the shares and the outcome, errors included, the attempts reported for each
  -- sub-batch are at most its limit: the common one, or its own where limits are given.
  pub combine_shares_bounded-Within :
      (n threshold : ℕ) (plan : BatchPlan El) (shares : List DecryptionShare) (max : ℕ)
      (limits : Option (List ℕ))
      → Within
          (combine_shares_bounded opening n threshold plan shares max limits).1
          (limits_in_force opening plan max limits)
  unfolding combine_shares_bounded
  combine_shares_bounded-Within n threshold plan shares max limits =
      let in_force = limits_in_force opening plan max limits in
      if_cases (Keeps in_force) (ltb max 1) _ _ (λ e. zeros-Within plan.sub_batches in_force)
        λ e.
          if_cases (Keeps in_force) (not (length in_force == length plan.sub_batches)) _ _
            (λ f. zeros-Within plan.sub_batches in_force)
            λ f.
              if_cases (Keeps in_force) (not (shares_valid opening n plan [] shares)) _ _
                (λ g. zeros-Within plan.sub_batches in_force)
                λ g. all-Within threshold shares 0 plan.sub_batches in_force []
