-- ===== src/Bte/Combine/Recovery.antt =====
-- Invalid shares cost attempts, not the result (bte/btd-impl-main/be/cluster.go: `combineSubBatch`,
-- `forEachShareCombination`).
use bloc.Prelude.{
  ℕ, zero, suc, ◌+◌, ◌-◌, ◌≤◌, ◌<◌, ◌≡◌, refl, sym, ◌∙◌, false, ◌||◌, Option, none, some, List,
  ◌==◌, ltb, leb, arith, length, Option-cases, inl, inr,
}
use bloc.Prelude.Bytes.{Bytes}
use bloc.Prelude.Maps.{Map}
use bloc.Node.{PubShare}
use bloc.Bte.{BatchItem}
use bloc.Bte.Combine.{
  Opening, count_from, advance, search, for_each_combination, try_subset, combine_sub_batch,
}
use bloc.Bte.Combine.Subsets.{subsets, subset_at, later_combination, later-subset}

later-none :
    (slack m : ℕ) (indices good : List ℕ)
    → advance slack 0 indices ≡ none
    → later_combination slack (suc m) indices ≡ some good
    → ⊥
later-none slack m indices good g e = cc

later-some :
    (slack m : ℕ) (indices next : List ℕ)
    → advance slack 0 indices ≡ some next
    → later_combination slack (suc m) indices ≡ later_combination slack m next
later-some slack m indices next g = rw (g, later_combination) refl

-- An answer of at most so many attempts.
abbrev pub Found {ℓ} : {A : Type ℓ} → ℕ → Option A × ℕ → Type ℓ
Found {A = A} limit r = (out : A) × (r.0 ≡ some out) × (r.1 ≤ limit)

search-Found {ℓ} :
    {A : Type ℓ} (slack : ℕ) (try : List ℕ → Option A) (max fuel m : ℕ) (indices good : List ℕ)
    (attempts : ℕ) (out : A)
    → m < fuel
    → attempts + m < max
    → later_combination slack m indices ≡ some good
    → try good ≡ some out
    → Found (attempts + suc m) (search slack try max fuel indices attempts)
unfolding search
search-Found slack try max zero m indices good attempts out h k e t = absurd (omega (arith, h))
search-Found slack try max (suc fuel) zero indices good attempts out h k e t =
    let unspent : leb max attempts ≡ false = ground (arith, k) in
    let same : indices ≡ good = cc in rw (unspent, search) (rw (same, t) (out, refl, omega arith))
search-Found slack try max (suc fuel) (suc m) indices good attempts out h k e t =
    let unspent : leb max attempts ≡ false = ground (arith, k) in
    rw (unspent, search)
      (elim (Option-cases (try indices)) [
        | inr (early, f) ↦ rw f (early, refl, omega arith)
        | inl f ↦ rw f (elim (Option-cases (advance slack 0 indices)) [
          | inl g ↦ absurd (later-none slack m indices good g e)
          | inr (next, g) ↦ rw g (
              let (early, p, q) =
                search-Found slack try max fuel m next good (suc attempts) out (omega (arith, h))
                  (omega (arith, k)) (sym (later-some slack m indices next g) ∙ e) t in
              (early, p, omega (arith, q)))
        ])
      ])

module _ {El : Type 0} (opening : Opening El) where
  -- When one of the first `max` threshold subsets of the shares, in lexicographic order, opens the sub-batch, a
  -- combination succeeds with at most as many attempts as its place, however many of the shares
  -- before it are invalid.
  pub invalid_shares_recovered :
      (threshold : ℕ) (items : List (BatchItem El)) (shares : List PubShare) (max m : ℕ)
      (good : List ℕ) (out : Map Bytes)
      → 0 < threshold
      → threshold ≤ length shares
      → m < max
      → subset_at m (subsets 0 threshold (length shares - threshold)) ≡ some good
      → try_subset opening items shares good ≡ some out
      → Found (suc m) (combine_sub_batch opening threshold items shares max)
  unfolding combine_sub_batch for_each_combination
  invalid_shares_recovered threshold items shares max m good out positive enough h e t =
      let tries : (threshold == 0 || ltb (length shares) threshold) ≡ false =
        ground (arith, positive, enough) in
      let later = later-subset (length shares - threshold) threshold m good e in
      let (early, p, q) =
        search-Found (length shares - threshold) (try_subset opening items shares) max (suc max) m
          (count_from 0 threshold) good 0 out (omega (arith, h)) (omega (arith, h)) later t in
      rw tries (early, p, omega (arith, q))
