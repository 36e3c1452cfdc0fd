-- ===== src/Inclusion/Selection.antt =====
-- The selection of the merged set under the block's limits (bloc-node/internal/app/inclusion/merge.go).
use bloc.Prelude.{
  ℕ, ◌+◌, ◌-◌, ◌%◌, ◌^◌, ◌≤◌, ◌<◌, ◌≡◌, refl, sym, ◌∙◌, false, ◌&&◌, List, [], ◌∷◌, ◌++◌, map,
  arith, leb, ltb, if_cases, length, length-append,
}
use mathlib.Core.List.{append-nil, append_assoc, Sublistᴰ}
use bloc.Prelude.Words.{sub64}
use bloc.Inclusion.{
  EncryptedPlaceholder, InclusionList, BlockspaceConfig, MergeCandidate, Hashing, select,
  sort_candidates, effective_max_decrypted_txs, dedupe_lists, merge,
}

abbrev pub sum_gas : List EncryptedPlaceholder → ℕ
sum_gas [] = 0
sum_gas (i ∷ is) = i.gas + sum_gas is

sum_gas-append_one :
    (is : List EncryptedPlaceholder) (i : EncryptedPlaceholder)
    → sum_gas (is ++ i ∷ []) ≡ sum_gas is + i.gas
sum_gas-append_one [] i = omega arith
sum_gas-append_one (j ∷ is) i = omega (arith, sum_gas-append_one is i)

-- What the selection has done so far, under a gas limit.
pub record Within (max_txs max_gas : ℕ) (r : List EncryptedPlaceholder × ℕ) : Type 0 where
  pub few : length r.0 ≤ max_txs
  pub exact : r.1 ≡ sum_gas r.0
  pub fits : r.1 ≤ max_gas

select-Within :
    (max_txs max_gas : ℕ) (selected : List EncryptedPlaceholder) (gas : ℕ)
    (cs : List MergeCandidate)
    → 0 < max_gas
    → max_gas < 2 ^ 64
    → Within max_txs max_gas (selected, gas)
    → Within max_txs max_gas (select max_txs max_gas selected gas cs)
unfolding select
select-Within max_txs max_gas selected gas [] pos small w = w
select-Within max_txs max_gas selected gas (c ∷ cs) pos small w =
    if_cases (Within max_txs max_gas) (leb max_txs (length selected)) _ _ (λ full. w)
      λ room.
        if_cases (Within max_txs max_gas) (ltb 0 max_gas && ltb (sub64 max_gas gas) c.item.gas) _ _
          (λ big. select-Within max_txs max_gas selected gas cs pos small w)
          λ fit.
            select-Within max_txs max_gas (selected ++ c.item ∷ []) ((gas + c.item.gas) % 2 ^ 64) cs
              pos small (taken room fit)
  where
    taken :
        leb max_txs (length selected) ≡ false
        → (ltb 0 max_gas && ltb (sub64 max_gas gas) c.item.gas) ≡ false
        → Within max_txs max_gas (selected ++ c.item ∷ [], (gas + c.item.gas) % 2 ^ 64)
    taken room fit =
        let sums = sum_gas-append_one selected c.item in
        let more = length-append selected (c.item ∷ []) in
        let room' : c.item.gas ≤ max_gas - gas = ground (arith, w.fits) in
        record {
          few = ground (arith, w.few);
          exact = omega (arith, w.exact, w.fits);
          fits = omega (arith, w.fits);
        }

effective-le : (b : BlockspaceConfig) (bmax : ℕ) → effective_max_decrypted_txs b bmax ≤ bmax
unfolding effective_max_decrypted_txs
effective-le b bmax = ground arith

-- Under a gas limit (a uint64 other than 0) the merged set has at most as many items as the
-- effective cap and `bmax` allow; its gas is the exact sum of its items' and within the limit.
pub merge-limits :
    (h : Hashing) (slot : ℕ) (lists : List InclusionList) (b : BlockspaceConfig) (bmax : ℕ)
    → 0 < b.max_decrypted_gas
    → b.max_decrypted_gas < 2 ^ 64
    → let m = merge h slot lists b bmax in
      (length m.items ≤ effective_max_decrypted_txs b bmax)
      × (length m.items ≤ bmax)
      × (m.selected_gas ≡ sum_gas m.items)
      × (m.selected_gas ≤ b.max_decrypted_gas)
unfolding merge
merge-limits h slot lists b bmax pos small =
    let w =
      select-Within (effective_max_decrypted_txs b bmax) b.max_decrypted_gas [] 0
        (sort_candidates (dedupe_lists h lists ([], [])).0) pos small
        (record { few = omega arith; exact = refl; fits = omega arith }) in
    (w.few, omega (arith, w.few, effective-le b bmax), w.exact, w.fits)

abbrev items_of : List MergeCandidate → List EncryptedPlaceholder
items_of cs = map (λ c. c.item) cs

-- What is selected after `selected` is taken from the candidates, in their order.
pub select-picks :
    (max_txs max_gas : ℕ) (selected : List EncryptedPlaceholder) (gas : ℕ)
    (cs : List MergeCandidate)
    → (picks : List EncryptedPlaceholder) × ((select max_txs max_gas selected gas cs).0
        ≡ selected ++ picks)
      × Sublistᴰ picks (items_of cs)
unfolding select
select-picks max_txs max_gas selected gas [] = ([], sym (append-nil selected), Sublistᴰ.slnil)
select-picks max_txs max_gas selected gas (c ∷ cs) =
    let later = select-picks max_txs max_gas selected gas cs in
    let (picks, e, s) =
      select-picks max_txs max_gas (selected ++ c.item ∷ []) ((gas + c.item.gas) % 2 ^ 64) cs in
    if_cases Picked (leb max_txs (length selected)) _ _
      (λ full. ([], sym (append-nil selected), nothing (items_of (c ∷ cs))))
      λ room.
        if_cases Picked (ltb 0 max_gas && ltb (sub64 max_gas gas) c.item.gas) _ _
          (λ big. (later.0, later.1, Sublistᴰ.cons later.2))
          λ fit. (
            c.item ∷ picks,
            e ∙ append_assoc selected (c.item ∷ []) picks,
            Sublistᴰ.cons-cons refl s,
          )
  where
    Picked : List EncryptedPlaceholder × ℕ → Type 0
    Picked r =
        (picks : List EncryptedPlaceholder) × (r.0 ≡ selected ++ picks)
        × Sublistᴰ picks (items_of (c ∷ cs))

    nothing : (is : List EncryptedPlaceholder) → Sublistᴰ [] is
    nothing [] = Sublistᴰ.slnil
    nothing (i ∷ is) = Sublistᴰ.cons (nothing is)
