-- ===== src/Bte/Combine.antt =====
-- The combination of decryption shares (bte/btd-impl-main/be/cluster.go: `CombineSharesBounded`,
-- `combineSubBatch`, `forEachShareCombination`). Interpolation on the curve and the AEAD are the
-- record `Opening`. An operator or sub-batch id is not negative here.
pub mod Subsets
pub mod Recovery
pub mod Limits
use bloc.Prelude.{
  ℕ, zero, suc, ◌+◌, ◌-◌, Bool, true, false, not, ◌&&◌, ◌||◌, Option, none, some, List, [], ◌∷◌,
  ◌++◌, ◌==◌, ltb, leb, if◌then◌else◌, length, map,
}
use bloc.Prelude.Bytes.{Bytes, bytes_eq}
use bloc.Prelude.Maps.{Map, lookup, insert}
use bloc.Node.{Point, PubShare, DecryptionShare}
use bloc.Bte.{Capsule, Ciphertext, BatchItem, BatchPlan}

-- The messages of a sub-batch from a set of shares, and the transaction that a message opens.
pub record Opening (El : Type 0) : Type 0 where
  pub batch_combine_messages : List (Capsule El) → List PubShare → Option (List El)
  pub decrypt_tx : El → Ciphertext El → Option Bytes

-- Zero for each element.
abbrev pub zeros_for {ℓ} : {A : Type ℓ} → List A → List ℕ
zeros_for [] = []
zeros_for (x ∷ xs) = 0 ∷ zeros_for xs

-- The numbers from `x` on.
abbrev pub count_from : ℕ → ℕ → List ℕ
count_from x zero = []
count_from x (suc k) = x ∷ count_from (suc x) k

-- The next combination, where `i` is the position of the first index and `slack` is `n - k`: the last
-- index that can grow does, and those behind it follow closely.
unfoldable pub advance : ℕ → ℕ → List ℕ → Option (List ℕ)
advance slack i [] = none
advance slack i (x ∷ xs) = elim (advance slack (suc i) xs) [
  | some ys ↦ some (x ∷ ys)
  | none ↦ if x == i + slack then none else some (count_from (suc x) (suc (length xs)))
]

-- The combinations in turn, until one is good, none is left, or the attempts are used up.
unfoldable pub search {ℓ} :
    {A : Type ℓ} → ℕ → (List ℕ → Option A) → ℕ → ℕ → List ℕ → ℕ → Option A × ℕ
unfolding advance
search slack try max zero indices attempts = (none, attempts)
search slack try max (suc fuel) indices attempts =
    if leb max attempts then (none, attempts) else elim (try indices) [
      | some out ↦ (some out, suc attempts)
      | none ↦ elim (advance slack 0 indices) [
        | none ↦ (none, suc attempts)
        | some next ↦ search slack try max fuel next (suc attempts)
      ]
    ]

-- `forEachShareCombination` with the callback of `combineSubBatch`: no combination when there are too
-- few shares or none is wanted.
unfoldable pub for_each_combination {ℓ} :
    {A : Type ℓ} → ℕ → ℕ → (List ℕ → Option A) → ℕ → Option A × ℕ
unfolding search
for_each_combination n k try max =
    if k == 0 || ltb n k then (none, 0) else search (n - k) try max (suc max) (count_from 0 k) 0

abbrev pub share_at {ℓ} : {A : Type ℓ} → ℕ → List A → List A
share_at i [] = []
share_at zero (x ∷ xs) = x ∷ []
share_at (suc i) (x ∷ xs) = share_at i xs

-- shares[i] for each of the indices.
abbrev pub pick_shares {ℓ} : {A : Type ℓ} → List ℕ → List A → List A
pick_shares [] xs = []
pick_shares (i ∷ is) xs = share_at i xs ++ pick_shares is xs

module _ {El : Type 0} (opening : Opening El) where
  open opening use {batch_combine_messages, decrypt_tx}

  -- The results at their positions, unless one of them failed. More messages than items, with which
  -- the source panics, are a failure here.
  unfoldable pub plaintext_results_from_messages :
      List (BatchItem El) → List El → Option (Map Bytes)
  plaintext_results_from_messages items [] = some []
  plaintext_results_from_messages [] (m ∷ ms) = none
  plaintext_results_from_messages (t ∷ ts) (m ∷ ms) =
      let rest = plaintext_results_from_messages ts ms in
      elim (decrypt_tx m t.ciphertext) [
        | none ↦ none
        | some raw ↦ elim rest [ none ↦ none | some rs ↦ some ((t.original_position, raw) ∷ rs) ]
      ]

  unfoldable pub try_subset : List (BatchItem El) → List PubShare → List ℕ → Option (Map Bytes)
  unfolding plaintext_results_from_messages
  try_subset items shares indices =
      elim (batch_combine_messages (map (λ t. t.ciphertext.capsule) items)
        (pick_shares indices shares)) [
          | none ↦ none
          | some msgs ↦ plaintext_results_from_messages items msgs
        ]

  unfoldable pub combine_sub_batch :
      ℕ → List (BatchItem El) → List PubShare → ℕ → Option (Map Bytes) × ℕ
  unfolding for_each_combination try_subset
  combine_sub_batch threshold items shares max_attempts =
      for_each_combination (length shares) threshold (try_subset items shares) max_attempts

  -- The shares of a sub-batch.
  abbrev pub shares_for : ℕ → List DecryptionShare → List PubShare
  shares_for j [] = []
  shares_for j (d ∷ ds) =
      let rest = shares_for j ds in
      if d.sub_batch_id == j then elim d.share [ none ↦ rest | some s ↦ s ∷ rest ] else rest

  abbrev pub insert_share : PubShare → List PubShare → List PubShare
  insert_share s [] = s ∷ []
  insert_share s (r ∷ rs) =
      let rest = insert_share s rs in if ltb s.i r.i then s ∷ r ∷ rs else r ∷ rest

  -- sort.Slice by the indices, which differ.
  abbrev pub sort_shares : List PubShare → List PubShare
  sort_shares [] = []
  sort_shares (s ∷ ss) = insert_share s (sort_shares ss)

  abbrev pub store_results : Map Bytes → Map Bytes → Map Bytes
  store_results [] all = all
  store_results ((i, r) ∷ rs) all = store_results rs (insert i r all)

  -- The loop over the sub-batches, from number `j` on; the attempts of those not reached are 0.
  unfoldable pub combine_all :
      ℕ
      → List DecryptionShare
      → ℕ
      → List (List (BatchItem El))
      → List ℕ
      → Map Bytes
      → Option (Map Bytes) × List ℕ
  unfolding combine_sub_batch
  combine_all threshold shares j [] limits results = (some results, [])
  combine_all threshold shares j (items ∷ subs) [] results = (none, 0 ∷ zeros_for subs)
  combine_all threshold shares j (items ∷ subs) (limit ∷ limits) results =
      let own = sort_shares (shares_for j shares) in
      let tried = combine_sub_batch threshold items own limit in
      if ltb (length own) threshold
      then (none, 0 ∷ zeros_for subs)
      else if ltb limit 1
      then (none, 0 ∷ zeros_for subs)
      else elim tried.0 [
        | none ↦ (none, tried.1 ∷ zeros_for subs)
        | some rs ↦
            let rest =
              combine_all threshold shares (suc j) subs limits (store_results rs results) in
            (rest.0, tried.1 ∷ rest.1)
      ]

  abbrev pub has_point : DecryptionShare → Bool
  has_point d = elim d.share [
    | none ↦ false
    | some s ↦ elim s.v [ none ↦ false | some v ↦ s.i == d.operator_id ]
  ]

  abbrev pub same_slot : DecryptionShare → List DecryptionShare → Bool
  same_slot d [] = false
  same_slot d (e ∷ es) =
      let rest = same_slot d es in
      if d.operator_id == e.operator_id && d.sub_batch_id == e.sub_batch_id then true else rest

  -- The checks of a share, where `earlier` are those before it.
  unfoldable pub shares_valid :
      ℕ → BatchPlan El → List DecryptionShare → List DecryptionShare → Bool
  shares_valid n plan earlier [] = true
  shares_valid n plan earlier (d ∷ ds) =
      let rest = shares_valid n plan (d ∷ earlier) ds in
      if not (bytes_eq d.batch_id plan.batch_id)
      then false
      else if leb (length plan.sub_batches) d.sub_batch_id
      then false
      else if leb n d.operator_id
      then false
      else if not (has_point d)
      then false
      else if same_slot d earlier
      then false
      else rest

  abbrev pub limit_each : List (List (BatchItem El)) → ℕ → List ℕ
  limit_each [] max = []
  limit_each (s ∷ ss) max = max ∷ limit_each ss max

  -- The limits in force, if there are as many as sub-batches.
  abbrev pub limits_in_force : BatchPlan El → ℕ → Option (List ℕ) → List ℕ
  limits_in_force plan max none = limit_each plan.sub_batches max
  limits_in_force plan max (some limits) = limits

  -- The plaintexts by position, or none for an error, with the attempts on each sub-batch.
  unfoldable pub combine_shares_bounded :
      ℕ
      → ℕ
      → BatchPlan El
      → List DecryptionShare
      → ℕ
      → Option (List ℕ)
      → Option (Map Bytes) × List ℕ
  unfolding combine_all shares_valid
  combine_shares_bounded n threshold plan shares max limits =
      let in_force = limits_in_force plan max limits in
      if ltb max 1
      then (none, zeros_for plan.sub_batches)
      else if not (length in_force == length plan.sub_batches)
      then (none, zeros_for plan.sub_batches)
      else if not (shares_valid n plan [] shares)
      then (none, zeros_for plan.sub_batches)
      else combine_all threshold shares 0 plan.sub_batches in_force []
