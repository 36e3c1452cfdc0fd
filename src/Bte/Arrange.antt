-- ===== src/Bte/Arrange.antt =====
-- The arrangement of a batch into sub-batches (bte/btd-impl-main/be/cluster.go: `arrangeBatch`,
-- `arrangeCollisionFree`, `validateSubBatchIndices`). The value of `math.Ceil(2 * math.Sqrt(n))` is
-- an argument.
pub mod Place
pub mod Greedy
pub mod Total
use bloc.Prelude.{
  ℕ, zero, suc, ◌+◌, ◌%◌, Bool, true, false, not, ◌&&◌, Option, none, some, List, [], ◌∷◌, ◌++◌,
  ◌==◌, ltb, leb, if◌then◌else◌, length, is_nil, count_if,
}
use bloc.Bte.{Ciphertext, PublicParams, BatchItem, validate_ciphertext}

module _ {El : Type 0} where
  abbrev pub index_of : BatchItem El → ℕ
  index_of t = t.ciphertext.capsule.i

  abbrev pub is_index : ℕ → BatchItem El → Bool
  is_index j t = index_of t == j

  -- What the map `seen` of a sub-batch says is read off its items.
  abbrev pub has_index : ℕ → List (BatchItem El) → Bool
  has_index j [] = false
  has_index j (t ∷ ts) = if index_of t == j then true else has_index j ts

  abbrev pub no_repeat : List (BatchItem El) → Bool
  no_repeat [] = true
  no_repeat (t ∷ ts) = let rest = no_repeat ts in if has_index (index_of t) ts then false else rest

  unfoldable pub validate_sub_batch_indices : List (List (BatchItem El)) → Bool
  validate_sub_batch_indices [] = true
  validate_sub_batch_indices (s ∷ ss) =
      let rest = validate_sub_batch_indices ss in if no_repeat s then rest else false

  abbrev pub empty_sub_batches : ℕ → List (List (BatchItem El))
  empty_sub_batches zero = []
  empty_sub_batches (suc k) = [] ∷ empty_sub_batches k

  -- append(subBatches[i], item).
  unfoldable pub append_at :
      ℕ → BatchItem El → List (List (BatchItem El)) → List (List (BatchItem El))
  append_at i t [] = []
  append_at zero t (s ∷ ss) = (s ++ t ∷ []) ∷ ss
  append_at (suc i) t (s ∷ ss) = s ∷ append_at i t ss

  -- From position `k` on: the first of the shortest sub-batches without the index, where `best` is
  -- the one found so far with its length.
  unfoldable pub select_from : ℕ → ℕ → Option (ℕ × ℕ) → List (List (BatchItem El)) → Option (ℕ × ℕ)
  select_from j k best [] = best
  select_from j k best (s ∷ ss) =
      let skip = select_from j (suc k) best ss in
      let take = select_from j (suc k) (some (k, length s)) ss in
      if has_index j s
      then skip
      else elim best [ none ↦ take | some b ↦ if ltb (length s) b.1 then take else skip ]

  unfoldable pub arrange_collision_free :
      List (BatchItem El) → List (List (BatchItem El)) → Option (List (List (BatchItem El)))
  unfolding select_from append_at
  arrange_collision_free [] ss = some ss
  arrange_collision_free (t ∷ ts) ss = elim (select_from (index_of t) 0 none ss) [
    | none ↦ none
    | some b ↦ arrange_collision_free ts (append_at (b.0) t ss)
  ]

  -- Item `i` goes to sub-batch `i % alpha`.
  unfoldable pub round_robin :
      ℕ → ℕ → List (BatchItem El) → List (List (BatchItem El)) → List (List (BatchItem El))
  unfolding append_at
  round_robin alpha i [] ss = ss
  round_robin alpha i (t ∷ ts) ss = round_robin alpha (suc i) ts (append_at (i % alpha) t ss)

  abbrev pub items_from : ℕ → List (Ciphertext El) → List (BatchItem El)
  items_from k [] = []
  items_from k (c ∷ cs) = record { original_position = k; ciphertext = c } ∷ items_from (suc k) cs

  -- counts[index].
  abbrev pub count_index : ℕ → List (BatchItem El) → ℕ
  count_index j ts = count_if (is_index j) ts

  -- The order of the sorting: frequent indices first, then by position. `all` are all items.
  abbrev pub item_before : List (BatchItem El) → BatchItem El → BatchItem El → Bool
  item_before all a b =
      let ca = count_index (index_of a) all in
      let cb = count_index (index_of b) all in
      if not (ca == cb) then ltb cb ca else ltb a.original_position b.original_position

  abbrev pub insert_item :
      List (BatchItem El) → BatchItem El → List (BatchItem El) → List (BatchItem El)
  insert_item all t [] = t ∷ []
  insert_item all t (u ∷ us) =
      let rest = insert_item all t us in if item_before all u t then u ∷ rest else t ∷ u ∷ us

  unfoldable pub sort_items : List (BatchItem El) → List (BatchItem El) → List (BatchItem El)
  sort_items all [] = []
  sort_items all (t ∷ ts) = insert_item all t (sort_items all ts)

  -- The loop over `counts`: alpha grows to the largest of them.
  unfoldable pub raise : List (BatchItem El) → List (BatchItem El) → ℕ → ℕ
  raise all [] alpha = alpha
  raise all (t ∷ ts) alpha =
      let c = count_index (index_of t) all in raise all ts (if ltb alpha c then c else alpha)

  abbrev pub all_valid : PublicParams → List (Ciphertext El) → Bool
  all_valid params [] = true
  all_valid params (c ∷ cs) =
      let rest = all_valid params cs in if validate_ciphertext params c then rest else false

  abbrev pub alpha_of : (ℕ → ℕ) → List (BatchItem El) → ℕ
  alpha_of ceil_two_sqrt items =
      let start = ceil_two_sqrt (length items) in
      let raised = raise items items (if ltb start 1 then 1 else start) in
      if ltb (length items) raised then length items else raised

  unfoldable pub arrange_batch :
      PublicParams → (ℕ → ℕ) → List (Ciphertext El) → Option (ℕ × List (List (BatchItem El)))
  unfolding validate_sub_batch_indices arrange_collision_free round_robin sort_items raise
  arrange_batch params ceil_two_sqrt ciphertexts =
      let items = items_from 0 ciphertexts in
      let alpha = alpha_of ceil_two_sqrt items in
      let sorted = sort_items items items in
      let dealt = round_robin alpha 0 sorted (empty_sub_batches alpha) in
      if is_nil ciphertexts
      then none
      else if ltb params.bmax (length ciphertexts)
      then none
      else if not (all_valid params ciphertexts)
      then none
      else if validate_sub_batch_indices dealt
      then some (alpha, dealt)
      else elim (arrange_collision_free sorted (empty_sub_batches alpha)) [
        | none ↦ none
        | some placed ↦ if validate_sub_batch_indices placed then some (alpha, placed) else none
      ]
