-- ===== src/Bte/Arrange/Total.antt =====
-- Every valid batch has an arrangement (bte/btd-impl-main/be/cluster.go: `arrangeBatch`).
use bloc.Prelude.{
  ℕ, zero, suc, ◌≤◌, ◌<◌, ◌≡◌, refl, ap, subst, ◌∙◌, Bool, true, false, some, List, [], ◌∷◌, ◌==◌,
  ltb, arith, if◌then◌else◌, length, count_if, count_if-le-length, All, Bool-cases, inl, inr,
  ==_iff,
}
use bloc.Bte.{Ciphertext, PublicParams, BatchItem}
use bloc.Bte.Arrange.{
  index_of, is_index, has_index, count_index, no_repeat, validate_sub_batch_indices,
  empty_sub_batches, arrange_collision_free, round_robin, items_from, insert_item, sort_items,
  raise, all_valid, alpha_of, arrange_batch,
}
use bloc.Bte.Arrange.Place.{count_all}
use bloc.Bte.Arrange.Greedy.{Placed, greedy-Placed, dealt-Placed}

length-empty : (El : Type 0) (k : ℕ) → length (empty_sub_batches {El = El} k) ≡ k
length-empty El zero = refl
length-empty El (suc k) = ap suc (length-empty El k)

validate-empty :
    (El : Type 0) (k : ℕ) → validate_sub_batch_indices (empty_sub_batches {El = El} k) ≡ true
unfolding validate_sub_batch_indices
validate-empty El zero = refl
validate-empty El (suc k) = validate-empty El k

module _ {El : Type 0} where
  count_if-insert_item :
      (p : BatchItem El → Bool) (all : List (BatchItem El)) (t : BatchItem El)
      (ts : List (BatchItem El))
      → count_if p (insert_item all t ts) ≡ count_if p (t ∷ ts)
  count_if-insert_item p all t [] = refl
  count_if-insert_item p all t (u ∷ ts) = ground (arith, count_if-insert_item p all t ts)

  count_if-sort_items :
      (p : BatchItem El → Bool) (all ts : List (BatchItem El))
      → count_if p (sort_items all ts) ≡ count_if p ts
  unfolding sort_items
  count_if-sort_items p all [] = refl
  count_if-sort_items p all (t ∷ ts) =
      ground (arith, count_if-insert_item p all t (sort_items all ts), count_if-sort_items p all ts)

  raise-le : (all ts : List (BatchItem El)) (alpha : ℕ) → alpha ≤ raise all ts alpha
  unfolding raise
  raise-le all [] alpha = omega arith
  raise-le all (t ∷ ts) alpha = ground (
    arith,
    raise-le all ts
        (if ltb alpha (count_index (index_of t) all) then count_index (index_of t) all else alpha),
  )

  raise-All :
      (all ts : List (BatchItem El)) (alpha : ℕ)
      → All (λ t. count_index (index_of t) all ≤ raise all ts alpha) ts
  unfolding raise
  raise-All all [] alpha = tt
  raise-All all (t ∷ ts) alpha =
      let next =
        if ltb alpha (count_index (index_of t) all) then count_index (index_of t) all else alpha in
      (ground (arith, raise-le all ts next), raise-All all ts next)

  -- An index that no item has is counted 0 times.
  count_index-absent :
      (j : ℕ) (ts : List (BatchItem El)) → has_index j ts ≡ false → count_index j ts ≡ 0
  count_index-absent j [] h = refl
  count_index-absent j (t ∷ ts) h = ground (arith, count_index-absent j ts)

  All-index :
      (P : ℕ → Type 0) (j : ℕ) (ts : List (BatchItem El))
      → All (λ t. P (index_of t)) ts
      → has_index j ts ≡ true
      → P j
  All-index P j [] h k = cc
  All-index P j (t ∷ ts) h k = elim (Bool-cases (index_of t == j)) [
    | inl e ↦ subst P ((==_iff (index_of t) j).0 e) h.0
    | inr e ↦ All-index P j ts h.1 (ground arith)
  ]

  count-le-raise :
      (j : ℕ) (ts : List (BatchItem El)) (alpha : ℕ) → count_index j ts ≤ raise ts ts alpha
  count-le-raise j ts alpha = elim (Bool-cases (has_index j ts)) [
    | inl h ↦ All-index (λ i. count_index i ts ≤ raise ts ts alpha) j ts (raise-All ts ts alpha) h
    | inr h ↦ omega (arith, count_index-absent j ts h)
  ]

  count-le-alpha :
      (ceil_two_sqrt : ℕ → ℕ) (j : ℕ) (ts : List (BatchItem El))
      → count_index j ts ≤ alpha_of ceil_two_sqrt ts
  count-le-alpha ceil_two_sqrt j ts =
      let start = ceil_two_sqrt (length ts) in
      ground (
        arith,
        count_if-le-length (is_index j) ts,
        count-le-raise j ts (if ltb start 1 then 1 else start),
      )

  alpha-positive :
      (ceil_two_sqrt : ℕ → ℕ) (t : BatchItem El) (ts : List (BatchItem El))
      → 0 < alpha_of ceil_two_sqrt (t ∷ ts)
  alpha-positive ceil_two_sqrt t ts =
      let start = ceil_two_sqrt (length (t ∷ ts)) in
      ground (arith, raise-le (t ∷ ts) (t ∷ ts) (if ltb start 1 then 1 else start))

  alpha-le-length :
      (ceil_two_sqrt : ℕ → ℕ) (ts : List (BatchItem El)) → alpha_of ceil_two_sqrt ts ≤ length ts
  alpha-le-length ceil_two_sqrt ts = ground arith

  count_all-empty : (p : BatchItem El → Bool) (k : ℕ) → count_all p (empty_sub_batches k) ≡ 0
  count_all-empty p zero = omega arith
  count_all-empty p (suc k) = omega (arith, count_all-empty p k)

  no_repeat-count : (j : ℕ) (s : List (BatchItem El)) → no_repeat s ≡ true → count_index j s ≤ 1
  no_repeat-count j [] h = omega arith
  no_repeat-count j (t ∷ s) h = elim (Bool-cases (index_of t == j)) [
    | inl e ↦ ground (
      arith,
      count_index-absent j s
          (subst (λ i. has_index i s ≡ false) ((==_iff (index_of t) j).0 e) (ground arith)),
    )
    | inr e ↦ ground (arith, no_repeat-count j s)
  ]

  -- No index twice in a sub-batch.
  abbrev pub OneEach : List (List (BatchItem El)) → Type 0
  OneEach ss = All (λ s. (j : ℕ) → count_index j s ≤ 1) ss

  validate-OneEach :
      (ss : List (List (BatchItem El))) → validate_sub_batch_indices ss ≡ true → OneEach ss
  unfolding validate_sub_batch_indices
  validate-OneEach [] h = tt
  validate-OneEach (s ∷ ss) h =
      ((λ j. no_repeat-count j s (ground arith)), validate-OneEach ss (ground arith))

  -- What an arrangement of items is: as many sub-batches as it says, at most one for each item, which
  -- hold the items and no others, and no index twice in a sub-batch.
  pub record Arranged (items : List (BatchItem El)) (alpha : ℕ) (ss : List (List (BatchItem El)))
      : Type 0 where
    pub number : length ss ≡ alpha
    pub few : alpha ≤ length items
    pub same_items : (p : BatchItem El → Bool) → count_all p ss ≡ count_if p items
    pub one_each : OneEach ss

  Placed-Arranged :
      (ceil_two_sqrt : ℕ → ℕ) (items : List (BatchItem El)) (ss : List (List (BatchItem El)))
      → Placed (sort_items items items) (empty_sub_batches (alpha_of ceil_two_sqrt items)) ss
      → validate_sub_batch_indices ss ≡ true
      → Arranged items (alpha_of ceil_two_sqrt items) ss
  Placed-Arranged ceil_two_sqrt items ss p v = record {
    number = p.same_number ∙ length-empty El (alpha_of ceil_two_sqrt items);
    few = alpha-le-length ceil_two_sqrt items;
    same_items = λ q. omega (
      arith,
      p.counts q,
      count_all-empty q (alpha_of ceil_two_sqrt items),
      count_if-sort_items q items items,
    );
    one_each = validate-OneEach ss v;
  }

  greedy-Arranged :
      (ceil_two_sqrt : ℕ → ℕ) (items : List (BatchItem El))
      → (ss : List (List (BatchItem El))) × (arrange_collision_free
            (sort_items items items)
            (empty_sub_batches (alpha_of ceil_two_sqrt items))
          ≡ some ss)
        × (validate_sub_batch_indices ss ≡ true)
        × Arranged items (alpha_of ceil_two_sqrt items) ss
  greedy-Arranged ceil_two_sqrt items =
      let alpha = alpha_of ceil_two_sqrt items in
      let (ss, e, v, p) =
        greedy-Placed (sort_items items items) (empty_sub_batches alpha) (validate-empty El alpha)
          λ j. omega (
            arith,
            count_all-empty (is_index j) alpha,
            count_if-sort_items (is_index j) items items,
            count-le-alpha ceil_two_sqrt j items,
            length-empty El alpha,
          ) in
      (ss, e, v, Placed-Arranged ceil_two_sqrt items ss p v)

  -- A batch of at least one and at most `bmax` valid ciphertexts is always arranged, whatever the
  -- first guess of the number of sub-batches is: there are between one and as many sub-batches as
  -- ciphertexts, every ciphertext stands in them exactly once with its position, and no sub-batch has
  -- two ciphertexts of one index.
  pub arrange_batch_total :
      (params : PublicParams) (ceil_two_sqrt : ℕ → ℕ) (c : Ciphertext El)
      (cs : List (Ciphertext El))
      → length (c ∷ cs) ≤ params.bmax
      → all_valid params (c ∷ cs) ≡ true
      → (alpha : ℕ) × (ss : List (List (BatchItem El))) × (arrange_batch params ceil_two_sqrt
            (c ∷ cs)
          ≡ some (alpha, ss))
        × (0 < alpha)
        × Arranged (items_from 0 (c ∷ cs)) alpha ss
  unfolding arrange_batch
  arrange_batch_total params ceil_two_sqrt c cs fits valid =
      let short : ltb params.bmax (length (c ∷ cs)) ≡ false = ground (arith, fits) in
      let positive =
        alpha-positive ceil_two_sqrt (record { original_position = 0; ciphertext = c })
          (items_from 1 cs) in
      let (ss, e, v, a) = greedy-Arranged ceil_two_sqrt items in
      rw (short, valid, arrange_batch)
        (elim (Bool-cases (validate_sub_batch_indices dealt)) [
          | inl good ↦ (
            alpha,
            dealt,
            rw good refl,
            positive,
            Placed-Arranged ceil_two_sqrt items dealt
                (dealt-Placed alpha 0 (sort_items items items) (empty_sub_batches alpha) positive
                  (length-empty El alpha))
                good,
          )
          | inr bad ↦ (alpha, ss, rw (bad, e, v) refl, positive, a)
        ])
    where
      items : List (BatchItem El)
      items = items_from 0 (c ∷ cs)

      alpha : ℕ
      alpha = alpha_of ceil_two_sqrt items

      dealt : List (List (BatchItem El))
      dealt = round_robin alpha 0 (sort_items items items) (empty_sub_batches alpha)
