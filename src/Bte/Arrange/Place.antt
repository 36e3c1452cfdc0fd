-- ===== src/Bte/Arrange/Place.antt =====
-- One item put into a sub-batch (bte/btd-impl-main/be/cluster.go: `arrangeCollisionFree`).
use bloc.Prelude.{
  ℕ, zero, suc, ◌+◌, ◌≤◌, ◌<◌, ◌≡◌, refl, ap, subst, Bool, true, false, not, Option, none, some,
  List, [], ◌∷◌, ◌++◌, ◌==◌, ltb, arith, if◌then◌else◌, if_cases, length, count_if, count_if-append,
}
use bloc.Bte.{BatchItem}
use bloc.Bte.Arrange.{
  index_of, is_index, has_index, no_repeat, validate_sub_batch_indices, append_at, select_from,
}

-- A property of the position, if one is selected.
abbrev Chosen : (ℕ → Type 0) → Option (ℕ × ℕ) → Type 0
Chosen P none = Unit
Chosen P (some b) = P (b.0)

module _ {El : Type 0} where
  -- How many items of all sub-batches pass a test.
  abbrev pub count_all : (BatchItem El → Bool) → List (List (BatchItem El)) → ℕ
  count_all p [] = 0
  count_all p (s ∷ ss) = count_if p s + count_all p ss

  -- Whether the sub-batch at a position is there and lacks an index.
  abbrev pub lacks_at : ℕ → ℕ → List (List (BatchItem El)) → Bool
  lacks_at i j [] = false
  lacks_at zero j (s ∷ ss) = not (has_index j s)
  lacks_at (suc i) j (s ∷ ss) = lacks_at i j ss

  pub lacks_at-lt :
      (i j : ℕ) (ss : List (List (BatchItem El))) → lacks_at i j ss ≡ true → i < length ss
  lacks_at-lt i j [] h = cc
  lacks_at-lt zero j (s ∷ ss) h = omega arith
  lacks_at-lt (suc i) j (s ∷ ss) h = omega (arith, lacks_at-lt i j ss h)

  pub length-append_at :
      (i : ℕ) (t : BatchItem El) (ss : List (List (BatchItem El)))
      → length (append_at i t ss) ≡ length ss
  unfolding append_at
  length-append_at zero t [] = refl
  length-append_at (suc i) t [] = refl
  length-append_at zero t (s ∷ ss) = refl
  length-append_at (suc i) t (s ∷ ss) = ap suc (length-append_at i t ss)

  pub count_all-append_at :
      (p : BatchItem El → Bool) (i : ℕ) (t : BatchItem El) (ss : List (List (BatchItem El)))
      → i < length ss
      → count_all p (append_at i t ss) ≡ count_all p ss + (if p t then 1 else 0)
  unfolding append_at
  count_all-append_at p i t [] h = absurd (omega (arith, h))
  count_all-append_at p zero t (s ∷ ss) h = ground (arith, count_if-append p s (t ∷ []))
  count_all-append_at p (suc i) t (s ∷ ss) h =
      omega (arith, count_all-append_at p i t ss (omega (arith, h)))

  has_index-append :
      (j : ℕ) (s : List (BatchItem El)) (t : BatchItem El)
      → has_index j (s ++ t ∷ []) ≡ (if index_of t == j then true else has_index j s)
  has_index-append j [] t = refl
  has_index-append j (u ∷ s) t = ground (arith, has_index-append j s t)

  no_repeat-append :
      (s : List (BatchItem El)) (t : BatchItem El)
      → no_repeat s ≡ true
      → has_index (index_of t) s ≡ false
      → no_repeat (s ++ t ∷ []) ≡ true
  no_repeat-append [] t h k = refl
  no_repeat-append (u ∷ s) t h k =
      ground (arith, no_repeat-append s t, has_index-append (index_of u) s t)

  pub validate-append_at :
      (i : ℕ) (t : BatchItem El) (ss : List (List (BatchItem El)))
      → validate_sub_batch_indices ss ≡ true
      → lacks_at i (index_of t) ss ≡ true
      → validate_sub_batch_indices (append_at i t ss) ≡ true
  unfolding append_at validate_sub_batch_indices
  validate-append_at i t [] h k = cc
  validate-append_at zero t (s ∷ ss) h k = ground (arith, no_repeat-append s t)
  validate-append_at (suc i) t (s ∷ ss) h k = ground (arith, validate-append_at i t ss)

  -- What is selected lacks the index.
  select_from-Chosen :
      (P : ℕ → Type 0) (j k : ℕ) (best : Option (ℕ × ℕ)) (ss : List (List (BatchItem El)))
      → Chosen P best
      → ((i m : ℕ) → m ≡ k + i → lacks_at i j ss ≡ true → P m)
      → Chosen P (select_from j k best ss)
  unfolding select_from
  select_from-Chosen P j k best [] before there = before
  select_from-Chosen P j k none (s ∷ ss) before there =
      if_cases (Chosen P) (has_index j s) _ _
        (λ h. select_from-Chosen P j (suc k) none ss tt (later there))
        λ h.
          select_from-Chosen P j (suc k) (some (k, length s)) ss
            (there 0 k (omega arith) (ground arith)) (later there)
    where
      later :
          ((i m : ℕ) → m ≡ k + i → lacks_at i j (s ∷ ss) ≡ true → P m)
          → (i m : ℕ) → m ≡ suc k + i
          → lacks_at i j ss ≡ true
          → P m
      later there i m q l = there (suc i) m (omega (arith, q)) l
  select_from-Chosen P j k (some c) (s ∷ ss) before there =
      let skip = select_from-Chosen P j (suc k) (some c) ss before later in
      if_cases (Chosen P) (has_index j s) _ _ (λ h. skip)
        λ h.
          if_cases (Chosen P) (ltb (length s) c.1) _ _
            (λ q.
              select_from-Chosen P j (suc k) (some (k, length s)) ss
                (there 0 k (omega arith) (ground arith)) later)
            λ q. skip
    where
      later : (i m : ℕ) → m ≡ suc k + i → lacks_at i j ss ≡ true → P m
      later i m q l = there (suc i) m (omega (arith, q)) l

  pub select-lacks :
      (j : ℕ) (ss : List (List (BatchItem El))) (b : ℕ × ℕ)
      → select_from j 0 none ss ≡ some b
      → lacks_at b.0 j ss ≡ true
  select-lacks j ss b e = subst (Chosen (λ m. lacks_at m j ss ≡ true)) e (
      select_from-Chosen (λ m. lacks_at m j ss ≡ true) j 0 none ss tt
        λ i m q l. subst (λ x. lacks_at x j ss ≡ true) (omega (arith, q)) l)

  select_from-some :
      (j k : ℕ) (b : ℕ × ℕ) (ss : List (List (BatchItem El)))
      → (c : ℕ × ℕ) × (select_from j k (some b) ss ≡ some c)
  unfolding select_from
  select_from-some j k b [] = (b, refl)
  select_from-some j k b (s ∷ ss) =
      if_cases Found (has_index j s) _ _ (λ h. select_from-some j (suc k) b ss)
        λ h.
          if_cases Found (ltb (length s) b.1) _ _ (λ q. select_from-some j (suc k) (k, length s) ss)
            λ q. select_from-some j (suc k) b ss
    where
      Found : Option (ℕ × ℕ) → Type 0
      Found o = (c : ℕ × ℕ) × (o ≡ some c)

  has_index-count :
      (j : ℕ) (s : List (BatchItem El)) → has_index j s ≡ true → 1 ≤ count_if (is_index j) s
  has_index-count j [] h = cc
  has_index-count j (t ∷ s) h = ground (arith, has_index-count j s)

  -- When fewer items than sub-batches have the index, there is a sub-batch to select.
  pub select-found :
      (j k : ℕ) (ss : List (List (BatchItem El)))
      → count_all (is_index j) ss < length ss
      → (c : ℕ × ℕ) × (select_from j k none ss ≡ some c)
  unfolding select_from
  select-found j k [] h = absurd (omega (arith, h))
  select-found j k (s ∷ ss) h =
      if_cases (λ o. (c : ℕ × ℕ) × (o ≡ some c)) (has_index j s) _ _
        (λ q. select-found j (suc k) ss (omega (arith, h, has_index-count j s q)))
        λ q. select_from-some j (suc k) (k, length s) ss
