-- ===== src/Hbbft/Slot/Order.antt =====
-- The accepted batches stand in the order of the proposers' ids, whatever the order of the map that
-- they are read from (sbc/hbbft/bloc_slot.go, `orderedBatches`).
use bloc.Prelude.{
  ℕ, ◌≤◌, ◌<◌, ◌≡◌, refl, ap, ◌∙◌, true, false, none, some, List, [], ◌∷◌, arith, leb, contains,
  All, Bool-cases, inl, inr,
}
use bloc.Prelude.Maps.{Map, IsMap, has, lookup, keys}
use bloc.Prelude.Bytes.{Bytes}
use bloc.Hbbft.Acs.{insert_id, sort_ids}
use bloc.Hbbft.Slot.{AcceptedBatch, accepted_batches, ordered_batches}

abbrev pub Ascending : List ℕ → Type 0
Ascending [] = Unit
Ascending (x ∷ xs) = All (λ y. x < y) xs × Ascending xs

below-All : (x y : ℕ) (ys : List ℕ) → All (λ z. y < z) ys → x ≤ y → contains ys x ≡ false
below-All x y [] h le = refl
below-All x y (z ∷ ys) h le = ground (arith, below-All x y ys h.1)

below_mono : (x y : ℕ) (ys : List ℕ) → All (λ z. y < z) ys → x < y → All (λ z. x < z) ys
below_mono x y [] h lt = tt
below_mono x y (z ∷ ys) h lt = (omega (arith, h.0), below_mono x y ys h.1 lt)

below-insert_id :
    (y x : ℕ) (ys : List ℕ) → y < x → All (λ z. y < z) ys → All (λ z. y < z) (insert_id x ys)
below-insert_id y x [] lt h = (lt, tt)
below-insert_id y x (z ∷ ys) lt h = ground (arith, below-insert_id y x ys lt h.1)

insert_id-Ascending :
    (x : ℕ) (ys : List ℕ) → contains ys x ≡ false → Ascending ys → Ascending (insert_id x ys)
insert_id-Ascending x [] new h = (tt, tt)
insert_id-Ascending x (y ∷ ys) new h = elim (Bool-cases (leb x y)) [
  | inl e ↦ rw (e, insert_id) ((ground arith, below_mono x y ys h.0 (ground arith)), h)
  | inr e ↦
      rw (e, insert_id)
        (below-insert_id y x ys (ground arith) h.0, insert_id-Ascending x ys (ground arith) h.1)
]

contains-insert_id : (x j : ℕ) (ids : List ℕ) → contains (insert_id x ids) j ≡ contains (x ∷ ids) j
contains-insert_id x j [] = refl
contains-insert_id x j (y ∷ ids) = ground (arith, contains-insert_id x j ids)

contains-sort_ids : (j : ℕ) (ids : List ℕ) → contains (sort_ids ids) j ≡ contains ids j
contains-sort_ids j [] = refl
contains-sort_ids j (x ∷ ids) =
    ground (arith, contains-insert_id x j (sort_ids ids), contains-sort_ids j ids)

contains-keys : {V : Type 0} (j : ℕ) (m : Map V) → contains (keys m) j ≡ has j m
contains-keys j [] = refl
contains-keys j ((i, v) ∷ m) = ground (arith, contains-keys j m)

sorted_keys-Ascending : {V : Type 0} (m : Map V) → IsMap m → Ascending (sort_ids (keys m))
sorted_keys-Ascending [] d = tt
sorted_keys-Ascending ((i, v) ∷ m) d =
    insert_id-Ascending i (sort_ids (keys m))
      (contains-sort_ids i (keys m) ∙ (contains-keys i m ∙ d.0)) (sorted_keys-Ascending m d.1)

-- An ascending list is determined by what it contains.
Ascending-unique :
    (xs ys : List ℕ)
    → Ascending xs
    → Ascending ys
    → ((j : ℕ) → contains xs j ≡ contains ys j)
    → xs ≡ ys
Ascending-unique [] [] h k same = refl
Ascending-unique [] (y ∷ ys) h k same = absurd (let e = same y in ground arith)
Ascending-unique (x ∷ xs) [] h k same = absurd (let e = same x in ground arith)
Ascending-unique (x ∷ xs) (y ∷ ys) h k same =
    let e : x ≡ y = ground (arith, same x, same y, below-All x y ys k.0, below-All y x xs h.0) in
    let rest =
      Ascending-unique xs ys h.1 k.1
        (λ j. ground (arith, same j, e, below-All x x xs h.0, below-All y y ys k.0)) in
    cc

has-of_lookup :
    {V : Type 0} (j : ℕ) (m : Map V) → has j m ≡ elim (lookup j m) [ none ↦ false | some v ↦ true ]
has-of_lookup j [] = refl
has-of_lookup j ((i, v) ∷ m) = ground (arith, has-of_lookup j m)

batches_of_lookup :
    (a b : Map Bytes) (ids : List ℕ)
    → ((j : ℕ) → lookup j a ≡ lookup j b)
    → accepted_batches a ids ≡ accepted_batches b ids
batches_of_lookup a b [] same = refl
batches_of_lookup a b (i ∷ ids) same = ground (arith, same i, batches_of_lookup a b ids same)

-- Nodes that agree on the subset as a map, each holding a proposer at most once, order its
-- batches alike, in whatever order each holds the entries.
pub ordered_batches-deterministic :
    (a b : Map Bytes)
    → IsMap a
    → IsMap b
    → ((j : ℕ) → lookup j a ≡ lookup j b)
    → ordered_batches a ≡ ordered_batches b
unfolding ordered_batches
ordered_batches-deterministic a b da db same =
    let ids : sort_ids (keys a) ≡ sort_ids (keys b) =
      Ascending-unique (sort_ids (keys a)) (sort_ids (keys b)) (sorted_keys-Ascending a da)
        (sorted_keys-Ascending b db)
        (λ j. ground (
          arith,
          contains-sort_ids j (keys a),
          contains-sort_ids j (keys b),
          contains-keys j a,
          contains-keys j b,
          has-of_lookup j a,
          has-of_lookup j b,
          same j,
        )) in
    batches_of_lookup a b (sort_ids (keys a)) same ∙ ap (accepted_batches b) ids

abbrev pub proposers : List AcceptedBatch → List ℕ
proposers [] = []
proposers (b ∷ bs) = b.proposer_id ∷ proposers bs

proposers-accepted : (m : Map Bytes) (ids : List ℕ) → proposers (accepted_batches m ids) ≡ ids
proposers-accepted m [] = refl
proposers-accepted m (i ∷ ids) = ap (◌∷◌ i) (proposers-accepted m ids)

-- Where no proposer stands twice in the subset, the batches ascend strictly by proposer, and the
-- proposers are the keys of the subset.
pub ordered_batches-Ascending :
    (m : Map Bytes)
    → IsMap m
    → Ascending (proposers (ordered_batches m))
      × ((j : ℕ) → contains (proposers (ordered_batches m)) j ≡ has j m)
unfolding ordered_batches
ordered_batches-Ascending m d =
    rw (proposers-accepted m (sort_ids (keys m)))
      (sorted_keys-Ascending m d, λ j. contains-sort_ids j (keys m) ∙ contains-keys j m)
