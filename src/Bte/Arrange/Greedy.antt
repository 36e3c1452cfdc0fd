-- ===== src/Bte/Arrange/Greedy.antt =====
-- The collision-free arrangement always finds room (bte/btd-impl-main/be/cluster.go:
-- `arrangeCollisionFree`).
use bloc.Prelude.{
  ℕ, suc, ◌+◌, ◌%◌, ◌≤◌, ◌<◌, ◌≡◌, refl, ◌∙◌, Bool, true, some, List, [], ◌∷◌, arith, length,
  count_if,
}
use native.Mathlib.Nat.{mod-lt}
use bloc.Bte.{BatchItem}
use bloc.Bte.Arrange.{
  index_of, is_index, count_index, validate_sub_batch_indices, append_at, arrange_collision_free,
  round_robin,
}
use bloc.Bte.Arrange.Place.{
  count_all, lacks_at-lt, length-append_at, count_all-append_at, validate-append_at, select-lacks,
  select-found,
}

module _ {El : Type 0} where
  -- The items went into the sub-batches, and no index twice into one.
  pub record Placed (ts : List (BatchItem El)) (before after : List (List (BatchItem El)))
      : Type 0 where
    pub same_number : length after ≡ length before
    pub counts : (p : BatchItem El → Bool) → count_all p after ≡ count_all p before + count_if p ts

  pub greedy-Placed :
      (ts : List (BatchItem El)) (ss : List (List (BatchItem El)))
      → validate_sub_batch_indices ss ≡ true
      → ((j : ℕ) → count_all (is_index j) ss + count_index j ts ≤ length ss)
      → (out : List (List (BatchItem El))) × (arrange_collision_free ts ss ≡ some out)
        × (validate_sub_batch_indices out ≡ true)
        × Placed ts ss out
  unfolding arrange_collision_free
  greedy-Placed [] ss valid room =
      (ss, refl, valid, record { same_number = refl; counts = λ p. omega arith })
  greedy-Placed (t ∷ ts) ss valid room =
      let (b, found) = select-found (index_of t) 0 ss own_room in
      let lacking = select-lacks (index_of t) ss b found in
      let inside = lacks_at-lt b.0 (index_of t) ss lacking in
      let next = append_at b.0 t ss in
      let (out, e, v, p) =
        greedy-Placed ts next (validate-append_at b.0 t ss valid lacking) (still b.0 inside) in
      (
        out,
        rw (found, arrange_collision_free) e,
        v,
        record {
          same_number = p.same_number ∙ length-append_at b.0 t ss;
          counts = λ q. ground (arith, p.counts q, count_all-append_at q b.0 t ss inside);
        },
      )
    where
      own_room : count_all (is_index (index_of t)) ss < length ss
      own_room = ground (arith, room (index_of t))

      still :
          (i : ℕ)
          → i < length ss
          → (j : ℕ)
          → count_all (is_index j) (append_at i t ss) + count_index j ts ≤ length (append_at i t ss)
      still i h j =
          ground (arith, room j, count_all-append_at (is_index j) i t ss h, length-append_at i t ss)

  pub dealt-Placed :
      (alpha i : ℕ) (ts : List (BatchItem El)) (ss : List (List (BatchItem El)))
      → 0 < alpha
      → length ss ≡ alpha
      → Placed ts ss (round_robin alpha i ts ss)
  unfolding round_robin
  dealt-Placed alpha i [] ss h l = record { same_number = refl; counts = λ p. omega arith }
  dealt-Placed alpha i (t ∷ ts) ss h l =
      let inside : i % alpha < length ss = omega (arith, mod-lt i h, l) in
      let p =
        dealt-Placed alpha (suc i) ts (append_at (i % alpha) t ss) h
          (length-append_at (i % alpha) t ss ∙ l) in
      record {
        same_number = p.same_number ∙ length-append_at (i % alpha) t ss;
        counts = λ q. ground (arith, p.counts q, count_all-append_at q (i % alpha) t ss inside);
      }
