-- ===== src/Node/Shares/Pruning.antt =====
-- The pool once the plan is known (bloc-node/internal/app/node.go, `pruneShareCandidatesLocked`).
use bloc.Prelude.{
  ℕ, ◌+◌, ◌≤◌, ◌<◌, ◌≡◌, refl, true, false, not, ◌||◌, [], ◌∷◌, arith, leb, if_cases, length, All,
}
use bloc.Prelude.Maps.{Map, IsMap, has}
use bloc.Prelude.Bytes.{bytes_eq, bytes_eq_iff}
use bloc.Node.{NodeSettings, RetainedShare, Candidates, BatchPlan}
use bloc.Node.Shares.{count_shares, shares_below, prune_candidates}
use bloc.Node.Shares.Retention.{Own, Entry, Pool}

has-below :
    (m j : ℕ) (rs : Map RetainedShare) → has j rs ≡ false → has j (shares_below m rs) ≡ false
has-below m j [] h = refl
has-below m j ((i, r) ∷ rs) h = ground (arith, has-below m j rs)

below-IsMap : (m : ℕ) (rs : Map RetainedShare) → IsMap rs → IsMap (shares_below m rs)
below-IsMap m [] h = tt
below-IsMap m ((i, r) ∷ rs) h =
    if_cases IsMap (leb m i) _ _ (λ e. below-IsMap m rs h.1)
      λ e. (has-below m i rs h.0, below-IsMap m rs h.1)

All-below {κ} :
    (P : ℕ × RetainedShare → Type κ) (m : ℕ) (rs : Map RetainedShare)
    → All P rs
    → All P (shares_below m rs)
All-below P m [] h = tt
All-below P m ((i, r) ∷ rs) h =
    if_cases (All P) (leb m i) _ _ (λ e. All-below P m rs h.1) λ e. (h.0, All-below P m rs h.1)

below-lt : (m : ℕ) (rs : Map RetainedShare) → All (λ r. r.0 < m) (shares_below m rs)
below-lt m [] = tt
below-lt m ((i, r) ∷ rs) =
    if_cases (All (λ x. x.0 < m)) (leb m i) _ _ (λ e. below-lt m rs)
      λ e. (ground arith, below-lt m rs)

length-below : (m : ℕ) (rs : Map RetainedShare) → length (shares_below m rs) ≤ length rs
length-below m [] = omega arith
length-below m ((i, r) ∷ rs) = ground (arith, length-below m rs)

empty_below : (m : ℕ) (rs : Map RetainedShare) → rs ≡ [] → shares_below m rs ≡ []
empty_below m rs h = rw h

count-prune :
    (plan : BatchPlan) (m : Map Candidates)
    → count_shares (prune_candidates plan m) ≤ count_shares m
unfolding prune_candidates
count-prune plan [] = omega arith
count-prune plan ((i, c) ∷ m) =
    if_cases (λ x. count_shares x ≤ length c.shares + count_shares m)
      (not c.batch_set || not (bytes_eq c.batch_id plan.batch_id)) _ _
      (λ e. omega (arith, count-prune plan m))
      λ e. omega (arith, count-prune plan m, length-below (length plan.sub_batches) c.shares)

has-prune :
    (plan : BatchPlan) (j : ℕ) (m : Map Candidates)
    → has j m ≡ false
    → has j (prune_candidates plan m) ≡ false
unfolding prune_candidates
has-prune plan j [] h = refl
has-prune plan j ((i, c) ∷ m) h = ground (arith, has-prune plan j m)

prune-IsMap : (plan : BatchPlan) (m : Map Candidates) → IsMap m → IsMap (prune_candidates plan m)
unfolding prune_candidates
prune-IsMap plan [] h = tt
prune-IsMap plan ((i, c) ∷ m) h =
    if_cases IsMap (not c.batch_set || not (bytes_eq c.batch_id plan.batch_id)) _ _
      (λ e. prune-IsMap plan m h.1) λ e. (has-prune plan i m h.0, prune-IsMap plan m h.1)

module _ (cfg : NodeSettings) (old plan : BatchPlan) where
  pruned-Entry :
      (i : ℕ) (c : Candidates)
      → (not c.batch_set || not (bytes_eq c.batch_id plan.batch_id)) ≡ false
      → Entry cfg false old (i, c)
      → Entry cfg true plan
          (i, record c { shares = shares_below (length plan.sub_batches) c.shares })
  pruned-Entry i c h e = record {
    known = e.known;
    one_each = below-IsMap (length plan.sub_batches) c.shares e.one_each;
    unnamed = λ u. empty_below (length plan.sub_batches) c.shares (e.unnamed u);
    own = All-below (Own cfg i c.batch_id) (length plan.sub_batches) c.shares e.own;
    named = λ p s. (bytes_eq_iff c.batch_id plan.batch_id).0 (ground arith);
    in_plan = λ p. below-lt (length plan.sub_batches) c.shares;
  }

  prune-entries :
      (m : Map Candidates)
      → All (Entry cfg false old) m
      → All (Entry cfg true plan) (prune_candidates plan m)
  unfolding prune_candidates
  prune-entries [] h = tt
  prune-entries ((i, c) ∷ m) h =
      if_cases (All (Entry cfg true plan))
        (not c.batch_set || not (bytes_eq c.batch_id plan.batch_id)) _ _ (λ e. prune-entries m h.1)
        λ e. (pruned-Entry i c e h.0, prune-entries m h.1)

  pub prune-Pool :
      (m : Map Candidates) → Pool cfg false old m → Pool cfg true plan (prune_candidates plan m)
  prune-Pool m p = record {
    distinct = prune-IsMap plan m p.distinct;
    entries = prune-entries m p.entries;
    fits = omega (arith, p.fits, count-prune plan m);
  }
