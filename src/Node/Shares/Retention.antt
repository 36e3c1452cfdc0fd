-- ===== src/Node/Shares/Retention.antt =====
-- What the pool of decryption shares holds (bloc-node/internal/app/node.go: `addShare` and
-- `pruneShareCandidatesLocked`).
use bloc.Prelude.{
  ℕ, ◌+◌, ◌*◌, ◌≤◌, ◌<◌, ◌≡◌, refl, sym, subst, ap, Bool, true, false, not, ◌&&◌, Option, none,
  some, [], ◌∷◌, arith, ◌==◌, ltb, leb, if_cases, length, contains, All, Bool-cases, Option-cases,
  inl, inr,
}
use bloc.Prelude.Maps.{
  Map, IsMap, lookup, insert, insert-IsMap, All-insert, All-lookup, lookup-insert_self,
}
use bloc.Prelude.Bytes.{Bytes, bytes_eq, bytes_eq_iff}
use bloc.Node.{NodeSettings, DecryptionShare, RetainedShare, Candidates, BatchPlan, SlotState}
use bloc.Node.Shares.{
  Curve, WireShare, decoded_share, RejectReason, no_candidates, candidates_of, count_shares,
  retained_share_count, store_candidates, admit_share, check_candidates, retain_share, add_share,
  add_wire_share,
}

-- A share stands under its own ids, with the batch that its operator named.
abbrev pub Own : NodeSettings → ℕ → Bytes → ℕ × RetainedShare → Type 0
Own cfg id batch e =
    (e.1.value.operator_id ≡ id)
    × (e.1.value.batch_id ≡ batch)
    × (e.1.value.sub_batch_id ≡ e.0)
    × (e.0 < cfg.bmax)

pub record Entry (cfg : NodeSettings) (planned : Bool) (plan : BatchPlan) (e : ℕ × Candidates)
    : Type 0 where
  pub known : contains cfg.node_ids e.0 ≡ true
  pub one_each : IsMap e.1.shares
  pub unnamed : e.1.batch_set ≡ false → e.1.shares ≡ []
  pub own : All (Own cfg e.0 e.1.batch_id) e.1.shares
  pub named : planned ≡ true → e.1.batch_set ≡ true → e.1.batch_id ≡ plan.batch_id
  pub in_plan : planned ≡ true → All (λ r. r.0 < length plan.sub_batches) e.1.shares

pub record Pool (cfg : NodeSettings) (planned : Bool) (plan : BatchPlan) (m : Map Candidates)
    : Type 0 where
  pub distinct : IsMap m
  pub entries : All (Entry cfg planned plan) m
  pub fits : count_shares m ≤ cfg.n * cfg.bmax

-- Once a plan binds the pool, its entries are of the plan's batch and sub-batches.
abbrev pub Retained : NodeSettings → Bool → SlotState → Type 0
Retained cfg bound s = Pool cfg bound s.plan s.share_candidates

abbrev shares_at : ℕ → Map Candidates → ℕ
shares_at id m = elim (lookup id m) [ none ↦ 0 | some c ↦ length c.shares ]

count-insert :
    (id : ℕ) (c : Candidates) (m : Map Candidates)
    → count_shares (insert id c m) + shares_at id m ≡ count_shares m + length c.shares
count-insert id c [] = omega arith
count-insert id c ((j, d) ∷ m) = elim (Bool-cases (j == id)) [
  | inl e ↦ ground arith
  | inr e ↦ ground (arith, count-insert id c m)
]

shares_at-candidates :
    (id : ℕ) (s : SlotState) → shares_at id s.share_candidates ≡ length (candidates_of id s).shares
shares_at-candidates id s = elim (Option-cases (lookup id s.share_candidates)) [
  | inl e ↦ rw (e, shares_at, candidates_of) refl
  | inr (c, e) ↦ rw (e, shares_at, candidates_of) refl
]

module _ (cfg : NodeSettings) (bound : Bool) where
  -- Other candidates of as many shares take the old one's place.
  stored-Pool :
      (id : ℕ) (c : Candidates) (s : SlotState)
      → Retained cfg bound s
      → Entry cfg bound s.plan (id, c)
      → length c.shares ≡ length (candidates_of id s).shares
      → Retained cfg bound (store_candidates id c s)
  stored-Pool id c s p e same = record {
    distinct = insert-IsMap id c s.share_candidates p.distinct;
    entries = All-insert (Entry cfg bound s.plan) id c s.share_candidates p.entries e;
    fits = omega (arith, p.fits, count-insert id c s.share_candidates, shares_at-candidates id s);
  }

  none-Entry :
      (id : ℕ) (planned : Bool) (plan : BatchPlan)
      → contains cfg.node_ids id ≡ true
      → Entry cfg planned plan (id, no_candidates)
  none-Entry id planned plan k = record {
    known = k;
    one_each = tt;
    unnamed = λ e. refl;
    own = tt;
    named = λ e f. cc;
    in_plan = λ e. tt;
  }

  candidates-Entry :
      (id : ℕ) (s : SlotState)
      → contains cfg.node_ids id ≡ true
      → Retained cfg bound s
      → Entry cfg bound s.plan (id, candidates_of id s)
  candidates-Entry id s k p = elim (Option-cases (lookup id s.share_candidates)) [
    | inl e ↦ rw (e, candidates_of) (none-Entry id bound s.plan k)
    | inr (c, e) ↦
        rw (e, candidates_of)
          (All-lookup (Entry cfg bound s.plan) id s.share_candidates c p.entries e)
  ]

  -- What the guards in front of the admission leave.
  record Fit (d : DecryptionShare) (c : Candidates) (s : SlotState) : Type 0 where
    known : contains cfg.node_ids d.operator_id ≡ true
    below : d.sub_batch_id < cfg.bmax
    same_batch : c.batch_set ≡ true → c.batch_id ≡ d.batch_id
    of_plan : bound ≡ true → d.batch_id ≡ s.plan.batch_id
    in_plan : bound ≡ true → d.sub_batch_id < length s.plan.sub_batches

  named-Own :
      (id : ℕ) (b : Bytes) (c : Candidates)
      → (c.batch_set ≡ true → c.batch_id ≡ b)
      → (c.batch_set ≡ false → c.shares ≡ [])
      → All (Own cfg id c.batch_id) c.shares
      → All (Own cfg id b) c.shares
  named-Own id b c same empty own = elim (Bool-cases c.batch_set) [
    | inl set ↦ subst (λ x. All (Own cfg id x) c.shares) (same set) own
    | inr unset ↦ subst (λ x. All (Own cfg id b) x) (sym (empty unset)) tt
  ]

  named-Entry :
      (d : DecryptionShare) (c : Candidates) (s : SlotState)
      → Fit d c s
      → Entry cfg bound s.plan (d.operator_id, c)
      → Entry cfg bound s.plan (d.operator_id, record c { batch_id = d.batch_id; batch_set = true })
  named-Entry d c s f e = record {
    known = e.known;
    one_each = e.one_each;
    unnamed = λ h. cc;
    own = named-Own d.operator_id d.batch_id c f.same_batch e.unnamed e.own;
    named = λ h k. f.of_plan h;
    in_plan = e.in_plan;
  }

  admitted-Entry :
      (d : DecryptionShare) (encoded : Bytes) (c : Candidates) (s : SlotState)
      → Fit d c s
      → Entry cfg bound s.plan (d.operator_id, c)
      → Entry cfg bound s.plan (
        d.operator_id,
        record c {
          batch_id = d.batch_id;
          batch_set = true;
          shares = insert d.sub_batch_id (record { value = d; encoded = encoded }) c.shares;
        },
      )
  admitted-Entry d encoded c s f e =
      let e' = named-Entry d c s f e in
      let r : RetainedShare = record { value = d; encoded = encoded } in
      record {
        known = e.known;
        one_each = insert-IsMap d.sub_batch_id r c.shares e.one_each;
        unnamed = λ h. cc;
        own =
            All-insert (Own cfg d.operator_id d.batch_id) d.sub_batch_id r c.shares e'.own
              (refl, refl, refl, f.below);
        named = e'.named;
        in_plan = λ h.
            All-insert (λ x. x.0 < length s.plan.sub_batches) d.sub_batch_id r c.shares
              (e.in_plan h) (f.in_plan h);
      }

  -- A pair of a state and an answer.
  abbrev Keeps : SlotState × Option RejectReason → Type 0
  Keeps r = Retained cfg bound r.0

  admit-Retained :
      (d : DecryptionShare) (encoded : Bytes) (c : Candidates) (s : SlotState)
      → Fit d c s
      → c ≡ candidates_of d.operator_id s
      → Retained cfg bound s
      → Keeps (admit_share cfg d encoded c s)
  unfolding admit_share
  admit-Retained d encoded c s f at p =
      let e : Entry cfg bound s.plan (d.operator_id, c) =
        subst (λ x. Entry cfg bound s.plan (d.operator_id, x)) (sym at)
          (candidates-Entry d.operator_id s f.known p) in
      let r : RetainedShare = record { value = d; encoded = encoded } in
      let kept : Candidates = record c {
        batch_id = d.batch_id;
        batch_set = true;
        shares = insert d.sub_batch_id r c.shares;
      } in
      if_cases Keeps
        (ltb (cfg.n * cfg.bmax) (retained_share_count (store_candidates d.operator_id kept s))) _ _
        (λ full.
          stored-Pool d.operator_id (record c { batch_id = d.batch_id; batch_set = true }) s p
            (named-Entry d c s f e) (ap (λ x. length x.shares) at))
        λ room. record {
          distinct = insert-IsMap d.operator_id kept s.share_candidates p.distinct;
          entries =
              All-insert (Entry cfg bound s.plan) d.operator_id kept s.share_candidates p.entries
                (admitted-Entry d encoded c s f e);
          fits = ground arith;
        }

  check-Retained :
      (d : DecryptionShare) (encoded : Bytes) (c : Candidates) (s : SlotState)
      → (c.batch_set ≡ true → c.batch_id ≡ d.batch_id → Fit d c s)
      → (c.batch_set ≡ false → Fit d c s)
      → c ≡ candidates_of d.operator_id s
      → Retained cfg bound s
      → Keeps (check_candidates cfg d encoded c s)
  unfolding check_candidates
  check-Retained d encoded c s set unset at p =
      if_cases Keeps (c.batch_set && not (bytes_eq c.batch_id d.batch_id)) _ _ (λ other. p)
        λ same. elim (Option-cases (lookup d.sub_batch_id c.shares)) [
          | inl e ↦ rw (e, check_candidates) (admit-Retained d encoded c s (fit same) at p)
          | inr (r, e) ↦
              rw (e, check_candidates)
                (if_cases Keeps (bytes_eq r.encoded encoded) _ _ (λ q. p) (λ q. p))
        ]
    where
      fit : (c.batch_set && not (bytes_eq c.batch_id d.batch_id)) ≡ false → Fit d c s
      fit same = elim (Bool-cases c.batch_set) [
        | inl e ↦ set e ((bytes_eq_iff c.batch_id d.batch_id).0 (ground arith))
        | inr e ↦ unset e
      ]

  candidates_of-store :
      (id : ℕ) (c : Candidates) (s : SlotState) → candidates_of id (store_candidates id c s) ≡ c
  candidates_of-store id c s = rw (lookup-insert_self id c s.share_candidates, candidates_of) refl

  retain-Retained :
      (d : DecryptionShare) (encoded : Bytes) (s : SlotState)
      → contains cfg.node_ids d.operator_id ≡ true
      → d.sub_batch_id < cfg.bmax
      → (bound ≡ true → s.planned ≡ true)
      → Retained cfg bound s
      → Keeps (retain_share cfg d encoded s)
  unfolding retain_share
  retain-Retained d encoded s known below by p =
      if_cases Keeps (s.planned && not (bytes_eq d.batch_id s.plan.batch_id)) _ _ (λ other. p)
        λ of_plan.
          if_cases Keeps (s.planned && leb (length s.plan.sub_batches) d.sub_batch_id) _ _
            (λ out. p)
            λ in_plan.
              check-Retained d encoded c (store_candidates d.operator_id c s)
                (λ set same. fit of_plan in_plan (λ _. same))
                (λ unset. fit of_plan in_plan (λ set. cc))
                (sym (candidates_of-store d.operator_id c s))
                (stored-Pool d.operator_id c s p (candidates-Entry d.operator_id s known p) refl)
    where
      c : Candidates
      c = candidates_of d.operator_id s

      fit :
          (s.planned && not (bytes_eq d.batch_id s.plan.batch_id)) ≡ false
          → (s.planned && leb (length s.plan.sub_batches) d.sub_batch_id) ≡ false
          → (c.batch_set ≡ true → c.batch_id ≡ d.batch_id)
          → Fit d c (store_candidates d.operator_id c s)
      fit of_plan in_plan same = record {
        known = known;
        below = below;
        same_batch = same;
        of_plan = λ h. ground (arith, by h, bytes_eq_iff d.batch_id s.plan.batch_id);
        in_plan = λ h. ground (arith, by h);
      }

  module _ (curve : Curve) where
    pub add_share-Retained :
        (d : DecryptionShare) (s : SlotState)
        → (bound ≡ true → s.planned ≡ true)
        → Retained cfg bound s
        → Keeps (add_share cfg curve d s)
    unfolding add_share
    add_share-Retained d s by p =
        if_cases Keeps (not (contains cfg.node_ids d.operator_id)) _ _ (λ h. p)
          λ known. elim (Option-cases d.share) [
            | inl e ↦ rw (e, add_share) p
            | inr (q, e) ↦
                rw (e, add_share)
                  (elim (Option-cases q.v) [
                    | inl f ↦ rw f p
                    | inr (v, f) ↦ rw f (
                        if_cases Keeps (not (q.i == d.operator_id)) _ _ (λ h. p)
                          λ mine.
                            if_cases Keeps (leb cfg.bmax d.sub_batch_id) _ _ (λ h. p)
                              λ below. elim (Option-cases (curve.marshal_point v)) [
                                | inl g ↦ rw g p
                                | inr (encoded, g) ↦
                                    rw g (
                                      retain-Retained d encoded s (ground arith) (ground arith) by
                                        p)
                              ])
                  ])
          ]

    pub add_wire_share-Retained :
        (w : WireShare) (s : SlotState)
        → (bound ≡ true → s.planned ≡ true)
        → Retained cfg bound s
        → Keeps (add_wire_share cfg curve w s)
    unfolding add_wire_share
    add_wire_share-Retained w s by p =
        if_cases Keeps (not (contains cfg.node_ids w.operator_id)) _ _ (λ h. p)
          λ known.
            if_cases Keeps (not (length w.batch_id_hex == 64)) _ _ (λ h. p)
              λ sized. elim (Option-cases (curve.decode_hex w.batch_id_hex)) [
                | inl e ↦ rw (e, add_wire_share) p
                | inr (batch_id, e) ↦
                    rw (e, add_wire_share)
                      (if_cases Keeps (leb cfg.bmax w.sub_batch_id) _ _ (λ h. p)
                        λ below.
                          if_cases Keeps (not (length w.point_hex == curve.point_size * 2)) _ _
                            (λ h. p)
                            λ fits. elim (Option-cases (curve.unmarshal_point_hex w.point_hex)) [
                              | inl f ↦ rw f p
                              | inr (v, f) ↦
                                  rw f (add_share-Retained (decoded_share w batch_id v) s by p)
                            ])
              ]
