-- ===== src/Node/Steps/Pooled.antt =====
-- The pool of decryption shares over every order of steps (bloc-node/internal/app/node.go).
use bloc.Prelude.{
  ℕ, ◌≡◌, refl, sym, ap, subst, Bool, true, false, not, ◌&&◌, ◌||◌, Option, ◌==◌, ltb, leb, arith,
  if_cases, All-map, is_nil,
}
use bloc.Prelude.Maps.{Map}
use bloc.Inclusion.{AgreedInclusionSet, MergedEncryptedSet}
use bloc.Node.{
  NodeSettings, Candidates, BatchPlan, Material, SlotState, Node, new_node, new_slot_state,
}
use bloc.Node.Shares.{retained_shares, prune_candidates, add_share, add_wire_share}
use bloc.Node.Shares.Retention.{Entry, Pool, Retained, add_share-Retained, add_wire_share-Retained}
use bloc.Node.Shares.Pruning.{prune-Pool}
use bloc.Node.Lifecycle.{
  is_some, is_completed, terminal, is_prepared, FailureReason, PrepareError, StartError,
  prepare_slot_with_limit, mark_slot_failed, begin_consensus, finish_empty_materialized_set,
}
use bloc.Node.Combine.{
  CombineAttempt, Rendered, store_plan, has_threshold_per_sub_batch, has_budgets, claim_combine,
  record_combine_stats, finish_failed_combine, finish_combine, finish_share_generation,
}
use bloc.Node.Steps.{
  World, Setting, Local, local_submit, local_begin, local_fail, local_empty, local_plan,
  local_own_share, local_wire_share, local_generated, Step, step_local, step_prepare, step_claim,
  step_record, step_finish, step_release, Reach, reach_start, reach_step,
}
use bloc.Node.Steps.Core.{
  Core, core, core_shares, core-add_share, core-add_wire_share, kept-store_pending,
}

-- A plan binds the shares until there is a result.
abbrev pub binds : Core → Bool
binds c = c.planned && not (is_some c.result)

-- A weaker bound, also under another plan.
loosen-Pool :
    (cfg : NodeSettings) (b c : Bool) (plan : BatchPlan) (m : Map Candidates)
    → (c ≡ true → b ≡ true)
    → Pool cfg b plan m
    → Pool cfg c plan m
loosen-Pool cfg b c plan m imp p = record {
  distinct = p.distinct;
  entries = All-map (Entry cfg b plan) (Entry cfg c plan) loosen m p.entries;
  fits = p.fits;
}
  where
    loosen : (x : ℕ × Candidates) → Entry cfg b plan x → Entry cfg c plan x
    loosen x h = record {
      known = h.known;
      one_each = h.one_each;
      unnamed = h.unnamed;
      own = h.own;
      named = λ e. h.named (imp e);
      in_plan = λ e. h.in_plan (imp e);
    }

module _ (cfg : NodeSettings) where
  abbrev PoolAt : Core × Map Candidates → Type 0
  PoolAt x = Pool cfg (binds (x.0)) (x.0.plan) (x.1)

  -- The pool of a slot.
  abbrev pub Pooled : SlotState → Type 0
  Pooled s = PoolAt (core_shares s)

  abbrev PooledNode : Node → Type 0
  PooledNode n = Pooled n.slot

  shares-Pooled :
      (s t : SlotState)
      → core t ≡ core s
      → ((binds (core s) ≡ true → s.planned ≡ true)
          → Retained cfg (binds (core s)) s
          → Retained cfg (binds (core s)) t)
      → Pooled s
      → Pooled t
  shares-Pooled s t same keep p =
      subst (λ b. Pool cfg b t.plan t.share_candidates) (ap binds (sym same))
        (keep (λ h. ground arith) p)

  plan-Pooled :
      (plan : BatchPlan) (material : Material) (s : SlotState)
      → Pooled s
      → Pooled (store_plan cfg plan material s)
  unfolding store_plan
  plan-Pooled plan material s p =
      if_cases Pooled (s.planned || is_some s.failure) _ _ (λ h. p)
        λ h.
          loosen-Pool cfg true (not (is_some s.result)) plan
            (prune_candidates plan s.share_candidates) (λ e. refl)
            (prune-Pool cfg s.plan plan s.share_candidates
              (loosen-Pool cfg (binds (core s)) false s.plan s.share_candidates (λ e. cc) p))

  mark-Pooled :
      (reason : FailureReason) (n : Node) → Pooled n.slot → Pooled (mark_slot_failed reason n).slot
  unfolding mark_slot_failed
  mark-Pooled reason n p =
      if_cases PooledNode (is_some n.slot.result || is_some n.slot.failure) _ _ (λ h. p) (λ h. p)

  begin-Pooled : (n : Node) → Pooled n.slot → Pooled (begin_consensus n).0.slot
  unfolding begin_consensus
  begin-Pooled n p =
      if_cases Keeps n.slot.started _ _ (λ e. p)
        λ e.
          if_cases Keeps (is_some n.slot.failure) _ _ (λ f. p)
            λ f. if_cases Keeps (is_some n.slot.result) _ _ (λ r. p) (λ r. p)
    where
      Keeps : Node × Option StartError → Type 0
      Keeps r = Pooled r.0.slot

  -- With a result nothing is bound.
  done-Pooled : (s : SlotState) → Pooled s → Pool cfg false s.plan s.share_candidates
  done-Pooled s p = loosen-Pool cfg (binds (core s)) false s.plan s.share_candidates (λ e. cc) p

  empty-Pooled :
      (agreed : AgreedInclusionSet) (merged : MergedEncryptedSet) (n : Node)
      → Pooled n.slot
      → Pooled (finish_empty_materialized_set agreed merged n).slot
  unfolding finish_empty_materialized_set
  empty-Pooled agreed merged n p =
      if_cases PooledNode (is_some n.slot.result || is_some n.slot.failure || n.slot.planned) _ _
        (λ h. p) λ h. done-Pooled n.slot p

  claim-Pooled : (s : SlotState) → Pooled s → Pooled (claim_combine cfg s).0
  unfolding claim_combine
  claim-Pooled s p =
      if_cases Keeps
        (is_some s.result
          || is_some s.failure
          || not s.planned
          || not s.share_generation_done
          || s.combine_in_flight)
        _ _ (λ h. p)
        λ h.
          if_cases Keeps
            (not (
              has_threshold_per_sub_batch (retained_shares cfg.node_ids s.share_candidates) s.plan
                cfg.threshold))
            _ _ (λ e. p)
            λ e.
              if_cases Keeps (not (has_budgets s.plan.sub_batches s.combine_attempts_left)) _ _
                (λ f. p)
                λ f.
                  if_cases Keeps (is_nil (retained_shares cfg.node_ids s.share_candidates)) _ _
                    (λ g. p) (λ g. p)
    where
      Keeps : SlotState × Option CombineAttempt → Type 0
      Keeps r = Pooled r.0

  finish-Pooled :
      (a : CombineAttempt) (r : Rendered) (n : Node)
      → Pooled n.slot
      → Pooled (finish_combine a r n).slot
  unfolding finish_combine
  finish-Pooled a r n p =
      if_cases PooledNode (is_some n.slot.result || is_some n.slot.failure) _ _ (λ h. p)
        λ h.
          loosen-Pool cfg (binds (core n.slot)) (n.slot.planned && false) n.slot.plan
            n.slot.share_candidates (λ e. ground arith) p

  new-Pooled : (slot_id limit : ℕ) → Pooled (new_slot_state slot_id limit)
  unfolding new_slot_state
  new-Pooled slot_id limit = record { distinct = tt; entries = tt; fits = omega arith }

  prepare-Pooled :
      (finalized : Bool) (slot_id limit : ℕ) (n : Node)
      → Pooled n.slot
      → Pooled (prepare_slot_with_limit cfg finalized slot_id limit n).0.slot
  unfolding prepare_slot_with_limit
  prepare-Pooled finalized slot_id limit n p =
      if_cases Keeps (ltb cfg.bmax limit) _ _ (λ e. p)
        λ e.
          if_cases Keeps
            (slot_id == n.slot.id
              && is_prepared n.slot.phase
              && n.slot.proposal_limit == 0
              && ltb 0 limit)
            _ _ (λ f. p)
            λ f.
              if_cases Keeps (leb slot_id n.last_slot) _ _ (λ g. p)
                λ g.
                  if_cases Keeps (not (terminal n.slot.phase)) _ _ (λ t. p)
                    λ t.
                      if_cases Keeps (is_completed n.slot.phase && cfg.acs_trace && not finalized) _
                        _ (λ u. p) λ u. new-Pooled slot_id limit
    where
      Keeps : Node × Option PrepareError → Type 0
      Keeps r = Pooled r.0.slot

module _ (e : Setting) where
  Local-Pooled : (n n' : Node) → Local e n n' → Pooled e.cfg n.slot → Pooled e.cfg n'.slot
  unfolding finish_share_generation
  Local-Pooled _ _ (local_submit n item raw_bytes) p =
      subst (PoolAt e.cfg) (sym (kept-store_pending e.cfg e.encode_list item raw_bytes n.slot)) p
  Local-Pooled _ _ (local_begin n) p = begin-Pooled e.cfg n p
  Local-Pooled _ _ (local_fail n reason) p = mark-Pooled e.cfg reason n p
  Local-Pooled _ _ (local_empty n agreed merged) p = empty-Pooled e.cfg agreed merged n p
  Local-Pooled _ _ (local_plan n plan material) p = plan-Pooled e.cfg plan material n.slot p
  Local-Pooled _ _ (local_own_share n d) p =
      shares-Pooled e.cfg n.slot (add_share e.cfg e.curve d n.slot).0
        (core-add_share e.cfg e.curve d n.slot)
        (λ by q. add_share-Retained e.cfg (binds (core n.slot)) e.curve d n.slot by q) p
  Local-Pooled _ _ (local_wire_share n w) p =
      shares-Pooled e.cfg n.slot (add_wire_share e.cfg e.curve w n.slot).0
        (core-add_wire_share e.cfg e.curve w n.slot)
        (λ by q. add_wire_share-Retained e.cfg (binds (core n.slot)) e.curve w n.slot by q) p
  Local-Pooled _ _ (local_generated n) p = p

  Step-Pooled : (w w' : World) → Step e w w' → Pooled e.cfg w.node.slot → Pooled e.cfg w'.node.slot
  unfolding record_combine_stats finish_failed_combine
  Step-Pooled _ _ (step_local n n' fs l) p = Local-Pooled n n' l p
  Step-Pooled _ _ (step_prepare n finalized slot_id limit) p =
      prepare-Pooled e.cfg finalized slot_id limit n p
  Step-Pooled _ _ (step_claim n fs) p = claim-Pooled e.cfg n.slot p
  Step-Pooled _ _ (step_record n before a after) p = p
  Step-Pooled _ _ (step_finish n before a r after) p = finish-Pooled e.cfg a r n p
  Step-Pooled _ _ (step_release n before a after) p = p

  -- At every moment the pool of shares holds at most `n * bmax` of them, one for each known operator
  -- and sub-batch below `bmax`, each under its own ids and of the one batch that its operator named;
  -- while there is a plan and no result, they are all of the plan's batch and of its sub-batches.
  pub reach-Pooled : (first : ℕ) (w : World) → Reach e first w → Pooled e.cfg w.node.slot
  unfolding new_node
  reach-Pooled first _ reach_start = new-Pooled e.cfg first 0
  reach-Pooled first _ (reach_step w w' r s) = Step-Pooled w w' s (reach-Pooled first w r)
