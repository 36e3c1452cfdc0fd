-- ===== src/Node/Steps/Phases.antt =====
-- The phases that a node's slots go through, without their contents
-- (bloc-node/internal/app/node.go, types.go: slotPhase).
use bloc.Prelude.{
  ℕ, suc, ◌<◌, ◌≡◌, refl, sym, subst, Bool, true, false, not, ◌&&◌, ◌||◌, Option, ◌==◌, ltb, leb,
  arith, if_cases, is_nil,
}
use bloc.Inclusion.{AgreedInclusionSet, MergedEncryptedSet}
use bloc.Node.{
  NodeSettings, BatchPlan, Material, SlotPhase, prepared, running, completed, failed, SlotState,
  Node, new_node, new_slot_state,
}
use bloc.Node.Shares.{retained_shares, add_share, add_wire_share}
use bloc.Node.Lifecycle.{
  is_some, is_completed, terminal, is_prepared, FailureReason, PrepareError, StartError,
  prepare_slot_with_limit, mark_slot_failed, begin_consensus, store_pending,
  finish_empty_materialized_set,
}
use bloc.Node.Combine.{
  CombineAttempt, Rendered, store_plan, has_threshold_per_sub_batch, has_budgets, claim_combine,
  record_combine_stats, finish_failed_combine, finish_combine, finish_share_generation,
}
use bloc.Node.Steps.{
  World, with_slot, Setting, Local, local_submit, local_begin, local_fail, local_empty, local_plan,
  local_own_share, local_wire_share, local_generated, Step, step_local, step_prepare, step_claim,
  step_record, step_finish, step_release, Reach, reach_start, reach_step,
}
use bloc.Node.Steps.Core.{core, core-add_share, core-add_wire_share, core-store_pending}
use bloc.Node.Steps.Sound.{is_failed, Outcome, Sound, reach-Sound}

-- One slot after the other, with how many of them ended well and how many did not.
pub record Service : Type 0 where
  pub slot : ℕ
  pub last : ℕ
  pub phase : SlotPhase
  pub done : ℕ
  pub lost : ℕ

-- What a service may do.
pub data Move : Service → Service → Type 0 where
  stay : (v : Service) → Move v v
  start : (v : Service) → terminal (v.phase) ≡ false → Move v (record v { phase = running })
  end_well :
      (v : Service)
      → terminal (v.phase) ≡ false
      → Move v (record v { phase = completed; done = suc (v.done) })
  end_badly :
      (v : Service)
      → terminal (v.phase) ≡ false
      → Move v (record v { phase = failed; lost = suc (v.lost) })
  renew :
      (v : Service) (slot : ℕ)
      → terminal (v.phase) ≡ true
      → v.last < slot
      → Move v (record v { slot = slot; last = slot; phase = prepared })

pub data Moves (first : Service) : Service → Type 0 where
  no_move : Moves first first
  more : (v v' : Service) → Moves first v → Move v v' → Moves first v'

abbrev pub service_of : ℕ → Service
service_of first = record { slot = first; last = first; phase = prepared; done = 0; lost = 0 }

-- What of a node is visible in the abstract machine.
abbrev pub view : Node → Service
view n = record {
  slot = n.slot.id;
  last = n.last_slot;
  phase = n.slot.phase;
  done = n.completed_slots;
  lost = n.failed_slots;
}

-- The phase is not final without an outcome.
open-phase : (p : SlotPhase) → is_completed p ≡ false → is_failed p ≡ false → terminal p ≡ false
open-phase prepared h k = refl
open-phase running h k = refl
open-phase completed h k = cc
open-phase failed h k = cc

open-Outcome :
    (s : SlotState) (k : ℕ)
    → Outcome (core s) k
    → (is_some s.result || is_some s.failure) ≡ false
    → terminal s.phase ≡ false
open-Outcome s k h e =
    open-phase s.phase (ground (arith, h.with_result)) (ground (arith, h.with_failure))

abbrev Goes : Node → Node → Type 0
Goes n m = Move (view n) (view m)

-- What keeps the core keeps the view.
core-Goes : (n : Node) (s : SlotState) → core s ≡ core n.slot → Goes n (with_slot s n)
core-Goes n s same =
    subst (λ c. Move (view n) (record (view n) { slot = c.id; phase = c.phase })) (sym same)
      (stay (view n))

mark-Goes :
    (reason : FailureReason) (n : Node) (k : ℕ)
    → Outcome (core n.slot) k
    → Goes n (mark_slot_failed reason n)
unfolding mark_slot_failed
mark-Goes reason n k h =
    if_cases (Goes n) (is_some n.slot.result || is_some n.slot.failure) _ _ (λ e. stay (view n))
      λ e. end_badly (view n) (open-Outcome n.slot k h e)

begin-Goes : (n : Node) (k : ℕ) → Outcome (core n.slot) k → Goes n (begin_consensus n).0
unfolding begin_consensus
begin-Goes n k h =
    if_cases Keeps n.slot.started _ _ (λ e. stay (view n))
      λ e.
        if_cases Keeps (is_some n.slot.failure) _ _ (λ f. stay (view n))
          λ f.
            if_cases Keeps (is_some n.slot.result) _ _ (λ r. stay (view n))
              λ r. start (view n) (open-Outcome n.slot k h (ground arith))
  where
    Keeps : Node × Option StartError → Type 0
    Keeps r = Goes n r.0

empty-Goes :
    (agreed : AgreedInclusionSet) (merged : MergedEncryptedSet) (n : Node) (k : ℕ)
    → Outcome (core n.slot) k
    → Goes n (finish_empty_materialized_set agreed merged n)
unfolding finish_empty_materialized_set
empty-Goes agreed merged n k h =
    if_cases (Goes n) (is_some n.slot.result || is_some n.slot.failure || n.slot.planned) _ _
      (λ e. stay (view n)) λ e. end_well (view n) (open-Outcome n.slot k h (ground arith))

plan-Goes :
    (cfg : NodeSettings) (plan : BatchPlan) (material : Material) (n : Node)
    → Goes n (with_slot (store_plan cfg plan material n.slot) n)
unfolding store_plan
plan-Goes cfg plan material n =
    if_cases (λ s. Goes n (with_slot s n)) (n.slot.planned || is_some n.slot.failure) _ _
      (λ e. stay (view n)) (λ e. stay (view n))

claim-Goes : (cfg : NodeSettings) (n : Node) → Goes n (with_slot (claim_combine cfg n.slot).0 n)
unfolding claim_combine
claim-Goes cfg n =
    if_cases Keeps
      (is_some s.result
        || is_some s.failure
        || not s.planned
        || not s.share_generation_done
        || s.combine_in_flight)
      _ _ (λ h. stay (view n))
      λ h.
        if_cases Keeps
          (not (
            has_threshold_per_sub_batch (retained_shares cfg.node_ids s.share_candidates) s.plan
              cfg.threshold))
          _ _ (λ e. stay (view n))
          λ e.
            if_cases Keeps (not (has_budgets s.plan.sub_batches s.combine_attempts_left)) _ _
              (λ f. stay (view n))
              λ f.
                if_cases Keeps (is_nil (retained_shares cfg.node_ids s.share_candidates)) _ _
                  (λ g. stay (view n)) (λ g. stay (view n))
  where
    s : SlotState
    s = n.slot

    Keeps : SlotState × Option CombineAttempt → Type 0
    Keeps r = Goes n (with_slot r.0 n)

finish-Goes :
    (a : CombineAttempt) (r : Rendered) (n : Node) (k : ℕ)
    → Outcome (core n.slot) k
    → Goes n (finish_combine a r n)
unfolding finish_combine
finish-Goes a r n k h =
    if_cases (Goes n) (is_some n.slot.result || is_some n.slot.failure) _ _ (λ e. stay (view n))
      λ e. end_well (view n) (open-Outcome n.slot k h e)

prepare-Goes :
    (cfg : NodeSettings) (finalized : Bool) (slot_id limit : ℕ) (n : Node)
    → Goes n (prepare_slot_with_limit cfg finalized slot_id limit n).0
unfolding prepare_slot_with_limit new_slot_state
prepare-Goes cfg finalized slot_id limit n =
    if_cases Keeps (ltb cfg.bmax limit) _ _ (λ e. stay (view n))
      λ e.
        if_cases Keeps
          (slot_id == n.slot.id
            && is_prepared n.slot.phase
            && n.slot.proposal_limit == 0
            && ltb 0 limit)
          _ _ (λ f. stay (view n))
          λ f.
            if_cases Keeps (leb slot_id n.last_slot) _ _ (λ g. stay (view n))
              λ g.
                if_cases Keeps (not (terminal n.slot.phase)) _ _ (λ t. stay (view n))
                  λ t.
                    if_cases Keeps (is_completed n.slot.phase && cfg.acs_trace && not finalized) _ _
                      (λ u. stay (view n)) λ u. renew (view n) slot_id (ground arith) (ground arith)
  where
    Keeps : Node × Option PrepareError → Type 0
    Keeps r = Goes n r.0

module _ (e : Setting) where
  Local-Goes : (n n' : Node) (k : ℕ) → Local e n n' → Outcome (core n.slot) k → Goes n n'
  unfolding finish_share_generation
  Local-Goes _ _ k (local_submit n item raw_bytes) h =
      core-Goes n (store_pending e.cfg e.encode_list item raw_bytes n.slot).0
        (core-store_pending e.cfg e.encode_list item raw_bytes n.slot)
  Local-Goes _ _ k (local_begin n) h = begin-Goes n k h
  Local-Goes _ _ k (local_fail n reason) h = mark-Goes reason n k h
  Local-Goes _ _ k (local_empty n agreed merged) h = empty-Goes agreed merged n k h
  Local-Goes _ _ k (local_plan n plan material) h = plan-Goes e.cfg plan material n
  Local-Goes _ _ k (local_own_share n d) h =
      core-Goes n (add_share e.cfg e.curve d n.slot).0 (core-add_share e.cfg e.curve d n.slot)
  Local-Goes _ _ k (local_wire_share n w) h =
      core-Goes n (add_wire_share e.cfg e.curve w n.slot).0
        (core-add_wire_share e.cfg e.curve w n.slot)
  Local-Goes _ _ k (local_generated n) h = stay (view n)

  pub Step-Goes : (w w' : World) → Step e w w' → Sound w → Goes w.node w'.node
  unfolding record_combine_stats finish_failed_combine
  Step-Goes _ _ (step_local n n' fs l) h = Local-Goes n n' _ l h
  Step-Goes _ _ (step_prepare n finalized slot_id limit) h =
      prepare-Goes e.cfg finalized slot_id limit n
  Step-Goes _ _ (step_claim n fs) h = claim-Goes e.cfg n
  Step-Goes _ _ (step_record n before a after) h = stay (view n)
  Step-Goes _ _ (step_finish n before a r after) h = finish-Goes a r n _ h
  Step-Goes _ _ (step_release n before a after) h = stay (view n)

  -- Whatever a node does, its view moves as the abstract machine may.
  pub reach-Moves :
      (first : ℕ) (w : World) → Reach e first w → Moves (service_of first) (view w.node)
  unfolding new_node new_slot_state
  reach-Moves first _ reach_start = no_move
  reach-Moves first _ (reach_step w w' r s) =
      more (view w.node) (view w'.node) (reach-Moves first w r)
        (Step-Goes w w' s (reach-Sound e first w r))
