-- ===== src/Node/Steps/Sound.antt =====
-- The outcome of a slot and its combinations, over every order of steps
-- (bloc-node/internal/app/node.go).
use bloc.Prelude.{
  ℕ, suc, ◌≡◌, refl, sym, ap, subst, ◌∙◌, Bool, true, false, not, ◌&&◌, ◌||◌, Option, List, [], ◌∷◌,
  ◌++◌, ◌==◌, ltb, leb, arith, if◌then◌else◌, if_cases, length, length-append, is_nil,
}
use bloc.Inclusion.{AgreedInclusionSet, MergedEncryptedSet}
use bloc.Node.{
  NodeSettings, DecryptionShare, BatchPlan, Material, SlotPhase, prepared, running, completed,
  failed, SlotState, Node, new_node, new_slot_state,
}
use bloc.Node.Shares.{retained_shares}
use bloc.Node.Lifecycle.{
  is_some, is_completed, terminal, is_prepared, FailureReason, PrepareError, StartError,
  prepare_slot_with_limit, mark_slot_failed, begin_consensus, finish_empty_materialized_set,
}
use bloc.Node.Combine.{
  CombineAttempt, Rendered, store_plan, attempt_of, has_threshold_per_sub_batch, has_budgets,
  claim_combine, record_combine_stats, finish_failed_combine, finish_combine,
  finish_share_generation,
}
use bloc.Node.Steps.{
  Flight, combining, combined, missed, landing, claimed, World, with_slot, Setting, Local,
  local_submit, local_begin, local_fail, local_empty, local_plan, local_own_share, local_wire_share,
  local_generated, Step, step_local, step_prepare, step_claim, step_record, step_finish,
  step_release, Reach, reach_start, reach_step,
}
use bloc.Node.Steps.Core.{Core, core, core-add_share, core-add_wire_share, core-store_pending}

abbrev pub is_failed : SlotPhase → Bool
is_failed prepared = false
is_failed running = false
is_failed completed = false
is_failed failed = true

-- How many combinations are marked.
abbrev pub in_air : Core → ℕ
in_air c = if c.combine_in_flight then 1 else 0

-- The phase tells the outcome; there is one flight when one is marked, and none otherwise.
pub record Outcome (c : Core) (flights : ℕ) : Type 0 where
  pub with_result : is_completed c.phase ≡ is_some c.result
  pub with_failure : is_failed c.phase ≡ is_some c.failure
  pub single : flights ≡ in_air c

abbrev pub Sound : World → Type 0
Sound w = Outcome (core (w.node.slot)) (length w.flights)

pub length-middle :
    (before : List Flight) (f : Flight) (after : List Flight)
    → length (before ++ f ∷ after) ≡ suc (length (before ++ after))
length-middle [] f after = refl
length-middle (g ∷ before) f after = ap suc (length-middle before f after)

abbrev Holds : ℕ → Node → Type 0
Holds k n = Outcome (core n.slot) k

mark-Outcome :
    (reason : FailureReason) (n : Node) (k : ℕ) → Holds k n → Holds k (mark_slot_failed reason n)
unfolding mark_slot_failed
mark-Outcome reason n k h =
    if_cases (Holds k) (is_some n.slot.result || is_some n.slot.failure) _ _ (λ e. h)
      λ e. record { with_result = ground arith; with_failure = refl; single = h.single }

begin-Outcome : (n : Node) (k : ℕ) → Holds k n → Holds k (begin_consensus n).0
unfolding begin_consensus
begin-Outcome n k h =
    if_cases Keeps n.slot.started _ _ (λ e. h)
      λ e.
        if_cases Keeps (is_some n.slot.failure) _ _ (λ f. same)
          λ f.
            if_cases Keeps (is_some n.slot.result) _ _ (λ r. same)
              λ r. record { with_result = sym r; with_failure = sym f; single = h.single }
  where
    Keeps : Node × Option StartError → Type 0
    Keeps r = Holds k r.0

    same : Holds k (record n { slot = record (n.slot) { started = true } })
    same = record { with_result = h.with_result; with_failure = h.with_failure; single = h.single }

empty-Outcome :
    (agreed : AgreedInclusionSet) (merged : MergedEncryptedSet) (n : Node) (k : ℕ)
    → Holds k n
    → Holds k (finish_empty_materialized_set agreed merged n)
unfolding finish_empty_materialized_set
empty-Outcome agreed merged n k h =
    if_cases (Holds k) (is_some n.slot.result || is_some n.slot.failure || n.slot.planned) _ _
      (λ e. h) λ e. record { with_result = refl; with_failure = ground arith; single = h.single }

plan-Outcome :
    (cfg : NodeSettings) (plan : BatchPlan) (material : Material) (n : Node) (k : ℕ)
    → Holds k n
    → Holds k (with_slot (store_plan cfg plan material n.slot) n)
unfolding store_plan
plan-Outcome cfg plan material n k h =
    if_cases (λ s. Outcome (core s) k) (n.slot.planned || is_some n.slot.failure) _ _ (λ e. h)
      λ e. record { with_result = h.with_result; with_failure = h.with_failure; single = h.single }

prepare-Outcome :
    (cfg : NodeSettings) (finalized : Bool) (slot_id limit : ℕ) (n : Node)
    → Holds 0 n
    → Holds 0 (prepare_slot_with_limit cfg finalized slot_id limit n).0
unfolding prepare_slot_with_limit new_slot_state
prepare-Outcome cfg finalized slot_id limit n h =
    if_cases Keeps (ltb cfg.bmax limit) _ _ (λ e. h)
      λ e.
        if_cases Keeps
          (slot_id == n.slot.id
            && is_prepared n.slot.phase
            && n.slot.proposal_limit == 0
            && ltb 0 limit)
          _ _
          (λ f. record {
            with_result = h.with_result;
            with_failure = h.with_failure;
            single = h.single;
          })
          λ f.
            if_cases Keeps (leb slot_id n.last_slot) _ _ (λ g. h)
              λ g.
                if_cases Keeps (not (terminal n.slot.phase)) _ _ (λ t. h)
                  λ t.
                    if_cases Keeps (is_completed n.slot.phase && cfg.acs_trace && not finalized) _ _
                      (λ u. h)
                      λ u. record { with_result = refl; with_failure = refl; single = refl }
  where
    Keeps : Node × Option PrepareError → Type 0
    Keeps r = Holds 0 r.0

claim-Outcome :
    (cfg : NodeSettings) (n : Node) (fs : List Flight)
    → Holds (length fs) n
    → Sound (record {
      node = with_slot (claim_combine cfg n.slot).0 n;
      flights = claimed (claim_combine cfg n.slot).1 fs;
    })
unfolding claim_combine
claim-Outcome cfg n fs h =
    if_cases Keeps
      (is_some s.result
        || is_some s.failure
        || not s.planned
        || not s.share_generation_done
        || s.combine_in_flight)
      _ _ (λ e. h)
      λ free.
        if_cases Keeps (not (has_threshold_per_sub_batch shares s.plan cfg.threshold)) _ _ (λ e. h)
          λ e.
            if_cases Keeps (not (has_budgets s.plan.sub_batches s.combine_attempts_left)) _ _
              (λ f. h)
              λ f.
                if_cases Keeps (is_nil shares) _ _ (λ g. h)
                  λ g. record {
                    with_result = h.with_result;
                    with_failure = h.with_failure;
                    single =
                        ground
                          (arith, length-append fs (combining (attempt_of cfg s) ∷ []), h.single);
                  }
  where
    s : SlotState
    s = n.slot

    shares : List DecryptionShare
    shares = retained_shares cfg.node_ids s.share_candidates

    Keeps : SlotState × Option CombineAttempt → Type 0
    Keeps r = Outcome (core r.0) (length (claimed r.1 fs))

finish-Outcome :
    (a : CombineAttempt) (r : Rendered) (n : Node) (k : ℕ)
    → Holds (suc k) n
    → Holds k (finish_combine a r n)
unfolding finish_combine
finish-Outcome a r n k h =
    if_cases (Holds k) (is_some n.slot.result || is_some n.slot.failure) _ _
      (λ e. record { with_result = h.with_result; with_failure = h.with_failure; single = last })
      λ e. record {
        with_result = refl;
        with_failure = ground (arith, h.with_failure);
        single = last;
      }
  where
    last : k ≡ 0
    last = ground (arith, h.single)

module _ (e : Setting) where
  Local-Outcome : (n n' : Node) (k : ℕ) → Local e n n' → Holds k n → Holds k n'
  unfolding finish_share_generation
  Local-Outcome _ _ k (local_submit n item raw_bytes) h =
      subst (λ c. Outcome c k) (sym (core-store_pending e.cfg e.encode_list item raw_bytes n.slot))
        h
  Local-Outcome _ _ k (local_begin n) h = begin-Outcome n k h
  Local-Outcome _ _ k (local_fail n reason) h = mark-Outcome reason n k h
  Local-Outcome _ _ k (local_empty n agreed merged) h = empty-Outcome agreed merged n k h
  Local-Outcome _ _ k (local_plan n plan material) h = plan-Outcome e.cfg plan material n k h
  Local-Outcome _ _ k (local_own_share n d) h =
      subst (λ c. Outcome c k) (sym (core-add_share e.cfg e.curve d n.slot)) h
  Local-Outcome _ _ k (local_wire_share n w) h =
      subst (λ c. Outcome c k) (sym (core-add_wire_share e.cfg e.curve w n.slot)) h
  Local-Outcome _ _ k (local_generated n) h = record {
    with_result = h.with_result;
    with_failure = h.with_failure;
    single = h.single;
  }

  pub Step-Sound : (w w' : World) → Step e w w' → Sound w → Sound w'
  unfolding record_combine_stats finish_failed_combine
  Step-Sound _ _ (step_local n n' fs l) h = Local-Outcome n n' (length fs) l h
  Step-Sound _ _ (step_prepare n finalized slot_id limit) h =
      prepare-Outcome e.cfg finalized slot_id limit n h
  Step-Sound _ _ (step_claim n fs) h = claim-Outcome e.cfg n fs h
  Step-Sound _ _ (step_record n before a after) h = record {
    with_result = h.with_result;
    with_failure = h.with_failure;
    single =
        length-middle before (landing a (e.combiner a).0) after
        ∙ sym (length-middle before (combining a) after)
        ∙ h.single;
  }
  Step-Sound _ _ (step_finish n before a r after) h =
      finish-Outcome a r n (length (before ++ after))
        (subst (λ k. Holds k n) (length-middle before (combined a r) after) h)
  Step-Sound _ _ (step_release n before a after) h = record {
    with_result = h.with_result;
    with_failure = h.with_failure;
    single = ground (arith, length-middle before (missed a) after, h.single);
  }

  -- At every moment: the phase is completed exactly when there is a result, and failed exactly when
  -- there is a failure, so that never both are there; and as many combinations are under way as are
  -- marked, which is one or none.
  pub reach-Sound : (first : ℕ) (w : World) → Reach e first w → Sound w
  unfolding new_node new_slot_state
  reach-Sound first _ reach_start = record {
    with_result = refl;
    with_failure = refl;
    single = refl;
  }
  reach-Sound first _ (reach_step w w' r s) = Step-Sound w w' s (reach-Sound first w r)
