-- ===== src/Node/Steps/Budgeting.antt =====
-- What each section does to the budgets (bloc-node/internal/app/node.go).
use bloc.Prelude.{
  ℕ, ◌*◌, ◌≡◌, refl, ap, Bool, true, false, not, ◌&&◌, ◌||◌, Option, List, [], ◌∷◌, ◌++◌, ◌==◌, ltb,
  leb, arith, if_cases, length, All-append, is_nil,
}
use bloc.Inclusion.{AgreedInclusionSet, MergedEncryptedSet}
use bloc.Node.{
  NodeSettings, BatchPlan, Material, SlotPhase, SlotResult, SlotFailure, SlotState, Node,
  new_slot_state,
}
use bloc.Node.Shares.{retained_shares}
use bloc.Node.Lifecycle.{
  is_some, is_completed, terminal, is_prepared, FailureReason, PrepareError, StartError,
  prepare_slot_with_limit, mark_slot_failed, begin_consensus, finish_empty_materialized_set,
}
use bloc.Node.Combine.{
  CombineAttempt, Rendered, budget_each, total, store_plan, attempt_of, has_threshold_per_sub_batch,
  has_budgets, claim_combine, finish_combine,
}
use bloc.Node.Steps.{Flight, combining, claimed, with_slot}
use bloc.Node.Steps.Core.{Core, core}
use bloc.Node.Steps.Sound.{in_air}
use bloc.Node.Steps.Spending.{
  total-budget_each, length-budget_each, Fresh, Budgeted, none_left, All-drop,
}

module _ (cfg : NodeSettings) where
  abbrev max : ℕ
  max = cfg.max_combine_attempts

  abbrev Holds : List Flight → Node → Type 0
  Holds fs n = Budgeted max (core (n.slot)) fs

  -- A change of the outcome, which may bring a plan without sub-batches.
  pub phase-Budgeted :
      {phase : SlotPhase} {result : Option SlotResult} {failure : Option SlotFailure}
      (fs : List Flight) (c : Core) (planned : Bool)
      → (planned ≡ false → c.planned ≡ false)
      → Budgeted max c fs
      → Budgeted max
          (record c { phase = phase; planned = planned; result = result; failure = failure })
          fs
  phase-Budgeted fs c planned imp h = record {
    covers = h.covers;
    spent = h.spent;
    unplanned = λ u. h.unplanned (imp u);
    unclaimed = λ u. h.unclaimed (imp u);
    fresh = h.fresh;
  }

  pub mark-Budgeted :
      (reason : FailureReason) (n : Node) (fs : List Flight)
      → Holds fs n
      → Holds fs (mark_slot_failed reason n)
  unfolding mark_slot_failed
  mark-Budgeted reason n fs h =
      if_cases (Holds fs) (is_some n.slot.result || is_some n.slot.failure) _ _ (λ q. h)
        λ q. phase-Budgeted fs (core n.slot) n.slot.planned (λ u. u) h

  pub begin-Budgeted : (n : Node) (fs : List Flight) → Holds fs n → Holds fs (begin_consensus n).0
  unfolding begin_consensus
  begin-Budgeted n fs h =
      if_cases Keeps n.slot.started _ _ (λ q. h)
        λ q.
          if_cases Keeps (is_some n.slot.failure) _ _ (λ f. same)
            λ f.
              if_cases Keeps (is_some n.slot.result) _ _ (λ r. same)
                λ r. phase-Budgeted fs (core n.slot) n.slot.planned (λ u. u) h
    where
      Keeps : Node × Option StartError → Type 0
      Keeps r = Holds fs r.0

      same : Holds fs (record n { slot = record (n.slot) { started = true } })
      same = phase-Budgeted fs (core n.slot) n.slot.planned (λ u. u) h

  pub empty-Budgeted :
      (agreed : AgreedInclusionSet) (merged : MergedEncryptedSet) (n : Node) (fs : List Flight)
      → Holds fs n
      → Holds fs (finish_empty_materialized_set agreed merged n)
  unfolding finish_empty_materialized_set
  empty-Budgeted agreed merged n fs h =
      if_cases (Holds fs) (is_some n.slot.result || is_some n.slot.failure || n.slot.planned) _ _
        (λ q. h) λ q. phase-Budgeted fs (core n.slot) true (λ u. cc) h

  pub plan-Budgeted :
      (plan : BatchPlan) (material : Material) (n : Node) (fs : List Flight)
      → length fs ≡ in_air (core n.slot)
      → Holds fs n
      → Holds fs (with_slot (store_plan cfg plan material n.slot) n)
  unfolding store_plan
  plan-Budgeted plan material n fs single h =
      if_cases (λ s. Budgeted max (core s) fs) (n.slot.planned || is_some n.slot.failure) _ _
        (λ q. h)
        λ q.
          let u : n.slot.planned ≡ false = ground arith in
          let no_batches : length n.slot.plan.sub_batches ≡ 0 = ap length (h.unplanned u) in
          record {
            covers = length-budget_each plan.sub_batches max;
            spent = omega (
              arith,
              h.spent,
              ap (λ k. k * max) no_batches,
              total-budget_each plan.sub_batches max,
            );
            unplanned = λ p. cc;
            unclaimed = λ p. cc;
            fresh =
                none_left (Fresh (budget_each plan.sub_batches max)) fs
                  (ground (arith, single, h.unclaimed u));
          }

  pub claim-Budgeted :
      (n : Node) (fs : List Flight)
      → Holds fs n
      → Holds (claimed (claim_combine cfg n.slot).1 fs) (with_slot (claim_combine cfg n.slot).0 n)
  unfolding claim_combine
  claim-Budgeted n fs h =
      if_cases Keeps
        (is_some s.result
          || is_some s.failure
          || not s.planned
          || not s.share_generation_done
          || s.combine_in_flight)
        _ _ (λ q. h)
        λ free.
          if_cases Keeps
            (not (
              has_threshold_per_sub_batch (retained_shares cfg.node_ids s.share_candidates) s.plan
                cfg.threshold))
            _ _ (λ q. h)
            λ q.
              if_cases Keeps (not (has_budgets s.plan.sub_batches s.combine_attempts_left)) _ _
                (λ f. h)
                λ f.
                  if_cases Keeps (is_nil (retained_shares cfg.node_ids s.share_candidates)) _ _
                    (λ g. h)
                    λ g. record {
                      covers = h.covers;
                      spent = h.spent;
                      unplanned = h.unplanned;
                      unclaimed = λ u. absurd (impossible free u);
                      fresh =
                          All-append (Fresh s.combine_attempts_left) fs
                            (combining (attempt_of cfg s) ∷ []) h.fresh (refl, tt);
                    }
    where
      s : SlotState
      s = n.slot

      Keeps : SlotState × Option CombineAttempt → Type 0
      Keeps r = Budgeted max (core r.0) (claimed r.1 fs)

      impossible :
          (is_some s.result
              || is_some s.failure
              || not s.planned
              || not s.share_generation_done
              || s.combine_in_flight)
            ≡ false
          → s.planned ≡ false
          → ⊥
      impossible free u = ground arith

  pub finish-Budgeted :
      (a : CombineAttempt) (r : Rendered) (n : Node) (before : List Flight) (f : Flight)
      (after : List Flight)
      → Holds (before ++ f ∷ after) n
      → Holds (before ++ after) (finish_combine a r n)
  unfolding finish_combine
  finish-Budgeted a r n before f after h =
      if_cases (Holds (before ++ after)) (is_some n.slot.result || is_some n.slot.failure) _ _
        (λ q. fewer)
        (λ q. record {
          covers = fewer.covers;
          spent = fewer.spent;
          unplanned = fewer.unplanned;
          unclaimed = fewer.unclaimed;
          fresh = fewer.fresh;
        })
    where
      fewer : Holds (before ++ after) (with_slot (record (n.slot) { combine_in_flight = false }) n)
      fewer = record {
        covers = h.covers;
        spent = h.spent;
        unplanned = h.unplanned;
        unclaimed = λ u. refl;
        fresh = All-drop (Fresh n.slot.combine_attempts_left) before f after h.fresh;
      }

  pub new-Budgeted : (slot_id limit : ℕ) → Budgeted max (core (new_slot_state slot_id limit)) []
  unfolding new_slot_state total
  new-Budgeted slot_id limit = record {
    covers = refl;
    spent = omega arith;
    unplanned = λ u. refl;
    unclaimed = λ u. refl;
    fresh = tt;
  }

  pub prepare-Budgeted :
      (finalized : Bool) (slot_id limit : ℕ) (n : Node)
      → Holds [] n
      → Holds [] (prepare_slot_with_limit cfg finalized slot_id limit n).0
  unfolding prepare_slot_with_limit
  prepare-Budgeted finalized slot_id limit n h =
      if_cases Keeps (ltb cfg.bmax limit) _ _ (λ q. h)
        λ q.
          if_cases Keeps
            (slot_id == n.slot.id
              && is_prepared n.slot.phase
              && n.slot.proposal_limit == 0
              && ltb 0 limit)
            _ _ (λ f. phase-Budgeted [] (core n.slot) n.slot.planned (λ u. u) h)
            λ f.
              if_cases Keeps (leb slot_id n.last_slot) _ _ (λ g. h)
                λ g.
                  if_cases Keeps (not (terminal n.slot.phase)) _ _ (λ t. h)
                    λ t.
                      if_cases Keeps (is_completed n.slot.phase && cfg.acs_trace && not finalized) _
                        _ (λ u. h) λ u. new-Budgeted slot_id limit
    where
      Keeps : Node × Option PrepareError → Type 0
      Keeps r = Holds [] r.0
