-- ===== src/Node/Steps/Budget.antt =====
-- The attempts that combinations make (bloc-node/internal/app/node.go: `claimCombine`,
-- `recordCombineStats`), over every order of steps.
use bloc.Prelude.{
  ℕ, ◌+◌, ◌*◌, ◌≤◌, ◌≡◌, refl, sym, subst, ◌∙◌, Option, none, some, List, [], ◌∷◌, ◌++◌, arith,
  length, All,
}
use bloc.Node.{Node, new_node}
use bloc.Node.Combine.{
  CombineAttempt, Rendered, spend, total, record_combine_stats, finish_failed_combine,
  finish_share_generation,
}
use bloc.Node.Steps.{
  Flight, combining, combined, missed, landing, World, with_slot, Setting, Local, local_submit,
  local_begin, local_fail, local_empty, local_plan, local_own_share, local_wire_share,
  local_generated, Step, step_local, step_prepare, step_claim, step_record, step_finish,
  step_release, Reach, reach_start, reach_step,
}
use bloc.Node.Steps.Core.{core, core-add_share, core-add_wire_share, core-store_pending}
use bloc.Node.Steps.Sound.{in_air, Sound, reach-Sound, length-middle}
use bloc.Node.Steps.Spending.{
  Within, Limited, total-spend, length-spend, Fresh, Budgeted, none_left, All-drop, All-at,
}
use bloc.Node.Steps.Budgeting.{
  mark-Budgeted, begin-Budgeted, empty-Budgeted, plan-Budgeted, claim-Budgeted, finish-Budgeted,
  new-Budgeted, prepare-Budgeted, phase-Budgeted,
}

module _ (e : Setting) (limited : Limited (e.combiner)) where
  abbrev max : ℕ
  max = e.cfg.max_combine_attempts

  abbrev Holds : List Flight → Node → Type 0
  Holds fs n = Budgeted max (core (n.slot)) fs

  record-Budgeted :
      (n : Node) (before : List Flight) (a : CombineAttempt) (after : List Flight)
      → length (before ++ combining a ∷ after) ≡ in_air (core n.slot)
      → Holds (before ++ combining a ∷ after) n
      → Holds
          (before ++ landing a (e.combiner a).0 ∷ after)
          (with_slot (record_combine_stats (e.combiner a).1 n.slot) n)
  unfolding record_combine_stats
  record-Budgeted n before a after single h =
      let left = n.slot.combine_attempts_left in
      let attempts = (e.combiner a).1 in
      let known : a.attempt_limits ≡ left =
        All-at (Fresh left) before (combining a) after h.fresh in
      let within : Within attempts left = subst (Within attempts) known (limited a) in
      record {
        covers = length-spend left attempts ∙ h.covers;
        spent = omega (arith, h.spent, total-spend left attempts within);
        unplanned = h.unplanned;
        unclaimed = h.unclaimed;
        fresh =
            alone before (landing a (e.combiner a).0) after (landed ((e.combiner a).0))
              (ground (arith, single, length-middle before (combining a) after));
      }
    where
      landed :
          (o : Option Rendered)
          → Fresh (spend n.slot.combine_attempts_left (e.combiner a).1) (landing a o)
      landed none = tt
      landed (some r) = tt

      alone :
          (xs : List Flight) (f : Flight) (ys : List Flight)
          → Fresh (spend n.slot.combine_attempts_left (e.combiner a).1) f
          → length (xs ++ ys) ≡ 0
          → All (Fresh (spend n.slot.combine_attempts_left (e.combiner a).1)) (xs ++ f ∷ ys)
      alone [] f ys k l =
          (k, none_left (Fresh (spend n.slot.combine_attempts_left (e.combiner a).1)) ys l)
      alone (x ∷ xs) f ys k l = absurd (omega (arith, l))

  Local-Budgeted :
      (n n' : Node) (fs : List Flight)
      → Local e n n'
      → length fs ≡ in_air (core n.slot)
      → Holds fs n
      → Holds fs n'
  unfolding finish_share_generation
  Local-Budgeted _ _ fs (local_submit n item raw_bytes) k h =
      subst (λ c. Budgeted max c fs)
        (sym (core-store_pending e.cfg e.encode_list item raw_bytes n.slot)) h
  Local-Budgeted _ _ fs (local_begin n) k h = begin-Budgeted e.cfg n fs h
  Local-Budgeted _ _ fs (local_fail n reason) k h = mark-Budgeted e.cfg reason n fs h
  Local-Budgeted _ _ fs (local_empty n agreed merged) k h =
      empty-Budgeted e.cfg agreed merged n fs h
  Local-Budgeted _ _ fs (local_plan n plan material) k h =
      plan-Budgeted e.cfg plan material n fs k h
  Local-Budgeted _ _ fs (local_own_share n d) k h =
      subst (λ c. Budgeted max c fs) (sym (core-add_share e.cfg e.curve d n.slot)) h
  Local-Budgeted _ _ fs (local_wire_share n w) k h =
      subst (λ c. Budgeted max c fs) (sym (core-add_wire_share e.cfg e.curve w n.slot)) h
  Local-Budgeted _ _ fs (local_generated n) k h =
      phase-Budgeted e.cfg fs (core n.slot) n.slot.planned (λ u. u) h

  Step-Budgeted :
      (w w' : World) → Step e w w' → Sound w → Holds w.flights w.node → Holds w'.flights w'.node
  unfolding finish_failed_combine
  Step-Budgeted _ _ (step_local n n' fs l) k h = Local-Budgeted n n' fs l k.single h
  Step-Budgeted _ _ (step_prepare n finalized slot_id limit) k h =
      prepare-Budgeted e.cfg finalized slot_id limit n h
  Step-Budgeted _ _ (step_claim n fs) k h = claim-Budgeted e.cfg n fs h
  Step-Budgeted _ _ (step_record n before a after) k h = record-Budgeted n before a after k.single h
  Step-Budgeted _ _ (step_finish n before a r after) k h =
      finish-Budgeted e.cfg a r n before (combined a r) after h
  Step-Budgeted _ _ (step_release n before a after) k h = record {
    covers = h.covers;
    spent = h.spent;
    unplanned = h.unplanned;
    unclaimed = λ u. refl;
    fresh = All-drop (Fresh n.slot.combine_attempts_left) before (missed a) after h.fresh;
  }

  reach-Budgeted : (first : ℕ) (w : World) → Reach e first w → Holds w.flights w.node
  unfolding new_node
  reach-Budgeted first _ reach_start = new-Budgeted e.cfg first 0
  reach-Budgeted first _ (reach_step w w' r s) =
      Step-Budgeted w w' s (reach-Sound e first w r) (reach-Budgeted first w r)

  -- With a combiner that keeps to its limits, at every moment: the attempts made in the slot and those
  -- left are together the configured number for each sub-batch of the plan, so that the attempts
  -- made are at most that; the budget list has one entry for each sub-batch.
  pub reach-budget :
      (first : ℕ) (w : World)
      → Reach e first w
      → (w.node.slot.counters.share_subset_attempts + total w.node.slot.combine_attempts_left
          ≡ length w.node.slot.plan.sub_batches * e.cfg.max_combine_attempts)
        × (w.node.slot.counters.share_subset_attempts
            ≤ length w.node.slot.plan.sub_batches * e.cfg.max_combine_attempts)
        × (length w.node.slot.combine_attempts_left ≡ length w.node.slot.plan.sub_batches)
  reach-budget first w r =
      let h = reach-Budgeted first w r in (h.spent, omega (arith, h.spent), h.covers)
