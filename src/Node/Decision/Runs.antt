-- ===== src/Node/Decision/Runs.antt =====
-- The sequential code as runs of steps (bloc-node/internal/app/node.go: `tryCombine`,
-- `handleACSOutput`).
use bloc.Prelude.{
  ℕ, zero, suc, ◌≡◌, refl, sym, subst, Bool, not, ◌||◌, Option, none, some, List, [], ◌∷◌, if_cases,
  Option-cases, if◌then◌else◌, inl, inr,
}
use bloc.Hbbft.Slot.{SlotOutput}
use bloc.Node.{Node}
use bloc.Node.Shares.{WireShare, add_share}
use bloc.Node.Lifecycle.{is_some, share, mark_slot_failed}
use bloc.Node.Combine.{
  CombineAttempt, Rendered, attempt_of, claim_combine, record_combine_stats, finish_failed_combine,
  finish_combine, try_combine, finish_share_generation,
}
use bloc.Node.Steps.{
  combining, landing, claimed, World, with_slot, Setting, Local, local_fail, local_empty,
  local_plan, local_own_share, local_generated, Step, step_local, step_claim, step_record,
  step_finish, step_release,
}
use bloc.Node.Steps.Progress.{Steps, here, onward, flagged, claim-cases}
use bloc.Node.Decision.{
  DecisionEnv, Sharing, Decision, lost, nothing_selected, to_decrypt, decide, apply_decision,
  generate_shares, follow_decision, handle_acs_output,
}

module _ (e : Setting) where
  -- Nothing under way before and after.
  abbrev pub Runs : Node → Node → Type 0
  Runs n m = Steps e (record { node = n; flights = [] }) (record { node = m; flights = [] })

  join : (u v w : World) → Steps e u v → Steps e v w → Steps e u w
  join u v _ a here = a
  join u v _ a (onward x w b s) = onward x w (join u v x a b) s

  pub Local-Runs : (n m : Node) → Local e n m → Runs n m
  Local-Runs n m l = onward _ _ here (step_local n m [] l)

  pub join-Runs : (n m k : Node) → Runs n m → Runs m k → Runs n k
  join-Runs n m k a b = join _ _ _ a b

  abbrev attempt : Node → CombineAttempt
  attempt n = attempt_of (e.cfg) (n.slot)

  -- After the attempt is claimed, made and counted.
  abbrev counted : Node → Node
  counted n = with_slot (record_combine_stats ((e.combiner) (attempt n)).1 (flagged (n.slot))) n

  abbrev released : Node → Node
  released n =
      with_slot (finish_failed_combine (n.slot.share_version) ((counted n).slot)).0 (counted n)

  landed-Steps :
      (n : Node)
      → claim_combine e.cfg n.slot ≡ (flagged n.slot, some (attempt_of e.cfg n.slot))
      → Steps e
          (record { node = n; flights = [] })
          (record {
            node =
                with_slot
                  (record_combine_stats (e.combiner (attempt_of e.cfg n.slot)).1 (flagged n.slot))
                  n;
            flights =
                landing (attempt_of e.cfg n.slot) (e.combiner (attempt_of e.cfg n.slot)).0 ∷ [];
          })
  landed-Steps n q =
      let start : World = record { node = n; flights = [] } in
      let flying : World = record {
        node = with_slot (flagged n.slot) n;
        flights = combining (attempt_of e.cfg n.slot) ∷ [];
      } in
      let claim : Step e start flying =
        subst (λ x. Step e start (record { node = with_slot (x.0) n; flights = claimed (x.1) [] }))
          q (step_claim n []) in
      onward flying _ (onward start flying here claim)
        (step_record (with_slot (flagged n.slot) n) [] (attempt_of e.cfg n.slot) [])

  -- The node after an attempt, by what the combiner answered.
  abbrev concluded : ℕ → Node → Option Rendered → Node
  concluded fuel n (some r) = finish_combine (attempt n) r (counted n)
  concluded fuel n none =
      if (finish_failed_combine (n.slot.share_version) ((counted n).slot)).1
      then try_combine (e.cfg) (e.combiner) fuel (released n)
      else released n

  try_combine-claimed :
      (fuel : ℕ) (n : Node)
      → claim_combine e.cfg n.slot ≡ (flagged n.slot, some (attempt_of e.cfg n.slot))
      → try_combine e.cfg e.combiner (suc fuel) n ≡ concluded fuel n (e.combiner (attempt n)).0
  unfolding try_combine
  try_combine-claimed fuel n q = elim (Option-cases (e.combiner (attempt n)).0) [
    | inl f ↦ rw (q, try_combine) (rw f (rw q refl))
    | inr (r, f) ↦ rw (q, try_combine) (rw f (rw q refl))
  ]

  concluded-Runs :
      (fuel : ℕ) (n : Node) (o : Option Rendered)
      → ((m : Node) → Runs m (try_combine e.cfg e.combiner fuel m))
      → Steps e
          (record { node = n; flights = [] })
          (record { node = counted n; flights = landing (attempt n) o ∷ [] })
      → Runs n (concluded fuel n o)
  concluded-Runs fuel n (some r) again l =
      onward _ _ l (step_finish (counted n) [] (attempt n) r [])
  concluded-Runs fuel n none again l =
      let stop : Runs n (released n) = onward _ _ l (step_release (counted n) [] (attempt n) []) in
      if_cases (Runs n) (finish_failed_combine n.slot.share_version (counted n).slot).1 _ _
        (λ h.
          join-Runs n (released n) (try_combine e.cfg e.combiner fuel (released n)) stop
            (again (released n)))
        λ h. stop

  -- Whatever it finds, and however often it calls itself, `tryCombine` is a run of steps.
  pub try_combine-Runs : (fuel : ℕ) (n : Node) → Runs n (try_combine e.cfg e.combiner fuel n)
  unfolding try_combine
  try_combine-Runs zero n = here
  try_combine-Runs (suc fuel) n = elim (claim-cases e.cfg n.slot) [
    | inl q ↦ rw (q, try_combine) here
    | inr q ↦ subst (Runs n) (sym (try_combine-claimed fuel n q)) (
        concluded-Runs fuel n (e.combiner (attempt n)).0 (try_combine-Runs fuel) (landed-Steps n q))
  ]

  -- So is the loop that makes the node's own shares.
  generate-Runs :
      (f : Sharing) (j : ℕ) (ss : List (List ℕ)) (n : Node)
      → Runs n (generate_shares e.cfg e.curve f j ss n).0
  unfolding generate_shares
  generate-Runs f j [] n = here
  generate-Runs f j (s ∷ ss) n =
      if_cases Ends f.withhold_share _ _ (λ h. generate-Runs f (suc j) ss n)
        λ h. elim (Option-cases (f.make_share n.slot.plan j)) [
          | inl q ↦
              rw (q, generate_shares) (Local-Runs n (mark_slot_failed share n) (local_fail n share))
          | inr (d, q) ↦
              let n' = with_slot (add_share e.cfg e.curve d n.slot).0 n in
              let one = Local-Runs n n' (local_own_share n d) in
              rw (q, generate_shares)
                (elim (Option-cases (add_share e.cfg e.curve d n.slot).1) [
                  | inr (reason, t) ↦ rw t one
                  | inl t ↦ rw t (elim (Option-cases (f.marshal_share d)) [
                    | inl u ↦ rw u (
                        join-Runs n n' (mark_slot_failed share n') one
                          (Local-Runs n' (mark_slot_failed share n') (local_fail n' share)))
                    | inr (w, u) ↦ rw u (join-Runs n n' _ one (generate-Runs f (suc j) ss n'))
                  ])
                ])
        ]
    where
      Ends : Node × List WireShare × Bool → Type 0
      Ends r = Runs n r.0

  apply-Runs : (d : Decision) (n : Node) → Runs n (apply_decision e.cfg d n)
  unfolding apply_decision
  apply-Runs (lost reason) n = Local-Runs n _ (local_fail n reason)
  apply-Runs (nothing_selected agreed merged) n = Local-Runs n _ (local_empty n agreed merged)
  apply-Runs (to_decrypt plan material) n = Local-Runs n _ (local_plan n plan material)

  -- What follows the decision is a run from the node to which it was applied.
  pub follow-Runs :
      (f : Sharing) (fuel : ℕ) (n m : Node) (d : Decision)
      → Runs m (follow_decision e.cfg e.curve f e.combiner fuel n m d).0
  unfolding follow_decision
  follow-Runs f fuel n m (lost reason) = here
  follow-Runs f fuel n m (nothing_selected agreed merged) = here
  follow-Runs f fuel n m (to_decrypt plan material) =
      let shared = generate_shares e.cfg e.curve f 0 m.slot.plan.sub_batches m in
      let two = generate-Runs f 0 m.slot.plan.sub_batches m in
      let k = with_slot (finish_share_generation shared.0.slot) shared.0 in
      if_cases Ends (n.slot.planned || is_some n.slot.failure) _ _ (λ h. here)
        λ h.
          if_cases Ends (not shared.2) _ _ (λ h. two)
            λ h.
              join-Runs m k (try_combine e.cfg e.combiner fuel k)
                (join-Runs m shared.0 k two (Local-Runs shared.0 k (local_generated shared.0)))
                (try_combine-Runs fuel k)
    where
      Ends : Node × List WireShare → Type 0
      Ends r = Runs m r.0

  -- The whole handling of an ACS output is a run of steps, with nothing under way at its end: what
  -- holds after every run of steps holds of this code.
  pub handle_acs_output-Runs :
      {El : Type 0} (env : DecisionEnv El) (f : Sharing) (fuel : ℕ) (out : SlotOutput) (n : Node)
      → Runs n (handle_acs_output env e.cfg e.curve f e.combiner fuel out n).0
  unfolding handle_acs_output
  handle_acs_output-Runs env f fuel out n =
      let d = decide env e.cfg n.slot.id out in
      join-Runs n (apply_decision e.cfg d n) _ (apply-Runs d n)
        (follow-Runs f fuel n (apply_decision e.cfg d n) d)
