-- ===== src/Node/Steps/Progress.antt =====
-- Runs of steps, and the rounds of a combination (bloc-node/internal/app/node.go: `tryCombine`,
-- `claimCombine`, `finishFailedCombine`).
use bloc.Prelude.{
  ℕ, suc, ◌+◌, ◌≡◌, refl, true, not, ◌||◌, Option, none, some, List, arith, if_cases, is_nil,
  Option-cases, inl, inr, ◌⊎◌,
}
use bloc.Node.{NodeSettings, DecryptionShare, SlotState, Node}
use bloc.Node.Shares.{retained_shares}
use bloc.Node.Lifecycle.{is_some}
use bloc.Node.Combine.{
  CombineAttempt, Combiner, attempt_of, has_threshold_per_sub_batch, has_budgets, claim_combine,
  record_combine_stats, finish_failed_combine, try_combine,
}
use bloc.Node.Steps.{World, Setting, Step}

-- A slot whose combination is claimed.
abbrev pub flagged : SlotState → SlotState
flagged s = record s {
  combine_in_flight = true;
  counters = record (s.counters) { combine_attempts = s.counters.combine_attempts + 1 };
}

module _ (cfg : NodeSettings) where
  -- A claim is refused and changes nothing, or it is granted.
  pub claim-cases :
      (s : SlotState)
      → ((claim_combine cfg s ≡ (s, none))
          ⊎ (claim_combine cfg s ≡ (flagged s, some (attempt_of cfg s))))
  unfolding claim_combine
  claim-cases s =
      if_cases Split
        (is_some s.result
          || is_some s.failure
          || not s.planned
          || not s.share_generation_done
          || s.combine_in_flight)
        _ _ (λ h. inl refl)
        λ h.
          if_cases Split (not (has_threshold_per_sub_batch shares s.plan cfg.threshold)) _ _
            (λ q. inl refl)
            λ q.
              if_cases Split (not (has_budgets s.plan.sub_batches s.combine_attempts_left)) _ _
                (λ f. inl refl)
                λ f. if_cases Split (is_nil shares) _ _ (λ g. inl refl) (λ g. inr refl)
    where
      shares : List DecryptionShare
      shares = retained_shares cfg.node_ids s.share_candidates

      Split : SlotState × Option CombineAttempt → Type 0
      Split r =
          (◌≡◌ {A = SlotState × Option CombineAttempt} r (s, none))
          ⊎ (◌≡◌ {A = SlotState × Option CombineAttempt} r (flagged s, some (attempt_of cfg s)))

  -- A failed attempt that lost nothing is not repeated, so one round is all that `tryCombine` makes
  -- when no share arrives meanwhile, whatever the bound on its calls of itself.
  pub try_combine_once :
      (combiner : Combiner) (fuel : ℕ) (n : Node)
      → try_combine cfg combiner (suc fuel) n ≡ try_combine cfg combiner 1 n
  unfolding try_combine finish_failed_combine record_combine_stats
  try_combine_once combiner fuel n = elim (claim-cases n.slot) [
    | inl e ↦ rw (e, try_combine) refl
    | inr e ↦
        rw (e, try_combine)
          (elim (Option-cases (combiner (attempt_of cfg n.slot)).0) [
            | inl f ↦ rw f (ground arith)
            | inr (r, f) ↦ rw f refl
          ])
  ]

-- Worlds joined by steps.
pub data Steps (e : Setting) (w : World) : World → Type 0 where
  here : Steps e w w
  onward : (v v' : World) → Steps e w v → Step e v v' → Steps e w v'
