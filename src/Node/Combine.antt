-- ===== src/Node/Combine.antt =====
-- From a plan to the plaintexts (bloc-node/internal/app/node.go). The cluster's combination of
-- shares and the rendering of plaintexts are arguments.
use bloc.Prelude.{
  ℕ, zero, suc, ◌+◌, ◌-◌, Bool, true, false, not, ◌&&◌, ◌||◌, Option, none, some, List, [], ◌∷◌,
  ◌==◌, ltb, if◌then◌else◌, length, is_nil, contains,
}
use bloc.Prelude.Bytes.{Bytes}
use bloc.Node.{NodeSettings, DecryptionShare, BatchPlan, Material, completed, SlotState, Node}
use bloc.Node.Shares.{retained_shares, prune_candidates}
use bloc.Node.Lifecycle.{is_some}

-- As many times the same budget as the plan has sub-batches.
abbrev pub budget_each : List (List ℕ) → ℕ → List ℕ
budget_each [] max = []
budget_each (b ∷ bs) max = max ∷ budget_each bs max

-- The section of `handleACSOutput` that stores the plan.
unfoldable pub store_plan : NodeSettings → BatchPlan → Material → SlotState → SlotState
unfolding prune_candidates
store_plan cfg plan material s = if s.planned || is_some s.failure then s else record s {
  plan = plan;
  share_candidates = prune_candidates plan s.share_candidates;
  combine_attempts_left = budget_each plan.sub_batches cfg.max_combine_attempts;
  material = material;
  planned = true;
}

-- The operators, each once, that have a share of a sub-batch.
abbrev pub operators_for : ℕ → List DecryptionShare → List ℕ
operators_for j [] = []
operators_for j (d ∷ ds) =
    let rest = operators_for j ds in
    if d.sub_batch_id == j && not (contains rest d.operator_id) then d.operator_id ∷ rest else rest

abbrev pub has_threshold_from : ℕ → List (List ℕ) → List DecryptionShare → ℕ → Bool
has_threshold_from j [] shares threshold = true
has_threshold_from j (b ∷ bs) shares threshold =
    let rest = has_threshold_from (suc j) bs shares threshold in
    if ltb (length (operators_for j shares)) threshold then false else rest

unfoldable pub has_threshold_per_sub_batch : List DecryptionShare → BatchPlan → ℕ → Bool
has_threshold_per_sub_batch shares plan threshold =
    has_threshold_from 0 plan.sub_batches shares threshold

-- Whether every sub-batch has an attempt left.
abbrev pub has_budgets : List (List ℕ) → List ℕ → Bool
has_budgets [] left = true
has_budgets (b ∷ bs) [] = false
has_budgets (b ∷ bs) (l ∷ ls) = let rest = has_budgets bs ls in if l == 0 then false else rest

pub record CombineAttempt : Type 0 where
  pub plan : BatchPlan
  pub material : Material
  pub shares : List DecryptionShare
  pub share_version : ℕ
  pub attempt_limits : List ℕ

abbrev pub attempt_of : NodeSettings → SlotState → CombineAttempt
attempt_of cfg s = record {
  plan = s.plan;
  material = s.material;
  shares = retained_shares cfg.node_ids s.share_candidates;
  share_version = s.share_version;
  attempt_limits = s.combine_attempts_left;
}

unfoldable pub claim_combine : NodeSettings → SlotState → SlotState × Option CombineAttempt
unfolding has_threshold_per_sub_batch retained_shares
claim_combine cfg s =
    let shares = retained_shares cfg.node_ids s.share_candidates in
    if is_some s.result
      || is_some s.failure
      || not s.planned
      || not s.share_generation_done
      || s.combine_in_flight
    then (s, none)
    else if not (has_threshold_per_sub_batch shares s.plan cfg.threshold)
    then (s, none)
    else if not (has_budgets s.plan.sub_batches s.combine_attempts_left)
    then (s, none)
    else if is_nil shares
    then (s, none)
    else (
      record s {
        combine_in_flight = true;
        counters = record (s.counters) { combine_attempts = s.counters.combine_attempts + 1 };
      },
      some (attempt_of cfg s),
    )

-- What is left of the budgets; below 0 the source stores 0.
unfoldable pub spend : List ℕ → List ℕ → List ℕ
spend [] attempts = []
spend (l ∷ ls) [] = l ∷ ls
spend (l ∷ ls) (a ∷ rest) = (l - a) ∷ spend ls rest

unfoldable pub total : List ℕ → ℕ
total [] = 0
total (a ∷ rest) = a + total rest

unfoldable pub record_combine_stats : List ℕ → SlotState → SlotState
unfolding spend total
record_combine_stats attempts s = record s {
  combine_attempts_left = spend s.combine_attempts_left attempts;
  counters = record (s.counters) {
    share_subset_attempts = s.counters.share_subset_attempts + total attempts;
  };
}

-- Whether to try again: only with shares that the attempt did not have.
unfoldable pub finish_failed_combine : ℕ → SlotState → SlotState × Bool
finish_failed_combine attempt_version s = (
  record s { combine_in_flight = false },
  not (is_some s.result) && not (is_some s.failure) && ltb attempt_version s.share_version,
)

-- The hexadecimal plaintexts and their hashes, one for each ciphertext.
pub record Rendered : Type 0 where
  pub hashes : List Bytes
  pub hex : List Bytes

abbrev pub combined_material : CombineAttempt → Rendered → Material
combined_material a r = record (a.material) { plaintext_hashes = r.hashes; plaintexts_hex = r.hex }

-- The last locked section of `tryCombine`.
unfoldable pub finish_combine : CombineAttempt → Rendered → Node → Node
finish_combine a r n =
    let s = record (n.slot) { combine_in_flight = false } in
    if is_some n.slot.result || is_some n.slot.failure then record n { slot = s } else record n {
      slot = record s {
        result = some (record {
          slot = n.slot.id;
          batch_id = a.plan.batch_id;
          ciphertexts = length r.hex;
          materialized = combined_material a r;
        });
        phase = completed;
      };
      completed_slots = suc n.completed_slots;
    }

-- The plaintexts, or none, with the attempts made on each sub-batch.
abbrev pub Combiner : Type 0
Combiner = CombineAttempt → Option Rendered × List ℕ

-- `tryCombine` with nothing between its sections; it calls itself when a failed attempt lacked shares.
unfoldable pub try_combine : NodeSettings → Combiner → ℕ → Node → Node
unfolding claim_combine record_combine_stats finish_failed_combine finish_combine
try_combine cfg combiner zero n = n
try_combine cfg combiner (suc fuel) n =
    let claimed = claim_combine cfg n.slot in
    elim claimed.1 [
      | none ↦ n
      | some a ↦
          let after = record n { slot = record_combine_stats (combiner a).1 claimed.0 } in
          elim (combiner a).0 [
            | some r ↦ finish_combine a r after
            | none ↦
                let finished = finish_failed_combine a.share_version after.slot in
                let again = try_combine cfg combiner fuel (record after { slot = finished.0 }) in
                if finished.1 then again else record after { slot = finished.0 }
          ]
    ]

-- The end of share generation.
unfoldable pub finish_share_generation : SlotState → SlotState
finish_share_generation s = record s { share_generation_done = true }
