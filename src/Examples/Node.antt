-- ===== src/Examples/Node.antt =====
-- A node of two operators with one slot (bloc-node/internal/app/node.go): a transaction, the start, a
-- plan of one sub-batch, both shares, and the combination.
use bloc.Prelude.{
  ℕ, zero, suc, ◌+◌, ◌*◌, ◌≤◌, ◌≡◌, refl, false, Option, none, some, List, [], ◌∷◌, length,
}
use bloc.Prelude.Bytes.{Bytes}
use bloc.Inclusion.{EncryptedPlaceholder}
use bloc.Node.{
  NodeSettings, DecryptionShare, BatchPlan, no_material, Node, new_node, new_slot_state,
}
use bloc.Node.Shares.{Curve, WireShare, add_share, add_wire_share}
use bloc.Node.Lifecycle.{store_pending, begin_consensus}
use bloc.Node.Combine.{
  Rendered, total, store_plan, attempt_of, claim_combine, record_combine_stats, finish_combine,
  finish_share_generation, try_combine,
}
use bloc.Node.Steps.{
  combining, combined, World, with_slot, Setting, Local, local_submit, local_begin, local_plan,
  local_own_share, local_wire_share, local_generated, Step, step_local, step_claim, step_record,
  step_finish, Reach, reach_start, reach_step,
}
use bloc.Node.Steps.Sound.{Sound, reach-Sound}
use bloc.Node.Steps.Pooled.{Pooled, reach-Pooled}
use bloc.Node.Steps.Phases.{Moves, service_of, view, reach-Moves}
use bloc.Node.Steps.Outcomes.{outcomes, Descending, completions, failures, outcomes_once}
use bloc.Prelude.Maps.{Map}
use bloc.Bte
use bloc.Bte.Combine.{Opening}
use bloc.Node.Cluster.{
  cluster_combiner, cluster_setting, cluster_combiner-Limited, attempts_bounded,
}
use bloc.Node.Steps.Budget.{reach-budget}
use bloc.Node.Steps.Progress.{try_combine_once}

abbrev settings : NodeSettings
settings = record {
  id = 0;
  node_ids = 0 ∷ 1 ∷ [];
  bmax = 4;
  n = 2;
  threshold = 2;
  max_proposal_bytes = 100;
  max_combine_attempts = 8;
  blockspace = record { max_decrypted_gas = 0; max_decrypted_txs = 0; default_tx_gas = 21000 };
  acs_trace = false;
}

abbrev plaintexts : Rendered
plaintexts = record { hashes = (9 ∷ []) ∷ []; hex = (7 ∷ []) ∷ [] }

-- Two shares open the one ciphertext as the byte 7.
abbrev opening : Opening ℕ
opening = record {
  batch_combine_messages = λ capsules shares. some (elim capsules [ [] ↦ [] | c ∷ cs ↦ 7 ∷ [] ]);
  decrypt_tx = λ m c. some (m ∷ []);
}

abbrev ciphertext : Bte.Ciphertext ℕ
ciphertext = record {
  capsule = record {
    i = 2;
    gamma = 1;
    kp = 2;
    a = 3;
    b = 4;
    ap = 5;
    bp = 6;
    yp = 7;
    k_hat = 8;
    u_hat = 9;
  };
  encrypted_tx = [];
}

-- The cluster's view of the plan.
abbrev cluster_plan : BatchPlan → Bte.BatchPlan ℕ
cluster_plan p = record {
  batch_id = p.batch_id;
  alpha = 1;
  sub_batches = (record { original_position = 0; ciphertext = ciphertext } ∷ []) ∷ [];
}

abbrev rendered : Map Bytes → Rendered
rendered [] = record { hashes = []; hex = [] }
rendered ((i, r) ∷ m) =
    let rest = rendered m in record { hashes = (9 ∷ []) ∷ rest.hashes; hex = r ∷ rest.hex }

abbrev curve : Curve
curve = record {
  point_size = 1;
  marshal_point = λ p. some p;
  unmarshal_point_hex = λ s. some s;
  decode_hex = λ s. some s;
}

abbrev no_list : ℕ → ℕ → List EncryptedPlaceholder → Option Bytes
no_list slot id items = some []

abbrev setting : Setting
setting = cluster_setting opening settings curve cluster_plan rendered no_list

abbrev zeros : ℕ → Bytes
zeros zero = []
zeros (suc k) = 0 ∷ zeros k

abbrev the_plan : BatchPlan
the_plan = record { batch_id = zeros 64; sub_batches = (0 ∷ []) ∷ [] }

abbrev own_share : DecryptionShare
own_share = record {
  operator_id = 0;
  batch_id = zeros 64;
  sub_batch_id = 0;
  share = some (record { i = 0; v = some (5 ∷ 5 ∷ []) });
}

abbrev wire_share : WireShare
wire_share = record {
  operator_id = 1;
  batch_id_hex = zeros 64;
  sub_batch_id = 0;
  point_hex = 6 ∷ 6 ∷ [];
}

abbrev transaction : EncryptedPlaceholder
transaction = record {
  hash = 3 ∷ [];
  ciphertext = 4 ∷ [];
  gas = 21000;
  effective_fee_per_gas_wei = 48 ∷ [];
  from = [];
  nonce = 0;
  kind = [];
}

abbrev submitted : Node
unfolding new_node store_pending
submitted =
    with_slot (store_pending settings (setting.encode_list) transaction 30 ((new_node 5).slot)).0
      (new_node 5)

abbrev begun : Node
unfolding begin_consensus
begun = (begin_consensus submitted).0

abbrev planned_node : Node
unfolding store_plan
planned_node = with_slot (store_plan settings the_plan no_material (begun.slot)) begun

abbrev with_own : Node
unfolding add_share
with_own =
    with_slot (add_share settings (setting.curve) own_share (planned_node.slot)).0 planned_node

abbrev with_wire : Node
unfolding add_wire_share
with_wire =
    with_slot (add_wire_share settings (setting.curve) wire_share (with_own.slot)).0 with_own

abbrev prepared_node : Node
unfolding finish_share_generation
prepared_node = with_slot (finish_share_generation (with_wire.slot)) with_wire

abbrev claimed_node : Node
unfolding claim_combine
claimed_node = with_slot (claim_combine settings (prepared_node.slot)).0 prepared_node

abbrev counted_node : Node
unfolding record_combine_stats
counted_node = with_slot (record_combine_stats (1 ∷ []) (claimed_node.slot)) claimed_node

abbrev finished_node : Node
unfolding finish_combine
finished_node = finish_combine (attempt_of settings (prepared_node.slot)) plaintexts counted_node

abbrev outcome : Node → (Option (List Bytes)) × ℕ × ℕ × ℕ
outcome n = (
  elim n.slot.result [ none ↦ none | some r ↦ some r.materialized.plaintexts_hex ],
  n.completed_slots,
  n.slot.counters.shares_accepted,
  n.slot.counters.share_subset_attempts,
)

finished_run : outcome finished_node ≡ (some ((7 ∷ []) ∷ []), 1, 2, 1)
unfolding new_node new_slot_state store_pending begin_consensus store_plan add_share add_wire_share
    finish_share_generation claim_combine record_combine_stats finish_combine total
finished_run = refl

abbrev at_rest : Node → World
at_rest n = record { node = n; flights = [] }

abbrev flying_world : World
flying_world = record {
  node = claimed_node;
  flights = combining (attempt_of settings (prepared_node.slot)) ∷ [];
}

abbrev landed_world : World
landed_world = record {
  node = counted_node;
  flights = combined (attempt_of settings (prepared_node.slot)) plaintexts ∷ [];
}

abbrev quiet :
    (n n' : Node) → Reach setting 5 (at_rest n) → Local setting n n' → Reach setting 5 (at_rest n')
quiet n n' r l = reach_step (at_rest n) (at_rest n') r (step_local n n' [] l)

to_prepared : Reach setting 5 (at_rest prepared_node)
unfolding submitted begin_consensus begun planned_node with_own with_wire prepared_node
to_prepared =
    quiet with_wire prepared_node
      (quiet with_own with_wire
        (quiet planned_node with_own
          (quiet begun planned_node
            (quiet submitted begun
              (quiet (new_node 5) submitted reach_start (local_submit (new_node 5) transaction 30))
              (local_begin submitted))
            (local_plan begun the_plan no_material))
          (local_own_share planned_node own_share))
        (local_wire_share with_own wire_share))
      (local_generated with_wire)

to_flying : Step setting (at_rest prepared_node) flying_world
unfolding new_node new_slot_state store_pending begin_consensus store_plan add_share add_wire_share
    finish_share_generation claim_combine
to_flying = step_claim prepared_node []

to_landed : Step setting flying_world landed_world
unfolding new_node new_slot_state store_pending begin_consensus store_plan add_share add_wire_share
    finish_share_generation claim_combine counted_node cluster_combiner
to_landed = step_record claimed_node [] (attempt_of settings prepared_node.slot) []

to_finished : Reach setting 5 (at_rest finished_node)
unfolding finish_combine finished_node
to_finished =
    reach_step landed_world (at_rest finished_node)
      (reach_step flying_world landed_world
        (reach_step (at_rest prepared_node) flying_world to_prepared to_flying) to_landed)
      (step_finish counted_node [] (attempt_of settings prepared_node.slot) plaintexts [])

reach-Sound_example : Sound (at_rest finished_node)
reach-Sound_example = reach-Sound setting 5 (at_rest finished_node) to_finished

reach-Pooled_example : Pooled settings finished_node.slot
reach-Pooled_example = reach-Pooled setting 5 (at_rest finished_node) to_finished

reach-Moves_example : Moves (service_of 5) (view finished_node)
reach-Moves_example = reach-Moves setting 5 (at_rest finished_node) to_finished

outcomes_once_example :
    Descending (suc finished_node.slot.id) (outcomes setting 5 (at_rest finished_node) to_finished)
    × (finished_node.slot.id ≡ finished_node.last_slot)
    × (finished_node.completed_slots
        ≡ completions (outcomes setting 5 (at_rest finished_node) to_finished))
    × (finished_node.failed_slots
        ≡ failures (outcomes setting 5 (at_rest finished_node) to_finished))
outcomes_once_example = outcomes_once setting 5 (at_rest finished_node) to_finished

reach-budget_example :
    (finished_node.slot.counters.share_subset_attempts
        + total finished_node.slot.combine_attempts_left
      ≡ length finished_node.slot.plan.sub_batches * 8)
    × (finished_node.slot.counters.share_subset_attempts
        ≤ length finished_node.slot.plan.sub_batches * 8)
    × (length finished_node.slot.combine_attempts_left ≡ length finished_node.slot.plan.sub_batches)
reach-budget_example =
    reach-budget setting (cluster_combiner-Limited opening settings cluster_plan rendered) 5
      (at_rest finished_node) to_finished

-- Here the attempt fails.
try_combine_once_example :
    try_combine settings (λ a. (none, 1 ∷ [])) 7 prepared_node
    ≡ try_combine settings (λ a. (none, 1 ∷ [])) 1 prepared_node
try_combine_once_example = try_combine_once settings (λ a. (none, 1 ∷ [])) 6 prepared_node

attempts_bounded_example :
    finished_node.slot.counters.share_subset_attempts
    ≤ length finished_node.slot.plan.sub_batches * 8
attempts_bounded_example =
    attempts_bounded opening settings curve cluster_plan rendered no_list 5 (at_rest finished_node)
      to_finished
