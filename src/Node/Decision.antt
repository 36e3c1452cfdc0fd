-- ===== src/Node/Decision.antt =====
-- What a node does with the output of a slot (bloc-node/internal/app/node.go: `handleACSOutput`,
-- `decodeAcceptedLists`). The protobuf decoding of a list, the curve and the hash functions are the
-- record `DecisionEnv`.
pub mod Agreement
pub mod Runs
use bloc.Prelude.{
  ℕ, suc, ◌+◌, Bool, true, false, not, ◌&&◌, ◌||◌, Option, none, some, List, [], ◌∷◌, ◌++◌, ◌==◌,
  if◌then◌else◌, is_nil, map,
}
use bloc.Prelude.Bytes.{Bytes}
use bloc.Prelude.Results.{◌>>=◌}
use bloc.Hbbft.Slot.{AcceptedBatch, SlotOutput}
use bloc.Inclusion.{
  EncryptedPlaceholder, InclusionList, AgreedInclusionSet, MergedEncryptedSet, BlockspaceConfig,
  Hashing, Unique, dedupe_lists, new_agreed_set, merge_ranged,
}
use bloc.Bte
use bloc.Bte.Wire.{Elements}
use bloc.Bte.Batch.{DecodedBatch, decode_batch, plan_decoded_batch}
use bloc.Node.{NodeSettings, DecryptionShare, BatchPlan, Material, SlotState, Node}
use bloc.Node.Shares.{Curve, WireShare, RejectReason, add_share}
use bloc.Node.Lifecycle.{
  is_some, FailureReason, decode, planning, share, mark_slot_failed, material_of,
  finish_empty_materialized_set,
}
use bloc.Node.Combine.{Combiner, store_plan, finish_share_generation, try_combine}

pub record DecisionEnv (El : Type 0) : Type 0 where
  pub decode_list : Bytes → Option InclusionList
  pub hashing : Hashing
  pub range : Unique → Unique  -- the order in which the map of candidates is ranged over
  pub elements : Elements El
  pub sha256 : Bytes → Bytes
  pub ceil_two_sqrt : ℕ → ℕ
  pub params : Bte.PublicParams

-- Every accepted batch is a list of this slot and of its proposer.
unfoldable pub decode_accepted_lists :
    (Bytes → Option InclusionList) → ℕ → List AcceptedBatch → Option (List InclusionList)
decode_accepted_lists decode_list slot [] = some []
decode_accepted_lists decode_list slot (a ∷ as_) = decode_list (a.batch) >>= λ l.
    if not (l.slot == slot)
    then none
    else if not (l.operator_id == a.proposer_id)
    then none
    else decode_accepted_lists decode_list slot as_ >>= λ ls. some (l ∷ ls)

abbrev pub ciphertexts_of : List EncryptedPlaceholder → List Bytes
ciphertexts_of [] = []
ciphertexts_of (i ∷ is) = i.ciphertext ∷ ciphertexts_of is

-- Of a plan the node keeps the positions.
abbrev pub positions : {El : Type 0} → Bte.BatchPlan El → BatchPlan
positions p = record {
  batch_id = p.batch_id;
  sub_batches = map (λ s. map (λ t. t.original_position) s) (p.sub_batches);
}

-- What an output decides.
pub data Decision : Type 0 where
  lost : FailureReason → Decision
  nothing_selected : AgreedInclusionSet → MergedEncryptedSet → Decision
  to_decrypt : BatchPlan → Material → Decision

module _ {El : Type 0} (env : DecisionEnv El) where
  -- The plan of the merged set, or that there is nothing to decrypt.
  abbrev pub plan_merged : ℕ → AgreedInclusionSet → MergedEncryptedSet → Decision
  plan_merged slot agreed merged =
      elim (decode_batch (env.params) (env.elements) (env.sha256) (ciphertexts_of (merged.items))) [
        | none ↦ lost decode
        | some decoded ↦
            if is_nil (decoded.ciphertexts)
            then nothing_selected agreed merged
            else elim (plan_decoded_batch (env.params) (env.ceil_two_sqrt) decoded) [
              | none ↦ lost planning
              | some plan ↦ to_decrypt (positions plan) (material_of slot agreed merged)
            ]
      ]

  -- In terms of what it reads of the configuration and of the output.
  unfoldable pub decide_on : ℕ → BlockspaceConfig → ℕ → ℕ → List AcceptedBatch → Decision
  unfolding decode_accepted_lists
  decide_on bmax blockspace slot out_slot batches =
      if not (out_slot == slot)
      then lost decode
      else elim (decode_accepted_lists (env.decode_list) slot batches) [
        | none ↦ lost decode
        | some lists ↦ plan_merged slot (new_agreed_set (env.hashing) slot lists) (
            merge_ranged (env.hashing) slot
              (env.range (dedupe_lists (env.hashing) lists ([], [])).0) blockspace bmax)
      ]

  unfoldable pub decide : NodeSettings → ℕ → SlotOutput → Decision
  decide cfg slot out = decide_on (cfg.bmax) (cfg.blockspace) slot (out.slot) (out.ordered_batches)

-- The sections of `handleACSOutput` up to the plan.
unfoldable pub apply_decision : NodeSettings → Decision → Node → Node
unfolding mark_slot_failed finish_empty_materialized_set store_plan
apply_decision cfg (lost reason) n = mark_slot_failed reason n
apply_decision cfg (nothing_selected agreed merged) n =
    finish_empty_materialized_set agreed merged n
apply_decision cfg (to_decrypt plan material) n = record n {
  slot = store_plan cfg plan material (n.slot);
}

-- The cluster's share of a sub-batch, and the switches of a faulty node.
pub record Sharing : Type 0 where
  pub make_share : BatchPlan → ℕ → Option DecryptionShare
  pub marshal_share : DecryptionShare → Option WireShare
  pub withhold_share : Bool
  pub corrupt_share : Bool

-- corruptHex, on the digits `0` and `1`.
unfoldable pub corrupt_hex : Bytes → Bytes
corrupt_hex [] = []
corrupt_hex (c ∷ s) = if c == 48 then 49 ∷ s else 48 ∷ s

abbrev pub sent_share : Sharing → WireShare → WireShare
sent_share f w = if f.corrupt_share then record w { point_hex = corrupt_hex (w.point_hex) } else w

-- The node's own shares from sub-batch `j` on: the node, the shares sent to every peer, and whether
-- the loop came to its end.
unfoldable pub generate_shares :
    NodeSettings → Curve → Sharing → ℕ → List (List ℕ) → Node → Node × List WireShare × Bool
unfolding add_share mark_slot_failed corrupt_hex
generate_shares cfg curve f j [] n = (n, [], true)
generate_shares cfg curve f j (s ∷ ss) n =
    let skipped = generate_shares cfg curve f (suc j) ss n in
    if f.withhold_share then skipped else elim (f.make_share (n.slot.plan) j) [
      | none ↦ (mark_slot_failed share n, [], false)
      | some d ↦
          let added = add_share cfg curve d (n.slot) in
          let n' = record n { slot = added.0 } in
          elim added.1 [
            | some reason ↦ (n', [], false)
            | none ↦ elim (f.marshal_share d) [
              | none ↦ (mark_slot_failed share n', [], false)
              | some w ↦
                  let rest = generate_shares cfg curve f (suc j) ss n' in
                  (rest.0, sent_share f w ∷ rest.1, rest.2)
            ]
          ]
    ]

-- The sections after the decision, from the node `m` to which it was applied; `n` is the node before.
unfoldable pub follow_decision :
    NodeSettings → Curve → Sharing → Combiner → ℕ → Node → Node → Decision → Node × List WireShare
unfolding generate_shares finish_share_generation try_combine
follow_decision cfg curve f combiner fuel n m (lost reason) = (m, [])
follow_decision cfg curve f combiner fuel n m (nothing_selected agreed merged) = (m, [])
follow_decision cfg curve f combiner fuel n m (to_decrypt plan material) =
    let shared = generate_shares cfg curve f 0 (m.slot.plan.sub_batches) m in
    if n.slot.planned || is_some (n.slot.failure)
    then (m, [])
    else if not (shared.2)
    then (shared.0, shared.1)
    else (
      try_combine cfg combiner fuel
          (record (shared.0) { slot = finish_share_generation (shared.0.slot) }),
      shared.1,
    )

-- The whole of `handleACSOutput`, with nothing between its sections.
unfoldable pub handle_acs_output :
    {El : Type 0}
    → DecisionEnv El
    → NodeSettings
    → Curve
    → Sharing
    → Combiner
    → ℕ
    → SlotOutput
    → Node
    → Node × List WireShare
unfolding decide apply_decision follow_decision
handle_acs_output env cfg curve f combiner fuel out n =
    let d = decide env cfg (n.slot.id) out in
    follow_decision cfg curve f combiner fuel n (apply_decision cfg d n) d
