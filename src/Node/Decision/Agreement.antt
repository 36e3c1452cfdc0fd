-- ===== src/Node/Decision/Agreement.antt =====
-- Nodes that agree on a subset decide alike (sbc/hbbft/bloc_slot.go and
-- bloc-node/internal/app/node.go: `handleACSOutput`).
use mathlib.Core.List.{Permᴰ}
use mathlib.Core.List.Permᴰ
use bloc.Prelude.{
  ℕ, ◌≡◌, refl, sym, ap, ◌∙◌, Bool, true, false, Option, some, [], ◌==◌, not, if◌then◌else◌,
  Option-cases, inl, inr,
}
use bloc.Prelude.Maps.{Map, IsMap, lookup}
use bloc.Prelude.Bytes.{Bytes}
use bloc.Hbbft.Slot.{SlotOutput, ordered_batches}
use bloc.Hbbft.Slot.Order.{ordered_batches-deterministic}
use bloc.Inclusion.{Unique, dedupe_lists, merge, merge_ranged, new_agreed_set}
use bloc.Inclusion.Order.{merge-ranged}
use bloc.Node.{NodeSettings, BatchPlan, Material, SlotResult, SlotFailure, SlotState, Node}
use bloc.Node.Lifecycle.{
  is_some, decode, reason_text, mark_slot_failed, material_of, finish_empty_materialized_set,
}
use bloc.Node.Combine.{store_plan}
use bloc.Node.Decision.{
  DecisionEnv, decode_accepted_lists, Decision, lost, nothing_selected, to_decrypt, plan_merged,
  decide_on, decide, apply_decision,
}

-- What of a slot the decision fixes.
pub record Verdict : Type 0 where
  pub planned : Bool
  pub plan : BatchPlan
  pub material : Material
  pub result : Option SlotResult
  pub failure : Option SlotFailure

abbrev pub verdict : SlotState → Verdict
verdict s = record {
  planned = s.planned;
  plan = s.plan;
  material = s.material;
  result = s.result;
  failure = s.failure;
}

pub record Undecided (s : SlotState) : Type 0 where
  pub no_result : is_some s.result ≡ false
  pub no_failure : is_some s.failure ≡ false
  pub unplanned : s.planned ≡ false

-- The verdict that a decision brings to an undecided slot of an id.
abbrev verdict_of : Decision → ℕ → Verdict → Verdict
verdict_of (lost reason) id v = record v {
  failure = some (record { slot = id; reason = reason_text reason });
}
verdict_of (nothing_selected agreed merged) id v = record v {
  planned = true;
  material = material_of id agreed merged;
  result = some (record {
    slot = id;
    batch_id = [];
    ciphertexts = 0;
    materialized = material_of id agreed merged;
  });
}
verdict_of (to_decrypt plan material) id v = record v {
  planned = true;
  plan = plan;
  material = material;
}

verdict-apply :
    (cfg : NodeSettings) (d : Decision) (n : Node)
    → Undecided n.slot
    → verdict (apply_decision cfg d n).slot ≡ verdict_of d n.slot.id (verdict n.slot)
unfolding apply_decision mark_slot_failed finish_empty_materialized_set store_plan
verdict-apply cfg (lost reason) n u = rw (u.no_result, u.no_failure) refl
verdict-apply cfg (nothing_selected agreed merged) n u =
    rw (u.no_result, u.no_failure, u.unplanned) refl
verdict-apply cfg (to_decrypt plan material) n u = rw (u.no_failure, u.unplanned) refl

-- A `range` loop visits each entry of the map once.
abbrev pub RangesOver : (Unique → Unique) → Type 0
RangesOver range = (u : Unique) → Permᴰ u (range u)

module _ {El : Type 0} (env : DecisionEnv El) where
  -- A call on the same process, whose map is ranged over in an order of its own.
  abbrev pub ranging : (Unique → Unique) → DecisionEnv El
  ranging range = record env { range = range }

  decide-ranging :
      (range : Unique → Unique) (cfg : NodeSettings) (slot : ℕ) (out : SlotOutput)
      → RangesOver range
      → decide (ranging range) cfg slot out ≡ decide (ranging (λ u. u)) cfg slot out
  unfolding decide decide_on
  decide-ranging range cfg slot out r =
      elim (Option-cases (decode_accepted_lists env.decode_list slot out.ordered_batches)) [
        | inl q ↦ rw q refl
        | inr (lists, q) ↦
            let u = (dedupe_lists env.hashing lists ([], [])).0 in
            let merges : (o : Unique)
                → Permᴰ u o
                → merge_ranged env.hashing slot o cfg.blockspace cfg.bmax
                  ≡ merge env.hashing slot lists cfg.blockspace cfg.bmax =
              λ o p. merge-ranged env.hashing slot lists o cfg.blockspace cfg.bmax p in
            rw q (
              ap
                (λ m.
                  if not (out.slot == slot)
                  then lost decode
                  else plan_merged env slot (new_agreed_set env.hashing slot lists) m)
                (merges (range u) (r u) ∙ sym (merges u (Permᴰ.refl u))))
      ]

  decide-same :
      (cfg cfg' : NodeSettings) (slot : ℕ) (out out' : SlotOutput)
      → cfg.bmax ≡ cfg'.bmax
      → cfg.blockspace ≡ cfg'.blockspace
      → out.slot ≡ out'.slot
      → out.ordered_batches ≡ out'.ordered_batches
      → decide (ranging (λ u. u)) cfg slot out ≡ decide (ranging (λ u. u)) cfg' slot out'
  unfolding decide
  decide-same cfg cfg' slot out out' b s i o = rw (b, s, i, o) refl

  -- Two nodes whose outputs of a slot hold the same agreed subset as a map, in whatever order of its
  -- entries, and whose configurations have the same maximum of a batch and the same limits, come
  -- from equal undecided states to the same verdict, in whatever orders they range over their maps of
  -- candidates: both plan the same batch and material, both complete with the same empty material,
  -- or both fail for the same reason.
  pub verdicts_agree :
      (range range' : Unique → Unique) (cfg cfg' : NodeSettings) (m m' : Map Bytes)
      (out out' : SlotOutput) (n n' : Node)
      → RangesOver range
      → RangesOver range'
      → cfg.bmax ≡ cfg'.bmax
      → cfg.blockspace ≡ cfg'.blockspace
      → IsMap m
      → IsMap m'
      → ((j : ℕ) → lookup j m ≡ lookup j m')
      → out.ordered_batches ≡ ordered_batches m
      → out'.ordered_batches ≡ ordered_batches m'
      → out.slot ≡ out'.slot
      → n.slot.id ≡ n'.slot.id
      → Undecided n.slot
      → Undecided n'.slot
      → verdict n.slot ≡ verdict n'.slot
      → verdict (apply_decision cfg (decide (ranging range) cfg n.slot.id out) n).slot
        ≡ verdict (apply_decision cfg' (decide (ranging range') cfg' n'.slot.id out') n').slot
  verdicts_agree range range' cfg cfg' m m' out out' n n' r r' b s dm dm' same o o' slot id u u' v =
      let batches : out.ordered_batches ≡ out'.ordered_batches =
        o ∙ ordered_batches-deterministic m m' dm dm' same ∙ sym o' in
      let d =
        decide-ranging range cfg n.slot.id out r
        ∙ decide-same cfg cfg' n.slot.id out out' b s slot batches
        ∙ sym (decide-ranging range' cfg' n.slot.id out' r') in
      verdict-apply cfg (decide (ranging range) cfg n.slot.id out) n u
      ∙ ap (λ x. verdict_of x n.slot.id (verdict n.slot)) d
      ∙ ap (λ i. verdict_of (decide (ranging range') cfg' i out') i (verdict n.slot)) id
      ∙ ap (verdict_of (decide (ranging range') cfg' n'.slot.id out') n'.slot.id) v
      ∙ sym (verdict-apply cfg' (decide (ranging range') cfg' n'.slot.id out') n' u')
