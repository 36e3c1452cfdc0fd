-- ===== src/Node/Steps.antt =====
-- What a node can do from one lock to the next (bloc-node/internal/app/node.go), in any order in
-- which its goroutines take the locks. `prepareSlot` holds the lifecycle lock alone, so that no
-- combination is under way then. Each combination is a `Flight` from its claim to its release.
pub mod Core
pub mod Sound
pub mod Pooled
pub mod Phases
pub mod Outcomes
pub mod Spending
pub mod Budgeting
pub mod Budget
pub mod Progress
use bloc.Prelude.{ℕ, suc, ◌≤◌, ◌≡◌, Bool, Option, none, some, List, [], ◌∷◌, ◌++◌}
use bloc.Prelude.Bytes.{Bytes}
use bloc.Inclusion.{EncryptedPlaceholder, AgreedInclusionSet, MergedEncryptedSet}
use bloc.Node.{NodeSettings, DecryptionShare, BatchPlan, Material, SlotState, Node, new_node}
use bloc.Node.Shares.{Curve, WireShare, add_share, add_wire_share}
use bloc.Node.Lifecycle.{
  FailureReason, prepare_slot_with_limit, mark_slot_failed, begin_consensus, store_pending,
  finish_empty_materialized_set,
}
use bloc.Node.Combine.{
  CombineAttempt, Rendered, Combiner, store_plan, claim_combine, record_combine_stats,
  finish_failed_combine, finish_combine, finish_share_generation,
}

-- A combination that was claimed, or whose attempts are already counted.
pub data Flight : Type 0 where
  combining : CombineAttempt → Flight
  combined : CombineAttempt → Rendered → Flight
  missed : CombineAttempt → Flight

-- What the combiner's answer makes of a flight.
abbrev pub landing : CombineAttempt → Option Rendered → Flight
landing a none = missed a
landing a (some r) = combined a r

abbrev pub claimed : Option CombineAttempt → List Flight → List Flight
claimed none fs = fs
claimed (some a) fs = fs ++ combining a ∷ []

pub record World : Type 0 where
  pub node : Node
  pub flights : List Flight

abbrev pub with_slot : SlotState → Node → Node
with_slot s n = record n { slot = s }

-- What the configuration and the code outside of this file are.
pub record Setting : Type 0 where
  pub cfg : NodeSettings
  pub curve : Curve
  pub combiner : Combiner
  pub encode_list : ℕ → ℕ → List EncryptedPlaceholder → Option Bytes

-- A step that no flight takes part in.
pub data Local (e : Setting) : Node → Node → Type 0 where
  local_submit :
      (n : Node) (item : EncryptedPlaceholder) (raw_bytes : ℕ)
      → Local e n (with_slot (store_pending (e.cfg) (e.encode_list) item raw_bytes (n.slot)).0 n)
  local_begin : (n : Node) → Local e n (begin_consensus n).0
  local_fail : (n : Node) (reason : FailureReason) → Local e n (mark_slot_failed reason n)
  local_empty :
      (n : Node) (agreed : AgreedInclusionSet) (merged : MergedEncryptedSet)
      → Local e n (finish_empty_materialized_set agreed merged n)
  local_plan :
      (n : Node) (plan : BatchPlan) (material : Material)
      → Local e n (with_slot (store_plan (e.cfg) plan material (n.slot)) n)
  local_own_share :
      (n : Node) (d : DecryptionShare)
      → Local e n (with_slot (add_share (e.cfg) (e.curve) d (n.slot)).0 n)
  local_wire_share :
      (n : Node) (w : WireShare)
      → Local e n (with_slot (add_wire_share (e.cfg) (e.curve) w (n.slot)).0 n)
  local_generated : (n : Node) → Local e n (with_slot (finish_share_generation (n.slot)) n)

pub data Step (e : Setting) : World → World → Type 0 where
  step_local :
      (n n' : Node) (fs : List Flight)
      → Local e n n'
      → Step e (record { node = n; flights = fs }) (record { node = n'; flights = fs })
  step_prepare :
      (n : Node) (finalized : Bool) (slot_id limit : ℕ)
      → Step e
          (record { node = n; flights = [] })
          (record {
            node = (prepare_slot_with_limit (e.cfg) finalized slot_id limit n).0;
            flights = [];
          })
  step_claim :
      (n : Node) (fs : List Flight)
      → Step e
          (record { node = n; flights = fs })
          (record {
            node = with_slot (claim_combine (e.cfg) (n.slot)).0 n;
            flights = claimed (claim_combine (e.cfg) (n.slot)).1 fs;
          })
  step_record :
      (n : Node) (before : List Flight) (a : CombineAttempt) (after : List Flight)
      → Step e
          (record { node = n; flights = before ++ combining a ∷ after })
          (record {
            node = with_slot (record_combine_stats ((e.combiner) a).1 (n.slot)) n;
            flights = before ++ landing a ((e.combiner) a).0 ∷ after;
          })
  step_finish :
      (n : Node) (before : List Flight) (a : CombineAttempt) (r : Rendered) (after : List Flight)
      → Step e
          (record { node = n; flights = before ++ combined a r ∷ after })
          (record { node = finish_combine a r n; flights = before ++ after })
  step_release :
      (n : Node) (before : List Flight) (a : CombineAttempt) (after : List Flight)
      → Step e
          (record { node = n; flights = before ++ missed a ∷ after })
          (record {
            node = with_slot (finish_failed_combine a.share_version (n.slot)).0 n;
            flights = before ++ after;
          })

-- The worlds that a node of a first slot can come to.
pub data Reach (e : Setting) (first : ℕ) : World → Type 0 where
  reach_start : Reach e first (record { node = new_node first; flights = [] })
  reach_step : (w w' : World) → Reach e first w → Step e w w' → Reach e first w'
