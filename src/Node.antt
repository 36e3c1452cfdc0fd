-- ===== src/Node.antt =====
-- The node of one operator (bloc-node/internal/app: types.go, node.go). What the locks guard is the
-- record `SlotState`; each locked section of the source is one function. Clock readings, logs and
-- traces are left out. An operator or sub-batch id is a Go int that is not negative: the source
-- refuses the others as it refuses an id that is too large or not configured.
pub mod Shares
pub mod Lifecycle
pub mod Combine
pub mod Steps
pub mod Decision
pub mod Cluster
pub mod Inbound
use bloc.Prelude.{ℕ, Bool, true, false, Option, none, some, List, [], ◌∷◌, ◌-◌, ◌/◌}
use bloc.Prelude.Maps.{Map}
use bloc.Prelude.Bytes.{Bytes}
use bloc.Inclusion.{EncryptedPlaceholder, BlockspaceConfig}

-- The parts of ConfigFile that the protocol reads, with the operator's own id; `node_ids` are the
-- keys of `peers` in order.
pub record NodeSettings : Type 0 where
  pub id : ℕ
  pub node_ids : List ℕ
  pub bmax : ℕ
  pub n : ℕ
  pub threshold : ℕ
  pub max_proposal_bytes : ℕ
  pub max_combine_attempts : ℕ
  pub blockspace : BlockspaceConfig
  pub acs_trace : Bool

-- A curve point, which the node sees through its encoding only.
abbrev pub Point : Type 0
Point = Bytes

pub record PubShare : Type 0 where
  pub i : ℕ  -- uint32
  pub v : Option Point

pub record DecryptionShare : Type 0 where
  pub operator_id : ℕ
  pub batch_id : Bytes
  pub sub_batch_id : ℕ
  pub share : Option PubShare

pub record RetainedShare : Type 0 where
  pub value : DecryptionShare
  pub encoded : Bytes

-- One operator's candidates.
pub record Candidates : Type 0 where
  pub batch_id : Bytes
  pub batch_set : Bool
  pub shares : Map RetainedShare

-- Of a plan the node reads the identity and the sub-batches, here as the positions of their items.
pub record BatchPlan : Type 0 where
  pub batch_id : Bytes
  pub sub_batches : List (List ℕ)

pub data SlotPhase : Type 0 where
  prepared running completed failed : SlotPhase

pub record SlotFailure : Type 0 where
  pub slot : ℕ
  pub reason : Bytes

-- Without the summaries of the Ethereum transactions.
pub record Material : Type 0 where
  pub slot : ℕ
  pub agreed_set_hash : Bytes
  pub merged_set_hash : Bytes
  pub selected_gas : ℕ
  pub encrypted_hashes : List Bytes
  pub plaintext_hashes : List Bytes
  pub plaintexts_hex : List Bytes

-- The plaintexts are those of the material; latency, metrics and trace are left out.
pub record SlotResult : Type 0 where
  pub slot : ℕ
  pub batch_id : Bytes
  pub ciphertexts : ℕ
  pub materialized : Material

-- The counters that the locked sections change.
pub record Counters : Type 0 where
  pub shares_accepted : ℕ
  pub shares_rejected : ℕ
  pub shares_generated : ℕ
  pub combine_attempts : ℕ
  pub share_subset_attempts : ℕ
  pub submitted_txs : ℕ
  pub submitted_bytes : ℕ

pub record SlotState : Type 0 where
  pub id : ℕ  -- uint64
  pub proposal_limit : ℕ
  pub phase : SlotPhase
  pub started : Bool  -- startOnce
  pub pending : List EncryptedPlaceholder
  pub seen_pending : List Bytes
  pub plan : BatchPlan
  pub material : Material
  pub planned : Bool
  pub share_generation_done : Bool
  pub combine_in_flight : Bool
  pub share_version : ℕ  -- uint64, one for each accepted share
  pub share_candidates : Map Candidates
  pub combine_attempts_left : List ℕ
  pub result : Option SlotResult
  pub failure : Option SlotFailure
  pub counters : Counters

abbrev pub no_counters : Counters
no_counters = record {
  shares_accepted = 0;
  shares_rejected = 0;
  shares_generated = 0;
  combine_attempts = 0;
  share_subset_attempts = 0;
  submitted_txs = 0;
  submitted_bytes = 0;
}

abbrev pub no_material : Material
no_material = record {
  slot = 0;
  agreed_set_hash = [];
  merged_set_hash = [];
  selected_gas = 0;
  encrypted_hashes = [];
  plaintext_hashes = [];
  plaintexts_hex = [];
}

unfoldable pub new_slot_state : ℕ → ℕ → SlotState
new_slot_state slot_id proposal_limit = record {
  id = slot_id;
  proposal_limit = proposal_limit;
  phase = prepared;
  started = false;
  pending = [];
  seen_pending = [];
  plan = record { batch_id = []; sub_batches = [] };
  material = no_material;
  planned = false;
  share_generation_done = false;
  combine_in_flight = false;
  share_version = 0;
  share_candidates = [];
  combine_attempts_left = [];
  result = none;
  failure = none;
  counters = no_counters;
}

-- The slot in progress, with what the node keeps from slot to slot.
pub record Node : Type 0 where
  pub last_slot : ℕ
  pub completed_slots : ℕ
  pub failed_slots : ℕ
  pub slot : SlotState

unfoldable pub new_node : ℕ → Node
unfolding new_slot_state
new_node slot_id = record {
  last_slot = slot_id;
  completed_slots = 0;
  failed_slots = 0;
  slot = new_slot_state slot_id 0;
}
