-- ===== src/Node/Lifecycle.antt =====
-- The life of a slot on a node (bloc-node/internal/app/node.go): preparation, submitted
-- transactions, the start, failure, and the result of a slot with nothing to decrypt. Encryption and
-- the protobuf encoding of a list are arguments.
use bloc.Prelude.{
  ℕ, suc, ◌+◌, ◌%◌, Bool, true, false, not, ◌&&◌, ◌||◌, Option, none, some, List, [], ◌∷◌, ◌++◌,
  ◌==◌, ltb, leb, if◌then◌else◌, length,
}
use bloc.Prelude.Bytes.{Bytes, bytes_eq}
use bloc.Prelude.Text.{to_lower}
use bloc.Inclusion.{
  EncryptedPlaceholder, AgreedInclusionSet, MergedEncryptedSet, encrypted_hashes, or_default,
  placeholder_kind, zero_text, parse_big_int,
}
use bloc.Node.{
  NodeSettings, SlotPhase, prepared, running, completed, failed, Material, SlotState,
  new_slot_state, Node,
}

abbrev pub is_some {ℓ} : {A : Type ℓ} → Option A → Bool
is_some none = false
is_some (some a) = true

abbrev pub terminal : SlotPhase → Bool
terminal prepared = false
terminal running = false
terminal completed = true
terminal failed = true

abbrev pub is_prepared : SlotPhase → Bool
is_prepared prepared = true
is_prepared running = false
is_prepared completed = false
is_prepared failed = false

abbrev pub is_completed : SlotPhase → Bool
is_completed prepared = false
is_completed running = false
is_completed completed = true
is_completed failed = false

pub data PrepareError : Type 0 where
  limit_out_of_range not_greater not_finished trace_pending : PrepareError

-- `finalized`: whether the trace of the old slot is complete.
unfoldable pub prepare_slot_with_limit :
    NodeSettings → Bool → ℕ → ℕ → Node → Node × Option PrepareError
unfolding new_slot_state
prepare_slot_with_limit cfg finalized slot_id limit n =
    if ltb cfg.bmax limit
    then (n, some limit_out_of_range)
    else if slot_id == n.slot.id
        && is_prepared n.slot.phase
        && n.slot.proposal_limit == 0
        && ltb 0 limit
    then (record n { slot = record (n.slot) { proposal_limit = limit } }, none)
    else if leb slot_id n.last_slot
    then (n, some not_greater)
    else if not (terminal n.slot.phase)
    then (n, some not_finished)
    else if is_completed n.slot.phase && cfg.acs_trace && not finalized
    then (n, some trace_pending)
    else (record n { slot = new_slot_state slot_id limit; last_slot = slot_id }, none)

pub data FailureReason : Type 0 where
  proposal acs decode planning share combine unknown : FailureReason

-- The text of a reason.
abbrev pub reason_text : FailureReason → Bytes
reason_text proposal = 112 ∷ 114 ∷ 111 ∷ 112 ∷ 111 ∷ 115 ∷ 97 ∷ 108 ∷ []
reason_text acs = 97 ∷ 99 ∷ 115 ∷ []
reason_text decode = 100 ∷ 101 ∷ 99 ∷ 111 ∷ 100 ∷ 101 ∷ []
reason_text planning = 112 ∷ 108 ∷ 97 ∷ 110 ∷ 110 ∷ 105 ∷ 110 ∷ 103 ∷ []
reason_text share = 115 ∷ 104 ∷ 97 ∷ 114 ∷ 101 ∷ []
reason_text combine = 99 ∷ 111 ∷ 109 ∷ 98 ∷ 105 ∷ 110 ∷ 101 ∷ []
reason_text unknown = 117 ∷ 110 ∷ 107 ∷ 110 ∷ 111 ∷ 119 ∷ 110 ∷ []

-- The first outcome stays.
unfoldable pub mark_slot_failed : FailureReason → Node → Node
mark_slot_failed reason n =
    if is_some n.slot.result || is_some n.slot.failure then n else record n {
      slot = record (n.slot) {
        failure = some (record { slot = n.slot.id; reason = reason_text reason });
        phase = failed;
      };
      failed_slots = suc n.failed_slots;
    }

pub data StartError : Type 0 where
  already_failed already_completed : StartError

-- The first locked section of `startConsensus`, which `startOnce` runs once in a slot.
unfoldable pub begin_consensus : Node → Node × Option StartError
begin_consensus n =
    let s = record (n.slot) { started = true } in
    if n.slot.started
    then (n, none)
    else if is_some n.slot.failure
    then (record n { slot = s }, some already_failed)
    else if is_some n.slot.result
    then (record n { slot = s }, some already_completed)
    else (record n { slot = record s { phase = running } }, none)

unfoldable pub validate_proposal_bounds : NodeSettings → ℕ → ℕ → Bool
validate_proposal_bounds cfg item_count encoded_bytes =
    not (ltb cfg.bmax item_count) && not (ltb cfg.max_proposal_bytes encoded_bytes)

-- The transaction is decoded; an absent field is 0 or empty.
pub record SubmitTxRequest : Type 0 where
  pub raw_tx : Bytes
  pub gas : ℕ
  pub effective_fee_per_gas_wei : Bytes
  pub from : Bytes
  pub nonce : ℕ
  pub kind : Bytes

pub data SubmitError : Type 0 where
  not_prepared bad_fee encryption_failed too_many_items encoding_failed too_many_bytes : SubmitError

abbrev pub seen : Bytes → List Bytes → Bool
seen h [] = false
seen h (g ∷ gs) = if bytes_eq g h then true else seen h gs

module _ (cfg : NodeSettings) (encode_list : ℕ → ℕ → List EncryptedPlaceholder → Option Bytes) where
  -- The locked section of `handleSubmitTx` (`raw_bytes`: the length of the transaction).
  unfoldable pub store_pending :
      EncryptedPlaceholder → ℕ → SlotState → SlotState × Option SubmitError
  store_pending item raw_bytes s =
      if seen item.hash s.seen_pending
      then (s, none)
      else if leb cfg.bmax (length s.pending)
      then (s, some too_many_items)
      else elim (encode_list s.id cfg.id (s.pending ++ item ∷ [])) [
        | none ↦ (s, some encoding_failed)
        | some encoded ↦
            if ltb cfg.max_proposal_bytes (length encoded) then (s, some too_many_bytes) else (
              record s {
                pending = s.pending ++ item ∷ [];
                seen_pending = item.hash ∷ s.seen_pending;
                counters = record (s.counters) {
                  submitted_txs = s.counters.submitted_txs + 1;
                  submitted_bytes = s.counters.submitted_bytes + raw_bytes;
                };
              },
              none,
            )
      ]

  abbrev pub submitted_item : SubmitTxRequest → Bytes → Bytes → EncryptedPlaceholder
  submitted_item req hash encoded = record {
    hash = hash;
    ciphertext = encoded;
    gas = if req.gas == 0 then cfg.blockspace.default_tx_gas else req.gas;
    effective_fee_per_gas_wei = or_default req.effective_fee_per_gas_wei zero_text;
    from = to_lower req.from;
    nonce = req.nonce;
    kind = or_default req.kind placeholder_kind;
  }

  -- `encrypt` also marshals. The index of the ciphertext is the next free position.
  unfoldable pub handle_submit_tx :
      (encrypt : Bytes → ℕ → Option Bytes) (hash_hex : Bytes → Bytes)
      → SubmitTxRequest
      → SlotState
      → SlotState × Option SubmitError
  unfolding store_pending
  handle_submit_tx encrypt hash_hex req s =
      if not (is_prepared s.phase)
      then (s, some not_prepared)
      else if not (is_some (parse_big_int (or_default req.effective_fee_per_gas_wei zero_text)))
      then (s, some bad_fee)
      else elim (encrypt req.raw_tx (length s.pending % cfg.bmax)) [
        | none ↦ (s, some encryption_failed)
        | some encoded ↦
            store_pending (submitted_item req (hash_hex encoded) encoded) (length req.raw_tx) s
      ]

abbrev pub material_of : ℕ → AgreedInclusionSet → MergedEncryptedSet → Material
material_of slot agreed merged = record {
  slot = slot;
  agreed_set_hash = agreed.hash;
  merged_set_hash = merged.hash;
  selected_gas = merged.selected_gas;
  encrypted_hashes = encrypted_hashes merged.items;
  plaintext_hashes = [];
  plaintexts_hex = [];
}

-- A slot that selected nothing completes at once.
unfoldable pub finish_empty_materialized_set : AgreedInclusionSet → MergedEncryptedSet → Node → Node
finish_empty_materialized_set agreed merged n =
    let material = material_of n.slot.id agreed merged in
    if is_some n.slot.result || is_some n.slot.failure || n.slot.planned then n else record n {
      slot = record (n.slot) {
        planned = true;
        material = material;
        result =
            some (record {
              slot = n.slot.id;
              batch_id = [];
              ciphertexts = 0;
              materialized = material;
            });
        phase = completed;
      };
      completed_slots = suc n.completed_slots;
    }
