-- ===== src/Hbbft/Slot.antt =====
-- The common subset of one slot (sbc/hbbft/bloc_slot.go). The gob encoding, the block builder and
-- the hook after the agreement are not of this repository or are its caller's: they stand in the
-- record `SlotEnv`. The trace methods are left out.
pub mod Order
pub mod Output
pub mod Loss
use bloc.Prelude.{
  ℕ, Bool, true, false, not, ◌&&◌, Option, none, some, List, [], ◌∷◌, ◌==◌, if◌then◌else◌, is_nil,
  map,
}
use bloc.Prelude.Maps.{Map, lookup, insert, keys}
use bloc.Prelude.Bytes.{Bytes}
use bloc.Prelude.Results.{◌>>=◌}
use bloc.Hbbft.Config.{Config}
use bloc.Hbbft.Queue
use bloc.Hbbft.Queue.{MessageTuple}
use bloc.Hbbft.Rbc.{Codec}
use bloc.Hbbft.Acs
use bloc.Hbbft.Acs.{Acs, AcsMessage, AcsError, sort_ids}

-- A nil payload is `none`.
pub record SlotMessage : Type 0 where
  pub slot : ℕ
  pub payload : Option AcsMessage

pub record AcceptedBatch : Type 0 where
  pub proposer_id : ℕ
  pub batch : Bytes

pub record SlotOutput : Type 0 where
  pub slot : ℕ
  pub common_subset : Map Bytes
  pub ordered_batches : List AcceptedBatch
  pub block_body : Bytes
  pub decryption_result : Option Bytes

-- `none` of an encoder, a decoder, a builder, a provider or a hook is its error.
pub record SlotEnv : Type 0 where
  pub codec : Codec
  pub encode_candidate_batch : Bytes → Option Bytes
  pub decode_candidate_batch : Bytes → Option Bytes
  pub encode_slot_block_body : ℕ → List AcceptedBatch → Option Bytes
  pub block_builder : Option (ℕ → List AcceptedBatch → Option Bytes)
  pub post_agreement : Option (SlotOutput → Option Bytes)

pub data SlotError : Type 0 where
  encode_failed decode_failed build_failed hook_failed nil_message nil_provider provider_failed :
      SlotError
  wrong_slot : SlotError
  acs_failed : AcsError → SlotError

pub record SlotAcs : Type 0 where
  pub config : Config
  pub slot : ℕ
  pub acs : Acs
  pub output : Option SlotOutput

abbrev pub Outcome : Type 0
Outcome = Option (SlotAcs × Option SlotError)

unfoldable pub decode_common_subset : (Bytes → Option Bytes) → Map Bytes → Option (Map Bytes)
decode_common_subset decode [] = some []
decode_common_subset decode ((id, batch) ∷ m) =
    let rest = decode_common_subset decode m in
    decode batch >>= λ plain. rest >>= λ m'. some ((id, plain) ∷ m')

-- The batch of a proposer; a missing key reads as nil.
abbrev pub accepted_batch : Map Bytes → ℕ → AcceptedBatch
accepted_batch m id = record {
  proposer_id = id;
  batch = elim (lookup id m) [ none ↦ [] | some b ↦ b ];
}

abbrev pub accepted_batches : Map Bytes → List ℕ → List AcceptedBatch
accepted_batches m [] = []
accepted_batches m (id ∷ ids) = accepted_batch m id ∷ accepted_batches m ids

unfoldable pub ordered_batches : Map Bytes → List AcceptedBatch
ordered_batches m = accepted_batches m (sort_ids (keys m))

unfoldable pub new_slot_acs : SlotEnv → Config → ℕ → Option SlotAcs
unfolding Acs.new_acs
new_slot_acs env cfg slot = Acs.new_acs env.codec cfg >>= λ a.
    some (record { config = cfg; slot = slot; acs = a; output = none })

-- The result is handed over once.
unfoldable pub take_output : SlotAcs → Option SlotOutput × SlotAcs
take_output s = (s.output, record s { output = none })

abbrev pub wrap : ℕ → List (MessageTuple AcsMessage) → List (MessageTuple SlotMessage)
wrap slot [] = []
wrap slot (m ∷ ms) =
    record { to = m.to; payload = record { slot = slot; payload = some m.payload } } ∷ wrap slot ms

unfoldable pub messages : SlotAcs → List (MessageTuple SlotMessage) × SlotAcs
unfolding Queue.messages
messages s =
    let (ms, que) = Queue.messages s.acs.message_que in
    (wrap s.slot ms, record s { acs = record (s.acs) { message_que = que } })

module _ (env : SlotEnv) where
  open env use {
    codec, encode_candidate_batch, decode_candidate_batch, encode_slot_block_body, block_builder,
    post_agreement,
  }

  abbrev pub builder : ℕ → List AcceptedBatch → Option Bytes
  builder = elim block_builder [ none ↦ encode_slot_block_body | some build ↦ build ]

  -- The hook sees the output before its result is stored in it.
  abbrev pub run_hook : SlotOutput → SlotAcs → SlotAcs × Option SlotError
  run_hook out s = elim post_agreement [
    | none ↦ (record s { output = some out }, none)
    | some hook ↦ elim (hook out) [
      | none ↦ (s, some hook_failed)
      | some r ↦ (record s { output = some (record out { decryption_result = some r }) }, none)
    ]
  ]

  abbrev pub build_block : Map Bytes → SlotAcs → SlotAcs × Option SlotError
  build_block subset s = elim (builder s.slot (ordered_batches subset)) [
    | none ↦ (s, some build_failed)
    | some body ↦
        run_hook
          (record {
            slot = s.slot;
            common_subset = subset;
            ordered_batches = ordered_batches subset;
            block_body = body;
            decryption_result = none;
          })
          s
  ]

  -- The agreed subset is taken from the common subset protocol before it is decoded.
  unfoldable pub maybe_build_output : SlotAcs → SlotAcs × Option SlotError
  unfolding decode_common_subset ordered_batches Acs.take_output
  maybe_build_output s = elim s.output [
    | some o ↦ (s, none)
    | none ↦
        let (subset, a') = Acs.take_output s.acs in
        let s' = record s { acs = a' } in
        elim subset [
          | none ↦ (s', none)
          | some m ↦ elim (is_nil m) [
            | true ↦ (s', none)
            | false ↦ elim (decode_common_subset decode_candidate_batch m) [
              | none ↦ (s', some decode_failed)
              | some plain ↦ build_block plain s'
            ]
          ]
        ]
  ]

  -- After a call of the common subset protocol.
  abbrev pub after_acs : SlotAcs → Acs.Outcome → Outcome
  after_acs s o = o >>= λ r. elim r.1 [
    | some e ↦ some (record s { acs = r.0 }, some (acs_failed e))
    | none ↦ some (maybe_build_output (record s { acs = r.0 }))
  ]

  unfoldable pub input_batch : ℕ → Bytes → SlotAcs → Outcome
  unfolding maybe_build_output Acs.input_value
  input_batch fuel batch s = elim (encode_candidate_batch batch) [
    | none ↦ some (s, some encode_failed)
    | some encoded ↦ after_acs s (Acs.input_value fuel codec encoded s.acs)
  ]

  -- A nil provider is `none`.
  unfoldable pub input_from_provider : ℕ → Option (ℕ → Option Bytes) → SlotAcs → Outcome
  unfolding input_batch
  input_from_provider fuel none s = some (s, some nil_provider)
  input_from_provider fuel (some provider) s = elim (provider s.slot) [
    | none ↦ some (s, some provider_failed)
    | some batch ↦ input_batch fuel batch s
  ]

  -- A nil message is `none`.
  unfoldable pub handle_message : ℕ → ℕ → Option SlotMessage → SlotAcs → Outcome
  unfolding maybe_build_output Acs.handle_message
  handle_message fuel sid none s = some (s, some nil_message)
  handle_message fuel sid (some msg) s = elim msg.payload [
    | none ↦ some (s, some nil_message)
    | some payload ↦ elim (msg.slot == s.slot) [
      | false ↦ some (s, some wrong_slot)
      | true ↦ after_acs s (Acs.handle_message fuel codec sid payload s.acs)
    ]
  ]
