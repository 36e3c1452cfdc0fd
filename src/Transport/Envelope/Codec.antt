-- ===== src/Transport/Envelope/Codec.antt =====
-- Envelopes as protobuf messages (bloc-node/internal/app/codec.go). The messages of
-- proto/bloc/v1/messages.proto are data here, their numbers are uint64, and their encoding is the
-- record `Proto`. An int of a message that is sent is not negative; one of a message that is received
-- can be, so received messages have types of their own, whose ints are of ℤ.
use bloc.Prelude.{
  ℕ, ◌%◌, ◌^◌, ◌-◌, Bool, not, Option, none, some, List, [], ◌==◌, ltb, if◌then◌else◌,
}
use bloc.Prelude.Bytes.{Bytes, bytes_eq}
use bloc.Prelude.Results.{◌>>=◌}
use bloc.Hbbft.Bba
use bloc.Hbbft.Rbc
use bloc.Hbbft.Rbc.{ProofRequest}
use bloc.Hbbft.Acs
use bloc.Hbbft.Slot.{SlotMessage}
use bloc.Node.Shares.{WireShare}
use bloc.Transport.Envelope.{WireEnvelope, acs_kind, share_kind}

pub data ProtoAgreementContent : Type 0 where
  bval_message aux_message : Bool → ProtoAgreementContent
  no_agreement_content : ProtoAgreementContent

pub data ProtoBroadcastContent : Type 0 where
  proof_message : ProofRequest → ProtoBroadcastContent
  echo_message : Option ProofRequest → ProtoBroadcastContent
  ready_message : Bytes → ProtoBroadcastContent
  no_broadcast_content : ProtoBroadcastContent

pub data ProtoAcsContent : Type 0 where
  agreement_message : ℕ → ProtoAgreementContent → ProtoAcsContent
  broadcast_message : ProtoBroadcastContent → ProtoAcsContent
  no_acs_content : ProtoAcsContent

pub record ProtoAcsMessage : Type 0 where
  pub proposer_id : ℕ
  pub payload : ProtoAcsContent

pub record ProtoSlotMessage : Type 0 where
  pub slot : ℕ
  pub payload : Option ProtoAcsMessage

pub data ProtoPayload : Type 0 where
  acs_payload : ProtoSlotMessage → ProtoPayload
  share_payload : WireShare → ProtoPayload
  no_payload : ProtoPayload

pub record ProtoEnvelope : Type 0 where
  pub version : ℕ
  pub from : ℕ
  pub to : ℕ
  pub direct : Bool
  pub kind : Bytes
  pub slot : ℕ
  pub payload : ProtoPayload

-- Go's int, over the numbers used here.
pub data ℤ : Type 0 where
  pos negsuc : ℕ → ℤ

pub record ReceivedProof : Type 0 where
  pub root_hash : Bytes
  pub proof : List Bytes
  pub index : ℤ
  pub leaves : ℤ

pub data ReceivedBroadcast : Type 0 where
  received_proof received_echo : ReceivedProof → ReceivedBroadcast
  received_ready : Bytes → ReceivedBroadcast

pub data ReceivedPayload : Type 0 where
  received_agreement : ℤ → Bba.Content → ReceivedPayload
  received_broadcast : ReceivedBroadcast → ReceivedPayload

pub record ReceivedAcsMessage : Type 0 where
  pub proposer_id : ℕ
  pub payload : ReceivedPayload

pub record ReceivedSlotMessage : Type 0 where
  pub slot : ℕ
  pub payload : ReceivedAcsMessage

pub record ReceivedShare : Type 0 where
  pub operator_id : ℤ
  pub batch_id_hex : Bytes
  pub sub_batch_id : ℤ
  pub point_hex : Bytes

pub record ReceivedEnvelope : Type 0 where
  pub from : ℕ
  pub to : ℕ
  pub direct : Bool
  pub kind : Bytes
  pub slot : ℕ
  pub acs : Option ReceivedSlotMessage
  pub share : Option ReceivedShare

-- proto.Marshal and proto.Unmarshal.
pub record Proto : Type 0 where
  pub marshal : ProtoEnvelope → Option Bytes
  pub unmarshal : Bytes → Option ProtoEnvelope

-- A conversion to uint64.
abbrev pub word : ℕ → ℕ
word n = n % 2 ^ 64

-- A conversion of a uint64 to int: two's complement.
unfoldable pub int_of : ℕ → ℤ
int_of n = if ltb n (2 ^ 63) then pos n else negsuc (2 ^ 64 - 1 - n)

unfoldable pub to_proto_wire_share : WireShare → WireShare
to_proto_wire_share w = record w {
  operator_id = word w.operator_id;
  sub_batch_id = word w.sub_batch_id;
}

unfoldable pub from_proto_wire_share : Option WireShare → ReceivedShare
unfolding int_of
from_proto_wire_share none = record {
  operator_id = pos 0;
  batch_id_hex = [];
  sub_batch_id = pos 0;
  point_hex = [];
}
from_proto_wire_share (some w) = record {
  operator_id = int_of (w.operator_id);
  batch_id_hex = w.batch_id_hex;
  sub_batch_id = int_of (w.sub_batch_id);
  point_hex = w.point_hex;
}

unfoldable pub to_proto_proof_request : ProofRequest → ProofRequest
to_proto_proof_request r = record r { index = word r.index; leaves = word r.leaves }

unfoldable pub from_proto_proof_request : Option ProofRequest → ReceivedProof
unfolding int_of
from_proto_proof_request none = record { root_hash = []; proof = []; index = pos 0; leaves = pos 0 }
from_proto_proof_request (some r) = record {
  root_hash = r.root_hash;
  proof = r.proof;
  index = int_of (r.index);
  leaves = int_of (r.leaves);
}

unfoldable pub to_proto_broadcast : Rbc.BroadcastMessage → Option ProtoBroadcastContent
unfolding to_proto_proof_request
to_proto_broadcast (Rbc.proof_request r) = some (proof_message (to_proto_proof_request r))
to_proto_broadcast (Rbc.echo_request r) = some (echo_message (some (to_proto_proof_request r)))
to_proto_broadcast (Rbc.ready_request h) = some (ready_message h)
to_proto_broadcast Rbc.unknown = none

unfoldable pub from_proto_broadcast : ProtoBroadcastContent → Option ReceivedBroadcast
unfolding from_proto_proof_request
from_proto_broadcast (proof_message r) = some (received_proof (from_proto_proof_request (some r)))
from_proto_broadcast (echo_message r) = some (received_echo (from_proto_proof_request r))
from_proto_broadcast (ready_message h) = some (received_ready h)
from_proto_broadcast no_broadcast_content = none

unfoldable pub to_proto_agreement : Bba.AgreementMessage → Option ProtoAcsContent
to_proto_agreement m = elim m.message [
  | Bba.bval v ↦ some (agreement_message (word m.epoch) (bval_message v))
  | Bba.aux v ↦ some (agreement_message (word m.epoch) (aux_message v))
  | Bba.unknown ↦ none
]

unfoldable pub from_proto_agreement : ℕ → ProtoAgreementContent → Option ReceivedPayload
unfolding int_of
from_proto_agreement epoch (bval_message v) = some (received_agreement (int_of epoch) (Bba.bval v))
from_proto_agreement epoch (aux_message v) = some (received_agreement (int_of epoch) (Bba.aux v))
from_proto_agreement epoch no_agreement_content = none

unfoldable pub to_proto_acs_content : Acs.Payload → Option ProtoAcsContent
unfolding to_proto_agreement to_proto_broadcast
to_proto_acs_content (Acs.agreement m) = to_proto_agreement m
to_proto_acs_content (Acs.broadcast m) = to_proto_broadcast m >>= λ c. some (broadcast_message c)
to_proto_acs_content Acs.other = none

unfoldable pub from_proto_acs_content : ProtoAcsContent → Option ReceivedPayload
unfolding from_proto_agreement from_proto_broadcast
from_proto_acs_content (agreement_message epoch c) = from_proto_agreement epoch c
from_proto_acs_content (broadcast_message c) =
    from_proto_broadcast c >>= λ m. some (received_broadcast m)
from_proto_acs_content no_acs_content = none

unfoldable pub to_proto_slot_message : SlotMessage → Option ProtoSlotMessage
unfolding to_proto_acs_content
to_proto_slot_message m = elim m.payload [
  | none ↦ none
  | some a ↦ to_proto_acs_content a.payload >>= λ c. some (record {
    slot = m.slot;
    payload = some (record { proposer_id = a.proposer_id; payload = c });
  })
]

unfoldable pub from_proto_slot_message : ProtoSlotMessage → Option ReceivedSlotMessage
unfolding from_proto_acs_content
from_proto_slot_message m = elim m.payload [
  | none ↦ none
  | some a ↦ from_proto_acs_content a.payload >>= λ c.
      some (record { slot = m.slot; payload = record { proposer_id = a.proposer_id; payload = c } })
]

module _ (proto : Proto) where
  abbrev pub sealed : WireEnvelope → ProtoPayload → ProtoEnvelope
  sealed env p = record {
    version = 1;
    from = env.from;
    to = env.to;
    direct = env.direct;
    kind = env.kind;
    slot = env.slot;
    payload = p;
  }

  unfoldable pub encode : WireEnvelope → Option Bytes
  unfolding to_proto_slot_message to_proto_wire_share
  encode env =
      if bytes_eq env.kind acs_kind
      then elim env.acs [
        | none ↦ none
        | some m ↦ to_proto_slot_message m >>= λ p. proto.marshal (sealed env (acs_payload p))
      ]
      else if bytes_eq env.kind share_kind
      then elim env.share [
        | none ↦ none
        | some w ↦ proto.marshal (sealed env (share_payload (to_proto_wire_share w)))
      ]
      else none

  abbrev pub opened :
      ProtoEnvelope → Option ReceivedSlotMessage → Option ReceivedShare → ReceivedEnvelope
  opened m acs share = record {
    from = m.from;
    to = m.to;
    direct = m.direct;
    kind = m.kind;
    slot = m.slot;
    acs = acs;
    share = share;
  }

  -- The kind is not compared with the payload.
  abbrev pub from_proto : ProtoEnvelope → Option ReceivedEnvelope
  from_proto m = elim m.payload [
    | acs_payload p ↦ from_proto_slot_message p >>= λ a. some (opened m (some a) none)
    | share_payload w ↦ some (opened m none (some (from_proto_wire_share (some w))))
    | no_payload ↦ none
  ]

  unfoldable pub decode : Bytes → Option ReceivedEnvelope
  unfolding from_proto_slot_message from_proto_wire_share
  decode b = proto.unmarshal b >>= λ m. if not (m.version == 1) then none else from_proto m
