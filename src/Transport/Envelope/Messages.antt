-- ===== src/Transport/Envelope/Messages.antt =====
-- The messages of an envelope survive their conversions (bloc-node/internal/app/codec.go).
use bloc.Prelude.{ℕ, ◌^◌, ◌<◌, ◌≡◌, refl, ap, ◌∙◌, true, Option, none, some, arith}
use bloc.Hbbft.Bba
use bloc.Hbbft.Rbc
use bloc.Hbbft.Rbc.{ProofRequest}
use bloc.Hbbft.Acs
use bloc.Hbbft.Acs.{AcsMessage}
use bloc.Hbbft.Slot.{SlotMessage}
use bloc.Node.Shares.{WireShare}
use bloc.Node.Lifecycle.{is_some}
use bloc.Transport.Envelope.{WireEnvelope, agreement_subtype, payload_subtype, classify_acs_message}
use bloc.Transport.Envelope.Codec.{
  proof_message, echo_message, ready_message, ProtoAcsContent, agreement_message, broadcast_message,
  bval_message, aux_message, ProtoSlotMessage, pos, ReceivedProof, ReceivedPayload,
  received_agreement, received_broadcast, received_proof, received_echo, received_ready,
  ReceivedSlotMessage, ReceivedShare, ReceivedEnvelope, word, int_of, to_proto_wire_share,
  from_proto_wire_share, to_proto_proof_request, from_proto_proof_request, to_proto_broadcast,
  from_proto_broadcast, to_proto_agreement, from_proto_agreement, to_proto_acs_content,
  from_proto_acs_content, to_proto_slot_message, from_proto_slot_message,
}

-- Numbers that fit an int.
abbrev pub SmallProof : ProofRequest → Type 0
SmallProof r = (r.index < 2 ^ 63) × (r.leaves < 2 ^ 63)

abbrev pub SmallPayload : Acs.Payload → Type 0
SmallPayload (Acs.agreement m) = m.epoch < 2 ^ 63
SmallPayload (Acs.broadcast (Rbc.proof_request r)) = SmallProof r
SmallPayload (Acs.broadcast (Rbc.echo_request r)) = SmallProof r
SmallPayload (Acs.broadcast (Rbc.ready_request h)) = Unit
SmallPayload (Acs.broadcast Rbc.unknown) = Unit
SmallPayload Acs.other = Unit

abbrev pub SmallMessage : Option SlotMessage → Type 0
SmallMessage none = Unit
SmallMessage (some m) = elim m.payload [ none ↦ Unit | some a ↦ SmallPayload a.payload ]

abbrev pub SmallShare : Option WireShare → Type 0
SmallShare none = Unit
SmallShare (some w) = (w.operator_id < 2 ^ 63) × (w.sub_batch_id < 2 ^ 63)

word-small : (n : ℕ) → n < 2 ^ 63 → word n ≡ n
word-small n h = omega (arith, h)

int-small : (n : ℕ) → n < 2 ^ 63 → int_of n ≡ pos n
unfolding int_of
int-small n h = ground (arith, h)

proof-small : (r : ProofRequest) → SmallProof r → to_proto_proof_request r ≡ r
unfolding to_proto_proof_request
proof-small r (i, l) = rw (word-small r.index i, word-small r.leaves l) refl

pub share-small : (w : WireShare) → SmallShare (some w) → to_proto_wire_share w ≡ w
unfolding to_proto_wire_share
share-small w (i, l) = rw (word-small w.operator_id i, word-small w.sub_batch_id l) refl

-- A message as its receiver has it.
abbrev pub same_proof : ProofRequest → ReceivedProof
same_proof r = record {
  root_hash = r.root_hash;
  proof = r.proof;
  index = pos (r.index);
  leaves = pos (r.leaves);
}

abbrev pub same_payload : Acs.Payload → Option ReceivedPayload
same_payload (Acs.agreement m) = some (received_agreement (pos (m.epoch)) (m.message))
same_payload (Acs.broadcast (Rbc.proof_request r)) =
    some (received_broadcast (received_proof (same_proof r)))
same_payload (Acs.broadcast (Rbc.echo_request r)) =
    some (received_broadcast (received_echo (same_proof r)))
same_payload (Acs.broadcast (Rbc.ready_request h)) = some (received_broadcast (received_ready h))
same_payload (Acs.broadcast Rbc.unknown) = none
same_payload Acs.other = none

abbrev pub same_message : SlotMessage → Option ReceivedSlotMessage
same_message m = elim m.payload [
  | none ↦ none
  | some a ↦ elim (same_payload a.payload) [
    | none ↦ none
    | some p ↦
        some
          (record { slot = m.slot; payload = record { proposer_id = a.proposer_id; payload = p } })
  ]
]

abbrev pub same_acs : Option SlotMessage → Option ReceivedSlotMessage
same_acs none = none
same_acs (some m) = same_message m

abbrev pub same_share : Option WireShare → Option ReceivedShare
same_share none = none
same_share (some w) = some (record {
  operator_id = pos (w.operator_id);
  batch_id_hex = w.batch_id_hex;
  sub_batch_id = pos (w.sub_batch_id);
  point_hex = w.point_hex;
})

abbrev pub same_envelope : WireEnvelope → ReceivedEnvelope
same_envelope env = record {
  from = env.from;
  to = env.to;
  direct = env.direct;
  kind = env.kind;
  slot = env.slot;
  acs = same_acs (env.acs);
  share = same_share (env.share);
}

read-proof : (r : ProofRequest) → SmallProof r → from_proto_proof_request (some r) ≡ same_proof r
unfolding from_proto_proof_request
read-proof r (i, l) = rw (int-small r.index i, int-small r.leaves l) refl

read-sent :
    (r : ProofRequest)
    → SmallProof r
    → from_proto_proof_request (some (to_proto_proof_request r)) ≡ same_proof r
read-sent r s = ap (λ x. from_proto_proof_request (some x)) (proof-small r s) ∙ read-proof r s

pub read-share :
    (w : WireShare)
    → SmallShare (some w)
    → ◌≡◌ {A = Option ReceivedShare} (some (from_proto_wire_share (some w))) (same_share (some w))
unfolding from_proto_wire_share
read-share w (i, l) = rw (int-small w.operator_id i, int-small w.sub_batch_id l) refl

-- A payload that is read back.
abbrev Round : Acs.Payload → Type 0
Round p =
    (c : ProtoAcsContent) × (r : ReceivedPayload) × (to_proto_acs_content p ≡ some c)
    × (from_proto_acs_content c ≡ some r)
    × (same_payload p ≡ some r)

agreement-Round :
    (epoch : ℕ) (c : Bba.Content)
    → is_some (agreement_subtype c) ≡ true
    → epoch < 2 ^ 63
    → Round (Acs.agreement (record { epoch = epoch; message = c }))
unfolding to_proto_acs_content from_proto_acs_content to_proto_agreement from_proto_agreement
agreement-Round epoch (Bba.bval v) h s = (
  agreement_message (word epoch) (bval_message v),
  received_agreement (pos epoch) (Bba.bval v),
  refl,
  rw (word-small epoch s, int-small epoch s) refl,
  refl,
)
agreement-Round epoch (Bba.aux v) h s = (
  agreement_message (word epoch) (aux_message v),
  received_agreement (pos epoch) (Bba.aux v),
  refl,
  rw (word-small epoch s, int-small epoch s) refl,
  refl,
)
agreement-Round epoch Bba.unknown h s = cc

content-Round : (p : Acs.Payload) → is_some (payload_subtype p) ≡ true → SmallPayload p → Round p
unfolding to_proto_acs_content from_proto_acs_content to_proto_broadcast from_proto_broadcast
content-Round (Acs.agreement m) h s = agreement-Round m.epoch m.message h s
content-Round (Acs.broadcast (Rbc.proof_request r)) h s = (
  broadcast_message (proof_message (to_proto_proof_request r)),
  received_broadcast (received_proof (same_proof r)),
  refl,
  ap (λ x. some (received_broadcast (received_proof x))) (read-sent r s),
  refl,
)
content-Round (Acs.broadcast (Rbc.echo_request r)) h s = (
  broadcast_message (echo_message (some (to_proto_proof_request r))),
  received_broadcast (received_echo (same_proof r)),
  refl,
  ap (λ x. some (received_broadcast (received_echo x))) (read-sent r s),
  refl,
)
content-Round (Acs.broadcast (Rbc.ready_request b)) h s =
    (broadcast_message (ready_message b), received_broadcast (received_ready b), refl, refl, refl)
content-Round (Acs.broadcast Rbc.unknown) h s = cc
content-Round Acs.other h s = cc

pub slot_message-round :
    (slot : ℕ) (o : Option AcsMessage)
    → is_some (classify_acs_message (record { slot = slot; payload = o })) ≡ true
    → SmallMessage (some (record { slot = slot; payload = o }))
    → (p : ProtoSlotMessage) × (r : ReceivedSlotMessage) × (to_proto_slot_message
          (record { slot = slot; payload = o })
        ≡ some p)
      × (from_proto_slot_message p ≡ some r)
      × (same_message (record { slot = slot; payload = o }) ≡ some r)
unfolding classify_acs_message to_proto_slot_message from_proto_slot_message
slot_message-round slot none h s = cc
slot_message-round slot (some a) h s =
    let (c, r, t, f, k) = content-Round a.payload h s in
    (
      record { slot = slot; payload = some (record { proposer_id = a.proposer_id; payload = c }) },
      record { slot = slot; payload = record { proposer_id = a.proposer_id; payload = r } },
      rw t refl,
      rw f refl,
      rw (k, same_message) refl,
    )
