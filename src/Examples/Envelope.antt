-- ===== src/Examples/Envelope.antt =====
-- An envelope with a vote of a binary agreement (bloc-node/internal/app/codec.go), under an encoding
-- that knows votes only.
use bloc.Prelude.{ℕ, zero, suc, ◌≡◌, refl, subst, Bool, true, false, Option, none, some, ◌∷◌, arith}
use bloc.Prelude.Bytes.{Bytes}
use bloc.Hbbft.Bba
use bloc.Hbbft.Acs
use bloc.Transport.Envelope.{
  WireEnvelope, acs_kind, control_lane, classify_envelope_lane, validate_envelope_payload,
  classify_acs_message,
}
use bloc.Transport.Envelope.Codec.{
  Proto, ProtoEnvelope, ProtoAcsMessage, ProtoAcsContent, agreement_message, broadcast_message,
  no_acs_content, ProtoAgreementContent, bval_message, aux_message, no_agreement_content,
  ProtoPayload, acs_payload, share_payload, no_payload,
}
use bloc.Transport.Envelope.RoundTrip.{Faithful, Survives, decode-encode}

abbrev bit : Bool → ℕ
bit true = 1
bit false = 0

abbrev is_one : ℕ → Bool
is_one zero = false
is_one (suc n) = true

abbrev tag : ProtoAgreementContent → Option (ℕ × ℕ)
tag (bval_message v) = some (0, bit v)
tag (aux_message v) = some (1, bit v)
tag no_agreement_content = none

abbrev content_of : ℕ → ℕ → ProtoAgreementContent
content_of zero v = bval_message (is_one v)
content_of (suc t) v = aux_message (is_one v)

-- The header of an envelope, and its message.
abbrev written : ProtoEnvelope → ℕ → ℕ → ℕ → ProtoAgreementContent → Option Bytes
written m slot proposer epoch c = elim (tag c) [
  | none ↦ none
  | some x ↦ some (
      m.version
      ∷ m.from
      ∷ m.to
      ∷ bit m.direct
      ∷ m.slot
      ∷ slot
      ∷ proposer
      ∷ epoch
      ∷ x.0
      ∷ x.1
      ∷ m.kind)
]

abbrev written_acs : ProtoEnvelope → ℕ → ℕ → ProtoAcsContent → Option Bytes
written_acs m slot proposer (agreement_message epoch c) = written m slot proposer epoch c
written_acs m slot proposer (broadcast_message c) = none
written_acs m slot proposer no_acs_content = none

abbrev written_slot : ProtoEnvelope → ℕ → Option ProtoAcsMessage → Option Bytes
written_slot m slot none = none
written_slot m slot (some a) = written_acs m slot (a.proposer_id) (a.payload)

abbrev written_payload : ProtoEnvelope → ProtoPayload → Option Bytes
written_payload m (acs_payload p) = written_slot m (p.slot) (p.payload)
written_payload m (share_payload w) = none
written_payload m no_payload = none

abbrev read : Bytes → Option ProtoEnvelope
read (v ∷ from ∷ to ∷ d ∷ slot ∷ s ∷ proposer ∷ epoch ∷ t ∷ x ∷ kind) = some (record {
  version = v;
  from = from;
  to = to;
  direct = is_one d;
  kind = kind;
  slot = slot;
  payload = acs_payload (record {
    slot = s;
    payload =
        some
          (record { proposer_id = proposer; payload = agreement_message epoch (content_of t x) });
  });
})
read _ = none

abbrev proto : Proto
proto = record { marshal = λ m. written_payload m (m.payload); unmarshal = read }

is_one-bit : (b : Bool) → is_one (bit b) ≡ b
is_one-bit true = refl
is_one-bit false = refl

some_is : (o : Option Bytes) (b c : Bytes) → o ≡ some b → o ≡ some c → b ≡ c
some_is o b c h k = cc

abbrev vote_of : ProtoEnvelope → ℕ → ℕ → ℕ → ProtoAgreementContent → ProtoEnvelope
vote_of m slot proposer epoch c = record m {
  payload = acs_payload (record {
    slot = slot;
    payload = some (record { proposer_id = proposer; payload = agreement_message epoch c });
  });
}

read-written :
    (m : ProtoEnvelope) (p : ProtoPayload) (b : Bytes)
    → written_payload m p ≡ some b
    → read b ≡ some (record m { payload = p })
read-written m (acs_payload p) b h = acs p.slot p.payload h
  where
    vote :
        (slot proposer epoch : ℕ) (c : ProtoAgreementContent)
        → written m slot proposer epoch c ≡ some b
        → read b ≡ some (vote_of m slot proposer epoch c)
    vote slot proposer epoch (bval_message v) h =
        subst (λ x. read x ≡ some (vote_of m slot proposer epoch (bval_message v)))
          (some_is _ _ b refl h) (rw (is_one-bit m.direct, is_one-bit v) refl)
    vote slot proposer epoch (aux_message v) h =
        subst (λ x. read x ≡ some (vote_of m slot proposer epoch (aux_message v)))
          (some_is _ _ b refl h) (rw (is_one-bit m.direct, is_one-bit v) refl)
    vote slot proposer epoch no_agreement_content h = cc

    acs :
        (slot : ℕ) (o : Option ProtoAcsMessage)
        → written_slot m slot o ≡ some b
        → read b ≡ some (record m { payload = acs_payload (record { slot = slot; payload = o }) })
    acs slot none h = cc
    acs slot (some a) h = body slot a.proposer_id a.payload h
      where
        body :
            (slot proposer : ℕ) (c : ProtoAcsContent)
            → written_acs m slot proposer c ≡ some b
            → read b
              ≡ some (record m {
                payload = acs_payload (record {
                  slot = slot;
                  payload = some (record { proposer_id = proposer; payload = c });
                });
              })
        body slot proposer (agreement_message epoch c) h = vote slot proposer epoch c h
        body slot proposer (broadcast_message c) h = cc
        body slot proposer no_acs_content h = cc
read-written m (share_payload w) b h = cc
read-written m no_payload b h = cc

proto-Faithful : Faithful proto
proto-Faithful m b h = read-written m m.payload b h

abbrev vote_envelope : WireEnvelope
vote_envelope = record {
  from = 1;
  to = 2;
  direct = true;
  kind = acs_kind;
  slot = 5;
  acs = some (record {
    slot = 5;
    payload = some (record {
      proposer_id = 3;
      payload = Acs.agreement (record { epoch = 7; message = Bba.aux true });
    });
  });
  share = none;
}

vote_lane : classify_envelope_lane vote_envelope ≡ some control_lane
unfolding classify_envelope_lane validate_envelope_payload classify_acs_message
vote_lane = refl

decode-encode_example : Survives proto vote_envelope
decode-encode_example =
    decode-encode proto vote_envelope control_lane proto-Faithful vote_lane (omega arith) tt
