-- ===== src/Transport/Envelope/RoundTrip.antt =====
-- An envelope that has a lane survives its encoding (bloc-node/internal/app: codec.go,
-- transport_libp2p_lanes.go).
use bloc.Prelude.{ℕ, ◌≡◌, refl, Bool, true, false, Option, none, some, arith}
use bloc.Prelude.Bytes.{Bytes, bytes_eq, bytes_eq_iff}
use bloc.Hbbft.Slot.{SlotMessage}
use bloc.Node.Shares.{WireShare}
use bloc.Node.Lifecycle.{is_some}
use bloc.Transport.Envelope.{
  WireEnvelope, acs_kind, share_kind, Lane, classify_acs_message, validate_envelope_payload,
  classify_envelope_lane,
}
use bloc.Transport.Envelope.Codec.{Proto, ProtoEnvelope, acs_payload, share_payload, encode, decode}
use bloc.Transport.Envelope.Messages.{
  SmallMessage, SmallShare, share-small, read-share, same_envelope, slot_message-round,
}

abbrev with_payloads : WireEnvelope → Option SlotMessage → Option WireShare → WireEnvelope
with_payloads env acs share = record env { acs = acs; share = share }

pub kinds_differ : (kind : Bytes) → bytes_eq kind acs_kind ≡ true → bytes_eq kind share_kind ≡ false
kinds_differ kind h = rw ((bytes_eq_iff kind acs_kind).0 h) refl

no_payload_no_lane :
    (env : WireEnvelope) (lane : Lane)
    → classify_envelope_lane (with_payloads env none none) ≡ some lane
    → ⊥
unfolding classify_envelope_lane validate_envelope_payload
no_payload_no_lane env lane q = ground arith

both_no_lane :
    (env : WireEnvelope) (m : SlotMessage) (w : WireShare) (lane : Lane)
    → classify_envelope_lane (with_payloads env (some m) (some w)) ≡ some lane
    → ⊥
unfolding classify_envelope_lane validate_envelope_payload
both_no_lane env m w lane q = ground arith

acs_lane :
    (env : WireEnvelope) (m : SlotMessage) (lane : Lane)
    → classify_envelope_lane (with_payloads env (some m) none) ≡ some lane
    → (bytes_eq env.kind acs_kind ≡ true) × (is_some (classify_acs_message m) ≡ true)
unfolding classify_envelope_lane validate_envelope_payload
acs_lane env m lane q = (ground arith, ground (arith, kinds_differ env.kind))

share_lane :
    (env : WireEnvelope) (w : WireShare) (lane : Lane)
    → classify_envelope_lane (with_payloads env none (some w)) ≡ some lane
    → (bytes_eq env.kind acs_kind ≡ false) × (bytes_eq env.kind share_kind ≡ true)
unfolding classify_envelope_lane validate_envelope_payload
share_lane env w lane q = (ground arith, ground arith)

module _ (proto : Proto) where
  -- Only protobuf can refuse the envelope, and what it writes is decoded as the envelope.
  abbrev pub Survives : WireEnvelope → Type 0
  Survives env =
      (m : ProtoEnvelope) × (encode proto env ≡ proto.marshal m)
      × ((b : Bytes) → proto.marshal m ≡ some b → decode proto b ≡ some (same_envelope env))

  -- protobuf reads back what it writes.
  abbrev pub Faithful : Type 0
  Faithful = (m : ProtoEnvelope) (b : Bytes) → proto.marshal m ≡ some b → proto.unmarshal b ≡ some m

  acs-Survives :
      (from to : ℕ) (direct : Bool) (kind : Bytes) (slot : ℕ) (m : SlotMessage)
      → bytes_eq kind acs_kind ≡ true
      → Faithful
      → is_some (classify_acs_message m) ≡ true
      → SmallMessage (some m)
      → Survives (record {
        from = from;
        to = to;
        direct = direct;
        kind = kind;
        slot = slot;
        acs = some m;
        share = none;
      })
  unfolding encode decode
  acs-Survives from to direct kind slot m k faithful h s =
      let (p, r, t, f, same) = slot_message-round m.slot m.payload h s in
      let q : ProtoEnvelope = record {
        version = 1;
        from = from;
        to = to;
        direct = direct;
        kind = kind;
        slot = slot;
        payload = acs_payload p;
      } in
      (q, rw (k, t) refl, λ b w. rw (faithful q b w, f, same) refl)

  share-Survives :
      (from to : ℕ) (direct : Bool) (kind : Bytes) (slot : ℕ) (w : WireShare)
      → bytes_eq kind acs_kind ≡ false
      → bytes_eq kind share_kind ≡ true
      → Faithful
      → SmallShare (some w)
      → Survives (record {
        from = from;
        to = to;
        direct = direct;
        kind = kind;
        slot = slot;
        acs = none;
        share = some w;
      })
  unfolding encode decode
  share-Survives from to direct kind slot w k l faithful s =
      let same = share-small w s in
      let q : ProtoEnvelope = record {
        version = 1;
        from = from;
        to = to;
        direct = direct;
        kind = kind;
        slot = slot;
        payload = share_payload w;
      } in
      (q, rw (k, l, same) refl, λ b t. rw (faithful q b t, read-share w s) refl)

  -- The payloads apart from the envelope.
  survives :
      (env : WireEnvelope) (acs : Option SlotMessage) (share : Option WireShare) (lane : Lane)
      → Faithful
      → classify_envelope_lane (with_payloads env acs share) ≡ some lane
      → SmallMessage acs
      → SmallShare share
      → Survives (with_payloads env acs share)
  survives env none none lane f q a b = absurd (no_payload_no_lane env lane q)
  survives env (some m) (some w) lane f q a b = absurd (both_no_lane env m w lane q)
  survives env (some m) none lane f q a b =
      let (k, c) = acs_lane env m lane q in
      acs-Survives env.from env.to env.direct env.kind env.slot m k f c a
  survives env none (some w) lane f q a b =
      let (k, l) = share_lane env w lane q in
      share-Survives env.from env.to env.direct env.kind env.slot w k l f b

  -- When protobuf reads back what it writes, an envelope that has a lane, and so a payload of its kind
  -- and a known type, and whose epoch, shard index, number of leaves, operator and sub-batch fit an
  -- int, is handed to protobuf as a message, and whatever bytes protobuf makes of that message are
  -- decoded as the envelope, with the same, non-negative ints.
  pub decode-encode :
      (env : WireEnvelope) (lane : Lane)
      → Faithful
      → classify_envelope_lane env ≡ some lane
      → SmallMessage env.acs
      → SmallShare env.share
      → Survives env
  unfolding classify_envelope_lane validate_envelope_payload encode decode
  decode-encode env lane faithful h sm ss = survives env env.acs env.share lane faithful h sm ss
