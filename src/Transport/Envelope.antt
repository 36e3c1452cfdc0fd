-- ===== src/Transport/Envelope.antt =====
-- Envelopes, their lanes and their checks (bloc-node/internal/app: types.go, acs_trace.go,
-- transport_libp2p.go, transport_libp2p_lanes.go). A payload that is absent is none; that of an ACS
-- message is never a nil pointer of its type.
pub mod Codec
pub mod Messages
pub mod RoundTrip
use bloc.Prelude.{
  ℕ, Bool, true, false, not, ◌&&◌, ◌||◌, Option, none, some, List, [], ◌∷◌, ◌==◌, if◌then◌else◌,
}
use bloc.Prelude.Bytes.{Bytes, bytes_eq}
use bloc.Hbbft.Bba
use bloc.Hbbft.Rbc
use bloc.Hbbft.Acs
use bloc.Hbbft.Slot.{SlotMessage}
use bloc.Node.Shares.{WireShare}
use bloc.Node.Lifecycle.{is_some}

pub record WireEnvelope : Type 0 where
  pub from : ℕ
  pub to : ℕ
  pub direct : Bool
  pub kind : Bytes
  pub slot : ℕ
  pub acs : Option SlotMessage
  pub share : Option WireShare

-- "acs" and "share".
abbrev pub acs_kind : Bytes
acs_kind = 97 ∷ 99 ∷ 115 ∷ []

abbrev pub share_kind : Bytes
share_kind = 115 ∷ 104 ∷ 97 ∷ 114 ∷ 101 ∷ []

pub data Subtype : Type 0 where
  proof echo ready bval aux : Subtype

abbrev pub agreement_subtype : Bba.Content → Option Subtype
agreement_subtype (Bba.bval v) = some bval
agreement_subtype (Bba.aux v) = some aux
agreement_subtype Bba.unknown = none

abbrev pub broadcast_subtype : Rbc.BroadcastMessage → Option Subtype
broadcast_subtype (Rbc.proof_request r) = some proof
broadcast_subtype (Rbc.echo_request r) = some echo
broadcast_subtype (Rbc.ready_request h) = some ready
broadcast_subtype Rbc.unknown = none

abbrev pub payload_subtype : Acs.Payload → Option Subtype
payload_subtype (Acs.agreement m) = agreement_subtype (m.message)
payload_subtype (Acs.broadcast m) = broadcast_subtype m
payload_subtype Acs.other = none

unfoldable pub classify_acs_message : SlotMessage → Option Subtype
classify_acs_message m = elim m.payload [ none ↦ none | some a ↦ payload_subtype a.payload ]

unfoldable pub validate_envelope_payload : WireEnvelope → Bool
validate_envelope_payload env =
    if bytes_eq env.kind acs_kind
    then is_some env.acs && not (is_some env.share)
    else if bytes_eq env.kind share_kind
    then is_some env.share && not (is_some env.acs)
    else false

pub data Lane : Type 0 where
  control_lane data_lane : Lane

abbrev pub lane_of : Subtype → Lane
lane_of ready = control_lane
lane_of bval = control_lane
lane_of aux = control_lane
lane_of proof = data_lane
lane_of echo = data_lane

unfoldable pub classify_envelope_lane : WireEnvelope → Option Lane
unfolding validate_envelope_payload classify_acs_message
classify_envelope_lane env =
    if not (validate_envelope_payload env)
    then none
    else if bytes_eq env.kind share_kind
    then some data_lane
    else elim env.acs [
      | none ↦ none
      | some m ↦ elim (classify_acs_message m) [ none ↦ none | some t ↦ some (lane_of t) ]
    ]

-- An envelope from a peer that is known to be `operator_id`.
unfoldable pub validate_authenticated_envelope : ℕ → ℕ → WireEnvelope → Bool
validate_authenticated_envelope operator_id self_id env =
    if not (env.from == operator_id)
    then false
    else if not env.direct || not (env.to == self_id)
    then false
    else elim env.share [ none ↦ true | some w ↦ w.operator_id == operator_id ]

unfoldable pub authenticated_outbound_envelope : ℕ → ℕ → WireEnvelope → WireEnvelope
authenticated_outbound_envelope from to env = record env { from = from; to = to; direct = true }
