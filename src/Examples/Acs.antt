-- ===== src/Examples/Acs.antt =====
-- Instances of the common subset (sbc/hbbft/acs.go): node 1 of four, all results in but one value.
use bloc.Prelude.{
  ◌+◌, ◌≡◌, ◌≢◌, refl, ◌⊎◌, true, false, none, [], ◌∷◌, if◌then◌else◌, ◌==◌, count_if,
}
use bloc.Prelude.Bytes.{Bytes}
use bloc.Prelude.Maps.{Map}
use bloc.Hbbft.Config.{Config}
use bloc.Hbbft.Queue
use bloc.Hbbft.Rbc.{ready_request}
use bloc.Hbbft.Acs.{
  Acs, Payload, other, add_message, send_proofs, try_complete_agreement, waiting_reason,
  ready_to_complete,
}
use bloc.Hbbft.Acs.Addressing.{queued_for, add_message-recipients, send_proofs-recipients}
use bloc.Hbbft.Acs.Completion.{Decision, completion_exact, try_complete-waiting_reason}

abbrev configured : Config
configured = record { n = 4; f = 1; id = 1; nodes = 1 ∷ 2 ∷ 3 ∷ 4 ∷ []; batch_size = 0 }

-- Nodes 1 to 3 are in the subset, node 4 is not; its value came all the same.
abbrev complete : Acs
complete = record {
  config = configured;
  rbc_instances = [];
  bba_instances = [];
  rbc_results = (4, 14 ∷ []) ∷ (3, 13 ∷ []) ∷ (1, 11 ∷ []) ∷ (2, 12 ∷ []) ∷ [];
  bba_results = (2, true) ∷ (4, false) ∷ (1, true) ∷ (3, true) ∷ [];
  output = none;
  message_que = [];
  decided = false;
}

abbrev subset : Map Bytes
subset = (3, 13 ∷ []) ∷ (2, 12 ∷ []) ∷ (1, 11 ∷ []) ∷ []

completion_exact_example : Decision complete subset
unfolding try_complete_agreement
completion_exact_example =
    completion_exact complete subset refl refl (refl, (refl, (refl, (refl, tt)))) refl

try_complete-waiting_reason_example :
    ((waiting_reason complete ≡ ready_to_complete)
      × ((try_complete_agreement complete).decided ≡ true))
    ⊎ ((waiting_reason complete ≢ ready_to_complete) × (try_complete_agreement complete ≡ complete))
try_complete-waiting_reason_example = try_complete-waiting_reason complete refl

message_in_network :
    queued_for 2 (add_message 1 other complete).message_que
    ≡ queued_for 2 complete.message_que
      + (if 2 == 1 then 0 else count_if (λ i. i == 2) configured.nodes)
message_in_network = add_message-recipients 1 other complete 2

abbrev sent : Acs
sent = record complete {
  message_que =
      record {
        to = 2;
        payload = record { proposer_id = 1; payload = Payload.broadcast (ready_request []) };
      }
      ∷ record {
        to = 3;
        payload = record { proposer_id = 1; payload = Payload.broadcast (ready_request []) };
      }
      ∷ [];
}

proofs_in_network :
    queued_for 3 sent.message_que
    ≡ queued_for 3 complete.message_que + count_if (λ i. i == 3) (2 ∷ 3 ∷ [])
unfolding send_proofs Queue.add_message
proofs_in_network =
    send_proofs-recipients 1 1 (2 ∷ 3 ∷ []) (ready_request [] ∷ ready_request [] ∷ []) complete sent
      3 refl
