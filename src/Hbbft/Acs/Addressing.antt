-- ===== src/Hbbft/Acs/Addressing.antt =====
-- To whom the common subset sends (sbc/hbbft/acs.go, `addMessage` and `uint64sWithout`).
use bloc.Prelude.{ℕ, ◌+◌, ◌≡◌, some, List, [], ◌∷◌, arith, ◌==◌, if◌then◌else◌, count_if}
use bloc.Hbbft.Queue
use bloc.Hbbft.Queue.{MessageTuple}
use bloc.Hbbft.Rbc.{BroadcastMessage}
use bloc.Hbbft.Acs.{
  Acs, AcsMessage, Payload, broadcast, add_message, address, uint64s_without, send_proofs,
}

-- How many queued messages go to `id`.
abbrev pub queued_for : ℕ → List (MessageTuple AcsMessage) → ℕ
queued_for id que = count_if (λ t. t.to == id) que

queued_for-add :
    (id to : ℕ) (m : AcsMessage) (que : List (MessageTuple AcsMessage))
    → queued_for id (Queue.add_message m to que) ≡ queued_for id que + (if to == id then 1 else 0)
unfolding Queue.add_message
queued_for-add id to m [] = ground arith
queued_for-add id to m (t ∷ que) = ground (arith, queued_for-add id to m que)

queued_for-address :
    (id : ℕ) (m : AcsMessage) (ids : List ℕ) (que : List (MessageTuple AcsMessage))
    → queued_for id (address m ids que) ≡ queued_for id que + count_if (λ i. i == id) ids
queued_for-address id m [] que = omega arith
queued_for-address id m (to ∷ ids) que =
    ground
      (arith, queued_for-add id to m que, queued_for-address id m ids (Queue.add_message m to que))

count_if-without :
    (id val : ℕ) (s : List ℕ)
    → count_if (λ i. i == id) (uint64s_without s val)
      ≡ (if id == val then 0 else count_if (λ i. i == id) s)
unfolding uint64s_without
count_if-without id val [] = ground arith
count_if-without id val (x ∷ s) = ground (arith, count_if-without id val s)

-- A message goes once to each entry of the node list but the node itself, and to nobody else.
pub add_message-recipients :
    (from : ℕ) (m : Payload) (a : Acs) (id : ℕ)
    → queued_for id (add_message from m a).message_que
      ≡ queued_for id a.message_que + (if id == a.id then 0 else count_if (λ i. i == id) a.nodes)
unfolding add_message
add_message-recipients from m a id = ground (
  arith,
  queued_for-address id (record { proposer_id = from; payload = m }) (uint64s_without a.nodes a.id)
      a.message_que,
  count_if-without id a.id a.nodes,
)

-- When there are enough proofs for the recipients, each entry of their list is sent one, and
-- nobody else is.
pub send_proofs-recipients :
    (fuel from : ℕ) (ids : List ℕ) (ms : List BroadcastMessage) (a b : Acs) (id : ℕ)
    → send_proofs fuel from ids ms a ≡ some b
    → queued_for id b.message_que ≡ queued_for id a.message_que + count_if (λ i. i == id) ids
unfolding send_proofs
send_proofs-recipients fuel from [] ms a b id h = ground arith
send_proofs-recipients fuel from (to ∷ ids) [] a b id h = cc
send_proofs-recipients fuel from (to ∷ ids) (m ∷ ms) a b id h =
    let q =
      Queue.add_message (record { proposer_id = from; payload = broadcast m }) to a.message_que in
    ground (
      arith,
      send_proofs-recipients fuel from ids ms (record a { message_que = q }) b id h,
      queued_for-add id to (record { proposer_id = from; payload = broadcast m }) a.message_que,
    )
