-- ===== src/Hbbft/Acs.antt =====
-- The asynchronous common subset (sbc/hbbft/acs.go): one reliable broadcast and one binary agreement
-- for each node. A call gives the new state and an error or none; `none` is a panic or a binary
-- agreement that has run out of fuel. The diagnostic trace is left out.
pub mod Completion
pub mod Addressing
pub mod Finality
use bloc.Prelude.{
  ℕ, zero, suc, ◌+◌, ◌-◌, Bool, true, false, not, ◌&&◌, ◌||◌, Option, none, some, List, [], ◌∷◌,
  ◌++◌, ◌==◌, ltb, leb, if◌then◌else◌, length, count_if, is_nil,
}
use bloc.Prelude.Maps.{Map, insert, has, lookup, keys}
use bloc.Prelude.Bytes.{Bytes}
use bloc.Prelude.Results.{◌>>=◌}
use bloc.Hbbft.Config.{Config, with_default_f}
use bloc.Hbbft.Queue
use bloc.Hbbft.Queue.{MessageTuple}
use bloc.Hbbft.Bba
use bloc.Hbbft.Bba.{Bba, BbaError, AgreementMessage, is_none}
use bloc.Hbbft.Rbc
use bloc.Hbbft.Rbc.{Rbc, RbcError, Codec, BroadcastMessage}

-- What `Payload interface{}` holds; `other` is any other type.
pub data Payload : Type 0 where
  agreement : AgreementMessage → Payload
  broadcast : BroadcastMessage → Payload
  other : Payload

pub record AcsMessage : Type 0 where
  pub proposer_id : ℕ
  pub payload : Payload

pub data AcsError : Type 0 where
  no_rbc_instance no_bba_instance multiple_bba_results wrong_proof_count unknown_message : AcsError
  rbc_failed : RbcError → AcsError
  bba_failed : BbaError → AcsError

pub record Acs : Type 0 where
  pub config : Config
  pub open config use *
  pub rbc_instances : Map Rbc
  pub bba_instances : Map Bba
  pub rbc_results : Map Bytes
  pub bba_results : Map Bool
  pub output : Option (Map Bytes)
  pub message_que : List (MessageTuple AcsMessage)
  pub decided : Bool

abbrev pub Outcome : Type 0
Outcome = Option (Acs × Option AcsError)

-- The loop of the constructor over the nodes.
unfoldable pub create_instances :
    Codec → Config → List ℕ → Map Rbc × Map Bba → Option (Map Rbc × Map Bba)
create_instances k c [] m = some m
create_instances k c (id ∷ ids) (rbcs, bbas) = Rbc.new_rbc k c id >>= λ r.
    create_instances k c ids (insert id r rbcs, insert id (Bba.new_bba c id) bbas)

unfoldable pub new_acs : Codec → Config → Option Acs
unfolding create_instances with_default_f
new_acs k cfg =
    let c = with_default_f cfg in
    create_instances k c c.nodes ([], []) >>= λ m. some (record {
      config = c;
      rbc_instances = m.0;
      bba_instances = m.1;
      rbc_results = [];
      bba_results = [];
      output = none;
      message_que = [];
      decided = false;
    })

-- `Output` hands the result over once.
unfoldable pub take_output : Acs → Option (Map Bytes) × Acs
take_output a = (a.output, record a { output = none })

abbrev pub all_done : Map Bba → Bool
all_done [] = true
all_done ((id, b) ∷ m) = b.done && all_done m

unfoldable pub is_done : Acs → Bool
is_done a = all_done a.bba_instances && is_nil a.message_que

unfoldable pub uint64s_without : List ℕ → ℕ → List ℕ
uint64s_without [] val = []
uint64s_without (x ∷ s) val =
    let rest = uint64s_without s val in if x == val then rest else x ∷ rest

-- One copy of a message for each id.
abbrev pub address :
    AcsMessage → List ℕ → List (MessageTuple AcsMessage) → List (MessageTuple AcsMessage)
address m [] que = que
address m (id ∷ ids) que = address m ids (Queue.add_message m id que)

unfoldable pub add_message : ℕ → Payload → Acs → Acs
unfolding uint64s_without Queue.add_message
add_message from msg a = record a {
  message_que =
      address (record { proposer_id = from; payload = msg }) (uint64s_without a.nodes a.id)
        a.message_que;
}

abbrev pub add_broadcasts : ℕ → List BroadcastMessage → Acs → Acs
add_broadcasts pid [] a = a
add_broadcasts pid (m ∷ ms) a = add_broadcasts pid ms (add_message pid (broadcast m) a)

abbrev pub add_agreements : ℕ → List AgreementMessage → Acs → Acs
add_agreements pid [] a = a
add_agreements pid (m ∷ ms) a = add_agreements pid ms (add_message pid (agreement m) a)

abbrev pub count_truthy_agreements : Acs → ℕ
count_truthy_agreements a = count_if (λ e. e.1) a.bba_results

-- The nodes whose agreement is true, in the order of the map.
abbrev pub truthy_ids : Map Bool → List ℕ
truthy_ids [] = []
truthy_ids ((id, v) ∷ m) = let rest = truthy_ids m in if v then id ∷ rest else rest

-- sort.Slice on ids.
abbrev pub insert_id : ℕ → List ℕ → List ℕ
insert_id x [] = x ∷ []
insert_id x (y ∷ ys) = let rest = insert_id x ys in if leb x y then x ∷ y ∷ ys else y ∷ rest

abbrev pub sort_ids : List ℕ → List ℕ
sort_ids [] = []
sort_ids (x ∷ xs) = insert_id x (sort_ids xs)

-- The broadcast results of the given nodes, or `none` where one is missing.
abbrev pub collect_results : Map Bytes → List ℕ → Option (Map Bytes)
collect_results results [] = some []
collect_results results (id ∷ ids) =
    let rest = collect_results results ids in
    elim (lookup id results) [
      | none ↦ none
      | some v ↦ elim rest [ none ↦ none | some m ↦ some (insert id v m) ]
    ]

unfoldable pub try_complete_agreement : Acs → Acs
try_complete_agreement a =
    if a.decided || ltb (count_truthy_agreements a) (a.n - a.f)
    then a
    else if ltb (length a.bba_results) a.n
    then a
    else elim (collect_results a.rbc_results (sort_ids (truthy_ids a.bba_results))) [
      | none ↦ a
      | some m ↦ record a { output = some m; decided = true }
    ]

pub data WaitingReason : Type 0 where
  nothing_awaited true_bba_results all_bba_results truthy_rbc_outputs ready_to_complete :
      WaitingReason

-- Whether each true agreement has its broadcast result.
abbrev pub truthy_ready : Map Bytes → Map Bool → Bool
truthy_ready results [] = true
truthy_ready results ((id, v) ∷ m) =
    let rest = truthy_ready results m in
    if v then (if has id results then rest else false) else rest

unfoldable pub waiting_reason : Acs → WaitingReason
waiting_reason a =
    if a.decided
    then nothing_awaited
    else if ltb (count_truthy_agreements a) (a.n - a.f)
    then true_bba_results
    else if ltb (length a.bba_results) a.n
    then all_bba_results
    else if truthy_ready a.rbc_results a.bba_results
    then ready_to_complete
    else truthy_rbc_outputs

-- The messages that an instance has queued go to the other nodes, and its output is taken.
unfoldable pub flush_bba : ℕ → Bba → Acs → Option Bool × Acs
unfolding add_message Bba.take_messages Bba.take_output
flush_bba pid b a =
    let (ms, b') = Bba.take_messages b in
    let (out, b'') = Bba.take_output b' in
    (out, add_agreements pid ms (record a { bba_instances = insert pid b'' a.bba_instances }))

unfoldable pub flush_rbc : ℕ → Rbc → Acs → Option Bytes × Acs
unfolding add_message Rbc.take_messages Rbc.take_output
flush_rbc pid r a =
    let (ms, r') = Rbc.take_messages r in
    let (out, r'') = Rbc.take_output r' in
    (out, add_broadcasts pid ms (record a { rbc_instances = insert pid r'' a.rbc_instances }))

abbrev pub record_bba_result : ℕ → Option Bool → Acs → Acs
record_bba_result id none a = a
record_bba_result id (some v) a = record a { bba_results = insert id v a.bba_results }

module _ (fuel : ℕ) where
  -- `false` into each agreement that has had no input yet.
  unfoldable pub input_false : List ℕ → Acs → Outcome
  unfolding Bba.accept_input Bba.input_value flush_bba
  input_false [] a = some (a, none)
  input_false (id ∷ ids) a = elim (lookup id a.bba_instances) [
    | none ↦ input_false ids a
    | some b ↦ elim (Bba.accept_input b) [
      | false ↦ input_false ids a
      | true ↦ Bba.input_value fuel false b >>= λ r. elim r.1 [
        | some e ↦
            some (record a { bba_instances = insert id r.0 a.bba_instances }, some (bba_failed e))
        | none ↦ let (out, a') = flush_bba id r.0 a in input_false ids (record_bba_result id out a')
      ]
    ]
  ]

  abbrev pub and_complete : Acs × Option AcsError → Outcome
  and_complete (a, none) = some (try_complete_agreement a, none)
  and_complete (a, some e) = some (a, some e)

  -- A new output of an agreement is recorded; the one that makes n - f of them true gives `false` to
  -- every agreement without an input.
  unfoldable pub record_agreement : ℕ → Bool → Acs → Outcome
  unfolding input_false try_complete_agreement
  record_agreement pid v a =
      if has pid a.bba_results
      then some (a, some multiple_bba_results)
      else let a' = record a { bba_results = insert pid v a.bba_results } in
        elim (v && count_truthy_agreements a' == a'.n - a'.f) [
          | true ↦ input_false (keys a'.bba_instances) a' >>= and_complete
          | false ↦ some (try_complete_agreement a', none)
        ]

  unfoldable pub process_agreement : ℕ → (Bba → Bba.Outcome) → Acs → Outcome
  unfolding flush_bba record_agreement
  process_agreement pid fun a = elim (lookup pid a.bba_instances) [
    | none ↦ some (a, some no_bba_instance)
    | some b ↦ elim b.done [
      | true ↦ some (a, none)
      | false ↦ fun b >>= λ r. elim r.1 [
        | some e ↦
            some (record a { bba_instances = insert pid r.0 a.bba_instances }, some (bba_failed e))
        | none ↦
            let (out, a') = flush_bba pid r.0 a in
            elim out [ none ↦ some (a', none) | some v ↦ record_agreement pid v a' ]
      ]
    ]
  ]

  -- `true` into the agreement on a value that was broadcast.
  abbrev pub input_true : Bba → Bba.Outcome
  input_true b = if Bba.accept_input b then Bba.input_value fuel true b else some (b, none)

  unfoldable pub record_broadcast : ℕ → Bytes → Acs → Outcome
  unfolding process_agreement try_complete_agreement Bba.accept_input Bba.input_value
  record_broadcast pid v a =
      process_agreement pid input_true (record a { rbc_results = insert pid v a.rbc_results })
      >>= and_complete

  unfoldable pub process_broadcast : ℕ → (Rbc → Rbc.Result) → Acs → Outcome
  unfolding flush_rbc record_broadcast
  process_broadcast pid fun a = elim (lookup pid a.rbc_instances) [
    | none ↦ some (a, some no_rbc_instance)
    | some r ↦ elim (fun r) [
      | Rbc.panics ↦ none
      | Rbc.ended r' (some e) ↦
          some (record a { rbc_instances = insert pid r' a.rbc_instances }, some (rbc_failed e))
      | Rbc.ended r' none ↦
          let (out, a') = flush_rbc pid r' a in
          elim out [ none ↦ some (a', none) | some v ↦ record_broadcast pid v a' ]
    ]
  ]

  -- One proof for each of the other nodes, in their order; too few proofs are a panic.
  unfoldable pub send_proofs : ℕ → List ℕ → List BroadcastMessage → Acs → Option Acs
  unfolding Queue.add_message
  send_proofs from [] ms a = some a
  send_proofs from (id ∷ ids) [] a = none
  send_proofs from (id ∷ ids) (m ∷ ms) a = send_proofs from ids ms (record a {
    message_que =
        Queue.add_message (record { proposer_id = from; payload = broadcast m }) id a.message_que;
  })

  -- The node's own value. Unlike a message, it leaves an error of its agreement aside.
  unfoldable pub own_broadcast : Rbc → Acs → Outcome
  unfolding flush_rbc process_agreement
  own_broadcast r a =
      let (out, a') = flush_rbc a.id r a in
      elim out [
        | none ↦ some (a', none)
        | some v ↦
            process_agreement a'.id input_true
              (record a' { rbc_results = insert a'.id v a'.rbc_results })
            >>= λ s. some (s.0, none)
      ]

  module _ (k : Codec) where
    unfoldable pub handle_message : ℕ → AcsMessage → Acs → Outcome
    unfolding process_agreement process_broadcast Bba.receive_message Rbc.handle_message
    handle_message sid msg a = elim msg.payload [
      | agreement m ↦ process_agreement msg.proposer_id (Bba.receive_message fuel sid m) a
      | broadcast m ↦ process_broadcast msg.proposer_id (Rbc.handle_message k sid m) a
      | other ↦ some (a, some unknown_message)
    ]

    unfoldable pub input_value : Bytes → Acs → Outcome
    unfolding send_proofs own_broadcast uint64s_without Rbc.input_value
    input_value value a = elim (lookup a.id a.rbc_instances) [
      | none ↦ some (a, some no_rbc_instance)
      | some r ↦
          let (o, reqs) = Rbc.input_value k value r in
          elim o [
            | Rbc.panics ↦ none
            | Rbc.ended r' (some e) ↦
                some
                  (record a { rbc_instances = insert a.id r' a.rbc_instances }, some (rbc_failed e))
            | Rbc.ended r' none ↦ elim (length reqs == a.n - 1) [
              | false ↦ some (
                record a { rbc_instances = insert a.id r' a.rbc_instances },
                some wrong_proof_count,
              )
              | true ↦ send_proofs a.id (uint64s_without a.nodes a.id) reqs a >>= own_broadcast r'
            ]
          ]
    ]
