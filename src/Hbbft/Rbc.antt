-- ===== src/Hbbft/Rbc.antt =====
-- Reliable broadcast (sbc/hbbft/rbc.go). A method that changes the receiver returns the new state.
-- The Merkle trees and the erasure code are other packages: the record `Codec` holds what the source
-- calls of them. The diagnostic trace is left out.
pub mod Rule
pub mod Sound
pub mod History
pub mod Quorum
pub mod Agreement
pub mod Range
use bloc.Prelude.{
  ℕ, zero, suc, ◌+◌, ◌-◌, ◌*◌, ◌≤◌, Bool, true, false, not, ◌&&◌, ◌||◌, Option, none, some, List,
  [], ◌∷◌, ◌++◌, ◌==◌, ltb, leb, if◌then◌else◌, length, count_if, keep_if, is_nil,
}
use bloc.Prelude.Maps.{Map, insert, has, lookup}
use bloc.Prelude.Bytes.{Bytes, bytes_eq}
use bloc.Hbbft.Config.{Config, with_default_f}

pub record ProofRequest : Type 0 where
  pub root_hash : Bytes
  pub proof : List Bytes
  pub index : ℕ
  pub leaves : ℕ

-- The payload of a broadcast message; `unknown` is any other type.
pub data BroadcastMessage : Type 0 where
  proof_request : ProofRequest → BroadcastMessage
  echo_request : ProofRequest → BroadcastMessage
  ready_request : Bytes → BroadcastMessage
  unknown : BroadcastMessage

-- merkletree and reedsolomon. `supports` is the test that reedsolomon.New makes on the numbers of
-- data and parity shards; `prove shards i` is the tree over the shards, with its proof of shard i.
-- In the argument of `reconstruct` an empty shard is a missing one.
pub record Codec : Type 0 where
  pub supports : ℕ → ℕ → Bool
  pub split : ℕ → ℕ → Bytes → Option (List Bytes)
  pub encode : ℕ → ℕ → List Bytes → Option (List Bytes)
  pub reconstruct : ℕ → ℕ → List Bytes → Option (List Bytes)
  pub prove : List Bytes → ℕ → ProofRequest
  pub verify_proof : ProofRequest → Bool

pub data RbcError : Type 0 where
  not_the_proposer proof_twice invalid_proof echo_twice ready_twice own_ready_present : RbcError
  invalid_message split_failed : RbcError

pub record Rbc : Type 0 where
  pub config : Config
  pub open config use *
  pub proposer_id : ℕ
  pub recv_readys : Map Bytes
  pub recv_echos : Map ProofRequest
  pub num_parity_shards : ℕ
  pub num_data_shards : ℕ
  pub messages : List BroadcastMessage
  pub echo_sent : Bool
  pub ready_sent : Bool
  pub output_decoded : Bool
  pub output : Option Bytes

-- A call ends with a state and an error or none, or in a panic.
pub data Result : Type 0 where
  ended : Rbc → Option RbcError → Result
  panics : Result

unfoldable pub initial : Config → ℕ → Rbc
initial c proposer_id = record {
  config = c;
  proposer_id = proposer_id;
  recv_readys = [];
  recv_echos = [];
  num_parity_shards = 2 * c.f;
  num_data_shards = c.n - 2 * c.f;
  messages = [];
  echo_sent = false;
  ready_sent = false;
  output_decoded = false;
  output = none;
}

-- `none` is the panic where the erasure code refuses the numbers of shards.
unfoldable pub new_rbc : Codec → Config → ℕ → Option Rbc
unfolding with_default_f initial
new_rbc k cfg proposer_id =
    let c = with_default_f cfg in
    if k.supports (c.n - 2 * c.f) (2 * c.f) then some (initial c proposer_id) else none

unfoldable pub take_messages : Rbc → List BroadcastMessage × Rbc
take_messages r = (r.messages, record r { messages = [] })

unfoldable pub take_output : Rbc → Option Bytes × Rbc
take_output r = (r.output, record r { output = none })

abbrev pub count_echos : Bytes → Rbc → ℕ
count_echos hash r = count_if (λ e. bytes_eq hash e.1.root_hash) r.recv_echos

abbrev pub count_readys : Bytes → Rbc → ℕ
count_readys hash r = count_if (λ e. bytes_eq hash e.1) r.recv_readys

-- The echoes committed to a root.
abbrev pub committed : Bytes → Map ProofRequest → List ProofRequest
committed hash [] = []
committed hash ((sid, p) ∷ es) =
    let rest = committed hash es in if bytes_eq hash p.root_hash then p ∷ rest else rest

-- sort.Sort by the index.
abbrev pub insert_by_index : ProofRequest → List ProofRequest → List ProofRequest
insert_by_index p [] = p ∷ []
insert_by_index p (q ∷ qs) =
    let rest = insert_by_index p qs in if leb p.index q.index then p ∷ q ∷ qs else q ∷ rest

abbrev pub sort_by_index : List ProofRequest → List ProofRequest
sort_by_index [] = []
sort_by_index (p ∷ ps) = insert_by_index p (sort_by_index ps)

-- shards[i] = v; `none` is the panic on an index out of range.
abbrev pub set_shard : ℕ → Bytes → List Bytes → Option (List Bytes)
set_shard i v [] = none
set_shard zero v (s ∷ ss) = some (v ∷ ss)
set_shard (suc i) v (s ∷ ss) = elim (set_shard i v ss) [ none ↦ none | some ss' ↦ some (s ∷ ss') ]

-- Proof[0]; `none` is the panic on an empty proof.
abbrev pub first_of_proof : List Bytes → Option Bytes
first_of_proof [] = none
first_of_proof (s ∷ ss) = some s

abbrev pub place_shards : List ProofRequest → List Bytes → Option (List Bytes)
place_shards [] shards = some shards
place_shards (p ∷ ps) shards = elim (first_of_proof p.proof) [
  | none ↦ none
  | some v ↦ elim (set_shard p.index v shards) [
    | none ↦ none
    | some shards' ↦ place_shards ps shards'
  ]
]

abbrev pub missing : ℕ → List Bytes
missing zero = []
missing (suc n) = [] ∷ missing n

-- append(value, data...) over the first `n` shards.
abbrev pub join_shards : ℕ → List Bytes → Bytes
join_shards zero ss = []
join_shards (suc n) [] = []
join_shards (suc n) (s ∷ ss) = s ++ join_shards n ss

-- A byte slice to which nothing was appended is nil.
abbrev pub non_nil : Bytes → Option Bytes
non_nil [] = none
non_nil (b ∷ bs) = some (b ∷ bs)

abbrev pub wrap_proofs : List ProofRequest → List BroadcastMessage
wrap_proofs [] = []
wrap_proofs (p ∷ ps) = proof_request p ∷ wrap_proofs ps

-- What is left for the other participants once the node has handled the first proof.
abbrev pub after_first : List ProofRequest → Result → Result × List BroadcastMessage
after_first ps panics = (panics, [])
after_first ps (ended r none) = (ended r none, wrap_proofs ps)
after_first ps (ended r (some e)) = (ended r (some e), [])

module _ (k : Codec) where
  open k use {supports, split, encode, reconstruct, prove, verify_proof}

  abbrev pub proofs_from : List Bytes → ℕ → ℕ → List ProofRequest
  proofs_from shards i zero = []
  proofs_from shards i (suc m) = prove shards i ∷ proofs_from shards (i + 1) m

  -- One proof for each shard.
  abbrev pub make_proof_requests : List Bytes → List ProofRequest
  make_proof_requests shards = proofs_from shards 0 (length shards)

  -- The re-encoded shards must have the root that the echoes carry.
  abbrev pub matches_root : Bytes → List ProofRequest → Bool
  matches_root hash [] = false
  matches_root hash (p ∷ ps) = bytes_eq hash p.root_hash

  unfoldable pub store_output : List Bytes → Rbc → Rbc
  store_output shards r = record r {
    output = non_nil (join_shards r.num_data_shards shards);
    output_decoded = true;
  }

  unfoldable pub reconstruct_value : Bytes → List Bytes → Rbc → Result
  unfolding store_output
  reconstruct_value hash shards r =
      elim (reconstruct r.num_data_shards r.num_parity_shards shards) [
        | none ↦ ended r none
        | some full ↦
            if matches_root hash (make_proof_requests full)
            then ended (store_output full r) none
            else ended r none
      ]

  unfoldable pub try_decode_value : Bytes → Rbc → Result
  unfolding reconstruct_value
  try_decode_value hash r =
      if r.output_decoded || leb (count_readys hash r) (2 * r.f) || leb (count_echos hash r) r.f
      then ended r none
      else elim (place_shards (sort_by_index (committed hash r.recv_echos))
          (missing (r.num_parity_shards + r.num_data_shards))) [
            | none ↦ panics
            | some shards ↦ reconstruct_value hash shards r
          ]

  unfoldable pub send_ready : Bytes → Rbc → Rbc
  send_ready root r = record r {
    recv_readys = insert r.id root r.recv_readys;
    ready_sent = true;
    messages = r.messages ++ ready_request root ∷ [];
  }

  unfoldable pub emit_ready : Bytes → Rbc → Result
  unfolding try_decode_value send_ready
  emit_ready root r =
      if r.ready_sent
      then try_decode_value root r
      else if has r.id r.recv_readys
      then ended r (some own_ready_present)
      else try_decode_value root (send_ready root r)

  unfoldable pub store_echo : ℕ → ProofRequest → Rbc → Rbc
  store_echo sid req r = record r { recv_echos = insert sid req r.recv_echos }

  unfoldable pub handle_echo_request : ℕ → ProofRequest → Rbc → Result
  unfolding emit_ready try_decode_value store_echo
  handle_echo_request sid req r =
      if has sid r.recv_echos
      then ended r (some echo_twice)
      else if not (verify_proof req)
      then ended r (some invalid_proof)
      else let r' = store_echo sid req r in
        if r'.ready_sent || ltb (count_echos req.root_hash r') (r.n - r.f)
        then try_decode_value req.root_hash r'
        else emit_ready req.root_hash r'

  unfoldable pub store_ready : ℕ → Bytes → Rbc → Rbc
  store_ready sid root r = record r { recv_readys = insert sid root r.recv_readys }

  unfoldable pub handle_ready_request : ℕ → Bytes → Rbc → Result
  unfolding emit_ready try_decode_value store_ready
  handle_ready_request sid root r =
      if has sid r.recv_readys
      then ended r (some ready_twice)
      else let r' = store_ready sid root r in
        if count_readys root r' == r.f + 1 && not r'.ready_sent
        then emit_ready root r'
        else try_decode_value root r'

  unfoldable pub send_echo : ProofRequest → Rbc → Rbc
  send_echo req r = record r { echo_sent = true; messages = r.messages ++ echo_request req ∷ [] }

  unfoldable pub handle_proof_request : ℕ → ProofRequest → Rbc → Result
  unfolding handle_echo_request send_echo
  handle_proof_request sid req r =
      if not (sid == r.proposer_id)
      then ended r (some not_the_proposer)
      else if r.echo_sent
      then ended r (some proof_twice)
      else if not (verify_proof req)
      then ended r (some invalid_proof)
      else handle_echo_request r.id req (send_echo req r)

  unfoldable pub handle_message : ℕ → BroadcastMessage → Rbc → Result
  unfolding handle_proof_request handle_echo_request handle_ready_request
  handle_message sid (proof_request req) r = handle_proof_request sid req r
  handle_message sid (echo_request req) r = handle_echo_request sid req r
  handle_message sid (ready_request root) r = handle_ready_request sid root r
  handle_message sid unknown r = ended r (some invalid_message)

  -- enc.Split, then enc.Encode.
  abbrev pub make_shards : ℕ → ℕ → Bytes → Option (List Bytes)
  make_shards d p value = elim (split d p value) [ none ↦ none | some shards ↦ encode d p shards ]

  abbrev pub send_proofs : List ProofRequest → Rbc → Result × List BroadcastMessage
  send_proofs [] r = (panics, [])
  send_proofs (p ∷ ps) r = after_first ps (handle_proof_request r.id p r)

  -- The value is split and encoded; the node handles the first proof, the rest are returned.
  unfoldable pub input_value : Bytes → Rbc → Result × List BroadcastMessage
  unfolding handle_proof_request
  input_value value r = elim (make_shards r.num_data_shards r.num_parity_shards value) [
    | none ↦ (ended r (some split_failed), [])
    | some shards ↦ send_proofs (make_proof_requests shards) r
  ]
