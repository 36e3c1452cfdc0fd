-- ===== src/Examples/Rbc.antt =====
-- Instances of reliable broadcast (sbc/hbbft/rbc.go): nodes 1, 2 and 3 of four run the code, node 4
-- is faulty and silent, and node 1 broadcasts.
use bloc.Prelude.{
  ℕ, ◌+◌, ◌-◌, ◌≡◌, refl, sym, ◌∙◌, subst, Bool, true, false, none, some, List, [], ◌∷◌, ◌++◌,
  arith, ◌==◌, if◌then◌else◌, if_cases, length,
}
use mathlib.Core.List.{Memᴰ}
use bloc.Prelude.Bytes.{Bytes, bytes_eq_iff}
use bloc.Prelude.Maps.{Map, lookup}
use bloc.Hbbft.Config.{Config, with_default_f}
use bloc.Hbbft.Rbc.{
  Rbc, Codec, ProofRequest, BroadcastMessage, proof_request, echo_request, ready_request, Result,
  ended, panics, initial, new_rbc, handle_message, input_value, take_output, make_proof_requests,
  matches_root, handle_proof_request, handle_echo_request, handle_ready_request, send_echo,
  store_echo, store_ready, emit_ready, send_ready, try_decode_value, reconstruct_value,
  store_output,
}
use bloc.Hbbft.Rbc.History.{Node, Reach, inputs, receives, here, next, fresh, Reach-Sound}
use bloc.Hbbft.Rbc.Sound.{Sound}
use bloc.Hbbft.Rbc.Range.{foreign_index_panics}
use bloc.Hbbft.Rbc.Agreement.{Runs, runs, Member, outputs_agree}

-- A text of a list of shards from which the list can be read off.
abbrev shard_text : Bytes → Bytes → Bytes
shard_text [] rest = 0 ∷ rest
shard_text (b ∷ bs) rest = (1 + b) ∷ shard_text bs rest

abbrev root_of : List Bytes → Bytes
root_of [] = []
root_of (s ∷ ss) = shard_text s (root_of ss)

shard_text-injective : (a b r s : Bytes) → shard_text a r ≡ shard_text b s → (a ≡ b) × (r ≡ s)
shard_text-injective [] [] r s h = (refl, cc)
shard_text-injective [] (y ∷ b) r s h = ground arith
shard_text-injective (x ∷ a) [] r s h = ground arith
shard_text-injective (x ∷ a) (y ∷ b) r s h = ground (arith, shard_text-injective a b r s)

root_of-injective : (xs ys : List Bytes) → root_of xs ≡ root_of ys → xs ≡ ys
root_of-injective [] [] h = refl
root_of-injective [] ([] ∷ ys) h = cc
root_of-injective [] ((y ∷ b) ∷ ys) h = cc
root_of-injective ([] ∷ xs) [] h = cc
root_of-injective ((x ∷ a) ∷ xs) [] h = cc
root_of-injective (a ∷ xs) (b ∷ ys) h =
    let (e, r) = shard_text-injective a b (root_of xs) (root_of ys) h in
    ground (arith, root_of-injective xs ys r)

abbrev shard_at : ℕ → List Bytes → Bytes
shard_at i [] = []
shard_at i (s ∷ ss) = let rest = shard_at (i - 1) ss in if i == 0 then s else rest

-- The value is the first shard, and the others are empty.
abbrev toy : Codec
toy = record {
  supports = λ d p. true;
  split = λ d p v. some (v ∷ [] ∷ []);
  encode = λ d p ss. some (ss ++ [] ∷ [] ∷ []);
  reconstruct = λ d p ss. some ss;
  prove = λ ss i. record {
    root_hash = root_of ss;
    proof = shard_at i ss ∷ [];
    index = i;
    leaves = length ss;
  };
  verify_proof = λ p. true;
}

proofs-root :
    (root : Bytes) (xs : List Bytes)
    → matches_root toy root (make_proof_requests toy xs) ≡ true
    → root ≡ root_of xs
proofs-root root [] h = cc
proofs-root root (x ∷ xs) h = (bytes_eq_iff root (root_of (x ∷ xs))).0 h

toy-binding :
    (root : Bytes) (xs ys : List Bytes)
    → matches_root toy root (make_proof_requests toy xs) ≡ true
    → matches_root toy root (make_proof_requests toy ys) ≡ true
    → xs ≡ ys
toy-binding root xs ys h k =
    root_of-injective xs ys (sym (proofs-root root xs h) ∙ proofs-root root ys k)

abbrev member_config : ℕ → Config
member_config id = record { n = 4; f = 1; id = id; nodes = 1 ∷ 2 ∷ 3 ∷ 4 ∷ []; batch_size = 0 }

abbrev value : Bytes
value = 7 ∷ 8 ∷ []

abbrev root : Bytes
root = root_of (value ∷ [] ∷ [] ∷ [] ∷ [])

abbrev proof_of : ℕ → ProofRequest
proof_of i = toy.prove (value ∷ [] ∷ [] ∷ [] ∷ []) i

abbrev begun : ℕ → Rbc
begun id = initial (member_config id) 1

abbrev state_of : Rbc → Result → Rbc
state_of r panics = r
state_of r (ended r' e) = r'

abbrev got : ℕ → BroadcastMessage → Rbc → Rbc
got sid msg r = state_of r (handle_message toy sid msg r)

-- What each node hears from two others after the proof.
abbrev echoed : ℕ → ℕ → Rbc → Rbc
echoed x y r = got y (echo_request (proof_of (y - 1))) (got x (echo_request (proof_of (x - 1))) r)

abbrev readied : ℕ → ℕ → Rbc → Rbc
readied x y r = got y (ready_request root) (got x (ready_request root) r)

abbrev opened1 : Rbc
opened1 = state_of (begun 1) (input_value toy value (begun 1)).0

abbrev node1 : Node
node1 = fresh (readied 2 3 (echoed 2 3 opened1))

abbrev node2 : Node
node2 = fresh (readied 1 3 (echoed 1 3 (got 1 (proof_request (proof_of 1)) (begun 2))))

abbrev node3 : Node
node3 = fresh (readied 1 2 (echoed 1 2 (got 1 (proof_request (proof_of 2)) (begun 3))))

new_member : (id : ℕ) → new_rbc toy (member_config id) 1 ≡ some (begun id)
unfolding new_rbc initial with_default_f
new_member id = refl

-- A message that a node handles without an error.
hears :
    {a : Node} (sid : ℕ) (msg : BroadcastMessage) (r : Rbc)
    → Reach toy a (fresh r)
    → handle_message toy sid msg r ≡ ended (got sid msg r) none
    → Reach toy a (fresh (got sid msg r))
hears sid msg r reach e = next reach (receives sid msg none e refl)

node1-Runs : Runs toy node1
unfolding initial input_value handle_message handle_proof_request handle_echo_request
    handle_ready_request send_echo store_echo store_ready emit_ready send_ready try_decode_value
    reconstruct_value store_output
node1-Runs =
    let opened : Reach toy (fresh (begun 1)) (fresh opened1) =
      next here (inputs value none refl refl) in
    runs (member_config 1) 1 (begun 1) (new_member 1) (
      hears 3 (ready_request root) _
        (hears 2 (ready_request root) _
          (hears 3 (echo_request (proof_of 2)) _ (hears 2 (echo_request (proof_of 1)) _ opened refl)
            refl)
          refl)
        refl)

node2-Runs : Runs toy node2
unfolding initial handle_message handle_proof_request handle_echo_request handle_ready_request
    send_echo store_echo store_ready emit_ready send_ready try_decode_value reconstruct_value
    store_output
node2-Runs = runs (member_config 2) 1 (begun 2) (new_member 2) (
    hears 3 (ready_request root) _
      (hears 1 (ready_request root) _
        (hears 3 (echo_request (proof_of 2)) _
          (hears 1 (echo_request (proof_of 0)) _
            (hears 1 (proof_request (proof_of 1)) (begun 2) here refl) refl)
          refl)
        refl)
      refl)

node3-Runs : Runs toy node3
unfolding initial handle_message handle_proof_request handle_echo_request handle_ready_request
    send_echo store_echo store_ready emit_ready send_ready try_decode_value reconstruct_value
    store_output
node3-Runs = runs (member_config 3) 1 (begun 3) (new_member 3) (
    hears 2 (ready_request root) _
      (hears 1 (ready_request root) _
        (hears 2 (echo_request (proof_of 1)) _
          (hears 1 (echo_request (proof_of 0)) _
            (hears 1 (proof_request (proof_of 2)) (begun 3) here refl) refl)
          refl)
        refl)
      refl)

abbrev faulty : ℕ → Bool
faulty p = p == 4

abbrev peer : ℕ → Node
peer p = if p == 1 then node1 else if p == 2 then node2 else node3

peer-Runs : (p : ℕ) → faulty p ≡ false → Runs toy (peer p)
peer-Runs p good =
    if_cases (Runs toy) (p == 1) _ _ (λ e. node1-Runs)
      (λ e. if_cases (Runs toy) (p == 2) _ _ (λ e'. node2-Runs) (λ e'. node3-Runs))

abbrev HasReady : Node → Type 0
HasReady a = Memᴰ (ready_request root) (a.sent ++ a.state.messages)

peer-ready : (p : ℕ) → HasReady (peer p)
unfolding initial input_value handle_message handle_proof_request handle_echo_request
    handle_ready_request send_echo store_echo store_ready emit_ready send_ready try_decode_value
    reconstruct_value store_output
peer-ready p =
    if_cases HasReady (p == 1) _ _ (λ e. Memᴰ.tail (Memᴰ.head refl))
      (λ e.
        if_cases HasReady (p == 2) _ _ (λ e'. Memᴰ.tail (Memᴰ.head refl))
          (λ e'. Memᴰ.tail (Memᴰ.head refl)))

-- READY messages of three senders for the one root.
abbrev three : ℕ → ℕ → ℕ → Map Bytes
three x y z = (x, root) ∷ (y, root) ∷ (z, root) ∷ []

one_root : (x y z p : ℕ) (g : Bytes) → lookup p (three x y z) ≡ some g → root ≡ g
one_root x y z p g h = ground arith

abbrev members : List ℕ
members = 1 ∷ 2 ∷ 3 ∷ 4 ∷ []

node1-Member : Member toy members faulty peer node1
unfolding initial input_value handle_message handle_proof_request handle_echo_request
    handle_ready_request send_echo store_echo store_ready emit_ready send_ready try_decode_value
    reconstruct_value store_output
node1-Member = record {
  ran = node1-Runs;
  known = (refl, (refl, (refl, tt)));
  authentic = λ p g good h.
      subst (λ r. Memᴰ (ready_request r) ((peer p).sent ++ (peer p).state.messages))
        (one_root 1 2 3 p g h) (peer-ready p);
}

node2-Member : Member toy members faulty peer node2
unfolding initial input_value handle_message handle_proof_request handle_echo_request
    handle_ready_request send_echo store_echo store_ready emit_ready send_ready try_decode_value
    reconstruct_value store_output
node2-Member = record {
  ran = node2-Runs;
  known = (refl, (refl, (refl, tt)));
  authentic = λ p g good h.
      subst (λ r. Memᴰ (ready_request r) ((peer p).sent ++ (peer p).state.messages))
        (one_root 2 1 3 p g h) (peer-ready p);
}

outputs_agree_example : value ≡ value
unfolding initial input_value handle_message handle_proof_request handle_echo_request
    handle_ready_request send_echo store_echo store_ready emit_ready send_ready try_decode_value
    reconstruct_value store_output take_output
outputs_agree_example =
    outputs_agree toy members faulty peer 1 node1 node2 value value (omega arith) (omega arith)
      peer-Runs toy-binding node1-Member node2-Member refl refl refl refl refl

Reach-Sound_example : Sound toy [] (got 1 (proof_request (proof_of 1)) (begun 2))
unfolding initial handle_message handle_proof_request handle_echo_request send_echo store_echo
    try_decode_value
Reach-Sound_example =
    Reach-Sound toy (member_config 2) 1 (begun 2)
      (fresh (got 1 (proof_request (proof_of 1)) (begun 2))) (new_member 2)
      (hears 1 (proof_request (proof_of 1)) (begun 2) here refl)

-- Node 2 has READY messages of three nodes; node 4's echo has an index that no shard has.
abbrev misled : Rbc
misled = record (begun 2) {
  recv_readys = three 1 2 3;
  recv_echos = (1, proof_of 0) ∷ (4, proof_of 9) ∷ [];
}

foreign_index_panics_example : try_decode_value toy root misled ≡ panics
unfolding initial
foreign_index_panics_example =
    foreign_index_panics toy root misled refl (omega arith) (omega arith) refl
