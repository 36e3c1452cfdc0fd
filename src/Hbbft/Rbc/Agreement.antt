-- ===== src/Hbbft/Rbc/Agreement.antt =====
-- Agreement of reliable broadcast across nodes (sbc/hbbft/rbc.go): the network is a choice of
-- faulty senders, and for each honest one the node that it runs.
use bloc.Prelude.{
  ℕ, ◌+◌, ◌*◌, ◌≤◌, ◌≡◌, sym, ◌∙◌, Bool, true, false, some, List, ◌++◌, arith, length, count_if,
  contains, All,
}
use mathlib.Core.List.{Memᴰ}
use bloc.Prelude.Bytes.{Bytes}
use bloc.Prelude.Maps.{lookup, keys}
use bloc.Hbbft.Config.{Config}
use bloc.Hbbft.Rbc.{
  Rbc, Codec, ready_request, new_rbc, take_output, make_proof_requests, matches_root,
}
use bloc.Hbbft.Rbc.Sound.{Sound, Delivered, OwnReady}
use bloc.Hbbft.Rbc.History.{Node, Reach, fresh, Reach-Sound}
use bloc.Hbbft.Rbc.Quorum.{readys_agree}

-- A node that was constructed and then used in any way.
pub data Runs (k : Codec) (a : Node) : Type 0 where
  runs :
      (cfg : Config) (proposer : ℕ) (r : Rbc)
      → new_rbc k cfg proposer ≡ some r
      → Reach k (fresh r) a
      → Runs k a

Runs-Sound : (k : Codec) (a : Node) → Runs k a → Sound k a.sent a.state
Runs-Sound k a (runs cfg p r new reach) = Reach-Sound k cfg p r a new reach

All-mem {ℓ κ} : {A : Type ℓ} (P : A → Type κ) (x : A) (xs : List A) → All P xs → Memᴰ x xs → P x
All-mem P x xs h (Memᴰ.head e) = rw e h.0
All-mem P x xs h (Memᴰ.tail m) = All-mem P x _ h.1 m

-- Every READY message of a node has the root that it holds as its own.
one_root :
    (k : Codec) (a : Node) (g h : Bytes)
    → Sound k a.sent a.state
    → Memᴰ (ready_request g) (a.sent ++ a.state.messages)
    → Memᴰ (ready_request h) (a.sent ++ a.state.messages)
    → g ≡ h
one_root k a g h s mg mh =
    let own_g =
      All-mem (OwnReady a.state.id a.state.recv_readys) (ready_request g) _ s.own_ready mg in
    let own_h =
      All-mem (OwnReady a.state.id a.state.recv_readys) (ready_request h) _ s.own_ready mh in
    cc

module _ (k : Codec) (nodes : List ℕ) (faulty : ℕ → Bool) (peer : ℕ → Node) where
  -- Channels are authenticated: what a node has recorded from an honest peer, the peer has sent.
  pub record Member (a : Node) : Type 0 where
    pub ran : Runs k a
    pub known : All (λ p. contains nodes p ≡ true) (keys a.state.recv_readys)
    pub authentic :
        (p : ℕ) (root : Bytes)
        → faulty p ≡ false
        → lookup p a.state.recv_readys ≡ some root
        → Memᴰ (ready_request root) ((peer p).sent ++ (peer p).state.messages)

  -- Of at most 3f + 1 nodes at most f are faulty and send anything; the others run the code.
  -- Two nodes that run it with this f and the same number of data shards, on authenticated
  -- channels and hearing READY messages of the nodes only, hand over the same value if they
  -- hand over one, provided that a Merkle root determines the shards under it.
  pub outputs_agree :
      (f : ℕ) (a b : Node) (v w : Bytes)
      → length nodes ≤ 3 * f + 1
      → count_if faulty nodes ≤ f
      → ((p : ℕ) → faulty p ≡ false → Runs k (peer p))
      → ((root : Bytes) (xs ys : List Bytes)
          → matches_root k root (make_proof_requests k xs) ≡ true
          → matches_root k root (make_proof_requests k ys) ≡ true
          → xs ≡ ys)
      → Member a
      → Member b
      → a.state.f ≡ f
      → b.state.f ≡ f
      → a.state.num_data_shards ≡ b.state.num_data_shards
      → (take_output a.state).0 ≡ some v
      → (take_output b.state).0 ≡ some w
      → v ≡ w
  unfolding take_output
  outputs_agree f a b v w few faults peers binding ma mb fa fb same_shards oa ob =
      let sa : Sound k a.sent a.state = Runs-Sound k a ma.ran in
      let sb : Sound k b.sent b.state = Runs-Sound k b mb.ran in
      let da : Delivered k a.state v = sa.delivered v oa in
      let db : Delivered k b.state w = sb.delivered w ob in
      let honest =
        λ (p : ℕ) (g h : Bytes) (good : faulty p ≡ false)
            (la : lookup p a.state.recv_readys ≡ some g)
            (lb : lookup p b.state.recv_readys ≡ some h).
          one_root k (peer p) g h (Runs-Sound k (peer p) (peers p good)) (ma.authentic p g good la)
            (mb.authentic p h good lb) in
      let roots : da.root ≡ db.root =
        readys_agree faulty a.state.recv_readys b.state.recv_readys honest f nodes da.root db.root
          few faults sa.distinct_readys sb.distinct_readys ma.known mb.known
          (omega (arith, da.readys, fa)) (omega (arith, db.readys, fb)) in
      let shards : da.shards ≡ db.shards =
        binding db.root da.shards db.shards (rw roots at da.rooted) db.rooted in
      da.joined ∙ (rw (same_shards, shards) (sym db.joined))
