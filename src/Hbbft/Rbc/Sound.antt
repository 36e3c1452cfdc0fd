-- ===== src/Hbbft/Rbc/Sound.antt =====
-- What holds of a node of reliable broadcast (sbc/hbbft/rbc.go) between two calls, together with
-- the messages that it has handed out for sending so far.
use bloc.Prelude.{
  ℕ, ◌+◌, ◌-◌, ◌*◌, ◌≤◌, ◌≡◌, Bool, true, false, none, some, List, [], ◌∷◌, ◌++◌, arith, ◌⊎◌, inl,
  inr, All, All-map, count_if, count_if-append_one, All-append_one,
}
use bloc.Prelude.Maps.{
  Map, IsMap, has, insert, lookup, insert-IsMap, count_if-insert, lookup-insert_new,
  lookup-insert_self,
}
use bloc.Prelude.Bytes.{Bytes, bytes_eq}
use bloc.Hbbft.Rbc.{
  Rbc, Codec, ProofRequest, BroadcastMessage, proof_request, echo_request, ready_request, unknown,
  count_echos, count_readys, make_proof_requests, matches_root, store_output, send_ready,
  store_echo, store_ready, send_echo, join_shards, non_nil,
}
use bloc.Hbbft.Rbc.Rule.{Frame, Justified}

abbrev pub is_ready : BroadcastMessage → Bool
is_ready (proof_request p) = false
is_ready (echo_request p) = false
is_ready (ready_request root) = true
is_ready unknown = false

abbrev pub is_echo : BroadcastMessage → Bool
is_echo (proof_request p) = false
is_echo (echo_request p) = true
is_echo (ready_request root) = false
is_echo unknown = false

abbrev pub once : Bool → ℕ
once true = 1
once false = 0

-- A READY message that was sent is the one that the node has recorded as its own.
abbrev pub OwnReady : ℕ → Map Bytes → BroadcastMessage → Type 0
OwnReady id readys (proof_request p) = Unit
OwnReady id readys (echo_request p) = Unit
OwnReady id readys (ready_request root) = lookup id readys ≡ some root
OwnReady id readys unknown = Unit

-- `root` has the support on which a node may send READY.
abbrev pub Supported : Bytes → Rbc → Type 0
Supported root r = (r.n - r.f ≤ count_echos root r) ⊎ (r.f + 1 ≤ count_readys root r)

-- `v` was put together from shards that a quorum stands behind.
pub record Delivered (k : Codec) (r : Rbc) (v : Bytes) : Type 0 where
  pub root : Bytes
  pub shards : List Bytes
  pub readys : 2 * r.f + 1 ≤ count_readys root r
  pub echos : r.f + 1 ≤ count_echos root r
  pub rooted : matches_root k root (make_proof_requests k shards) ≡ true
  pub joined : v ≡ join_shards r.num_data_shards shards

pub record Sound (k : Codec) (sent : List BroadcastMessage) (r : Rbc) : Type 0 where
  pub distinct_readys : IsMap r.recv_readys
  pub distinct_echos : IsMap r.recv_echos
  -- READY and ECHO are sent at most once.
  pub ready_once : count_if is_ready (sent ++ r.messages) ≡ once r.ready_sent
  pub echo_once : count_if is_echo (sent ++ r.messages) ≡ once r.echo_sent
  pub own_ready : All (OwnReady r.id r.recv_readys) (sent ++ r.messages)
  pub ready_supported :
      r.ready_sent ≡ true
      → (root : Bytes) × (lookup r.id r.recv_readys ≡ some root) × Supported root r
  pub delivered : (v : Bytes) → r.output ≡ some v → Delivered k r v
  pub output_decoded : r.output_decoded ≡ false → r.output ≡ none

-- The shared part: the two maps gain entries under new keys, and nothing else is touched.
module _ (k : Codec) (sent : List BroadcastMessage) where
  store_echo-Sound :
      (sid : ℕ) (req : ProofRequest) (r : Rbc)
      → has sid r.recv_echos ≡ false
      → Sound k sent r
      → Sound k sent (store_echo k sid req r)
  unfolding store_echo
  store_echo-Sound sid req r new s = record {
    distinct_readys = s.distinct_readys;
    distinct_echos = insert-IsMap sid req r.recv_echos s.distinct_echos;
    ready_once = s.ready_once;
    echo_once = s.echo_once;
    own_ready = s.own_ready;
    ready_supported = λ e. let (root, own, w) = s.ready_supported e in (root, own, more root w);
    delivered = λ v e.
        let d = s.delivered v e in
        record {
          root = d.root;
          shards = d.shards;
          readys = d.readys;
          echos = omega (arith, grows d.root, d.echos);
          rooted = d.rooted;
          joined = d.joined;
        };
    output_decoded = s.output_decoded;
  }
    where
      grows : (root : Bytes) → count_echos root r ≤ count_echos root (store_echo k sid req r)
      grows root =
          ground
            (arith, count_if-insert (λ e. bytes_eq root e.1.root_hash) sid req r.recv_echos new)

      more : (root : Bytes) → Supported root r → Supported root (store_echo k sid req r)
      more root (inl q) = inl (omega (arith, grows root))
      more root (inr q) = inr q

  readys_grow :
      (sid : ℕ) (h root : Bytes) (r : Rbc)
      → has sid r.recv_readys ≡ false
      → count_readys root r ≤ count_readys root (store_ready k sid h r)
  unfolding store_ready
  readys_grow sid h root r new =
      ground (arith, count_if-insert (λ e. bytes_eq root e.1) sid h r.recv_readys new)

  own_kept :
      (id sid : ℕ) (h : Bytes) (m : Map Bytes) (ms : List BroadcastMessage)
      → has sid m ≡ false
      → All (OwnReady id m) ms
      → All (OwnReady id (insert sid h m)) ms
  own_kept id sid h m ms new = All-map (OwnReady id m) (OwnReady id (insert sid h m)) keep ms
    where
      keep : (x : BroadcastMessage) → OwnReady id m x → OwnReady id (insert sid h m) x
      keep (proof_request p) o = tt
      keep (echo_request p) o = tt
      keep (ready_request root) o = lookup-insert_new sid id h root m new o
      keep unknown o = tt

  Delivered-store_ready :
      (sid : ℕ) (h v : Bytes) (r : Rbc)
      → has sid r.recv_readys ≡ false
      → Delivered k r v
      → Delivered k (store_ready k sid h r) v
  unfolding store_ready
  Delivered-store_ready sid h v r new d = record {
    root = d.root;
    shards = d.shards;
    readys = omega (arith, readys_grow sid h d.root r new, d.readys);
    echos = d.echos;
    rooted = d.rooted;
    joined = d.joined;
  }

  store_ready-Sound :
      (sid : ℕ) (h : Bytes) (r : Rbc)
      → has sid r.recv_readys ≡ false
      → Sound k sent r
      → Sound k sent (store_ready k sid h r)
  unfolding store_ready
  store_ready-Sound sid h r new s = record {
    distinct_readys = insert-IsMap sid h r.recv_readys s.distinct_readys;
    distinct_echos = s.distinct_echos;
    ready_once = s.ready_once;
    echo_once = s.echo_once;
    own_ready = own_kept r.id sid h r.recv_readys _ new s.own_ready;
    ready_supported = λ e.
        let (root, own, w) = s.ready_supported e in
        (root, lookup-insert_new sid r.id h root r.recv_readys new own, more root w);
    delivered = λ v e. Delivered-store_ready sid h v r new (s.delivered v e);
    output_decoded = s.output_decoded;
  }
    where
      more : (root : Bytes) → Supported root r → Supported root (store_ready k sid h r)
      more root (inl q) = inl q
      more root (inr q) = inr (omega (arith, readys_grow sid h root r new))

  send_echo-Sound :
      (req : ProofRequest) (r : Rbc)
      → r.echo_sent ≡ false
      → Sound k sent r
      → Sound k sent (send_echo k req r)
  unfolding send_echo
  send_echo-Sound req r new s = record {
    distinct_readys = s.distinct_readys;
    distinct_echos = s.distinct_echos;
    ready_once =
        ground
          (arith, count_if-append_one is_ready sent r.messages (echo_request req), s.ready_once);
    echo_once =
        ground (arith, count_if-append_one is_echo sent r.messages (echo_request req), s.echo_once);
    own_ready = All-append_one _ sent r.messages _ s.own_ready tt;
    ready_supported = s.ready_supported;
    delivered = λ v e.
        let d = s.delivered v e in
        record {
          root = d.root;
          shards = d.shards;
          readys = d.readys;
          echos = d.echos;
          rooted = d.rooted;
          joined = d.joined;
        };
    output_decoded = s.output_decoded;
  }

  -- A node sends READY as the first entry under its own name.
  send_ready-Sound :
      (root : Bytes) (r : Rbc)
      → r.ready_sent ≡ false
      → has r.id r.recv_readys ≡ false
      → Justified root r
      → Sound k sent r
      → Sound k sent (send_ready k root r)
  unfolding send_ready
  send_ready-Sound root r new fresh why s =
      let t : Sound k sent (store_ready k r.id root r) = store_ready-Sound r.id root r fresh s in
      record {
        distinct_readys = insert-IsMap r.id root r.recv_readys s.distinct_readys;
        distinct_echos = s.distinct_echos;
        ready_once = ground (
          arith,
          count_if-append_one is_ready sent r.messages (ready_request root),
          s.ready_once,
        );
        echo_once =
            ground (
              arith,
              count_if-append_one is_echo sent r.messages (ready_request root),
              s.echo_once,
            );
        own_ready =
            All-append_one _ sent r.messages _
              (own_kept r.id r.id root r.recv_readys _ fresh s.own_ready)
              (lookup-insert_self r.id root r.recv_readys);
        ready_supported = λ e. (root, lookup-insert_self r.id root r.recv_readys, supported why);
        delivered = λ v e.
            let d : Delivered k (store_ready k r.id root r) v =
              Delivered-store_ready r.id root v r fresh (s.delivered v e) in
            record {
              root = d.root;
              shards = d.shards;
              readys = unfold store_ready in d.readys;
              echos = unfold store_ready in d.echos;
              rooted = d.rooted;
              joined = unfold store_ready in d.joined;
            };
        output_decoded = s.output_decoded;
      }
    where
      supported : Justified root r → Supported root (send_ready k root r)
      supported (inl q) = inl q
      supported (inr q) =
          inr
            (ground (arith, count_if-insert (λ e. bytes_eq root e.1) r.id root r.recv_readys fresh))

  store_output-Sound :
      (hash : Bytes) (full : List Bytes) (r : Rbc)
      → r.output_decoded ≡ false
      → 2 * r.f + 1 ≤ count_readys hash r
      → r.f + 1 ≤ count_echos hash r
      → matches_root k hash (make_proof_requests k full) ≡ true
      → Sound k sent r
      → Sound k sent (store_output k full r)
  unfolding store_output
  store_output-Sound hash full r new p q m s = record {
    distinct_readys = s.distinct_readys;
    distinct_echos = s.distinct_echos;
    ready_once = s.ready_once;
    echo_once = s.echo_once;
    own_ready = s.own_ready;
    ready_supported = s.ready_supported;
    delivered = λ v e. record {
      root = hash;
      shards = full;
      readys = p;
      echos = q;
      rooted = m;
      joined = non_nil-some (join_shards r.num_data_shards full) v e;
    };
    output_decoded = λ e. cc;
  }
    where
      non_nil-some : (b v : Bytes) → non_nil b ≡ some v → v ≡ b
      non_nil-some [] v e = cc
      non_nil-some (x ∷ b) v e = cc

pub Sound-frame :
    (k : Codec) → Frame k (λ a b. (sent : List BroadcastMessage) → Sound k sent a → Sound k sent b)
Sound-frame k = record {
  same = λ r sent s. s;
  after = λ a b c h g sent s. g sent (h sent s);
  stores_echo = λ sid req r new v sent. store_echo-Sound k sent sid req r new;
  stores_ready = λ sid root r new sent. store_ready-Sound k sent sid root r new;
  sends_echo = λ req r new v sent. send_echo-Sound k sent req r new;
  sends_ready = λ root r new fresh why sent. send_ready-Sound k sent root r new fresh why;
  decodes = λ hash full r new p q m sent. store_output-Sound k sent hash full r new p q m;
}
