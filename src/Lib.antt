-- ===== src/Lib.antt =====
-- Verification library of bloc: agreement on encrypted inclusion lists among a fixed set of nodes.
--
-- The program. Each node collects pending transactions (mempool-il), turns them into an inclusion
-- list, and proposes it as its batch of a slot. The slot (sbc/hbbft/bloc_slot.go) runs one instance
-- of an asynchronous common subset (sbc/hbbft/acs.go), which consists of one reliable broadcast
-- (sbc/hbbft/rbc.go) and one binary agreement (sbc/hbbft/bba.go) for each node. The agreed lists are
-- merged into one set of encrypted transactions (bloc-node/internal/app/inclusion).
--
-- The files.
-- - Prelude: shared names, tests on numbers, lists, maps, byte strings, text and uint64.
-- - Hbbft/Config, Hbbft/Queue: `Config` of sbc/hbbft/honey_badger.go, and sbc/hbbft/message_que.go.
-- - Hbbft/Rbc: the struct `RBC` as the record `Rbc`, and a function for each of its methods
--   (`handleReadyRequest` is `handle_ready_request`, and so on). Rule, Sound and History prove the
--   invariant, Quorum and Agreement what it means for several nodes; Range is about the indices of
--   shards.
-- - Hbbft/Bba: the same for `BBA`. Its handlers call one another and themselves, so that a call is a
--   value of the type `Call`, and `run` gives them fuel. Termination shows that five calls for each
--   epoch up to the one after the latest that the messages name are enough.
-- - Hbbft/Acs: `ACS`, with the instances in maps; `processAgreement` and `processBroadcast` take the
--   operation on the instance as an argument, as the source does. Completion is about
--   `tryCompleteAgreement`, Addressing about the recipients of messages, Finality about a subset
--   that was handed over.
-- - Hbbft/Slot: `SlotACS`; Order is about the batches, Output and Loss about
--   `maybeBuildOutput`.
-- - Inclusion: types.go and merge.go; Selection, Shortcut and Canonical are about `Merge`,
--   Order about the order in which its map is ranged over.
-- - Mempool: the transactions of mempool-il/internal/mempool, with Calldata (classifier.go and
--   `buildPlaceholderCalldata` of replay_placeholder.go), Store (store.go) and Builder
--   (mempool-il/internal/inclusion/builder.go).
-- - Transport/Frame: `writeEnvelopeFrame` and `readEnvelopeFrame` of
--   bloc-node/internal/app/transport_libp2p_frame.go. A varint has at most ten bytes.
-- - Node: the node of an operator (bloc-node/internal/app/node.go, types.go). Shares is about decryption
--   shares, Lifecycle about slots and submitted transactions, Combine about the plan and
--   `tryCombine`; a function is what the source does under one lock. Steps lets the goroutines take
--   the locks in any order, with each combination as a `Flight` from `claimCombine` to its release;
--   below it Sound, Pooled, Budget, Phases and Outcomes are about all that a node can come to,
--   Progress about the rounds of a combination. The recursion of `tryCombine` has fuel, of which one round is enough.
-- - Bte: bte/btd-impl-main/be/cluster.go. Arrange is `arrangeBatch`, Combine `CombineSharesBounded`
--   with the loop over share subsets on fuel, one more than the attempts allowed, which end it
--   first; Subsets is about their lexicographic order. Wire is the encoding of ciphertexts.
--   Batch goes from encodings to a plan.
-- - Node/Inbound: `handleEnvelope`, with the common subset as an argument.
-- - Node/Decision: `handleACSOutput` as a whole, from the lists of the agreed subset to the node's own
--   shares; it composes Hbbft/Slot, Inclusion, Bte and the rest of Node.
-- - Node/Cluster: the node with the cluster's combination in the place of an arbitrary one.
-- - Transport/Envelope: envelopes with their lanes and checks; Codec is codec.go, Messages and RoundTrip
--   are about it. A number of at least 2 ^ 63 is received as a negative int.
-- - Examples: toy networks, codes and hashes on which the theorems are applied.
--
-- Conventions. A method that changes its receiver returns the new state. A Go map is an association
-- list. Where the order of a `range` loop matters for agreement between nodes (the candidates of
-- `Merge`, the common subset), each node has an order of its own; elsewhere it is the
-- list's. A *T or interface value that may be nil is an Option. A call that can panic or run out of fuel says so in its result. Each
-- struct handles one call at a time in the source, through the channels of its goroutine or a lock,
-- so calls are a sequence here.
--
-- Parameters. The Merkle tree and the erasure code are the record `Codec`; the encoding of a batch,
-- the block builder and the hook after the agreement are `SlotEnv`; SHA-256 and JSON are `Hashing`
-- or an argument `hash_hex`; the encoding of curve points is `Curve` or `Elements`, interpolation and
-- the AEAD are `Opening`, and 2 * sqrt(n) in floating point is an argument. Nothing is assumed of
-- them but what a theorem names.
--
-- Not modelled: the libp2p streams and queues, the node's start and its HTTP pages and
-- commands, the HoneyBadger engine and its buffer, the corpus, configuration files, the RPC of the
-- provider, traces and metrics, the evaluation harness, and the cryptography of batched
-- threshold encryption. Most of them are I/O around the protocols above; the last is pairing-based
-- cryptography over a library.
pub mod Bte
pub mod Examples
pub mod Hbbft
pub mod Inclusion
pub mod Mempool
pub mod Node
pub mod Prelude
pub mod Transport
