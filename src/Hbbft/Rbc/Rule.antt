-- ===== src/Hbbft/Rbc/Rule.antt =====
-- A rule for the handlers of reliable broadcast (sbc/hbbft/rbc.go): a reflexive and transitive
-- relation that each single state change respects, under the tests that the code makes before it,
-- is respected by every handler.
use bloc.Prelude.{
  ℕ, ◌+◌, ◌-◌, ◌*◌, ◌≤◌, ◌≡◌, true, false, not, ◌&&◌, ◌||◌, none, some, List, [], ◌∷◌, arith, ◌⊎◌,
  inl, inr, ◌==◌, ltb, leb, if_cases, Bool-cases, Option-cases,
}
use bloc.Prelude.Maps.{has}
use bloc.Prelude.Bytes.{Bytes}
use bloc.Hbbft.Rbc.{
  Rbc, Codec, ProofRequest, BroadcastMessage, proof_request, echo_request, ready_request, unknown,
  Result, ended, panics, count_echos, count_readys, committed, sort_by_index, place_shards, missing,
  make_proof_requests, matches_root, store_output, reconstruct_value, try_decode_value, send_ready,
  emit_ready, store_echo, handle_echo_request, store_ready, handle_ready_request, send_echo,
  handle_proof_request, handle_message, input_value, make_shards, send_proofs, after_first,
}

-- What holds of the state that a call ends in, if it ends.
abbrev pub Ensures {ℓ} : (Rbc → Type ℓ) → Result → Type ℓ
Ensures P (ended r e) = P r
Ensures P panics = Unit

pub Ensures-map {ℓ κ} :
    (P : Rbc → Type ℓ) (Q : Rbc → Type κ)
    → ((r : Rbc) → P r → Q r)
    → (o : Result) → Ensures P o
    → Ensures Q o
Ensures-map P Q f (ended r e) h = f r h
Ensures-map P Q f panics h = tt

-- A node sends READY for a root on n - f echoes or on f + 1 READY messages for it.
abbrev pub Justified : Bytes → Rbc → Type 0
Justified root r = (r.n - r.f ≤ count_echos root r) ⊎ (count_readys root r ≡ r.f + 1)

pub record Frame {ℓ} (k : Codec) (R : Rbc → Rbc → Type ℓ) : Type ℓ where
  pub same : (r : Rbc) → R r r
  pub after : (a b c : Rbc) → R a b → R b c → R a c
  pub stores_echo :
      (sid : ℕ) (req : ProofRequest) (r : Rbc)
      → has sid r.recv_echos ≡ false
      → k.verify_proof req ≡ true
      → R r (store_echo k sid req r)
  pub stores_ready :
      (sid : ℕ) (root : Bytes) (r : Rbc)
      → has sid r.recv_readys ≡ false
      → R r (store_ready k sid root r)
  pub sends_echo :
      (req : ProofRequest) (r : Rbc)
      → r.echo_sent ≡ false
      → k.verify_proof req ≡ true
      → R r (send_echo k req r)
  pub sends_ready :
      (root : Bytes) (r : Rbc)
      → r.ready_sent ≡ false
      → has r.id r.recv_readys ≡ false
      → Justified root r
      → R r (send_ready k root r)
  pub decodes :
      (hash : Bytes) (full : List Bytes) (r : Rbc)
      → r.output_decoded ≡ false
      → 2 * r.f + 1 ≤ count_readys hash r
      → r.f + 1 ≤ count_echos hash r
      → matches_root k hash (make_proof_requests k full) ≡ true
      → R r (store_output k full r)

after_first-Ensures {ℓ} :
    (P : Rbc → Type ℓ) (ps : List ProofRequest) (o : Result)
    → Ensures P o
    → Ensures P (after_first ps o).0
after_first-Ensures P ps panics h = tt
after_first-Ensures P ps (ended r none) h = h
after_first-Ensures P ps (ended r (some e)) h = h

module _ {ℓ} (k : Codec) {R : Rbc → Rbc → Type ℓ} (frame : Frame k R) where
  open frame use {same, after, stores_echo, stores_ready, sends_echo, sends_ready, decodes}

  reconstruct-frame :
      (a : Rbc) (hash : Bytes) (shards : List Bytes) (r : Rbc)
      → R a r
      → r.output_decoded ≡ false
      → 2 * r.f + 1 ≤ count_readys hash r
      → r.f + 1 ≤ count_echos hash r
      → Ensures (R a) (reconstruct_value k hash shards r)
  unfolding reconstruct_value
  reconstruct-frame a hash shards r h d p q =
      elim (Option-cases (k.reconstruct r.num_data_shards r.num_parity_shards shards)) [
        | inl e ↦ rw (e, reconstruct_value) h
        | inr (full, e) ↦ elim (Bool-cases (matches_root k hash (make_proof_requests k full))) [
          | inl m ↦ rw (e, reconstruct_value) (rw m (after a r _ h (decodes hash full r d p q m)))
          | inr m ↦ rw (e, reconstruct_value) (rw m h)
        ]
      ]

  decode-frame :
      (a : Rbc) (hash : Bytes) (r : Rbc) → R a r → Ensures (R a) (try_decode_value k hash r)
  unfolding try_decode_value
  decode-frame a hash r h =
      elim (Bool-cases
        (r.output_decoded || leb (count_readys hash r) (2 * r.f) || leb (count_echos hash r) r.f)) [
          | inl w ↦ rw (w, try_decode_value) h
          | inr w ↦
              elim (Option-cases (
                place_shards (sort_by_index (committed hash r.recv_echos))
                  (missing (r.num_parity_shards + r.num_data_shards)))) [
                    | inl e ↦ rw (w, e, try_decode_value) tt
                    | inr (shards, e) ↦
                        rw (w, e, try_decode_value)
                          (reconstruct-frame a hash shards r h (ground arith) (ground arith)
                            (ground arith))
                  ]
        ]

  emit-frame :
      (a : Rbc) (root : Bytes) (r : Rbc)
      → R a r
      → Justified root r
      → Ensures (R a) (emit_ready k root r)
  unfolding emit_ready
  emit-frame a root r h j =
      if_cases (Ensures (R a)) r.ready_sent _ _ (λ e. decode-frame a root r h)
        λ e.
          if_cases (Ensures (R a)) (has r.id r.recv_readys) _ _ (λ o. h)
            λ o.
              decode-frame a root (send_ready k root r) (after a r _ h (sends_ready root r e o j))

  echo-frame :
      (a : Rbc) (sid : ℕ) (req : ProofRequest) (r : Rbc)
      → R a r
      → Ensures (R a) (handle_echo_request k sid req r)
  unfolding handle_echo_request
  echo-frame a sid req r h = elim (Bool-cases (has sid r.recv_echos)) [
    | inl d ↦ rw (d, handle_echo_request) h
    | inr d ↦ elim (Bool-cases (k.verify_proof req)) [
      | inr v ↦ rw (d, v, handle_echo_request) h
      | inl v ↦
          let r' : Rbc = store_echo k sid req r in
          let h' : R a r' = after a r r' h (stores_echo sid req r d v) in
          elim (Bool-cases (r'.ready_sent || ltb (count_echos req.root_hash r') (r.n - r.f))) [
            | inl w ↦ rw (d, v, handle_echo_request) (rw w (decode-frame a req.root_hash r' h'))
            | inr w ↦
                rw (d, v, handle_echo_request)
                  (rw w (emit-frame a req.root_hash r' h' (inl (ground arith))))
          ]
    ]
  ]

  ready-frame :
      (a : Rbc) (sid : ℕ) (root : Bytes) (r : Rbc)
      → R a r
      → Ensures (R a) (handle_ready_request k sid root r)
  unfolding handle_ready_request
  ready-frame a sid root r h = elim (Bool-cases (has sid r.recv_readys)) [
    | inl d ↦ rw (d, handle_ready_request) h
    | inr d ↦
        let r' : Rbc = store_ready k sid root r in
        let h' : R a r' = after a r r' h (stores_ready sid root r d) in
        elim (Bool-cases (count_readys root r' == r.f + 1 && not r'.ready_sent)) [
          | inl w ↦
              rw (d, handle_ready_request) (rw w (emit-frame a root r' h' (inr (ground arith))))
          | inr w ↦ rw (d, handle_ready_request) (rw w (decode-frame a root r' h'))
        ]
  ]

  proof-frame :
      (sid : ℕ) (req : ProofRequest) (r : Rbc) → Ensures (R r) (handle_proof_request k sid req r)
  unfolding handle_proof_request
  proof-frame sid req r =
      if_cases (Ensures (R r)) (not (sid == r.proposer_id)) _ _ (λ p. same r)
        λ p.
          if_cases (Ensures (R r)) r.echo_sent _ _ (λ e. same r)
            λ e.
              if_cases (Ensures (R r)) (not (k.verify_proof req)) _ _ (λ v. same r)
                λ v. echo-frame r r.id req (send_echo k req r) (sends_echo req r e (ground arith))

  -- Whatever the sender and the message, the state before is related to the one after.
  pub handle_message-frame :
      (sid : ℕ) (msg : BroadcastMessage) (r : Rbc) → Ensures (R r) (handle_message k sid msg r)
  unfolding handle_message
  handle_message-frame sid (proof_request req) r = proof-frame sid req r
  handle_message-frame sid (echo_request req) r = echo-frame r sid req r (same r)
  handle_message-frame sid (ready_request root) r = ready-frame r sid root r (same r)
  handle_message-frame sid unknown r = same r

  -- The same of the node's own input, where it handles the first proof itself.
  pub input_value-frame : (value : Bytes) (r : Rbc) → Ensures (R r) (input_value k value r).0
  unfolding input_value
  input_value-frame value r =
      elim (Option-cases (make_shards k r.num_data_shards r.num_parity_shards value)) [
        | inl e ↦ rw (e, input_value) (same r)
        | inr (shards, e) ↦ rw (e, input_value) (sent (make_proof_requests k shards))
      ]
    where
      sent : (ps : List ProofRequest) → Ensures (R r) (send_proofs k ps r).0
      sent [] = tt
      sent (p ∷ ps) =
          after_first-Ensures (R r) ps (handle_proof_request k r.id p r) (proof-frame r.id p r)
