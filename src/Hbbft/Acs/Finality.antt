-- ===== src/Hbbft/Acs/Finality.antt =====
-- A common subset that has been decided and handed over stays without an output (sbc/hbbft/acs.go).
use bloc.Prelude.{
  ℕ, ◌≡◌, true, false, Option, none, some, List, [], ◌∷◌, Bool, Bool-cases, Option-cases, inl, inr,
  arith, ◌==◌, ◌||◌, ltb, if_cases, ◌&&◌, ◌-◌, length,
}
use bloc.Prelude.Maps.{lookup, has, insert, keys}
use bloc.Prelude.Bytes.{Bytes}
use bloc.Prelude.Results.{◌>>=◌}
use bloc.Hbbft.Bba
use bloc.Hbbft.Bba.{Bba, AgreementMessage}
use bloc.Hbbft.Rbc
use bloc.Hbbft.Rbc.{Rbc, Codec, BroadcastMessage}
use bloc.Hbbft.Acs.{
  Acs, AcsError, AcsMessage, Outcome, agreement, broadcast, other, add_message, add_agreements,
  add_broadcasts, flush_bba, flush_rbc, record_bba_result, try_complete_agreement, and_complete,
  input_false, record_agreement, process_agreement, input_true, record_broadcast, process_broadcast,
  send_proofs, own_broadcast, handle_message, input_value, count_truthy_agreements, rbc_failed,
  wrong_proof_count, uint64s_without, Payload,
}

-- Decided, with nothing left to hand over.
abbrev pub Spent : Acs → Type 0
Spent a = (a.decided ≡ true) × (a.output ≡ none)

abbrev pub Kept : Outcome → Type 0
Kept none = Unit
Kept (some r) = Spent r.0

Kept-bind :
    (m : Outcome) (f : Acs × Option AcsError → Outcome)
    → Kept m
    → ((r : Acs × Option AcsError) → Spent r.0 → Kept (f r))
    → Kept (m >>= f)
Kept-bind none f h k = tt
Kept-bind (some r) f h k = k r h

add_broadcasts-Spent :
    (pid : ℕ) (ms : List BroadcastMessage) (a : Acs) → Spent a → Spent (add_broadcasts pid ms a)
unfolding add_message
add_broadcasts-Spent pid [] a h = h
add_broadcasts-Spent pid (m ∷ ms) a h =
    add_broadcasts-Spent pid ms (add_message pid (broadcast m) a) h

add_agreements-Spent :
    (pid : ℕ) (ms : List AgreementMessage) (a : Acs) → Spent a → Spent (add_agreements pid ms a)
unfolding add_message
add_agreements-Spent pid [] a h = h
add_agreements-Spent pid (m ∷ ms) a h =
    add_agreements-Spent pid ms (add_message pid (agreement m) a) h

flush_bba-Spent : (pid : ℕ) (b : Bba) (a : Acs) → Spent a → Spent (flush_bba pid b a).1
unfolding flush_bba
flush_bba-Spent pid b a h =
    let (ms, b') = Bba.take_messages b in
    add_agreements-Spent pid ms
      (record a { bba_instances = insert pid (Bba.take_output b').1 a.bba_instances }) h

flush_rbc-Spent : (pid : ℕ) (r : Rbc) (a : Acs) → Spent a → Spent (flush_rbc pid r a).1
unfolding flush_rbc
flush_rbc-Spent pid r a h =
    let (ms, r') = Rbc.take_messages r in
    add_broadcasts-Spent pid ms
      (record a { rbc_instances = insert pid (Rbc.take_output r').1 a.rbc_instances }) h

record-Spent : (id : ℕ) (o : Option Bool) (a : Acs) → Spent a → Spent (record_bba_result id o a)
record-Spent id none a h = h
record-Spent id (some v) a h = h

-- The guard of `tryCompleteAgreement`.
complete-Spent : (a : Acs) → Spent a → Spent (try_complete_agreement a)
unfolding try_complete_agreement
complete-Spent a h =
    if_cases Spent (a.decided || ltb (count_truthy_agreements a) (a.n - a.f)) _ _ (λ e. h)
      (λ e. absurd (ground (arith, h.0, e)))

module _ (fuel : ℕ) where
  and_complete-Kept : (r : Acs × Option AcsError) → Spent r.0 → Kept (and_complete fuel r)
  and_complete-Kept (a, none) h = complete-Spent a h
  and_complete-Kept (a, some e) h = h

  input_false-Kept : (ids : List ℕ) (a : Acs) → Spent a → Kept (input_false fuel ids a)
  unfolding input_false
  input_false-Kept [] a h = h
  input_false-Kept (id ∷ ids) a h = elim (Option-cases (lookup id a.bba_instances)) [
    | inl q ↦ rw (q, Kept) (input_false-Kept ids a h)
    | inr (b, q) ↦
        rw (q, Kept)
          (elim (Bool-cases (Bba.accept_input b)) [
            | inr e ↦ rw (e, Kept) (input_false-Kept ids a h)
            | inl e ↦
                rw (e, Kept)
                  (elim (Option-cases (Bba.input_value fuel false b)) [
                    | inl t ↦ rw (t, Kept) tt
                    | inr (r, t) ↦
                        rw (t, Kept)
                          (elim (Option-cases r.1) [
                            | inr (x, u) ↦ rw (u, Kept) h
                            | inl u ↦
                                rw (u, Kept)
                                  (input_false-Kept ids _
                                    (record-Spent id _ _ (flush_bba-Spent id r.0 a h)))
                          ])
                  ])
          ])
  ]

  record_agreement-Kept :
      (pid : ℕ) (v : Bool) (a : Acs) → Spent a → Kept (record_agreement fuel pid v a)
  unfolding record_agreement
  record_agreement-Kept pid v a h =
      let a' : Acs = record a { bba_results = insert pid v a.bba_results } in
      let h' : Spent a' = h in
      elim (Bool-cases (has pid a.bba_results)) [
        | inl e ↦ rw (e, Kept) h
        | inr e ↦
            rw (e, Kept)
              (elim (Bool-cases (v && count_truthy_agreements a' == a'.n - a'.f)) [
                | inl q ↦
                    rw (q, Kept)
                      (Kept-bind (input_false fuel (keys a'.bba_instances) a') (and_complete fuel)
                        (input_false-Kept (keys a'.bba_instances) a' h') and_complete-Kept)
                | inr q ↦ rw (q, Kept) (complete-Spent a' h')
              ])
      ]

  process_agreement-Kept :
      (pid : ℕ) (fun : Bba → Bba.Outcome) (a : Acs)
      → Spent a
      → Kept (process_agreement fuel pid fun a)
  unfolding process_agreement
  process_agreement-Kept pid fun a h = elim (Option-cases (lookup pid a.bba_instances)) [
    | inl q ↦ rw (q, Kept) h
    | inr (b, q) ↦
        rw (q, Kept)
          (elim (Bool-cases b.done) [
            | inl e ↦ rw (e, Kept) h
            | inr e ↦
                rw (e, Kept)
                  (elim (Option-cases (fun b)) [
                    | inl t ↦ rw (t, Kept) tt
                    | inr (r, t) ↦
                        rw (t, Kept)
                          (elim (Option-cases r.1) [
                            | inr (x, u) ↦ rw (u, Kept) h
                            | inl u ↦
                                rw (u, Kept)
                                  (let h' = flush_bba-Spent pid r.0 a h in
                                    elim (Option-cases (flush_bba pid r.0 a).0) [
                                      | inl w ↦ rw (w, Kept) h'
                                      | inr (v, w) ↦
                                          rw (w, Kept)
                                            (record_agreement-Kept pid v (flush_bba pid r.0 a).1 h')
                                    ])
                          ])
                  ])
          ])
  ]

  record_broadcast-Kept :
      (pid : ℕ) (v : Bytes) (a : Acs) → Spent a → Kept (record_broadcast fuel pid v a)
  unfolding record_broadcast
  record_broadcast-Kept pid v a h =
      Kept-bind _ (and_complete fuel) (process_agreement-Kept pid (input_true fuel) _ h)
        and_complete-Kept

  -- After a call of a broadcast instance.
  abbrev after_broadcast : ℕ → Acs → Rbc.Result → Outcome
  after_broadcast pid a Rbc.panics = none
  after_broadcast pid a (Rbc.ended r' (some e)) =
      some (record a { rbc_instances = insert pid r' a.rbc_instances }, some (rbc_failed e))
  after_broadcast pid a (Rbc.ended r' none) =
      let (out, a') = flush_rbc pid r' a in
      elim out [ none ↦ some (a', none) | some v ↦ record_broadcast fuel pid v a' ]

  ended-Kept : (pid : ℕ) (a : Acs) → Spent a → (o : Rbc.Result) → Kept (after_broadcast pid a o)
  unfolding flush_rbc
  ended-Kept pid a h Rbc.panics = tt
  ended-Kept pid a h (Rbc.ended r' (some e)) = h
  ended-Kept pid a h (Rbc.ended r' none) =
      let h' = flush_rbc-Spent pid r' a h in
      elim (Option-cases (flush_rbc pid r' a).0) [
        | inl w ↦ rw (w, Kept) h'
        | inr (v, w) ↦ rw (w, Kept) (record_broadcast-Kept pid v (flush_rbc pid r' a).1 h')
      ]

  process_broadcast-Kept :
      (pid : ℕ) (fun : Rbc → Rbc.Result) (a : Acs)
      → Spent a
      → Kept (process_broadcast fuel pid fun a)
  unfolding process_broadcast
  process_broadcast-Kept pid fun a h = elim (Option-cases (lookup pid a.rbc_instances)) [
    | inl q ↦ rw (q, Kept) h
    | inr (r, q) ↦ rw (q, Kept) (ended-Kept pid a h (fun r))
  ]

  send_proofs-Spent :
      (from : ℕ) (ids : List ℕ) (ms : List BroadcastMessage) (a a' : Acs)
      → Spent a
      → send_proofs fuel from ids ms a ≡ some a'
      → Spent a'
  unfolding send_proofs
  send_proofs-Spent from [] ms a a' h e = ground (arith, h, e)
  send_proofs-Spent from (id ∷ ids) [] a a' h e = cc
  send_proofs-Spent from (id ∷ ids) (m ∷ ms) a a' h e = send_proofs-Spent from ids ms _ a' h e

  own_broadcast-Kept : (r : Rbc) (a : Acs) → Spent a → Kept (own_broadcast fuel r a)
  unfolding own_broadcast
  own_broadcast-Kept r a h =
      let h' = flush_rbc-Spent a.id r a h in
      let a' = (flush_rbc a.id r a).1 in
      elim (Option-cases (flush_rbc a.id r a).0) [
        | inl w ↦ rw (w, Kept) h'
        | inr (v, w) ↦
            rw (w, Kept)
              (Kept-bind
                (process_agreement fuel a'.id (input_true fuel)
                  (record a' { rbc_results = insert a'.id v a'.rbc_results }))
                (λ s. some (s.0, none))
                (process_agreement-Kept a'.id (input_true fuel)
                  (record a' { rbc_results = insert a'.id v a'.rbc_results }) h')
                (λ s k. k))
      ]

  module _ (k : Codec) where
    payload-Kept :
        (sid pid : ℕ) (p : Payload) (a : Acs)
        → Spent a
        → Kept (handle_message fuel k sid (record { proposer_id = pid; payload = p }) a)
    unfolding handle_message
    payload-Kept sid pid (agreement m) a h =
        process_agreement-Kept pid (Bba.receive_message fuel sid m) a h
    payload-Kept sid pid (broadcast m) a h =
        process_broadcast-Kept pid (Rbc.handle_message k sid m) a h
    payload-Kept sid pid other a h = h

    -- No message gives a spent common subset an output again.
    pub handle_message-Kept :
        (sid : ℕ) (msg : AcsMessage) (a : Acs) → Spent a → Kept (handle_message fuel k sid msg a)
    handle_message-Kept sid msg a h = payload-Kept sid msg.proposer_id msg.payload a h

    -- What the node's own value leads to, by the answer of its broadcast.
    abbrev after_input : Acs → Rbc.Result → List BroadcastMessage → Outcome
    after_input a o reqs = elim o [
      | Rbc.panics ↦ none
      | Rbc.ended r' (some e) ↦
          some (record a { rbc_instances = insert a.id r' a.rbc_instances }, some (rbc_failed e))
      | Rbc.ended r' none ↦ elim (length reqs == a.n - 1) [
        | false ↦
            some
              (record a { rbc_instances = insert a.id r' a.rbc_instances }, some wrong_proof_count)
        | true ↦
            send_proofs fuel a.id (uint64s_without a.nodes a.id) reqs a >>= own_broadcast fuel r'
      ]
    ]

    after_input-Kept :
        (a : Acs) (o : Rbc.Result) (reqs : List BroadcastMessage)
        → Spent a
        → Kept (after_input a o reqs)
    after_input-Kept a Rbc.panics reqs h = tt
    after_input-Kept a (Rbc.ended r' (some e)) reqs h = h
    after_input-Kept a (Rbc.ended r' none) reqs h = elim (Bool-cases (length reqs == a.n - 1)) [
      | inr e ↦ rw (e, Kept) h
      | inl e ↦
          rw (e, Kept)
            (elim (Option-cases (send_proofs fuel a.id (uint64s_without a.nodes a.id) reqs a)) [
              | inl q ↦ rw (q, Kept) tt
              | inr (a', q) ↦
                  rw (q, Kept)
                    (own_broadcast-Kept r' a'
                      (send_proofs-Spent a.id (uint64s_without a.nodes a.id) reqs a a' h q))
            ])
    ]

    -- Nor does the node's own value.
    pub input_value-Kept : (value : Bytes) (a : Acs) → Spent a → Kept (input_value fuel k value a)
    unfolding input_value
    input_value-Kept value a h = elim (Option-cases (lookup a.id a.rbc_instances)) [
      | inl q ↦ rw (q, Kept) h
      | inr (r, q) ↦
          rw (q, Kept)
            (after_input-Kept a (Rbc.input_value k value r).0 (Rbc.input_value k value r).1 h)
    ]
