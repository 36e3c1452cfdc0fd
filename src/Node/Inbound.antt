-- ===== src/Node/Inbound.antt =====
-- Envelopes that reach a node (bloc-node/internal/app/node.go: `handleEnvelope`). The state of the
-- slot's common subset is of an abstract type `A`, with the call `stepACS` of `HandleMessage` as an
-- argument: none for its error, and else the output, if there is one. The messages it emits and the
-- counts of the traffic are not part of the state here.
use bloc.Prelude.{
  ℕ, Bool, true, false, not, ◌&&◌, Option, none, some, List, [], ◌==◌, ◌≡◌, refl, ◌||◌, ◌⊎◌, arith,
  if◌then◌else◌, if_cases, Option-cases, inl, inr,
}
use bloc.Prelude.Bytes.{bytes_eq}
use bloc.Hbbft.Slot.{SlotMessage, SlotOutput}
use bloc.Node.{NodeSettings, Node}
use bloc.Node.Shares.{Curve, WireShare, add_wire_share}
use bloc.Node.Combine.{Combiner, try_combine}
use bloc.Node.Steps.{Setting, with_slot}
use bloc.Node.Steps.Progress.{here}
use bloc.Node.Decision.{DecisionEnv, Sharing, decide, apply_decision, handle_acs_output}
use bloc.Transport.Envelope.RoundTrip.{kinds_differ}
use bloc.Node.Lifecycle.{is_some}
use bloc.Node.Decision.Runs.{Runs, try_combine-Runs, follow-Runs}
use bloc.Transport.Envelope.{WireEnvelope, acs_kind, share_kind}

module _ {El A : Type 0} (env : DecisionEnv El)
    (acs_step : ℕ → SlotMessage → A → A × Option (Option SlotOutput)) where
  -- A refused share does not start a combination.
  unfoldable pub handle_share : NodeSettings → Curve → Combiner → ℕ → Option WireShare → Node → Node
  unfolding try_combine add_wire_share
  handle_share cfg curve combiner fuel none n = n
  handle_share cfg curve combiner fuel (some w) n =
      let added = add_wire_share cfg curve w (n.slot) in
      elim added.1 [
        | some reason ↦ with_slot (added.0) n
        | none ↦ try_combine cfg combiner fuel (with_slot (added.0) n)
      ]

  -- An error, no output yet, or an output.
  unfoldable pub handle_acs_result :
      NodeSettings
      → Curve
      → Sharing
      → Combiner
      → ℕ
      → Node
      → Option (Option SlotOutput)
      → Node × List WireShare
  unfolding handle_acs_output
  handle_acs_result cfg curve f combiner fuel n none = (n, [])
  handle_acs_result cfg curve f combiner fuel n (some none) = (n, [])
  handle_acs_result cfg curve f combiner fuel n (some (some out)) =
      handle_acs_output env cfg curve f combiner fuel out n

  -- An envelope without its message and an error of the common subset change no more.
  unfoldable pub handle_acs :
      NodeSettings
      → Curve
      → Sharing
      → Combiner
      → ℕ
      → ℕ
      → Node
      → A
      → Option SlotMessage
      → Node × A × List WireShare
  handle_acs cfg curve f combiner fuel from n a none = (n, a, [])
  handle_acs cfg curve f combiner fuel from n a (some msg) =
      let stepped = acs_step from msg a in
      let handled = handle_acs_result cfg curve f combiner fuel n (stepped.1) in
      (handled.0, stepped.0, handled.1)

  -- The node, the common subset, and the shares sent to every peer.
  unfoldable pub handle_envelope :
      NodeSettings
      → Curve
      → Sharing
      → Combiner
      → ℕ
      → WireEnvelope
      → Node
      → A
      → Node × A × List WireShare
  unfolding handle_acs handle_share
  handle_envelope cfg curve f combiner fuel m n a =
      if m.direct && not (m.to == cfg.id)
      then (n, a, [])
      else if not (m.slot == n.slot.id)
      then (n, a, [])
      else if bytes_eq (m.kind) acs_kind
      then handle_acs cfg curve f combiner fuel (m.from) n a (m.acs)
      else if bytes_eq (m.kind) share_kind
      then (handle_share cfg curve combiner fuel (m.share) n, a, [])
      else (n, a, [])

  module _ (e : Setting) where
    share-Runs :
        (fuel : ℕ) (w : WireShare) (n : Node)
        → Runs e
            (with_slot (add_wire_share e.cfg e.curve w n.slot).0 n)
            (handle_share e.cfg e.curve e.combiner fuel (some w) n)
    unfolding handle_share
    share-Runs fuel w n =
        let added = add_wire_share e.cfg e.curve w n.slot in
        let n' = with_slot added.0 n in
        elim (Option-cases added.1) [
          | inr (reason, q) ↦ rw (q, handle_share) here
          | inl q ↦ rw (q, handle_share) (try_combine-Runs e fuel n')
        ]

    -- Whether an envelope is for this node and its slot.
    abbrev pub concerns : WireEnvelope → Node → Bool
    concerns m n = (not (m.direct) || m.to == e.cfg.id) && m.slot == n.slot.id

    -- What may come of an envelope: a share starts a run of steps with the addition of that share, and
    -- an output of the common subset with what that output decides.
    pub data Handles (m : WireEnvelope) (n : Node) (a : A)
        : Node × A × List WireShare → Type 0 where
      not_ours : concerns m n ≡ false → Handles m n a (n, a, [])
      no_message :
          concerns m n ≡ true
          → ((bytes_eq m.kind acs_kind && is_some m.acs)
              || (bytes_eq m.kind share_kind && is_some m.share))
            ≡ false
          → Handles m n a (n, a, [])
      undecided :
          (msg : SlotMessage) (o : Option (Option SlotOutput))
          → concerns m n ≡ true
          → bytes_eq m.kind acs_kind ≡ true
          → m.acs ≡ some msg
          → (o ≡ none) ⊎ (o ≡ some none)
          → (acs_step m.from msg a).1 ≡ o
          → Handles m n a (n, (acs_step m.from msg a).0, [])
      decided :
          (msg : SlotMessage) (out : SlotOutput) (k : Node) (sent : List WireShare)
          → concerns m n ≡ true
          → bytes_eq m.kind acs_kind ≡ true
          → m.acs ≡ some msg
          → (acs_step m.from msg a).1 ≡ some (some out)
          → Runs e (apply_decision e.cfg (decide env e.cfg n.slot.id out) n) k
          → Handles m n a (k, (acs_step m.from msg a).0, sent)
      share_taken :
          (w : WireShare) (k : Node)
          → concerns m n ≡ true
          → bytes_eq m.kind share_kind ≡ true
          → m.share ≡ some w
          → Runs e (with_slot (add_wire_share e.cfg e.curve w n.slot).0 n) k
          → Handles m n a (k, a, [])

    module _ (f : Sharing) (fuel : ℕ) (m : WireEnvelope) (n : Node) (a : A) where
      result-Handles :
          (msg : SlotMessage) (o : Option (Option SlotOutput))
          → concerns m n ≡ true
          → bytes_eq m.kind acs_kind ≡ true
          → m.acs ≡ some msg
          → (acs_step m.from msg a).1 ≡ o
          → let handled = handle_acs_result e.cfg e.curve f e.combiner fuel n o in
            Handles m n a (handled.0, (acs_step m.from msg a).0, handled.1)
      unfolding handle_acs_result handle_acs_output
      result-Handles msg none c k p q = undecided msg none c k p (inl refl) q
      result-Handles msg (some none) c k p q = undecided msg (some none) c k p (inr refl) q
      result-Handles msg (some (some out)) c k p q =
          let d = decide env e.cfg n.slot.id out in
          decided msg out _ _ c k p q (follow-Runs e f fuel n (apply_decision e.cfg d n) d)

      acs-Handles :
          (o : Option SlotMessage)
          → concerns m n ≡ true
          → bytes_eq m.kind acs_kind ≡ true
          → m.acs ≡ o
          → Handles m n a (handle_acs e.cfg e.curve f e.combiner fuel m.from n a o)
      unfolding handle_acs
      acs-Handles none c k p = no_message c (ground (arith, k, p, kinds_differ m.kind k))
      acs-Handles (some msg) c k p = result-Handles msg (acs_step m.from msg a).1 c k p refl

      share-Handles :
          (o : Option WireShare)
          → concerns m n ≡ true
          → bytes_eq m.kind acs_kind ≡ false
          → bytes_eq m.kind share_kind ≡ true
          → m.share ≡ o
          → Handles m n a (handle_share e.cfg e.curve e.combiner fuel o n, a, [])
      unfolding handle_share
      share-Handles none c l k p = no_message c (ground (arith, l, p))
      share-Handles (some w) c l k p = share_taken w _ c k p (share-Runs fuel w n)

      -- An envelope for another node or another slot, of an unknown kind or without its message
      -- changes nothing and sends nothing. A share leaves the common subset alone and sends nothing;
      -- it is added to the slot, and the rest is a run of steps from there. A message of the common
      -- subset moves that on, and where there is an output, it is decided by `decide` and the rest,
      -- the node's own shares and the combination included, is a run of steps from there. Nothing is
      -- under way at the end of either run.
      pub handle_envelope-Handles :
          Handles m n a (handle_envelope e.cfg e.curve f e.combiner fuel m n a)
      unfolding handle_envelope
      handle_envelope-Handles =
          if_cases (Handles m n a) (m.direct && not (m.to == e.cfg.id)) _ _
            (λ h. not_ours (ground (arith, h)))
            λ h.
              if_cases (Handles m n a) (not (m.slot == n.slot.id)) _ _
                (λ s. not_ours (ground (arith, s)))
                λ s.
                  let ours : concerns m n ≡ true = ground (arith, h, s) in
                  if_cases (Handles m n a) (bytes_eq m.kind acs_kind) _ _
                    (λ k. acs-Handles m.acs ours k refl)
                    λ k.
                      if_cases (Handles m n a) (bytes_eq m.kind share_kind) _ _
                        (λ l. share-Handles m.share ours k l refl)
                        λ l. no_message ours (ground (arith, k, l))
