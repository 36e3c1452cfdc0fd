-- ===== src/Hbbft/Slot/Loss.antt =====
-- A slot whose agreed subset is lost stays without an output (sbc/hbbft/bloc_slot.go).
use bloc.Prelude.{
  ℕ, ◌≡◌, refl, subst, true, Option, none, some, Bool-cases, Option-cases, inl, inr, ◌==◌,
}
use bloc.Prelude.Maps.{Map, lookup}
use bloc.Prelude.Bytes.{Bytes}
use bloc.Hbbft.Acs
use bloc.Hbbft.Acs.{Acs, AcsError, AcsMessage}
use bloc.Hbbft.Acs.Finality.{Spent, Kept, handle_message-Kept, input_value-Kept}
use bloc.Hbbft.Slot.{
  SlotAcs, SlotEnv, SlotError, SlotMessage, Outcome, decode_failed, maybe_build_output, take_output,
  messages, after_acs, input_batch, input_from_provider, handle_message,
}
use bloc.Hbbft.Slot.Output.{undecodable_batch_fails}

-- No output, and none to come from the common subset.
abbrev pub Lost : SlotAcs → Type 0
Lost s = (s.output ≡ none) × Spent s.acs

-- What can happen to a slot: its methods, with any fuel and any arguments.
pub data Later (env : SlotEnv) (s : SlotAcs) : SlotAcs → Type 0 where
  now : Later env s s
  hears :
      (t t' : SlotAcs) (fuel sid : ℕ) (msg : Option SlotMessage) (e : Option SlotError)
      → Later env s t
      → handle_message env fuel sid msg t ≡ some (t', e)
      → Later env s t'
  proposes :
      (t t' : SlotAcs) (fuel : ℕ) (batch : Bytes) (e : Option SlotError)
      → Later env s t
      → input_batch env fuel batch t ≡ some (t', e)
      → Later env s t'
  asks :
      (t t' : SlotAcs) (fuel : ℕ) (provider : Option (ℕ → Option Bytes)) (e : Option SlotError)
      → Later env s t
      → input_from_provider env fuel provider t ≡ some (t', e)
      → Later env s t'
  hands_over : (t : SlotAcs) → Later env s t → Later env s (take_output t).1
  sends : (t : SlotAcs) → Later env s t → Later env s (messages t).1

abbrev StaysLost : Outcome → Type 0
StaysLost none = Unit
StaysLost (some r) = Lost r.0

module _ (env : SlotEnv) where
  build-Lost : (s : SlotAcs) → Lost s → Lost (maybe_build_output env s).0
  unfolding maybe_build_output
  build-Lost s (o, (d, a)) = rw (o, a, maybe_build_output) (o, (d, refl))

  after_acs-Lost : (s : SlotAcs) (o : Acs.Outcome) → Lost s → Kept o → StaysLost (after_acs env s o)
  after_acs-Lost s none h k = tt
  after_acs-Lost s (some (a, none)) h k = build-Lost (record s { acs = a }) (h.0, k)
  after_acs-Lost s (some (a, some e)) h k = (h.0, k)

  input-Lost :
      (fuel : ℕ) (batch : Bytes) (s : SlotAcs) → Lost s → StaysLost (input_batch env fuel batch s)
  unfolding input_batch
  input-Lost fuel batch s h = elim (Option-cases (env.encode_candidate_batch batch)) [
    | inl q ↦ rw (q, StaysLost) h
    | inr (encoded, q) ↦
        rw (q, StaysLost)
          (after_acs-Lost s (Acs.input_value fuel env.codec encoded s.acs) h
            (input_value-Kept fuel env.codec encoded s.acs h.1))
  ]

  provider-Lost :
      (fuel : ℕ) (provider : Option (ℕ → Option Bytes)) (s : SlotAcs)
      → Lost s
      → StaysLost (input_from_provider env fuel provider s)
  unfolding input_from_provider
  provider-Lost fuel none s h = h
  provider-Lost fuel (some provider) s h = elim (Option-cases (provider s.slot)) [
    | inl q ↦ rw (q, StaysLost) h
    | inr (batch, q) ↦ rw (q, StaysLost) (input-Lost fuel batch s h)
  ]

  message-Lost :
      (fuel sid slot : ℕ) (o : Option AcsMessage) (s : SlotAcs)
      → Lost s
      → StaysLost (handle_message env fuel sid (some (record { slot = slot; payload = o })) s)
  unfolding handle_message
  message-Lost fuel sid slot none s h = h
  message-Lost fuel sid slot (some payload) s h = elim (Bool-cases (slot == s.slot)) [
    | inr e ↦ rw (e, StaysLost) h
    | inl e ↦
        rw (e, StaysLost)
          (after_acs-Lost s (Acs.handle_message fuel env.codec sid payload s.acs) h
            (handle_message-Kept fuel env.codec sid payload s.acs h.1))
  ]

  handle-Lost :
      (fuel sid : ℕ) (msg : Option SlotMessage) (s : SlotAcs)
      → Lost s
      → StaysLost (handle_message env fuel sid msg s)
  unfolding handle_message
  handle-Lost fuel sid none s h = h
  handle-Lost fuel sid (some msg) s h = message-Lost fuel sid msg.slot msg.payload s h

  StaysLost-some :
      (o : Outcome) (s : SlotAcs) (e : Option SlotError) → StaysLost o → o ≡ some (s, e) → Lost s
  StaysLost-some o s e h q = subst StaysLost q h

  Later-Lost : (s t : SlotAcs) → Later env s t → Lost s → Lost t
  unfolding take_output messages
  Later-Lost s _ now h = h
  Later-Lost s _ (hears t t' fuel sid msg e l q) h =
      StaysLost-some _ t' e (handle-Lost fuel sid msg t (Later-Lost s t l h)) q
  Later-Lost s _ (proposes t t' fuel batch e l q) h =
      StaysLost-some _ t' e (input-Lost fuel batch t (Later-Lost s t l h)) q
  Later-Lost s _ (asks t t' fuel provider e l q) h =
      StaysLost-some _ t' e (provider-Lost fuel provider t (Later-Lost s t l h)) q
  Later-Lost s _ (hands_over t l) h = (refl, (Later-Lost s t l h).1)
  Later-Lost s _ (sends t l) h = Later-Lost s t l h

  -- Where the common subset of a slot is decided, the slot has no output yet, and the agreed subset
  -- holds one batch that does not decode, the attempt to build the output fails, and the slot is
  -- without an output for good: whatever messages and batches it is given afterwards, and however
  -- often its output and its messages are fetched, it never hands over an output.
  pub undecodable_batch_loses_slot :
      (s t : SlotAcs) (m : Map Bytes) (id : ℕ) (batch : Bytes)
      → s.acs.decided ≡ true
      → s.output ≡ none
      → s.acs.output ≡ some m
      → lookup id m ≡ some batch
      → env.decode_candidate_batch batch ≡ none
      → Later env (maybe_build_output env s).0 t
      → ((maybe_build_output env s).1 ≡ some decode_failed) × ((take_output t).0 ≡ none)
  unfolding take_output
  undecodable_batch_loses_slot s t m id batch d o a l bad later =
      let (e, o', d', a') = undecodable_batch_fails env s m id batch d o a l bad in
      (e, (Later-Lost (maybe_build_output env s).0 t later (o', (d', a'))).0)
