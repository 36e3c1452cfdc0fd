-- ===== src/Hbbft/Bba/History.antt =====
-- The life of a node of binary agreement (sbc/hbbft/bba.go): inputs, messages from anybody in any
-- order, and the owner fetching the output and the queued messages in between.
use bloc.Prelude.{
  ℕ, ◌+◌, ◌≡◌, refl, ◌∙◌, Bool, Option, none, some, arith, ◌⊎◌, inl, inr, ◌==◌, not, ◌||◌,
  Bool-cases,
}
use bloc.Hbbft.Config.{Config}
use bloc.Hbbft.Bba.{
  Bba, BbaError, AgreementMessage, Outcome, receive, new_bba, input_value, receive_message,
  take_output, take_messages, send_bval, is_none,
}
use bloc.Hbbft.Bba.Rule.{Ensures, Ensures-some, Ensures-map}
use bloc.Hbbft.Bba.Sound.{
  Sound, run-Sound, new_bba-Sound, take_output-Sound, take_messages-Sound, counted-Sound,
  estimated-Sound,
}
use bloc.Hbbft.Bba.Decision.{Advances, run-Advances}

pub data Step (a b : Bba) : Type 0 where
  inputs :
      (fuel : ℕ) (val : Bool) (e : Option BbaError)
      → input_value fuel val a ≡ some (b, e)
      → Step a b
  receives :
      (fuel sid : ℕ) (msg : AgreementMessage) (e : Option BbaError)
      → receive_message fuel sid msg a ≡ some (b, e)
      → Step a b
  hands_over : b ≡ (take_output a).1 → Step a b
  flushes : b ≡ (take_messages a).1 → Step a b

pub data Reach (a : Bba) : Bba → Type 0 where
  here : Reach a a
  next : {b c : Bba} → Reach a b → Step b c → Reach a c

-- A call made after the state `a` was prepared as `b`.
prepared {ℓ} :
    (P : Bba → Type ℓ) (b : Bba) (o : Outcome) → P b → Ensures (λ c. P b → P c) o → Ensures P o
prepared P b o h = Ensures-map _ P (λ c k. k h) o

input_value-Sound :
    (fuel : ℕ) (val : Bool) (a : Bba) → Sound a → Ensures Sound (input_value fuel val a)
unfolding input_value
input_value-Sound fuel val a s =
    elim (Bool-cases (not (a.epoch == 0) || not (is_none a.estimated))) [
      | inl e ↦ rw (e, input_value) s
      | inr e ↦
          rw (e, input_value) (prepared Sound _ _ (estimated-Sound a val s) (run-Sound fuel _ _))
    ]

Step-Sound : (a b : Bba) → Step a b → Sound a → Sound b
unfolding receive_message
Step-Sound a b (inputs fuel val e h) s = Ensures-some Sound _ b e (input_value-Sound fuel val a s) h
Step-Sound a b (receives fuel sid msg e h) s =
    Ensures-some Sound _ b e
      (prepared Sound _ _ (counted-Sound a _ s) (run-Sound fuel (receive sid msg) _)) h
Step-Sound a b (hands_over e) s = rw e (take_output-Sound a s)
Step-Sound a b (flushes e) s = rw e (take_messages-Sound a s)

-- Whatever a new node is given, its sender sets hold no sender twice, each value it admits has
-- 2f + 1 senders behind it, and it finishes and outputs only on a decision.
pub Reach-BbaSound : (cfg : Config) (p : ℕ) (b : Bba) → Reach (new_bba cfg p) b → Sound b
Reach-BbaSound cfg p b here = new_bba-Sound cfg p
Reach-BbaSound cfg p b (next {b = a} r st) = Step-Sound a b st (Reach-BbaSound cfg p a r)

-- What a step keeps of a node that has decided `v`.
record Settled (v : Bool) (b : Bba) : Type 0 where
  decided : b.decision ≡ some v
  output_only : (b.output ≡ none) ⊎ (b.output ≡ some v)

Settled-Advances : (v : Bool) (a b : Bba) → Advances a b → Settled v a → Settled v b
Settled-Advances v a b h s = record {
  decided = h.decision_kept v s.decided;
  output_only = ground (arith, h.output_kept v s.decided, s.output_only);
}

-- A property that every advance keeps, and the preparation of an input, is kept by `input_value`.
input_value-keeps {ℓ} :
    (P : Bba → Type ℓ)
    → ((a b : Bba) → Advances a b → P a → P b)
    → (fuel : ℕ) (val : Bool) (a : Bba) → P a
    → P (send_bval val (record a { estimated = some val }))
    → Ensures P (input_value fuel val a)
unfolding input_value
input_value-keeps P keep fuel val a s t =
    elim (Bool-cases (not (a.epoch == 0) || not (is_none a.estimated))) [
      | inl e ↦ rw (e, input_value) s
      | inr e ↦
          rw (e, input_value)
            (Ensures-map (Advances _) P (λ c k. keep _ c k t) _ (run-Advances fuel _ _))
    ]

Step-Settled : (v : Bool) (a b : Bba) → Step a b → Settled v a → Settled v b
unfolding receive_message take_output take_messages send_bval
Step-Settled v a b (inputs fuel val e h) s =
    Ensures-some (Settled v) _ b e
      (input_value-keeps (Settled v) (Settled-Advances v) fuel val a s
        (record { decided = s.decided; output_only = s.output_only }))
      h
Step-Settled v a b (receives fuel sid msg e h) s =
    Settled-Advances v (record a { msg_count = a.msg_count + 1 }) b
      (Ensures-some (Advances _) _ b e (run-Advances fuel (receive sid msg) _) h)
      (record { decided = s.decided; output_only = s.output_only })
Step-Settled v a b (hands_over e) s = rw e (record { decided = s.decided; output_only = inl refl })
Step-Settled v a b (flushes e) s =
    rw e (record { decided = s.decided; output_only = s.output_only })

Reach-Settled : (v : Bool) (a b : Bba) → Reach a b → Settled v a → Settled v b
Reach-Settled v a b here s = s
Reach-Settled v a b (next {b = c} r st) s = Step-Settled v c b st (Reach-Settled v a c r s)

-- A decision is final: once a reachable node has decided v, v stays its decision for ever, and the
-- output it can hand over is v or nothing.
pub decision_final :
    (cfg : Config) (p : ℕ) (v : Bool) (a b : Bba)
    → Reach (new_bba cfg p) a
    → a.decision ≡ some v
    → Reach a b
    → (b.decision ≡ some v) × (((take_output b).0 ≡ none) ⊎ ((take_output b).0 ≡ some v))
unfolding take_output
decision_final cfg p v a b r d later =
    let s : Sound a = Reach-BbaSound cfg p a r in
    let t : Settled v b =
      Reach-Settled v a b later
        (record { decided = d; output_only = ground (arith, s.output_decided) }) in
    (t.decided, t.output_only)

abbrev Silent : Bool → Bba → Type 0
Silent v b = (b.decision ≡ some v) × (b.output ≡ none)

Silent-Advances : (v : Bool) (a b : Bba) → Advances a b → Silent v a → Silent v b
Silent-Advances v a b h s = (h.decision_kept v s.0, h.output_kept v s.0 ∙ s.1)

Step-Silent : (v : Bool) (a b : Bba) → Step a b → Silent v a → Silent v b
unfolding receive_message send_bval take_output take_messages
Step-Silent v a b (inputs fuel val e h) s =
    Ensures-some (Silent v) _ b e (input_value-keeps (Silent v) (Silent-Advances v) fuel val a s s)
      h
Step-Silent v a b (receives fuel sid msg e h) s =
    Silent-Advances v (record a { msg_count = a.msg_count + 1 }) b
      (Ensures-some (Advances _) _ b e (run-Advances fuel (receive sid msg) _) h) s
Step-Silent v a b (hands_over e) s = rw e (s.0, refl)
Step-Silent v a b (flushes e) s = rw e s

Reach-Silent : (v : Bool) (a b : Bba) → Reach a b → Silent v a → Silent v b
Reach-Silent v a b here s = s
Reach-Silent v a b (next {b = c} r st) s = Step-Silent v c b st (Reach-Silent v a c r s)

-- The output is handed over once: after a reachable node has handed over v, it hands over nothing,
-- whatever it is given later.
pub output_once :
    (cfg : Config) (p : ℕ) (v : Bool) (a b : Bba)
    → Reach (new_bba cfg p) a
    → (take_output a).0 ≡ some v
    → Reach (take_output a).1 b
    → (take_output b).0 ≡ none
unfolding take_output
output_once cfg p v a b r o later =
    (Reach-Silent v _ b later (ground (arith, (Reach-BbaSound cfg p a r).output_decided), refl)).1
