-- ===== src/Hbbft/Rbc/History.antt =====
-- The life of a node of reliable broadcast (sbc/hbbft/rbc.go): its input, messages from anybody in
-- any order, and the owner fetching queued messages and the output in between.
use bloc.Prelude.{
  ℕ, ◌≡◌, refl, subst, Bool, true, false, Option, none, some, List, [], ◌++◌, if◌then◌else◌,
}
use mathlib.Core.List.{append-nil}
use bloc.Prelude.Bytes.{Bytes}
use bloc.Hbbft.Config.{Config, with_default_f}
use bloc.Hbbft.Rbc.{
  Rbc, Codec, BroadcastMessage, RbcError, Result, ended, new_rbc, initial, handle_message,
  input_value, take_messages, take_output,
}
use bloc.Hbbft.Rbc.Rule.{Ensures, handle_message-frame, input_value-frame}
use bloc.Hbbft.Rbc.Sound.{Sound, Sound-frame}

-- A node with the messages that its owner has fetched from it, in order.
pub record Node : Type 0 where
  pub sent : List BroadcastMessage
  pub state : Rbc

pub data Step (k : Codec) (a b : Node) : Type 0 where
  inputs :
      (value : Bytes) (e : Option RbcError)
      → (input_value k value a.state).0 ≡ ended b.state e
      → b.sent ≡ a.sent
      → Step k a b
  receives :
      (sid : ℕ) (msg : BroadcastMessage) (e : Option RbcError)
      → handle_message k sid msg a.state ≡ ended b.state e
      → b.sent ≡ a.sent
      → Step k a b
  flushes :
      b.state ≡ (take_messages a.state).1
      → b.sent ≡ a.sent ++ (take_messages a.state).0
      → Step k a b
  hands_over : b.state ≡ (take_output a.state).1 → b.sent ≡ a.sent → Step k a b

pub data Reach (k : Codec) (a : Node) : Node → Type 0 where
  here : Reach k a a
  next : {b c : Node} → Reach k a b → Step k b c → Reach k a c

abbrev pub fresh : Rbc → Node
fresh r = record { sent = []; state = r }

abbrev Kept : Codec → Rbc → Rbc → Type 0
Kept k a b = (sent : List BroadcastMessage) → Sound k sent a → Sound k sent b

Ensures-ended {ℓ} :
    (P : Rbc → Type ℓ) (o : Result) (r : Rbc) (e : Option RbcError)
    → Ensures P o
    → o ≡ ended r e
    → P r
Ensures-ended P o r e h eq = subst (Ensures P) eq h

flushed-Sound :
    (k : Codec) (sent : List BroadcastMessage) (r : Rbc)
    → Sound k sent r
    → Sound k (sent ++ r.messages) (record r { messages = [] })
flushed-Sound k sent r s = record {
  distinct_readys = s.distinct_readys;
  distinct_echos = s.distinct_echos;
  ready_once = rw (append-nil (sent ++ r.messages)) s.ready_once;
  echo_once = rw (append-nil (sent ++ r.messages)) s.echo_once;
  own_ready = rw (append-nil (sent ++ r.messages)) s.own_ready;
  ready_supported = s.ready_supported;
  delivered = λ v e.
      let d = s.delivered v e in
      record {
        root = d.root;
        shards = d.shards;
        readys = d.readys;
        echos = d.echos;
        rooted = d.rooted;
        joined = d.joined;
      };
  output_decoded = s.output_decoded;
}

handed_over-Sound :
    (k : Codec) (sent : List BroadcastMessage) (r : Rbc)
    → Sound k sent r
    → Sound k sent (record r { output = none })
handed_over-Sound k sent r s = record {
  distinct_readys = s.distinct_readys;
  distinct_echos = s.distinct_echos;
  ready_once = s.ready_once;
  echo_once = s.echo_once;
  own_ready = s.own_ready;
  ready_supported = s.ready_supported;
  delivered = λ v e. cc;
  output_decoded = λ e. refl;
}

Step-Sound : (k : Codec) (a b : Node) → Step k a b → Sound k a.sent a.state → Sound k b.sent b.state
unfolding take_messages take_output
Step-Sound k a b (inputs value e h q) s = rw q (
    Ensures-ended (Kept k a.state) _ b.state e (input_value-frame k (Sound-frame k) value a.state) h
      a.sent s)
Step-Sound k a b (receives sid msg e h q) s = rw q (
    Ensures-ended (Kept k a.state) _ b.state e
      (handle_message-frame k (Sound-frame k) sid msg a.state) h a.sent s)
Step-Sound k a b (flushes h q) s = rw (h, q) (flushed-Sound k a.sent a.state s)
Step-Sound k a b (hands_over h q) s = rw (h, q) (handed_over-Sound k a.sent a.state s)

initial-Sound : (k : Codec) (c : Config) (p : ℕ) → Sound k [] (initial c p)
unfolding initial
initial-Sound k c p = record {
  distinct_readys = tt;
  distinct_echos = tt;
  ready_once = refl;
  echo_once = refl;
  own_ready = tt;
  ready_supported = λ e. cc;
  delivered = λ v e. cc;
  output_decoded = λ e. refl;
}

some_of_if {ℓ} : {A : Type ℓ} (b : Bool) (x r : A) → (if b then some x else none) ≡ some r → x ≡ r
some_of_if true x r h = cc
some_of_if false x r h = cc

new_rbc-initial :
    (k : Codec) (cfg : Config) (p : ℕ) (r : Rbc)
    → new_rbc k cfg p ≡ some r
    → initial (with_default_f cfg) p ≡ r
unfolding new_rbc
new_rbc-initial k cfg p r h = some_of_if _ _ r h

-- What holds of a node however it was used since its construction: its two maps hold no sender
-- twice; it has sent at most one ECHO and one READY, the READY being the one recorded as its own
-- and supported by n - f echoes or f + 1 READY messages for the same root; and a value that it
-- holds ready for output was joined from shards of a root with 2f + 1 READY messages and f + 1
-- echoes.
pub Reach-Sound :
    (k : Codec) (cfg : Config) (p : ℕ) (r : Rbc) (b : Node)
    → new_rbc k cfg p ≡ some r
    → Reach k (fresh r) b
    → Sound k b.sent b.state
Reach-Sound k cfg p r b new here =
    subst (Sound k []) (new_rbc-initial k cfg p r new) (initial-Sound k (with_default_f cfg) p)
Reach-Sound k cfg p r b new (next {b = a} reach st) =
    Step-Sound k a b st (Reach-Sound k cfg p r a new reach)
