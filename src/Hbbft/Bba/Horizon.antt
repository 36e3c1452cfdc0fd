-- ===== src/Hbbft/Bba/Horizon.antt =====
-- How far one call can carry a node of binary agreement (sbc/hbbft/bba.go). The handlers call
-- themselves through the epochs: each new epoch replays the messages held back, which can fill the
-- next one. A bound on the epochs of these messages bounds the recursion, since beyond it a node
-- hears its own AUX message alone.
use bloc.Prelude.{
  ℕ, ◌+◌, ◌-◌, ◌*◌, ◌^◌, ◌≤◌, ◌<◌, ◌≡◌, refl, ◌∙◌, Bool, true, false, Option, none, some, List, [],
  ◌∷◌, ◌++◌, arith, ◌⊎◌, inl, inr, ltb, if◌then◌else◌, All, All-append,
}
use bloc.Prelude.Maps.{insert}
use bloc.Prelude.Results.{◌>>=◌}
use bloc.Hbbft.Bba.{
  Bba, BbaError, AgreementMessage, Call, Outcome, bval_request, aux_request, try_output, receive,
  send_bval, accept_aux, start_epoch, advance_epoch, decide, hold_back, count_outputs,
  has_sent_bval, holds, coin_of,
}

pub record Bound (last : ℕ) (b : Bba) : Type 0 where
  -- No held message is of an epoch after `last`.
  pub held : All (λ e. e.1.epoch ≤ last) b.delayed_messages
  pub near : b.epoch ≤ last + 1
  -- Beyond `last` the node has heard nobody's AUX message but its own.
  pub alone : last < b.epoch → (b.recv_aux ≡ []) ⊎ ((v : Bool) × (b.recv_aux ≡ (b.id, v) ∷ []))
  pub quorum : 2 ≤ b.n - b.f

abbrev pub Fits : ℕ → Bba → Call → Type 0
Fits last b (aux_request sid v) = last < b.epoch → sid ≡ b.id
Fits last b (receive sid msg) = msg.epoch ≤ last
Fits last b (bval_request sid v) = Unit
Fits last b try_output = Unit

abbrev pub cost : Bba → Call → ℕ
cost b (bval_request sid v) = if has_sent_bval v b then 2 else 3
cost b (aux_request sid v) = 1
cost b try_output = 0
cost b (receive sid msg) = 4

abbrev pub needed : ℕ → Bba → ℕ
needed last b = 5 * (last + 1 - b.epoch)

abbrev pub Finishes : ℕ → ℕ → Outcome → Type 0
Finishes last epoch none = ⊥
Finishes last epoch (some r) = Bound last r.0 × (epoch ≤ r.0.epoch)

pub Finishes-bind :
    (last e e' : ℕ) (m : Outcome) (f : Bba × Option BbaError → Outcome)
    → Finishes last e m
    → ((r : Bba × Option BbaError) → Bound last r.0 → e ≤ r.0.epoch → Finishes last e' (f r))
    → Finishes last e' (m >>= f)
Finishes-bind last e e' none f h k = absurd h
Finishes-bind last e e' (some r) f h k = k r h.0 h.1

pub Finishes-mono : (last e e' : ℕ) (o : Outcome) → e' ≤ e → Finishes last e o → Finishes last e' o
Finishes-mono last e e' none le h = h
Finishes-mono last e e' (some r) le h = (h.0, omega (arith, h.1))

pub holds-append_self : (v : Bool) (vs : List Bool) → holds v (vs ++ v ∷ []) ≡ true
holds-append_self true [] = refl
holds-append_self false [] = refl
holds-append_self v (w ∷ vs) = ground (arith, holds-append_self v vs)

-- A change that leaves alone the epoch, the AUX messages and the held messages.
pub same_Bound :
    (last : ℕ) (a b : Bba)
    → Bound last a
    → b.config ≡ a.config
    → b.epoch ≡ a.epoch
    → b.recv_aux ≡ a.recv_aux
    → b.delayed_messages ≡ a.delayed_messages
    → Bound last b
same_Bound last a b h c e x d = record {
  held = rw d h.held;
  near = rw e h.near;
  alone = rw (e, c, x) h.alone;
  quorum = rw c h.quorum;
}

pub accept_aux-Bound :
    (last sid : ℕ) (val : Bool) (b : Bba)
    → Bound last b
    → (last < b.epoch → sid ≡ b.id)
    → Bound last (accept_aux sid val b)
unfolding accept_aux
accept_aux-Bound last sid val b h own = record {
  held = h.held;
  near = h.near;
  alone = λ late. inr (val, rw (own late) (alone_insert (h.alone late)));
  quorum = h.quorum;
}
  where
    alone_insert :
        ((b.recv_aux ≡ []) ⊎ ((v : Bool) × (b.recv_aux ≡ (b.id, v) ∷ [])))
        → insert b.id val b.recv_aux ≡ (b.id, val) ∷ []
    alone_insert (inl e) = rw e refl
    alone_insert (inr (v, e)) = rw e (ground arith)

pub hold_back-Bound :
    (last sid : ℕ) (msg : AgreementMessage) (b : Bba)
    → Bound last b
    → msg.epoch ≤ last
    → Bound last (hold_back sid msg b)
unfolding hold_back
hold_back-Bound last sid msg b h le = record {
  held = All-append _ b.delayed_messages _ h.held (le, tt);
  near = h.near;
  alone = h.alone;
  quorum = h.quorum;
}

-- A quorum of AUX messages is not reached beyond `last`.
pub quorum-early :
    (last : ℕ) (b : Bba)
    → Bound last b
    → ltb (count_outputs b).0 (b.n - b.f) ≡ false
    → b.epoch ≤ last
quorum-early last b h q = ground (arith, h.alone, h.quorum)

decide_kept :
    (vs : List Bool) (coin : Bool) (b : Bba)
    → let b' = (decide vs coin b).1 in
      (b'.config ≡ b.config)
      × (b'.epoch ≡ b.epoch)
      × (b'.recv_aux ≡ b.recv_aux)
      × (b'.delayed_messages ≡ b.delayed_messages)
unfolding decide
decide_kept [] coin b = (refl, refl, refl, refl)
decide_kept (v ∷ []) coin b = ground arith
decide_kept (v ∷ w ∷ vs) coin b = (refl, refl, refl, refl)

-- The epoch moves on by one, and no AUX message of the old one is left.
pub start_epoch-Bound :
    (last : ℕ) (b : Bba)
    → Bound last b
    → b.epoch ≤ last
    → last + 1 < 2 ^ 32
    → Bound last (start_epoch b).1 × ((start_epoch b).1.epoch ≡ b.epoch + 1)
unfolding start_epoch advance_epoch send_bval
start_epoch-Bound last b h early small =
    let k = decide_kept (count_outputs b).1 (coin_of b.epoch) (advance_epoch b) in
    (
      record {
        held = rw k.3 h.held;
        near = rw k.1 (omega arith);
        alone = rw k.2 (λ late. inl refl);
        quorum = rw k.0 h.quorum;
      },
      k.1 ∙ omega arith,
    )
