-- ===== src/Hbbft/Bba/Termination.antt =====
-- Enough fuel for a call of binary agreement (sbc/hbbft/bba.go): five for each epoch that may still
-- come, and the cost of the call itself.
use bloc.Prelude.{
  ℕ, zero, suc, ◌+◌, ◌-◌, ◌*◌, ◌^◌, ◌≤◌, ◌<◌, ◌≡◌, refl, Bool, not, ◌&&◌, ◌||◌, Option, none, some,
  List, [], ◌∷◌, arith, inl, inr, ◌==◌, ltb, is_nil, All, Bool-cases,
}
use bloc.Prelude.Results.{◌>>=◌}
use bloc.Hbbft.Bba.{
  Bba, BbaError, AgreementMessage, Content, Call, Outcome, bval, aux, unknown, bval_request,
  aux_request, try_output, receive, run, dispatch, handle_bval_request, handle_aux_request,
  try_output_agreement, handle_message, drain, quiet, accept_bval, admit_value, admit_first,
  send_bval, accept_aux, start_epoch, is_finished, clear_delayed, count_bvals, count_outputs,
  has_sent_bval, dispatch_message, input_value, receive_message, is_none,
}
use bloc.Hbbft.Bba.Horizon.{
  Bound, Fits, cost, needed, Finishes, Finishes-bind, holds-append_self, same_Bound,
  accept_aux-Bound, hold_back-Bound, quorum-early, start_epoch-Bound,
}

module _ (last : ℕ) (small : last + 1 < 2 ^ 32) where
  abbrev Suffices : ℕ → (Call → Bba → Outcome) → Type 0
  Suffices fuel call =
      (c : Call) (b : Bba)
      → Bound last b
      → Fits last b c
      → needed last b + cost b c < fuel
      → Finishes last b.epoch (call c b)

  module _ (fuel : ℕ) (call : Call → Bba → Outcome) (ih : Suffices fuel call) where
    quiet-Finishes : (e : ℕ) (o : Outcome) → Finishes last e o → Finishes last e (quiet o)
    quiet-Finishes e o h = Finishes-bind last e e o _ h (λ r b le. (b, le))

    bval_Finishes :
        (sid : ℕ) (val : Bool) (b : Bba)
        → Bound last b
        → needed last b + cost b (bval_request sid val) < suc fuel
        → Finishes last b.epoch (handle_bval_request call sid val b)
    unfolding handle_bval_request
    bval_Finishes sid val b h enough =
        let b' : Bba = accept_bval sid val b in
        elim (Bool-cases (count_bvals val b' == 2 * b.f + 1)) [
          | inl q ↦ elim (Bool-cases (is_nil b'.bin_values)) [
            | inl e ↦
                rw (q, e, handle_bval_request)
                  (quiet-Finishes b.epoch (call (aux_request b.id val) (admit_first val b')) (
                    ih _ (admit_first val b') (same_Bound last b _ h refl refl refl refl)
                      (λ late. refl) (ground arith)))
            | inr e ↦
                rw (q, e, handle_bval_request)
                  (quiet-Finishes b.epoch (call try_output (admit_value val b')) (
                    ih try_output (admit_value val b') (same_Bound last b _ h refl refl refl refl)
                      tt (ground arith)))
          ]
          | inr q ↦
              elim (Bool-cases (count_bvals val b' == b.f + 1 && not (has_sent_bval val b'))) [
                | inl e ↦
                    rw (q, e, handle_bval_request)
                      (ih (bval_request b.id val) (send_bval val b')
                        (same_Bound last b _ h refl refl refl refl) tt
                        (ground (arith, holds-append_self val b.sent_bvals)))
                | inr e ↦
                    rw (q, e, handle_bval_request)
                      (same_Bound last b _ h refl refl refl refl, omega arith)
              ]
        ]

    aux_Finishes :
        (sid : ℕ) (val : Bool) (b : Bba)
        → Bound last b
        → (last < b.epoch → sid ≡ b.id)
        → needed last b + 1 < suc fuel
        → Finishes last b.epoch (handle_aux_request call sid val b)
    unfolding handle_aux_request
    aux_Finishes sid val b h own enough =
        quiet-Finishes b.epoch (call try_output (accept_aux sid val b)) (
          ih try_output (accept_aux sid val b) (accept_aux-Bound last sid val b h own) tt
            (omega arith))

    -- `epoch` is the epoch that the replay starts in; later ones cost no more.
    drain-Finishes :
        (epoch : ℕ) (que : List (ℕ × AgreementMessage)) (b : Bba)
        → Bound last b
        → epoch ≤ b.epoch
        → All (λ e. e.1.epoch ≤ last) que
        → 5 * (last + 1 - epoch) + 4 < fuel
        → Finishes last epoch (drain call que b)
    unfolding drain
    drain-Finishes epoch [] b h le fit enough = (h, le)
    drain-Finishes epoch ((sid, msg) ∷ que) b h le fit enough =
        Finishes-bind last b.epoch epoch (call (receive sid msg) b) _
          (ih (receive sid msg) b h fit.0 (omega arith))
          λ r h' le'. drain-Finishes epoch que r.0 h' (omega arith) fit.1 enough

    next_epoch_Finishes :
        (epoch id : ℕ) (est : Bool) (b : Bba)
        → Bound last b
        → b.epoch ≡ epoch + 1
        → epoch ≤ last
        → 5 * (last + 1 - epoch) < suc fuel
        → Finishes last epoch (
            call (bval_request id est) b >>= λ r.
            drain call r.0.delayed_messages r.0 >>= λ r'. some (clear_delayed r'.0, none))
    unfolding clear_delayed
    next_epoch_Finishes epoch id est b h next early enough =
        Finishes-bind last b.epoch epoch (call (bval_request id est) b) _
          (ih (bval_request id est) b h tt (ground arith))
          λ r h' le.
            Finishes-bind last (epoch + 1) epoch (drain call r.0.delayed_messages r.0) _
              (drain-Finishes (epoch + 1) _ r.0 h' (omega arith) h'.held (omega arith))
              λ r' k le'. (
                record { held = tt; near = k.near; alone = k.alone; quorum = k.quorum },
                omega arith,
              )

    output_Finishes :
        (b : Bba)
        → Bound last b
        → needed last b < suc fuel
        → Finishes last b.epoch (try_output_agreement call b)
    unfolding try_output_agreement
    output_Finishes b h enough =
        elim (Bool-cases (is_nil b.bin_values || ltb (count_outputs b).0 (b.n - b.f))) [
          | inl w ↦ rw (w, try_output_agreement) (h, omega arith)
          | inr w ↦ elim (Bool-cases (is_finished b)) [
            | inl e ↦
                rw (w, e, try_output_agreement)
                  (same_Bound last b _ h refl refl refl refl, omega arith)
            | inr e ↦
                rw (w, e, try_output_agreement)
                  (let early = quorum-early last b h (ground arith) in
                    let (h', next) = start_epoch-Bound last b h early small in
                    next_epoch_Finishes b.epoch b.id (start_epoch b).0 (start_epoch b).1 h' next
                      early enough)
          ]
        ]

    content_Finishes :
        (sid : ℕ) (m : Content) (b : Bba)
        → Bound last b
        → b.epoch ≤ last
        → needed last b + 4 < suc fuel
        → Finishes last b.epoch (dispatch_message call sid m b)
    content_Finishes sid (bval v) b h early enough = ih (bval_request sid v) b h tt (ground arith)
    content_Finishes sid (aux v) b h early enough =
        ih (aux_request sid v) b h (λ late. absurd (omega arith)) (omega arith)
    content_Finishes sid unknown b h early enough = (h, omega arith)

    message_Finishes :
        (sid : ℕ) (msg : AgreementMessage) (b : Bba)
        → Bound last b
        → msg.epoch ≤ last
        → needed last b + 4 < suc fuel
        → Finishes last b.epoch (handle_message call sid msg b)
    unfolding handle_message
    message_Finishes sid msg b h fit enough = elim (Bool-cases (b.done || ltb msg.epoch b.epoch)) [
      | inl old ↦ rw (old, handle_message) (h, omega arith)
      | inr new ↦ elim (Bool-cases (ltb b.epoch msg.epoch)) [
        | inl e ↦ rw (new, e, handle_message) (hold_back-Bound last sid msg b h fit, omega arith)
        | inr e ↦
            rw (new, e, handle_message) (content_Finishes sid msg.message b h (ground arith) enough)
      ]
    ]

  run_Finishes : (fuel : ℕ) → Suffices fuel (run fuel)
  unfolding run dispatch
  run_Finishes zero c b h fit enough = absurd (omega arith)
  run_Finishes (suc fuel) (bval_request sid val) b h fit enough =
      bval_Finishes fuel (run fuel) (run_Finishes fuel) sid val b h enough
  run_Finishes (suc fuel) (aux_request sid val) b h fit enough =
      aux_Finishes fuel (run fuel) (run_Finishes fuel) sid val b h fit enough
  run_Finishes (suc fuel) try_output b h fit enough =
      output_Finishes fuel (run fuel) (run_Finishes fuel) b h (omega arith)
  run_Finishes (suc fuel) (receive sid msg) b h fit enough =
      message_Finishes fuel (run fuel) (run_Finishes fuel) sid msg b h fit enough

-- A node that awaits at least two AUX messages, at an epoch up to `last`, with no message held from
-- after `last`.
pub record Ready (last : ℕ) (b : Bba) : Type 0 where
  pub held : All (λ e. e.1.epoch ≤ last) b.delayed_messages
  pub current : b.epoch ≤ last
  pub quorum : 2 ≤ b.n - b.f

Ready-Bound : (last : ℕ) (b : Bba) → Ready last b → Bound last b
Ready-Bound last b h = record {
  held = h.held;
  near = omega (arith, h.current);
  alone = λ late. absurd (omega (arith, h.current));
  quorum = h.quorum;
}

Finishes-some :
    (last epoch : ℕ) (o : Outcome)
    → Finishes last epoch o
    → (r : Bba × Option BbaError) × (o ≡ some r) × (epoch ≤ r.0.epoch) × (r.0.epoch ≤ last + 1)
Finishes-some last epoch none h = absurd h
Finishes-some last epoch (some r) h = (r, refl, h.1, h.0.near)

-- A message of an epoch up to `last` is handled to the end, with fuel for five calls in each
-- epoch up to `last` + 1, where the node and the messages it holds back are in epochs up to
-- `last`, n - f is at least 2, and `last` + 1 is a uint32: there is a result, whose epoch has not
-- fallen and is at most `last` + 1.
pub receive_message_total :
    (last fuel sid : ℕ) (msg : AgreementMessage) (b : Bba)
    → last + 1 < 2 ^ 32
    → Ready last b
    → msg.epoch ≤ last
    → needed last b + 4 < fuel
    → (r : Bba × Option BbaError) × (receive_message fuel sid msg b ≡ some r)
      × (b.epoch ≤ r.0.epoch)
      × (r.0.epoch ≤ last + 1)
unfolding receive_message
receive_message_total last fuel sid msg b small h fit enough =
    let c : Bba = record b { msg_count = b.msg_count + 1 } in
    Finishes-some last b.epoch (run fuel (receive sid msg) c) (
      run_Finishes last small fuel (receive sid msg) c
        (same_Bound last b c (Ready-Bound last b h) refl refl refl refl) fit enough)

-- An input is handled to the end, with fuel for five calls in each epoch up to `last` + 1, where
-- the node and the messages it holds back are in epochs up to `last`, n - f is at least 2, and
-- `last` + 1 is a uint32: there is a result, whose epoch has not fallen and is at most `last` +
-- 1.
pub input_value_total :
    (last fuel : ℕ) (val : Bool) (b : Bba)
    → last + 1 < 2 ^ 32
    → Ready last b
    → needed last b + 4 < fuel
    → (r : Bba × Option BbaError) × (input_value fuel val b ≡ some r)
      × (b.epoch ≤ r.0.epoch)
      × (r.0.epoch ≤ last + 1)
unfolding input_value send_bval
input_value_total last fuel val b small h enough =
    elim (Bool-cases (not (b.epoch == 0) || not (is_none b.estimated))) [
      | inl e ↦ rw (e, input_value) ((b, none), refl, omega arith, omega (arith, h.current))
      | inr e ↦
          rw (e, input_value)
            (let c : Bba = send_bval val (record b { estimated = some val }) in
              Finishes-some last b.epoch (run fuel (bval_request b.id val) c) (
                run_Finishes last small fuel (bval_request b.id val) c
                  (same_Bound last b c (Ready-Bound last b h) refl refl refl refl) tt
                  (ground arith)))
    ]
