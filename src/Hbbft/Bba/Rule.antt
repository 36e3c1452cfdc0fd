-- ===== src/Hbbft/Bba/Rule.antt =====
-- A rule for the handlers of binary agreement (sbc/hbbft/bba.go): a reflexive and transitive
-- relation that every single state change respects is respected by every run, however the handlers
-- call one another.
use bloc.Prelude.{
  ℕ, zero, suc, ◌+◌, ◌*◌, ◌-◌, ◌≡◌, Bool, true, false, ◌&&◌, ◌||◌, not, none, some, List, [], ◌∷◌,
  arith, subst, inl, inr, Option, ◌==◌, ltb, is_nil, Bool-cases,
}
use bloc.Prelude.Results.{◌>>=◌}
use bloc.Hbbft.Bba.{
  Bba, AgreementMessage, Content, Call, BbaError, Outcome, bval, aux, unknown, bval_request,
  aux_request, try_output, receive, run, dispatch, handle_bval_request, handle_aux_request,
  try_output_agreement, handle_message, drain, quiet, accept_bval, admit_value, admit_first,
  send_bval, accept_aux, finish, start_epoch, is_finished, hold_back, clear_delayed, count_bvals,
  count_outputs, has_sent_bval, dispatch_message,
}

pub record Frame {ℓ} (R : Bba → Bba → Type ℓ) : Type ℓ where
  pub same : (b : Bba) → R b b
  pub after : (a b c : Bba) → R a b → R b c → R a c
  pub accepts_bval : (sid : ℕ) (val : Bool) (b : Bba) → R b (accept_bval sid val b)
  pub admits :
      (val : Bool) (b : Bba)
      → (count_bvals val b == 2 * b.f + 1) ≡ true
      → is_nil b.bin_values ≡ false
      → R b (admit_value val b)
  pub admits_first :
      (val : Bool) (b : Bba)
      → (count_bvals val b == 2 * b.f + 1) ≡ true
      → is_nil b.bin_values ≡ true
      → R b (admit_first val b)
  pub sends : (val : Bool) (b : Bba) → has_sent_bval val b ≡ false → R b (send_bval val b)
  pub accepts_aux : (sid : ℕ) (val : Bool) (b : Bba) → R b (accept_aux sid val b)
  pub finishes : (b : Bba) → is_finished b ≡ true → R b (finish b)
  pub starts :
      (b : Bba)
      → is_nil b.bin_values ≡ false
      → ltb (count_outputs b).0 (b.n - b.f) ≡ false
      → is_finished b ≡ false
      → R b (start_epoch b).1
  pub holds_back :
      (sid : ℕ) (msg : AgreementMessage) (b : Bba)
      → b.done ≡ false
      → ltb b.epoch msg.epoch ≡ true
      → R b (hold_back sid msg b)
  pub clears : (b : Bba) → R b (clear_delayed b)

-- What holds of the state that an outcome carries, if it carries one.
abbrev pub Ensures {ℓ} : (Bba → Type ℓ) → Outcome → Type ℓ
Ensures P none = Unit
Ensures P (some r) = P r.0

pub Ensures-bind {ℓ} :
    (P Q : Bba → Type ℓ) (m : Outcome) (f : Bba × Option BbaError → Outcome)
    → Ensures P m
    → ((r : Bba × Option BbaError) → P r.0 → Ensures Q (f r))
    → Ensures Q (m >>= f)
Ensures-bind P Q none f h k = tt
Ensures-bind P Q (some r) f h k = k r h

pub Ensures-some {ℓ} :
    (P : Bba → Type ℓ) (o : Outcome) (b : Bba) (e : Option BbaError)
    → Ensures P o
    → o ≡ some (b, e)
    → P b
Ensures-some P o b e h eq = subst (Ensures P) eq h

pub Ensures-map {ℓ κ} :
    (P : Bba → Type ℓ) (Q : Bba → Type κ)
    → ((b : Bba) → P b → Q b)
    → (o : Outcome) → Ensures P o
    → Ensures Q o
Ensures-map P Q f none h = tt
Ensures-map P Q f (some r) h = f r.0 h

module _ {ℓ} {R : Bba → Bba → Type ℓ} (frame : Frame R) where
  module _ (call : Call → Bba → Outcome)
      (ih : (c : Call) (b : Bba) → Ensures (R b) (call c b)) where
    open frame use {
      same, after, accepts_bval, admits, admits_first, sends, accepts_aux, finishes, starts,
      holds_back, clears,
    }

    then_call : (c : Call) (a b : Bba) → R a b → Ensures (R a) (call c b)
    then_call c a b h = Ensures-map (R b) (R a) (λ d k. after a b d h k) (call c b) (ih c b)

    quiet_call : (c : Call) (a b : Bba) → R a b → Ensures (R a) (quiet (call c b))
    quiet_call c a b h = Ensures-bind (R a) (R a) (call c b) _ (then_call c a b h) (λ r k. k)

    bval-frame :
        (sid : ℕ) (val : Bool) (b : Bba) → Ensures (R b) (handle_bval_request call sid val b)
    unfolding handle_bval_request
    bval-frame sid val b =
        let b' : Bba = accept_bval sid val b in
        let h : R b b' = accepts_bval sid val b in
        elim (Bool-cases (count_bvals val b' == 2 * b.f + 1)) [
          | inl q ↦ elim (Bool-cases (is_nil b'.bin_values)) [
            | inl e ↦
                rw (q, e, handle_bval_request)
                  (quiet_call _ b _ (after b b' _ h (admits_first val b' q e)))
            | inr e ↦
                rw (q, e, handle_bval_request)
                  (quiet_call _ b _ (after b b' _ h (admits val b' q e)))
          ]
          | inr q ↦
              elim (Bool-cases (count_bvals val b' == b.f + 1 && not (has_sent_bval val b'))) [
                | inl e ↦
                    rw (q, e, handle_bval_request)
                      (then_call _ b _ (after b b' _ h (sends val b' (ground arith))))
                | inr e ↦ rw (q, e, handle_bval_request) h
              ]
        ]

    aux-frame : (sid : ℕ) (val : Bool) (b : Bba) → Ensures (R b) (handle_aux_request call sid val b)
    unfolding handle_aux_request
    aux-frame sid val b = quiet_call _ b _ (accepts_aux sid val b)

    drain-frame :
        (a : Bba) (que : List (ℕ × AgreementMessage)) (b : Bba)
        → R a b
        → Ensures (R a) (drain call que b)
    unfolding drain
    drain-frame a [] b h = h
    drain-frame a ((sid, msg) ∷ que) b h =
        Ensures-bind (R a) (R a) (call (receive sid msg) b) _ (then_call _ a b h)
          (λ r k. drain-frame a que r.0 k)

    next_epoch-frame :
        (a b : Bba) (est : Bool)
        → R a b
        → Ensures (R a) (
            call (bval_request a.id est) b >>= λ r.
            drain call r.0.delayed_messages r.0 >>= λ r'. some (clear_delayed r'.0, none))
    next_epoch-frame a b est h =
        Ensures-bind (R a) (R a) (call (bval_request a.id est) b) _ (then_call _ a b h) λ r k.
          Ensures-bind (R a) (R a) (drain call r.0.delayed_messages r.0) _ (drain-frame a _ r.0 k)
            λ r' k'. after a r'.0 _ k' (clears r'.0)

    output-frame : (b : Bba) → Ensures (R b) (try_output_agreement call b)
    unfolding try_output_agreement
    output-frame b =
        elim (Bool-cases (is_nil b.bin_values || ltb (count_outputs b).0 (b.n - b.f))) [
          | inl w ↦ rw (w, try_output_agreement) (same b)
          | inr w ↦ elim (Bool-cases (is_finished b)) [
            | inl e ↦ rw (w, e, try_output_agreement) (finishes b e)
            | inr e ↦
                rw (w, e, try_output_agreement)
                  (next_epoch-frame b _ _ (starts b (ground arith) (ground arith) e))
          ]
        ]

    content-frame :
        (sid : ℕ) (m : Content) (b : Bba) → Ensures (R b) (dispatch_message call sid m b)
    content-frame sid (bval v) b = ih _ b
    content-frame sid (aux v) b = ih _ b
    content-frame sid unknown b = same b

    message-frame :
        (sid : ℕ) (msg : AgreementMessage) (b : Bba) → Ensures (R b) (handle_message call sid msg b)
    unfolding handle_message
    message-frame sid msg b = elim (Bool-cases (b.done || ltb msg.epoch b.epoch)) [
      | inl old ↦ rw (old, handle_message) (same b)
      | inr new ↦ elim (Bool-cases (ltb b.epoch msg.epoch)) [
        | inl e ↦ rw (new, e, handle_message) (holds_back sid msg b (ground arith) e)
        | inr e ↦ rw (new, e, handle_message) (content-frame sid msg.message b)
      ]
    ]

  -- Every run, with any fuel, relates the state that it starts from to the one that it reaches.
  pub run-frame : (fuel : ℕ) (c : Call) (b : Bba) → Ensures (R b) (run fuel c b)
  unfolding run dispatch
  run-frame zero c b = tt
  run-frame (suc fuel) (bval_request sid val) b = bval-frame (run fuel) (run-frame fuel) sid val b
  run-frame (suc fuel) (aux_request sid val) b = aux-frame (run fuel) (run-frame fuel) sid val b
  run-frame (suc fuel) try_output b = output-frame (run fuel) (run-frame fuel) b
  run-frame (suc fuel) (receive sid msg) b = message-frame (run fuel) (run-frame fuel) sid msg b
