-- ===== src/Examples/Bba.antt =====
-- Instances of binary agreement (sbc/hbbft/bba.go): node 1 of four, which at most one fault can upset.
use bloc.Prelude.{ℕ, ◌+◌, ◌≤◌, ◌≡◌, refl, true, Option, none, some, [], ◌∷◌, arith, ◌⊎◌}
use bloc.Hbbft.Config.{Config, with_default_f}
use bloc.Hbbft.Bba.{
  Bba, BbaError, AgreementMessage, Content, bval, aux, Outcome, new_bba, receive_message,
  input_value, run, dispatch, handle_message, take_output, try_output, send_bval,
  handle_bval_request, handle_aux_request, try_output_agreement, accept_bval, admit_value,
  admit_first, accept_aux, finish, start_epoch, is_finished, drain, clear_delayed, hold_back,
  advance_epoch, decide,
}
use bloc.Hbbft.Bba.History.{
  Reach, inputs, receives, hands_over, here, next, decision_final, output_once, Reach-BbaSound,
}
use bloc.Hbbft.Bba.Sound.{Sound}
use bloc.Hbbft.Bba.Rule.{Ensures}
use bloc.Hbbft.Bba.Decision.{Advances, run-Advances}
use bloc.Hbbft.Bba.Termination.{Ready, receive_message_total, input_value_total}

abbrev four : Config
four = record { n = 4; f = 1; id = 1; nodes = 1 ∷ 2 ∷ 3 ∷ 4 ∷ []; batch_size = 0 }

abbrev start : Bba
start = new_bba four 1

abbrev at_epoch : ℕ → Content → AgreementMessage
at_epoch e m = record { epoch = e; message = m }

start-Ready : Ready 1 start
unfolding new_bba with_default_f
start-Ready = record { held = tt; current = omega arith; quorum = omega arith }

receive_message_total_example :
    (r : Bba × Option BbaError) × (receive_message 15 2 (at_epoch 1 (bval true)) start ≡ some r)
    × (start.epoch ≤ r.0.epoch)
    × (r.0.epoch ≤ 1 + 1)
unfolding new_bba with_default_f
receive_message_total_example =
    receive_message_total 1 15 2 (at_epoch 1 (bval true)) start (omega arith) start-Ready
      (omega arith) (omega arith)

input_value_total_example :
    (r : Bba × Option BbaError) × (input_value 15 true start ≡ some r)
    × (start.epoch ≤ r.0.epoch)
    × (r.0.epoch ≤ 1 + 1)
unfolding new_bba with_default_f
input_value_total_example =
    input_value_total 1 15 true start (omega arith) start-Ready (omega arith)

abbrev state_of : Outcome → Bba
state_of none = start
state_of (some (b, e)) = b

abbrev s1 : Bba
s1 = state_of (input_value 6 true start)

abbrev s2 : Bba
s2 = state_of (receive_message 6 2 (at_epoch 0 (bval true)) s1)

abbrev s3 : Bba
s3 = state_of (receive_message 6 3 (at_epoch 0 (bval true)) s2)

abbrev s4 : Bba
s4 = state_of (receive_message 6 2 (at_epoch 0 (aux true)) s3)

abbrev s5 : Bba
s5 = state_of (receive_message 6 3 (at_epoch 0 (aux true)) s4)

-- The node inputs true, and then hears from nodes 2 and 3.
to_s5 : Reach start s5
unfolding new_bba with_default_f input_value receive_message run dispatch handle_message send_bval
    handle_bval_request handle_aux_request try_output_agreement accept_bval admit_value admit_first
    accept_aux finish start_epoch is_finished drain clear_delayed hold_back advance_epoch decide
to_s5 =
    next
      (next
        (next
          (next (next here (inputs 6 true none refl))
            (receives 6 2 (at_epoch 0 (bval true)) none refl))
          (receives 6 3 (at_epoch 0 (bval true)) none refl))
        (receives 6 2 (at_epoch 0 (aux true)) none refl))
      (receives 6 3 (at_epoch 0 (aux true)) none refl)

s5-decided : s5.decision ≡ some true
unfolding new_bba with_default_f input_value receive_message run dispatch handle_message send_bval
    handle_bval_request handle_aux_request try_output_agreement accept_bval admit_value admit_first
    accept_aux finish start_epoch is_finished drain clear_delayed hold_back advance_epoch decide
s5-decided = refl

s5-output : (take_output s5).0 ≡ some true
unfolding new_bba with_default_f input_value receive_message run dispatch handle_message send_bval
    handle_bval_request handle_aux_request try_output_agreement accept_bval admit_value admit_first
    accept_aux finish start_epoch is_finished drain clear_delayed hold_back advance_epoch decide
    take_output
s5-output = refl

Reach-BbaSound_example : Sound s5
Reach-BbaSound_example = Reach-BbaSound four 1 s5 to_s5

abbrev s6 : Bba
s6 = (take_output s5).1

decision_final_example :
    (s6.decision ≡ some true) × (((take_output s6).0 ≡ none) ⊎ ((take_output s6).0 ≡ some true))
decision_final_example =
    decision_final four 1 true s5 s6 to_s5 s5-decided (next here (hands_over refl))

output_once_example : (take_output (take_output s6).1).0 ≡ none
output_once_example =
    output_once four 1 true s5 (take_output s6).1 to_s5 s5-output (next here (hands_over refl))

-- Three AUX messages are in, and a message of epoch 2 is held back.
abbrev waiting : Bba
waiting = record start {
  bin_values = true ∷ [];
  recv_aux = (1, true) ∷ (2, true) ∷ (3, true) ∷ [];
  delayed_messages = (4, at_epoch 2 (bval true)) ∷ [];
}

run-Advances_example : Ensures (Advances waiting) (run 6 try_output waiting)
run-Advances_example = run-Advances 6 try_output waiting
