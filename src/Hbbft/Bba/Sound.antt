-- ===== src/Hbbft/Bba/Sound.antt =====
-- What holds of a node of binary agreement (sbc/hbbft/bba.go) between two calls.
use bloc.Prelude.{
  ℕ, ◌+◌, ◌*◌, ◌≤◌, ◌≡◌, ◌≢◌, refl, Bool, true, false, none, some, List, [], ◌∷◌, ◌++◌, arith, ◌⊎◌,
  inl, inr, ◌==◌, bool_eq, length, Bool-cases, ◌&&◌,
}
use bloc.Prelude.Maps.{Map, IsMap, insert, insert-IsMap, length-insert}
use bloc.Hbbft.Config.{Config}
use bloc.Hbbft.Bba.{
  Bba, accept_bval, admit_value, admit_first, send_bval, accept_aux, finish, start_epoch,
  is_finished, hold_back, advance_epoch, decide, is_none, count_outputs, clear_delayed, count_bvals,
  holds, new_bba, run, Call, take_output, take_messages, AgreementMessage,
}
use bloc.Hbbft.Bba.Rule.{Frame, Ensures, run-frame}

pub record Sound (b : Bba) : Type 0 where
  -- No sender is counted twice.
  pub distinct_false : IsMap b.recv_bval.on_false
  pub distinct_true : IsMap b.recv_bval.on_true
  pub distinct_aux : IsMap b.recv_aux
  -- A value is admitted only with 2f + 1 senders behind it.
  pub supported : (v : Bool) → holds v b.bin_values ≡ true → 2 * b.f + 1 ≤ count_bvals v b
  -- A finished node has decided, and hands out nothing but its decision.
  pub finished_decided : b.done ≡ true → b.decision ≢ none
  pub output_decided : (b.output ≡ none) ⊎ (b.output ≡ b.decision)

length-insert_le : (k : ℕ) (v : Bool) (m : Map Bool) → length m ≤ length (insert k v m)
length-insert_le k v m = ground (arith, length-insert k v m)

holds-append_one :
    (v w : Bool) (vs : List Bool) → holds v (vs ++ w ∷ []) ≡ true → (holds v vs ≡ true) ⊎ (v ≡ w)
holds-append_one v w [] h = ground arith
holds-append_one v w (x ∷ vs) h = ground (arith, holds-append_one v w vs)

accept_bval-Sound : (sid : ℕ) (val : Bool) (b : Bba) → Sound b → Sound (accept_bval sid val b)
unfolding accept_bval
accept_bval-Sound sid true b s = record {
  distinct_false = s.distinct_false;
  distinct_true = insert-IsMap sid true b.recv_bval.on_true s.distinct_true;
  distinct_aux = s.distinct_aux;
  supported = λ v h. ground (arith, s.supported v h, length-insert_le sid true b.recv_bval.on_true);
  finished_decided = s.finished_decided;
  output_decided = s.output_decided;
}
accept_bval-Sound sid false b s = record {
  distinct_false = insert-IsMap sid true b.recv_bval.on_false s.distinct_false;
  distinct_true = s.distinct_true;
  distinct_aux = s.distinct_aux;
  supported =
      λ v h. ground (arith, s.supported v h, length-insert_le sid true b.recv_bval.on_false);
  finished_decided = s.finished_decided;
  output_decided = s.output_decided;
}

admit_value-Sound :
    (val : Bool) (b : Bba)
    → (count_bvals val b == 2 * b.f + 1) ≡ true
    → Sound b
    → Sound (admit_value val b)
unfolding admit_value
admit_value-Sound val b q s = record {
  distinct_false = s.distinct_false;
  distinct_true = s.distinct_true;
  distinct_aux = s.distinct_aux;
  supported = λ v h. ground (arith, holds-append_one v val b.bin_values h, s.supported v);
  finished_decided = s.finished_decided;
  output_decided = s.output_decided;
}

-- The other changes leave alone what supports the admitted values.
same_support :
    (a b : Bba)
    → Sound a
    → b.config ≡ a.config
    → b.recv_bval ≡ a.recv_bval
    → b.bin_values ≡ a.bin_values
    → IsMap b.recv_aux
    → (b.done ≡ true → b.decision ≢ none)
    → ((b.output ≡ none) ⊎ (b.output ≡ b.decision))
    → Sound b
same_support a b s c r v x d o = record {
  distinct_false = rw r s.distinct_false;
  distinct_true = rw r s.distinct_true;
  distinct_aux = x;
  supported = rw (c, r, v) s.supported;
  finished_decided = d;
  output_decided = o;
}

accept_aux-Sound : (sid : ℕ) (val : Bool) (b : Bba) → Sound b → Sound (accept_aux sid val b)
unfolding accept_aux
accept_aux-Sound sid val b s =
    same_support b _ s refl refl refl (insert-IsMap sid val b.recv_aux s.distinct_aux)
      s.finished_decided s.output_decided

send_bval-Sound : (val : Bool) (b : Bba) → Sound b → Sound (send_bval val b)
unfolding send_bval
send_bval-Sound val b s =
    same_support b _ s refl refl refl s.distinct_aux s.finished_decided s.output_decided

admit_first-Sound :
    (val : Bool) (b : Bba)
    → (count_bvals val b == 2 * b.f + 1) ≡ true
    → Sound b
    → Sound (admit_first val b)
unfolding admit_first
admit_first-Sound val b q s =
    let t : Sound (admit_value val b) = admit_value-Sound val b q s in
    same_support (admit_value val b) _ t refl refl refl t.distinct_aux t.finished_decided
      t.output_decided

finish-Sound : (b : Bba) → is_finished b ≡ true → Sound b → Sound (finish b)
unfolding finish is_finished
finish-Sound b e s =
    same_support b _ s refl refl refl s.distinct_aux (λ _ n. ground (arith, s.finished_decided))
      s.output_decided

advance_epoch-Sound : (b : Bba) → Sound b → Sound (advance_epoch b)
unfolding advance_epoch
advance_epoch-Sound b s = record {
  distinct_false = tt;
  distinct_true = tt;
  distinct_aux = tt;
  supported = λ v h. cc;
  finished_decided = s.finished_decided;
  output_decided = s.output_decided;
}

decide-Sound : (vs : List Bool) (coin : Bool) (b : Bba) → Sound b → Sound (decide vs coin b).1
unfolding decide
decide-Sound [] coin b s =
    same_support b _ s refl refl refl s.distinct_aux s.finished_decided s.output_decided
decide-Sound (v ∷ []) coin b s = elim (Bool-cases (is_none b.decision && bool_eq v coin)) [
  | inl e ↦ rw (e, decide) (same_support b _ s refl refl refl s.distinct_aux (λ _ n. cc) (inr refl))
  | inr e ↦
      rw (e, decide)
        (same_support b _ s refl refl refl s.distinct_aux s.finished_decided s.output_decided)
]
decide-Sound (v ∷ w ∷ vs) coin b s =
    same_support b _ s refl refl refl s.distinct_aux s.finished_decided s.output_decided

start_epoch-Sound : (b : Bba) → Sound b → Sound (start_epoch b).1
unfolding start_epoch
start_epoch-Sound b s =
    send_bval-Sound _ _ (decide-Sound (count_outputs b).1 _ _ (advance_epoch-Sound b s))

hold_back-Sound :
    (sid : ℕ) (msg : AgreementMessage) (b : Bba) → Sound b → Sound (hold_back sid msg b)
unfolding hold_back
hold_back-Sound sid msg b s =
    same_support b _ s refl refl refl s.distinct_aux s.finished_decided s.output_decided

clear_delayed-Sound : (b : Bba) → Sound b → Sound (clear_delayed b)
unfolding clear_delayed
clear_delayed-Sound b s =
    same_support b _ s refl refl refl s.distinct_aux s.finished_decided s.output_decided

Sound-frame : Frame (λ a b. Sound a → Sound b)
Sound-frame = record {
  same = λ b s. s;
  after = λ a b c h k s. k (h s);
  accepts_bval = accept_bval-Sound;
  admits = λ val b q e. admit_value-Sound val b q;
  admits_first = λ val b q e. admit_first-Sound val b q;
  sends = λ val b e. send_bval-Sound val b;
  accepts_aux = accept_aux-Sound;
  finishes = finish-Sound;
  starts = λ b w q e. start_epoch-Sound b;
  holds_back = λ sid msg b d e. hold_back-Sound sid msg b;
  clears = clear_delayed-Sound;
}

pub run-Sound : (fuel : ℕ) (c : Call) (b : Bba) → Ensures (λ b'. Sound b → Sound b') (run fuel c b)
run-Sound = run-frame Sound-frame

pub new_bba-Sound : (cfg : Config) (p : ℕ) → Sound (new_bba cfg p)
unfolding new_bba
new_bba-Sound cfg p = record {
  distinct_false = tt;
  distinct_true = tt;
  distinct_aux = tt;
  supported = λ v h. cc;
  finished_decided = λ h. cc;
  output_decided = inl refl;
}

pub take_output-Sound : (b : Bba) → Sound b → Sound (take_output b).1
unfolding take_output
take_output-Sound b s =
    same_support b _ s refl refl refl s.distinct_aux s.finished_decided (inl refl)

pub take_messages-Sound : (b : Bba) → Sound b → Sound (take_messages b).1
unfolding take_messages
take_messages-Sound b s =
    same_support b _ s refl refl refl s.distinct_aux s.finished_decided s.output_decided

pub counted-Sound : (b : Bba) (k : ℕ) → Sound b → Sound (record b { msg_count = k })
counted-Sound b k s =
    same_support b _ s refl refl refl s.distinct_aux s.finished_decided s.output_decided

pub estimated-Sound :
    (b : Bba) (val : Bool) → Sound b → Sound (send_bval val (record b { estimated = some val }))
estimated-Sound b val s =
    send_bval-Sound val _
      (same_support b _ s refl refl refl s.distinct_aux s.finished_decided s.output_decided)
