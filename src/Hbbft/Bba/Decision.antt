-- ===== src/Hbbft/Bba/Decision.antt =====
-- How one call changes a node of binary agreement (sbc/hbbft/bba.go): what is settled stays settled.
use bloc.Prelude.{
  ℕ, ◌≡◌, ◌≢◌, refl, ap, ◌∙◌, sym, Bool, true, none, some, List, [], ◌∷◌, ◌++◌, arith, ◌&&◌, inl,
  inr, bool_eq, Bool-cases,
}
use mathlib.Core.List.{append-nil, append_assoc}
use bloc.Hbbft.Bba.{
  Bba, AgreementMessage, admit_first, send_bval, finish, start_epoch, accept_bval, accept_aux,
  admit_value, advance_epoch, decide, is_none, count_outputs, hold_back, clear_delayed, run, Call,
}
use bloc.Hbbft.Bba.Rule.{Frame, Ensures, run-frame}

pub record Advances (a b : Bba) : Type 0 where
  pub config_kept : b.config ≡ a.config
  pub proposer_kept : b.proposer_id ≡ a.proposer_id
  pub decision_kept : (v : Bool) → a.decision ≡ some v → b.decision ≡ some v
  pub output_kept : (v : Bool) → a.decision ≡ some v → b.output ≡ a.output
  pub done_kept : a.done ≡ true → b.done ≡ true
  pub estimate_kept : a.estimated ≢ none → b.estimated ≢ none
  -- The queue only grows at its end.
  pub queued : (ms : List AgreementMessage) × (b.messages ≡ a.messages ++ ms)

nothing_queued : (ms : List AgreementMessage) → ms ≡ ms ++ []
nothing_queued ms = sym (append-nil ms)

Advances-refl : (b : Bba) → Advances b b
Advances-refl b = record {
  config_kept = refl;
  proposer_kept = refl;
  decision_kept = λ v h. h;
  output_kept = λ v h. refl;
  done_kept = λ h. h;
  estimate_kept = λ h. h;
  queued = ([], nothing_queued _);
}

Advances-trans : (a b c : Bba) → Advances a b → Advances b c → Advances a c
Advances-trans a b c h k = record {
  config_kept = k.config_kept ∙ h.config_kept;
  proposer_kept = k.proposer_kept ∙ h.proposer_kept;
  decision_kept = λ v e. k.decision_kept v (h.decision_kept v e);
  output_kept = λ v e. k.output_kept v (h.decision_kept v e) ∙ h.output_kept v e;
  done_kept = λ e. k.done_kept (h.done_kept e);
  estimate_kept = λ e. k.estimate_kept (h.estimate_kept e);
  queued = (
    h.queued.0 ++ k.queued.0,
    k.queued.1 ∙ (ap (λ ms. ms ++ k.queued.0) h.queued.1 ∙ append_assoc a.messages _ _),
  );
}

-- A change of the epoch's own bookkeeping, with new messages behind the old ones.
bookkeeping :
    (a b : Bba) (ms : List AgreementMessage)
    → b.config ≡ a.config
    → b.proposer_id ≡ a.proposer_id
    → b.decision ≡ a.decision
    → b.output ≡ a.output
    → b.done ≡ a.done
    → b.estimated ≡ a.estimated
    → b.messages ≡ a.messages ++ ms
    → Advances a b
bookkeeping a b ms c p d o f e m = record {
  config_kept = c;
  proposer_kept = p;
  decision_kept = λ v h. d ∙ h;
  output_kept = λ v h. o;
  done_kept = λ h. f ∙ h;
  estimate_kept = λ h k. h (sym e ∙ k);
  queued = (ms, m);
}

finish-Advances : (b : Bba) → Advances b (finish b)
unfolding finish
finish-Advances b = record {
  config_kept = refl;
  proposer_kept = refl;
  decision_kept = λ v h. h;
  output_kept = λ v h. refl;
  done_kept = λ h. refl;
  estimate_kept = λ h. h;
  queued = ([], nothing_queued _);
}

advance_epoch-Advances : (b : Bba) → Advances b (advance_epoch b)
unfolding advance_epoch
advance_epoch-Advances b = bookkeeping b _ [] refl refl refl refl refl refl (nothing_queued _)

send_bval-Advances : (val : Bool) (b : Bba) → Advances b (send_bval val b)
unfolding send_bval
send_bval-Advances val b = bookkeeping b _ _ refl refl refl refl refl refl refl

decide-Advances : (vs : List Bool) (coin : Bool) (b : Bba) → Advances b (decide vs coin b).1
unfolding decide
decide-Advances [] coin b = record {
  config_kept = refl;
  proposer_kept = refl;
  decision_kept = λ v h. h;
  output_kept = λ v h. refl;
  done_kept = λ h. h;
  estimate_kept = λ h k. cc;
  queued = ([], nothing_queued _);
}
decide-Advances (v ∷ []) coin b = elim (Bool-cases (is_none b.decision && bool_eq v coin)) [
  | inl e ↦
      rw (e, decide)
        (record {
          config_kept = refl;
          proposer_kept = refl;
          decision_kept = λ v h. ground arith;
          output_kept = λ v h. ground arith;
          done_kept = λ h. h;
          estimate_kept = λ h k. cc;
          queued = ([], nothing_queued _);
        })
  | inr e ↦
      rw (e, decide)
        (record {
          config_kept = refl;
          proposer_kept = refl;
          decision_kept = λ v h. h;
          output_kept = λ v h. refl;
          done_kept = λ h. h;
          estimate_kept = λ h k. cc;
          queued = ([], nothing_queued _);
        })
]
decide-Advances (v ∷ w ∷ vs) coin b = record {
  config_kept = refl;
  proposer_kept = refl;
  decision_kept = λ v h. h;
  output_kept = λ v h. refl;
  done_kept = λ h. h;
  estimate_kept = λ h k. cc;
  queued = ([], nothing_queued _);
}

start_epoch-Advances : (b : Bba) → Advances b (start_epoch b).1
unfolding start_epoch
start_epoch-Advances b =
    let opened = advance_epoch-Advances b in
    let decided = decide-Advances (count_outputs b).1 _ (advance_epoch b) in
    Advances-trans b _ _ (Advances-trans b _ _ opened decided) (send_bval-Advances _ _)

Advances-frame : Frame Advances
unfolding accept_bval admit_value admit_first accept_aux hold_back clear_delayed
Advances-frame = record {
  same = Advances-refl;
  after = Advances-trans;
  accepts_bval = λ sid val b. bookkeeping b _ [] refl refl refl refl refl refl (nothing_queued _);
  admits = λ val b q e. bookkeeping b _ [] refl refl refl refl refl refl (nothing_queued _);
  admits_first = λ val b q e. bookkeeping b _ _ refl refl refl refl refl refl refl;
  sends = λ val b e. send_bval-Advances val b;
  accepts_aux = λ sid val b. bookkeeping b _ [] refl refl refl refl refl refl (nothing_queued _);
  finishes = λ b e. finish-Advances b;
  starts = λ b w q e. start_epoch-Advances b;
  holds_back = λ sid msg b d e. bookkeeping b _ [] refl refl refl refl refl refl (nothing_queued _);
  clears = λ b. bookkeeping b _ [] refl refl refl refl refl refl (nothing_queued _);
}

-- Whatever a call sets off, if it ends: the configuration and the proposer stay, a decision and a
-- finished state stay, with a decision the output does not change, an estimate is never lost, and
-- messages are only added behind the queued ones.
pub run-Advances : (fuel : ℕ) (c : Call) (b : Bba) → Ensures (Advances b) (run fuel c b)
run-Advances = run-frame Advances-frame
