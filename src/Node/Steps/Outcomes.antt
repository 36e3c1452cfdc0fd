-- ===== src/Node/Steps/Outcomes.antt =====
-- The outcomes that a node counts, slot by slot (bloc-node/internal/app/node.go: `markSlotFailed`,
-- `finishEmptyMaterializedSet`, `finishCombine`, `prepareSlotWithLimit`).
use bloc.Prelude.{
  ℕ, suc, ◌≤◌, ◌<◌, ◌≡◌, refl, ap, Bool, true, false, not, List, [], ◌∷◌, arith, ltb, if◌then◌else◌,
  count_if,
}
use bloc.Node.{Node, new_node, new_slot_state}
use bloc.Node.Lifecycle.{terminal}
use bloc.Node.Steps.{World, Setting, Reach, reach_start, reach_step}
use bloc.Node.Steps.Sound.{reach-Sound}
use bloc.Node.Steps.Phases.{Service, Move, stay, start, end_well, end_badly, renew, view, Step-Goes}

-- The outcomes counted so far, the latest first: the slot, and whether it completed.
abbrev pub Outcomes : Type 0
Outcomes = List (ℕ × Bool)

-- A counter that grows records an outcome of the slot.
abbrev pub record_outcome : Node → Node → Outcomes → Outcomes
record_outcome n m log =
    if ltb n.completed_slots m.completed_slots
    then (n.slot.id, true) ∷ log
    else if ltb n.failed_slots m.failed_slots
    then (n.slot.id, false) ∷ log
    else log

unfoldable pub outcomes : (e : Setting) (first : ℕ) (w : World) → Reach e first w → Outcomes
outcomes e first _ reach_start = []
outcomes e first _ (reach_step w w' r s) = record_outcome w.node w'.node (outcomes e first w r)

-- The latest outcome is of a slot below a bound, and each of a slot below that of the one after it.
abbrev pub Descending : ℕ → Outcomes → Type 0
Descending bound [] = Unit
Descending bound ((slot, ok) ∷ log) = (slot < bound) × Descending slot log

abbrev pub completions : Outcomes → ℕ
completions log = count_if (λ o. o.1) log

abbrev pub failures : Outcomes → ℕ
failures log = count_if (λ o. not (o.1)) log

-- A slot without an outcome is not in the log.
record Logged (v : Service) (log : Outcomes) : Type 0 where
  current : v.slot ≡ v.last
  descending : Descending (if terminal v.phase then suc v.slot else v.slot) log
  done : v.done ≡ completions log
  lost : v.lost ≡ failures log

abbrev logged_on : Service → Service → Outcomes → Outcomes
logged_on v v' log =
    if ltb v.done v'.done
    then (v.slot, true) ∷ log
    else if ltb v.lost v'.lost
    then (v.slot, false) ∷ log
    else log

Descending-mono : (b c : ℕ) (log : Outcomes) → b ≤ c → Descending b log → Descending c log
Descending-mono b c [] h d = tt
Descending-mono b c (o ∷ log) h (l, d) = (omega (arith, h, l), d)

ltb_self : (n : ℕ) → ltb n n ≡ false
ltb_self n = ground arith

ltb-suc : (n : ℕ) → ltb n (suc n) ≡ true
ltb-suc n = ground arith

-- What a bound says once the phase is known.
open-Descending :
    (v : Service) (log : Outcomes) → terminal v.phase ≡ false → Logged v log → Descending v.slot log
open-Descending v log t h = rw t at h.descending

any-Descending : (v : Service) (log : Outcomes) → Logged v log → Descending (suc v.slot) log
any-Descending v log h = Descending-mono _ (suc v.slot) log (ground arith) h.descending

Move-Logged :
    (v v' : Service) (log : Outcomes) → Move v v' → Logged v log → Logged v' (logged_on v v' log)
Move-Logged _ _ log (stay v) h = rw (ltb_self v.done, ltb_self v.lost) h
Move-Logged _ _ log (start v t) h =
    rw (ltb_self v.done, ltb_self v.lost)
      (record {
        current = h.current;
        descending = open-Descending v log t h;
        done = h.done;
        lost = h.lost;
      })
Move-Logged _ _ log (end_well v t) h = rw (ltb-suc v.done) (record {
  current = h.current;
  descending = (omega arith, open-Descending v log t h);
  done = ap suc h.done;
  lost = h.lost;
})
Move-Logged _ _ log (end_badly v t) h =
    rw (ltb_self v.done, ltb-suc v.lost)
      (record {
        current = h.current;
        descending = (omega arith, open-Descending v log t h);
        done = h.done;
        lost = ap suc h.lost;
      })
Move-Logged _ _ log (renew v slot t l) h =
    rw (ltb_self v.done, ltb_self v.lost)
      (record {
        current = refl;
        descending =
            Descending-mono (suc v.slot) slot log (omega (arith, h.current, l))
              (any-Descending v log h);
        done = h.done;
        lost = h.lost;
      })

reach-Logged :
    (e : Setting) (first : ℕ) (w : World) (r : Reach e first w)
    → Logged (view w.node) (outcomes e first w r)
unfolding outcomes new_node new_slot_state
reach-Logged e first _ reach_start = record {
  current = refl;
  descending = tt;
  done = refl;
  lost = refl;
}
reach-Logged e first _ (reach_step w w' r s) =
    Move-Logged (view w.node) (view w'.node) (outcomes e first w r)
      (Step-Goes e w w' s (reach-Sound e first w r)) (reach-Logged e first w r)

-- In every order of a node's steps, each slot is counted at most once, as completed or as failed:
-- the slots of the outcomes that raised a counter ascend strictly to the current slot, which is the
-- last one prepared, and the counters of completed and failed slots are the numbers of these outcomes.
pub outcomes_once :
    (e : Setting) (first : ℕ) (w : World) (r : Reach e first w)
    → let log = outcomes e first w r in
      Descending (suc w.node.slot.id) log
      × (w.node.slot.id ≡ w.node.last_slot)
      × (w.node.completed_slots ≡ completions log)
      × (w.node.failed_slots ≡ failures log)
outcomes_once e first w r =
    let h = reach-Logged e first w r in
    let log = outcomes e first w r in
    (any-Descending (view w.node) log h, h.current, h.done, h.lost)
