-- ===== src/Node/Steps/Core.antt =====
-- What shares and submitted transactions leave alone (bloc-node/internal/app/node.go: `addShare`,
-- `addWireShare`, `handleSubmitTx`).
use bloc.Prelude.{
  ℕ, ◌*◌, ◌≡◌, refl, ap, Bool, not, ◌&&◌, Option, List, [], ◌∷◌, ◌++◌, ◌==◌, ltb, leb, if_cases,
  length, contains, Option-cases, inl, inr,
}
use bloc.Prelude.Maps.{Map, lookup}
use bloc.Prelude.Bytes.{Bytes, bytes_eq}
use bloc.Inclusion.{EncryptedPlaceholder}
use bloc.Node.{
  NodeSettings, DecryptionShare, Candidates, BatchPlan, SlotPhase, SlotResult, SlotFailure,
  SlotState,
}
use bloc.Node.Shares.{
  Curve, WireShare, decoded_share, RejectReason, candidates_of, store_candidates, admit_share,
  check_candidates, retain_share, add_share, add_wire_share,
}
use bloc.Node.Lifecycle.{SubmitError, seen, store_pending}

pub record Core : Type 0 where
  pub id : ℕ
  pub phase : SlotPhase
  pub planned : Bool
  pub plan : BatchPlan
  pub combine_in_flight : Bool
  pub combine_attempts_left : List ℕ
  pub share_subset_attempts : ℕ
  pub result : Option SlotResult
  pub failure : Option SlotFailure

abbrev pub core : SlotState → Core
core s = record {
  id = s.id;
  phase = s.phase;
  planned = s.planned;
  plan = s.plan;
  combine_in_flight = s.combine_in_flight;
  combine_attempts_left = s.combine_attempts_left;
  share_subset_attempts = s.counters.share_subset_attempts;
  result = s.result;
  failure = s.failure;
}

abbrev pub core_shares : SlotState → Core × Map Candidates
core_shares s = (core s, s.share_candidates)

module _ (cfg : NodeSettings) where
  -- A pair of a state and an answer.
  abbrev Same : SlotState → SlotState × Option RejectReason → Type 0
  Same s r = core r.0 ≡ core s

  core-admit :
      (d : DecryptionShare) (encoded : Bytes) (c : Candidates) (s : SlotState)
      → Same s (admit_share cfg d encoded c s)
  unfolding admit_share
  core-admit d encoded c s =
      if_cases (Same s) (ltb (cfg.n * cfg.bmax) _) _ _ (λ h. refl) (λ h. refl)

  core-check :
      (d : DecryptionShare) (encoded : Bytes) (c : Candidates) (s : SlotState)
      → Same s (check_candidates cfg d encoded c s)
  unfolding check_candidates
  core-check d encoded c s =
      if_cases (Same s) (c.batch_set && not (bytes_eq c.batch_id d.batch_id)) _ _ (λ h. refl)
        λ h. elim (Option-cases (lookup d.sub_batch_id c.shares)) [
          | inl e ↦ rw (e, check_candidates) (core-admit d encoded c s)
          | inr (r, e) ↦
              rw (e, check_candidates)
                (if_cases (Same s) (bytes_eq r.encoded encoded) _ _ (λ q. refl) (λ q. refl))
        ]

  core-retain :
      (d : DecryptionShare) (encoded : Bytes) (s : SlotState)
      → Same s (retain_share cfg d encoded s)
  unfolding retain_share
  core-retain d encoded s =
      let c = candidates_of d.operator_id s in
      if_cases (Same s) (s.planned && not (bytes_eq d.batch_id s.plan.batch_id)) _ _ (λ h. refl)
        λ h.
          if_cases (Same s) (s.planned && leb (length s.plan.sub_batches) d.sub_batch_id) _ _
            (λ q. refl) λ q. core-check d encoded c (store_candidates d.operator_id c s)

  module _ (curve : Curve) where
    pub core-add_share : (d : DecryptionShare) (s : SlotState) → Same s (add_share cfg curve d s)
    unfolding add_share
    core-add_share d s =
        if_cases (Same s) (not (contains cfg.node_ids d.operator_id)) _ _ (λ h. refl)
          λ h. elim (Option-cases d.share) [
            | inl e ↦ rw (e, add_share) refl
            | inr (q, e) ↦
                rw (e, add_share)
                  (elim (Option-cases q.v) [
                    | inl f ↦ rw f refl
                    | inr (v, f) ↦ rw f (
                        if_cases (Same s) (not (q.i == d.operator_id)) _ _ (λ h. refl)
                          λ h.
                            if_cases (Same s) (leb cfg.bmax d.sub_batch_id) _ _ (λ h. refl)
                              λ h. elim (Option-cases (curve.marshal_point v)) [
                                | inl g ↦ rw g refl
                                | inr (encoded, g) ↦ rw g (core-retain d encoded s)
                              ])
                  ])
          ]

    pub core-add_wire_share :
        (w : WireShare) (s : SlotState) → Same s (add_wire_share cfg curve w s)
    unfolding add_wire_share
    core-add_wire_share w s =
        if_cases (Same s) (not (contains cfg.node_ids w.operator_id)) _ _ (λ h. refl)
          λ h.
            if_cases (Same s) (not (length w.batch_id_hex == 64)) _ _ (λ h. refl)
              λ h. elim (Option-cases (curve.decode_hex w.batch_id_hex)) [
                | inl e ↦ rw (e, add_wire_share) refl
                | inr (batch_id, e) ↦
                    rw (e, add_wire_share)
                      (if_cases (Same s) (leb cfg.bmax w.sub_batch_id) _ _ (λ h. refl)
                        λ h.
                          if_cases (Same s) (not (length w.point_hex == curve.point_size * 2)) _ _
                            (λ h. refl)
                            λ h. elim (Option-cases (curve.unmarshal_point_hex w.point_hex)) [
                              | inl f ↦ rw f refl
                              | inr (v, f) ↦ rw f (core-add_share (decoded_share w batch_id v) s)
                            ])
              ]

  -- Nor does a transaction touch the shares.
  pub kept-store_pending :
      (encode_list : ℕ → ℕ → List EncryptedPlaceholder → Option Bytes) (item : EncryptedPlaceholder)
      (raw_bytes : ℕ) (s : SlotState)
      → core_shares (store_pending cfg encode_list item raw_bytes s).0 ≡ core_shares s
  unfolding store_pending
  kept-store_pending encode_list item raw_bytes s =
      if_cases Kept (seen item.hash s.seen_pending) _ _ (λ h. refl)
        λ h.
          if_cases Kept (leb cfg.bmax (length s.pending)) _ _ (λ h. refl)
            λ h. elim (Option-cases (encode_list s.id cfg.id (s.pending ++ item ∷ []))) [
              | inl e ↦ rw (e, store_pending) refl
              | inr (encoded, e) ↦
                  rw (e, store_pending)
                    (if_cases Kept (ltb cfg.max_proposal_bytes (length encoded)) _ _ (λ h. refl)
                      (λ h. refl))
            ]
    where
      Kept : SlotState × Option SubmitError → Type 0
      Kept r = core_shares r.0 ≡ core_shares s

  pub core-store_pending :
      (encode_list : ℕ → ℕ → List EncryptedPlaceholder → Option Bytes) (item : EncryptedPlaceholder)
      (raw_bytes : ℕ) (s : SlotState)
      → core (store_pending cfg encode_list item raw_bytes s).0 ≡ core s
  core-store_pending encode_list item raw_bytes s =
      ap (λ x. x.0) (kept-store_pending encode_list item raw_bytes s)
