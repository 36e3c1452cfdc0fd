-- ===== src/Hbbft/Slot/Output.antt =====
-- The output of a slot (sbc/hbbft/bloc_slot.go, `maybeBuildOutput` and `decodeCommonSubset`).
use bloc.Prelude.{
  ℕ, ◌≡◌, refl, sym, ap, ◌∙◌, true, false, Option, none, some, [], ◌∷◌, arith, is_nil, Option-cases,
  inl, inr, Bool-cases,
}
use bloc.Prelude.Maps.{Map, lookup}
use bloc.Prelude.Bytes.{Bytes}
use bloc.Prelude.Results.{◌>>=◌}
use bloc.Hbbft.Slot.{
  SlotAcs, SlotEnv, SlotOutput, decode_failed, decode_common_subset, maybe_build_output,
  ordered_batches, builder, build_block, run_hook,
}

-- A subset that decodes has each batch decoded under its proposer, and the same keys as before.
pub decode-lookup :
    (decode : Bytes → Option Bytes) (m m' : Map Bytes) (j : ℕ)
    → decode_common_subset decode m ≡ some m'
    → lookup j m' ≡ (lookup j m >>= decode)
unfolding decode_common_subset
decode-lookup decode [] m' j h = ground arith
decode-lookup decode ((id, batch) ∷ m) m' j h = elim (Option-cases (decode batch)) [
  | inl e ↦ ground arith
  | inr (plain, e) ↦ elim (Option-cases (decode_common_subset decode m)) [
    | inl q ↦ ground arith
    | inr (rest, q) ↦ ground (arith, decode-lookup decode m rest j q)
  ]
]

-- One batch that does not decode makes the whole subset fail.
decode-fails :
    (decode : Bytes → Option Bytes) (id : ℕ) (batch : Bytes) (m : Map Bytes)
    → decode batch ≡ none
    → lookup id m ≡ some batch
    → decode_common_subset decode m ≡ none
unfolding decode_common_subset
decode-fails decode id batch [] bad h = cc
decode-fails decode id batch ((j, w) ∷ m) bad h = elim (Option-cases (decode w)) [
  | inl e ↦ ground arith
  | inr (plain, e) ↦ ground (arith, decode-fails decode id batch m)
]

lookup-not_nil :
    (id : ℕ) (batch : Bytes) (m : Map Bytes) → lookup id m ≡ some batch → is_nil m ≡ false
lookup-not_nil id batch [] h = cc
lookup-not_nil id batch (e ∷ m) h = refl

-- The call fails, and takes the subset with it.
pub undecodable_batch_fails :
    (env : SlotEnv) (s : SlotAcs) (m : Map Bytes) (id : ℕ) (batch : Bytes)
    → s.acs.decided ≡ true
    → s.output ≡ none
    → s.acs.output ≡ some m
    → lookup id m ≡ some batch
    → env.decode_candidate_batch batch ≡ none
    → let (s', e) = maybe_build_output env s in
      (e ≡ some decode_failed)
      × (s'.output ≡ none)
      × (s'.acs.decided ≡ true)
      × (s'.acs.output ≡ none)
unfolding maybe_build_output
undecodable_batch_fails env s m id batch d o a l bad =
    ground
      (arith, decode-fails env.decode_candidate_batch id batch m bad l, lookup-not_nil id batch m l)

-- What a slot hands over: the agreed subset, each batch decoded, with its batches in order and the
-- block built from these.
pub record Built (env : SlotEnv) (s : SlotAcs) (m : Map Bytes) (o : SlotOutput) : Type 0 where
  pub of_slot : o.slot ≡ s.slot
  pub decoded : (j : ℕ) → lookup j o.common_subset ≡ (lookup j m >>= env.decode_candidate_batch)
  pub in_order : o.ordered_batches ≡ ordered_batches o.common_subset
  pub body : builder env s.slot o.ordered_batches ≡ some o.block_body

-- The hook adds its result, and leaves the other parts.
run_hook-parts :
    (env : SlotEnv) (s : SlotAcs) (out o : SlotOutput)
    → s.output ≡ none
    → (run_hook env out s).0.output ≡ some o
    → (o.slot ≡ out.slot)
      × (o.common_subset ≡ out.common_subset)
      × (o.ordered_batches ≡ out.ordered_batches)
      × (o.block_body ≡ out.block_body)
run_hook-parts env s out o empty h = elim (Option-cases env.post_agreement) [
  | inl e ↦ ground arith
  | inr (hook, e) ↦ elim (Option-cases (hook out)) [
    | inl q ↦ ground arith
    | inr (r, q) ↦ ground arith
  ]
]

build_block-Built :
    (env : SlotEnv) (s : SlotAcs) (m subset : Map Bytes) (o : SlotOutput)
    → s.output ≡ none
    → ((j : ℕ) → lookup j subset ≡ (lookup j m >>= env.decode_candidate_batch))
    → (build_block env subset s).0.output ≡ some o
    → Built env s m o
build_block-Built env s m subset o empty d h =
    elim (Option-cases (builder env s.slot (ordered_batches subset))) [
      | inl e ↦ absurd (ground arith)
      | inr (body, e) ↦
          let out : SlotOutput = record {
            slot = s.slot;
            common_subset = subset;
            ordered_batches = ordered_batches subset;
            block_body = body;
            decryption_result = none;
          } in
          let (sl, cs, ob, bb) = run_hook-parts env s out o empty (rw (e, build_block) at h) in
          record {
            of_slot = sl;
            decoded = rw cs d;
            in_order = ob ∙ ap ordered_batches (sym cs);
            body = rw (ob, bb) e;
          }
    ]

-- An output that a call builds, in a slot without one, is of the agreed subset: every batch
-- decoded, the batches ordered, the body the builder's for them.
pub maybe_build_output-Built :
    (env : SlotEnv) (s : SlotAcs) (m : Map Bytes) (o : SlotOutput)
    → s.output ≡ none
    → s.acs.output ≡ some m
    → (maybe_build_output env s).0.output ≡ some o
    → Built env s m o
unfolding maybe_build_output
maybe_build_output-Built env s m o empty a h = elim (Bool-cases (is_nil m)) [
  | inl n ↦ absurd (ground arith)
  | inr n ↦ elim (Option-cases (decode_common_subset env.decode_candidate_batch m)) [
    | inl d ↦ absurd (ground arith)
    | inr (plain, d) ↦
        let s' : SlotAcs = record s { acs = record (s.acs) { output = none } } in
        let b : Built env s' m o =
          build_block-Built env s' m plain o empty
            (λ j. decode-lookup env.decode_candidate_batch m plain j d) (ground arith) in
        record { of_slot = b.of_slot; decoded = b.decoded; in_order = b.in_order; body = b.body }
  ]
]
