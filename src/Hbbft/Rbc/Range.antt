-- ===== src/Hbbft/Rbc/Range.antt =====
-- What an index beyond the shards does to decoding (sbc/hbbft/rbc.go, `tryDecodeValue`).
use bloc.Prelude.{
  ℕ, zero, suc, ◌+◌, ◌*◌, ◌≤◌, ◌≡◌, refl, ap, ◌∙◌, Bool, true, false, ◌||◌, none, some, List, [],
  ◌∷◌, arith, leb, if◌then◌else◌, length, Option-cases, inl, inr, if_cases,
}
use bloc.Prelude.Bytes.{Bytes}
use bloc.Hbbft.Rbc.{
  Rbc, Codec, ProofRequest, panics, committed, insert_by_index, sort_by_index, set_shard,
  first_of_proof, place_shards, missing, count_readys, count_echos, try_decode_value,
}

-- Whether a proof has an index of at least `m`.
abbrev pub out_of_range : ℕ → List ProofRequest → Bool
out_of_range m [] = false
out_of_range m (p ∷ ps) = let rest = out_of_range m ps in if leb m p.index then true else rest

set_shard-out : (i : ℕ) (v : Bytes) (ss : List Bytes) → length ss ≤ i → set_shard i v ss ≡ none
set_shard-out i v [] h = refl
set_shard-out zero v (s ∷ ss) h = absurd (omega arith)
set_shard-out (suc i) v (s ∷ ss) h = rw (set_shard-out i v ss (omega arith)) refl

length-set_shard :
    (i : ℕ) (v : Bytes) (ss ss' : List Bytes) → set_shard i v ss ≡ some ss' → length ss' ≡ length ss
length-set_shard i v [] ss' h = cc
length-set_shard zero v (s ∷ ss) ss' h = ground arith
length-set_shard (suc i) v (s ∷ ss) ss' h = elim (Option-cases (set_shard i v ss)) [
  | inl e ↦ ground arith
  | inr (tt', e) ↦ ground (arith, length-set_shard i v ss tt' e)
]

place_shards-out :
    (ps : List ProofRequest) (ss : List Bytes)
    → out_of_range (length ss) ps ≡ true
    → place_shards ps ss ≡ none
place_shards-out [] ss h = cc
place_shards-out (p ∷ ps) ss h = elim (Option-cases (first_of_proof p.proof)) [
  | inl e ↦ rw (e, place_shards) refl
  | inr (v, e) ↦ elim (Option-cases (set_shard p.index v ss)) [
    | inl q ↦ rw (e, place_shards) (rw q refl)
    | inr (ss', q) ↦
        rw (e, place_shards)
          (rw q (
            place_shards-out ps ss'
              (later v ss' (length-set_shard p.index v ss ss' q) (set_shard-out p.index v ss) q)))
  ]
]
  where
    later :
        (v : Bytes) (ss' : List Bytes)
        → length ss' ≡ length ss
        → (length ss ≤ p.index → set_shard p.index v ss ≡ none)
        → set_shard p.index v ss ≡ some ss'
        → out_of_range (length ss') ps ≡ true
    later v ss' n out q = rw n (ground arith)

out_of_range-insert :
    (m : ℕ) (p : ProofRequest) (qs : List ProofRequest)
    → out_of_range m (insert_by_index p qs) ≡ out_of_range m (p ∷ qs)
out_of_range-insert m p [] = refl
out_of_range-insert m p (q ∷ qs) = ground (arith, out_of_range-insert m p qs)

out_of_range-sort :
    (m : ℕ) (ps : List ProofRequest) → out_of_range m (sort_by_index ps) ≡ out_of_range m ps
out_of_range-sort m [] = refl
out_of_range-sort m (p ∷ ps) =
    out_of_range-insert m p (sort_by_index ps)
    ∙ ap (λ rest. if leb m p.index then true else rest) (out_of_range-sort m ps)

length-missing : (n : ℕ) → length (missing n) ≡ n
length-missing zero = refl
length-missing (suc n) = ap suc (length-missing n)

-- Where a node may decode a root, having 2f + 1 READY messages and f + 1 echoes for it and no output
-- before, one echo for the root whose index is not that of a shard makes the decoding panic.
pub foreign_index_panics :
    (k : Codec) (hash : Bytes) (r : Rbc)
    → r.output_decoded ≡ false
    → 2 * r.f + 1 ≤ count_readys hash r
    → r.f + 1 ≤ count_echos hash r
    → out_of_range (r.num_parity_shards + r.num_data_shards) (committed hash r.recv_echos) ≡ true
    → try_decode_value k hash r ≡ panics
unfolding try_decode_value
foreign_index_panics k hash r fresh readys echos out =
    let total = r.num_parity_shards + r.num_data_shards in
    let placed : place_shards (sort_by_index (committed hash r.recv_echos)) (missing total) ≡ none =
      place_shards-out (sort_by_index (committed hash r.recv_echos)) (missing total)
        (rw (length-missing total) (out_of_range-sort total (committed hash r.recv_echos) ∙ out)) in
    if_cases (λ o. o ≡ panics)
      (r.output_decoded || leb (count_readys hash r) (2 * r.f) || leb (count_echos hash r) r.f) _ _
      (λ waits. absurd (ground arith)) (λ ready. rw placed refl)
