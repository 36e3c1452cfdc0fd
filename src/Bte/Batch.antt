-- ===== src/Bte/Batch.antt =====
-- From encoded ciphertexts to a plan (bte/btd-impl-main/be/cluster.go: `DecodeBatch`,
-- `PlanDecodedBatch`, `computeBatchIDFromEncoded`). SHA-256 is an argument.
use bloc.Prelude.{ℕ, Option, none, some, List, [], ◌∷◌, ◌++◌, ltb, if◌then◌else◌, length}
use bloc.Prelude.Bytes.{Bytes}
use bloc.Prelude.Results.{◌>>=◌}
use bloc.Bte.{Ciphertext, PublicParams, BatchPlan}
use bloc.Bte.Arrange.{arrange_batch}
use bloc.Bte.Wire.{Elements, write_bytes, unmarshal_ciphertext}

-- batchIDDomain, "bloc-batch-v2".
abbrev pub batch_id_domain : Bytes
batch_id_domain = 98 ∷ 108 ∷ 111 ∷ 99 ∷ 45 ∷ 98 ∷ 97 ∷ 116 ∷ 99 ∷ 104 ∷ 45 ∷ 118 ∷ 50 ∷ []

abbrev pub framed : List Bytes → Bytes
framed [] = []
framed (raw ∷ rest) = write_bytes raw ++ framed rest

unfoldable pub compute_batch_id_from_encoded : (Bytes → Bytes) → List Bytes → Bytes
compute_batch_id_from_encoded sha256 encoded = sha256 (batch_id_domain ++ framed encoded)

pub record DecodedBatch (El : Type 0) : Type 0 where
  pub ciphertexts : List (Ciphertext El)
  pub batch_id : Bytes

module _ {El : Type 0} (params : PublicParams) where
  unfoldable pub decode_all : Elements El → List Bytes → Option (List (Ciphertext El))
  decode_all els [] = some []
  decode_all els (raw ∷ rest) =
      unmarshal_ciphertext els params raw >>= λ c. decode_all els rest >>= λ cs. some (c ∷ cs)

  unfoldable pub decode_batch :
      Elements El → (Bytes → Bytes) → List Bytes → Option (DecodedBatch El)
  decode_batch els sha256 encoded =
      if ltb params.bmax (length encoded)
      then none
      else decode_all els encoded >>= λ cs.
          some
            (record { ciphertexts = cs; batch_id = compute_batch_id_from_encoded sha256 encoded })

  unfoldable pub plan_decoded_batch : (ℕ → ℕ) → DecodedBatch El → Option (BatchPlan El)
  plan_decoded_batch ceil_two_sqrt decoded =
      arrange_batch params ceil_two_sqrt (decoded.ciphertexts) >>= λ r.
      some (record { batch_id = decoded.batch_id; alpha = r.0; sub_batches = r.1 })
