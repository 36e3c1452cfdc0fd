-- ===== src/Bte.antt =====
-- Batched threshold encryption (bte/btd-impl-main/be/cluster.go): what the nodes use of it around the
-- curve. Points and scalars are an abstract type `El`; the pairing, the key derivation and the AEAD
-- are arguments.
pub mod Arrange
pub mod Combine
pub mod Wire
pub mod Batch
use bloc.Prelude.{
  ℕ, Bool, true, false, not, ◌&&◌, Option, none, some, List, [], ◌∷◌, leb, ltb, length,
}
use bloc.Prelude.Bytes.{Bytes}

-- CT, with the parts of its ElGamal ciphertext and proof.
pub record Capsule (El : Type 0) : Type 0 where
  pub i : ℕ
  pub gamma : El
  pub kp : El
  pub a : El
  pub b : El
  pub ap : El
  pub bp : El
  pub yp : El
  pub k_hat : El
  pub u_hat : El

pub record Ciphertext (El : Type 0) : Type 0 where
  pub capsule : Capsule El
  pub encrypted_tx : Bytes

pub record PublicParams : Type 0 where
  pub bmax : ℕ
  pub n : ℕ

pub record BatchItem (El : Type 0) : Type 0 where
  pub original_position : ℕ
  pub ciphertext : Ciphertext El

pub record BatchPlan (El : Type 0) : Type 0 where
  pub batch_id : Bytes
  pub alpha : ℕ
  pub sub_batches : List (List (BatchItem El))

-- The nonce has 12 bytes and the tag 16.
abbrev pub validate_aead_payload_shape : Bytes → Bool
validate_aead_payload_shape encrypted_tx = leb 28 (length encrypted_tx)

abbrev pub validate_ciphertext : {El : Type 0} → PublicParams → Ciphertext El → Bool
validate_ciphertext params c =
    ltb c.capsule.i params.n && validate_aead_payload_shape c.encrypted_tx
