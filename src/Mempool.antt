-- ===== src/Mempool.antt =====
-- The mempool service (mempool-il): transactions (internal/mempool/types.go) and its parts. Strings
-- and byte slices are byte lists; a fee, a *big.Int that is never negative, is a number or nil.
pub mod Calldata
pub mod Store
pub mod Builder
use bloc.Prelude.{List, [], ◌∷◌, ℕ, Bool, Option, none, some, ltb, if◌then◌else◌}
use bloc.Prelude.Bytes.{Bytes}

pub data TxKind : Type 0 where
  unset plaintext placeholder : TxKind

abbrev pub kind_text : TxKind → Bytes
kind_text unset = []
kind_text plaintext = 112 ∷ 108 ∷ 97 ∷ 105 ∷ 110 ∷ 116 ∷ 101 ∷ 120 ∷ 116 ∷ []
kind_text placeholder = 112 ∷ 108 ∷ 97 ∷ 99 ∷ 101 ∷ 104 ∷ 111 ∷ 108 ∷ 100 ∷ 101 ∷ 114 ∷ []

pub record PlaceholderData : Type 0 where
  pub commitment_hex : Bytes
  pub requested_gas : ℕ  -- uint64
  pub encrypted_payload_hex : Bytes
  pub encrypted_payload_hash : Bytes
  pub calldata_bytes : ℕ

pub record Transaction : Type 0 where
  pub hash : Bytes
  pub from : Bytes
  pub to : Bytes
  pub nonce : ℕ  -- uint64
  pub gas : ℕ  -- uint64
  pub input : Bytes
  pub raw_tx : Bytes
  pub gas_price_wei : Option ℕ
  pub max_fee_per_gas_wei : Option ℕ
  pub max_priority_fee_wei : Option ℕ
  pub kind : TxKind
  pub placeholder : Option PlaceholderData
  pub is_queued : Bool
  pub effective_fee_per_gas_w : Option ℕ
  pub target_tx_hash : Bytes
  pub target_tx_type : ℕ
  pub target_tx_size_bytes : ℕ
  pub encrypted_payload_hex : Bytes
  pub encrypted_payload_hash : Bytes
  pub placeholder_tx_hash : Bytes
  pub placeholder_tx_raw : Bytes
  pub placeholder_calldata_bytes : ℕ
  pub placeholder_gas_estimate : ℕ

abbrev pub gas_price_or_zero : Option ℕ → ℕ
gas_price_or_zero none = 0
gas_price_or_zero (some p) = p

-- The effective fee, else a positive fee cap, else the gas price, else 0.
unfoldable pub effective_fee_per_gas : Transaction → ℕ
effective_fee_per_gas t = elim t.effective_fee_per_gas_w [
  | some w ↦ w
  | none ↦ elim t.max_fee_per_gas_wei [
    | none ↦ gas_price_or_zero t.gas_price_wei
    | some m ↦ if ltb 0 m then m else gas_price_or_zero t.gas_price_wei
  ]
]
