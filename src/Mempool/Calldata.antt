-- ===== src/Mempool/Calldata.antt =====
-- The calldata of a placeholder transaction (mempool-il/internal/mempool: classifier.go, and
-- `buildPlaceholderCalldata` of replay_placeholder.go). SHA-256 in hexadecimal is an argument.
pub mod RoundTrip
use bloc.Prelude.{
  ℕ, zero, suc, ◌+◌, ◌-◌, ◌*◌, ◌/◌, ◌%◌, ◌^◌, Bool, true, false, not, ◌&&◌, Option, none, some,
  List, [], ◌∷◌, ◌++◌, ◌==◌, ltb, leb, if◌then◌else◌, length, is_nil, take, drop,
}
use bloc.Prelude.Bytes.{Bytes, bytes_eq}
use bloc.Prelude.Text.{to_lower, trim_0x, trim_space}
use bloc.Mempool.{Transaction, PlaceholderData, TxKind, plaintext, placeholder}

pub data CalldataError : Type 0 where
  empty_calldata invalid_hex too_short wrong_selector gas_too_large : CalldataError

pub data Parsed : Type 0 where
  parsed : PlaceholderData → Parsed
  refused : CalldataError → Parsed

-- "phld".
abbrev pub placeholder_selector : Bytes
placeholder_selector = 112 ∷ 104 ∷ 108 ∷ 100 ∷ []

-- encoding/hex.
abbrev pub hex_digit : ℕ → ℕ
hex_digit d = if ltb d 10 then 48 + d else 87 + d

abbrev pub hex_encode : Bytes → Bytes
hex_encode [] = []
hex_encode (b ∷ bs) = hex_digit (b / 16) ∷ hex_digit (b % 16) ∷ hex_encode bs

abbrev pub hex_value : ℕ → Option ℕ
hex_value c =
    if leb b'0' c && leb c b'9'
    then some (c - 48)
    else if leb b'a' c && leb c b'f'
    then some (c - 87)
    else if leb b'A' c && leb c b'F'
    then some (c - 55)
    else none

abbrev pub hex_pair : Option ℕ → Option ℕ → Option Bytes → Option Bytes
hex_pair none low rest = none
hex_pair (some h) none rest = none
hex_pair (some h) (some l) none = none
hex_pair (some h) (some l) (some bs) = some ((16 * h + l) ∷ bs)

abbrev pub hex_decode : Bytes → Option Bytes
hex_decode [] = some []
hex_decode (c ∷ []) = none
hex_decode (c ∷ d ∷ s) = hex_pair (hex_value c) (hex_value d) (hex_decode s)

abbrev pub prefixed : Bytes → Bytes
prefixed s = 48 ∷ 120 ∷ s

-- big.Int.SetBytes and FillBytes, big endian.
abbrev pub of_bytes : ℕ → Bytes → ℕ
of_bytes acc [] = acc
of_bytes acc (b ∷ bs) = of_bytes (acc * 256 + b) bs

unfoldable pub fill_bytes : ℕ → ℕ → Bytes
fill_bytes zero v = []
fill_bytes (suc k) v = fill_bytes k (v / 256) ++ (v % 256) ∷ []

module _ (hash_hex : Bytes → Bytes) where
  abbrev pub parse_words : Bytes → Parsed
  parse_words b =
      if leb (length b) 68
      then refused too_short
      else if not (bytes_eq (take 4 b) placeholder_selector)
      then refused wrong_selector
      else let gas = of_bytes 0 (take 32 (drop 36 b)) in
        if leb (2 ^ 64) gas
        then refused gas_too_large
        else parsed (record {
          commitment_hex = prefixed (hex_encode (take 32 (drop 4 b)));
          requested_gas = gas;
          encrypted_payload_hex = prefixed (hex_encode (drop 68 b));
          encrypted_payload_hash = prefixed (hash_hex (drop 68 b));
          calldata_bytes = length b;
        })

  unfoldable pub parse_placeholder_calldata : Bytes → Parsed
  parse_placeholder_calldata input =
      let hex_input = trim_0x (to_lower (trim_space input)) in
      if is_nil hex_input
      then refused empty_calldata
      else elim (hex_decode hex_input) [ none ↦ refused invalid_hex | some b ↦ parse_words b ]

  -- A refused input leaves a plaintext transaction.
  unfoldable pub classify_and_parse : Transaction → Transaction
  unfolding parse_placeholder_calldata
  classify_and_parse tx = elim (parse_placeholder_calldata tx.input) [
    | refused e ↦ record tx { kind = plaintext; placeholder = none }
    | parsed p ↦ record tx {
      kind = TxKind.placeholder;
      placeholder = some p;
      target_tx_hash = p.commitment_hex;
      encrypted_payload_hex = p.encrypted_payload_hex;
      encrypted_payload_hash = p.encrypted_payload_hash;
      placeholder_tx_hash = tx.hash;
      placeholder_calldata_bytes = p.calldata_bytes;
      gas = if ltb 0 p.requested_gas then p.requested_gas else tx.gas;
    }
  ]

-- `target_hash` is the 32 bytes of the target transaction's hash.
unfoldable pub build_placeholder_calldata : Bytes → ℕ → Bytes → Bytes
build_placeholder_calldata target_hash requested_gas payload =
    placeholder_selector ++ (target_hash ++ (fill_bytes 32 requested_gas ++ payload))
