-- ===== src/Mempool/Builder.antt =====
-- The inclusion list of a mempool snapshot (mempool-il/internal/inclusion/builder.go). SHA-256 in
-- hexadecimal is an argument. A negative maximum, which counts as 0, is left out.
pub mod Limits
pub mod Distinct
use bloc.Prelude.{
  ℕ, ◌+◌, Bool, true, false, not, ◌||◌, List, [], ◌∷◌, ◌++◌, ◌==◌, ltb, leb, if◌then◌else◌, length,
  is_nil,
}
use bloc.Prelude.Words.{sub64, add64}
use bloc.Prelude.Bytes.{Bytes, bytes_eq, bytes_lt}
use bloc.Prelude.Text.{join, trim_0x, decimal_text}
use bloc.Mempool.{
  Transaction, TxKind, unset, plaintext, placeholder, kind_text, effective_fee_per_gas,
}
use bloc.Mempool.Store.{Snapshot}

pub record BuilderConfig : Type 0 where
  pub max_transactions : ℕ
  pub max_gas : ℕ  -- uint64

-- A maximum of 0 stands for the default.
unfoldable pub new_builder : BuilderConfig → BuilderConfig
new_builder cfg = record {
  max_transactions = if cfg.max_transactions == 0 then 128 else cfg.max_transactions;
  max_gas = if cfg.max_gas == 0 then 15000000 else cfg.max_gas;
}

pub record Item : Type 0 where
  pub hash : Bytes
  pub from : Bytes
  pub nonce : ℕ
  pub gas : ℕ
  pub kind : Bytes
  pub effective_fee_per_gw : Bytes
  pub placeholder_envelope_hex : Bytes
  pub encrypted_payload_hex : Bytes
  pub encrypted_payload_hash : Bytes
  pub target_tx_hash : Bytes
  pub target_tx_type : ℕ
  pub target_tx_size_bytes : ℕ
  pub placeholder_tx_hash : Bytes
  pub placeholder_calldata_bytes : ℕ
  pub placeholder_gas_estimate : ℕ

pub record InclusionItems : Type 0 where
  pub items : List Item
  pub count : ℕ
  pub total_gas : ℕ
  pub hash : Bytes

abbrev pub seen_hash : Bytes → List Bytes → Bool
seen_hash h [] = false
seen_hash h (g ∷ gs) = let rest = seen_hash h gs in if bytes_eq g h then true else rest

-- The transactions with a hash and with gas, each hash once, in the order of the snapshot.
unfoldable pub candidates : List Bytes → List Transaction → List Transaction
candidates seen [] = []
candidates seen (tx ∷ txs) =
    let skipped = candidates seen txs in
    let kept = candidates (tx.hash ∷ seen) txs in
    if is_nil tx.hash || tx.gas == 0
    then skipped
    else if seen_hash tx.hash seen
    then skipped
    else tx ∷ kept

-- Higher fees first; then by sender, nonce and hash.
abbrev pub pays_more : Transaction → Transaction → Bool
pays_more a b =
    if not (effective_fee_per_gas a == effective_fee_per_gas b)
    then ltb (effective_fee_per_gas b) (effective_fee_per_gas a)
    else if not (bytes_eq a.from b.from)
    then bytes_lt a.from b.from
    else if not (a.nonce == b.nonce)
    then ltb a.nonce b.nonce
    else bytes_lt a.hash b.hash

unfoldable pub insert_by_fee : Transaction → List Transaction → List Transaction
insert_by_fee t [] = t ∷ []
insert_by_fee t (u ∷ us) =
    let rest = insert_by_fee t us in if pays_more u t then u ∷ rest else t ∷ u ∷ us

unfoldable pub sort_by_fee : List Transaction → List Transaction
unfolding insert_by_fee
sort_by_fee [] = []
sort_by_fee (t ∷ ts) = insert_by_fee t (sort_by_fee ts)

-- Only a placeholder carries its calldata.
abbrev pub envelope_of : TxKind → Bytes → Bytes
envelope_of placeholder input = trim_0x input
envelope_of unset input = []
envelope_of plaintext input = []

abbrev pub item_of : Transaction → Item
item_of tx = record {
  hash = tx.hash;
  from = tx.from;
  nonce = tx.nonce;
  gas = tx.gas;
  kind = kind_text tx.kind;
  effective_fee_per_gw = decimal_text (effective_fee_per_gas tx);
  placeholder_envelope_hex = envelope_of tx.kind tx.input;
  encrypted_payload_hex = tx.encrypted_payload_hex;
  encrypted_payload_hash = tx.encrypted_payload_hash;
  target_tx_hash = tx.target_tx_hash;
  target_tx_type = tx.target_tx_type;
  target_tx_size_bytes = tx.target_tx_size_bytes;
  placeholder_tx_hash = tx.placeholder_tx_hash;
  placeholder_calldata_bytes = tx.placeholder_calldata_bytes;
  placeholder_gas_estimate = tx.placeholder_gas_estimate;
}

abbrev pub item_line : Item → Bytes
item_line i = join (124 ∷ []) (
    i.hash
    ∷ i.from
    ∷ decimal_text i.nonce
    ∷ decimal_text i.gas
    ∷ i.kind
    ∷ i.effective_fee_per_gw
    ∷ [])

abbrev pub item_lines : List Item → List Bytes
item_lines [] = []
item_lines (i ∷ is) = item_line i ∷ item_lines is

module _ (cfg : BuilderConfig) where
  -- The items picked so far, their gas, and the candidates left.
  unfoldable pub pick : List Item → ℕ → List Transaction → List Item × ℕ
  pick items total_gas [] = (items, total_gas)
  pick items total_gas (tx ∷ txs) =
      let passed = pick items total_gas txs in
      let taken = pick (items ++ item_of tx ∷ []) (add64 total_gas tx.gas) txs in
      if leb cfg.max_transactions (length items)
      then (items, total_gas)
      else if ltb (sub64 cfg.max_gas total_gas) tx.gas
      then passed
      else taken

  module _ (hash_hex : Bytes → Bytes) where
    unfoldable pub build_with : Bool → Snapshot → InclusionItems
    unfolding candidates sort_by_fee pick
    build_with by_fee snap =
        let found = candidates [] snap.transactions in
        let (items, gas) = pick [] 0 (if by_fee then sort_by_fee found else found) in
        record {
          items = items;
          count = length items;
          total_gas = gas;
          hash = 48 ∷ 120 ∷ hash_hex (join (10 ∷ []) (item_lines items));
        }

    abbrev pub build : Snapshot → InclusionItems
    build snap = build_with true snap

    abbrev pub build_ordered : Snapshot → InclusionItems
    build_ordered snap = build_with false snap
