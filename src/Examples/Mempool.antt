-- ===== src/Examples/Mempool.antt =====
-- Instances of the store and the inclusion list (mempool-il/internal/mempool/store.go and
-- mempool-il/internal/inclusion/builder.go).
use bloc.Prelude.{ℕ, ◌≤◌, ◌≡◌, true, false, none, some, List, [], ◌∷◌, arith, length}
use bloc.Mempool.{Transaction, plaintext}
use bloc.Mempool.Store.{Store, Snapshot, new_store, replace_all, snapshot}
use bloc.Mempool.Store.Lookup.{found, last_with, replace_all-snapshot}
use bloc.Mempool.Builder.{BuilderConfig, new_builder, build_with}
use bloc.Mempool.Builder.Limits.{sum_gas, build-limits}
use bloc.Mempool.Builder.Distinct.{IsPriced, item_hashes, build-distinct}
use mathlib.Core.List.{Nodup}
use bloc.Prelude.{All}

abbrev transaction : ℕ → ℕ → ℕ → Transaction
transaction name gas price = record {
  hash = name ∷ [];
  from = 7 ∷ [];
  to = [];
  nonce = 1;
  gas = gas;
  input = [];
  raw_tx = [];
  gas_price_wei = some price;
  max_fee_per_gas_wei = none;
  max_priority_fee_wei = none;
  kind = plaintext;
  placeholder = none;
  is_queued = false;
  effective_fee_per_gas_w = none;
  target_tx_hash = [];
  target_tx_type = 0;
  target_tx_size_bytes = 0;
  encrypted_payload_hex = [];
  encrypted_payload_hash = [];
  placeholder_tx_hash = [];
  placeholder_tx_raw = [];
  placeholder_calldata_bytes = 0;
  placeholder_gas_estimate = 0;
}

-- The hash 98 stands twice.
abbrev pending : List Transaction
pending = transaction 98 30 5 ∷ transaction 97 20 6 ∷ transaction 98 40 7 ∷ []

abbrev stored : Store
stored = replace_all pending new_store

replace_all-snapshot_example :
    found (98 ∷ []) (snapshot (λ b. b) (replace_all pending new_store)).transactions
    ≡ last_with (98 ∷ []) pending
replace_all-snapshot_example = replace_all-snapshot (λ b. b) pending new_store (98 ∷ [])

abbrev small : BuilderConfig
small = record { max_transactions = 0; max_gas = 50 }

abbrev shown : Snapshot
shown = snapshot (λ b. b) stored

build-limits_example :
    let l = build_with (new_builder small) (λ b. b) true shown in
    (l.count ≡ length l.items)
    × (l.count ≤ (new_builder small).max_transactions)
    × (l.total_gas ≡ sum_gas l.items)
    × (l.total_gas ≤ (new_builder small).max_gas)
build-limits_example = build-limits small (λ b. b) true shown (omega arith)

build-distinct_example :
    let l = build_with small (λ b. b) false shown in
    All IsPriced l.items × Nodup (item_hashes l.items)
build-distinct_example = build-distinct small (λ b. b) false shown
