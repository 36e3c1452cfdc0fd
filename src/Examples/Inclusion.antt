-- ===== src/Examples/Inclusion.antt =====
-- Instances of the merge (bloc-node/internal/app/inclusion/merge.go): two lists that share an item,
-- under a toy hash that maps a ciphertext to itself.
use bloc.Prelude.{ℕ, ◌≤◌, ◌≡◌, List, [], ◌∷◌, arith, length, All}
use mathlib.Core.List.{Nodup}
use bloc.Prelude.Bytes.{Bytes}
use bloc.Inclusion.{
  EncryptedPlaceholder, InclusionList, BlockspaceConfig, Hashing, encrypted_hashes,
  effective_max_decrypted_txs, dedupe_lists, merge,
}
use bloc.Inclusion.Selection.{sum_gas, merge-limits}
use bloc.Inclusion.Shortcut.{admit_lists, dedupe_lists-admit}
use bloc.Inclusion.Canonical.{IsCanonical, merge-IsCanonical}

abbrev hashing : Hashing
hashing = record {
  hash_hex = λ b. b;
  marshal_list = λ slot operator items. slot ∷ operator ∷ [];
  marshal_lists = λ slot lists. slot ∷ [];
  marshal_items = λ slot items gas. slot ∷ gas ∷ [];
}

-- An item with the ciphertext "a", "b", ..., its fee in decimal.
abbrev item : ℕ → ℕ → Bytes → EncryptedPlaceholder
item c gas fee = record {
  hash = c ∷ [];
  ciphertext = c ∷ [];
  gas = gas;
  effective_fee_per_gas_wei = fee;
  from = 102 ∷ [];
  nonce = 1;
  kind = [];
}

abbrev lists : List InclusionList
lists =
    record {
      slot = 5;
      operator_id = 1;
      items = item 97 30 (49 ∷ []) ∷ item 98 40 (50 ∷ []) ∷ [];
      hash = [];
    }
    ∷ record {
      slot = 5;
      operator_id = 2;
      items = item 98 40 (50 ∷ []) ∷ item 99 50 (51 ∷ []) ∷ [];
      hash = [];
    }
    ∷ []

abbrev space : BlockspaceConfig
space = record { max_decrypted_gas = 80; max_decrypted_txs = 3; default_tx_gas = 21000 }

merge-limits_example :
    let m = merge hashing 5 lists space 10 in
    (length m.items ≤ effective_max_decrypted_txs space 10)
    × (length m.items ≤ 10)
    × (m.selected_gas ≡ sum_gas m.items)
    × (m.selected_gas ≤ 80)
merge-limits_example = merge-limits hashing 5 lists space 10 (omega arith) (omega arith)

dedupe_lists-admit_example :
    dedupe_lists hashing lists ([], []) ≡ admit_lists hashing lists ([], [])
dedupe_lists-admit_example = dedupe_lists-admit hashing lists

merge-IsCanonical_example :
    let m = merge hashing 5 lists space 10 in
    All (IsCanonical hashing) m.items × Nodup (encrypted_hashes m.items)
merge-IsCanonical_example = merge-IsCanonical hashing 5 lists space 10
