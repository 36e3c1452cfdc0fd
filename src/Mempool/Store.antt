-- ===== src/Mempool/Store.antt =====
-- The store of pending transactions (mempool-il/internal/mempool/store.go). Its lock is left out:
-- each operation holds it. SHA-256 in hexadecimal is an argument.
pub mod Lookup
use bloc.Prelude.{
  ℕ, Bool, true, false, not, Option, none, some, List, [], ◌∷◌, ◌++◌, ◌==◌, ltb, if◌then◌else◌,
  length,
}
use bloc.Prelude.Bytes.{Bytes, bytes_eq, bytes_lt}
use bloc.Prelude.Text.{join, decimal_text}
use bloc.Mempool.{Transaction, kind_text, effective_fee_per_gas}

-- The map of transactions by hash: `put` replaces the one of the same hash. The order of the
-- entries is the order in which a `range` loop visits them.
abbrev pub put : Transaction → List Transaction → List Transaction
put tx [] = tx ∷ []
put tx (t ∷ ts) = let rest = put tx ts in if bytes_eq t.hash tx.hash then tx ∷ ts else t ∷ rest

abbrev pub put_all : List Transaction → List Transaction → List Transaction
put_all [] m = m
put_all (tx ∷ txs) m = put_all txs (put tx m)

pub record Store : Type 0 where
  pub by_id : List Transaction

abbrev pub new_store : Store
new_store = record { by_id = [] }

unfoldable pub replace_all : List Transaction → Store → Store
replace_all txs s = record { by_id = put_all txs [] }

pub record Snapshot : Type 0 where
  pub transactions : List Transaction
  pub count : ℕ
  pub hash : Bytes

-- By sender, nonce and hash.
abbrev pub stored_before : Transaction → Transaction → Bool
stored_before a b =
    if not (bytes_eq a.from b.from)
    then bytes_lt a.from b.from
    else if not (a.nonce == b.nonce)
    then ltb a.nonce b.nonce
    else bytes_lt a.hash b.hash

abbrev pub insert_stored : Transaction → List Transaction → List Transaction
insert_stored t [] = t ∷ []
insert_stored t (u ∷ us) =
    let rest = insert_stored t us in if stored_before u t then u ∷ rest else t ∷ u ∷ us

abbrev pub sort_stored : List Transaction → List Transaction
sort_stored [] = []
sort_stored (t ∷ ts) = insert_stored t (sort_stored ts)

-- The ASCII text of a Bool.
abbrev pub bool_text : Bool → Bytes
bool_text true = 116 ∷ 114 ∷ 117 ∷ 101 ∷ []
bool_text false = 102 ∷ 97 ∷ 108 ∷ 115 ∷ 101 ∷ []

abbrev pub stored_line : Transaction → Bytes
stored_line t = join (124 ∷ []) (
    t.hash
    ∷ t.from
    ∷ decimal_text t.nonce
    ∷ decimal_text t.gas
    ∷ kind_text t.kind
    ∷ decimal_text (effective_fee_per_gas t)
    ∷ bool_text t.is_queued
    ∷ [])

abbrev pub stored_lines : List Transaction → List Bytes
stored_lines [] = []
stored_lines (t ∷ ts) = stored_line t ∷ stored_lines ts

unfoldable pub snapshot : (Bytes → Bytes) → Store → Snapshot
snapshot hash_hex s =
    let arr = sort_stored s.by_id in
    record {
      transactions = arr;
      count = length arr;
      hash = 48 ∷ 120 ∷ hash_hex (join (10 ∷ []) (stored_lines arr));
    }
