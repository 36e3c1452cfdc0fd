-- ===== src/Inclusion.antt =====
-- Inclusion lists and their deterministic merge (bloc-node/internal/app/inclusion: types.go,
-- merge.go). Strings and byte slices are byte lists; SHA-256 and the JSON encoding are the record
-- `Hashing`. Negative limits, which the source treats as 0, are left out.
pub mod Selection
pub mod Shortcut
pub mod Canonical
pub mod Order
use bloc.Prelude.{
  ℕ, zero, suc, ◌+◌, ◌-◌, ◌%◌, ◌^◌, Bool, true, false, not, ◌&&◌, ◌||◌, Option, none, some, List,
  [], ◌∷◌, ◌++◌, ◌==◌, ltb, leb, if◌then◌else◌, length, is_nil,
}
use bloc.Prelude.Words.{sub64}
use bloc.Prelude.Bytes.{Bytes, bytes_eq, bytes_lt}
use bloc.Prelude.Text.{to_lower, trim_0x, trim_space, signed_decimal}

pub record EncryptedPlaceholder : Type 0 where
  pub hash : Bytes
  pub ciphertext : Bytes
  pub gas : ℕ  -- uint64
  pub effective_fee_per_gas_wei : Bytes
  pub from : Bytes
  pub nonce : ℕ  -- uint64
  pub kind : Bytes

pub record InclusionList : Type 0 where
  pub slot : ℕ
  pub operator_id : ℕ
  pub items : List EncryptedPlaceholder
  pub hash : Bytes

pub record AgreedInclusionSet : Type 0 where
  pub slot : ℕ
  pub lists : List InclusionList
  pub hash : Bytes
  pub total_items : ℕ

pub record MergedEncryptedSet : Type 0 where
  pub slot : ℕ
  pub items : List EncryptedPlaceholder
  pub hash : Bytes
  pub selected_gas : ℕ
  pub skipped_items : ℕ

pub record BlockspaceConfig : Type 0 where
  pub max_decrypted_gas : ℕ
  pub max_decrypted_txs : ℕ
  pub default_tx_gas : ℕ

-- hex(sha256(data)), and the JSON of the three canonical records.
pub record Hashing : Type 0 where
  pub hash_hex : Bytes → Bytes
  pub marshal_list : ℕ → ℕ → List EncryptedPlaceholder → Bytes
  pub marshal_lists : ℕ → List InclusionList → Bytes
  pub marshal_items : ℕ → List EncryptedPlaceholder → ℕ → Bytes

pub record MergeCandidate : Type 0 where
  pub item : EncryptedPlaceholder
  pub fee : ℕ

abbrev pub or_default : Bytes → Bytes → Bytes
or_default [] d = d
or_default (c ∷ s) d = c ∷ s

-- The ASCII text of "placeholder" and of "0".
abbrev pub placeholder_kind : Bytes
placeholder_kind = 112 ∷ 108 ∷ 97 ∷ 99 ∷ 101 ∷ 104 ∷ 111 ∷ 108 ∷ 100 ∷ 101 ∷ 114 ∷ []

abbrev pub zero_text : Bytes
zero_text = 48 ∷ []

unfoldable pub parse_big_int : Bytes → Option ℕ
parse_big_int raw = signed_decimal (or_default (trim_space raw) zero_text)

unfoldable pub placeholders_equal : EncryptedPlaceholder → EncryptedPlaceholder → Bool
placeholders_equal l r =
    bytes_eq l.hash r.hash
    && bytes_eq l.ciphertext r.ciphertext
    && l.gas == r.gas
    && bytes_eq l.effective_fee_per_gas_wei r.effective_fee_per_gas_wei
    && bytes_eq l.from r.from
    && l.nonce == r.nonce
    && bytes_eq l.kind r.kind

-- Higher fees first; then by sender, nonce and hash.
unfoldable pub candidate_before : MergeCandidate → MergeCandidate → Bool
candidate_before a b =
    if not (a.fee == b.fee)
    then ltb b.fee a.fee
    else if not (bytes_eq a.item.from b.item.from)
    then bytes_lt a.item.from b.item.from
    else if not (a.item.nonce == b.item.nonce)
    then ltb a.item.nonce b.item.nonce
    else bytes_lt a.item.hash b.item.hash

unfoldable pub insert_candidate : MergeCandidate → List MergeCandidate → List MergeCandidate
unfolding candidate_before
insert_candidate c [] = c ∷ []
insert_candidate c (d ∷ ds) =
    let rest = insert_candidate c ds in if candidate_before d c then d ∷ rest else c ∷ d ∷ ds

-- sort.Slice: any sorting by an order that is total on distinct hashes gives this list.
unfoldable pub sort_candidates : List MergeCandidate → List MergeCandidate
unfolding insert_candidate
sort_candidates [] = []
sort_candidates (c ∷ cs) = insert_candidate c (sort_candidates cs)

-- A zero or oversized cap counts as `bmax`.
unfoldable pub effective_max_decrypted_txs : BlockspaceConfig → ℕ → ℕ
effective_max_decrypted_txs b bmax =
    if bmax == 0
    then 0
    else if b.max_decrypted_txs == 0 || ltb bmax b.max_decrypted_txs
    then bmax
    else b.max_decrypted_txs

unfoldable pub encrypted_hashes : List EncryptedPlaceholder → List Bytes
encrypted_hashes [] = []
encrypted_hashes (i ∷ is) = i.hash ∷ encrypted_hashes is

-- The maps `unique` and `validated`: candidates, and items as they came, by normalized hash.
abbrev pub Unique : Type 0
Unique = List MergeCandidate

abbrev pub Validated : Type 0
Validated = List (Bytes × EncryptedPlaceholder)

abbrev pub holds_hash : Bytes → Unique → Bool
holds_hash h [] = false
holds_hash h (c ∷ u) = if bytes_eq c.item.hash h then true else holds_hash h u

abbrev pub validated_for : Bytes → Validated → Option EncryptedPlaceholder
validated_for h [] = none
validated_for h ((g, i) ∷ v) = if bytes_eq g h then some i else validated_for h v

-- The selection under the limits: the items, and the gas that they use (a uint64).
unfoldable pub select :
    ℕ → ℕ → List EncryptedPlaceholder → ℕ → List MergeCandidate → List EncryptedPlaceholder × ℕ
select max_txs max_gas selected gas [] = (selected, gas)
select max_txs max_gas selected gas (c ∷ cs) =
    let taken = select max_txs max_gas (selected ++ c.item ∷ []) ((gas + c.item.gas) % 2 ^ 64) cs in
    let passed = select max_txs max_gas selected gas cs in
    if leb max_txs (length selected)
    then (selected, gas)
    else if ltb 0 max_gas && ltb (sub64 max_gas gas) c.item.gas
    then passed
    else taken

abbrev pub total_items : List InclusionList → ℕ
total_items [] = 0
total_items (l ∷ ls) = length l.items + total_items ls

unfoldable pub list_before : InclusionList → InclusionList → Bool
list_before a b =
    if not (bytes_eq a.hash b.hash) then bytes_lt a.hash b.hash else ltb a.operator_id b.operator_id

unfoldable pub insert_list : InclusionList → List InclusionList → List InclusionList
unfolding list_before
insert_list l [] = l ∷ []
insert_list l (m ∷ ms) =
    let rest = insert_list l ms in if list_before m l then m ∷ rest else l ∷ m ∷ ms

unfoldable pub sort_lists : List InclusionList → List InclusionList
unfolding insert_list
sort_lists [] = []
sort_lists (l ∷ ls) = insert_list l (sort_lists ls)

module _ (h : Hashing) where
  open h use {hash_hex, marshal_list, marshal_lists, marshal_items}

  -- The Hash field is excluded.
  abbrev pub hash_inclusion_list : InclusionList → Bytes
  hash_inclusion_list l = hash_hex (marshal_list l.slot l.operator_id l.items)

  abbrev pub rehash : List InclusionList → List InclusionList
  rehash [] = []
  rehash (l ∷ ls) = record l { hash = hash_inclusion_list l } ∷ rehash ls

  unfoldable pub new_agreed_set : ℕ → List InclusionList → AgreedInclusionSet
  unfolding sort_lists
  new_agreed_set slot lists =
      let canonical = sort_lists (rehash lists) in
      record {
        slot = slot;
        lists = canonical;
        hash = hash_hex (marshal_lists slot canonical);
        total_items = total_items canonical;
      }

  abbrev pub canonical_item : EncryptedPlaceholder → Bytes → EncryptedPlaceholder
  canonical_item i hash = record i {
    hash = hash;
    from = to_lower i.from;
    kind = or_default i.kind placeholder_kind;
    effective_fee_per_gas_wei = or_default i.effective_fee_per_gas_wei zero_text;
  }

  unfoldable pub normalize_placeholder : EncryptedPlaceholder → Option MergeCandidate
  normalize_placeholder i =
      if is_nil i.ciphertext || i.gas == 0
      then none
      else elim (parse_big_int i.effective_fee_per_gas_wei) [
        | none ↦ none
        | some fee ↦
            let computed = hash_hex i.ciphertext in
            let normalized = trim_0x (to_lower (or_default i.hash computed)) in
            if bytes_eq normalized computed
            then some (record { item = canonical_item i normalized; fee = fee })
            else none
      ]

  abbrev pub claimed_hash : EncryptedPlaceholder → Bytes
  claimed_hash i = trim_0x (to_lower i.hash)

  -- Whether an equal item was validated under the hash that this one claims.
  abbrev pub seen_before : EncryptedPlaceholder → Validated → Bool
  seen_before i v = elim (validated_for (claimed_hash i) v) [
    | none ↦ false
    | some prior ↦ not (is_nil (claimed_hash i)) && placeholders_equal prior i
  ]

  abbrev pub admit : EncryptedPlaceholder → Unique × Validated → Unique × Validated
  admit i (u, v) = elim (normalize_placeholder i) [
    | none ↦ (u, v)
    | some c ↦ if holds_hash c.item.hash u then (u, v) else (c ∷ u, (c.item.hash, i) ∷ v)
  ]

  -- One item of the deduplication, and the loops over the items and the lists.
  unfoldable pub dedupe_item : EncryptedPlaceholder → Unique × Validated → Unique × Validated
  unfolding placeholders_equal normalize_placeholder parse_big_int
  dedupe_item i (u, v) = if seen_before i v then (u, v) else admit i (u, v)

  unfoldable pub dedupe_items : List EncryptedPlaceholder → Unique × Validated → Unique × Validated
  unfolding dedupe_item
  dedupe_items [] m = m
  dedupe_items (i ∷ is) m = dedupe_items is (dedupe_item i m)

  unfoldable pub dedupe_lists : List InclusionList → Unique × Validated → Unique × Validated
  unfolding dedupe_items
  dedupe_lists [] m = m
  dedupe_lists (l ∷ ls) m = dedupe_lists ls (dedupe_items l.items m)

  -- The rest of `Merge`, from the candidates in the order in which the map was ranged over.
  abbrev pub merge_ranged : ℕ → Unique → BlockspaceConfig → ℕ → MergedEncryptedSet
  merge_ranged slot ranged blockspace bmax =
      let candidates = sort_candidates ranged in
      let (items, gas) =
        select (effective_max_decrypted_txs blockspace bmax) blockspace.max_decrypted_gas [] 0
          candidates in
      record {
        slot = slot;
        items = items;
        hash = hash_hex (marshal_items slot items gas);
        selected_gas = gas;
        skipped_items = length candidates - length items;
      }

  -- With one order of the map.
  unfoldable pub merge : ℕ → List InclusionList → BlockspaceConfig → ℕ → MergedEncryptedSet
  unfolding dedupe_lists sort_candidates effective_max_decrypted_txs select
  merge slot lists blockspace bmax =
      merge_ranged slot (dedupe_lists lists ([], [])).0 blockspace bmax
