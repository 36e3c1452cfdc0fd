-- ===== src/Mempool/Store/Lookup.antt =====
-- What the store holds after a replacement, and what a snapshot shows of it
-- (mempool-il/internal/mempool/store.go).
use bloc.Prelude.{
  ◌≡◌, refl, ap, ◌∙◌, Option, none, some, List, [], ◌∷◌, arith, if◌then◌else◌, Bool-cases, inl, inr,
  Option-cases,
}
use bloc.Prelude.Bytes.{Bytes, bytes_eq, bytes_eq_iff}
use bloc.Mempool.{Transaction}
use bloc.Mempool.Store.{
  Store, put, put_all, replace_all, snapshot, sort_stored, insert_stored, stored_before,
}

-- The transaction that a list holds under a hash.
abbrev pub found : Bytes → List Transaction → Option Transaction
found h [] = none
found h (t ∷ ts) = let rest = found h ts in if bytes_eq t.hash h then some t else rest

-- The last transaction of a list with a given hash.
abbrev pub last_with : Bytes → List Transaction → Option Transaction
last_with h [] = none
last_with h (t ∷ ts) = elim (last_with h ts) [
  | some u ↦ some u
  | none ↦ if bytes_eq t.hash h then some t else none
]

found-put :
    (h : Bytes) (tx : Transaction) (m : List Transaction)
    → found h (put tx m) ≡ (if bytes_eq tx.hash h then some tx else found h m)
found-put h tx [] = refl
found-put h tx (t ∷ ts) = ground (
  arith,
  found-put h tx ts,
  bytes_eq_iff t.hash tx.hash,
  bytes_eq_iff t.hash h,
  bytes_eq_iff tx.hash h,
)

found-put_all :
    (h : Bytes) (txs m : List Transaction)
    → found h (put_all txs m) ≡ elim (last_with h txs) [ some u ↦ some u | none ↦ found h m ]
found-put_all h [] m = refl
found-put_all h (tx ∷ txs) m = elim (Option-cases (last_with h txs)) [
  | inl e ↦ ground (arith, found-put_all h txs (put tx m), found-put h tx m)
  | inr (u, e) ↦ ground (arith, found-put_all h txs (put tx m))
]

-- No hash stands twice in the map.
abbrev Unique : List Transaction → Type 0
Unique [] = Unit
Unique (t ∷ ts) = (found t.hash ts ≡ none) × Unique ts

put-Unique : (tx : Transaction) (m : List Transaction) → Unique m → Unique (put tx m)
put-Unique tx [] u = (refl, tt)
put-Unique tx (t ∷ ts) u = elim (Bool-cases (bytes_eq t.hash tx.hash)) [
  | inl e ↦ ground (arith, bytes_eq_iff t.hash tx.hash)
  | inr e ↦ ground (
    arith,
    put-Unique tx ts u.1,
    found-put t.hash tx ts,
    bytes_eq_iff t.hash tx.hash,
    bytes_eq_iff tx.hash t.hash,
  )
]

put_all-Unique : (txs m : List Transaction) → Unique m → Unique (put_all txs m)
put_all-Unique [] m u = u
put_all-Unique (tx ∷ txs) m u = put_all-Unique txs (put tx m) (put-Unique tx m u)

found-insert :
    (h : Bytes) (t : Transaction) (us : List Transaction)
    → found t.hash us ≡ none
    → found h (insert_stored t us) ≡ (if bytes_eq t.hash h then some t else found h us)
found-insert h t [] new = refl
found-insert h t (u ∷ us) new = elim (Bool-cases (stored_before u t)) [
  | inl e ↦
      rw (e, insert_stored)
        (ground (
          arith,
          found-insert h t us,
          bytes_eq_iff t.hash h,
          bytes_eq_iff u.hash h,
          bytes_eq_iff u.hash t.hash,
        ))
  | inr e ↦ rw (e, insert_stored) refl
]

found-sort : (h : Bytes) (ts : List Transaction) → Unique ts → found h (sort_stored ts) ≡ found h ts
found-sort h [] u = refl
found-sort h (t ∷ ts) u =
    found-insert h t (sort_stored ts) (found-sort t.hash ts u.1 ∙ u.0)
    ∙ ap (λ o. if bytes_eq t.hash h then some t else o) (found-sort h ts u.1)

-- After a replacement, whatever the store held before, a snapshot shows under each hash the last of
-- the given transactions with that hash, and nothing else.
pub replace_all-snapshot :
    (hash_hex : Bytes → Bytes) (txs : List Transaction) (s : Store) (h : Bytes)
    → found h (snapshot hash_hex (replace_all txs s)).transactions ≡ last_with h txs
unfolding snapshot replace_all
replace_all-snapshot hash_hex txs s h =
    found-sort h (put_all txs []) (put_all-Unique txs [] tt)
    ∙ (found-put_all h txs [] ∙ same (last_with h txs))
  where
    same : (o : Option Transaction) → elim o [ some u ↦ some u | none ↦ none ] ≡ o
    same none = refl
    same (some u) = refl
