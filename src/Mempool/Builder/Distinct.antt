-- ===== src/Mempool/Builder/Distinct.antt =====
-- What an inclusion list consists of (mempool-il/internal/inclusion/builder.go): no hash twice, and
-- no item without a hash or without gas.
use mathlib.Core.List.{
  Mem, Nodup, Perm, Sublistᴰ, Nodup-cons, Nodup-nil, mem-cons, not-mem-nil, append-nil,
  append_assoc,
}
use mathlib.Core.List.Perm
use mathlib.Core.List.Nodup
use mathlib.Core.Logic.Or
use bloc.Prelude.{
  ℕ, ◌<◌, ◌≡◌, refl, subst, sym, ap, ◌∙◌, Bool, true, false, ◌||◌, List, [], ◌∷◌, ◌++◌, map, arith,
  ◌==◌, ltb, leb, if_cases, is_nil, length, Bool-cases, inl, inr, All,
}
use bloc.Prelude.Words.{sub64, add64}
use bloc.Prelude.Bytes.{Bytes, bytes_eq_iff}
use bloc.Mempool.{Transaction}
use bloc.Mempool.Store.{Snapshot}
use bloc.Mempool.Builder.{
  BuilderConfig, Item, item_of, seen_hash, candidates, pays_more, insert_by_fee, sort_by_fee, pick,
  build_with,
}

abbrev pub item_hashes : List Item → List Bytes
item_hashes [] = []
item_hashes (i ∷ is) = i.hash ∷ item_hashes is

abbrev hashes : List Transaction → List Bytes
hashes txs = item_hashes (map item_of txs)

abbrev pub IsPriced : Item → Type 0
IsPriced i = (is_nil i.hash ≡ false) × (0 < i.gas)

abbrev AllPriced : List Transaction → Type 0
AllPriced txs = All IsPriced (map item_of txs)

-- A candidate is priced, and its hash is not among those seen before.
abbrev Fresh : List Bytes → List Transaction → Type 0
Fresh seen [] = Unit
Fresh seen (t ∷ ts) = (seen_hash t.hash seen ≡ false) × Fresh seen ts

Fresh-fewer :
    (g : Bytes) (seen : List Bytes) (ts : List Transaction) → Fresh (g ∷ seen) ts → Fresh seen ts
Fresh-fewer g seen [] f = tt
Fresh-fewer g seen (t ∷ ts) f = (ground (arith, f.0), Fresh-fewer g seen ts f.1)

candidates-Fresh : (seen : List Bytes) (txs : List Transaction) → Fresh seen (candidates seen txs)
unfolding candidates
candidates-Fresh seen [] = tt
candidates-Fresh seen (tx ∷ txs) =
    if_cases (Fresh seen) (is_nil tx.hash || tx.gas == 0) _ _ (λ e. candidates-Fresh seen txs)
      λ e.
        if_cases (Fresh seen) (seen_hash tx.hash seen) _ _ (λ old. candidates-Fresh seen txs)
          λ new. (new, Fresh-fewer tx.hash seen _ (candidates-Fresh (tx.hash ∷ seen) txs))

not-mem_of_Fresh :
    (g : Bytes) (seen : List Bytes) (ts : List Transaction)
    → Fresh (g ∷ seen) ts
    → ¬ Mem g (hashes ts)
not-mem_of_Fresh g seen [] f m = not-mem-nil m
not-mem_of_Fresh g seen (t ∷ ts) f m =
    Or.elim (λ a b. absurd a) (mem-cons.0 m) (λ q. ground (arith, f.0, bytes_eq_iff g t.hash))
      (not-mem_of_Fresh g seen ts f.1)

candidates-Nodup :
    (seen : List Bytes) (txs : List Transaction) → Nodup (hashes (candidates seen txs))
unfolding candidates
candidates-Nodup seen [] = Nodup-nil
candidates-Nodup seen (tx ∷ txs) =
    if_cases Distinct (is_nil tx.hash || tx.gas == 0) _ _ (λ e. candidates-Nodup seen txs)
      λ e.
        if_cases Distinct (seen_hash tx.hash seen) _ _ (λ old. candidates-Nodup seen txs)
          λ new. Nodup-cons.1 (
            not-mem_of_Fresh tx.hash seen _ (candidates-Fresh (tx.hash ∷ seen) txs),
            candidates-Nodup (tx.hash ∷ seen) txs,
          )
  where
    Distinct : List Transaction → Type 0
    Distinct ts = Nodup (hashes ts)

candidates-AllPriced :
    (seen : List Bytes) (txs : List Transaction) → AllPriced (candidates seen txs)
unfolding candidates
candidates-AllPriced seen [] = tt
candidates-AllPriced seen (tx ∷ txs) =
    if_cases AllPriced (is_nil tx.hash || tx.gas == 0) _ _ (λ e. candidates-AllPriced seen txs)
      λ e.
        if_cases AllPriced (seen_hash tx.hash seen) _ _ (λ old. candidates-AllPriced seen txs)
          λ new. ((ground arith, ground arith), candidates-AllPriced (tx.hash ∷ seen) txs)

insert-perm :
    (t : Transaction) (ts : List Transaction)
    → Perm (hashes (insert_by_fee t ts)) (t.hash ∷ hashes ts)
unfolding insert_by_fee
insert-perm t [] = Perm.rfl
insert-perm t (u ∷ us) = elim (Bool-cases (pays_more u t)) [
  | inl e ↦
      rw (e, insert_by_fee)
        (Perm.trans (Perm.cons u.hash (insert-perm t us)) (Perm.swap t.hash u.hash (hashes us)))
  | inr e ↦ rw (e, insert_by_fee) Perm.rfl
]

sort-perm : (ts : List Transaction) → Perm (hashes (sort_by_fee ts)) (hashes ts)
unfolding sort_by_fee
sort-perm [] = Perm.rfl
sort-perm (t ∷ ts) = Perm.trans (insert-perm t (sort_by_fee ts)) (Perm.cons t.hash (sort-perm ts))

insert-AllPriced :
    (t : Transaction) (ts : List Transaction)
    → IsPriced (item_of t)
    → AllPriced ts
    → AllPriced (insert_by_fee t ts)
unfolding insert_by_fee
insert-AllPriced t [] p k = (p, tt)
insert-AllPriced t (u ∷ us) p k = elim (Bool-cases (pays_more u t)) [
  | inl e ↦ rw (e, insert_by_fee) (k.0, insert-AllPriced t us p k.1)
  | inr e ↦ rw (e, insert_by_fee) (p, k)
]

sort-AllPriced : (ts : List Transaction) → AllPriced ts → AllPriced (sort_by_fee ts)
unfolding sort_by_fee
sort-AllPriced [] k = tt
sort-AllPriced (t ∷ ts) k = insert-AllPriced t (sort_by_fee ts) k.0 (sort-AllPriced ts k.1)

-- What is picked after `items` comes from the candidates, in their order.
pick-picks :
    (cfg : BuilderConfig) (items : List Item) (gas : ℕ) (txs : List Transaction)
    → (picks : List Item) × ((pick cfg items gas txs).0 ≡ items ++ picks)
      × Sublistᴰ picks (map item_of txs)
unfolding pick
pick-picks cfg items gas [] = ([], sym (append-nil items), Sublistᴰ.slnil)
pick-picks cfg items gas (tx ∷ txs) =
    let later = pick-picks cfg items gas txs in
    let (picks, e, s) = pick-picks cfg (items ++ item_of tx ∷ []) (add64 gas tx.gas) txs in
    if_cases Picked (leb cfg.max_transactions (length items)) _ _
      (λ full. ([], sym (append-nil items), nothing (map item_of (tx ∷ txs))))
      λ room.
        if_cases Picked (ltb (sub64 cfg.max_gas gas) tx.gas) _ _
          (λ big. (later.0, later.1, Sublistᴰ.cons later.2))
          λ fit. (
            item_of tx ∷ picks,
            e ∙ append_assoc items (item_of tx ∷ []) picks,
            Sublistᴰ.cons-cons refl s,
          )
  where
    Picked : List Item × ℕ → Type 0
    Picked r =
        (picks : List Item) × (r.0 ≡ items ++ picks) × Sublistᴰ picks (map item_of (tx ∷ txs))

    nothing : (is : List Item) → Sublistᴰ [] is
    nothing [] = Sublistᴰ.slnil
    nothing (i ∷ is) = Sublistᴰ.cons (nothing is)

hashes-Sublist : {is js : List Item} → Sublistᴰ is js → Sublistᴰ (item_hashes is) (item_hashes js)
hashes-Sublist Sublistᴰ.slnil = Sublistᴰ.slnil
hashes-Sublist (Sublistᴰ.cons s) = Sublistᴰ.cons (hashes-Sublist s)
hashes-Sublist (Sublistᴰ.cons-cons e s) = Sublistᴰ.cons-cons (ap (λ i. i.hash) e) (hashes-Sublist s)

AllPriced-Sublist : {is js : List Item} → Sublistᴰ is js → All IsPriced js → All IsPriced is
AllPriced-Sublist Sublistᴰ.slnil k = tt
AllPriced-Sublist (Sublistᴰ.cons s) k = AllPriced-Sublist s k.1
AllPriced-Sublist (Sublistᴰ.cons-cons e s) k = (subst IsPriced (sym e) k.0, AllPriced-Sublist s k.1)

picked-distinct :
    (cfg : BuilderConfig) (txs : List Transaction)
    → AllPriced txs
    → Nodup (hashes txs)
    → All IsPriced (pick cfg [] 0 txs).0 × Nodup (item_hashes (pick cfg [] 0 txs).0)
picked-distinct cfg txs k d =
    let (picks, e, s) = pick-picks cfg [] 0 txs in
    (
      subst (All IsPriced) (sym e) (AllPriced-Sublist s k),
      subst (λ is. Nodup (item_hashes is)) (sym e) (Nodup.sublist ∣ hashes-Sublist s ∣₁ d),
    )

-- Sorted by fee or not, every item of a list has a hash and gas, and no hash occurs twice, whatever
-- the snapshot holds.
pub build-distinct :
    (cfg : BuilderConfig) (hash_hex : Bytes → Bytes) (by_fee : Bool) (snap : Snapshot)
    → let l = build_with cfg hash_hex by_fee snap in
      All IsPriced l.items × Nodup (item_hashes l.items)
unfolding build_with
build-distinct cfg hash_hex true snap =
    let found = candidates [] snap.transactions in
    picked-distinct cfg (sort_by_fee found)
      (sort-AllPriced found (candidates-AllPriced [] snap.transactions))
      (Perm.nodup (Perm.symm (sort-perm found)) (candidates-Nodup [] snap.transactions))
build-distinct cfg hash_hex false snap =
    picked-distinct cfg (candidates [] snap.transactions)
      (candidates-AllPriced [] snap.transactions) (candidates-Nodup [] snap.transactions)
