-- ===== src/Mempool/Builder/Limits.antt =====
-- The limits of an inclusion list (mempool-il/internal/inclusion/builder.go).
use bloc.Prelude.{
  ℕ, ◌+◌, ◌-◌, ◌^◌, ◌≤◌, ◌<◌, ◌≡◌, refl, Bool, false, List, [], ◌∷◌, ◌++◌, arith, leb, ltb,
  if◌then◌else◌, if_cases, length, length-append,
}
use bloc.Prelude.Words.{sub64, add64}
use bloc.Prelude.Bytes.{Bytes}
use bloc.Mempool.{Transaction}
use bloc.Mempool.Store.{Snapshot}
use bloc.Mempool.Builder.{
  BuilderConfig, new_builder, Item, item_of, pick, candidates, sort_by_fee, build_with,
}

abbrev pub sum_gas : List Item → ℕ
sum_gas [] = 0
sum_gas (i ∷ is) = i.gas + sum_gas is

sum_gas-append_one : (is : List Item) (i : Item) → sum_gas (is ++ i ∷ []) ≡ sum_gas is + i.gas
sum_gas-append_one [] i = omega arith
sum_gas-append_one (j ∷ is) i = omega (arith, sum_gas-append_one is i)

-- What has been picked keeps the limits.
pub record Within (cfg : BuilderConfig) (r : List Item × ℕ) : Type 0 where
  pub few : length r.0 ≤ cfg.max_transactions
  pub exact : r.1 ≡ sum_gas r.0
  pub fits : r.1 ≤ cfg.max_gas

taken-Within :
    (cfg : BuilderConfig) (items : List Item) (gas : ℕ) (i : Item)
    → cfg.max_gas < 2 ^ 64
    → Within cfg (items, gas)
    → leb cfg.max_transactions (length items) ≡ false
    → ltb (sub64 cfg.max_gas gas) i.gas ≡ false
    → Within cfg (items ++ i ∷ [], add64 gas i.gas)
taken-Within cfg items gas i small w room fit =
    let sums = sum_gas-append_one items i in
    let more = length-append items (i ∷ []) in
    let left : i.gas ≤ cfg.max_gas - gas = ground (arith, w.fits) in
    record {
      few = ground (arith, w.few);
      exact = omega (arith, w.exact, w.fits);
      fits = omega (arith, w.fits);
    }

pick-Within :
    (cfg : BuilderConfig) (items : List Item) (gas : ℕ) (txs : List Transaction)
    → cfg.max_gas < 2 ^ 64
    → Within cfg (items, gas)
    → Within cfg (pick cfg items gas txs)
unfolding pick
pick-Within cfg items gas [] small w = w
pick-Within cfg items gas (tx ∷ txs) small w =
    if_cases (Within cfg) (leb cfg.max_transactions (length items)) _ _ (λ full. w)
      λ room.
        if_cases (Within cfg) (ltb (sub64 cfg.max_gas gas) tx.gas) _ _
          (λ big. pick-Within cfg items gas txs small w)
          λ fit.
            pick-Within cfg (items ++ item_of tx ∷ []) (add64 gas tx.gas) txs small
              (taken-Within cfg items gas (item_of tx) small w room fit)

max_gas-small : (cfg : BuilderConfig) → cfg.max_gas < 2 ^ 64 → (new_builder cfg).max_gas < 2 ^ 64
unfolding new_builder
max_gas-small cfg h = ground arith

-- Whether a list is sorted by fee or not, and the gas limit being a uint64: it has at most as
-- many items as the builder allows, its gas is the exact sum of its items' and within the limit,
-- and its count is the number of items.
pub build-limits :
    (cfg : BuilderConfig) (hash_hex : Bytes → Bytes) (by_fee : Bool) (snap : Snapshot)
    → cfg.max_gas < 2 ^ 64
    → let l = build_with (new_builder cfg) hash_hex by_fee snap in
      (l.count ≡ length l.items)
      × (l.count ≤ (new_builder cfg).max_transactions)
      × (l.total_gas ≡ sum_gas l.items)
      × (l.total_gas ≤ (new_builder cfg).max_gas)
unfolding build_with
build-limits cfg hash_hex by_fee snap small =
    let found = candidates [] snap.transactions in
    let w =
      pick-Within (new_builder cfg) [] 0 (if by_fee then sort_by_fee found else found)
        (max_gas-small cfg small)
        (record { few = omega arith; exact = refl; fits = omega arith }) in
    (refl, w.few, w.exact, w.fits)
