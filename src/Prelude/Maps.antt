-- ===== src/Prelude/Maps.antt =====
-- Go maps with number keys, as association lists. A key stands at most once in a map that `insert`
-- builds; the order of the entries is the order in which a `range` loop visits them.
use Prim.Native.Nat.{ℕ, suc, ◌+◌}
use mathlib.Core.Path.{◌≡◌, refl}
use mathlib.Core.Bool.{Bool, true, false}
use mathlib.Core.List.{List, [], ◌∷◌}
use mathlib.Core.Option.{Option, none, some}
use native.Mathlib.Omega.{arith}
use mathlib.Core.Path.{subst}
use mathlib.Core.Logic.{inl, inr}
use bloc.Prelude.Tests.{Bool-cases, if_cases, ==_iff, ◌==◌, if◌then◌else◌}
use bloc.Prelude.Lists.{All, length, count_if}

abbrev pub Map {ℓ} : Type ℓ → Type ℓ
Map V = List (ℕ × V)

module _ {ℓ} {V : Type ℓ} where
  abbrev pub lookup : ℕ → Map V → Option V
  lookup k [] = none
  lookup k ((j, v) ∷ m) = if j == k then some v else lookup k m

  abbrev pub insert : ℕ → V → Map V → Map V
  insert k v [] = (k, v) ∷ []
  insert k v ((j, w) ∷ m) = if j == k then (k, v) ∷ m else (j, w) ∷ insert k v m

  abbrev pub keys : Map V → List ℕ
  keys [] = []
  keys ((j, v) ∷ m) = j ∷ keys m

  abbrev pub has : ℕ → Map V → Bool
  has k [] = false
  has k ((j, v) ∷ m) = if j == k then true else has k m

  -- No key stands twice.
  abbrev pub IsMap : Map V → Type 0
  IsMap [] = Unit
  IsMap ((j, v) ∷ m) = (has j m ≡ false) × IsMap m

  pub lookup-insert :
      (k j : ℕ) (v : V) (m : Map V)
      → lookup j (insert k v m) ≡ (if k == j then some v else lookup j m)
  lookup-insert k j v [] = refl
  lookup-insert k j v ((i, w) ∷ m) = ground (arith, lookup-insert k j v m)

  pub has-insert :
      (k j : ℕ) (v : V) (m : Map V) → has j (insert k v m) ≡ (if k == j then true else has j m)
  has-insert k j v [] = refl
  has-insert k j v ((i, w) ∷ m) = ground (arith, has-insert k j v m)

  pub insert-IsMap : (k : ℕ) (v : V) (m : Map V) → IsMap m → IsMap (insert k v m)
  insert-IsMap k v [] h = (refl, tt)
  insert-IsMap k v ((i, w) ∷ m) h = ground (arith, insert-IsMap k v m h.1, has-insert k i v m)

  pub length-insert :
      (k : ℕ) (v : V) (m : Map V)
      → length (insert k v m) ≡ (if has k m then length m else suc (length m))
  length-insert k v [] = refl
  length-insert k v ((i, w) ∷ m) = ground (arith, length-insert k v m)

  pub has-lookup : (k : ℕ) (m : Map V) → has k m ≡ false → lookup k m ≡ none
  has-lookup k [] h = refl
  has-lookup k ((i, w) ∷ m) h = ground (arith, has-lookup k m)

  pub lookup-has : (k : ℕ) (m : Map V) (v : V) → lookup k m ≡ some v → has k m ≡ true
  lookup-has k [] v h = cc
  lookup-has k ((i, w) ∷ m) v h = ground (arith, lookup-has k m v)

  -- A new key adds its own entry to a count, and nothing else.
  pub count_if-insert :
      (p : ℕ × V → Bool) (k : ℕ) (v : V) (m : Map V)
      → has k m ≡ false
      → count_if p (insert k v m) ≡ count_if p m + (if p (k, v) then 1 else 0)
  count_if-insert p k v [] h = ground arith
  count_if-insert p k v ((i, w) ∷ m) h = ground (arith, count_if-insert p k v m)

  -- A new key hides no entry.
  pub lookup-insert_new :
      (k j : ℕ) (v w : V) (m : Map V)
      → has k m ≡ false
      → lookup j m ≡ some w
      → lookup j (insert k v m) ≡ some w
  lookup-insert_new k j v w [] h e = cc
  lookup-insert_new k j v w ((i, u) ∷ m) h e = ground (arith, lookup-insert_new k j v w m)

  pub lookup-insert_self : (k : ℕ) (v : V) (m : Map V) → lookup k (insert k v m) ≡ some v
  lookup-insert_self k v [] = ground arith
  lookup-insert_self k v ((i, u) ∷ m) = ground (arith, lookup-insert_self k v m)

  -- delete(m, k).
  abbrev pub remove : ℕ → Map V → Map V
  remove k [] = []
  remove k ((j, w) ∷ m) = let rest = remove k m in if j == k then rest else (j, w) ∷ rest

  pub All-insert {κ} :
      (P : ℕ × V → Type κ) (k : ℕ) (v : V) (m : Map V) → All P m → P (k, v) → All P (insert k v m)
  All-insert P k v [] h p = (p, tt)
  All-insert P k v ((i, w) ∷ m) h p =
      if_cases (All P) (i == k) ((k, v) ∷ m) ((i, w) ∷ insert k v m) (λ e. (p, h.1))
        λ e. (h.0, All-insert P k v m h.1 p)

  pub All-lookup {κ} :
      (P : ℕ × V → Type κ) (k : ℕ) (m : Map V) (v : V) → All P m → lookup k m ≡ some v → P (k, v)
  All-lookup P k [] v h e = absurd (none_ne_some e)
    where
      none_ne_some : ◌≡◌ {A = Option V} none (some v) → ⊥
      none_ne_some q = cc
  All-lookup P k ((i, w) ∷ m) v h e = elim (Bool-cases (i == k)) [
    | inl same ↦
        let at : i ≡ k = (==_iff i k).0 same in
        let it : w ≡ v = ground arith in subst (λ j. P (j, v)) at (subst (λ x. P (i, x)) it h.0)
    | inr other ↦ All-lookup P k m v h.1 (ground arith)
  ]
