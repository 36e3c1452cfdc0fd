-- ===== src/Inclusion/Canonical.antt =====
-- What the merged set consists of (bloc-node/internal/app/inclusion/merge.go): each ciphertext at
-- most once, under its own hash.
use mathlib.Core.List.{Mem, Nodup, Perm, Sublistᴰ, Nodup-cons, Nodup-nil, mem-cons, not-mem-nil}
use mathlib.Core.List.Perm
use mathlib.Core.List.Nodup
use mathlib.Core.Logic.Or
use bloc.Prelude.{
  ℕ, ◌<◌, ◌≡◌, refl, subst, sym, ap, false, some, List, [], ◌∷◌, map, arith, is_nil, Bool-cases,
  Option-cases, inl, inr, All,
}
use bloc.Prelude.Bytes.{Bytes, bytes_eq_iff}
use bloc.Prelude.Text.{to_lower, trim_0x}
use bloc.Inclusion.{
  or_default, EncryptedPlaceholder, InclusionList, BlockspaceConfig, MergeCandidate, Hashing,
  Unique, Validated, holds_hash, normalize_placeholder, admit, parse_big_int, encrypted_hashes,
  sort_candidates, insert_candidate, candidate_before, merge, effective_max_decrypted_txs,
  dedupe_lists,
}
use bloc.Inclusion.Selection.{select-picks}
use bloc.Inclusion.Shortcut.{admit_items, admit_lists, dedupe_lists-admit}

-- A candidate stands under the hash of its ciphertext, and asks for gas.
abbrev pub IsCanonical : Hashing → EncryptedPlaceholder → Type 0
IsCanonical h i = (i.hash ≡ h.hash_hex i.ciphertext) × (is_nil i.ciphertext ≡ false) × (0 < i.gas)

normalize-IsCanonical :
    (h : Hashing) (i : EncryptedPlaceholder) (c : MergeCandidate)
    → normalize_placeholder h i ≡ some c
    → IsCanonical h c.item
unfolding normalize_placeholder
normalize-IsCanonical h i c e = elim (Option-cases (parse_big_int i.effective_fee_per_gas_wei)) [
  | inl q ↦ absurd (ground arith)
  | inr (fee, q) ↦ ground (
    arith,
    bytes_eq_iff (trim_0x (to_lower (or_default i.hash (h.hash_hex i.ciphertext))))
        (h.hash_hex i.ciphertext),
  )
]

-- The candidates so far have different hashes, and all are canonical.
abbrev Collected : Hashing → Unique → Type 0
Collected h [] = Unit
Collected h (c ∷ u) = IsCanonical h c.item × (holds_hash c.item.hash u ≡ false) × Collected h u

admit-Collected :
    (h : Hashing) (i : EncryptedPlaceholder) (m : Unique × Validated)
    → Collected h m.0
    → Collected h (admit h i m).0
admit-Collected h i (u, v) k = elim (Option-cases (normalize_placeholder h i)) [
  | inl e ↦ rw (e, admit) k
  | inr (c, e) ↦ elim (Bool-cases (holds_hash c.item.hash u)) [
    | inl old ↦ rw (e, admit) (rw old k)
    | inr new ↦ rw (e, admit) (rw new (normalize-IsCanonical h i c e, new, k))
  ]
]

admit_items-Collected :
    (h : Hashing) (is : List EncryptedPlaceholder) (m : Unique × Validated)
    → Collected h m.0
    → Collected h (admit_items h is m).0
unfolding admit_items
admit_items-Collected h [] m k = k
admit_items-Collected h (i ∷ is) m k = admit_items-Collected h is _ (admit-Collected h i m k)

admit_lists-Collected :
    (h : Hashing) (ls : List InclusionList) (m : Unique × Validated)
    → Collected h m.0
    → Collected h (admit_lists h ls m).0
unfolding admit_lists
admit_lists-Collected h [] m k = k
admit_lists-Collected h (l ∷ ls) m k =
    admit_lists-Collected h ls _ (admit_items-Collected h l.items m k)

abbrev pub hashes : List MergeCandidate → List Bytes
hashes [] = []
hashes (c ∷ cs) = c.item.hash ∷ hashes cs

not-mem_of_holds : (g : Bytes) (u : Unique) → holds_hash g u ≡ false → ¬ Mem g (hashes u)
not-mem_of_holds g [] e m = not-mem-nil m
not-mem_of_holds g (c ∷ u) e m =
    Or.elim (λ a b. absurd a) (mem-cons.0 m) (λ q. ground (arith, bytes_eq_iff c.item.hash g))
      (not-mem_of_holds g u (ground arith))

Collected-Nodup : (h : Hashing) (u : Unique) → Collected h u → Nodup (hashes u)
Collected-Nodup h [] k = Nodup-nil
Collected-Nodup h (c ∷ u) k =
    Nodup-cons.1 (not-mem_of_holds c.item.hash u k.1, Collected-Nodup h u k.2)

insert-perm :
    (c : MergeCandidate) (cs : List MergeCandidate)
    → Perm (hashes (insert_candidate c cs)) (c.item.hash ∷ hashes cs)
unfolding insert_candidate
insert-perm c [] = Perm.rfl
insert-perm c (d ∷ ds) = elim (Bool-cases (candidate_before d c)) [
  | inl e ↦
      rw (e, insert_candidate)
        (Perm.trans (Perm.cons d.item.hash (insert-perm c ds))
          (Perm.swap c.item.hash d.item.hash (hashes ds)))
  | inr e ↦ rw (e, insert_candidate) Perm.rfl
]

sort-perm : (cs : List MergeCandidate) → Perm (hashes (sort_candidates cs)) (hashes cs)
unfolding sort_candidates
sort-perm [] = Perm.rfl
sort-perm (c ∷ cs) =
    Perm.trans (insert-perm c (sort_candidates cs)) (Perm.cons c.item.hash (sort-perm cs))

hashes-Sublist :
    {is js : List EncryptedPlaceholder}
    → Sublistᴰ is js
    → Sublistᴰ (encrypted_hashes is) (encrypted_hashes js)
unfolding encrypted_hashes
hashes-Sublist Sublistᴰ.slnil = Sublistᴰ.slnil
hashes-Sublist (Sublistᴰ.cons s) = Sublistᴰ.cons (hashes-Sublist s)
hashes-Sublist (Sublistᴰ.cons-cons e s) = Sublistᴰ.cons-cons (ap (λ i. i.hash) e) (hashes-Sublist s)

hashes_of_items : (cs : List MergeCandidate) → encrypted_hashes (map (λ c. c.item) cs) ≡ hashes cs
unfolding encrypted_hashes
hashes_of_items [] = refl
hashes_of_items (c ∷ cs) = ap (◌∷◌ c.item.hash) (hashes_of_items cs)

All-Sublist {κ} :
    (P : EncryptedPlaceholder → Type κ) {is js : List EncryptedPlaceholder}
    → Sublistᴰ is js
    → All P js
    → All P is
All-Sublist P Sublistᴰ.slnil k = tt
All-Sublist P (Sublistᴰ.cons s) k = All-Sublist P s k.1
All-Sublist P (Sublistᴰ.cons-cons e s) k = (subst P (sym e) k.0, All-Sublist P s k.1)

abbrev AllItems : (EncryptedPlaceholder → Type 0) → List MergeCandidate → Type 0
AllItems P cs = All P (map (λ c. c.item) cs)

AllItems-insert :
    (P : EncryptedPlaceholder → Type 0) (c : MergeCandidate) (cs : List MergeCandidate)
    → P c.item
    → AllItems P cs
    → AllItems P (insert_candidate c cs)
unfolding insert_candidate
AllItems-insert P c [] p k = (p, tt)
AllItems-insert P c (d ∷ ds) p k = elim (Bool-cases (candidate_before d c)) [
  | inl e ↦ rw (e, insert_candidate) (k.0, AllItems-insert P c ds p k.1)
  | inr e ↦ rw (e, insert_candidate) (p, k)
]

AllItems-sort :
    (h : Hashing) (u : Unique) → Collected h u → AllItems (IsCanonical h) (sort_candidates u)
unfolding sort_candidates
AllItems-sort h [] k = tt
AllItems-sort h (c ∷ u) k =
    AllItems-insert (IsCanonical h) c (sort_candidates u) k.0 (AllItems-sort h u k.2)

dedupe-Collected :
    (h : Hashing) (lists : List InclusionList) → Collected h (dedupe_lists h lists ([], [])).0
dedupe-Collected h lists =
    subst (λ (m : Unique × Validated). Collected h m.0) (sym (dedupe_lists-admit h lists))
      (admit_lists-Collected h lists ([], []) tt)

-- The candidates have different hashes.
pub dedupe-Nodup :
    (h : Hashing) (lists : List InclusionList) → Nodup (hashes (dedupe_lists h lists ([], [])).0)
dedupe-Nodup h lists = Collected-Nodup h _ (dedupe-Collected h lists)

-- Every merged item stands under the hash of its own, non-empty ciphertext and asks for gas, and no
-- hash occurs twice, whatever the lists hold.
pub merge-IsCanonical :
    (h : Hashing) (slot : ℕ) (lists : List InclusionList) (b : BlockspaceConfig) (bmax : ℕ)
    → let m = merge h slot lists b bmax in
      All (IsCanonical h) m.items × Nodup (encrypted_hashes m.items)
unfolding merge
merge-IsCanonical h slot lists b bmax =
    let u : Unique = (dedupe_lists h lists ([], [])).0 in
    let k : Collected h u = dedupe-Collected h lists in
    let (picks, e, s) =
      select-picks (effective_max_decrypted_txs b bmax) b.max_decrypted_gas [] 0
        (sort_candidates u) in
    (
      subst (All (IsCanonical h)) (sym e) (All-Sublist (IsCanonical h) s (AllItems-sort h u k)),
      subst (λ is. Nodup (encrypted_hashes is)) (sym e)
          (Nodup.sublist ∣ hashes-Sublist s ∣₁ (
            rw (hashes_of_items (sort_candidates u))
              (Perm.nodup (Perm.symm (sort-perm u)) (Collected-Nodup h u k)))),
    )
