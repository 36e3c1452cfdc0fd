-- ===== src/Inclusion/Shortcut.antt =====
-- The test for items that were validated before saves work and changes no result
-- (bloc-node/internal/app/inclusion/merge.go, the loops of `Merge`).
use bloc.Prelude.{
  ◌≡◌, refl, subst, sym, true, Option, none, some, List, [], ◌∷◌, arith, Bool-cases, Option-cases,
  inl, inr,
}
use bloc.Prelude.Bytes.{Bytes, bytes_eq, bytes_eq_iff, bytes_eq_self}
use bloc.Inclusion.{
  EncryptedPlaceholder, InclusionList, MergeCandidate, Hashing, Unique, Validated, holds_hash,
  validated_for, placeholders_equal, normalize_placeholder, claimed_hash, seen_before, admit,
  dedupe_item, dedupe_items, dedupe_lists,
}

-- The loops with no shortcut: every item is normalized.
unfoldable pub admit_items :
    Hashing → List EncryptedPlaceholder → Unique × Validated → Unique × Validated
admit_items h [] m = m
admit_items h (i ∷ is) m = admit_items h is (admit h i m)

unfoldable pub admit_lists : Hashing → List InclusionList → Unique × Validated → Unique × Validated
unfolding admit_items
admit_lists h [] m = m
admit_lists h (l ∷ ls) m = admit_lists h ls (admit_items h l.items m)

placeholders_equal-eq : (a b : EncryptedPlaceholder) → placeholders_equal a b ≡ true → a ≡ b
unfolding placeholders_equal
placeholders_equal-eq a b h = ground (
  arith,
  bytes_eq_iff a.hash b.hash,
  bytes_eq_iff a.ciphertext b.ciphertext,
  bytes_eq_iff a.effective_fee_per_gas_wei b.effective_fee_per_gas_wei,
  bytes_eq_iff a.from b.from,
  bytes_eq_iff a.kind b.kind,
)

-- A validated item normalizes to its hash, and a candidate with that hash is there.
abbrev Backed : Hashing → Unique × Validated → Type 0
Backed h (u, v) =
    (g : Bytes) (prior : EncryptedPlaceholder)
    → validated_for g v ≡ some prior
    → (c : MergeCandidate) × (normalize_placeholder h prior ≡ some c)
      × (holds_hash c.item.hash u ≡ true)

extended :
    (h : Hashing) (i : EncryptedPlaceholder) (c : MergeCandidate) (u : Unique) (v : Validated)
    → normalize_placeholder h i ≡ some c
    → Backed h (u, v)
    → Backed h (c ∷ u, (c.item.hash, i) ∷ v)
extended h i c u v e backed g prior found = elim (Bool-cases (bytes_eq c.item.hash g)) [
  | inl hit ↦
      let same : i ≡ prior = ground arith in
      (
        c,
        subst (λ p. normalize_placeholder h p ≡ some c) same e,
        rw (bytes_eq_self c.item.hash) refl,
      )
  | inr miss ↦ let (x, n, old) = backed g prior (ground arith) in (x, n, ground arith)
]

admit-Backed :
    (h : Hashing) (i : EncryptedPlaceholder) (m : Unique × Validated)
    → Backed h m
    → Backed h (admit h i m)
admit-Backed h i (u, v) backed = elim (Option-cases (normalize_placeholder h i)) [
  | inl e ↦ rw (e, admit) backed
  | inr (c, e) ↦ elim (Bool-cases (holds_hash c.item.hash u)) [
    | inl old ↦ rw (e, admit) (rw old backed)
    | inr new ↦ rw (e, admit) (rw new (extended h i c u v e backed))
  ]
]

-- An item that the shortcut drops would have been dropped anyway.
seen-admit :
    (h : Hashing) (i : EncryptedPlaceholder) (u : Unique) (v : Validated)
    → Backed h (u, v)
    → seen_before h i v ≡ true
    → admit h i (u, v) ≡ (u, v)
seen-admit h i u v backed seen = elim (Option-cases (validated_for (claimed_hash h i) v)) [
  | inl e ↦ absurd (ground arith)
  | inr (prior, e) ↦
      let same : prior ≡ i = placeholders_equal-eq prior i (ground arith) in
      let (c, n, old) = backed (claimed_hash h i) prior e in
      let again : normalize_placeholder h i ≡ some c =
        subst (λ p. normalize_placeholder h p ≡ some c) same n in
      rw (again, admit) (rw old refl)
]

dedupe_item-admit :
    (h : Hashing) (i : EncryptedPlaceholder) (m : Unique × Validated)
    → Backed h m
    → dedupe_item h i m ≡ admit h i m
unfolding dedupe_item
dedupe_item-admit h i (u, v) backed = elim (Bool-cases (seen_before h i v)) [
  | inl e ↦ rw (e, dedupe_item) (sym (seen-admit h i u v backed e))
  | inr e ↦ rw (e, dedupe_item) refl
]

dedupe_items-admit :
    (h : Hashing) (is : List EncryptedPlaceholder) (m : Unique × Validated)
    → Backed h m
    → (dedupe_items h is m ≡ admit_items h is m) × Backed h (admit_items h is m)
unfolding dedupe_items admit_items
dedupe_items-admit h [] m backed = (refl, backed)
dedupe_items-admit h (i ∷ is) m backed =
    let (e, kept) = dedupe_items-admit h is (admit h i m) (admit-Backed h i m backed) in
    (rw (dedupe_item-admit h i m backed) e, kept)

dedupe_lists_from :
    (h : Hashing) (ls : List InclusionList) (m : Unique × Validated)
    → Backed h m
    → dedupe_lists h ls m ≡ admit_lists h ls m
unfolding dedupe_lists admit_lists
dedupe_lists_from h [] m backed = refl
dedupe_lists_from h (l ∷ ls) m backed =
    let (e, kept) = dedupe_items-admit h l.items m backed in
    rw e (dedupe_lists_from h ls (admit_items h l.items m) kept)

-- The deduplication with the shortcut gives the same candidates, in the same order, as the one
-- that normalizes every item.
pub dedupe_lists-admit :
    (h : Hashing) (ls : List InclusionList) → dedupe_lists h ls ([], []) ≡ admit_lists h ls ([], [])
dedupe_lists-admit h ls =
    dedupe_lists_from h ls ([], []) (λ g prior e. absurd (nothing_found prior e))
  where
    nothing_found :
        (p : EncryptedPlaceholder) → ◌≡◌ {A = Option EncryptedPlaceholder} none (some p) → ⊥
    nothing_found p e = cc
