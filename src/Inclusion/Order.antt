-- ===== src/Inclusion/Order.antt =====
-- The order of the map of candidates does not matter (bloc-node/internal/app/inclusion/merge.go: the
-- loop over `unique` in `Merge`, `sortCandidates`).
use mathlib.Core.List.{Permᴰ, Nodup, Nodup-cons, mem-cons}
use mathlib.Core.List.Perm
use mathlib.Core.Logic.Or
use bloc.Prelude.{
  ℕ, ◌≡◌, ◌≢◌, refl, ap, ◌∙◌, true, false, List, [], ◌∷◌, arith, Bool-cases, inl, inr,
}
use bloc.Prelude.Bytes.{
  Bytes, bytes_lt, bytes_eq_iff, bytes_lt_irrefl, bytes_lt_trans, bytes_lt-total, bytes_lt-between,
}
use bloc.Inclusion.{
  InclusionList, BlockspaceConfig, MergeCandidate, Hashing, Unique, candidate_before,
  insert_candidate, sort_candidates, dedupe_lists, merge, merge_ranged,
}
use bloc.Inclusion.Canonical.{hashes, dedupe-Nodup}

bytes_lt_asym : (a b : Bytes) → bytes_lt a b ≡ true → bytes_lt b a ≡ false
bytes_lt_asym a b h = elim (Bool-cases (bytes_lt b a)) [
  | inl k ↦ absurd (ground (arith, bytes_lt_trans a b a h k, bytes_lt_irrefl a))
  | inr k ↦ k
]

-- Of two candidates with different hashes one comes before the other.
before_total :
    (c d : MergeCandidate)
    → c.item.hash ≢ d.item.hash
    → candidate_before c d ≡ false
    → candidate_before d c ≡ true
unfolding candidate_before
before_total c d ne h = ground (
  arith,
  ne,
  bytes_eq_iff c.item.from d.item.from,
  bytes_eq_iff d.item.from c.item.from,
  bytes_lt-total c.item.from d.item.from,
  bytes_lt-total c.item.hash d.item.hash,
)

before_asym : (c d : MergeCandidate) → candidate_before c d ≡ true → candidate_before d c ≡ false
unfolding candidate_before
before_asym c d h = ground (
  arith,
  bytes_eq_iff c.item.from d.item.from,
  bytes_eq_iff d.item.from c.item.from,
  bytes_lt_asym c.item.from d.item.from,
  bytes_lt_asym c.item.hash d.item.hash,
)

before_between :
    (a b c : MergeCandidate)
    → candidate_before a c ≡ true
    → candidate_before a b ≡ false
    → candidate_before b c ≡ true
unfolding candidate_before
before_between a b c h k = ground (
  arith,
  bytes_eq_iff a.item.from b.item.from,
  bytes_eq_iff b.item.from c.item.from,
  bytes_eq_iff a.item.from c.item.from,
  bytes_lt-total a.item.from b.item.from,
  bytes_lt-between a.item.from b.item.from c.item.from,
  bytes_lt-between a.item.hash b.item.hash c.item.hash,
)

insert_comm :
    (c d : MergeCandidate) (cs : List MergeCandidate)
    → c.item.hash ≢ d.item.hash
    → insert_candidate c (insert_candidate d cs) ≡ insert_candidate d (insert_candidate c cs)
unfolding insert_candidate
insert_comm c d [] ne = ground (arith, before_total c d ne, before_asym c d)
insert_comm c d (e ∷ es) ne = ground (
  arith,
  insert_comm c d es ne,
  before_total c d ne,
  before_asym c d,
  before_asym d c,
  before_between e d c,
  before_between e c d,
)

hashes-Perm : {u u' : Unique} → Permᴰ u u' → Permᴰ (hashes u) (hashes u')
hashes-Perm Permᴰ.nil = Permᴰ.nil
hashes-Perm (Permᴰ.cons e p) = Permᴰ.cons (ap (λ c. c.item.hash) e) (hashes-Perm p)
hashes-Perm (Permᴰ.swap e e') = Permᴰ.swap (ap (λ c. c.item.hash) e) (ap (λ c. c.item.hash) e')
hashes-Perm (Permᴰ.trans p q) = Permᴰ.trans (hashes-Perm p) (hashes-Perm q)

-- Candidates with different hashes are sorted alike in whatever order they come.
pub sort-Perm :
    {u u' : Unique} → Permᴰ u u' → Nodup (hashes u) → sort_candidates u ≡ sort_candidates u'
unfolding sort_candidates
sort-Perm Permᴰ.nil nd = refl
sort-Perm (Permᴰ.cons {b = b} {l₁ = l} e p) nd =
    ap (λ c. insert_candidate c (sort_candidates l)) e
    ∙ ap (insert_candidate b) (sort-Perm p (Nodup-cons.0 nd).1)
sort-Perm (Permᴰ.swap {a = a} {b = b} {a' = a'} {l = l} e e') nd =
    insert_comm a b (sort_candidates l) (λ same. (Nodup-cons.0 nd).0 (mem-cons.1 (Or.inl same)))
    ∙ ap (λ c. insert_candidate c (insert_candidate a (sort_candidates l))) e'
    ∙ ap (λ c. insert_candidate a' (insert_candidate c (sort_candidates l))) e
sort-Perm (Permᴰ.trans p q) nd = sort-Perm p nd ∙ sort-Perm q (Perm.nodup ∣ hashes-Perm p ∣₁ nd)

-- Whatever order the map of candidates is ranged over, the merged set is the same.
pub merge-ranged :
    (h : Hashing) (slot : ℕ) (lists : List InclusionList) (ranged : Unique) (b : BlockspaceConfig)
    (bmax : ℕ)
    → Permᴰ (dedupe_lists h lists ([], [])).0 ranged
    → merge_ranged h slot ranged b bmax ≡ merge h slot lists b bmax
unfolding merge
merge-ranged h slot lists ranged b bmax p = rw (sort-Perm p (dedupe-Nodup h lists)) refl
