-- ===== src/Hbbft/Acs/Completion.antt =====
-- When the common subset is complete and what it holds (sbc/hbbft/acs.go, `tryCompleteAgreement`).
use bloc.Prelude.{
  ℕ, ◌-◌, ◌≤◌, ◌≡◌, ◌≢◌, ap, refl, ◌∙◌, Bool, true, false, Option, none, some, List, [], ◌∷◌, arith,
  ◌==◌, if◌then◌else◌, length, contains, Bool-cases, Option-cases, inl, inr, ◌⊎◌,
}
use bloc.Prelude.Maps.{Map, IsMap, has, insert, lookup, lookup-insert, has-lookup}
use bloc.Prelude.Bytes.{Bytes}
use bloc.Hbbft.Acs.{
  Acs, ready_to_complete, waiting_reason, try_complete_agreement, collect_results, insert_id,
  sort_ids, truthy_ids, truthy_ready, count_truthy_agreements,
}

abbrev has_all : Map Bytes → List ℕ → Bool
has_all results [] = true
has_all results (id ∷ ids) = if has id results then has_all results ids else false

has_all-insert_id :
    (results : Map Bytes) (x : ℕ) (ids : List ℕ)
    → has_all results (insert_id x ids) ≡ has_all results (x ∷ ids)
has_all-insert_id results x [] = refl
has_all-insert_id results x (y ∷ ids) = ground (arith, has_all-insert_id results x ids)

has_all-sort_ids :
    (results : Map Bytes) (ids : List ℕ) → has_all results (sort_ids ids) ≡ has_all results ids
has_all-sort_ids results [] = refl
has_all-sort_ids results (x ∷ ids) =
    ground (arith, has_all-insert_id results x (sort_ids ids), has_all-sort_ids results ids)

has_all-truthy_ids :
    (results : Map Bytes) (m : Map Bool) → has_all results (truthy_ids m) ≡ truthy_ready results m
has_all-truthy_ids results [] = refl
has_all-truthy_ids results ((id, v) ∷ m) = ground (arith, has_all-truthy_ids results m)

has-some : (id : ℕ) (m : Map Bytes) → has id m ≡ true → (v : Bytes) × (lookup id m ≡ some v)
has-some id [] h = absurd (cc)
has-some id ((j, w) ∷ m) h = elim (Bool-cases (j == id)) [
  | inl e ↦ (w, ground arith)
  | inr e ↦ let (v, q) = has-some id m (ground arith) in (v, ground arith)
]

-- Results are collected exactly where none is missing.
collect_complete :
    (results : Map Bytes) (ids : List ℕ)
    → has_all results ids ≡ true
    → (m : Map Bytes) × (collect_results results ids ≡ some m)
collect_complete results [] h = ([], refl)
collect_complete results (id ∷ ids) h =
    let (v, e) = has-some id results (ground arith) in
    let (m, q) = collect_complete results ids (ground arith) in (insert id v m, ground arith)

collect-missing :
    (results : Map Bytes) (ids : List ℕ)
    → has_all results ids ≡ false
    → collect_results results ids ≡ none
collect-missing results [] h = cc
collect-missing results (id ∷ ids) h =
    ground (arith, collect-missing results ids, has-lookup id results)

collect-lookup :
    (results : Map Bytes) (ids : List ℕ) (m : Map Bytes) (j : ℕ)
    → collect_results results ids ≡ some m
    → lookup j m ≡ (if contains ids j then lookup j results else none)
collect-lookup results [] m j h = ground arith
collect-lookup results (id ∷ ids) m j h = elim (Option-cases (lookup id results)) [
  | inl e ↦ ground arith
  | inr (v, e) ↦ elim (Option-cases (collect_results results ids)) [
    | inl q ↦ ground arith
    | inr (rest, q) ↦ ground (arith, collect-lookup results ids rest j q, lookup-insert id j v rest)
  ]
]

contains-insert_id : (x j : ℕ) (ids : List ℕ) → contains (insert_id x ids) j ≡ contains (x ∷ ids) j
contains-insert_id x j [] = refl
contains-insert_id x j (y ∷ ids) = ground (arith, contains-insert_id x j ids)

contains-sort_ids : (j : ℕ) (ids : List ℕ) → contains (sort_ids ids) j ≡ contains ids j
contains-sort_ids j [] = refl
contains-sort_ids j (x ∷ ids) =
    ground (arith, contains-insert_id x j (sort_ids ids), contains-sort_ids j ids)

-- The agreement on `j` is true.
abbrev pub agreed : ℕ → Map Bool → Bool
agreed j m = elim (lookup j m) [ none ↦ false | some v ↦ v ]

no_key-no_truth : (j : ℕ) (m : Map Bool) → has j m ≡ false → contains (truthy_ids m) j ≡ false
no_key-no_truth j [] h = refl
no_key-no_truth j ((id, v) ∷ m) h = ground (arith, no_key-no_truth j m)

contains-truthy_ids : (j : ℕ) (m : Map Bool) → IsMap m → contains (truthy_ids m) j ≡ agreed j m
contains-truthy_ids j [] d = refl
contains-truthy_ids j ((id, v) ∷ m) d =
    ground (arith, contains-truthy_ids j m d.1, no_key-no_truth id m d.0)

abbrev collected : Acs → Option (Map Bytes)
collected a = collect_results a.rbc_results (sort_ids (truthy_ids a.bba_results))

collected-ready :
    (a : Acs)
    → truthy_ready a.rbc_results a.bba_results ≡ true
    → (m : Map Bytes) × (collected a ≡ some m)
collected-ready a h = collect_complete a.rbc_results (sort_ids (truthy_ids a.bba_results)) (
    has_all-sort_ids a.rbc_results (truthy_ids a.bba_results)
    ∙ (has_all-truthy_ids a.rbc_results a.bba_results ∙ h))

collected-unready :
    (a : Acs) → truthy_ready a.rbc_results a.bba_results ≡ false → collected a ≡ none
collected-unready a h = collect-missing a.rbc_results (sort_ids (truthy_ids a.bba_results)) (
    has_all-sort_ids a.rbc_results (truthy_ids a.bba_results)
    ∙ (has_all-truthy_ids a.rbc_results a.bba_results ∙ h))

-- An undecided node decides exactly where the waiting reason says that it is ready; otherwise
-- the attempt changes nothing.
pub try_complete-waiting_reason :
    (a : Acs)
    → a.decided ≡ false
    → ((waiting_reason a ≡ ready_to_complete) × ((try_complete_agreement a).decided ≡ true))
      ⊎ ((waiting_reason a ≢ ready_to_complete) × (try_complete_agreement a ≡ a))
unfolding try_complete_agreement waiting_reason
try_complete-waiting_reason a d = elim (Bool-cases (truthy_ready a.rbc_results a.bba_results)) [
  | inl r ↦ let (m, e) = collected-ready a r in ground arith
  | inr r ↦ let e = collected-unready a r in ground arith
]

-- What the attempt on an undecided node gives: a decision with its quorums, and for each node the
-- broadcast value exactly where its agreement is true.
pub record Decision (a : Acs) (m : Map Bytes) : Type 0 where
  pub truthy_quorum : a.n - a.f ≤ count_truthy_agreements a
  pub all_results : a.n ≤ length a.bba_results
  pub subset :
      (j : ℕ) → lookup j m ≡ (if agreed j a.bba_results then lookup j a.rbc_results else none)
  pub no_gap : (j : ℕ) → agreed j a.bba_results ≡ true → has j a.rbc_results ≡ true

truthy_ready-has :
    (results : Map Bytes) (j : ℕ) (m : Map Bool)
    → truthy_ready results m ≡ true
    → agreed j m ≡ true
    → has j results ≡ true
truthy_ready-has results j [] r h = cc
truthy_ready-has results j ((id, v) ∷ m) r h = ground (arith, truthy_ready-has results j m)

-- When an undecided node with no output waiting completes, its results being one for each
-- agreement: at least n - f agreements are true, all n have a result, each true one has its
-- broadcast value, and the output holds exactly these values.
pub completion_exact :
    (a : Acs) (m : Map Bytes)
    → a.decided ≡ false
    → a.output ≡ none
    → IsMap a.bba_results
    → (try_complete_agreement a).output ≡ some m
    → Decision a m
unfolding try_complete_agreement
completion_exact a m d o distinct h = elim (Bool-cases (truthy_ready a.rbc_results a.bba_results)) [
  | inr r ↦ let e = collected-unready a r in absurd (ground arith)
  | inl r ↦
      let (m', e) = collected-ready a r in
      let same : m' ≡ m = ground arith in
      record {
        truthy_quorum = ground arith;
        all_results = ground arith;
        subset = λ j.
            collect-lookup a.rbc_results (sort_ids (truthy_ids a.bba_results)) m j
              (e ∙ ap some same)
            ∙ rw (
              contains-sort_ids j (truthy_ids a.bba_results),
              contains-truthy_ids j a.bba_results distinct,
            );
        no_gap = λ j. truthy_ready-has a.rbc_results j a.bba_results r;
      }
]
