-- ===== src/Hbbft/Rbc/Quorum.antt =====
-- Two READY quorums meet in an honest node (sbc/hbbft/rbc.go, `countReadys`).
use bloc.Prelude.{
  ℕ, ◌+◌, ◌*◌, ◌≤◌, ◌≡◌, ◌≢◌, Bool, true, false, none, some, List, [], ◌∷◌, arith, if◌then◌else◌,
  length, count_if, contains, All, Bool-cases, Option-cases, inl, inr,
}
use bloc.Prelude.Maps.{Map, IsMap, has, lookup, keys, has-lookup}
use bloc.Prelude.Bytes.{Bytes, bytes_eq, bytes_eq_iff}

-- Whether a map holds `h` under `p`.
abbrev voted : Bytes → Map Bytes → ℕ → Bool
voted h m p = elim (lookup p m) [ none ↦ false | some r ↦ bytes_eq h r ]

abbrev votes : Bytes → Map Bytes → List ℕ → ℕ
votes h m nodes = count_if (voted h m) nodes

votes-insert :
    (h : Bytes) (j : ℕ) (v : Bytes) (m : Map Bytes) (nodes : List ℕ)
    → has j m ≡ false
    → votes h m nodes + (if contains nodes j then (if bytes_eq h v then 1 else 0) else 0)
      ≤ votes h ((j, v) ∷ m) nodes
votes-insert h j v m [] new = omega arith
votes-insert h j v m (p ∷ nodes) new =
    ground (arith, votes-insert h j v m nodes new, has-lookup j m new)

-- Each entry of a map over the nodes is the vote of a node.
count-le-votes :
    (h : Bytes) (m : Map Bytes) (nodes : List ℕ)
    → IsMap m
    → All (λ p. contains nodes p ≡ true) (keys m)
    → count_if (λ e. bytes_eq h e.1) m ≤ votes h m nodes
count-le-votes h [] nodes d known = omega arith
count-le-votes h ((j, v) ∷ m) nodes d known =
    ground (arith, votes-insert h j v m nodes d.0, count-le-votes h m nodes d.1 known.1, known.0)

module _ (faulty : ℕ → Bool) (a b : Map Bytes)
    (honest : (p : ℕ) (g h : Bytes)
      → faulty p ≡ false
      → lookup p a ≡ some g
      → lookup p b ≡ some h
      → g ≡ h) where
  twice_faulty :
      (g h : Bytes) (p : ℕ) → g ≢ h → voted g a p ≡ true → voted h b p ≡ true → faulty p ≡ true
  twice_faulty g h p ne v w = elim (Option-cases (lookup p a)) [
    | inl e ↦ ground arith
    | inr (x, e) ↦ elim (Option-cases (lookup p b)) [
      | inl e' ↦ ground arith
      | inr (y, e') ↦ elim (Bool-cases (faulty p)) [
        | inl bad ↦ bad
        | inr good ↦ absurd (ne (ground (arith, honest p x y, bytes_eq_iff g x, bytes_eq_iff h y)))
      ]
    ]
  ]

  -- Only a faulty node votes for two roots.
  votes_disjoint :
      (g h : Bytes) (nodes : List ℕ)
      → g ≢ h
      → votes g a nodes + votes h b nodes ≤ length nodes + count_if faulty nodes
  votes_disjoint g h [] ne = omega arith
  votes_disjoint g h (p ∷ nodes) ne =
      ground (arith, votes_disjoint g h nodes ne, twice_faulty g h p ne)

  -- Among at most 3f + 1 nodes with at most f faulty ones, let two maps hold at most one READY
  -- message of each node and, of an honest node, the same one. Then two roots with 2f + 1
  -- messages each, one in either map, are equal.
  pub readys_agree :
      (f : ℕ) (nodes : List ℕ) (g h : Bytes)
      → length nodes ≤ 3 * f + 1
      → count_if faulty nodes ≤ f
      → IsMap a
      → IsMap b
      → All (λ p. contains nodes p ≡ true) (keys a)
      → All (λ p. contains nodes p ≡ true) (keys b)
      → 2 * f + 1 ≤ count_if (λ e. bytes_eq g e.1) a
      → 2 * f + 1 ≤ count_if (λ e. bytes_eq h e.1) b
      → g ≡ h
  readys_agree f nodes g h few faults da db ka kb qa qb = elim (Bool-cases (bytes_eq g h)) [
    | inl e ↦ (bytes_eq_iff g h).0 e
    | inr e ↦
        let ne : g ≢ h = λ same. cc (e, (bytes_eq_iff g h).1 same) in
        absurd (
          omega (
            arith,
            votes_disjoint g h nodes ne,
            count-le-votes g a nodes da ka,
            count-le-votes h b nodes db kb,
          ))
  ]
