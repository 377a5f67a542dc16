-- ===== src/Recommend/Frontier.antt =====
-- The Pareto frontier: the candidates that no candidate dominates, one of which dominates each other.
use mathlib.Core.List.{Memᴰ}
use kitt.Prelude.{
  ℕ, zero, suc, ◌≤◌, ◌<◌, Bool, true, false, not, Option, List, [], ◌∷◌, ◌≡◌, ◌↔◌, ◌⊎◌, inl, inr,
  refl, sym, ap, ◌∙◌, subst, arith, any, count_if, eqb, ◌&&◌, ◌||◌, Bool-cases,
}
use kitt.Prelude.Members.{
  member-select, select-member, any-member, member-any, member-map, map-member, count_if-lt,
}
use kitt.Prelude.Floats.{Float, FloatOps}
use kitt.Recommend.{
  StoredResult, Constraints, recommend, by_score, pareto_frontier, Candidate, ScoreOps, dominates,
  placed, is_dominated, frontier,
}

-- How the comparisons of IEEE numbers relate, NaN among them.
pub record IsComparison (ops : FloatOps) : Type 0 where
  pub flt_irrefl : (a : Float) → ops.flt a a ≡ false
  pub fle_trans : (a b c : Float) → ops.fle a b ≡ true → ops.fle b c ≡ true → ops.fle a c ≡ true
  pub flt_fle_trans : (a b c : Float) → ops.flt a b ≡ true → ops.fle b c ≡ true → ops.flt a c ≡ true

-- `d` is at least as good as `c` in accuracy and throughput, and better in one of them.
pub record IsBetter (ops : FloatOps) (d c : Candidate) : Type 0 where
  pub as_accurate : ops.fle c.accuracy d.accuracy ≡ true
  pub as_fast : ops.fle c.throughput d.throughput ≡ true
  pub better_in_one :
      (ops.flt c.accuracy d.accuracy ≡ true) ⊎ (ops.flt c.throughput d.throughput ≡ true)

module _ (ops : FloatOps) (scores : ScoreOps) where
  dominates-IsBetter : (d c : Candidate) → dominates ops scores d c ≡ true → IsBetter ops d c
  unfolding dominates
  dominates-IsBetter d c h = record {
    as_accurate = ground (arith, h);
    as_fast = ground (arith, h);
    better_in_one = elim (Bool-cases (ops.flt c.accuracy d.accuracy)) [
      | inl more ↦ inl more
      | inr not_more ↦ inr (ground (arith, h, not_more))
    ];
  }

  IsBetter-dominates : (d c : Candidate) → IsBetter ops d c → dominates ops scores d c ≡ true
  unfolding dominates
  IsBetter-dominates d c b = elim b.better_in_one [
    | inl more ↦ ground (arith, b.as_accurate, b.as_fast, more)
    | inr more ↦ ground (arith, b.as_accurate, b.as_fast, more)
  ]

module _ (ops : FloatOps) (scores : ScoreOps) (laws : IsComparison ops) where
  dominates_irrefl : (c : Candidate) → dominates ops scores c c ≡ false
  unfolding dominates
  dominates_irrefl c = ground (arith, laws.flt_irrefl c.accuracy, laws.flt_irrefl c.throughput)

  dominates_trans :
      (c d e : Candidate)
      → dominates ops scores c d ≡ true
      → dominates ops scores d e ≡ true
      → dominates ops scores c e ≡ true
  unfolding dominates
  dominates_trans c d e h k = ground (
    arith,
    laws.fle_trans e.accuracy d.accuracy c.accuracy,
    laws.fle_trans e.throughput d.throughput c.throughput,
    laws.flt_fle_trans e.accuracy d.accuracy c.accuracy,
    laws.flt_fle_trans e.throughput d.throughput c.throughput,
  )

  abbrev is_beaten : List Candidate → Candidate → Bool
  is_beaten candidates c = any (λ (d : Candidate). dominates ops scores d c) candidates

  placed-any :
      (i k : ℕ) (candidates : List Candidate) (p : Candidate → Bool)
      → k < i
      → any (λ (d : ℕ × Candidate). not (eqb d.0 k) && p d.1) (placed ops scores i candidates)
        ≡ any p candidates
  unfolding placed
  placed-any i k [] p h = refl
  placed-any i k (c ∷ candidates) p h = ground (arith, h, placed-any (suc i) k candidates p)

  placed-le :
      (i k : ℕ) (c : Candidate) (candidates : List Candidate)
      → Memᴰ (k, c) (placed ops scores i candidates)
      → i ≤ k
  unfolding placed
  placed-le i k c [] m = elim m [ ]
  placed-le i k c (d ∷ candidates) (Memᴰ.head e) =
      let same : k ≡ i = ap (λ (p : ℕ × Candidate). p.0) e in omega (arith, same)
  placed-le i k c (d ∷ candidates) (Memᴰ.tail m) = omega (arith, placed-le (suc i) k c candidates m)

  -- The place of a candidate does not matter, since none dominates itself.
  is_dominated-is_beaten :
      (i k : ℕ) (c : Candidate) (candidates : List Candidate)
      → Memᴰ (k, c) (placed ops scores i candidates)
      → is_dominated ops scores (placed ops scores i candidates) (k, c) ≡ is_beaten candidates c
  unfolding is_dominated placed
  is_dominated-is_beaten i k c [] m = elim m [ ]
  is_dominated-is_beaten i k c (d ∷ candidates) (Memᴰ.head e) =
      let place : k ≡ i = ap (λ (p : ℕ × Candidate). p.0) e in
      let itself : dominates ops scores d c ≡ false =
        ap (λ (p : ℕ × Candidate). dominates ops scores d p.1) e ∙ dominates_irrefl d in
      let rest =
        placed-any (suc i) k candidates (λ o. dominates ops scores o c) (omega (arith, place)) in
      rw (itself, rest) (ground arith)
  is_dominated-is_beaten i k c (d ∷ candidates) (Memᴰ.tail m) =
      let far = placed-le (suc i) k c candidates m in
      let apart : eqb i k ≡ false = ground (arith, far) in
      rw (apart)
        (ap (λ b. dominates ops scores d c || b) (is_dominated-is_beaten (suc i) k c candidates m))

  placed-member :
      (i k : ℕ) (c : Candidate) (candidates : List Candidate)
      → Memᴰ (k, c) (placed ops scores i candidates)
      → Memᴰ c candidates
  unfolding placed
  placed-member i k c [] m = elim m [ ]
  placed-member i k c (d ∷ candidates) (Memᴰ.head e) = Memᴰ.head (ap (λ (p : ℕ × Candidate). p.1) e)
  placed-member i k c (d ∷ candidates) (Memᴰ.tail m) =
      Memᴰ.tail (placed-member (suc i) k c candidates m)

  member-placed :
      (i : ℕ) (c : Candidate) (candidates : List Candidate)
      → Memᴰ c candidates
      → (k : ℕ) × Memᴰ (k, c) (placed ops scores i candidates)
  unfolding placed
  member-placed i c [] m = elim m [ ]
  member-placed i c (d ∷ candidates) (Memᴰ.head e) = (i, Memᴰ.head (ap (λ x. (i, x)) e))
  member-placed i c (d ∷ candidates) (Memᴰ.tail m) =
      let (k, n) = member-placed (suc i) c candidates m in (k, Memᴰ.tail n)

  not-true : (b : Bool) → not b ≡ true → b ≡ false
  not-true true h = absurd (cc)
  not-true false h = refl

  -- A candidate is on the frontier exactly where it is listed and no candidate dominates it.
  frontier_iff :
      (c : Candidate) (candidates : List Candidate)
      → Memᴰ c (frontier ops scores candidates)
        ↔ (Memᴰ c candidates × (is_beaten candidates c ≡ false))
  unfolding frontier
  frontier_iff c candidates =
      let free =
        λ (p : ℕ × Candidate). not (is_dominated ops scores (placed ops scores 0 candidates) p) in
      let free_false = λ (k : ℕ) (d : Candidate) (q : free (k, d) ≡ true). not-true _ q in
      (
        λ m.
            let ((k, d), n, same) = member-map (λ (p : ℕ × Candidate). p.1) _ m in
            let (n', q) = member-select free _ n in
            let e = is_dominated-is_beaten 0 k d candidates n' in
            (
              subst (λ x. Memᴰ x candidates) same (placed-member 0 k d candidates n'),
              ap (is_beaten candidates) (sym same) ∙ sym e ∙ free_false k d q,
            ),
        λ h.
            let (k, m) = member-placed 0 c candidates h.0 in
            let e = is_dominated-is_beaten 0 k c candidates m ∙ h.1 in
            map-member (λ (p : ℕ × Candidate). p.1) _ (select-member free _ m (ap not e)),
      )

  abbrev beaters : List Candidate → Candidate → ℕ
  beaters candidates c = count_if (λ (d : Candidate). dominates ops scores d c) candidates

  beaters-lt :
      (c d : Candidate) (candidates : List Candidate)
      → Memᴰ d candidates
      → dominates ops scores d c ≡ true
      → beaters candidates d < beaters candidates c
  beaters-lt c d candidates m h =
      count_if-lt (λ (x : Candidate). dominates ops scores x d) (λ x. dominates ops scores x c)
        (λ x k. dominates_trans x d c k h) candidates m h (dominates_irrefl d)

  beaten-frontier :
      (n : ℕ) (c : Candidate) (candidates : List Candidate)
      → beaters candidates c ≤ n
      → is_beaten candidates c ≡ true
      → (d : Candidate) × Memᴰ d (frontier ops scores candidates)
        × (dominates ops scores d c ≡ true)
  beaten-frontier zero c candidates h beaten =
      let (d, m, over) =
        any-member (λ (d : Candidate). dominates ops scores d c) candidates beaten in
      absurd (omega (arith, h, beaters-lt c d candidates m over))
  beaten-frontier (suc n) c candidates h beaten =
      let (d, m, over) =
        any-member (λ (d : Candidate). dominates ops scores d c) candidates beaten in
      elim (Bool-cases (is_beaten candidates d)) [
        | inl beaten_too ↦
            let fewer : beaters candidates d ≤ n =
              omega (arith, h, beaters-lt c d candidates m over) in
            let (e, on, above) = beaten-frontier n d candidates fewer beaten_too in
            (e, on, dominates_trans e d c above over)
        | inr free ↦ (d, (frontier_iff d candidates).1 (m, free), over)
      ]

  module _ (results : List StoredResult) (constraints : Option Constraints) where
    abbrev ranked : List Candidate
    ranked = recommend ops scores results constraints 500 by_score

    -- A candidate is on the Pareto frontier exactly where it is recommended and no recommended
    -- candidate is at least as good in accuracy and throughput and better in one.
    pub pareto_frontier_iff :
        (c : Candidate)
        → Memᴰ c (pareto_frontier ops scores results constraints) ↔ (
            Memᴰ c (recommend ops scores results constraints 500 by_score)
            × (¬ (
                (d : Candidate) × Memᴰ d (recommend ops scores results constraints 500 by_score)
                × IsBetter ops d c)))
    unfolding pareto_frontier
    pareto_frontier_iff c = (
      λ m.
          let (listed, free) = (frontier_iff c ranked).0 m in
          (
            listed,
            λ x.
                let over = IsBetter-dominates ops scores x.0 c x.2 in
                let beaten =
                  member-any (λ (d : Candidate). dominates ops scores d c) ranked x.1 over in
                absurd (cc (beaten, free)),
          ),
      λ h. elim (Bool-cases (is_beaten ranked c)) [
        | inl beaten ↦
            let (d, m, over) =
              any-member (λ (d : Candidate). dominates ops scores d c) ranked beaten in
            absurd (h.1 (d, m, dominates-IsBetter ops scores d c over))
        | inr free ↦ (frontier_iff c ranked).1 (h.0, free)
      ],
    )

    -- Each recommended candidate is on the Pareto frontier, or a candidate on it is at least as good in
    -- both and better in one.
    pub pareto_frontier_complete :
        (c : Candidate)
        → Memᴰ c (recommend ops scores results constraints 500 by_score)
        → Memᴰ c (pareto_frontier ops scores results constraints)
          ⊎ ((d : Candidate) × Memᴰ d (pareto_frontier ops scores results constraints)
              × (dominates ops scores d c ≡ true))
    unfolding pareto_frontier
    pareto_frontier_complete c m = elim (Bool-cases (is_beaten ranked c)) [
      | inl beaten ↦ inr (beaten-frontier (beaters ranked c) c ranked (omega arith) beaten)
      | inr free ↦ inl ((frontier_iff c ranked).1 (m, free))
    ]
