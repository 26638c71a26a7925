-- ===== src/Ledger/Search.antt =====
-- src/ledger.ts: the binary search of `fitLedger`.
use opencode_better_compact.Base.{
  ◌≡◌, refl, sym, ap, ◌∙◌, subst, ℕ, zero, suc, ◌+◌, ◌-◌, ◌/◌, ◌≤◌, ◌<◌, Bool, true, false, ◌⊎◌,
  inl, inr, Bool-cases, ltb, ltb→lt, ltb→le, arith, if◌then◌else◌,
}

module _ (fits : ℕ → Bool) where
  -- The least count that fits, of those up to a limit that does; the fuel bounds the rounds.
  unfoldable pub search : ℕ → ℕ → ℕ → ℕ
  search zero low high = low
  search (suc fuel) low high =
      let middle = (low + high) / 2 in
      let below = search fuel low middle in
      let above = search fuel (suc middle) high in
      if ltb low high then if fits middle then below else above else low

  -- Nothing is below the interval, or what is just below does not fit; its upper end fits.
  pub record Brackets (low high : ℕ) : Type 0 where
    pub ordered : low ≤ high
    pub upper : fits high ≡ true
    pub lower : (low ≡ 1) ⊎ (fits (low - 1) ≡ false)
    pub positive : 0 < low

  -- A count that fits where one fewer does not.
  pub record IsEdge (high count : ℕ) : Type 0 where
    pub fitting : fits count ≡ true
    pub least : (count ≡ 1) ⊎ (fits (count - 1) ≡ false)
    pub within : count ≤ high
    pub positive : 0 < count

  search_done : (fuel low high : ℕ) → ltb low high ≡ false → search fuel low high ≡ low
  unfolding search
  search_done zero low high h = refl
  search_done (suc fuel) low high h = rw (h, search)

  search_below :
      (fuel low high : ℕ)
      → ltb low high ≡ true
      → fits ((low + high) / 2) ≡ true
      → search (suc fuel) low high ≡ search fuel low ((low + high) / 2)
  unfolding search
  search_below fuel low high h e = rw (h, search, e)

  search_above :
      (fuel low high : ℕ)
      → ltb low high ≡ true
      → fits ((low + high) / 2) ≡ false
      → search (suc fuel) low high ≡ search fuel (suc ((low + high) / 2)) high
  unfolding search
  search_above fuel low high h e = rw (h, search, e)

  IsEdge-narrow : (low high : ℕ) → Brackets low high → high ≤ low → IsEdge high low
  IsEdge-narrow low high b h =
      let same : high ≡ low = omega (arith, b.ordered, h) in
      record {
        fitting = subst (λ n. fits n ≡ true) same b.upper;
        least = b.lower;
        within = b.ordered;
        positive = b.positive;
      }

  IsEdge-mono : (high high' count : ℕ) → high ≤ high' → IsEdge high count → IsEdge high' count
  IsEdge-mono high high' count h e = record {
    fitting = e.fitting;
    least = e.least;
    within = omega (arith, h, e.within);
    positive = e.positive;
  }

  -- With fuel for the interval, the search finds a count in it that fits where one fewer does not.
  pub search-IsEdge :
      (fuel low high : ℕ)
      → high - low ≤ fuel
      → Brackets low high
      → IsEdge high (search fuel low high)
  unfolding search
  search-IsEdge zero low high h b = IsEdge-narrow low high b (omega (arith, h))
  search-IsEdge (suc fuel) low high h b = elim (Bool-cases (ltb low high)) [
    | inl more ↦
        let lt = ltb→lt low high more in
        elim (Bool-cases (fits ((low + high) / 2))) [
          | inl e ↦ subst (IsEdge high) (sym (search_below fuel low high more e)) (
              IsEdge-mono ((low + high) / 2) high _ (omega (arith, lt)) (
                search-IsEdge fuel low ((low + high) / 2) (omega (arith, h, lt)) (record {
                  ordered = omega (arith, lt);
                  upper = e;
                  lower = b.lower;
                  positive = b.positive;
                })))
          | inr e ↦
              let before : suc ((low + high) / 2) - 1 ≡ (low + high) / 2 = omega arith in
              subst (IsEdge high) (sym (search_above fuel low high more e)) (
                search-IsEdge fuel (suc ((low + high) / 2)) high (omega (arith, h, lt)) (record {
                  ordered = omega (arith, lt);
                  upper = b.upper;
                  lower = inr (ap fits before ∙ e);
                  positive = omega arith;
                }))
        ]
    | inr done ↦
        subst (IsEdge high) (sym (search_done (suc fuel) low high done))
          (IsEdge-narrow low high b (ltb→le low high done))
  ]

  -- The counts from a first one on, one after the other: the reference of the search.
  unfoldable pub first_fitting : ℕ → ℕ → ℕ
  first_fitting zero count = count
  first_fitting (suc fuel) count =
      let next = first_fitting fuel (suc count) in if fits count then count else next

  first_fitting-eq :
      (fuel count edge : ℕ)
      → edge ≤ count + fuel
      → count ≤ edge
      → fits edge ≡ true
      → ((n : ℕ) → count ≤ n → n < edge → fits n ≡ false)
      → first_fitting fuel count ≡ edge
  unfolding first_fitting
  first_fitting-eq zero count edge h k e below = omega (arith, h, k)
  first_fitting-eq (suc fuel) count edge h k e below = elim (Bool-cases (ltb count edge)) [
    | inl more ↦
        let lt = ltb→lt count edge more in
        rw (below count (omega arith) lt, first_fitting)
          (first_fitting-eq fuel (suc count) edge (omega (arith, h)) (omega (arith, lt)) e
            (λ n m l. below n (omega (arith, m)) l))
    | inr done ↦
        let same : count ≡ edge = omega (arith, k, ltb→le count edge done) in
        rw (ap fits same ∙ e, first_fitting) same
  ]

  -- Where a count fits if a smaller one does, the search and the scan of all counts agree.
  pub search-first_fitting :
      (high : ℕ)
      → 0 < high
      → ((m n : ℕ) → m ≤ n → fits m ≡ true → fits n ≡ true)
      → fits high ≡ true
      → search high 1 high ≡ first_fitting high 1
  search-first_fitting high h mono e =
      let edge =
        search-IsEdge high 1 high (omega arith)
          (record { ordered = h; upper = e; lower = inl refl; positive = omega arith }) in
      sym (
        first_fitting-eq high 1 (search high 1 high) (omega (arith, edge.within)) edge.positive
          edge.fitting (λ n m l. below edge n m l))
    where
      below :
          IsEdge high (search high 1 high)
          → (n : ℕ) → 1 ≤ n
          → n < search high 1 high
          → fits n ≡ false
      below edge n m l = elim (Bool-cases (fits n)) [
        | inr misses ↦ misses
        | inl hits ↦ absurd (elim edge.least [
          | inl one ↦ omega (arith, one, m, l)
          | inr misses ↦
              let up = mono n (search high 1 high - 1) (omega (arith, l)) hits in
              ground (arith, misses, up)
        ])
      ]
