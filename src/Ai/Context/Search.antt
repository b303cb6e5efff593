-- ===== src/Ai/Context/Search.antt =====
-- extension/src/ai/contextBuilder.ts: the halving search finds the last count that passes a test which fails from there on.
use gitglasses.Base.{
  ltb, leb, Bool, ℕ, zero, suc, ◌+◌, ◌-◌, ◌≤◌, ◌≡◌, arith, ltb→lt, ltb→le, leb→le, leb→lt, inl, inr,
  Bool-cases, ceil_div,
}
use gitglasses.Ai.Context.{longest_fit}

halfway :
    (low high : ℕ)
    → suc low ≤ high
    → (suc low ≤ ceil_div (low + high) 2) × (ceil_div (low + high) 2 ≤ high)
halfway low high h = (omega arith, omega arith)

pub longest_fit_lem :
    (fits : ℕ → Bool) (top threshold : ℕ)
    → ((k : ℕ) → 1 ≤ k → k ≤ top → fits k ≡ leb k threshold)
    → (fuel low high : ℕ) → low ≤ threshold
    → threshold ≤ high
    → high ≤ top
    → high ≤ fuel + low
    → longest_fit fits fuel low high ≡ threshold
unfolding longest_fit
longest_fit_lem fits top threshold h zero low high lower upper within enough = omega arith
longest_fit_lem fits top threshold h (suc fuel) low high lower upper within enough =
    let middle = ceil_div (low + high) 2 in
    elim (Bool-cases (ltb low high)) [
      | inr e ↦ rw e (omega (arith, ltb→le low high e))
      | inl e ↦
          let (over, under) = halfway low high (ltb→lt low high e) in
          let is = h middle (omega (arith, over)) (omega (arith, under)) in
          elim (Bool-cases (leb middle threshold)) [
            | inl in_reach ↦
                let rest =
                  longest_fit_lem fits top threshold h fuel middle high
                    (leb→le middle threshold in_reach) upper within (omega (arith, over)) in
                rw e (rw is (rw in_reach rest))
            | inr past ↦
                let below : threshold ≤ middle - 1 = omega (arith, leb→lt middle threshold past) in
                let rest =
                  longest_fit_lem fits top threshold h fuel low (middle - 1) lower below
                    (omega (arith, under)) (omega (arith, under, over)) in
                rw e (rw is (rw past rest))
          ]
    ]
