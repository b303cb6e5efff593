-- ===== src/Timeline/Labels.antt =====
-- extension/webviews-src/timeline/timelineLogic.ts: `fitText`. What the browser knows of a text is a parameter: the
-- width that it is drawn in, its graphemes, and whether its last letter is written right to left.
use mathlib.Core.List.{reverse}
use gitglasses.Base.{
  trim_start, ltb→lt, ltb→le, ltb, Bool-cases, ◌≤◌, ◌/◌, ◌-◌, take, ◌⊎◌, ◌<◌, ◌+◌, length, leb,
  if◌then◌else◌, concat, Bool, List, Text, ℕ, zero, suc, refl, [], ◌∷◌, true, false, inl, inr, ◌++◌,
  ◌≡◌, arith,
}

abbrev pub ellipsis : Text
ellipsis = 0x2026 ∷ []

module _ (measure : Text → ℕ) (graphemes : Text → List Text)
    (ends_right_to_left : Text → Bool) where
  unfoldable pub cut_short : Text → Text
  cut_short prefix = prefix ++ ellipsis ++ (if ends_right_to_left prefix then 0x200f ∷ [] else [])

  unfoldable pub trim_end : Text → Text
  trim_end text = reverse (trim_start (reverse text))

  -- The first `count` graphemes, cut short.
  unfoldable pub prefix_of : List Text → ℕ → Text
  unfolding cut_short trim_end
  prefix_of chars count = cut_short (trim_end (concat (take count chars)))

  unfoldable pub fits : ℕ → List Text → ℕ → Bool
  unfolding prefix_of
  fits max_width chars count = leb (measure (prefix_of chars count)) max_width

  -- The loop on `low`, `high` and `best`.
  pub narrow : ℕ → ℕ → List Text → ℕ → ℕ → Text → Text
  unfolding prefix_of fits
  narrow max_width zero chars low high best = best
  narrow max_width (suc fuel) chars low high best =
      let mid = (low + high + 1) / 2 in
      let ok = fits max_width chars mid in
      let rest =
        narrow max_width fuel chars (if ok then mid else low) (if ok then high else mid - 1)
          (if ok then prefix_of chars mid else best) in
      if ltb low high then rest else best

  -- What is drawn when no letter fits.
  pub no_letter : ℕ → Text
  no_letter max_width = if leb (measure ellipsis) max_width then ellipsis else []

  unfoldable pub fit_text : Text → ℕ → Text
  unfolding narrow no_letter
  fit_text text max_width =
      let chars = graphemes text in
      let cut = narrow max_width (length chars) chars 0 (length chars - 1) (no_letter max_width) in
      if leb (measure text) max_width then text else cut

  -- The text that is drawn for a count of letters.
  pub drawn : ℕ → List Text → ℕ → Text
  drawn max_width chars zero = no_letter max_width
  drawn max_width chars (suc count) = prefix_of chars (suc count)

  -- A count is the longest that fits, below a bound.
  pub record IsLongest (max_width : ℕ) (chars : List Text) (count : ℕ) : Type 0 where
    pub fitting : (count ≡ 0) ⊎ (fits max_width chars count ≡ true)
    pub longest :
        (more : ℕ) → count < more → more < length chars → fits max_width chars more ≡ false

  drawn-suc :
      (max_width : ℕ) (chars : List Text) (count : ℕ)
      → 0 < count
      → drawn max_width chars count ≡ prefix_of chars count
  unfolding drawn
  drawn-suc max_width chars zero h = elim h [ ]
  drawn-suc max_width chars (suc count) h = refl

  narrow-IsLongest :
      (max_width : ℕ) (chars : List Text)
      → ((fewer more : ℕ)
          → 0 < fewer
          → fewer ≤ more
          → fits max_width chars fewer ≡ false
          → fits max_width chars more ≡ false)
      → (fuel low high : ℕ) → low ≤ high
      → high - low ≤ fuel
      → (low ≡ 0) ⊎ (fits max_width chars low ≡ true)
      → ((more : ℕ) → high < more → more < length chars → fits max_width chars more ≡ false)
      → (count : ℕ) × (narrow max_width fuel chars low high (drawn max_width chars low)
          ≡ drawn max_width chars count)
        × IsLongest max_width chars count
  unfolding narrow
  narrow-IsLongest max_width chars mono zero low high o e f g =
      let same : low ≡ high = omega arith in
      (low, refl, record { fitting = f; longest = λ more a b. g more (omega arith) b })
  narrow-IsLongest max_width chars mono (suc fuel) low high o e f g =
      elim (Bool-cases (ltb low high)) [
        | inr u ↦
            let same : low ≡ high = omega (arith, ltb→le low high u) in
            (low, (rw u refl), record { fitting = f; longest = λ more a b. g more (omega arith) b })
        | inl u ↦
            let mid = (low + high + 1) / 2 in
            let below = ltb→lt low high u in
            let above : low < mid = omega arith in
            elim (Bool-cases (fits max_width chars mid)) [
              | inl v ↦
                  let (count, same, is) =
                    narrow-IsLongest max_width chars mono fuel mid high (omega arith) (omega arith)
                      (inr v) g in
                  (count, (rw (u, v, ← drawn-suc max_width chars mid (omega arith)) same), is)
              | inr v ↦
                  let (count, same, is) =
                    narrow-IsLongest max_width chars mono fuel low (mid - 1) (omega arith)
                      (omega arith) f (λ more a b. mono mid more (omega arith) (omega arith) v) in
                  (count, (rw (u, v) same), is)
            ]
      ]

  -- If a longer cut of a text never fits where a shorter one does not, a text that does not fit is drawn
  -- as its longest prefix that fits with the ellipsis after it, short of the whole text, or as what is
  -- drawn when no letter fits: the search by halves finds what a search of all the cuts finds.
  pub fit_text-IsLongest :
      (text : Text) (max_width : ℕ)
      → leb (measure text) max_width ≡ false
      → ((fewer more : ℕ)
          → 0 < fewer
          → fewer ≤ more
          → fits max_width (graphemes text) fewer ≡ false
          → fits max_width (graphemes text) more ≡ false)
      → (count : ℕ) × (fit_text text max_width ≡ drawn max_width (graphemes text) count)
        × IsLongest max_width (graphemes text) count
  unfolding fit_text drawn
  fit_text-IsLongest text max_width h mono =
      let chars = graphemes text in
      let (count, same, is) =
        narrow-IsLongest max_width chars mono (length chars) 0 (length chars - 1) (omega arith)
          (omega arith) (inl refl) (λ more a b. absurd (omega arith)) in
      (count, (rw h same), is)
