-- ===== src/Timeline/Examples.antt =====
-- Instances of the theorems on the timeline.
use mathlib.Core.Bool.{false≢true}
use gitglasses.Base.{
  sym, ◌<◌, ◌≤◌, codes, map, length, is_space, Bool, Text, List, ℕ, zero, suc, refl, [], ◌∷◌, true,
  false, ◌++◌, ◌≡◌, arith,
}
use gitglasses.Timeline.Labels.{
  prefix_of, trim_end, cut_short, fit_text, ellipsis, fits, drawn, IsLongest, fit_text-IsLongest,
}
use gitglasses.Timeline.Lanes.{TimelineEntry, assign_author_lanes}
use gitglasses.Timeline.Lanes.Churn.{assign_author_lanes-churn, entries_churn, lanes_churn}

abbrev commit : Text → ℕ → TimelineEntry
commit name additions = record { name = name; email = name; additions = additions; deletions = 1 }

abbrev history : List TimelineEntry
history = commit (codes "b") 4 ∷ commit (codes "a") 2 ∷ commit (codes "b") 3 ∷ []

abbrev same : Text → Text
same t = t

abbrev always : Text → Text → Bool
always a b = true

assign_author_lanes-churn_example :
    lanes_churn (assign_author_lanes same always history 1).lanes ≡ entries_churn history
assign_author_lanes-churn_example = assign_author_lanes-churn same always history 1

assign_author_lanes_run :
    (assign_author_lanes same always history 1).lanes
    ≡ record { label = codes "b"; churn = 9; others = false }
      ∷ record { label = codes "Others"; churn = 3; others = true }
      ∷ []
unfolding assign_author_lanes is_space
assign_author_lanes_run = refl

-- Letters of one unit each, all of one width.
abbrev letters : Text → List Text
letters = map (λ c. c ∷ [])

abbrev never : Text → Bool
never t = false

fit_text_run : fit_text (length {A = ℕ}) letters never (codes "abcdef") 4 ≡ codes "abc" ++ ellipsis
unfolding fit_text cut_short is_space
fit_text_run = refl

-- Three letters in the room of two: one letter and the ellipsis fit.
longer_fits_less :
    (fewer more : ℕ)
    → 0 < fewer
    → fewer ≤ more
    → fits (length {A = ℕ}) letters never 2 (letters (codes "abc")) fewer ≡ false
    → fits (length {A = ℕ}) letters never 2 (letters (codes "abc")) more ≡ false
unfolding fits prefix_of trim_end cut_short is_space
longer_fits_less zero more p o h = absurd (omega arith)
longer_fits_less (suc zero) more p o h = absurd (false≢true (sym h))
longer_fits_less (suc (suc fewer)) zero p o h = absurd (omega arith)
longer_fits_less (suc (suc fewer)) (suc zero) p o h = absurd (omega arith)
longer_fits_less (suc (suc fewer)) (suc (suc zero)) p o h = refl
longer_fits_less (suc (suc fewer)) (suc (suc (suc zero))) p o h = refl
longer_fits_less (suc (suc fewer)) (suc (suc (suc (suc more)))) p o h = refl

fit_text-IsLongest_example :
    (count : ℕ) × (fit_text (length {A = ℕ}) letters never (codes "abc") 2
      ≡ drawn (length {A = ℕ}) letters never 2 (letters (codes "abc")) count)
    × IsLongest (length {A = ℕ}) letters never 2 (letters (codes "abc")) count
fit_text-IsLongest_example =
    fit_text-IsLongest (length {A = ℕ}) letters never (codes "abc") 2 refl longer_fits_less
