-- ===== src/Reviews/Suggest/Lines.antt =====
-- extension/src/reviews/suggestLogic.ts: the first line at which two texts differ.
use gitglasses.Base.{
  from_next, Bool, true, false, List, Text, ℕ, zero, suc, ◌+◌, ◌≤◌, ◌<◌, ◌≡◌, refl, arith,
  Bool-cases, inl, inr, Option, none, some, get_elem?,
}
use gitglasses.Reviews.Suggest.Words.{
  mismatch_from, first_mismatched_line, line_agrees, split_lines,
}

abbrev pub agrees_at : (local head : List Text) → ℕ → Bool
agrees_at local head i = line_agrees (get_elem? local i) (get_elem? head i)

-- Of the `remaining` lines from the index `line` on: all agree, or the one that is named is the first that does not.
abbrev pub IsMismatch : (remaining line : ℕ) (local head : List Text) → Option ℕ → Type 0
IsMismatch remaining line local head none =
    (i : ℕ) → line ≤ i → i < line + remaining → agrees_at local head i ≡ true
IsMismatch remaining line local head (some number) =
    (at : ℕ) × (number ≡ suc at)
    × (line ≤ at)
    × (at < line + remaining)
    × (agrees_at local head at ≡ false)
    × ((i : ℕ) → line ≤ i → i < at → agrees_at local head i ≡ true)

-- A line that agrees goes before what is said of the others.
IsMismatch-later :
    (remaining line : ℕ) (local head : List Text) (found : Option ℕ)
    → agrees_at local head line ≡ true
    → IsMismatch remaining (suc line) local head found
    → IsMismatch (suc remaining) line local head found
IsMismatch-later remaining line local head none e h =
    from_next (λ i. agrees_at local head i ≡ true) line (line + suc remaining) e
      (λ i low high. h i low (omega arith))
IsMismatch-later remaining line local head (some number) e (place, is, low, high, differs, before) =
    (
      place,
      is,
      omega arith,
      omega arith,
      differs,
      from_next (λ i. agrees_at local head i ≡ true) line place e before,
    )

mismatch_from-IsMismatch :
    (remaining line : ℕ) (local head : List Text)
    → IsMismatch remaining line local head (mismatch_from remaining line local head)
unfolding mismatch_from
mismatch_from-IsMismatch zero line local head = λ i low high. absurd (omega arith)
mismatch_from-IsMismatch (suc remaining) line local head =
    elim (Bool-cases (agrees_at local head line)) [
      | inl e ↦ rw e (
          IsMismatch-later remaining line local head (mismatch_from remaining (suc line) local head)
            e (mismatch_from-IsMismatch remaining (suc line) local head))
      | inr e ↦ rw e (line, refl, omega arith, omega arith, e, λ i low high. absurd (omega arith))
    ]

-- The number is that of the first line, up to the last that is asked for, which the two texts do not both have or which
-- differs; there is none when all these lines agree.
pub first_mismatched_line-IsMismatch :
    (local_text head_text : Text) (through_line : ℕ)
    → IsMismatch through_line 0
        (split_lines local_text)
        (split_lines head_text)
        (first_mismatched_line local_text head_text through_line)
unfolding first_mismatched_line
first_mismatched_line-IsMismatch local_text head_text through_line =
    mismatch_from-IsMismatch through_line 0 (split_lines local_text) (split_lines head_text)
