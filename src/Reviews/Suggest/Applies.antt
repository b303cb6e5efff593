-- ===== src/Reviews/Suggest/Applies.antt =====
-- extension/src/reviews/suggestLogic.ts: the patch of a suggestion replaces the lines of the head and nothing else.
use mathlib.Core.Bool.{false≢true}
use gitglasses.Base.{
  ◌==◌, ◌<◌, suc, length-take, if◌then◌else◌, [], ◌∷◌, inr, inl, ◌∷◌, Option, Bool-cases, text_eq,
  text_eq_iff, text_eq_refl, ◌≢◌, ◌⊎◌, ◌∙◌, ltb, Bool, true, ◌||◌, List, Text, ℕ, ◌++◌, ◌+◌, ◌-◌,
  ◌≤◌, ◌≡◌, refl, sym, ap, ◌∙◌, arith, length, take, drop, none, some, length-append,
}
use gitglasses.Reviews.Suggest.{
  hunk_of, suggestion_hunk, Hunk, SuggestionPatchInput, slice, file_lines, added_lines,
  ends_with_newline, context_lines, same_lines,
}
use gitglasses.Reviews.Suggest.Hunks.{
  old_side, new_side, old_side-body, new_side-body, slice-slice, length-slice, take-slice,
  slice-drop, slice-length, regroup,
}

-- The number that a header gives for a side of `count` lines with `before` lines ahead of it: that of its first line, or of
-- the line ahead of it where the side has none.
abbrev pub header_start : (count before : ℕ) → ℕ
header_start count before = if count == 0 then before else suc before

-- The header gives both sides' starts and lengths, the lines of the old side stand where it says, and putting the new side
-- in the place of the old one replaces the lines from `start` to `end` with the added ones.
abbrev pub Applies : (lines : List Text) (start end : ℕ) (added : List Text) → Hunk → Type 0
Applies lines start end added hunk =
    let first = hunk.old_start - 1 in
    let last = first + hunk.old_count in
    (hunk.old_start ≡ header_start hunk.old_count (length (take first lines)))
    × (hunk.new_start ≡ header_start hunk.new_count (length (take first lines)))
    × (old_side hunk.body ≡ slice first last lines)
    × (length (old_side hunk.body) ≡ hunk.old_count)
    × (length (new_side hunk.body) ≡ hunk.new_count)
    × (take first lines ++ new_side hunk.body ++ drop last lines
        ≡ take (start - 1) lines ++ added ++ drop end lines)

length_three : (b r f : List Text) → length (b ++ r ++ f) ≡ length b + length r + length f
length_three b r f = omega (arith, length-append (b ++ r) f, length-append b r)

header_start-some :
    (count before n : ℕ) → 0 < count → n ≡ suc before → n ≡ header_start count before
header_start-some count before n some_lines h = ground (arith, some_lines, h)

header_start-if :
    (count before start : ℕ)
    → start ≡ suc before
    → (if count == 0 then before else start) ≡ header_start count before
header_start-if count before start h = ground (arith, h)

hunk_of-Applies :
    (lines : List Text) (start end : ℕ) (added : List Text) (ended : Bool)
    → 1 ≤ start
    → start ≤ end
    → end ≤ length lines
    → Applies lines start end added (hunk_of lines start end added ended)
unfolding hunk_of
hunk_of-Applies lines start end added ended low order high =
    let at = start - 1 in
    let first = at - context_lines in
    let before = slice first at lines in
    let removed = slice at end lines in
    let after = slice end (end + context_lines) lines in
    let hunk = hunk_of lines start end added ended in
    let lb : length before ≡ at - first =
      length-slice first at lines (omega (arith, low, order, high)) in
    let lr : length removed ≡ end - at = length-slice at end lines high in
    let is_first : hunk.old_start - 1 ≡ first = omega (arith, lb, low) in
    let is_last : first + hunk.old_count ≡ end + length after = omega (arith, lb, lr, low, order) in
    let ahead : length (take first lines) ≡ first =
      omega (arith, length-take first lines, low, order, high) in
    let starts : hunk.old_start ≡ suc first = omega (arith, lb, low) in
    let some_lines : 0 < hunk.old_count = omega (arith, lr, low, order) in
    let old : old_side hunk.body ≡ before ++ removed ++ after =
      old_side-body before removed added after _ _ _ in
    let new : new_side hunk.body ≡ before ++ added ++ after =
      new_side-body before removed added after _ _ _ in
    let joined : before ++ removed ++ after ≡ slice first (end + length after) lines =
      ap (λ xs. before ++ removed ++ xs) (sym (slice-length end context_lines lines))
      ∙ (ap (λ xs. xs ++ slice end (end + length after) lines)
            (slice-slice first at end lines (omega arith) (omega (arith, order)))
          ∙ slice-slice first end (end + length after) lines (omega (arith, order))
              (omega arith)) in
    rw is_first (
      rw is_last (
        rw ahead (header_start-some hunk.old_count first hunk.old_start some_lines starts),
        rw ahead (header_start-if hunk.new_count first hunk.old_start starts),
        old ∙ joined,
        rw old (length_three before removed after),
        rw new (length_three before added after),
        rw new (
            regroup (take first lines) before added after (drop (end + length after) lines)
            ∙ (ap (λ xs. xs ++ added ++ (after ++ drop (end + length after) lines))
                  (take-slice first at lines (omega arith))
                ∙ ap (λ xs. take at lines ++ added ++ xs) (slice-drop end context_lines lines))),
      ))

same_lines-equal : (xs ys : List Text) → same_lines xs ys ≡ true → xs ≡ ys
unfolding same_lines
same_lines-equal [] [] h = refl
same_lines-equal [] (y ∷ ys) h = cc h
same_lines-equal (x ∷ xs) [] h = cc h
same_lines-equal (x ∷ xs) (y ∷ ys) h = elim (Bool-cases (text_eq x y)) [
  | inl e ↦ cc ((text_eq_iff x y).0 e, same_lines-equal xs ys (rw e at h))
  | inr e ↦ absurd (false≢true (rw e at h))
]

same_lines_refl : (xs : List Text) → same_lines xs xs ≡ true
unfolding same_lines
same_lines_refl [] = refl
same_lines_refl (x ∷ xs) = rw (text_eq_refl x) (same_lines_refl xs)

abbrev pub IsInside : SuggestionPatchInput → Type 0
IsInside input =
    (1 ≤ input.start_line)
    × (input.start_line ≤ input.end_line)
    × (input.end_line ≤ length (file_lines input.head_text))

-- The lines that the replacement stands for.
abbrev pub replaced_lines : SuggestionPatchInput → List Text
replaced_lines input = slice (input.start_line - 1) input.end_line (file_lines input.head_text)

-- No hunk for a range outside the file or a replacement that changes nothing, otherwise one that applies.
abbrev pub IsSuggestion : SuggestionPatchInput → Option Hunk → Type 0
IsSuggestion input none =
    (¬ IsInside input) ⊎ (added_lines input.replacement ≡ replaced_lines input)
IsSuggestion input (some hunk) =
    IsInside input
    × (added_lines input.replacement ≢ replaced_lines input)
    × Applies (file_lines input.head_text) input.start_line input.end_line
        (added_lines input.replacement) hunk

-- There is no hunk just when the range is not one of the head's lines or the replacement leaves them as they are. The hunk's
-- header gives the start and the length of the old and of the new side, and putting the new side in the place of the old
-- turns the lines of the head into those lines with the replacement's in the place of the range.
pub suggestion_hunk-IsSuggestion :
    (input : SuggestionPatchInput) → IsSuggestion input (suggestion_hunk input)
unfolding suggestion_hunk
suggestion_hunk-IsSuggestion input =
    let lines = file_lines input.head_text in
    let start = input.start_line in
    let end = input.end_line in
    let added = added_lines input.replacement in
    let ended = ends_with_newline input.head_text in
    elim (Bool-cases (ltb start 1 || ltb end start || ltb (length lines) end)) [
      | inl e ↦ rw e (inl (λ inside. ground (arith, e, inside)))
      | inr e ↦ elim (Bool-cases (same_lines added (replaced_lines input))) [
        | inl same ↦ rw e (rw same (inr (same_lines-equal added (replaced_lines input) same)))
        | inr differs ↦
            let low : 1 ≤ start = ground (arith, e) in
            let order : start ≤ end = ground (arith, e) in
            let high : end ≤ length lines = ground (arith, e) in
            let changed : added ≢ replaced_lines input = λ same.
              false≢true (sym differs ∙ ap (same_lines added) (sym same) ∙ same_lines_refl added) in
            rw e (
              rw differs (
                (low, order, high),
                changed,
                hunk_of-Applies lines start end added ended low order high,
              ))
      ]
    ]
