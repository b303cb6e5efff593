-- ===== src/Reviews/Suggest/Words.antt =====
-- extension/src/reviews/suggestLogic.ts: the lines that a suggestion replaces, its fence, and where two texts differ first.
use gitglasses.Base.{
  ltb, ◌==◌, ◌||◌, ◌&&◌, if◌then◌else◌, Bool, false, List, Text, ℕ, zero, suc, [], ◌∷◌, ◌++◌, ◌+◌,
  ◌-◌, length, codes, Option, none, some, starts_with, includes, trim, text_eq, get_elem?,
}
use gitglasses.Base.Decimal.{decimal}

pub record SelectionLike : Type 0 where
  pub start_line : ℕ
  pub start_character : ℕ
  pub end_line : ℕ
  pub end_character : ℕ

pub record SuggestionRange : Type 0 where
  pub start_line : ℕ
  pub end_line : ℕ

unfoldable pub selection_to_range : SelectionLike → SuggestionRange
selection_to_range selection =
    let end_line =
      if ltb selection.start_line selection.end_line && selection.end_character == 0
      then selection.end_line - 1
      else selection.end_line in
    record { start_line = selection.start_line + 1; end_line = end_line + 1 }

-- The loop that lengthens a fence, on fuel.
unfoldable pub grow : (fuel : ℕ) (content fence : Text) → Text
grow zero content fence = fence
grow (suc fuel) content fence =
    let longer = grow fuel content (fence ++ b'`' ∷ []) in
    if includes content fence then longer else fence

unfoldable pub fence_for : Text → Text
unfolding grow
fence_for content = grow (length content) content (codes "```")

abbrev pub newline : Text
newline = 0xa ∷ []

-- `text.replace(/\n$/, '')`
unfoldable pub strip_newline : Text → Text
strip_newline [] = []
strip_newline (c ∷ text) =
    let rest = strip_newline text in if text_eq (c ∷ text) newline then [] else c ∷ rest

-- `text.replace(/\r?\n$/, '')`
unfoldable pub strip_line_end : Text → Text
strip_line_end [] = []
strip_line_end (c ∷ text) =
    let rest = strip_line_end text in
    if text_eq (c ∷ text) newline || text_eq (c ∷ text) (0xd ∷ 0xa ∷ []) then [] else c ∷ rest

pub record SuggestionBodyOptions : Type 0 where
  pub replacement : Text
  pub comment : Option Text
  pub gitlab_lines_above : Option ℕ

abbrev pub suggestion_info : Option ℕ → Text
suggestion_info none = codes "suggestion"
suggestion_info (some n) = codes "suggestion:-" ++ decimal n ++ codes "+0"

abbrev pub below_comment : Option Text → Text → Text
below_comment none block = block
below_comment (some comment) block =
    if text_eq (trim comment) [] then block else trim comment ++ newline ++ newline ++ block

unfoldable pub build_suggestion_body : SuggestionBodyOptions → Text
unfolding fence_for strip_newline
build_suggestion_body options =
    let fence = fence_for options.replacement in
    below_comment options.comment (
      fence
      ++ suggestion_info options.gitlab_lines_above
      ++ newline
      ++ strip_newline options.replacement
      ++ newline
      ++ fence)

unfoldable is_anchor_rejection : Option ℕ → Bool
is_anchor_rejection none = false
is_anchor_rejection (some status) = status == 422 || status == 400

abbrev pub push_unit : ℕ → List Text → List Text
push_unit c [] = (c ∷ []) ∷ []
push_unit c (line ∷ lines) = (c ∷ line) ∷ lines

-- `text.split(/\r?\n/)`
unfoldable pub split_lines : Text → List Text
split_lines [] = [] ∷ []
split_lines (c ∷ text) =
    let rest = split_lines text in
    if c == 0xa
    then [] ∷ rest
    else if c == 0xd && starts_with text newline
    then rest
    else push_unit c rest

-- Whether two lines are there and are the same.
abbrev pub line_agrees : Option Text → Option Text → Bool
line_agrees (some a) (some b) = text_eq a b
line_agrees (some a) none = false
line_agrees none b = false

-- The loop of `firstMismatchedLine`, from the line whose index is `line`.
unfoldable pub mismatch_from : (remaining line : ℕ) (local head : List Text) → Option ℕ
mismatch_from zero line local head = none
mismatch_from (suc remaining) line local head =
    let later = mismatch_from remaining (suc line) local head in
    if line_agrees (get_elem? local line) (get_elem? head line) then later else some (suc line)

unfoldable pub first_mismatched_line : (local_text head_text : Text) (through_line : ℕ) → Option ℕ
unfolding mismatch_from split_lines
first_mismatched_line local_text head_text through_line =
    mismatch_from through_line 0 (split_lines local_text) (split_lines head_text)
