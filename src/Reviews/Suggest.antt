-- ===== src/Reviews/Suggest.antt =====
-- extension/src/reviews/suggestLogic.ts: the patch that stands for a suggestion outside the diff. The UTF-8 bytes of a path are a
-- parameter.
pub mod Words
pub mod Fence
pub mod Lines
pub mod Hunks
pub mod Applies
mod Fallback
mod Examples
use gitglasses.Base.{
  ltb, leb, ◌==◌, ◌||◌, ◌&&◌, not, if◌then◌else◌, Bool, true, false, List, Text, ℕ, zero, suc, [],
  ◌∷◌, ◌++◌, ◌+◌, ◌-◌, ◌/◌, ◌%◌, length, take, drop, map, codes, Option, none, some, starts_with,
  includes, trim, text_eq, some_of, get_elem?, min,
}
use mathlib.Core.Option
use gitglasses.Base.Decimal.{decimal}
use gitglasses.Reviews.Suggest.Words.{newline, strip_line_end, split_lines}

abbrev pub context_lines : ℕ
context_lines = 3

abbrev needs_quotes : ℕ → Bool
needs_quotes c = ltb c 0x20 || c == 0x22 || c == 0x5c || leb 0x7f c

-- A byte in three octal digits.
abbrev octal : ℕ → Text
octal byte = (b'0' + byte / 64) ∷ (b'0' + byte / 8 % 8) ∷ (b'0' + byte % 8) ∷ []

abbrev quoted_byte : ℕ → Text
quoted_byte byte =
    if byte == 0x22 || byte == 0x5c
    then 0x5c ∷ byte ∷ []
    else if byte == 0x9
    then codes "\\t"
    else if byte == 0xa
    then codes "\\n"
    else if ltb byte 0x20 || leb 0x7f byte
    then 0x5c ∷ octal byte
    else byte ∷ []

quoted_bytes : List ℕ → Text
quoted_bytes [] = []
quoted_bytes (byte ∷ bytes) = quoted_byte byte ++ quoted_bytes bytes

diff_path : (encode : Text → List ℕ) (prefix path : Text) → Text
unfolding quoted_bytes
diff_path encode prefix path =
    let full = prefix ++ path in
    if some_of needs_quotes full then 0x22 ∷ (quoted_bytes (encode full) ++ 0x22 ∷ []) else full

pub record SuggestionPatchInput : Type 0 where
  pub path : Text
  pub head_text : Text
  pub start_line : ℕ
  pub end_line : ℕ
  pub replacement : Text

pub record Hunk : Type 0 where
  pub old_start : ℕ
  pub old_count : ℕ
  pub new_start : ℕ
  pub new_count : ℕ
  pub body : List Text
  pub added : ℕ
  pub removed : ℕ

pub ends_with_newline : Text → Bool
ends_with_newline [] = false
ends_with_newline (c ∷ text) = text_eq (c ∷ text) newline || ends_with_newline text

-- The lines of a file, without the empty one after its last newline.
pub file_lines : Text → List Text
unfolding split_lines ends_with_newline
file_lines text =
    let lines = split_lines text in
    if ends_with_newline text then take (length lines - 1) lines else lines

pub added_lines : Text → List Text
unfolding split_lines strip_line_end
added_lines replacement =
    if text_eq replacement [] then [] else split_lines (strip_line_end replacement)

abbrev pub slice : (first last : ℕ) → List Text → List Text
slice first last lines = take (last - first) (drop first lines)

pub same_lines : List Text → List Text → Bool
same_lines [] [] = true
same_lines [] (b ∷ ys) = false
same_lines (a ∷ xs) [] = false
same_lines (a ∷ xs) (b ∷ ys) = text_eq a b && same_lines xs ys

abbrev no_newline : Text
no_newline = 0x5c ∷ codes " No newline at end of file"

abbrev note_if : Bool → List Text
note_if noted = if noted then no_newline ∷ [] else []

abbrev pub marked : ℕ → List Text → List Text
marked mark = map (λ line. mark ∷ line)

abbrev is_empty : List Text → Bool
is_empty [] = true
is_empty (line ∷ lines) = false

-- The hunk that puts the added lines in the place of those from `start` to `end`.
pub hunk_of :
    (lines : List Text) (start end : ℕ) (added : List Text) (ends_with_newline : Bool) → Hunk
hunk_of lines start end added ended =
    let removed = slice (start - 1) end lines in
    let before = slice (start - 1 - context_lines) (start - 1) lines in
    let after = slice end (end + context_lines) lines in
    let old_start = start - length before in
    let old_count = length before + length removed + length after in
    let new_count = length before + length added + length after in
    let last_line_in_hunk = end + length after == length lines && not ended in
    record {
      old_start = old_start;
      old_count = old_count;
      new_start = if new_count == 0 then old_start - 1 else old_start;
      new_count = new_count;
      body =
          marked 0x20 before
          ++ marked 0x2d removed
          ++ note_if (last_line_in_hunk && is_empty after)
          ++ marked 0x2b added
          ++ note_if (last_line_in_hunk && is_empty after && not (is_empty added))
          ++ marked 0x20 after
          ++ note_if (last_line_in_hunk && not (is_empty after));
      added = length added;
      removed = length removed;
    }

pub suggestion_hunk : SuggestionPatchInput → Option Hunk
unfolding file_lines hunk_of same_lines added_lines ends_with_newline
suggestion_hunk input =
    let lines = file_lines input.head_text in
    let added = added_lines input.replacement in
    let hunk =
      hunk_of lines input.start_line input.end_line added (ends_with_newline input.head_text) in
    if ltb input.start_line 1
      || ltb input.end_line input.start_line
      || ltb (length lines) input.end_line
    then none
    else if same_lines added (slice (input.start_line - 1) input.end_line lines)
    then none
    else some hunk

pub record SuggestionPatch : Type 0 where
  pub patch : Text
  pub added : ℕ
  pub removed : ℕ

-- `lines.join('\n')` with a newline after the last.
with_newlines : List Text → Text
with_newlines [] = []
with_newlines (line ∷ lines) = line ++ newline ++ with_newlines lines

abbrev hunk_range : (start count : ℕ) → Text
hunk_range start count = decimal start ++ codes "," ++ decimal count

patch_of : (encode : Text → List ℕ) (path : Text) → Hunk → SuggestionPatch
unfolding diff_path with_newlines
patch_of encode path hunk =
    let old_path = diff_path encode (codes "a/") path in
    let new_path = diff_path encode (codes "b/") path in
    record {
      patch = with_newlines (
          (codes "diff --git " ++ old_path ++ codes " " ++ new_path)
          ∷ (codes "--- " ++ old_path)
          ∷ (codes "+++ " ++ new_path)
          ∷ (codes "@@ -"
              ++ hunk_range hunk.old_start hunk.old_count
              ++ codes " +"
              ++ hunk_range hunk.new_start hunk.new_count
              ++ codes " @@")
          ∷ hunk.body);
      added = hunk.added;
      removed = hunk.removed;
    }

build_suggestion_patch : (encode : Text → List ℕ) → SuggestionPatchInput → Option SuggestionPatch
unfolding patch_of suggestion_hunk
build_suggestion_patch encode input =
    Option.map (patch_of encode input.path) (suggestion_hunk input)
