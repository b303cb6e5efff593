-- ===== src/Ai/Context.antt =====
-- extension/src/ai/contextBuilder.ts: the sections of a change that a prompt has room for.
use gitglasses.Base.{
  ltb, leb, ◌==◌, if◌then◌else◌, Bool, List, Text, ℕ, zero, suc, [], ◌∷◌, ◌++◌, ◌+◌, ◌*◌, ◌-◌,
  length, take, drop, map, concat, codes, get_elem?, ceil_div, Option, none, some, true, false,
  ◌&&◌,
}
use gitglasses.Base.Decimal.{decimal}
use gitglasses.Ai.Paths.{DiffFile, kept_files, generated_files, rank_files}
use gitglasses.Ai.Cap.{biggest_first_cap}
mod Search
pub mod Fits
pub mod Longest
mod Examples

-- Of a commit: whether it is cut off, its files, and the lines it adds and deletes.
record Commit : Type 0 where
  pub truncated : Bool
  pub file_count : ℕ
  pub additions : ℕ
  pub deletions : ℕ

unfoldable whole_patch_fits : Commit → Bool
whole_patch_fits commit =
    (if commit.truncated then false else true)
    && leb commit.file_count 300
    && leb (commit.additions + commit.deletions) 30000

abbrev pub chars_per_token : ℕ
chars_per_token = 4

estimate_tokens : Text → ℕ
estimate_tokens text = ceil_div (length text) chars_per_token

abbrev pub truncation_marker : Text
truncation_marker = 0xa ∷ codes "… [truncated]"

abbrev pub section_header : Text → Text
section_header path = codes "=== " ++ path ++ codes " ===" ++ 0xa ∷ []

-- `texts.join(', ')`
join_commas : List Text → Text
join_commas [] = []
join_commas (text ∷ []) = text
join_commas (text ∷ other ∷ texts) = text ++ codes ", " ++ join_commas (other ∷ texts)

pub omission_note : List Text → Text
unfolding join_commas
omission_note omitted =
    let suffix = if ltb 8 (length omitted) then codes ", …" else [] in
    let plural = if length omitted == 1 then [] else codes "s" in
    (0xa ∷ codes "… and ")
    ++ decimal (length omitted)
    ++ codes " more file"
    ++ plural
    ++ codes " omitted: "
    ++ join_commas (take 8 omitted)
    ++ suffix
    ++ 0xa ∷ []

pub record DiffContext : Type 0 where
  pub text : Text
  pub included_paths : List Text
  pub omitted_paths : List Text
  pub truncated : Bool

-- What a section takes besides its patch.
abbrev pub overhead_of : DiffFile → ℕ
overhead_of file = length (section_header file.path) + length truncation_marker + 1

pub overheads_from : (budget_chars last : ℕ) → List DiffFile → List ℕ
overheads_from budget_chars last [] = []
overheads_from budget_chars last (file ∷ files) =
    let next = last + overhead_of file in
    let more = overheads_from budget_chars next files in
    if ltb budget_chars next then [] else next ∷ more

abbrev pub overheads : (budget_chars : ℕ) → List DiffFile → List ℕ
overheads budget_chars ranked = 0 ∷ overheads_from budget_chars 0 ranked

abbrev pub elem_or_zero : Option ℕ → ℕ
elem_or_zero none = 0
elem_or_zero (some n) = n

abbrev pub patch_lengths : List DiffFile → List ℕ
patch_lengths = map (λ file. length file.patch)

-- An overhead is there for every count that is asked for.
pub cap_for : (budget_chars : ℕ) (ranked : List DiffFile) (count : ℕ) → Option ℕ
cap_for budget_chars ranked count =
    let overhead = elem_or_zero (get_elem? (overheads budget_chars ranked) count) in
    if count == 0
    then none
    else biggest_first_cap (patch_lengths (take count ranked)) (budget_chars - overhead)

abbrev pub has_cap : Option ℕ → Bool
has_cap none = false
has_cap (some cap) = true

-- The loop that halves the range from `low` to `high`, on fuel.
pub longest_fit : (fits : ℕ → Bool) (fuel low high : ℕ) → ℕ
longest_fit fits zero low high = low
longest_fit fits (suc fuel) low high =
    let middle = ceil_div (low + high) 2 in
    let above = longest_fit fits fuel middle high in
    let below = longest_fit fits fuel low (middle - 1) in
    if ltb low high then (if fits middle then above else below) else low

pub included_count : (budget_chars : ℕ) → List DiffFile → ℕ
unfolding longest_fit overheads_from
included_count budget_chars ranked =
    let high = length (overheads budget_chars ranked) - 1 in
    longest_fit (λ count. has_cap (cap_for budget_chars ranked count)) high 0 high

-- `patch.slice(0, cap)`
abbrev pub slice_to : Option ℕ → Text → Text
slice_to none patch = patch
slice_to (some cap) patch = take cap patch

abbrev pub is_whole : Option ℕ → DiffFile → Bool
is_whole cap file = leb (length file.patch) (elem_or_zero cap)

abbrev pub section : Option ℕ → DiffFile → Text
section cap file =
    if is_whole cap file
    then section_header file.path ++ file.patch ++ 0xa ∷ []
    else section_header file.path ++ slice_to cap file.patch ++ truncation_marker ++ 0xa ∷ []

abbrev some_cut : Option ℕ → List DiffFile → Bool
some_cut cap [] = false
some_cut cap (file ∷ files) = if is_whole cap file then some_cut cap files else true

abbrev pub paths_of : List DiffFile → List Text
paths_of = map (λ file. file.path)

-- The sections that are shown of the ranked files.
pub sections : (budget_chars : ℕ) → List DiffFile → Text
sections budget_chars ranked =
    let low = included_count budget_chars ranked in
    concat (map (section (cap_for budget_chars ranked low)) (take low ranked))

abbrev pub note_of : List Text → Text
note_of [] = []
note_of (path ∷ paths) = omission_note (path ∷ paths)

abbrev pub assemble :
    (budget_chars : ℕ) (kept : List DiffFile) (generated : List Text) → DiffContext
assemble budget_chars [] generated = record {
  text = codes "(no changes)" ++ note_of generated;
  included_paths = [];
  omitted_paths = generated;
  truncated = false;
}
assemble budget_chars (file ∷ files) generated =
    let ranked = rank_files (file ∷ files) in
    let low = included_count budget_chars ranked in
    let included = take low ranked in
    let omitted = paths_of (drop low ranked) ++ generated in
    let shown =
      if low == 0
      then codes "(diff too large for the configured context budget)"
      else sections budget_chars ranked in
    record {
      text = shown ++ note_of omitted;
      included_paths = paths_of included;
      omitted_paths = omitted;
      truncated = some_cut (cap_for budget_chars ranked low) included;
    }

pub build_diff_context : List DiffFile → (budget_tokens : ℕ) → DiffContext
build_diff_context files budget_tokens =
    assemble (budget_tokens * chars_per_token) (kept_files files) (paths_of (generated_files files))
