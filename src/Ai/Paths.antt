-- ===== src/Ai/Paths.antt =====
-- extension/src/ai/contextBuilder.ts: the kinds of a path and the ranking by them. Each regular expression is a test on the
-- path with a slash put before it, which stands for `(^|\/)`; the flag `i` folds the letters of ASCII alone.
use mathlib.Core.List.{reverse}
use gitglasses.Base.{
  ◌==◌, ==_iff, le→leb, Bool-cases, All, All-append, ◌≤◌, ◌<◌, ◌⊎◌, inl, inr, sym, subst, ap, refl,
  ◌≡◌, arith, ◌≡◌, ◌==◌, ◌+◌, ◌||◌, ◌&&◌, not, leb, starts_with, includes, some_of, keep_if, take,
  drop, map, codes, if◌then◌else◌, Bool, List, Text, ℕ, [], ◌∷◌, true, false, ◌++◌,
}
pub mod Ranking

pub data FileCategory : Type 0 where
  source config docs : FileCategory

pub record DiffFile : Type 0 where
  pub path : Text
  pub patch : Text

abbrev fold_case : Text → Text
fold_case = map (λ c. if leb 0x41 c && leb c 0x5a then c + 32 else c)

abbrev pub ends_with : Text → Text → Bool
ends_with text suffix = starts_with (reverse text) (reverse suffix)

abbrev ends_with_one : Text → List Text → Bool
ends_with_one text = some_of (ends_with text)

abbrev includes_one : Text → List Text → Bool
includes_one text = some_of (includes text)

abbrev slashed : Text → Text
slashed path = 0x2f ∷ path

unfoldable pub is_generated_path : Text → Bool
is_generated_path path =
    let folded = slashed (fold_case path) in
    ends_with_one folded (
      codes ".lock"
      ∷ codes "/package-lock.json"
      ∷ codes "/pnpm-lock.yaml"
      ∷ codes "/yarn.lock"
      ∷ codes ".min.js"
      ∷ codes ".min.css"
      ∷ [])
    || includes_one (slashed path) (codes "/dist/" ∷ codes "/out/" ∷ codes "/node_modules/" ∷ [])
    || includes_one (folded ++ codes "/") (codes "/generated/" ∷ [])
    || includes_one folded (codes ".generated." ∷ [])
    || ends_with path (codes ".snap")

is_doc : Text → Bool
is_doc path =
    let folded = slashed (fold_case path) in
    ends_with_one folded
      (codes ".md" ∷ codes ".markdown" ∷ codes ".rst" ∷ codes ".txt" ∷ codes ".adoc" ∷ [])
    || includes_one folded (codes "/doc/" ∷ codes "/docs/" ∷ codes "/documentation/" ∷ [])

-- The rest of a name from `rc` on, where that ends it or a dot follows.
abbrev ends_rc : Text → Bool
ends_rc [] = true
ends_rc (c ∷ rest) = c == 0x2e

abbrev has_rc : Text → Bool
has_rc [] = false
has_rc (c ∷ rest) =
    (starts_with (c ∷ rest) (codes "rc") && ends_rc (drop 2 (c ∷ rest))) || has_rc rest

-- The last segment of a path, `name` being what has been read of it.
abbrev last_segment : Text → Text → Text
last_segment name [] = name
last_segment name (c ∷ rest) =
    if c == 0x2f then last_segment [] rest else last_segment (name ++ c ∷ []) rest

abbrev is_rc_name : Text → Bool
is_rc_name name = starts_with name (codes ".") && has_rc (drop 2 name)

is_config : Text → Bool
is_config path =
    ends_with_one (fold_case path) (
      codes ".json"
      ∷ codes ".jsonc"
      ∷ codes ".yml"
      ∷ codes ".yaml"
      ∷ codes ".toml"
      ∷ codes ".ini"
      ∷ codes ".cfg"
      ∷ codes ".conf"
      ∷ codes ".properties"
      ∷ codes ".env"
      ∷ [])
    || is_rc_name (last_segment [] path)
    || ends_with_one (slashed path)
        (codes "/Dockerfile" ∷ codes "/Makefile" ∷ codes "/CMakeLists.txt" ∷ [])

unfoldable pub categorize_file : Text → FileCategory
unfolding is_doc is_config
categorize_file path = if is_doc path then docs else if is_config path then config else source

abbrev pub category_weight : FileCategory → ℕ
category_weight source = 0
category_weight config = 1
category_weight docs = 2

pub weight_of : DiffFile → ℕ
weight_of file = category_weight (categorize_file file.path)

-- A stable insertion: the file goes before those that weigh as much, since it comes before them.
insert_file : DiffFile → List DiffFile → List DiffFile
unfolding weight_of
insert_file file [] = file ∷ []
insert_file file (other ∷ files) =
    let rest = insert_file file files in
    if leb (weight_of file) (weight_of other) then file ∷ other ∷ files else other ∷ rest

unfoldable pub rank_files : List DiffFile → List DiffFile
unfolding insert_file
rank_files [] = []
rank_files (file ∷ files) = insert_file file (rank_files files)

abbrev pub kept_files : List DiffFile → List DiffFile
kept_files = keep_if (λ file. not (is_generated_path file.path))

abbrev pub generated_files : List DiffFile → List DiffFile
generated_files = keep_if (λ file. is_generated_path file.path)

unfoldable pub pick_files_to_show : List DiffFile → ℕ → List DiffFile
pick_files_to_show files max = take max (rank_files (kept_files files) ++ generated_files files)
