-- ===== src/Ai/Context/Examples.antt =====
-- extension/src/ai/contextBuilder.ts: runs on a small change, and the theorems at it.
use gitglasses.Base.{
  List, Text, ℕ, zero, suc, [], ◌∷◌, ◌++◌, ◌≡◌, ◌≤◌, ◌⊎◌, refl, length, take, codes, some,
}
use gitglasses.Ai.Paths.{
  DiffFile, config, docs, categorize_file, rank_files, is_generated_path, kept_files,
  generated_files, pick_files_to_show,
}
use gitglasses.Ai.Paths.Ranking.{rank_files-of_category}
use gitglasses.Ai.Cap.{biggest_first_cap}
use gitglasses.Ai.Cap.Largest.{biggest_first_cap-IsCap, IsCap}
use gitglasses.Ai.Context.{
  cap_for, note_of, build_diff_context, included_count, paths_of, estimate_tokens,
}
use gitglasses.Ai.Context.Longest.{included_count-longest_run, longest_run}
use gitglasses.Ai.Context.Fits.{build_diff_context-paths, build_diff_context-room}

abbrev letters : ℕ → Text
letters zero = []
letters (suc n) = b'x' ∷ letters n

abbrev readme : DiffFile
readme = record { path = codes "README.md"; patch = letters 20 }

abbrev main : DiffFile
main = record { path = codes "src/main.ts"; patch = letters 300 }

abbrev settings : DiffFile
settings = record { path = codes "settings.json"; patch = letters 30 }

abbrev lock : DiffFile
lock = record { path = codes "pnpm-lock.yaml"; patch = letters 5 }

abbrev change : List DiffFile
change = readme ∷ lock ∷ settings ∷ main ∷ []

cmake_is_docs : categorize_file (codes "lib/CMakeLists.txt") ≡ docs
unfolding categorize_file
cmake_is_docs = refl

eslintrc_is_config : categorize_file (codes "app/.eslintrc.cjs") ≡ config
unfolding categorize_file
eslintrc_is_config = refl

ranked_paths :
    paths_of (pick_files_to_show change 3)
    ≡ codes "src/main.ts" ∷ codes "settings.json" ∷ codes "README.md" ∷ []
unfolding pick_files_to_show rank_files is_generated_path categorize_file
ranked_paths = refl

tokens_of_nine : estimate_tokens (letters 9) ≡ 3
unfolding estimate_tokens
tokens_of_nine = refl

share_of_three : biggest_first_cap (100 ∷ 400 ∷ 300 ∷ []) 600 ≡ some 250
unfolding biggest_first_cap
share_of_three = refl

two_of_three : included_count 280 (main ∷ settings ∷ readme ∷ []) ≡ 2
unfolding included_count cap_for biggest_first_cap
two_of_three = refl

ranked_change : rank_files (readme ∷ settings ∷ main ∷ []) ≡ main ∷ settings ∷ readme ∷ []
unfolding rank_files categorize_file
ranked_change = rank_files-of_category (readme ∷ settings ∷ main ∷ [])

biggest_first_cap-IsCap_example :
    IsCap (100 ∷ 400 ∷ 300 ∷ []) 600 (biggest_first_cap (100 ∷ 400 ∷ 300 ∷ []) 600)
biggest_first_cap-IsCap_example = biggest_first_cap-IsCap (100 ∷ 400 ∷ 300 ∷ []) 600

included_count-longest_run_example :
    included_count 280 (main ∷ settings ∷ readme ∷ [])
    ≡ longest_run 280 (main ∷ settings ∷ readme ∷ [])
included_count-longest_run_example = included_count-longest_run 280 (main ∷ settings ∷ readme ∷ [])

build_diff_context-paths_example :
    let context = build_diff_context change 70 in
    (context.included_paths
      ≡ paths_of (
          take (longest_run 280 (rank_files (kept_files change))) (rank_files (kept_files change))))
    × (context.included_paths ++ context.omitted_paths
        ≡ paths_of (rank_files (kept_files change)) ++ paths_of (generated_files change))
build_diff_context-paths_example = build_diff_context-paths change 70

build_diff_context-room_example :
    let context = build_diff_context change 70 in
    (context.included_paths ≡ [])
    ⊎ ((shown : Text) × (length shown ≤ 280)
        × (context.text ≡ shown ++ note_of context.omitted_paths))
build_diff_context-room_example = build_diff_context-room change 70
