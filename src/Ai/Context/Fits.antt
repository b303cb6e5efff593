-- ===== src/Ai/Context/Fits.antt =====
-- extension/src/ai/contextBuilder.ts: the sections stay within the budget, and every path is shown or named.
use mathlib.Core.Bool.{true≢false}
use gitglasses.Base.{
  subst, leb, List, Text, ℕ, zero, suc, [], ◌∷◌, ◌++◌, ◌+◌, ◌*◌, ◌-◌, ◌≤◌, ◌≡◌, refl, true, arith,
  leb→le, le→leb, inl, inr, ◌⊎◌, Bool-cases, Option-cases, length, take, drop, min, map, concat,
  some, length-append, length-take, take-append-drop, sym, ap, ◌∙◌, append_assoc, ◌==◌, ==_iff,
}
use gitglasses.Ai.Paths.{DiffFile, kept_files, generated_files, rank_files}
use gitglasses.Ai.Cap.{biggest_first_cap}
use gitglasses.Ai.Cap.Largest.{biggest_first_cap-IsCap, capped, capped-le-sum, IsCap}
use gitglasses.Ai.Context.{
  build_diff_context, included_count, cap_for, has_cap, overheads_from, overhead_of, patch_lengths,
  paths_of, section, section_header, sections, truncation_marker, chars_per_token, assemble,
  note_of,
}
use gitglasses.Ai.Context.Longest.{
  included_count-longest_run, longest_run, longest_run-le-overheads, cap_for_lem, has_cap-cap_for,
  total_overhead,
}

length-whole-le :
    (heading patch marker : Text) (cap : ℕ)
    → length patch ≤ cap
    → length (heading ++ patch ++ 0xa ∷ [])
      ≤ length heading + length marker + 1 + min (length patch) cap
length-whole-le heading patch marker cap h =
    omega (arith, length-append (heading ++ patch) (0xa ∷ []), length-append heading patch)

length-cut-le :
    (heading patch marker : Text) (cap : ℕ)
    → length (heading ++ take cap patch ++ marker ++ 0xa ∷ [])
      ≤ length heading + length marker + 1 + min (length patch) cap
length-cut-le heading patch marker cap =
    let cut = take cap patch in
    omega (
      arith,
      length-append (heading ++ cut ++ marker) (0xa ∷ []),
      length-append (heading ++ cut) marker,
      length-append heading cut,
      length-take cap patch,
    )

length-section-le :
    (cap : ℕ) (file : DiffFile)
    → length (section (some cap) file) ≤ overhead_of file + min (length file.patch) cap
length-section-le cap file =
    let heading = section_header file.path in
    elim (Bool-cases (leb (length file.patch) cap)) [
      | inl e ↦ rw e (
          length-whole-le heading file.patch truncation_marker cap
            (leb→le (length file.patch) cap e))
      | inr e ↦ rw e (length-cut-le heading file.patch truncation_marker cap)
    ]

length-sections-le :
    (cap : ℕ) (files : List DiffFile)
    → length (concat (map (section (some cap)) files))
      ≤ total_overhead files + capped cap (patch_lengths files)
length-sections-le cap [] = omega arith
length-sections-le cap (file ∷ files) = omega (
  arith,
  length-append (section (some cap) file) (concat (map (section (some cap)) files)),
  length-section-le cap file,
  length-sections-le cap files,
)

capped-le-budget :
    (lengths : List ℕ) (budget cap : ℕ)
    → biggest_first_cap lengths budget ≡ some cap
    → capped cap lengths ≤ budget
capped-le-budget lengths budget cap e =
    go (subst (IsCap lengths budget) e (biggest_first_cap-IsCap lengths budget))
  where
    go : IsCap lengths budget (some cap) → capped cap lengths ≤ budget
    go (inl h) = omega (arith, h.0, capped-le-sum cap lengths)
    go (inr h) = h.1

-- The sections that are shown have at most as many characters as the budget.
pub length-sections :
    (budget_chars : ℕ) (ranked : List DiffFile)
    → length (sections budget_chars ranked) ≤ budget_chars
unfolding sections
length-sections b ranked = rw (included_count-longest_run b ranked) (go (longest_run b ranked) refl)
  where
    go :
        (low : ℕ)
        → low ≡ longest_run b ranked
        → length (concat (map (section (cap_for b ranked low)) (take low ranked))) ≤ b
    go zero e = omega arith
    go (suc k) e =
        let files = take (suc k) ranked in
        let within : suc k ≤ length (overheads_from b 0 ranked) =
          omega (arith, e, longest_run-le-overheads b 0 b ranked (omega arith)) in
        let (here, room, is) = cap_for_lem b ranked (suc k) (omega arith) within in
        let has : has_cap (cap_for b ranked (suc k)) ≡ true =
          has_cap-cap_for b ranked (suc k) (omega arith) within
          ∙ le→leb (suc k) (longest_run b ranked) (omega (arith, e)) in
        elim (Option-cases (cap_for b ranked (suc k))) [
          | inl none_left ↦ absurd (true≢false (sym has ∙ ap has_cap none_left))
          | inr (share, found) ↦
              let fits =
                capped-le-budget (patch_lengths files) (b - total_overhead files) share
                  (sym is ∙ found) in
              rw found (omega (arith, length-sections-le share files, fits, room))
        ]

rank_files-nil : rank_files [] ≡ []
unfolding rank_files
rank_files-nil = refl

paths_of-append : (xs ys : List DiffFile) → paths_of (xs ++ ys) ≡ paths_of xs ++ paths_of ys
paths_of-append [] ys = refl
paths_of-append (x ∷ xs) ys = ap (◌∷◌ x.path) (paths_of-append xs ys)

split_paths :
    (low : ℕ) (ranked : List DiffFile) (generated : List Text)
    → paths_of (take low ranked) ++ (paths_of (drop low ranked) ++ generated)
      ≡ paths_of ranked ++ generated
split_paths low ranked generated =
    let whole =
      sym (paths_of-append (take low ranked) (drop low ranked))
      ∙ ap paths_of (take-append-drop low ranked) in
    rw (sym whole)
      (sym (append_assoc (paths_of (take low ranked)) (paths_of (drop low ranked)) generated))

-- Of the files that are not generated, in their ranking, the longest run that has room for the least of each is shown; the
-- other paths, the generated ones last, are the ones that are named as left out.
pub build_diff_context-paths :
    (files : List DiffFile) (budget_tokens : ℕ)
    → let ranked = rank_files (kept_files files) in
      let context = build_diff_context files budget_tokens in
      (context.included_paths
        ≡ paths_of (take (longest_run (budget_tokens * chars_per_token) ranked) ranked))
      × (context.included_paths ++ context.omitted_paths
          ≡ paths_of ranked ++ paths_of (generated_files files))
unfolding build_diff_context
build_diff_context-paths files budget_tokens = go (kept_files files)
  where
    generated : List Text
    generated = paths_of (generated_files files)

    budget_chars : ℕ
    budget_chars = budget_tokens * chars_per_token

    go :
        (kept : List DiffFile)
        → let ranked = rank_files kept in
          let context = assemble budget_chars kept generated in
          (context.included_paths ≡ paths_of (take (longest_run budget_chars ranked) ranked))
          × (context.included_paths ++ context.omitted_paths ≡ paths_of ranked ++ generated)
    go [] = rw rank_files-nil (refl, refl)
    go (file ∷ kept) =
        let ranked = rank_files (file ∷ kept) in
        (
          ap (λ low. paths_of (take low ranked)) (included_count-longest_run budget_chars ranked),
          split_paths (included_count budget_chars ranked) ranked generated,
        )

-- What is shown, when some file is, has at most four characters for each token of the budget; a note of the paths that are
-- left out follows it.
pub build_diff_context-room :
    (files : List DiffFile) (budget_tokens : ℕ)
    → let context = build_diff_context files budget_tokens in
      (context.included_paths ≡ [])
      ⊎ ((shown : Text) × (length shown ≤ budget_tokens * chars_per_token)
          × (context.text ≡ shown ++ note_of context.omitted_paths))
unfolding build_diff_context
build_diff_context-room files budget_tokens = go (kept_files files)
  where
    generated : List Text
    generated = paths_of (generated_files files)

    budget_chars : ℕ
    budget_chars = budget_tokens * chars_per_token

    go :
        (kept : List DiffFile)
        → let context = assemble budget_chars kept generated in
          (context.included_paths ≡ [])
          ⊎ ((shown : Text) × (length shown ≤ budget_chars)
              × (context.text ≡ shown ++ note_of context.omitted_paths))
    go [] = inl refl
    go (file ∷ kept) =
        let ranked = rank_files (file ∷ kept) in
        let low = included_count budget_chars ranked in
        elim (Bool-cases (low == 0)) [
          | inl e ↦ inl (ap (λ n. paths_of (take n ranked)) ((==_iff low 0).0 e))
          | inr e ↦
              inr (sections budget_chars ranked, length-sections budget_chars ranked, rw e refl)
        ]
