-- ===== src/Ai/Paths/Ranking.antt =====
-- extension/src/ai/contextBuilder.ts: the ranking is by kind, and within a kind in the order of the change.
use gitglasses.Base.{
  ◌==◌, ==_iff, le→leb, Bool-cases, All, All-append, ◌≤◌, ◌<◌, ◌⊎◌, inl, inr, sym, subst, ap, refl,
  ◌≡◌, arith, ◌≡◌, ◌==◌, leb, keep_if, List, ℕ, [], ◌∷◌, false, ◌++◌,
}
use gitglasses.Ai.Paths.{
  FileCategory, source, config, docs, DiffFile, categorize_file, category_weight, weight_of,
  insert_file, rank_files,
}

-- The files of a category, in their order.
abbrev of_category : FileCategory → List DiffFile → List DiffFile
of_category category = keep_if (λ file. weight_of file == category_weight category)

abbrev AllWeigh : (ℕ → Type 0) → List DiffFile → Type 0
AllWeigh P = All (λ file. P (weight_of file))

of_category-AllWeigh :
    (P : ℕ → Type 0) (category : FileCategory) (files : List DiffFile)
    → P (category_weight category)
    → AllWeigh P (of_category category files)
of_category-AllWeigh P category [] p = tt
of_category-AllWeigh P category (file ∷ files) p =
    elim (Bool-cases (weight_of file == category_weight category)) [
      | inl e ↦ rw e (
        subst P (sym ((==_iff (weight_of file) (category_weight category)).0 e)) p,
        of_category-AllWeigh P category files p,
      )
      | inr e ↦ rw e (of_category-AllWeigh P category files p)
    ]

insert_before :
    (file : DiffFile) (files : List DiffFile)
    → AllWeigh (λ w. weight_of file ≤ w) files
    → insert_file file files ≡ file ∷ files
unfolding insert_file
insert_before file [] h = refl
insert_before file (other ∷ files) h = rw (le→leb (weight_of file) (weight_of other) h.0) refl

insert_after :
    (file : DiffFile) (before files : List DiffFile)
    → AllWeigh (λ w. w < weight_of file) before
    → insert_file file (before ++ files) ≡ before ++ insert_file file files
unfolding insert_file
insert_after file [] files h = refl
insert_after file (other ∷ before) files h =
    let over : leb (weight_of file) (weight_of other) ≡ false = ground (arith, h.0) in
    rw over (ap (◌∷◌ other) (insert_after file before files h.1))

category_weight_cases :
    (category : FileCategory)
    → (category_weight category ≡ 0)
      ⊎ ((category_weight category ≡ 1) ⊎ (category_weight category ≡ 2))
category_weight_cases source = inl refl
category_weight_cases config = inr (inl refl)
category_weight_cases docs = inr (inr refl)

weight_cases :
    (file : DiffFile) → (weight_of file ≡ 0) ⊎ ((weight_of file ≡ 1) ⊎ (weight_of file ≡ 2))
unfolding weight_of
weight_cases file = category_weight_cases (categorize_file file.path)

insert_file-of_category :
    (file : DiffFile) (files : List DiffFile)
    → insert_file file
        (of_category source files ++ (of_category config files ++ of_category docs files))
      ≡ of_category source (file ∷ files)
        ++ (of_category config (file ∷ files) ++ of_category docs (file ∷ files))
insert_file-of_category file files =
    let sources = of_category source files in
    let configs = of_category config files in
    let texts = of_category docs files in
    let weighs = of_category-AllWeigh in
    elim (weight_cases file) [
      | inl e ↦
          let P : ℕ → Type 0 = λ w. weight_of file ≤ w in
          let all =
            All-append (λ (f : DiffFile). P (weight_of f)) sources (configs ++ texts)
              (weighs P source files (omega arith))
              (All-append (λ (f : DiffFile). P (weight_of f)) configs texts
                (weighs P config files (omega arith)) (weighs P docs files (omega arith))) in
          rw (insert_before file (sources ++ (configs ++ texts)) all) (rw e refl)
      | inr (inl e) ↦
          let P : ℕ → Type 0 = λ w. weight_of file ≤ w in
          let all =
            All-append (λ (f : DiffFile). P (weight_of f)) configs texts
              (weighs P config files (omega arith)) (weighs P docs files (omega arith)) in
          let after =
            insert_after file sources (configs ++ texts)
              (weighs (λ w. w < weight_of file) source files (omega arith)) in
          rw after (rw (insert_before file (configs ++ texts) all) (rw e refl))
      | inr (inr e) ↦
          let P : ℕ → Type 0 = λ w. w < weight_of file in
          let after_sources =
            insert_after file sources (configs ++ texts) (weighs P source files (omega arith)) in
          let after_configs =
            insert_after file configs texts (weighs P config files (omega arith)) in
          let last =
            insert_before file texts (weighs (λ w. weight_of file ≤ w) docs files (omega arith)) in
          rw after_sources (rw after_configs (rw last (rw e refl)))
    ]

-- The ranking is the source files, then the configuration, then the documentation, each in the order of the change.
pub rank_files-of_category :
    (files : List DiffFile)
    → rank_files files
      ≡ of_category source files ++ (of_category config files ++ of_category docs files)
unfolding rank_files
rank_files-of_category [] = refl
rank_files-of_category (file ∷ files) =
    rw (rank_files-of_category files) (insert_file-of_category file files)
