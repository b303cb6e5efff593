-- ===== src/Ai/Context/Longest.antt =====
-- extension/src/ai/contextBuilder.ts: the files that are shown are the longest run that has room for the least of each.
use gitglasses.Base.{
  ◌==◌, ltb, leb, List, ℕ, zero, suc, [], ◌∷◌, ◌+◌, ◌-◌, ◌≤◌, ◌≡◌, refl, false, arith, ltb→le,
  leb→le, leb→lt, le→leb, le→ltb, inl, inr, Bool-cases, length, take, min, Option, none, some,
  get_elem?, sym, ◌∙◌, if◌then◌else◌, ap,
}
use gitglasses.Ai.Paths.{DiffFile}
use gitglasses.Ai.Cap.{biggest_first_cap, min_patch_chars}
use gitglasses.Ai.Cap.Largest.{biggest_first_cap-IsCap, capped, capped-le-sum, capped_mono, IsCap}
use gitglasses.Ai.Context.{
  included_count, overheads, cap_for, has_cap, overheads, overheads_from, overhead_of,
  patch_lengths,
}
use gitglasses.Ai.Context.Search.{longest_fit_lem}

-- The least that a file is shown with: its heading, the note of the cut, and 160 characters or the whole patch.
abbrev pub need : DiffFile → ℕ
need file = overhead_of file + min (length file.patch) min_patch_chars

-- Going down the ranking as long as the next file has that much room.
abbrev pub longest_run : (budget_chars : ℕ) → List DiffFile → ℕ
longest_run budget_chars [] = 0
longest_run budget_chars (file ∷ files) =
    let more = longest_run (budget_chars - need file) files in
    if leb (need file) budget_chars then suc more else 0

abbrev pub total_overhead : List DiffFile → ℕ
total_overhead [] = 0
total_overhead (file ∷ files) = overhead_of file + total_overhead files

abbrev total_need : List DiffFile → ℕ
total_need [] = 0
total_need (file ∷ files) = need file + total_need files

total_need_sum :
    (files : List DiffFile)
    → total_need files ≡ total_overhead files + capped min_patch_chars (patch_lengths files)
total_need_sum [] = omega arith
total_need_sum (file ∷ files) = omega (arith, total_need_sum files)

leb_shift : (n t b : ℕ) → n ≤ b → leb (n + t) b ≡ leb t (b - n)
leb_shift n t b h = elim (Bool-cases (leb t (b - n))) [
  | inl e ↦ rw e (le→leb (n + t) b (omega (arith, leb→le t (b - n) e)))
  | inr e ↦ rw e (ground (arith, leb→lt t (b - n) e))
]

leb-suc : (a b : ℕ) → leb (suc a) (suc b) ≡ leb a b
leb-suc a b = elim (Bool-cases (leb a b)) [
  | inl e ↦ rw e (le→leb (suc a) (suc b) (omega (arith, leb→le a b e)))
  | inr e ↦ rw e (ground (arith, leb→lt a b e))
]

leb-longest_run :
    (k budget_chars : ℕ) (files : List DiffFile)
    → k ≤ length files
    → leb (total_need (take k files)) budget_chars ≡ leb k (longest_run budget_chars files)
leb-longest_run zero b files h =
    rw (le→leb 0 b (omega arith)) (rw (le→leb 0 (longest_run b files) (omega arith)) refl)
leb-longest_run (suc k) b [] h = elim h [ ]
leb-longest_run (suc k) b (file ∷ files) h =
    let rest = leb-longest_run k (b - need file) files (omega arith) in
    elim (Bool-cases (leb (need file) b)) [
      | inl e ↦ rw e (
          leb_shift (need file) (total_need (take k files)) b (leb→le (need file) b e)
          ∙ (rest ∙ sym (leb-suc k (longest_run (b - need file) files))))
      | inr e ↦ rw e (ground (arith, leb→lt (need file) b e))
    ]

overhead_at :
    (budget_chars k last : ℕ) (files : List DiffFile)
    → last ≤ budget_chars
    → k ≤ length (overheads_from budget_chars last files)
    → (k ≤ length files)
      × (get_elem? (last ∷ overheads_from budget_chars last files) k
          ≡ some (last + total_overhead (take k files)))
      × (last + total_overhead (take k files) ≤ budget_chars)
unfolding overheads_from
overhead_at b zero last files below h = (omega arith, ap some (omega arith), omega (arith, below))
overhead_at b (suc k) last [] below h = elim h [ ]
overhead_at b (suc k) last (file ∷ files) below h =
    elim (Bool-cases (ltb b (last + overhead_of file))) [
      | inl e ↦ elim (rw e at h) [ ]
      | inr e ↦
          let under = ltb→le b (last + overhead_of file) e in
          let h' : suc k ≤ suc (length (overheads_from b (last + overhead_of file) files)) =
            rw e at h in
          let (here, is, room) =
            overhead_at b k (last + overhead_of file) files under (omega (arith, h')) in
          rw e (omega (arith, here), rw is (ap some (omega arith)), omega (arith, room))
    ]

pub longest_run-le-overheads :
    (budget_chars last b : ℕ) (files : List DiffFile)
    → b + last ≤ budget_chars
    → longest_run b files ≤ length (overheads_from budget_chars last files)
unfolding overheads_from
longest_run-le-overheads budget_chars last b [] h = omega arith
longest_run-le-overheads budget_chars last b (file ∷ files) h =
    elim (Bool-cases (leb (need file) b)) [
      | inl e ↦
          let room = leb→le (need file) b e in
          let fits : ltb budget_chars (last + overhead_of file) ≡ false =
            le→ltb budget_chars (last + overhead_of file) (omega (arith, room)) in
          let rest =
            longest_run-le-overheads budget_chars (last + overhead_of file) (b - need file) files
              (omega (arith, room)) in
          rw e (rw fits (omega (arith, rest)))
      | inr e ↦ rw e (omega arith)
    ]

-- There is a share just when the files fit under the least that is of use.
has_cap-biggest_first_cap :
    (lengths : List ℕ) (budget : ℕ)
    → has_cap (biggest_first_cap lengths budget) ≡ leb (capped min_patch_chars lengths) budget
has_cap-biggest_first_cap lengths budget =
    go (biggest_first_cap lengths budget) (biggest_first_cap-IsCap lengths budget)
  where
    go :
        (cap : Option ℕ)
        → IsCap lengths budget cap
        → has_cap cap ≡ leb (capped min_patch_chars lengths) budget
    go none h = ground (arith, h)
    go (some cap) (inl h) =
        rw
          (le→leb (capped min_patch_chars lengths) budget
            (omega (arith, h.0, capped-le-sum min_patch_chars lengths)))
          refl
    go (some cap) (inr h) =
        rw
          (le→leb (capped min_patch_chars lengths) budget
            (omega (arith, h.1, capped_mono min_patch_chars cap lengths h.0)))
          refl

pub cap_for_lem :
    (budget_chars : ℕ) (ranked : List DiffFile) (count : ℕ)
    → 1 ≤ count
    → count ≤ length (overheads_from budget_chars 0 ranked)
    → let files = take count ranked in
      (count ≤ length ranked)
      × (total_overhead files ≤ budget_chars)
      × (cap_for budget_chars ranked count
          ≡ biggest_first_cap (patch_lengths files) (budget_chars - total_overhead files))
unfolding cap_for
cap_for_lem b ranked zero h within = elim h [ ]
cap_for_lem b ranked (suc k) h within =
    let files = take (suc k) ranked in
    let (here, is, room) = overhead_at b (suc k) 0 ranked (omega arith) within in
    let at : get_elem? (overheads b ranked) (suc k) ≡ some (total_overhead files) =
      is ∙ ap some (omega arith) in
    let some_file : (suc k == 0) ≡ false = ground arith in
    (here, omega (arith, room), rw some_file (rw at refl))

-- The first files have a share just when the least of each fits.
pub has_cap-cap_for :
    (budget_chars : ℕ) (ranked : List DiffFile) (count : ℕ)
    → 1 ≤ count
    → count ≤ length (overheads_from budget_chars 0 ranked)
    → has_cap (cap_for budget_chars ranked count) ≡ leb count (longest_run budget_chars ranked)
has_cap-cap_for b ranked count h within =
    let files = take count ranked in
    let (here, room, is) = cap_for_lem b ranked count h within in
    let least = capped min_patch_chars (patch_lengths files) in
    let fits : leb least (b - total_overhead files) ≡ leb (total_need files) b =
      rw (total_need_sum files) (sym (leb_shift (total_overhead files) least b room)) in
    rw is (
      has_cap-biggest_first_cap (patch_lengths files) (b - total_overhead files)
      ∙ (fits ∙ leb-longest_run count b ranked here))

-- The halving search over the shares ends at the longest run of the ranking that has room for the least of each of its
-- files.
pub included_count-longest_run :
    (budget_chars : ℕ) (ranked : List DiffFile)
    → included_count budget_chars ranked ≡ longest_run budget_chars ranked
unfolding included_count
included_count-longest_run b ranked =
    let high = length (overheads b ranked) - 1 in
    let top = length (overheads_from b 0 ranked) in
    longest_fit_lem (λ count. has_cap (cap_for b ranked count)) top (longest_run b ranked)
      (has_cap-cap_for b ranked) high 0 high (omega arith)
      (omega (arith, longest_run-le-overheads b 0 b ranked (omega arith))) (omega arith)
      (omega arith)
