-- ===== src/Graph/Find.antt =====
-- Finding in graphLogic.ts: which rows match, the order of the matches, and the next one.
pub mod Next
use gitglasses.Base.{
  some_of, max, includes, starts_with, not, ◌⊎◌, ◌||◌, ◌-◌, ◌&&◌, ◌≤◌, ◌==◌, ◌<◌, ◌+◌, trim,
  text_eq, map, ltb, leb, find_first, codes, All, if◌then◌else◌, Text, Option, List, Bool, ℕ, zero,
  suc, refl, [], ◌∷◌, true, false, none, some, inl, inr, ◌++◌, ◌≡◌, arith,
}
use gitglasses.Base.Decimal.{decimal}

-- `wip` is the uncommitted-changes row.
pub data RowKind : Type 0 where
  commit wip stash : RowKind

pub record GraphRow : Type 0 where
  pub kind : RowKind
  pub sha : Text
  pub summary : Text
  pub author_name : Text
  pub author_email : Text
  pub ref_names : List Text

abbrev is_wip : RowKind → Bool
is_wip wip = true
is_wip commit = false
is_wip stash = false

-- `lower` is `String.prototype.toLowerCase`.
module _ (lower : Text → Text) where
  pub row_matches_query : GraphRow → Text → Bool
  row_matches_query row query =
      let q = lower (trim query) in
      if text_eq q [] || is_wip row.kind
      then false
      else starts_with row.sha q
        || includes (lower row.summary) q
        || includes (lower row.author_name) q
        || includes (lower row.author_email) q
        || some_of (λ name. includes (lower name) q) row.ref_names

-- The loop over the matches, from the front and from the back.
first_above : ℕ → List ℕ → Option ℕ
first_above from [] = none
first_above from (index ∷ rest) =
    let later = first_above from rest in if ltb from index then some index else later

last_below : ℕ → List ℕ → Option ℕ
last_below from [] = none
last_below from (index ∷ rest) = elim (last_below from rest) [
  | some later ↦ some later
  | none ↦ if ltb index from then some index else none
]

last_of : ℕ → List ℕ → ℕ
last_of x [] = x
last_of x (y ∷ ys) = last_of y ys

or_else : Option ℕ → ℕ → ℕ
or_else none d = d
or_else (some i) d = i

pub next_match : List ℕ → ℕ → Bool → Option ℕ
unfolding first_above last_below last_of or_else
next_match [] from backwards = none
next_match (m ∷ ms) from backwards =
    if backwards
    then some (or_else (last_below from (m ∷ ms)) (last_of m ms))
    else some (or_else (first_above from (m ∷ ms)) m)

pub record FindMatch : Type 0 where
  pub sha : Text
  pub index : ℕ

pub record FindTarget : Type 0 where
  pub sha : Text
  pub row : ℕ
  pub loaded : Bool

-- `index_of` is the caller's lookup of a loaded row; `none` for -1.
target_of : (Text → Option ℕ) → ℕ → FindMatch → FindTarget
target_of index_of wip_offset match = elim (index_of match.sha) [
  | some at ↦ record { sha = match.sha; row = at; loaded = true }
  | none ↦ record { sha = match.sha; row = match.index + wip_offset; loaded = false }
]

-- `sort((a, b) => a.row - b.row)` is stable.
insert_target : FindTarget → List FindTarget → List FindTarget
insert_target t [] = t ∷ []
insert_target t (u ∷ us) =
    let later = insert_target t us in if leb t.row u.row then t ∷ u ∷ us else u ∷ later

sort_targets : List FindTarget → List FindTarget
sort_targets [] = []
sort_targets (t ∷ ts) = insert_target t (sort_targets ts)

pub find_targets : List FindMatch → (Text → Option ℕ) → ℕ → List FindTarget
unfolding target_of sort_targets insert_target
find_targets matches index_of wip_offset =
    sort_targets (map (target_of index_of wip_offset) matches)

at_row : Option ℕ → List FindTarget → Option FindTarget
at_row none targets = none
at_row (some at) targets = find_first (λ t. t.row == at) targets

pub next_find_target : List FindTarget → ℕ → Bool → Option FindTarget
unfolding next_match at_row
next_find_target targets from backwards =
    at_row (next_match (map (λ t. t.row) targets) from backwards) targets

-- The find box's counter; `total` is `none` while the host searches.
unfoldable pub find_count_label :
    (query : Text) (total : Option ℕ) (position : ℕ) (truncated : Bool) → Text
find_count_label [] total position truncated = []
find_count_label (c ∷ query) none position truncated = codes "Searching…"
find_count_label (c ∷ query) (some total) position truncated =
    let shown = decimal total ++ (if truncated then codes "+" else []) in
    if total == 0
    then codes "No results"
    else if ltb 0 position
    then decimal position ++ (codes " of " ++ shown)
    else shown ++ codes " found"

pub record PointerPress : Type 0 where
  pub x : ℕ
  pub y : ℕ
  pub time : ℕ

abbrev apart : ℕ → ℕ → ℕ
apart a b = if leb b a then a - b else b - a

-- Whether a contextmenu event came from the pointer.
unfoldable pub context_menu_from_pointer :
    (button client_x client_y time_stamp : ℕ) → Option PointerPress → Bool
context_menu_from_pointer button client_x client_y time_stamp none = button == 2
context_menu_from_pointer button client_x client_y time_stamp (some press) =
    if button == 2
    then true
    else leb press.time time_stamp
      && ltb (time_stamp - press.time) 1000
      && leb (apart client_x press.x) 4
      && leb (apart client_y press.y) 4

pub data Restore : Type 0 where
  apply : Restore
  load : ℕ → Restore

-- `saved_top` is `saved.topSha` and `saved_loaded` is `saved.loaded ?? 0`.
unfoldable pub restore_step :
    (saved_top : Option Text) (saved_loaded loaded_rows : ℕ) (top_loaded has_more : Bool)
    (pages_left : ℕ)
    → Restore
restore_step none saved_loaded loaded_rows top_loaded has_more pages_left = apply
restore_step (some top) saved_loaded loaded_rows top_loaded has_more pages_left =
    if text_eq top [] || top_loaded || not has_more || pages_left == 0
    then apply
    else load (max (loaded_rows + 1) saved_loaded)
