-- ===== src/Graph/Selection.antt =====
-- The selection reducer of graphLogic.ts. The anchor is an index or -1.
use gitglasses.Base.{
  ◌+◌, drop, ◌-◌, position_of, max, ltb, ◌==◌, ◌&&◌, take, min, length, keep_if, get_elem?, ◌<◌,
  if◌then◌else◌, Text, Option, List, Bool, ℕ, zero, suc, refl, [], ◌∷◌, true, false, none, some,
  inl, inr, ◌++◌, ◌≡◌, arith,
}
pub mod Invariant
use gitglasses.Base.Int.{ℤ, pos, negsuc}
use gitglasses.Base.Sets.{add, set_of, delete, IsSetList, has}

pub record SelectionState : Type 0 where
  pub selected : List Text
  pub anchor : ℤ

abbrev pub empty_selection : SelectionState
empty_selection = record { selected = []; anchor = negsuc 0 }

pub record ClickModifiers : Type 0 where
  pub ctrl : Bool
  pub shift : Bool

-- `orderedShas.slice(lo, hi + 1)`.
abbrev slice : ℕ → ℕ → List Text → List Text
slice lo hi shas = take (hi - lo) (drop lo shas)

range_of : ℕ → ℕ → List Text → List Text
range_of a b shas = slice (min a b) (max a b + 1) shas

-- A click on row `index`, whose commit is `sha`, without a range.
pick : SelectionState → ℕ → Text → Bool → SelectionState
pick state index sha ctrl =
    if ctrl
    then record {
      selected =
          if has sha state.selected then delete sha state.selected else add sha state.selected;
      anchor = pos index;
    }
    else record { selected = sha ∷ []; anchor = pos index }

extend : SelectionState → ℤ → ℕ → Text → ClickModifiers → List Text → SelectionState
unfolding pick range_of
extend state (negsuc n) index sha modifiers shas = pick state index sha modifiers.ctrl
extend state (pos anchor) index sha modifiers shas =
    if modifiers.shift && ltb anchor (length shas)
    then record { selected = set_of (range_of anchor index shas); anchor = state.anchor }
    else pick state index sha modifiers.ctrl

click : SelectionState → ℕ → ClickModifiers → List Text → Option Text → SelectionState
unfolding extend
click state index modifiers shas none = state
click state index modifiers shas (some sha) = extend state state.anchor index sha modifiers shas

-- An index outside the rows leaves the state as it is: `get_elem?` finds no sha there.
unfoldable pub reduce_selection : SelectionState → ℤ → ClickModifiers → List Text → SelectionState
unfolding click
reduce_selection state (negsuc n) modifiers ordered_shas = state
reduce_selection state (pos index) modifiers ordered_shas =
    click state index modifiers ordered_shas (get_elem? ordered_shas index)

-- Where the anchor goes when the rows are replaced.
clamped : ℕ → ℕ → ℤ
clamped anchor rows = if rows == 0 then negsuc 0 else pos (min anchor (rows - 1))

follow : ℕ → Option Text → List Text → ℤ
unfolding clamped
follow anchor none next_shas = clamped anchor (length next_shas)
follow anchor (some sha) next_shas = elim (position_of sha next_shas) [
  | some moved ↦ pos moved
  | none ↦ clamped anchor (length next_shas)
]

remap_anchor : ℤ → List Text → List Text → ℤ
unfolding follow
remap_anchor (negsuc n) previous_shas next_shas = negsuc 0
remap_anchor (pos anchor) previous_shas next_shas =
    follow anchor (get_elem? previous_shas anchor) next_shas

unfoldable pub remap_selection : SelectionState → List Text → List Text → SelectionState
unfolding remap_anchor
remap_selection state previous_shas next_shas = record {
  selected = keep_if (λ sha. has sha (set_of next_shas)) state.selected;
  anchor = remap_anchor state.anchor previous_shas next_shas;
}

-- The anchor is -1 or a row of the list, and no sha is selected twice.
abbrev pub AnchorIn : ℤ → ℕ → Type 0
AnchorIn (pos a) rows = a < rows
AnchorIn (negsuc n) rows = n ≡ 0

pub record IsSelection (state : SelectionState) (shas : List Text) : Type 0 where
  pub anchored : AnchorIn state.anchor (length shas)
  pub distinct : IsSetList state.selected
  pub listed : (sha : Text) → has sha state.selected ≡ true → has sha shas ≡ true
