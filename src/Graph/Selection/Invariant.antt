-- ===== src/Graph/Selection/Invariant.antt =====
-- What the clicks and a replaced row list keep of the selection, and what a click selects.
use gitglasses.Base.{
  keep_if, ◌-◌, max, ◌∙◌, min, ◌↔◌, not, ap, ◌+◌, text_eq, sym, ltb, length, drop, ◌<◌, ◌&&◌,
  text_eq_iff, take, if◌then◌else◌, Option-cases, Bool-cases, ◌≤◌, position_of, get_elem?, Bool,
  List, Text, ℕ, zero, suc, refl, [], ◌∷◌, true, false, some, inl, inr, ◌≡◌, arith,
}
use gitglasses.Base.Int.{ℤ, pos, negsuc}
use gitglasses.Graph.Selection.{
  follow, AnchorIn, remap_anchor, clamped, set_of, has, IsSelection, ClickModifiers, range_of, pick,
  extend, SelectionState, remap_selection, reduce_selection,
}
use gitglasses.Base.Sets.{
  IsSetList, has-delete, has-set_of, has-add, IsSetList-set_of, IsSetList-delete, IsSetList-add,
}

pub has-get_elem? :
    (sha : Text) (shas : List Text) (i : ℕ) → get_elem? shas i ≡ some sha → has sha shas ≡ true
has-get_elem? sha [] i h = cc
has-get_elem? sha (s ∷ shas) zero h = ground (arith, text_eq_iff s sha)
has-get_elem? sha (s ∷ shas) (suc i) h = ground (arith, has-get_elem? sha shas i h)

pub lt-get_elem? :
    (sha : Text) (shas : List Text) (i : ℕ) → get_elem? shas i ≡ some sha → i < length shas
lt-get_elem? sha [] i h = cc
lt-get_elem? sha (s ∷ shas) zero h = omega arith
lt-get_elem? sha (s ∷ shas) (suc i) h = omega (arith, lt-get_elem? sha shas i h)

position_of-get_elem? :
    (sha : Text) (shas : List Text) (i : ℕ)
    → position_of sha shas ≡ some i
    → get_elem? shas i ≡ some sha
position_of-get_elem? sha [] i h = cc
position_of-get_elem? sha (s ∷ shas) i h = elim (Bool-cases (text_eq s sha)) [
  | inl same ↦ let e : i ≡ 0 = ground (arith, same) in rw e (ap some ((text_eq_iff s sha).0 same))
  | inr other ↦ elim (Option-cases (position_of sha shas)) [
    | inl e ↦ absurd (ground (arith, e, other))
    | inr (j, e) ↦
        let f : i ≡ suc j = ground (arith, e, other) in rw f (position_of-get_elem? sha shas j e)
  ]
]

-- A member of a slice is a row of it, and the other way round.
has-slice :
    (sha : Text) (shas : List Text) (lo n : ℕ)
    → has sha (take n (drop lo shas)) ≡ true
    → (k : ℕ) × (lo ≤ k) × (k < lo + n) × (get_elem? shas k ≡ some sha)
has-slice sha shas lo zero h = cc
has-slice sha [] zero (suc n) h = cc
has-slice sha [] (suc lo) (suc n) h = cc
has-slice sha (s ∷ shas) (suc lo) (suc n) h =
    let (k, a, b, e) = has-slice sha shas lo (suc n) h in
    (suc k, omega (arith, a), omega (arith, b), e)
has-slice sha (s ∷ shas) zero (suc n) h = elim (Bool-cases (text_eq s sha)) [
  | inl same ↦ (0, omega arith, omega arith, ap some ((text_eq_iff s sha).0 same))
  | inr other ↦
      let (k, a, b, e) = has-slice sha shas zero n (ground (arith, other)) in
      (suc k, omega arith, omega (arith, b), e)
]

slice-has :
    (sha : Text) (shas : List Text) (lo n k : ℕ)
    → lo ≤ k
    → k < lo + n
    → get_elem? shas k ≡ some sha
    → has sha (take n (drop lo shas)) ≡ true
slice-has sha [] lo n k a b e = cc
slice-has sha (s ∷ shas) (suc lo) n zero a b e = elim a [ ]
slice-has sha (s ∷ shas) (suc lo) n (suc k) a b e =
    slice-has sha shas lo n k (omega (arith, a)) (omega (arith, b)) e
slice-has sha (s ∷ shas) zero zero k a b e = absurd (omega (arith, b))
slice-has sha (s ∷ shas) zero (suc n) zero a b e = ground (arith, text_eq_iff s sha)
slice-has sha (s ∷ shas) zero (suc n) (suc k) a b e =
    ground (arith, slice-has sha shas zero n k (omega arith) (omega (arith, b)) e)

range-listed :
    (sha : Text) (shas : List Text) (a b : ℕ)
    → has sha (set_of (range_of a b shas)) ≡ true
    → has sha shas ≡ true
unfolding range_of
range-listed sha shas a b h =
    let member = sym (has-set_of sha (range_of a b shas)) ∙ h in
    let (k, l, u, e) = has-slice sha shas (min a b) (max a b + 1 - min a b) member in
    has-get_elem? sha shas k e

pick-IsSelection :
    (state : SelectionState) (shas : List Text) (index : ℕ) (sha : Text) (ctrl : Bool)
    → get_elem? shas index ≡ some sha
    → IsSelection state shas
    → IsSelection (pick state index sha ctrl) shas
unfolding pick
pick-IsSelection state shas index sha ctrl e v = record {
  anchored = ground (arith, lt-get_elem? sha shas index e);
  distinct = ground (
    arith,
    IsSetList-add sha state.selected v.distinct,
    IsSetList-delete sha state.selected v.distinct,
  );
  listed = λ u h. ground (
    arith,
    has-add sha u state.selected,
    has-delete sha u state.selected,
    v.listed u,
    text_eq_iff sha u,
    has-get_elem? sha shas index e,
  );
}

extend-IsSelection :
    (state : SelectionState) (shas : List Text) (anchor : ℤ) (index : ℕ) (sha : Text)
    (m : ClickModifiers)
    → state.anchor ≡ anchor
    → get_elem? shas index ≡ some sha
    → IsSelection state shas
    → IsSelection (extend state anchor index sha m shas) shas
unfolding extend
extend-IsSelection state shas (negsuc n) index sha m w e v =
    pick-IsSelection state shas index sha m.ctrl e v
extend-IsSelection state shas (pos a) index sha m w e v =
    elim (Bool-cases (m.shift && ltb a (length shas))) [
      | inl range ↦ rw range (record {
        anchored = v.anchored;
        distinct = IsSetList-set_of (range_of a index shas);
        listed = λ u. range-listed u shas a index;
      })
      | inr single ↦ rw single (pick-IsSelection state shas index sha m.ctrl e v)
    ]

pub reduce_selection-IsSelection :
    (state : SelectionState) (index : ℤ) (m : ClickModifiers) (shas : List Text)
    → IsSelection state shas
    → IsSelection (reduce_selection state index m shas) shas
unfolding reduce_selection
reduce_selection-IsSelection state (negsuc n) m shas v = v
reduce_selection-IsSelection state (pos i) m shas v = elim (Option-cases (get_elem? shas i)) [
  | inl e ↦ rw e v
  | inr (sha, e) ↦ rw e (extend-IsSelection state shas state.anchor i sha m refl e v)
]

get_elem?-lt :
    (shas : List Text) (i : ℕ) → i < length shas → (sha : Text) × (get_elem? shas i ≡ some sha)
get_elem?-lt [] i h = elim h [ ]
get_elem?-lt (s ∷ shas) zero h = (s, refl)
get_elem?-lt (s ∷ shas) (suc i) h = get_elem?-lt shas i (omega (arith, h))

shifted :
    (state : SelectionState) (shas : List Text) (anchor index : ℕ) (ctrl : Bool) (a : ℤ)
    (sha : Text)
    → a ≡ pos anchor
    → anchor < length shas
    → extend state a index sha (record { ctrl = ctrl; shift = true }) shas
      ≡ record { selected = set_of (range_of anchor index shas); anchor = state.anchor }
unfolding extend
shifted state shas anchor index ctrl (negsuc n) sha w h = cc
shifted state shas anchor index ctrl (pos a) sha w h = ground arith

-- Where there is an anchor in the list, a shift-click selects exactly the rows from it to the
-- clicked row, in either direction, and keeps the anchor.
pub reduce_selection-range :
    (state : SelectionState) (shas : List Text) (anchor index : ℕ) (ctrl : Bool)
    → state.anchor ≡ pos anchor
    → anchor < length shas
    → index < length shas
    → let after = reduce_selection state (pos index) (record { ctrl = ctrl; shift = true }) shas in
      (after.anchor ≡ pos anchor)
      × ((sha : Text)
          → (has sha after.selected ≡ true) ↔ (
              (k : ℕ) × (min anchor index ≤ k)
              × (k ≤ max anchor index)
              × (get_elem? shas k ≡ some sha)))
unfolding reduce_selection range_of
reduce_selection-range state shas anchor index ctrl w a i =
    let (clicked, e) = get_elem?-lt shas index i in
    rw (e, shifted state shas anchor index ctrl state.anchor clicked w a)
      (
        w,
        λ sha. (
          (λ h.
              let (k, l, u, g) =
                has-slice sha shas (min anchor index) (max anchor index + 1 - min anchor index)
                  (sym (has-set_of sha (range_of anchor index shas)) ∙ h) in
              (k, l, omega (arith, u), g)),
          (λ (k, l, u, g).
              has-set_of sha (range_of anchor index shas)
              ∙ slice-has sha shas (min anchor index) (max anchor index + 1 - min anchor index) k l
                  (omega (arith, u)) g),
        ),
      )

extend_ctrl :
    (state : SelectionState) (shas : List Text) (a : ℤ) (index : ℕ) (sha : Text)
    → extend state a index sha (record { ctrl = true; shift = false }) shas
      ≡ pick state index sha true
unfolding extend
extend_ctrl state shas (negsuc n) index sha = refl
extend_ctrl state shas (pos a) index sha = refl

-- A ctrl-click turns the clicked commit over and leaves every other commit as it was.
pub reduce_selection-toggle :
    (state : SelectionState) (shas : List Text) (index : ℕ) (sha other : Text)
    → get_elem? shas index ≡ some sha
    → let after = reduce_selection state (pos index) (record { ctrl = true; shift = false }) shas in
      (after.anchor ≡ pos index)
      × (has other after.selected ≡ (
          if text_eq sha other then not (has other state.selected) else has other state.selected))
unfolding reduce_selection pick
reduce_selection-toggle state shas index sha other e =
    rw (e, extend_ctrl state shas state.anchor index sha)
      (
        refl,
        ground (
          arith,
          has-add sha other state.selected,
          has-delete sha other state.selected,
          text_eq_iff sha other,
        ),
      )

has-keep_if :
    (p : Text → Bool) (sha : Text) (shas : List Text)
    → has sha (keep_if p shas) ≡ (has sha shas && p sha)
has-keep_if p sha [] = refl
has-keep_if p sha (s ∷ shas) = ground (arith, has-keep_if p sha shas, text_eq_iff s sha)

IsSetList-keep_if :
    (p : Text → Bool) (shas : List Text) → IsSetList shas → IsSetList (keep_if p shas)
IsSetList-keep_if p [] d = tt
IsSetList-keep_if p (s ∷ shas) d =
    ground (arith, IsSetList-keep_if p shas d.1, has-keep_if p s shas)

clamped-AnchorIn : (anchor rows : ℕ) → AnchorIn (clamped anchor rows) rows
unfolding clamped
clamped-AnchorIn anchor rows = ground arith

remap_anchor-AnchorIn :
    (a : ℤ) (previous_shas next_shas : List Text)
    → AnchorIn (remap_anchor a previous_shas next_shas) (length next_shas)
unfolding remap_anchor
remap_anchor-AnchorIn (negsuc n) previous_shas next_shas = refl
remap_anchor-AnchorIn (pos a) previous_shas next_shas =
    elim (Option-cases (get_elem? previous_shas a)) [
      | inl e ↦ rw (e, follow) (clamped-AnchorIn a (length next_shas))
      | inr (sha, e) ↦ elim (Option-cases (position_of sha next_shas)) [
        | inl f ↦ rw (e, follow, f) (clamped-AnchorIn a (length next_shas))
        | inr (i, f) ↦
            rw (e, follow, f)
              (lt-get_elem? sha next_shas i (position_of-get_elem? sha next_shas i f))
      ]
    ]

-- After the rows are replaced, exactly the selected commits that are still listed are selected; the
-- anchor is -1 or in the new list.
pub remap_selection-IsSelection :
    (state : SelectionState) (previous_shas next_shas : List Text)
    → IsSelection state previous_shas
    → let after = remap_selection state previous_shas next_shas in
      IsSelection after next_shas
      × ((sha : Text) → has sha after.selected ≡ (has sha state.selected && has sha next_shas))
unfolding remap_selection
remap_selection-IsSelection state previous_shas next_shas v =
    let kept : (sha : Text)
        → has sha (remap_selection state previous_shas next_shas).selected
          ≡ (has sha state.selected && has sha next_shas) =
      λ sha.
        has-keep_if (λ s. has s (set_of next_shas)) sha state.selected
        ∙ ap (◌&&◌ (has sha state.selected)) (has-set_of sha next_shas) in
    (
      record {
        anchored = remap_anchor-AnchorIn state.anchor previous_shas next_shas;
        distinct = IsSetList-keep_if (λ s. has s (set_of next_shas)) state.selected v.distinct;
        listed = λ sha h. ground (arith, sym (kept sha) ∙ h);
      },
      kept,
    )
