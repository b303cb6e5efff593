-- ===== src/Editor/Modes.antt =====
-- extension/src/modes/modeLogic.ts: the display modes. A feature record is saved on leaving normal mode.
use gitglasses.Base.{
  ap, codes, Text, Option, List, Bool, refl, [], ◌∷◌, true, false, none, some, ◌++◌, ◌≡◌,
}

pub data Mode : Type 0 where
  normal zen review : Mode

pub record FeatureStates : Type 0 where
  pub line_blame : Bool
  pub file_annotations : Bool
  pub code_lens : Bool

pub record ModeState : Type 0 where
  pub mode : Mode
  pub saved : Option FeatureStates

pub record ModeEffects : Type 0 where
  pub apply : Option FeatureStates
  pub force_gutter_blame : Bool

abbrev pub initial_mode_state : ModeState
initial_mode_state = record { mode = normal; saved = none }

abbrev pub all_off : FeatureStates
all_off = record { line_blame = false; file_annotations = false; code_lens = false }

abbrev pub all_on : FeatureStates
all_on = record { line_blame = true; file_annotations = true; code_lens = true }

or_current : Option FeatureStates → FeatureStates → FeatureStates
or_current none current = current
or_current (some saved) current = saved

stay : ModeState → Bool → ModeState × ModeEffects
stay state force = (state, record { apply = none; force_gutter_blame = force })

to_normal : ModeState → FeatureStates → ModeState × ModeEffects
unfolding or_current
to_normal state current = (
  record { mode = normal; saved = none },
  record { apply = some (or_current state.saved current); force_gutter_blame = false },
)

enter : Mode → FeatureStates → FeatureStates → Bool → ModeState × ModeEffects
enter mode saved features force = (
  record { mode = mode; saved = some saved },
  record { apply = some features; force_gutter_blame = force },
)

-- `switchMode`, by the mode that is left and the one that is entered.
switch_from : Mode → Mode → ModeState → FeatureStates → ModeState × ModeEffects
unfolding stay to_normal enter or_current
switch_from normal normal state current = stay state false
switch_from zen zen state current = stay state false
switch_from review review state current = stay state true
switch_from zen normal state current = to_normal state current
switch_from review normal state current = to_normal state current
switch_from normal zen state current = enter zen current all_off false
switch_from review zen state current = enter zen (or_current state.saved current) all_off false
switch_from normal review state current = enter review current all_on true
switch_from zen review state current = enter review (or_current state.saved current) all_on true

pub switch_mode : ModeState → Mode → FeatureStates → ModeState × ModeEffects
unfolding switch_from
switch_mode state next current = switch_from state.mode next state current

unfoldable pub status_bar_text : Mode → Option Text
status_bar_text normal = none
status_bar_text zen = some (codes "$(eye) Zen")
status_bar_text review = some (codes "$(checklist) Review")

-- The controller's switches, each at the features that are live then.
pub switch_all : List Mode → ModeState → FeatureStates → ModeState × FeatureStates
unfolding switch_mode or_current
switch_all [] state current = (state, current)
switch_all (next ∷ modes) state current =
    let (state', effects) = switch_mode state next current in
    switch_all modes state' (or_current effects.apply current)

-- Outside normal mode the features to restore are saved; in normal mode they are live.
IsRestorable : FeatureStates → Mode → Option FeatureStates → FeatureStates → Type 0
IsRestorable original normal saved current = current ≡ original
IsRestorable original zen saved current = saved ≡ some original
IsRestorable original review saved current = saved ≡ some original

Restorable : FeatureStates → ModeState × FeatureStates → Type 0
unfolding IsRestorable
Restorable original (state, current) = IsRestorable original state.mode state.saved current

switch_mode-Restorable :
    (original : FeatureStates) (m : Mode) (s : Option FeatureStates) (next : Mode)
    (current : FeatureStates)
    → IsRestorable original m s current
    → let (state, effects) = switch_mode (record { mode = m; saved = s }) next current in
      Restorable original (state, or_current effects.apply current)
unfolding switch_mode switch_from IsRestorable or_current stay enter to_normal Restorable
switch_mode-Restorable original normal s normal current h = h
switch_mode-Restorable original zen s zen current h = h
switch_mode-Restorable original review s review current h = h
switch_mode-Restorable original zen s normal current h = rw h refl
switch_mode-Restorable original review s normal current h = rw h refl
switch_mode-Restorable original normal s zen current h = ap some h
switch_mode-Restorable original normal s review current h = ap some h
switch_mode-Restorable original review s zen current h = rw h refl
switch_mode-Restorable original zen s review current h = rw h refl

-- A switch reaches the mode that is asked for.
switch_mode-mode :
    (m : Mode) (s : Option FeatureStates) (next : Mode) (current : FeatureStates)
    → (switch_mode (record { mode = m; saved = s }) next current).0.mode ≡ next
unfolding switch_mode switch_from stay enter to_normal
switch_mode-mode normal s normal current = refl
switch_mode-mode zen s zen current = refl
switch_mode-mode review s review current = refl
switch_mode-mode zen s normal current = refl
switch_mode-mode review s normal current = refl
switch_mode-mode normal s zen current = refl
switch_mode-mode normal s review current = refl
switch_mode-mode review s zen current = refl
switch_mode-mode zen s review current = refl

Restorable-normal :
    (original : FeatureStates) (m : Mode) (s : Option FeatureStates) (current : FeatureStates)
    → IsRestorable original m s current
    → m ≡ normal
    → current ≡ original
unfolding IsRestorable
Restorable-normal original normal s current h e = h
Restorable-normal original zen s current h e = cc
Restorable-normal original review s current h e = cc

switch_all-Restorable :
    (modes : List Mode) (original : FeatureStates) (state : ModeState) (current : FeatureStates)
    → IsRestorable original state.mode state.saved current
    → (switch_all (modes ++ normal ∷ []) state current).1 ≡ original
unfolding switch_all Restorable
switch_all-Restorable [] original state current h =
    Restorable-normal original _ _ _
      (switch_mode-Restorable original state.mode state.saved normal current h)
      (switch_mode-mode state.mode state.saved normal current)
switch_all-Restorable (next ∷ modes) original state current h =
    switch_all-Restorable modes original _ _
      (switch_mode-Restorable original state.mode state.saved next current h)

-- However the modes are switched, one after the other from the initial state, switching back to
-- normal mode leaves the features as they were before the first switch.
pub switch_all-restores :
    (modes : List Mode) (original : FeatureStates)
    → (switch_all (modes ++ normal ∷ []) initial_mode_state original).1 ≡ original
unfolding IsRestorable
switch_all-restores modes original =
    switch_all-Restorable modes original initial_mode_state original refl
