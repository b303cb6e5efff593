-- ===== src/Base/Sets.antt =====
-- A JavaScript `Set` of strings as the list of its members in insertion order.
use mathlib.Core.Path.{◌≡◌, refl}
use mathlib.Core.Bool.{Bool, false, ◌||◌, ◌&&◌, not}
use mathlib.Core.List.{List, [], ◌∷◌, ◌++◌}
use native.Mathlib.Omega.{arith}
use gitglasses.Base.Tests.{if◌then◌else◌}
use gitglasses.Base.Texts.{Text, text_eq, text_eq_iff}

abbrev pub has : Text → List Text → Bool
has t [] = false
has t (s ∷ set) = text_eq s t || has t set

abbrev pub delete : Text → List Text → List Text
delete t [] = []
delete t (s ∷ set) = let rest = delete t set in if text_eq s t then rest else s ∷ rest

abbrev pub add : Text → List Text → List Text
add t set = if has t set then set else set ++ t ∷ []

add_all : List Text → List Text → List Text
add_all set [] = set
add_all set (t ∷ ts) = add_all (add t set) ts

-- `new Set(array)`.
unfoldable pub set_of : List Text → List Text
unfolding add_all
set_of ts = add_all [] ts

-- No member twice.
abbrev pub IsSetList : List Text → Type 0
IsSetList [] = Unit
IsSetList (s ∷ set) = (has s set ≡ false) × IsSetList set

pub has-append : (t : Text) (xs ys : List Text) → has t (xs ++ ys) ≡ (has t xs || has t ys)
has-append t [] ys = refl
has-append t (x ∷ xs) ys = ground (arith, has-append t xs ys)

pub has-delete :
    (t u : Text) (set : List Text) → has u (delete t set) ≡ (has u set && not (text_eq t u))
has-delete t u [] = refl
has-delete t u (s ∷ set) =
    ground (arith, has-delete t u set, text_eq_iff s t, text_eq_iff s u, text_eq_iff t u)

pub has-add : (t u : Text) (set : List Text) → has u (add t set) ≡ (has u set || text_eq t u)
has-add t u set = ground (arith, has-append u set (t ∷ []), text_eq_iff t u)

has-add_all : (u : Text) (set ts : List Text) → has u (add_all set ts) ≡ (has u set || has u ts)
unfolding add_all
has-add_all u set [] = ground arith
has-add_all u set (t ∷ ts) = ground (arith, has-add_all u (add t set) ts, has-add t u set)

pub has-set_of : (u : Text) (ts : List Text) → has u (set_of ts) ≡ has u ts
unfolding set_of
has-set_of u ts = has-add_all u [] ts

pub IsSetList-snoc :
    (t : Text) (set : List Text) → has t set ≡ false → IsSetList set → IsSetList (set ++ t ∷ [])
IsSetList-snoc t [] n d = (refl, tt)
IsSetList-snoc t (s ∷ set) n d =
    ground
      (arith, has-append s set (t ∷ []), text_eq_iff s t, text_eq_iff t s, IsSetList-snoc t set)

pub IsSetList-add : (t : Text) (set : List Text) → IsSetList set → IsSetList (add t set)
IsSetList-add t set d = ground (arith, IsSetList-snoc t set)

pub IsSetList-delete : (t : Text) (set : List Text) → IsSetList set → IsSetList (delete t set)
IsSetList-delete t [] d = tt
IsSetList-delete t (s ∷ set) d = ground (arith, IsSetList-delete t set d.1, has-delete t s set)

IsSetList-add_all : (set ts : List Text) → IsSetList set → IsSetList (add_all set ts)
unfolding add_all
IsSetList-add_all set [] d = d
IsSetList-add_all set (t ∷ ts) d = IsSetList-add_all (add t set) ts (IsSetList-add t set d)

pub IsSetList-set_of : (ts : List Text) → IsSetList (set_of ts)
unfolding set_of
IsSetList-set_of ts = IsSetList-add_all [] ts tt
