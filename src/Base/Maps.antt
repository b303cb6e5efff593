-- ===== src/Base/Maps.antt =====
-- A JavaScript `Map` with strings for keys, as the list of its pairs in insertion order.
use mathlib.Core.Path.{◌≡◌, refl}
use mathlib.Core.Bool.{true, Bool, false, ◌&&◌, ◌||◌, not}
use mathlib.Core.List.{List, [], ◌∷◌, ◌++◌}
use mathlib.Core.Option.{Option, none, some}
use native.Mathlib.Omega.{arith}
use mathlib.Core.Logic.{inl, inr}
use gitglasses.Base.Tests.{if◌then◌else◌, Bool-cases}
use gitglasses.Base.Texts.{Text, text_eq, text_eq_iff}

module _ {ℓ} {A : Type ℓ} where
  abbrev pub lookup : Text → List (Text × A) → Option A
  lookup key [] = none
  lookup key ((k, v) ∷ m) = if text_eq k key then some v else lookup key m

  abbrev pub remove_key : Text → List (Text × A) → List (Text × A)
  remove_key key [] = []
  remove_key key ((k, v) ∷ m) =
      let rest = remove_key key m in if text_eq k key then rest else (k, v) ∷ rest

  abbrev pub has_key : Text → List (Text × A) → Bool
  has_key key [] = false
  has_key key ((k, v) ∷ m) = text_eq k key || has_key key m

  -- `map.set(key, value)`: the place of a key that is there is kept.
  abbrev pub set_key : Text → A → List (Text × A) → List (Text × A)
  set_key key value [] = (key, value) ∷ []
  set_key key value ((k, v) ∷ m) =
      let rest = set_key key value m in if text_eq k key then (k, value) ∷ m else (k, v) ∷ rest

  -- No key twice.
  abbrev pub IsMap : List (Text × A) → Type 0
  IsMap [] = Unit
  IsMap ((k, v) ∷ m) = (has_key k m ≡ false) × IsMap m

  -- What `has` says of a key, `get` bears out.
  pub lookup-missing :
      (key : Text) (m : List (Text × A)) → has_key key m ≡ false → lookup key m ≡ none
  lookup-missing key [] h = refl
  lookup-missing key ((k, v) ∷ m) h = ground (arith, lookup-missing key m)

  pub has_key-missing :
      (key : Text) (m : List (Text × A)) → lookup key m ≡ none → has_key key m ≡ false
  has_key-missing key [] h = refl
  has_key-missing key ((k, v) ∷ m) h = elim (Bool-cases (text_eq k key)) [
    | inl e ↦ cc (e, h)
    | inr e ↦
        let deeper : lookup key m ≡ none = cc (e, h) in ground (arith, has_key-missing key m deeper)
  ]

  pub has_key-found :
      (key : Text) (m : List (Text × A)) (v : A) → lookup key m ≡ some v → has_key key m ≡ true
  has_key-found key [] v h = cc h
  has_key-found key ((k, w) ∷ m) v h = elim (Bool-cases (text_eq k key)) [
    | inl e ↦ ground arith
    | inr e ↦
        let deeper : lookup key m ≡ some v = cc (e, h) in
        ground (arith, has_key-found key m v deeper)
  ]

  pub has_key-remove_key :
      (key other : Text) (m : List (Text × A))
      → has_key other (remove_key key m) ≡ (has_key other m && not (text_eq key other))
  has_key-remove_key key other [] = refl
  has_key-remove_key key other ((k, v) ∷ m) = ground (
    arith,
    has_key-remove_key key other m,
    text_eq_iff k key,
    text_eq_iff k other,
    text_eq_iff key other,
  )

  pub IsMap-remove_key : (key : Text) (m : List (Text × A)) → IsMap m → IsMap (remove_key key m)
  IsMap-remove_key key [] d = tt
  IsMap-remove_key key ((k, v) ∷ m) d =
      ground (arith, IsMap-remove_key key m d.1, has_key-remove_key key k m)

  pub has_key-append :
      (key : Text) (m n : List (Text × A)) → has_key key (m ++ n) ≡ (has_key key m || has_key key n)
  has_key-append key [] n = refl
  has_key-append key ((k, v) ∷ m) n = ground (arith, has_key-append key m n)

  pub IsMap-snoc :
      (key : Text) (value : A) (m : List (Text × A))
      → has_key key m ≡ false
      → IsMap m
      → IsMap (m ++ (key, value) ∷ [])
  IsMap-snoc key value [] n d = (refl, tt)
  IsMap-snoc key value ((k, v) ∷ m) n d = ground (
    arith,
    has_key-append k m ((key, value) ∷ []),
    text_eq_iff k key,
    text_eq_iff key k,
    IsMap-snoc key value m,
  )

  pub lookup-append :
      (key : Text) (m n : List (Text × A))
      → has_key key m ≡ false
      → lookup key (m ++ n) ≡ lookup key n
  lookup-append key [] n h = refl
  lookup-append key ((k, v) ∷ m) n h = ground (arith, lookup-append key m n)

  pub lookup-remove_key : (key : Text) (m : List (Text × A)) → lookup key (remove_key key m) ≡ none
  lookup-remove_key key [] = refl
  lookup-remove_key key ((k, v) ∷ m) = ground (arith, lookup-remove_key key m)

  pub lookup-set_key :
      (key : Text) (value : A) (m : List (Text × A)) → lookup key (set_key key value m) ≡ some value
  lookup-set_key key value [] = ground (arith, text_eq_iff key key)
  lookup-set_key key value ((k, v) ∷ m) = ground (arith, lookup-set_key key value m)

  pub lookup-set_key_other :
      (key other : Text) (value : A) (m : List (Text × A))
      → text_eq key other ≡ false
      → lookup other (set_key key value m) ≡ lookup other m
  lookup-set_key_other key other value [] n = ground arith
  lookup-set_key_other key other value ((k, v) ∷ m) n = ground (
    arith,
    lookup-set_key_other key other value m n,
    text_eq_iff k key,
    text_eq_iff k other,
    text_eq_iff key other,
  )

  pub lookup-remove_key_other :
      (key other : Text) (m : List (Text × A))
      → text_eq key other ≡ false
      → lookup other (remove_key key m) ≡ lookup other m
  lookup-remove_key_other key other [] n = refl
  lookup-remove_key_other key other ((k, v) ∷ m) n = ground (
    arith,
    lookup-remove_key_other key other m n,
    text_eq_iff k key,
    text_eq_iff k other,
    text_eq_iff key other,
  )
