-- ===== src/Reviews/Suggest/Fence.antt =====
-- extension/src/reviews/suggestLogic.ts: a fence is the shortest that the fenced text does not hold.
use gitglasses.Base.{
  starts_with-length, from_next, true, false, Text, ℕ, zero, suc, [], ◌∷◌, ◌++◌, ◌+◌, ◌≤◌, ◌<◌, ◌≡◌,
  refl, ap, arith, length, includes, starts_with, Bool-cases, inl, inr,
}
use gitglasses.Reviews.Suggest.Words.{grow, fence_for}

-- So many backticks.
abbrev pub ticks : ℕ → Text
ticks zero = []
ticks (suc n) = b'`' ∷ ticks n

length-ticks : (n : ℕ) → length (ticks n) ≡ n
length-ticks zero = omega arith
length-ticks (suc n) = omega (arith, length-ticks n)

ticks-append : (n : ℕ) → ticks n ++ b'`' ∷ [] ≡ ticks (suc n)
ticks-append zero = refl
ticks-append (suc n) = ap (◌∷◌ b'`') (ticks-append n)

includes-length : (s p : Text) → includes s p ≡ true → length p ≤ length s
includes-length [] p h = starts_with-length [] p h
includes-length (c ∷ s) p h = elim (Bool-cases (starts_with (c ∷ s) p)) [
  | inl e ↦ starts_with-length (c ∷ s) p e
  | inr e ↦ omega (arith, includes-length s p (rw e at h))
]

-- The fence has `n` backticks, `least` or more; the text holds every shorter one and not this.
abbrev pub IsFence : (least : ℕ) (content fence : Text) → Type 0
IsFence least content fence =
    (n : ℕ) × (fence ≡ ticks n)
    × (least ≤ n)
    × (includes content fence ≡ false)
    × ((k : ℕ) → least ≤ k → k < n → includes content (ticks k) ≡ true)

too_long : (content : Text) (m : ℕ) → length content < m → includes content (ticks m) ≡ false
too_long content m h = elim (Bool-cases (includes content (ticks m))) [
  | inl e ↦ absurd (omega (arith, includes-length content (ticks m) e, length-ticks m))
  | inr e ↦ e
]

grow-IsFence :
    (fuel m : ℕ) (content : Text)
    → length content < fuel + m
    → IsFence m content (grow fuel content (ticks m))
unfolding grow
grow-IsFence zero m content h =
    (m, refl, omega arith, too_long content m (omega arith), λ k low high. absurd (omega arith))
grow-IsFence (suc fuel) m content h = elim (Bool-cases (includes content (ticks m))) [
  | inr e ↦ rw e (m, refl, omega arith, e, λ k low high. absurd (omega arith))
  | inl e ↦
      let (n, is, least, free, held) = grow-IsFence fuel (suc m) content (omega arith) in
      rw e (
        rw (ticks-append m)
          (n, is, omega arith, free, from_next (λ k. includes content (ticks k) ≡ true) m n e held))
]

-- The fence has three backticks or more, is not in the text that it encloses, and every shorter one of three or more is.
pub fence_for-IsFence : (content : Text) → IsFence 3 content (fence_for content)
unfolding fence_for
fence_for-IsFence content = grow-IsFence (length content) 3 content (omega arith)
