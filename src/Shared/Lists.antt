-- ===== src/Shared/Lists.antt =====
-- Lists measured by native numbers, a predicate on every element, and what a permutation keeps.
use Prim.Native.Nat.{ℕ, suc, ◌+◌}
use mathlib.Core.Path.{◌≡◌, refl, ap, subst, ◌∙◌}
use mathlib.Core.Bool.{Bool, true, false}
use mathlib.Core.List.{List, [], ◌∷◌, ◌++◌, Perm, Permᴰ}
use mathlib.Core.Logic.{∥∥₁_elim}
use mathlib.Core.HLevel.{×_prop, Unit-prop}
use native.Mathlib.Nat.{ℕ_set}
use native.Mathlib.Omega.{arith}
use ieee_2030_5_client_go.Shared.Tests.{if◌then◌else◌}

module _ {ℓ} {A : Type ℓ} where
  abbrev pub length : List A → ℕ
  length [] = 0
  length (x ∷ xs) = suc (length xs)

  abbrev pub is_empty : List A → Bool
  is_empty [] = true
  is_empty (x ∷ xs) = false

  -- How many elements pass the test.
  abbrev pub count_if : (A → Bool) → List A → ℕ
  count_if p [] = 0
  count_if p (x ∷ xs) = if p x then suc (count_if p xs) else count_if p xs

  pub count_if-append :
      (p : A → Bool) (xs ys : List A) → count_if p (xs ++ ys) ≡ count_if p xs + count_if p ys
  count_if-append p [] ys = omega arith
  count_if-append p (x ∷ xs) ys = ground (arith, count_if-append p xs ys)

  count_if-permᴰ : (p : A → Bool) {xs ys : List A} → Permᴰ xs ys → count_if p xs ≡ count_if p ys
  count_if-permᴰ p Permᴰ.nil = refl
  count_if-permᴰ p (Permᴰ.cons e h) = ground (arith, e, ap p e, count_if-permᴰ p h)
  count_if-permᴰ p (Permᴰ.swap e f) = ground (arith, ap p e, ap p f)
  count_if-permᴰ p (Permᴰ.trans h k) = count_if-permᴰ p h ∙ count_if-permᴰ p k

  pub count_if-perm : (p : A → Bool) {xs ys : List A} → Perm xs ys → count_if p xs ≡ count_if p ys
  count_if-perm p h = ∥∥₁_elim h (ℕ_set _ _) (count_if-permᴰ p)

module _ {ℓ κ} {A : Type ℓ} (P : A → Type κ) where
  abbrev pub All : List A → Type κ
  All [] = Unit
  All (x ∷ xs) = P x × All xs

  pub All-append : (xs ys : List A) → All xs → All ys → All (xs ++ ys)
  All-append [] ys hx hy = hy
  All-append (x ∷ xs) ys hx hy = (hx.0, All-append xs ys hx.1 hy)

  All-permᴰ : {xs ys : List A} → Permᴰ xs ys → All xs → All ys
  All-permᴰ Permᴰ.nil a = a
  All-permᴰ (Permᴰ.cons e h) (a, rest) = (subst P e a, All-permᴰ h rest)
  All-permᴰ (Permᴰ.swap e f) (a, (b, rest)) = (subst P f b, (subst P e a, rest))
  All-permᴰ (Permᴰ.trans h k) a = All-permᴰ k (All-permᴰ h a)

  All-prop : ((x : A) → IsProp (P x)) → (xs : List A) → IsProp (All xs)
  All-prop q [] = Unit-prop
  All-prop q (x ∷ xs) = ×_prop (q x) (All-prop q xs)

  pub All-perm : ((x : A) → IsProp (P x)) → {xs ys : List A} → Perm xs ys → All xs → All ys
  All-perm q {ys = ys} h a = ∥∥₁_elim h (All-prop q ys) (λ k. All-permᴰ k a)
