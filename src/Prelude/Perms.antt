-- ===== src/Prelude/Perms.antt =====
-- What a permutation keeps, over the native numbers.
use mathlib.Core.List.{Perm, Permᴰ, Mem, mem-cons_self, mem-cons_of_mem}
use mathlib.Core.Logic.{∥∥₁_elim}
use native.Mathlib.Nat.{ℕ_set}
use optrace.Prelude.{ℕ, ◌+◌, ◌≡◌, refl, ap, List, [], ◌∷◌, ◌++◌, length, All, arith}

module _ {ℓ} {A : Type ℓ} where
  -- The sum of a measure over a list.
  abbrev pub total : (A → ℕ) → List A → ℕ
  total f [] = 0
  total f (x ∷ xs) = f x + total f xs

  total-permᴰ : (f : A → ℕ) {xs ys : List A} → Permᴰ xs ys → total f xs ≡ total f ys
  total-permᴰ f Permᴰ.nil = refl
  total-permᴰ f (Permᴰ.cons e p) = omega (arith, ap f e, total-permᴰ f p)
  total-permᴰ f (Permᴰ.swap e g) = omega (arith, ap f e, ap f g)
  total-permᴰ f (Permᴰ.trans p q) = omega (arith, total-permᴰ f p, total-permᴰ f q)

  pub total-perm : (f : A → ℕ) {xs ys : List A} → Perm xs ys → total f xs ≡ total f ys
  total-perm f p = ∥∥₁_elim p (ℕ_set _ _) (total-permᴰ f)

  pub total-append : (f : A → ℕ) (xs ys : List A) → total f (xs ++ ys) ≡ total f xs + total f ys
  total-append f [] ys = omega arith
  total-append f (x ∷ xs) ys = omega (arith, total-append f xs ys)

  length-total : (xs : List A) → length xs ≡ total (λ _. 1) xs
  length-total [] = refl
  length-total (x ∷ xs) = omega (arith, length-total xs)

  pub length-perm : {xs ys : List A} → Perm xs ys → length xs ≡ length ys
  length-perm {xs} {ys} p = omega (arith, length-total xs, length-total ys, total-perm (λ _. 1) p)

  pub All-of_mem {κ} : {P : A → Type κ} (xs : List A) → ((a : A) → Mem a xs → P a) → All P xs
  All-of_mem [] h = tt
  All-of_mem (x ∷ xs) h = (h x mem-cons_self, All-of_mem xs (λ a m. h a (mem-cons_of_mem x m)))
