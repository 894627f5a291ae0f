-- ===== src/Prelude/Sort.antt =====
-- `sort` of a list by a comparison, as the language defines it: stable. The comparison is given by
-- whether its value is positive, that is, whether the first argument comes after the second.
use mathlib.Core.Path.{◌≡◌, refl, ◌∙◌}
use mathlib.Core.Bool.{Bool, true, false}
use mathlib.Core.Logic.{inl, inr}
use mathlib.Core.List.{List, [], ◌∷◌}
use native.Mathlib.Omega.{arith}
use bataudit.Prelude.Tests.{if◌then◌else◌, Bool-cases}
use bataudit.Prelude.Lists.{All, keep, length}

module _ {A : Type 0} (after : A → A → Bool) where
  abbrev pub insert : A → List A → List A
  insert x [] = x ∷ []
  insert x (y ∷ ys) = let rest = insert x ys in if after x y then y ∷ rest else x ∷ y ∷ ys

  abbrev pub sort : List A → List A
  sort [] = []
  sort (x ∷ xs) = insert x (sort xs)

  -- Nothing comes after what stands behind it.
  abbrev pub Sorted : List A → Type 0
  Sorted [] = Unit
  Sorted (x ∷ xs) = All (λ y. after x y ≡ false) xs × Sorted xs

All-chosen :
    {A : Type 0} (P : A → Type 0) (b : Bool) (xs ys : List A)
    → All P xs
    → All P ys
    → All P (if b then xs else ys)
All-chosen P true xs ys h k = h
All-chosen P false xs ys h k = k

All-insert :
    {A : Type 0} (after : A → A → Bool) (P : A → Type 0) (x : A) (ys : List A)
    → P x
    → All P ys
    → All P (insert after x ys)
All-insert after P x [] h hs = (h, tt)
All-insert after P x (y ∷ ys) h (k, ks) =
    All-chosen P (after x y) (y ∷ insert after x ys) (x ∷ y ∷ ys) (k, All-insert after P x ys h ks)
      (h, (k, ks))

All-map :
    {A : Type 0} (P Q : A → Type 0) (xs : List A) → ((a : A) → P a → Q a) → All P xs → All Q xs
All-map P Q [] f h = tt
All-map P Q (x ∷ xs) f (h, hs) = (f x h, All-map P Q xs f hs)

count-insert :
    {A : Type 0} (after : A → A → Bool) (p : A → Bool) (x : A) (ys : List A)
    → length (keep p (insert after x ys)) ≡ length (keep p (x ∷ ys))
count-insert after p x [] = refl
count-insert after p x (y ∷ ys) = ground (arith, count-insert after p x ys)

count_cons :
    {A : Type 0} (p : A → Bool) (x : A) (xs ys : List A)
    → length (keep p xs) ≡ length (keep p ys)
    → length (keep p (x ∷ xs)) ≡ length (keep p (x ∷ ys))
count_cons p x xs ys e = ground arith

-- Sorting keeps the number of elements with any property.
pub count-sort :
    {A : Type 0} (after : A → A → Bool) (p : A → Bool) (xs : List A)
    → length (keep p (sort after xs)) ≡ length (keep p xs)
count-sort after p [] = refl
count-sort after p (x ∷ xs) =
    count-insert after p x (sort after xs)
    ∙ count_cons p x (sort after xs) xs (count-sort after p xs)

module _ {A : Type 0} (after : A → A → Bool)
    (asym : (a b : A) → after a b ≡ true → after b a ≡ false)
    (trans : (a b c : A) → after a b ≡ false → after b c ≡ false → after a c ≡ false) where
  insert-Sorted : (x : A) (ys : List A) → Sorted after ys → Sorted after (insert after x ys)
  insert-Sorted x [] h = (tt, tt)
  insert-Sorted x (y ∷ ys) (h, hs) = elim (Bool-cases (after x y)) [
    | inl comes_after ↦ rw comes_after (
      All-insert after (λ z. after y z ≡ false) x ys (asym x y comes_after) h,
      insert-Sorted x ys hs,
    )
    | inr stays ↦ rw stays (
      (
        stays,
        All-map (λ z. after y z ≡ false) (λ z. after x z ≡ false) ys (λ z. trans x y z stays) h,
      ),
      (h, hs),
    )
  ]

  pub sort-Sorted : (xs : List A) → Sorted after (sort after xs)
  sort-Sorted [] = tt
  sort-Sorted (x ∷ xs) = insert-Sorted x (sort after xs) (sort-Sorted xs)
