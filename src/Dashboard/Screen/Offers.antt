-- ===== src/Dashboard/Screen/Offers.antt =====
-- The actions that a screen offers to its user.
use mathlib.Core.List.{Memᴰ}
use mathlib.Core.List.Memᴰ.{head, tail}
use mathlib.Core.Path.{subst}
use bataudit.Prelude.{
  ℕ, zero, suc, drop, String, Bool, true, false, List, [], ◌∷◌, ◌++◌, ◌≡◌, refl, sym, All, All-Mem,
}
use bataudit.Dashboard.Screen.{Item, text, button, input, choice, link, Screen, when, each}

-- That an action is offered: by a button or a choice that is enabled, or by typing.
pub data Gives {A : Type 0} (a : A) : Item A → Type 0 where
  press : {label : String} {b : A} → a ≡ b → Gives a (button true label b)
  typing :
      {value : String} {change : String → A} (v : String)
      → a ≡ change v
      → Gives a (input value change)
  choosing :
      {value : String} {options : List String} {change : String → A} (v : String)
      → Memᴰ v options
      → a ≡ change v
      → Gives a (choice true value options change)

pub data Offers {A : Type 0} (a : A) : Screen A → Type 0 where
  here : {i : Item A} {s : Screen A} → Gives a i → Offers a (i ∷ s)
  there : {i : Item A} {s : Screen A} → Offers a s → Offers a (i ∷ s)

-- That all the actions of an item, or of a screen, have a property.
abbrev pub Permits : {A : Type 0} → (A → Type 0) → Item A → Type 0
Permits P (text t) = Unit
Permits P (button true label a) = P a
Permits P (button false label a) = Unit
Permits P (input value change) = (v : String) → P (change v)
Permits P (choice true value options change) = All (λ v. P (change v)) options
Permits P (choice false value options change) = Unit
Permits P (link to label) = Unit

abbrev pub Allows : {A : Type 0} → (A → Type 0) → Screen A → Type 0
Allows P [] = Unit
Allows P (i ∷ s) = Permits P i × Allows P s

Permits-Gives : {A : Type 0} (P : A → Type 0) (a : A) (i : Item A) → Permits P i → Gives a i → P a
Permits-Gives P a (text t) h g = elim g [ ]
Permits-Gives P a (button false label b) h g = elim g [ ]
Permits-Gives P a (choice false value options change) h g = elim g [ ]
Permits-Gives P a (link to label) h g = elim g [ ]
Permits-Gives P a (button true label b) h (press e) = subst P (sym e) h
Permits-Gives P a (input value change) h (typing v e) = subst P (sym e) (h v)
Permits-Gives P a (choice true value options change) h (choosing v m e) =
    subst P (sym e) (All-Mem (λ u. P (change u)) options v h m)

-- What is permitted holds of what is offered.
pub Allows-Offers :
    {A : Type 0} (P : A → Type 0) (a : A) (s : Screen A) → Allows P s → Offers a s → P a
Allows-Offers P a [] h o = elim o [ ]
Allows-Offers P a (i ∷ s) (h, hs) (here g) = Permits-Gives P a i h g
Allows-Offers P a (i ∷ s) (h, hs) (there o) = Allows-Offers P a s hs o

pub Allows-append :
    {A : Type 0} (P : A → Type 0) (s t : Screen A) → Allows P s → Allows P t → Allows P (s ++ t)
Allows-append P [] t h k = k
Allows-append P (i ∷ s) t (h, hs) k = (h, Allows-append P s t hs k)

pub Allows-when :
    {A : Type 0} (P : A → Type 0) (test : Bool) (s : Screen A)
    → (test ≡ true → Allows P s)
    → Allows P (when test s)
Allows-when P true s h = h refl
Allows-when P false s h = tt

pub Allows-each :
    {A B : Type 0} (P : A → Type 0) (f : B → Screen A) (xs : List B)
    → All (λ x. Allows P (f x)) xs
    → Allows P (each f xs)
Allows-each P f [] h = tt
Allows-each P f (x ∷ xs) (h, hs) = Allows-append P (f x) (each f xs) h (Allows-each P f xs hs)

pub Permits-button :
    {A : Type 0} (P : A → Type 0) (enabled : Bool) (label : String) (a : A)
    → (enabled ≡ true → P a)
    → Permits P (button enabled label a)
Permits-button P true label a h = h refl
Permits-button P false label a h = tt

pub Permits-choice :
    {A : Type 0} (P : A → Type 0) (enabled : Bool) (value : String) (options : List String)
    (change : String → A)
    → (enabled ≡ true → All (λ v. P (change v)) options)
    → Permits P (choice enabled value options change)
Permits-choice P true value options change h = h refl
Permits-choice P false value options change h = tt

-- What is permitted of an item, and allowed of the rest.
infixr 3 ◌and◌
abbrev pub ◌and◌ : {A B : Type 0} → A → B → A × B
a and b = (a, b)

pub Offers-append_left : {A : Type 0} {a : A} (s t : Screen A) → Offers a s → Offers a (s ++ t)
Offers-append_left [] t o = elim o [ ]
Offers-append_left (i ∷ s) t (here g) = here g
Offers-append_left (i ∷ s) t (there o) = there (Offers-append_left s t o)

pub Offers-append_right : {A : Type 0} {a : A} (s t : Screen A) → Offers a t → Offers a (s ++ t)
Offers-append_right [] t o = o
Offers-append_right (i ∷ s) t o = there (Offers-append_right s t o)

pub Offers-each :
    {A B : Type 0} {a : A} (f : B → Screen A) (xs : List B) (x : B)
    → Memᴰ x xs
    → Offers a (f x)
    → Offers a (each f xs)
Offers-each f [] x m o = elim m [ ]
Offers-each {a = a} f (y ∷ ys) x (head e) o =
    Offers-append_left (f y) (each f ys) (subst (λ z. Offers a (f z)) e o)
Offers-each f (y ∷ ys) x (tail m) o = Offers-append_right (f y) (each f ys) (Offers-each f ys x m o)

-- What the rest of a screen offers, it offers.
pub Offers-drop : {A : Type 0} {a : A} (n : ℕ) (s : Screen A) → Offers a (drop n s) → Offers a s
Offers-drop zero s o = o
Offers-drop (suc n) [] o = elim o [ ]
Offers-drop (suc n) (i ∷ s) o = there (Offers-drop n s o)

-- A control that is part of a screen is offered.
pub Offers-Mem :
    {A : Type 0} {a : A} {i : Item A} (s : Screen A) → Memᴰ i s → Gives a i → Offers a s
Offers-Mem [] m g = elim m [ ]
Offers-Mem {a = a} (j ∷ s) (head e) g = here (subst (Gives a) e g)
Offers-Mem (j ∷ s) (tail m) g = there (Offers-Mem s m g)
