-- ===== src/Dashboard/Theme/Toggle.antt =====
-- Switching the theme.
use bataudit.Prelude.{
  String, Bool, not, ◌||◌, ◌≡◌, refl, true, ◌∙◌, List, [], ◌∷◌, ◌++◌, keep, str_eq, if◌then◌else◌,
  Bool-cases, inl, inr,
}
use mathlib.Core.List.{append-nil}
use bataudit.Web.Storage.{get_item-set_item}
use bataudit.Dashboard.Theme.{Page, storage_key, get_stored_theme, apply_theme, toggle_theme}

names_theme : String → Bool
names_theme c = str_eq c "dark" || str_eq c "light"

keep-append {ℓ} :
    {A : Type ℓ} (p : A → Bool) (xs ys : List A) → keep p (xs ++ ys) ≡ keep p xs ++ keep p ys
keep-append p [] ys = refl
keep-append p (x ∷ xs) ys = elim (Bool-cases (p x)) [
  | inl h ↦ simp (h, keep-append p xs ys)
  | inr h ↦ simp (h, keep-append p xs ys)
]

keep-others : (cs : List String) → keep names_theme (keep (λ c. not (names_theme c)) cs) ≡ []
keep-others [] = refl
keep-others (c ∷ cs) = elim (Bool-cases (names_theme c)) [
  | inl h ↦ simp (h, keep-others cs)
  | inr h ↦ simp (h, keep-others cs)
]

others-others :
    (cs : List String)
    → keep (λ c. not (names_theme c)) (keep (λ c. not (names_theme c)) cs)
      ≡ keep (λ c. not (names_theme c)) cs
others-others [] = refl
others-others (c ∷ cs) = elim (Bool-cases (names_theme c)) [
  | inl h ↦ simp (h, others-others cs)
  | inr h ↦ simp (h, others-others cs)
]

apply_theme-stored : (t : String) (p : Page) → get_stored_theme (apply_theme t p).storage ≡ t
unfolding get_stored_theme apply_theme
apply_theme-stored t p = rw (get_item-set_item storage_key storage_key t p.storage)

apply_theme-classes :
    (t : String) (p : Page)
    → names_theme t ≡ true
    → (keep names_theme (apply_theme t p).classes ≡ t ∷ [])
      × (keep (λ c. not (names_theme c)) (apply_theme t p).classes
          ≡ keep (λ c. not (names_theme c)) p.classes)
unfolding apply_theme names_theme
apply_theme-classes t p h = (
  keep-append names_theme (keep (λ c. not (names_theme c)) p.classes) (t ∷ [])
      ∙ simp (h, keep-others p.classes),
  keep-append (λ c. not (names_theme c)) (keep (λ c. not (names_theme c)) p.classes) (t ∷ [])
      ∙ simp (h, others-others p.classes, append-nil),
)

next : String → String
next stored = if str_eq stored "dark" then "light" else "dark"

next-names : (t : String) → names_theme (next t) ≡ true
unfolding next names_theme
next-names t = elim (Bool-cases (str_eq t "dark")) [ inl h ↦ simp h | inr h ↦ simp h ]

-- After a switch the storage names the theme that the switch returned, the root element has exactly
-- one class that names a theme, namely that one, and its other classes are those it had.
toggle_theme-classes :
    (p : Page)
    → let q = toggle_theme p in
      (get_stored_theme q.0.storage ≡ q.1)
      × (keep names_theme q.0.classes ≡ q.1 ∷ [])
      × (keep (λ c. not (names_theme c)) q.0.classes ≡ keep (λ c. not (names_theme c)) p.classes)
unfolding toggle_theme next
toggle_theme-classes p =
    let t = next (get_stored_theme p.storage) in
    let classes = apply_theme-classes t p (next-names (get_stored_theme p.storage)) in
    (apply_theme-stored t p, classes.0, classes.1)

-- Two switches restore the theme, where a stored theme other than dark counts as light.
toggle_theme-toggle_theme :
    (p : Page)
    → get_stored_theme (toggle_theme (toggle_theme p).0).0.storage
      ≡ (if str_eq (get_stored_theme p.storage) "dark" then "dark" else "light")
unfolding toggle_theme
toggle_theme-toggle_theme p =
    rw (apply_theme-stored, apply_theme-stored)
      (elim (Bool-cases (str_eq (get_stored_theme p.storage) "dark")) [
        | inl h ↦ simp h
        | inr h ↦ simp h
      ])
