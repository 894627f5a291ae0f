-- ===== src/Dashboard/Slug/Shape.antt =====
-- The shape of a slug: words of small letters and digits, with a hyphen between any two.
use bataudit.Prelude.{
  ℕ, Bool, true, false, not, ◌&&◌, ◌==◌, ◌≡◌, refl, ap, ◌∙◌, [], ◌∷◌, arith, if◌then◌else◌,
  Bool-cases, inl, inr, ◌⊎◌,
}
use bataudit.Dashboard.Slug.{Codes, is_word, collapse, strip_start, strip_end, slug_from_name}

-- Words with single hyphens between them, at the start of one or within one.
abbrev pub words : (at_start : Bool) → Codes → Bool
words at_start [] = not at_start
words at_start (c ∷ s) =
    let rest = words (not (is_word c)) s in
    if is_word c then rest else not at_start && (c == b'-') && rest

abbrev pub is_slug : Codes → Bool
is_slug [] = true
is_slug (c ∷ s) = words true (c ∷ s)

strip_start-collapse : (s : Codes) → strip_start (collapse false s) ≡ collapse true s
unfolding strip_start collapse
strip_start-collapse [] = refl
strip_start-collapse (c ∷ s) = ground arith

-- After a code that is no hyphen, the rest is stripped.
strip_end-word : (c : ℕ) (s : Codes) → is_word c ≡ true → strip_end (c ∷ s) ≡ c ∷ strip_end s
unfolding strip_end
strip_end-word c [] h = ground arith
strip_end-word c (d ∷ s) h = refl

-- A hyphen within a word goes if nothing follows it, and stays before another word.
strip_end-hyphen :
    (r : Codes)
    → (r ≡ []) ⊎ (words true (strip_end r) ≡ true)
    → words false (strip_end (b'-' ∷ r)) ≡ true
unfolding strip_end
strip_end-hyphen [] h = refl
strip_end-hyphen (d ∷ r) (inl e) = cc
strip_end-hyphen (d ∷ r) (inr h) = h

words-word : (b : Bool) (c : ℕ) (s : Codes) → is_word c ≡ true → words b (c ∷ s) ≡ words false s
words-word b c s h = ground arith

-- What is stripped after a word, and after a separator.
stripped_words :
    (s : Codes)
    → (words false (strip_end (collapse false s)) ≡ true)
      × ((collapse true s ≡ []) ⊎ (words true (strip_end (collapse true s)) ≡ true))
unfolding collapse strip_end
stripped_words [] = (refl, inl refl)
stripped_words (c ∷ s) = elim (Bool-cases (is_word c)) [
  | inl word ↦
      let (inner, _) = stripped_words s in
      let stripped = strip_end-word c (collapse false s) word in
      rw word (
        ap (words false) stripped ∙ words-word false c (strip_end (collapse false s)) word ∙ inner,
        inr (
            ap (words true) stripped
            ∙ words-word true c (strip_end (collapse false s)) word
            ∙ inner),
      )
  | inr other ↦
      let (_, outer) = stripped_words s in
      rw other (strip_end-hyphen (collapse true s) outer, outer)
]

strip_end-more : (c : ℕ) (s : Codes) → words true s ≡ true → strip_end (c ∷ s) ≡ c ∷ strip_end s
unfolding strip_end
strip_end-more c [] h = cc
strip_end-more c (d ∷ s) h = refl

-- A text of words is collapsed and stripped already.
collapse-words : (b : Bool) (s : Codes) → words b s ≡ true → (collapse b s ≡ s) × (strip_end s ≡ s)
unfolding collapse strip_end
collapse-words b [] h = (refl, refl)
collapse-words b (c ∷ s) h =
    ground
      (arith, collapse-words false s, collapse-words true s, strip_end-word c s, strip_end-more c s)

is_slug-stripped :
    (r : Codes) → (r ≡ []) ⊎ (words true (strip_end r) ≡ true) → is_slug (strip_end r) ≡ true
unfolding strip_end
is_slug-stripped [] h = refl
is_slug-stripped (c ∷ []) h = ground arith
is_slug-stripped (c ∷ d ∷ r) (inl e) = cc
is_slug-stripped (c ∷ d ∷ r) (inr h) = h

stripped_slug : (s : Codes) → is_slug s ≡ true → strip_end (collapse true s) ≡ s
unfolding strip_end collapse
stripped_slug [] h = refl
stripped_slug (c ∷ s) h =
    let (collapsed, stripped) = collapse-words true (c ∷ s) h in ap strip_end collapsed ∙ stripped

-- The slug of a name consists of words of small letters and digits with single hyphens between them;
-- and a text of that shape is its own slug, if `toLowerCase` leaves it.
pub slug_from_name-is_slug :
    (to_lower_case : Codes → Codes) (name slug : Codes)
    → is_slug slug ≡ true
    → to_lower_case slug ≡ slug
    → (is_slug (slug_from_name to_lower_case name) ≡ true)
      × (slug_from_name to_lower_case slug ≡ slug)
unfolding slug_from_name
slug_from_name-is_slug to_lower_case name slug h l = (
  ap is_slug (ap strip_end (strip_start-collapse (to_lower_case name)))
      ∙ is_slug-stripped (collapse true (to_lower_case name))
          (stripped_words (to_lower_case name)).1,
  ap (λ t. strip_end (strip_start (collapse false t))) l
      ∙ ap strip_end (strip_start-collapse slug)
      ∙ stripped_slug slug h,
)
