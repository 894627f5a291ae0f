-- ===== src/Web/Clients/Template/Matches.antt =====
-- A query as a template, and where its variables are found.
use mathlib.Core.List.{append_assoc, append-nil}
use bataudit.Prelude.{
  ℕ, Bool, true, false, not, ◌==◌, ◌≡◌, refl, ap, sym, ◌∙◌, any, none, some, List, [], ◌∷◌, ◌++◌,
  length, any-append, arith,
}
use bataudit.Web.Clients.Template.{
  Codes, Name, project_id, from, to, name_codes, is_space, strip_prefix, skip_spaces, match_at,
  then_strip, replacement, written, replace_from,
}

-- A text, or a variable with spaces around its name.
pub data Piece : Type 0 where
  text : Codes → Piece
  var : (before : Codes) → Name → (after : Codes) → Piece

abbrev pub print_piece : Piece → Codes
print_piece (text s) = s
print_piece (var before name after) =
    b'{' ∷ b'{' ∷ (before ++ (name_codes name ++ (after ++ b'}' ∷ b'}' ∷ [])))

abbrev pub print : List Piece → Codes
print [] = []
print (x ∷ xs) = print_piece x ++ print xs

abbrev pub has : ℕ → Codes → Bool
has c s = any (λ d. d == c) s

-- A text has no brace that opens a variable; around a name there are spaces only.
abbrev pub IsPlain : Piece → Type 0
IsPlain (text s) = has b'{' s ≡ false
IsPlain (var before name after) =
    (any (λ c. not (is_space c)) before ≡ false) × (any (λ c. not (is_space c)) after ≡ false)

-- No match begins in the first of two texts.
abbrev pub NoMatch : Name → (u s : Codes) → Type 0
NoMatch name [] s = Unit
NoMatch name (c ∷ u) s = (match_at name (c ∷ (u ++ s)) ≡ none) × NoMatch name u s

module _ (name : Name) (value : Codes) where
  written-none :
      (c : ℕ) (s b : Codes)
      → match_at name (c ∷ s) ≡ none
      → written name value 0 b (c ∷ s) ≡ (c ∷ [], 0)
  unfolding written
  written-none c s b h = ground arith

  pub copied :
      (u s b : Codes)
      → NoMatch name u s
      → replace_from name value 0 b (u ++ s) ≡ u ++ replace_from name value 0 (b ++ u) s
  unfolding replace_from written
  copied [] s b h = ap (λ c. replace_from name value 0 c s) (sym (append-nil b))
  copied (c ∷ u) s b (h, hs) =
      ap (λ (w : Codes × ℕ). w.0 ++ replace_from name value w.1 (b ++ c ∷ []) (u ++ s))
        (written-none c (u ++ s) b h)
      ∙ ap (λ t. c ∷ t)
          (copied u s (b ++ c ∷ []) hs
            ∙ ap (λ b'. u ++ replace_from name value 0 b' s) (append_assoc b (c ∷ []) u))

  pub skipped :
      (m s b : Codes)
      → replace_from name value (length m) b (m ++ s) ≡ replace_from name value 0 (b ++ m) s
  unfolding replace_from written
  skipped [] s b = ap (λ c. replace_from name value 0 c s) (sym (append-nil b))
  skipped (c ∷ m) s b =
      skipped m s (b ++ c ∷ [])
      ∙ ap (λ b'. replace_from name value 0 b' s) (append_assoc b (c ∷ []) m)

-- A replacement text without `$` is what is written.
pub replacement_plain :
    (v before matched after : Codes)
    → has b'$' v ≡ false
    → replacement false v before matched after ≡ v
unfolding replacement
replacement_plain [] before matched after h = refl
replacement_plain (c ∷ v) before matched after h =
    ground (arith, replacement_plain v before matched after)

strip_prefix-append : (p s : Codes) → strip_prefix p (p ++ s) ≡ some s
unfolding strip_prefix
strip_prefix-append [] s = refl
strip_prefix-append (c ∷ p) s = ground (arith, strip_prefix-append p s)

skip_spaces-append :
    (u s : Codes) → any (λ c. not (is_space c)) u ≡ false → skip_spaces (u ++ s) ≡ skip_spaces s
unfolding skip_spaces
skip_spaces-append [] s h = refl
skip_spaces-append (c ∷ u) s h = ground (arith, skip_spaces-append u s)

skip_spaces-name :
    (name : Name) (s : Codes) → skip_spaces (name_codes name ++ s) ≡ name_codes name ++ s
unfolding skip_spaces
skip_spaces-name project_id s = refl
skip_spaces-name from s = refl
skip_spaces-name to s = refl

module _ (before : Codes) (name : Name) (after s : Codes) where
  -- A variable's text, written from left to right.
  variable_parts :
      print_piece (var before name after) ++ s
      ≡ b'{' ∷ b'{' ∷ (before ++ (name_codes name ++ (after ++ b'}' ∷ b'}' ∷ s)))
  variable_parts =
      ap (λ t. b'{' ∷ b'{' ∷ t)
        (append_assoc before (name_codes name ++ (after ++ b'}' ∷ b'}' ∷ [])) s
          ∙ ap (λ t. before ++ t)
              (append_assoc (name_codes name) (after ++ b'}' ∷ b'}' ∷ []) s
                ∙ ap (λ t. name_codes name ++ t) (append_assoc after (b'}' ∷ b'}' ∷ []) s)))

  skip_to_name :
      any (λ c. not (is_space c)) before ≡ false
      → skip_spaces (before ++ (name_codes name ++ (after ++ b'}' ∷ b'}' ∷ s)))
        ≡ name_codes name ++ (after ++ b'}' ∷ b'}' ∷ s)
  skip_to_name h =
      skip_spaces-append before (name_codes name ++ (after ++ b'}' ∷ b'}' ∷ s)) h
      ∙ skip_spaces-name name (after ++ b'}' ∷ b'}' ∷ s)

  -- A variable is matched, by its own name.
  pub matched :
      IsPlain (var before name after)
      → match_at name (print_piece (var before name after) ++ s) ≡ some s
  unfolding match_at skip_spaces strip_prefix
  matched (h, k) =
      ap (match_at name) variable_parts
      ∙ ap (λ y. then_strip (b'}' ∷ b'}' ∷ []) (strip_prefix (name_codes name) y)) (skip_to_name h)
      ∙ ap (then_strip (b'}' ∷ b'}' ∷ []))
          (strip_prefix-append (name_codes name) (after ++ b'}' ∷ b'}' ∷ s))
      ∙ ap (strip_prefix (b'}' ∷ b'}' ∷ [])) (skip_spaces-append after (b'}' ∷ b'}' ∷ s) k)

pub no_match : (name : Name) (u s : Codes) → has b'{' u ≡ false → NoMatch name u s
unfolding match_at strip_prefix
no_match name [] s h = tt
no_match name (c ∷ u) s h = (ground arith, no_match name u s (ground arith))

abbrev pub other_name : Name → Name → Bool
other_name project_id project_id = false
other_name from from = false
other_name to to = false
other_name _ _ = true

strip_prefix-other :
    (name other : Name) (s : Codes)
    → other_name name other ≡ true
    → strip_prefix (name_codes name) (name_codes other ++ s) ≡ none
unfolding strip_prefix
strip_prefix-other project_id from s h = refl
strip_prefix-other project_id to s h = refl
strip_prefix-other from project_id s h = refl
strip_prefix-other from to s h = refl
strip_prefix-other to project_id s h = refl
strip_prefix-other to from s h = refl
strip_prefix-other project_id project_id s h = cc
strip_prefix-other from from s h = cc
strip_prefix-other to to s h = cc

no_brace : (u : Codes) → any (λ c. not (is_space c)) u ≡ false → has b'{' u ≡ false
no_brace [] h = refl
no_brace (c ∷ u) h = ground (arith, no_brace u)

-- The second brace of a variable begins no match.
second_brace :
    (name : Name) (before : Codes) (other : Name) (r : Codes)
    → any (λ c. not (is_space c)) before ≡ false
    → match_at name (b'{' ∷ (before ++ (name_codes other ++ r))) ≡ none
unfolding match_at strip_prefix
second_brace name [] project_id r h = refl
second_brace name [] from r h = refl
second_brace name [] to r h = refl
second_brace name (c ∷ before) other r h = ground arith

has_brace-name : (name : Name) → has b'{' (name_codes name) ≡ false
has_brace-name project_id = refl
has_brace-name from = refl
has_brace-name to = refl

has-two : (c : ℕ) (u v : Codes) → has c u ≡ false → has c v ≡ false → has c (u ++ v) ≡ false
has-two c u v h k = any-append (λ d. d == c) u v ∙ ground (arith, h, k)

-- A variable of another name has no match.
pub not_matched :
    (name : Name) (before : Codes) (other : Name) (after s : Codes)
    → other_name name other ≡ true
    → IsPlain (var before other after)
    → NoMatch name (print_piece (var before other after)) s
unfolding match_at strip_prefix
not_matched name before other after s o (h, k) =
    let rest = after ++ b'}' ∷ b'}' ∷ [] in
    (
      ap (match_at name) (variable_parts before other after s)
          ∙ ap (λ y. then_strip (b'}' ∷ b'}' ∷ []) (strip_prefix (name_codes name) y))
              (skip_to_name before other after s h)
          ∙ ap (then_strip (b'}' ∷ b'}' ∷ []))
              (strip_prefix-other name other (after ++ b'}' ∷ b'}' ∷ s) o),
      (
        ap (λ t. match_at name (b'{' ∷ t))
              (append_assoc before (name_codes other ++ rest) s
                ∙ ap (λ t. before ++ t) (append_assoc (name_codes other) rest s))
            ∙ second_brace name before other (rest ++ s) h,
        no_match name (before ++ (name_codes other ++ rest)) s (
            has-two b'{' before (name_codes other ++ rest) (no_brace before h) (
              has-two b'{' (name_codes other) rest (has_brace-name other)
                (has-two b'{' after (b'}' ∷ b'}' ∷ []) (no_brace after k) refl))),
      ),
    )

pub same_name : (name other : Name) → other_name name other ≡ false → name ≡ other
same_name project_id project_id h = refl
same_name from from h = refl
same_name to to h = refl
same_name project_id from h = cc
same_name project_id to h = cc
same_name from project_id h = cc
same_name from to h = cc
same_name to project_id h = cc
same_name to from h = cc
