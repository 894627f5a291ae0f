-- ===== src/Web/Clients/Template/Render.antt =====
-- What a query becomes when its variables have values.
use mathlib.Core.List.{append_assoc}
use bataudit.Prelude.{
  ℕ, ◌-◌, Bool, true, false, ◌≡◌, refl, ap, ◌∙◌, some, List, [], ◌∷◌, ◌++◌, length, length-append,
  Bool-cases, inl, inr, take, All, arith, if◌then◌else◌, ◌or_else◌,
}
use bataudit.Web.Clients.Template.{
  Codes, Name, project_id, from, to, name_codes, QueryVars, match_at, written, replace_from,
  replace_global, apply_vars,
}
use bataudit.Web.Clients.Template.Matches.{
  Piece, text, var, print_piece, print, has, IsPlain, copied, skipped, replacement_plain, no_match,
  not_matched, other_name, same_name, matched,
}

abbrev pub value_of : QueryVars → Name → Codes
value_of vars project_id = vars.project_id or_else []
value_of vars from = vars.from or_else []
value_of vars to = vars.to or_else []

-- What the query becomes.
abbrev pub render : QueryVars → List Piece → Codes
render vars [] = []
render vars (text s ∷ xs) = s ++ render vars xs
render vars (var before name after ∷ xs) = value_of vars name ++ render vars xs

-- The template after one replacement.
abbrev put : Name → Codes → List Piece → List Piece
put name value [] = []
put name value (text s ∷ xs) = text s ∷ put name value xs
put name value (var before other after ∷ xs) =
    (if other_name name other then var before other after else text value) ∷ put name value xs

module _ (name : Name) (value : Codes) (no_dollar : has b'$' value ≡ false) where
  written-some :
      (c : ℕ) (m s b : Codes)
      → match_at name (c ∷ (m ++ s)) ≡ some s
      → written name value 0 b (c ∷ (m ++ s)) ≡ (value, length m)
  unfolding written
  written-some c m s b h = ground (
    arith,
    length-append m s,
    replacement_plain value b (take (length (c ∷ (m ++ s)) - length s) (c ∷ (m ++ s))) s no_dollar,
  )

  -- A variable becomes its value.
  replaced :
      (c : ℕ) (m s b : Codes)
      → match_at name (c ∷ (m ++ s)) ≡ some s
      → replace_from name value 0 b (c ∷ (m ++ s))
        ≡ value ++ replace_from name value 0 (b ++ c ∷ m) s
  unfolding replace_from
  replaced c m s b h =
      ap (λ (w : Codes × ℕ). w.0 ++ replace_from name value w.1 (b ++ c ∷ []) (m ++ s))
        (written-some c m s b h)
      ∙ ap (λ t. value ++ t)
          (skipped name value m s (b ++ c ∷ [])
            ∙ ap (λ b'. replace_from name value 0 b' s) (append_assoc b (c ∷ []) m))

  replace_global-print :
      (xs : List Piece) (b : Codes)
      → All IsPlain xs
      → replace_from name value 0 b (print xs) ≡ print (put name value xs)
  unfolding replace_from
  replace_global-print [] b h = refl
  replace_global-print (text s ∷ xs) b (h, hs) =
      copied name value s (print xs) b (no_match name s (print xs) h)
      ∙ ap (λ t. s ++ t) (replace_global-print xs (b ++ s) hs)
  replace_global-print (var before other after ∷ xs) b (h, hs) =
      elim (Bool-cases (other_name name other)) [
        | inl is_other ↦ rw is_other (
            copied name value (print_piece (var before other after)) (print xs) b
              (not_matched name before other after (print xs) is_other h)
            ∙ ap (λ t. print_piece (var before other after) ++ t)
                (replace_global-print xs (b ++ print_piece (var before other after)) hs))
        | inr same ↦ rw same (
            replaced b'{' (b'{' ∷ (before ++ (name_codes other ++ (after ++ b'}' ∷ b'}' ∷ []))))
              (print xs) b
              (ap (λ n. match_at n (print_piece (var before other after) ++ print xs))
                  (same_name name other same)
                ∙ matched before other after (print xs) h)
            ∙ ap (λ t. value ++ t)
                (replace_global-print xs (b ++ print_piece (var before other after)) hs))
      ]

chosen-IsPlain : (b : Bool) (x y : Piece) → IsPlain x → IsPlain y → IsPlain (if b then x else y)
chosen-IsPlain true x y h k = h
chosen-IsPlain false x y h k = k

put-IsPlain :
    (name : Name) (value : Codes) (xs : List Piece)
    → has b'{' value ≡ false
    → All IsPlain xs
    → All IsPlain (put name value xs)
put-IsPlain name value [] v h = tt
put-IsPlain name value (text s ∷ xs) v (h, hs) = (h, put-IsPlain name value xs v hs)
put-IsPlain name value (var before other after ∷ xs) v (h, hs) = (
  chosen-IsPlain (other_name name other) (var before other after) (text value) h v,
  put-IsPlain name value xs v hs,
)

put_all :
    (vars : QueryVars) (xs : List Piece)
    → print (
        put to
          (value_of vars to)
          (put from (value_of vars from) (put project_id (value_of vars project_id) xs)))
      ≡ render vars xs
put_all vars [] = refl
put_all vars (text s ∷ xs) = ap (λ t. s ++ t) (put_all vars xs)
put_all vars (var before project_id after ∷ xs) =
    ap (λ t. value_of vars project_id ++ t) (put_all vars xs)
put_all vars (var before from after ∷ xs) = ap (λ t. value_of vars from ++ t) (put_all vars xs)
put_all vars (var before to after ∷ xs) = ap (λ t. value_of vars to ++ t) (put_all vars xs)

-- A value has neither a brace that opens a variable nor a `$`.
abbrev pub IsPlainValue : Codes → Type 0
IsPlainValue v = (has b'{' v ≡ false) × (has b'$' v ≡ false)

-- A query that is made of texts without an opening brace, and of variables with or without spaces
-- around their names, becomes the same texts with the values in the variables' places, a missing
-- value being the empty text; the values have neither an opening brace nor a `$`, which the
-- replacement would read otherwise.
pub apply_vars-print :
    (vars : QueryVars) (xs : List Piece)
    → IsPlainValue (value_of vars project_id)
    → IsPlainValue (value_of vars from)
    → IsPlainValue (value_of vars to)
    → All IsPlain xs
    → apply_vars (print xs) vars ≡ render vars xs
unfolding apply_vars
apply_vars-print vars xs (p, p$) (f, f$) (t, t$) h =
    let with_project = put project_id (value_of vars project_id) xs in
    let h1 = put-IsPlain project_id (value_of vars project_id) xs p h in
    let with_from = put from (value_of vars from) with_project in
    let h2 = put-IsPlain from (value_of vars from) with_project f h1 in
    ap (λ s. replace_global to (value_of vars to) (replace_global from (value_of vars from) s))
      (replace_global-print project_id (value_of vars project_id) p$ xs [] h)
    ∙ ap (replace_global to (value_of vars to))
        (replace_global-print from (value_of vars from) f$ with_project [] h1)
    ∙ replace_global-print to (value_of vars to) t$ with_from [] h2
    ∙ put_all vars xs
