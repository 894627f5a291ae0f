-- ===== src/Web/Clients/Template.antt =====
-- `applyVars` of frontend/src/http/studio.ts: the variables of a query. A text is the list of its
-- code units.
pub mod Matches
pub mod Render
use bataudit.Prelude.{
  ℕ, zero, suc, ◌-◌, Bool, true, false, not, ◌&&◌, ◌||◌, ◌==◌, leb, any, Option, none, some, List,
  [], ◌∷◌, ◌++◌, length, take, if◌then◌else◌, ◌or_else◌,
}

abbrev pub Codes : Type 0
Codes = List ℕ

-- `\s` of a regular expression.
abbrev pub is_space : ℕ → Bool
is_space c =
    (leb 9 c && leb c 13)
    || c == 32
    || c == 160
    || c == 5760
    || (leb 8192 c && leb c 8202)
    || c == 8232
    || c == 8233
    || c == 8239
    || c == 8287
    || c == 12288
    || c == 65279

pub data Name : Type 0 where
  project_id from to : Name

abbrev pub name_codes : Name → Codes
name_codes project_id = b'p' ∷ b'r' ∷ b'o' ∷ b'j' ∷ b'e' ∷ b'c' ∷ b't' ∷ b'_' ∷ b'i' ∷ b'd' ∷ []
name_codes from = b'f' ∷ b'r' ∷ b'o' ∷ b'm' ∷ []
name_codes to = b't' ∷ b'o' ∷ []

pub record QueryVars : Type 0 where
  pub project_id : Option Codes
  pub from : Option Codes
  pub to : Option Codes

-- What follows a prefix.
unfoldable pub strip_prefix : (prefix : Codes) → Codes → Option Codes
strip_prefix [] s = some s
strip_prefix (c ∷ p) [] = none
strip_prefix (c ∷ p) (d ∷ s) = let rest = strip_prefix p s in if c == d then rest else none

unfoldable pub skip_spaces : Codes → Codes
skip_spaces [] = []
skip_spaces (c ∷ s) = let rest = skip_spaces s in if is_space c then rest else c ∷ s

abbrev pub then_strip : Codes → Option Codes → Option Codes
then_strip p none = none
then_strip p (some s) = strip_prefix p (skip_spaces s)

-- `/\{\{\s*name\s*\}\}/` at the start of a text: what follows the match. A name does not begin
-- with a space, nor does `}`, so that spaces are never given back.
unfoldable pub match_at : Name → Codes → Option Codes
match_at name s =
    then_strip (b'}' ∷ b'}' ∷ []) (then_strip (name_codes name) (strip_prefix (b'{' ∷ b'{' ∷ []) s))

-- One code of a replacement text, after a `$` or not: `$$`, `$&`, `` $` `` and `$'` are special.
abbrev pub replacement_code : (after_dollar : Bool) → ℕ → (before matched after : Codes) → Codes
replacement_code false c before matched after = if c == b'$' then [] else c ∷ []
replacement_code true c before matched after =
    if c == b'$'
    then b'$' ∷ []
    else if c == b'&'
    then matched
    else if c == b'`'
    then before
    else if c == 39
    then after
    else b'$' ∷ c ∷ []

-- The replacement text for a match.
unfoldable pub replacement : (after_dollar : Bool) → Codes → (before matched after : Codes) → Codes
replacement after_dollar [] before matched after = if after_dollar then b'$' ∷ [] else []
replacement after_dollar (c ∷ v) before matched after =
    replacement_code after_dollar c before matched after
    ++ replacement (not after_dollar && c == b'$') v before matched after

-- What is written at a code, and how many codes after it belong to a match.
unfoldable pub written : Name → Codes → (skip : ℕ) → (before rest : Codes) → Codes × ℕ
written name value (suc skip) before s = ([], skip)
written name value zero before s = elim (match_at name s) [
  | none ↦ (take 1 s, 0)
  | some after ↦
      let n = length s - length after in (replacement false value before (take n s) after, n - 1)
]

unfoldable pub replace_from : Name → Codes → (skip : ℕ) → (before rest : Codes) → Codes
replace_from name value skip before [] = []
replace_from name value skip before (c ∷ s) =
    let (text, skip') = written name value skip before (c ∷ s) in
    text ++ replace_from name value skip' (before ++ c ∷ []) s

-- `.replace(/…/g, value)`
abbrev pub replace_global : Name → Codes → Codes → Codes
replace_global name value s = replace_from name value 0 [] s

unfoldable pub apply_vars : Codes → QueryVars → Codes
apply_vars sql vars = replace_global to (vars.to or_else []) (
    replace_global from (vars.from or_else [])
      (replace_global project_id (vars.project_id or_else []) sql))
