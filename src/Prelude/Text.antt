-- ===== src/Prelude/Text.antt =====
-- Texts as the source builds them: template literals, truthiness, `split(…)[0]`.
use Prim.Native.Nat.{ℕ}
use Prim.Native.Char.{code}
use Prim.Native.String
use Prim.Native.String.{String, [], ◌∷◌}
use mathlib.Core.Path.{◌≡◌, refl}
use mathlib.Core.Bool.{Bool, false, not}
use mathlib.Core.Option.{Option, none, some}
use text.Mathlib.Text.{◌==◌ as str_eq}
use bataudit.Prelude.Tests.{◌==◌, if◌then◌else◌}

-- Concatenation of texts: `${a}${b}`.
infixr 65 ◌<>◌
abbrev pub ◌<>◌ : String → String → String
a <> b = String.◌++◌ a b

-- Whether `if (s)` takes the branch: not the empty text.
abbrev pub truthy_text : String → Bool
truthy_text s = not (str_eq s "")

-- The same of a value that may be `null` or `undefined`.
abbrev pub truthy : Option String → Bool
truthy none = false
truthy (some s) = truthy_text s

-- `s.split(c)[0]` for a separator of one character: what stands before its first occurrence.
unfoldable pub before : ℕ → String → String
before c [] = []
before c (d ∷ s) = let rest = before c s in if code d == c then "" else d ∷ rest

-- What stands after the first occurrence, if there is one.
unfoldable pub after : ℕ → String → Option String
after c [] = none
after c (d ∷ s) = let rest = after c s in if code d == c then some s else rest

after_test : after b'.' "a.b.c" ≡ some "b.c"
unfolding after
after_test = refl

before_test : before b'?' "/a?b?c" ≡ "/a"
unfolding before
before_test = refl
