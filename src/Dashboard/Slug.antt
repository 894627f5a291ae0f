-- ===== src/Dashboard/Slug.antt =====
-- `handleSlugFromName` of frontend/src/routes/app/_layout/settings/api-keys.tsx: the slug of a new
-- project, from its name. A text is the list of its code units; `toLowerCase` is an argument.
pub mod Shape
use bataudit.Prelude.{
  ℕ, Bool, true, false, not, ◌&&◌, ◌||◌, ◌==◌, leb, List, [], ◌∷◌, if◌then◌else◌,
}

abbrev pub Codes : Type 0
Codes = List ℕ

-- `[a-z0-9]`
abbrev pub is_word : ℕ → Bool
is_word c = (leb b'a' c && leb c b'z') || (leb b'0' c && leb c b'9')

-- `.replace(/[^a-z0-9]+/g, '-')`; within such a run nothing more is written.
unfoldable pub collapse : (within_run : Bool) → Codes → Codes
collapse run [] = []
collapse run (c ∷ s) =
    let rest = collapse (not (is_word c)) s in
    if is_word c then c ∷ rest else if run then rest else b'-' ∷ rest

-- `.replace(/^-|-$/g, '')`: a hyphen at the start, and one at the end.
unfoldable pub strip_start : Codes → Codes
strip_start [] = []
strip_start (c ∷ s) = if c == b'-' then s else c ∷ s

unfoldable pub strip_end : Codes → Codes
strip_end [] = []
strip_end (c ∷ []) = if c == b'-' then [] else c ∷ []
strip_end (c ∷ d ∷ s) = c ∷ strip_end (d ∷ s)

unfoldable pub slug_from_name : (to_lower_case : Codes → Codes) → Codes → Codes
slug_from_name to_lower_case name = strip_end (strip_start (collapse false (to_lower_case name)))
