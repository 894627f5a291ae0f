-- ===== src/Dashboard/Screen.antt =====
-- What a page of frontend/src shows: its texts and its controls, in the order of the document. The
-- boxes around them, their icons and their styles are not modelled.
pub mod Offers
use bataudit.Prelude.{String, Bool, true, false, List, [], ◌∷◌, ◌++◌, if◌then◌else◌}

pub data Item (A : Type 0) : Type 0 where
  text : String → Item A
  button : (enabled : Bool) (label : String) (press : A) → Item A
  input : (value : String) (change : String → A) → Item A
  -- `<select>`, with the values that can be chosen.
  choice : (enabled : Bool) (value : String) (options : List String) (change : String → A) → Item A
  link : (to label : String) → Item A

abbrev pub Screen : Type 0 → Type 0
Screen A = List (Item A)

-- `test && …`
abbrev pub when : {A : Type 0} → Bool → Screen A → Screen A
when test s = if test then s else []

-- `xs.map(…)`
abbrev pub each : {A B : Type 0} → (B → Screen A) → List B → Screen A
each f [] = []
each f (x ∷ xs) = f x ++ each f xs
