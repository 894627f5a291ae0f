-- ===== src/Web/Storage.antt =====
-- `localStorage`: texts under texts.
use bataudit.Prelude.{
  String, ◌≡◌, Option, none, some, List, [], ◌∷◌, str_eq, eq_iff, if◌then◌else◌, arith,
}

abbrev pub Storage : Type 0
Storage = List (String × String)

unfoldable pub get_item : String → Storage → Option String
get_item k [] = none
get_item k ((j, v) ∷ s) = if str_eq j k then some v else get_item k s

unfoldable pub remove_item : String → Storage → Storage
remove_item k [] = []
remove_item k ((j, v) ∷ s) =
    let rest = remove_item k s in if str_eq j k then rest else (j, v) ∷ rest

unfoldable pub set_item : String → String → Storage → Storage
unfolding remove_item
set_item k v s = (k, v) ∷ remove_item k s

pub get_item-remove_item :
    (k j : String) (s : Storage)
    → get_item k (remove_item j s) ≡ (if str_eq j k then none else get_item k s)
unfolding get_item remove_item
get_item-remove_item k j [] = ground arith
get_item-remove_item k j ((i, v) ∷ s) =
    ground (arith, eq_iff i j, eq_iff i k, eq_iff j k, get_item-remove_item k j s)

pub get_item-set_item :
    (k j v : String) (s : Storage)
    → get_item k (set_item j v s) ≡ (if str_eq j k then some v else get_item k s)
unfolding get_item set_item
get_item-set_item k j v s = ground (arith, get_item-remove_item k j s)
