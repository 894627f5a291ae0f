-- ===== src/Dashboard/Services/Order.antt =====
-- The order of the rows.
use bataudit.Prelude.{
  String, Bool, true, false, ◌≡◌, ◌≢◌, ◌≤◌, refl, List, [], ◌∷◌, All, Bool-cases, inl, inr, keep,
  length, arith,
}
use bataudit.Prelude.Sort.{Sorted, sort-Sorted, count-sort}
use bataudit.Dashboard.Services.{
  ServiceBreakdown, Column, service_name, requests, errors, avg_response_time, last_event,
  Direction, asc, desc, value_of, less, row_after, same_column, toggle_sort, other_direction,
  sorted_services,
}

-- What `<` on texts is: a text is not both before and after another, and what is not before is
-- not before by way of a third.
abbrev pub IsOrder : (String → String → Bool) → Type 0
IsOrder text_less =
    ((s t : String) → text_less s t ≡ true → text_less t s ≡ false)
    × ((s t u : String) → text_less s t ≡ false → text_less t u ≡ false → text_less s u ≡ false)

module _ (text_less : String → String → Bool) (order : IsOrder text_less) where
  less_asym :
      (col : Column) (a b : ServiceBreakdown)
      → less text_less (value_of col a) (value_of col b) ≡ true
      → less text_less (value_of col b) (value_of col a) ≡ false
  less_asym service_name a b h = order.0 a.service_name b.service_name h
  less_asym last_event a b h = order.0 a.last_event b.last_event h
  less_asym requests a b h = ground arith
  less_asym errors a b h = ground arith
  less_asym avg_response_time a b h = ground arith

  less_trans :
      (col : Column) (a b c : ServiceBreakdown)
      → less text_less (value_of col a) (value_of col b) ≡ false
      → less text_less (value_of col b) (value_of col c) ≡ false
      → less text_less (value_of col a) (value_of col c) ≡ false
  less_trans service_name a b c h k = order.1 a.service_name b.service_name c.service_name h k
  less_trans last_event a b c h k = order.1 a.last_event b.last_event c.last_event h k
  less_trans requests a b d h k = ground arith
  less_trans errors a b d h k = ground arith
  less_trans avg_response_time a b d h k = ground arith

  asym :
      (col : Column) (dir : Direction) (a b : ServiceBreakdown)
      → row_after text_less col dir a b ≡ true
      → row_after text_less col dir b a ≡ false
  asym col asc a b h = less_asym col b a h
  asym col desc a b h = less_asym col a b h

  trans :
      (col : Column) (dir : Direction) (a b c : ServiceBreakdown)
      → row_after text_less col dir a b ≡ false
      → row_after text_less col dir b c ≡ false
      → row_after text_less col dir a c ≡ false
  trans col asc a b c h k = less_trans col c b a k h
  trans col desc a b c h k = less_trans col a b c h k

toggle_sort_same :
    (col : Column) (dir : Direction) → toggle_sort col (col, dir) ≡ (col, other_direction dir)
unfolding toggle_sort
toggle_sort_same service_name dir = refl
toggle_sort_same last_event dir = refl
toggle_sort_same requests dir = refl
toggle_sort_same errors dir = refl
toggle_sort_same avg_response_time dir = refl

column_of_same : (a b : Column) → same_column a b ≡ true → a ≡ b
column_of_same service_name service_name h = refl
column_of_same last_event last_event h = refl
column_of_same requests requests h = refl
column_of_same errors errors h = refl
column_of_same avg_response_time avg_response_time h = refl
column_of_same _ _ h = cc

toggle_sort_other :
    (col other : Column) (dir : Direction)
    → col ≢ other
    → toggle_sort other (col, dir) ≡ (other, desc)
unfolding toggle_sort
toggle_sort_other col other dir h = elim (Bool-cases (same_column col other)) [
  | inl same ↦ absurd (h (column_of_same col other same))
  | inr differ ↦ rw differ refl
]

-- How a value stands to one that is shown below it: at most that in ascending order, and at least that in
-- descending order. A text is at most another where that one is not before it.
abbrev pub IsAtMost :
    (String → String → Bool) → Column → ServiceBreakdown → ServiceBreakdown → Type 0
IsAtMost text_less service_name a b = text_less b.service_name a.service_name ≡ false
IsAtMost text_less last_event a b = text_less b.last_event a.last_event ≡ false
IsAtMost text_less requests a b = a.requests ≤ b.requests
IsAtMost text_less errors a b = a.errors ≤ b.errors
IsAtMost text_less avg_response_time a b = a.avg_response_time ≤ b.avg_response_time

abbrev pub IsAbove :
    (String → String → Bool) → Column → Direction → ServiceBreakdown → ServiceBreakdown → Type 0
IsAbove text_less col asc a b = IsAtMost text_less col a b
IsAbove text_less col desc a b = IsAtMost text_less col b a

-- Each row stands so to all rows below it.
abbrev pub IsSorted : (String → String → Bool) → Column → Direction → List ServiceBreakdown → Type 0
IsSorted text_less col dir [] = Unit
IsSorted text_less col dir (a ∷ rows) =
    All (IsAbove text_less col dir a) rows × IsSorted text_less col dir rows

not_less-IsAtMost :
    (text_less : String → String → Bool) (col : Column) (a b : ServiceBreakdown)
    → less text_less (value_of col b) (value_of col a) ≡ false
    → IsAtMost text_less col a b
not_less-IsAtMost text_less service_name a b h = h
not_less-IsAtMost text_less last_event a b h = h
not_less-IsAtMost text_less requests a b h = ground arith
not_less-IsAtMost text_less errors a b h = ground arith
not_less-IsAtMost text_less avg_response_time a b h = ground arith

not_after-IsAbove :
    (text_less : String → String → Bool) (col : Column) (dir : Direction) (a b : ServiceBreakdown)
    → row_after text_less col dir a b ≡ false
    → IsAbove text_less col dir a b
not_after-IsAbove text_less col asc a b h = not_less-IsAtMost text_less col a b h
not_after-IsAbove text_less col desc a b h = not_less-IsAtMost text_less col b a h

All-IsAbove :
    (text_less : String → String → Bool) (col : Column) (dir : Direction) (a : ServiceBreakdown)
    (rows : List ServiceBreakdown)
    → All (λ b. row_after text_less col dir a b ≡ false) rows
    → All (IsAbove text_less col dir a) rows
All-IsAbove text_less col dir a [] h = tt
All-IsAbove text_less col dir a (b ∷ rows) (h, hs) =
    (not_after-IsAbove text_less col dir a b h, All-IsAbove text_less col dir a rows hs)

Sorted-IsSorted :
    (text_less : String → String → Bool) (col : Column) (dir : Direction)
    (rows : List ServiceBreakdown)
    → Sorted (row_after text_less col dir) rows
    → IsSorted text_less col dir rows
Sorted-IsSorted text_less col dir [] h = tt
Sorted-IsSorted text_less col dir (a ∷ rows) (h, hs) =
    (All-IsAbove text_less col dir a rows h, Sorted-IsSorted text_less col dir rows hs)

-- The table has the rows that it was given, each as often, and from its top to its bottom the values of the
-- chosen column do not fall where the direction is ascending, and do not rise where it is descending. A
-- click on another head shows that column in descending order, and one on the same head turns the direction. `<` orders the
-- texts.
pub sorted_services-IsSorted :
    (text_less : String → String → Bool) (order : IsOrder text_less) (col other : Column)
    (dir : Direction) (p : ServiceBreakdown → Bool) (by_service : List ServiceBreakdown)
    → col ≢ other
    → IsSorted text_less col dir (sorted_services text_less (col, dir) by_service)
      × (length (keep p (sorted_services text_less (col, dir) by_service))
          ≡ length (keep p by_service))
      × (toggle_sort other (col, dir) ≡ (other, desc))
      × (toggle_sort col (col, asc) ≡ (col, desc))
      × (toggle_sort col (col, desc) ≡ (col, asc))
unfolding sorted_services
sorted_services-IsSorted text_less order col other dir p by_service differ = (
  Sorted-IsSorted text_less col dir _ (
      sort-Sorted (row_after text_less col dir) (asym text_less order col dir)
        (trans text_less order col dir) by_service),
  count-sort (row_after text_less col dir) p by_service,
  toggle_sort_other col other dir differ,
  toggle_sort_same col asc,
  toggle_sort_same col desc,
)
