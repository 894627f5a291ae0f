-- ===== src/Dashboard/Studio/Overlap.antt =====
-- The cells that the widgets of frontend/src/routes/app/_layout/studio.tsx take in the grid.
use Prim.Native.Nat.{max}
use bataudit.Prelude.{
  ℕ, ◌+◌, ◌≤◌, String, Bool, ◌⊎◌, inl, inr, List, [], ◌∷◌, ◌++◌, keep, All, arith, Bool-cases,
}
use bataudit.Web.Clients.Studio.{Widget, GridItem}
use bataudit.Dashboard.Studio.{
  Studio, has_item, bottom_from, place, add_or_update_widget, remove_widget,
}

-- Two places in the grid that have no cell in common.
abbrev pub Apart : GridItem → GridItem → Type 0
Apart a b = (a.y + a.h ≤ b.y) ⊎ (b.y + b.h ≤ a.y) ⊎ (a.x + a.w ≤ b.x) ⊎ (b.x + b.w ≤ a.x)

abbrev pub Disjoint : List GridItem → Type 0
Disjoint [] = Unit
Disjoint (l ∷ ls) = All (Apart l) ls × Disjoint ls

bottom_from-le : (m : ℕ) (ls : List GridItem) → m ≤ bottom_from m ls
bottom_from-le m [] = omega arith
bottom_from-le m (l ∷ ls) = omega (arith, bottom_from-le (max m (l.y + l.h)) ls)

All-bottom_from : (m : ℕ) (ls : List GridItem) → All (λ l. l.y + l.h ≤ bottom_from m ls) ls
All-bottom_from m [] = tt
All-bottom_from m (l ∷ ls) =
    (omega (arith, bottom_from-le (max m (l.y + l.h)) ls), All-bottom_from (max m (l.y + l.h)) ls)

All-concat :
    (P : GridItem → Type 0) (ls : List GridItem) (k : GridItem)
    → All P ls
    → P k
    → All P (ls ++ k ∷ [])
All-concat P [] k h p = (p, tt)
All-concat P (l ∷ ls) k (q, h) p = (q, All-concat P ls k h p)

Disjoint-concat :
    (ls : List GridItem) (k : GridItem)
    → Disjoint ls
    → All (λ l. l.y + l.h ≤ k.y) ls
    → Disjoint (ls ++ k ∷ [])
Disjoint-concat [] k h below = (tt, tt)
Disjoint-concat (l ∷ ls) k (h, hs) (b, below) =
    (All-concat (Apart l) ls k h (inl b), Disjoint-concat ls k hs below)

All-keep :
    (P : GridItem → Type 0) (p : GridItem → Bool) (ls : List GridItem)
    → All P ls
    → All P (keep p ls)
All-keep P p [] h = tt
All-keep P p (l ∷ ls) (q, h) = elim (Bool-cases (p l)) [
  | inl yes' ↦ rw yes' (q, All-keep P p ls h)
  | inr no' ↦ rw no' (All-keep P p ls h)
]

Disjoint-keep : (p : GridItem → Bool) (ls : List GridItem) → Disjoint ls → Disjoint (keep p ls)
Disjoint-keep p [] h = tt
Disjoint-keep p (l ∷ ls) (q, h) = elim (Bool-cases (p l)) [
  | inl yes' ↦ rw yes' (All-keep (Apart l) p ls q, Disjoint-keep p ls h)
  | inr no' ↦ rw no' (Disjoint-keep p ls h)
]

Disjoint-place : (id : String) (ls : List GridItem) → Disjoint ls → Disjoint (place id ls)
unfolding place
Disjoint-place id ls h = elim (Bool-cases (has_item id ls)) [
  | inl old ↦ rw old h
  | inr new ↦ rw new (Disjoint-concat ls _ h (All-bottom_from 0 ls))
]

-- Saving an edited widget and removing one keep the places in the grid free of overlaps: a new
-- place lies below all others.
pub studio-Disjoint :
    (w : Widget) (id : String) (s : Studio)
    → Disjoint s.layout
    → Disjoint (add_or_update_widget w s).layout × Disjoint (remove_widget id s).layout
unfolding add_or_update_widget remove_widget
studio-Disjoint w id s h = (Disjoint-place w.id s.layout h, Disjoint-keep _ s.layout h)
