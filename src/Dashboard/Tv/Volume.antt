-- ===== src/Dashboard/Tv/Volume.antt =====
-- The chart of the volume in `TVDashboard` of frontend/src/routes/tv.tsx: its figures, and the labels
-- of its points.
use Prim.Native.Nat.{max}
use native.Mathlib.Nat.{div-lt_iff_lt-mul, le-max_left, le-max_right}
use bataudit.Prelude.{
  ℕ, suc, ◌+◌, ◌*◌, ◌/◌, ◌≤◌, String, Option, none, some, List, [], ◌∷◌, ◌==◌, length, arith,
  if◌then◌else◌,
}
use bataudit.Prelude.Text.{◌<>◌}

pub record WbVolumePoint : Type 0 where
  pub bucket : String
  pub count : ℕ

-- `Math.max(...pts.map(p => p.count))`
unfoldable pub max_val : List WbVolumePoint → ℕ
max_val [] = 0
max_val (p ∷ ps) = max p.count (max_val ps)

-- `pts.reduce((s, p) => s + p.count, 0)`
abbrev pub sum : List WbVolumePoint → ℕ
sum [] = 0
sum (p ∷ ps) = p.count + sum ps

-- `Math.round(sum / pts.length)`
unfoldable pub avg_val : List WbVolumePoint → ℕ
avg_val [] = 0
avg_val (p ∷ ps) = (2 * sum (p ∷ ps) + length (p ∷ ps)) / (2 * length (p ∷ ps))

unfoldable pub last_val : List WbVolumePoint → ℕ
last_val [] = 0
last_val (p ∷ []) = p.count
last_val (p ∷ q ∷ ps) = last_val (q ∷ ps)

-- `CustomDot`: the label of a point, at the peak and at the last point.
unfoldable pub custom_dot :
    (number : ℕ → String) → List WbVolumePoint → (index value : ℕ) → Option String
custom_dot number pts index value =
    if value == max_val pts
    then some ("▲ " <> number value)
    else if suc index == length pts
    then some (number value)
    else none

max_val-head :
    (p : WbVolumePoint) (ps : List WbVolumePoint)
    → (p.count ≤ max_val (p ∷ ps)) × (max_val ps ≤ max_val (p ∷ ps))
unfolding max_val
max_val-head p ps = (le-max_left p.count (max_val ps), le-max_right p.count (max_val ps))

sum-bound : (ps : List WbVolumePoint) (m : ℕ) → max_val ps ≤ m → sum ps ≤ length ps * m
sum-bound [] m h = omega arith
sum-bound (p ∷ ps) m h =
    let (here, there) = max_val-head p ps in let rest = sum-bound ps m (omega arith) in grind arith

avg_val-max_val : (ps : List WbVolumePoint) → avg_val ps ≤ max_val ps
unfolding avg_val
avg_val-max_val [] = omega arith
avg_val-max_val (p ∷ ps) =
    let total = sum-bound (p ∷ ps) (max_val (p ∷ ps)) (omega arith) in
    let below =
      (div-lt_iff_lt-mul {k = 2 * length (p ∷ ps)} {x = 2 * sum (p ∷ ps) + length (p ∷ ps)}
          {y = suc (max_val (p ∷ ps))} (omega arith)).1
        (grind arith) in
    omega arith
