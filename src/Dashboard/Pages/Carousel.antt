-- ===== src/Dashboard/Pages/Carousel.antt =====
-- The pages of the carousel in frontend/src/routes/tv.tsx, and its timer.
use native.Mathlib.Nat.{zero-add, suc-add, mod-eq_of_lt, mod-lt}
use bataudit.Prelude.{
  ℕ, zero, suc, ◌+◌, ◌*◌, ◌/◌, ◌%◌, ◌<◌, ◌≡◌, refl, List, [], ◌∷◌, take, drop, get_elem?, length,
  arith, ◌∙◌, ap,
}
use bataudit.Dashboard.Pages.{page_size, page_count, tick, reset, slice}

-- The page after the timer has run k times.
pub ticks : (pages k : ℕ) → ℕ
ticks pages zero = 0
ticks pages (suc k) = tick pages (ticks pages k)

ticks-of_lt : (pages k : ℕ) → k < pages → ticks pages k ≡ k
unfolding ticks tick
ticks-of_lt pages zero h = refl
ticks-of_lt pages (suc k) h =
    rw (ticks-of_lt pages k (omega arith)) (ground (arith, mod-eq_of_lt {n = k + 1} {m = pages}))

get_elem?-drop {ℓ} :
    {A : Type ℓ} (n i : ℕ) (xs : List A) → get_elem? (drop n xs) i ≡ get_elem? xs (n + i)
get_elem?-drop zero i xs = rw zero-add
get_elem?-drop (suc n) i [] = refl
get_elem?-drop (suc n) i (x ∷ xs) = rw suc-add (get_elem?-drop n i xs)

get_elem?-take {ℓ} :
    {A : Type ℓ} (n i : ℕ) (xs : List A) → i < n → get_elem? (take n xs) i ≡ get_elem? xs i
get_elem?-take zero i xs h = elim h [ ]
get_elem?-take (suc n) i [] h = refl
get_elem?-take (suc n) zero (x ∷ xs) h = refl
get_elem?-take (suc n) (suc i) (x ∷ xs) h = get_elem?-take n i xs (omega arith)

page_count-gt : (i n : ℕ) → i < n → i / 5 < page_count n
unfolding page_count
page_count-gt i n h = omega arith

-- Every monitor is shown: the i-th of them stands at place i mod 5 of page i div 5, which is one of
-- the pages, and is the page that the timer has reached after i div 5 rounds.
pub slice-covers {ℓ} :
    {A : Type ℓ} (entries : List A) (i : ℕ)
    → i < length entries
    → (i / 5 < page_count (length entries))
      × (ticks (page_count (length entries)) (i / 5) ≡ i / 5)
      × (get_elem? (slice (i / 5) entries) (i % 5) ≡ get_elem? entries i)
unfolding slice
slice-covers entries i h =
    let here = page_count-gt i (length entries) h in
    let split : i / 5 * page_size + i % 5 ≡ i = omega arith in
    (
      here,
      ticks-of_lt (page_count (length entries)) (i / 5) here,
      get_elem?-take page_size (i % 5) (drop (i / 5 * page_size) entries) (omega arith)
          ∙ get_elem?-drop (i / 5 * page_size) (i % 5) entries
          ∙ ap (get_elem? entries) split,
    )

-- After the entries have changed, and after each round of the timer, the page is one of the pages.
page_in_range :
    (total page : ℕ)
    → let pages = page_count total in
      (reset pages page < pages) × (tick pages (reset pages page) < pages)
unfolding reset tick page_count
page_in_range total page = grind (arith, mod-lt)
