-- ===== src/Dashboard/Pages.antt =====
-- Paging: frontend/src/components/app-pagination.tsx, and `HealthCarousel` of
-- frontend/src/routes/tv.tsx.
pub mod Controls
pub mod Carousel
use Prim.Native.Nat.{◌-◌, max}
use bataudit.Prelude.{
  ℕ, zero, suc, ◌+◌, ◌*◌, ◌/◌, ◌%◌, Bool, true, List, [], ◌∷◌, ◌++◌, ltb, leb, ◌==◌, ◌&&◌, take,
  drop, length, if◌then◌else◌,
}

-- What the bar shows: the page that a click leads to, and for a numbered link, whether it is
-- marked as the current one.
pub data Control : Type 0 where
  previous : ℕ → Control
  link : ℕ → Bool → Control
  ellipsis : Control
  next : ℕ → Control

abbrev pub shown : Bool → Control → List Control
shown test c = if test then c ∷ [] else []

unfoldable pub app_pagination : (page total_pages : ℕ) → List Control
app_pagination page total_pages =
    previous (if ltb 1 page then page - 1 else 1) ∷ link 1 (page == 1) ∷ shown (ltb 2 page) ellipsis
    ++ shown (ltb 1 page && ltb page total_pages) (link page true)
    ++ shown (ltb (page + 1) total_pages) ellipsis
    ++ shown (ltb 1 total_pages) (link total_pages (page == total_pages))
    ++ next (if ltb page total_pages then page + 1 else total_pages) ∷ []

abbrev pub page_size : ℕ
page_size = 5

-- `Math.max(1, Math.ceil(total / PAGE_SIZE))`
unfoldable pub page_count : ℕ → ℕ
page_count total = max 1 ((total + (page_size - 1)) / page_size)

-- The timer, which does not run where there is one page.
unfoldable pub tick : (pages page : ℕ) → ℕ
tick pages page = if leb pages 1 then page else (page + 1) % pages

-- The effect that runs after the entries have changed.
unfoldable pub reset : (pages page : ℕ) → ℕ
reset pages page = if leb pages page then 0 else page

unfoldable pub slice {ℓ} : {A : Type ℓ} → ℕ → List A → List A
slice page entries = take page_size (drop (page * page_size) entries)
