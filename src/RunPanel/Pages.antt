-- ===== src/RunPanel/Pages.antt =====
-- frontend/src/components/RunOutputViewer.tsx: the pages of a run's output, turned in a circle.
use clerq.Prelude.{
  ℕ, ◌+◌, ◌-◌, ◌<◌, ◌≡◌, refl, ltb, Option, none, some, map_get, arith, if◌then◌else◌,
}

-- `prev`, on the number of pages
unfoldable pub prev : ℕ → Option ℕ → Option ℕ
prev n lightbox = map_get lightbox (λ i. if ltb 0 i then i - 1 else n - 1)

-- `next`
unfoldable pub next : ℕ → Option ℕ → Option ℕ
next n lightbox = map_get lightbox (λ i. if ltb i (n - 1) then i + 1 else 0)

-- With at least one page, turning back undoes turning on and the reverse, and a page that is there stays
-- one that is there; a closed view stays closed.
next-prev :
    (n i : ℕ)
    → i < n
    → (next n (prev n (some i)) ≡ some i)
      × (prev n (next n (some i)) ≡ some i)
      × ((j : ℕ) × (next n (some i) ≡ some j) × (j < n))
      × ((j : ℕ) × (prev n (some i) ≡ some j) × (j < n))
      × (next n none ≡ none)
unfolding next prev
next-prev n i h = (
  ground arith,
  ground arith,
  ((if ltb i (n - 1) then i + 1 else 0), refl, ground arith),
  ((if ltb 0 i then i - 1 else n - 1), refl, ground arith),
  refl,
)
