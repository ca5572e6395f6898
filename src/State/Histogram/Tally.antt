-- ===== src/State/Histogram/Tally.antt =====
-- src/state.rs: histograms hold the tally of what was observed.
use mcpstead.Base.{
  ℕ, ◌+◌, ◌≤◌, ◌<◌, ◌≡◌, refl, ap, ◌∙◌, List, [], ◌∷◌, length, replicate, leb, if◌then◌else◌,
  u64_max, arith,
}
use native.Mathlib.Numerals.{towards_suc}
use mcpstead.State.Histogram.{HistogramMetric, default_histogram, count_in, sized, observe}

-- `observe` for each of the values, the latest value at the head
unfoldable pub observe_all : List ℕ → List ℕ → HistogramMetric
observe_all bounds [] = default_histogram
observe_all bounds (v ∷ vs) = observe v bounds (observe_all bounds vs)

-- how many of the values are at most a bound
abbrev pub count_le : ℕ → List ℕ → ℕ
count_le bound [] = 0
count_le bound (v ∷ vs) = (if leb v bound then 1 else 0) + count_le bound vs

abbrev pub sum_of : List ℕ → ℕ
sum_of [] = 0
sum_of (v ∷ vs) = v + sum_of vs

-- a count for each bound, and the number of all values behind them
abbrev pub counts_of : List ℕ → List ℕ → List ℕ
counts_of vs [] = length vs ∷ []
counts_of vs (bound ∷ bounds) = count_le bound vs ∷ counts_of vs bounds

-- what a histogram should hold
abbrev pub tally : List ℕ → List ℕ → HistogramMetric
tally bounds vs = record { buckets = counts_of vs bounds; count = length vs; sum = sum_of vs }

count_le_bound : (bound : ℕ) (vs : List ℕ) → count_le bound vs ≤ length vs
count_le_bound bound [] = omega arith
count_le_bound bound (v ∷ vs) = ground (arith, count_le_bound bound vs)

length-counts_of : (vs bounds : List ℕ) → length (counts_of vs bounds) ≡ length bounds + 1
length-counts_of vs [] = omega arith
length-counts_of vs (b ∷ bounds) = omega (arith, length-counts_of vs bounds)

count_in-counts_of :
    (v : ℕ) (vs bounds : List ℕ)
    → length vs < u64_max
    → count_in v bounds (counts_of vs bounds) ≡ counts_of (v ∷ vs) bounds
unfolding count_in
count_in-counts_of v vs [] h = ground arith
count_in-counts_of v vs (b ∷ bounds) h =
    ground (arith, count_in-counts_of v vs bounds h, count_le_bound b vs)

counts_of-nil : (bounds : List ℕ) → counts_of [] bounds ≡ replicate (length bounds + 1) 0
counts_of-nil [] = refl
counts_of-nil (b ∷ bounds) = simp towards_suc (ground (arith, counts_of-nil bounds))

sized_tally : (bounds vs : List ℕ) → sized bounds (counts_of vs bounds) ≡ counts_of vs bounds
unfolding sized
sized_tally bounds vs = ground (arith, length-counts_of vs bounds)

sized_default : (bounds : List ℕ) → sized bounds [] ≡ counts_of [] bounds
unfolding sized
sized_default bounds = ground (arith, counts_of-nil bounds)

observe-tally :
    (v : ℕ) (bounds vs : List ℕ)
    → length vs < u64_max
    → observe v bounds (tally bounds vs) ≡ tally bounds (v ∷ vs)
unfolding observe
observe-tally v bounds vs h =
    ground (arith, sized_tally bounds vs, count_in-counts_of v vs bounds h)

observe_first :
    (v : ℕ) (bounds : List ℕ) → observe v bounds default_histogram ≡ tally bounds (v ∷ [])
unfolding observe
observe_first v bounds =
    ground (arith, sized_default bounds, count_in-counts_of v [] bounds (omega arith))

-- A histogram that has observed at least one and fewer than 2^64 values holds, for each bound, how
-- many of them are at most the bound; behind the bounds, and as its count, how many there are; and
-- their sum.
pub observe_all-eq-tally :
    (bounds : List ℕ) (v : ℕ) (vs : List ℕ)
    → length vs < u64_max
    → observe_all bounds (v ∷ vs) ≡ tally bounds (v ∷ vs)
unfolding observe_all
observe_all-eq-tally bounds v [] h = observe_first v bounds
observe_all-eq-tally bounds v (w ∷ vs) h =
    ap (observe v bounds) (observe_all-eq-tally bounds w vs (omega arith))
    ∙ observe-tally v bounds (w ∷ vs) h
