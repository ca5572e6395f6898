-- ===== src/State/Histogram/Cumulative.antt =====
-- src/state.rs: the counts of a histogram are cumulative, also where they saturate.
use native.Mathlib.Numerals.{towards_suc}
use mcpstead.Base.{
  ◌∙◌, length-replicate, ℕ, suc, ◌+◌, ◌≤◌, ◌≡◌, refl, List, [], ◌∷◌, length, replicate, zero,
  saturating_add, u64_max, arith,
}
use mcpstead.State.Histogram.{
  HistogramMetric, default_histogram, count_in, sized, observe, duration_buckets,
  session_duration_buckets,
}

abbrev pub Ascending : List ℕ → Type 0
Ascending [] = Unit
Ascending (a ∷ []) = Unit
Ascending (a ∷ b ∷ r) = (a ≤ b) × Ascending (b ∷ r)

-- the numbers ascend, and the last is `top`
abbrev pub AscendsTo : ℕ → List ℕ → Type 0
AscendsTo top [] = ⊥
AscendsTo top (c ∷ []) = c ≡ top
AscendsTo top (c ∷ d ∷ r) = (c ≤ d) × AscendsTo top (d ∷ r)

pub record IsCumulative (bounds : List ℕ) (h : HistogramMetric) : Type 0 where
  pub sized : length h.buckets ≡ length bounds + 1
  pub ascends : AscendsTo h.count h.buckets
  pub fits : h.count ≤ u64_max

AscendsTo-le : (top c : ℕ) (cs : List ℕ) → AscendsTo top (c ∷ cs) → c ≤ top
AscendsTo-le top c [] h = omega arith
AscendsTo-le top c (d ∷ cs) h = omega (arith, AscendsTo-le top d cs h.1)

count_in-AscendsTo :
    (value top : ℕ) (bounds counts : List ℕ)
    → Ascending bounds
    → length counts ≡ length bounds + 1
    → top ≤ u64_max
    → AscendsTo top counts
    → AscendsTo (saturating_add top 1) (count_in value bounds counts)
unfolding count_in
count_in-AscendsTo value top bounds [] asc len fits h = elim h [ ]
count_in-AscendsTo value top [] (c ∷ []) asc len fits h = ground arith
count_in-AscendsTo value top [] (c ∷ d ∷ cs) asc len fits h = absurd (omega arith)
count_in-AscendsTo value top (b ∷ bounds) (c ∷ []) asc len fits h = absurd (omega arith)
count_in-AscendsTo value top (b ∷ []) (c ∷ d ∷ cs) asc len fits h = ground (
  arith,
  AscendsTo-le top d cs h.1,
  count_in-AscendsTo value top [] (d ∷ cs) tt (omega arith) fits h.1,
)
count_in-AscendsTo value top (b ∷ b' ∷ bounds) (c ∷ d ∷ cs) asc len fits h = ground (
  arith,
  AscendsTo-le top d cs h.1,
  count_in-AscendsTo value top (b' ∷ bounds) (d ∷ cs) asc.1 (omega arith) fits h.1,
)

length-count_in :
    (value : ℕ) (bounds counts : List ℕ) → length (count_in value bounds counts) ≡ length counts
unfolding count_in
length-count_in value bounds [] = refl
length-count_in value [] (c ∷ counts) = refl
length-count_in value (b ∷ bounds) (c ∷ counts) =
    ground (arith, length-count_in value bounds counts)

AscendsTo-replicate : (n : ℕ) → AscendsTo 0 (replicate (suc n) 0)
AscendsTo-replicate zero = refl
AscendsTo-replicate (suc n) = (omega arith, AscendsTo-replicate n)

sized_same :
    (bounds counts : List ℕ) → length counts ≡ length bounds + 1 → sized bounds counts ≡ counts
unfolding sized
sized_same bounds counts h = ground arith

sized_fresh : (bounds : List ℕ) → sized bounds [] ≡ replicate (suc (length bounds)) 0
unfolding sized
sized_fresh bounds = simp towards_suc (ground arith)

-- An observation keeps a cumulative histogram cumulative, whatever the value and also where the
-- counters saturate: each count is at most the next, and the last is the number of observations.
pub observe-IsCumulative :
    (value : ℕ) (bounds : List ℕ) (h : HistogramMetric)
    → Ascending bounds
    → IsCumulative bounds h
    → IsCumulative bounds (observe value bounds h)
unfolding observe
observe-IsCumulative value bounds h asc c = rw (sized_same bounds h.buckets c.sized) (record {
  sized = length-count_in value bounds h.buckets ∙ c.sized;
  ascends = count_in-AscendsTo value h.count bounds h.buckets asc c.sized c.fits c.ascends;
  fits = omega arith;
})

length-zeros : (n : ℕ) → length {A = ℕ} (replicate (suc n) 0) ≡ n + 1
length-zeros n = omega (arith, length-replicate {0} {A = ℕ} n 0)

-- So is a default histogram after its first observation.
pub observe-IsCumulative_first :
    (value : ℕ) (bounds : List ℕ)
    → Ascending bounds
    → IsCumulative bounds (observe value bounds default_histogram)
unfolding observe
observe-IsCumulative_first value bounds asc =
    let zeros = length-zeros (length bounds) in
    rw (sized_fresh bounds) (record {
      sized = length-count_in value bounds (replicate (suc (length bounds)) 0) ∙ zeros;
      ascends =
          count_in-AscendsTo value 0 bounds (replicate (suc (length bounds)) 0) asc zeros
            (omega arith) (AscendsTo-replicate (length bounds));
      fits = omega arith;
    })

-- the bounds that the gateway uses ascend
pub duration_buckets-Ascending : Ascending duration_buckets
duration_buckets-Ascending = omega arith

pub session_duration_buckets-Ascending : Ascending session_duration_buckets
session_duration_buckets-Ascending = omega arith
