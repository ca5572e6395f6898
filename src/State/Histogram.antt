-- ===== src/State/Histogram.antt =====
-- src/state.rs: histograms. A number of seconds, an `f64` in the source, is a number of nanoseconds:
-- the durations come from a clock of nanoseconds and the bounds are whole milliseconds. The rounding
-- of the sum of an `f64` is left out.
pub mod Cumulative
pub mod Tally
use mcpstead.Base.{
  ℕ, ◌+◌, ◌*◌, Bool, List, [], ◌∷◌, length, replicate, leb, ◌==◌, if◌then◌else◌, saturating_add,
}

abbrev pub millis : ℕ → ℕ
millis n = n * 1000000

abbrev pub seconds : ℕ → ℕ
seconds n = n * 1000000000

abbrev pub duration_buckets : List ℕ
duration_buckets =
    millis 5
    ∷ millis 10
    ∷ millis 25
    ∷ millis 50
    ∷ millis 100
    ∷ millis 250
    ∷ millis 500
    ∷ seconds 1
    ∷ millis 2500
    ∷ seconds 5
    ∷ seconds 10
    ∷ seconds 30
    ∷ []

abbrev pub session_duration_buckets : List ℕ
session_duration_buckets =
    seconds 1
    ∷ seconds 5
    ∷ seconds 10
    ∷ seconds 30
    ∷ seconds 60
    ∷ seconds 300
    ∷ seconds 900
    ∷ seconds 1800
    ∷ seconds 3600
    ∷ seconds 21600
    ∷ []

pub record HistogramMetric : Type 0 where
  pub buckets : List ℕ
  pub count : ℕ
  pub sum : ℕ

-- `HistogramMetric::default()`
abbrev pub default_histogram : HistogramMetric
default_histogram = record { buckets = []; count = 0; sum = 0 }

-- the loop of `observe` over the bounds, and the write at `inf_index` behind them
unfoldable pub count_in : ℕ → List ℕ → List ℕ → List ℕ
count_in value bounds [] = []
count_in value [] (c ∷ counts) = saturating_add c 1 ∷ counts
count_in value (bound ∷ bounds) (c ∷ counts) =
    (if leb value bound then saturating_add c 1 else c) ∷ count_in value bounds counts

-- `if self.buckets.len() != buckets.len() + 1 { … }`
unfoldable pub sized : List ℕ → List ℕ → List ℕ
sized bounds counts =
    if length counts == length bounds + 1 then counts else replicate (length bounds + 1) 0

-- `HistogramMetric::observe`
unfoldable pub observe : ℕ → List ℕ → HistogramMetric → HistogramMetric
unfolding count_in sized
observe value bounds m = record {
  buckets = count_in value bounds (sized bounds m.buckets);
  count = saturating_add m.count 1;
  sum = m.sum + value;
}
