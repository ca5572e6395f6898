-- ===== src/Exposition/Family.antt =====
-- src/metrics.rs: the lines of one metric on the metrics page. A text that the source pushes, which
-- ends in a line feed, is a line without it.
pub mod Observed
pub mod Lines
pub mod Blocks
use Prim.Native.String.{◌++◌}
use mcpstead.Base.{
  ℕ, suc, String, Option, none, some, List, [], ◌∷◌, ◌++◌ as append, unwrap_or, get_elem?, length,
}
use mcpstead.Base.Text.Decimal.{decimal}
use mcpstead.Exposition.Labels.{format_labels}
use mcpstead.Exposition.Numbers.{six, format_bucket}
use mcpstead.State.Histogram.{HistogramMetric}

-- `# HELP` and `# TYPE`
unfoldable pub headings : String → String → String → List String
headings name help kind =
    ("# HELP " ++ name ++ " " ++ help) ∷ ("# TYPE " ++ name ++ " " ++ kind) ∷ []

-- a sample with its labels, in braces if there are any
abbrev pub sample : String → List (String × String) → Option (String × String) → String → String
sample name labels extra value = name ++ format_labels labels extra ++ " " ++ value

-- a loop over a map with a text or a pair of texts for the key
module _ {V : Type 0} (name : String) where
  unfoldable pub by_one : String → (V → String) → List (String × V) → List String
  unfolding format_labels
  by_one label show [] = []
  by_one label show ((k, v) ∷ m) = sample name ((label, k) ∷ []) none (show v) ∷ by_one label show m

  unfoldable pub by_two :
      String → String → (V → String) → List ((String × String) × V) → List String
  unfolding format_labels
  by_two first second show [] = []
  by_two first second show (((k, l), v) ∷ m) =
      sample name ((first, k) ∷ (second, l) ∷ []) none (show v) ∷ by_two first second show m

-- the loop of `write_histogram` over the bounds, from an index on
unfoldable pub bucket_lines : String → List (String × String) → List ℕ → ℕ → List ℕ → List String
unfolding format_labels format_bucket decimal
bucket_lines name labels counts index [] = []
bucket_lines name labels counts index (bound ∷ bounds) =
    let count = unwrap_or (get_elem? counts index) 0 in
    sample (name ++ "_bucket") labels (some ("le", format_bucket bound)) (decimal count)
    ∷ bucket_lines name labels counts (suc index) bounds

-- `write_histogram`
unfoldable pub write_histogram :
    String → String → List (String × String) → HistogramMetric → List ℕ → List String
unfolding headings bucket_lines six
write_histogram name help labels metric bounds = append (headings name help "histogram") (
    append (bucket_lines name labels metric.buckets 0 bounds) (
      sample (name ++ "_bucket") labels (some ("le", "+Inf"))
        (decimal (unwrap_or (get_elem? metric.buckets (length bounds)) 0))
      ∷ sample (name ++ "_sum") labels none (six metric.sum)
      ∷ sample (name ++ "_count") labels none (decimal metric.count)
      ∷ []))
