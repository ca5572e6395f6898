-- ===== src/Exposition/Family/Lines.antt =====
-- src/metrics.rs: the texts that one metric writes are lines each, whatever the values.
use Prim.Native.String.{◌++◌}
use mcpstead.Base.{
  ℕ, zero, suc, ◌/◌, ◌%◌, String, Option, none, some, List, [], ◌∷◌, ◌++◌ as append, refl, All,
  length, unwrap_or, get_elem?,
}
use mcpstead.Base.Text.Decimal.{decimal}
use mcpstead.Base.Text.Lines.{no_newline, IsLine, IsLine-append, IsLine-digit, IsLine-decimal}
use mcpstead.State.Histogram.{HistogramMetric}
use mcpstead.Exposition.Labels.{format_labels}
use mcpstead.Exposition.Labels.Lines.{HasKey, HasKey?, IsLine-format_labels}
use mcpstead.Exposition.Numbers.{padded, micros, six, format_bucket}
use mcpstead.Exposition.Family.{headings, sample, by_one, by_two, bucket_lines, write_histogram}

abbrev pub AreLines : List String → Type 0
AreLines = All IsLine

pub AreLines-append : (a b : List String) → AreLines a → AreLines b → AreLines (append a b)
AreLines-append [] b h k = k
AreLines-append (l ∷ a) b h k = (h.0, AreLines-append a b h.1 k)

IsLine-padded : (k n : ℕ) (s : String) → IsLine s → IsLine (padded k n s)
unfolding padded
IsLine-padded zero n s h = h
IsLine-padded (suc k) n s h = IsLine-padded k (n / 10) _ (IsLine-digit (n % 10) s h)

pub IsLine-six : (n : ℕ) → IsLine (six n)
unfolding six no_newline
IsLine-six n =
    IsLine-append (decimal (micros n / 1000000)) ("." ++ padded 6 (micros n % 1000000) "")
      (IsLine-decimal (micros n / 1000000))
      (IsLine-append "." (padded 6 (micros n % 1000000) "") refl
        (IsLine-padded 6 (micros n % 1000000) "" refl))

pub IsLine-sample :
    (name : String) (labels : List (String × String)) (extra : Option (String × String))
    (value : String)
    → IsLine name
    → All HasKey labels
    → HasKey? extra
    → IsLine value
    → IsLine (sample name labels extra value)
unfolding no_newline
IsLine-sample name labels extra value n h k v =
    IsLine-append name (format_labels labels extra ++ " " ++ value) n (
      IsLine-append (format_labels labels extra) (" " ++ value)
        (IsLine-format_labels labels extra h k) (IsLine-append " " value refl v))

module _ {V : Type 0} (name : String) (n : IsLine name) (show : V → String)
    (shows : (v : V) → IsLine (show v)) where
  pub AreLines-by_one :
      (label : String) (m : List (String × V)) → IsLine label → AreLines (by_one name label show m)
  unfolding by_one
  AreLines-by_one label [] h = tt
  AreLines-by_one label ((k, v) ∷ m) h = (
    IsLine-sample name ((label, k) ∷ []) none (show v) n (h, tt) tt (shows v),
    AreLines-by_one label m h,
  )

  pub AreLines-by_two :
      (first second : String) (m : List ((String × String) × V))
      → IsLine first
      → IsLine second
      → AreLines (by_two name first second show m)
  unfolding by_two
  AreLines-by_two first second [] h k = tt
  AreLines-by_two first second (((a, b), v) ∷ m) h k = (
    IsLine-sample name ((first, a) ∷ (second, b) ∷ []) none (show v) n (h, (k, tt)) tt (shows v),
    AreLines-by_two first second m h k,
  )

pub AreLines-bucket_lines :
    (name : String) (labels : List (String × String)) (counts : List ℕ) (index : ℕ)
    (bounds : List ℕ)
    → IsLine name
    → All HasKey labels
    → AreLines (bucket_lines name labels counts index bounds)
unfolding bucket_lines no_newline
AreLines-bucket_lines name labels counts index [] n h = tt
AreLines-bucket_lines name labels counts index (bound ∷ bounds) n h = (
  IsLine-sample (name ++ "_bucket") labels (some ("le", format_bucket bound))
      (decimal (unwrap_or (get_elem? counts index) 0)) (IsLine-append name "_bucket" n refl) h refl
      (IsLine-decimal (unwrap_or (get_elem? counts index) 0)),
  AreLines-bucket_lines name labels counts (suc index) bounds n h,
)

pub AreLines-headings :
    (name help kind : String)
    → IsLine name
    → IsLine help
    → IsLine kind
    → AreLines (headings name help kind)
unfolding headings no_newline
AreLines-headings name help kind n h k = (
  IsLine-append "# HELP " (name ++ " " ++ help) refl
      (IsLine-append name (" " ++ help) n (IsLine-append " " help refl h)),
  (
    IsLine-append "# TYPE " (name ++ " " ++ kind) refl
        (IsLine-append name (" " ++ kind) n (IsLine-append " " kind refl k)),
    tt,
  ),
)

-- the lines of a histogram, under names and a help text that are lines
pub AreLines-write_histogram :
    (name help : String) (labels : List (String × String)) (metric : HistogramMetric)
    (bounds : List ℕ)
    → IsLine name
    → IsLine help
    → All HasKey labels
    → AreLines (write_histogram name help labels metric bounds)
unfolding headings write_histogram no_newline
AreLines-write_histogram name help labels metric bounds n p h =
    let heads = AreLines-headings name help "histogram" n p refl in
    let last = unwrap_or (get_elem? metric.buckets (length bounds)) 0 in
    (
      heads.0,
      (
        heads.1.0,
        AreLines-append (bucket_lines name labels metric.buckets 0 bounds)
            (sample (name ++ "_bucket") labels (some ("le", "+Inf")) (decimal last)
              ∷ sample (name ++ "_sum") labels none (six metric.sum)
              ∷ sample (name ++ "_count") labels none (decimal metric.count)
              ∷ [])
            (AreLines-bucket_lines name labels metric.buckets 0 bounds n h)
            (
              IsLine-sample (name ++ "_bucket") labels (some ("le", "+Inf")) (decimal last)
                  (IsLine-append name "_bucket" n refl) h refl (IsLine-decimal last),
              (
                IsLine-sample (name ++ "_sum") labels none (six metric.sum)
                    (IsLine-append name "_sum" n refl) h tt (IsLine-six metric.sum),
                (
                  IsLine-sample (name ++ "_count") labels none (decimal metric.count)
                      (IsLine-append name "_count" n refl) h tt (IsLine-decimal metric.count),
                  tt,
                ),
              ),
            ),
      ),
    )
