-- ===== src/Exposition/Family/Blocks.antt =====
-- src/metrics.rs: the parts of the metrics page as texts that are lines each, to be put together.
use mcpstead.Base.{ℕ, String, none, List, [], ◌∷◌, ◌++◌ as append, All}
use mcpstead.Base.Text.Lines.{IsLine, IsLine-decimal}
use mcpstead.State.Histogram.{HistogramMetric}
use mcpstead.Exposition.Labels.Lines.{HasKey}
use mcpstead.Exposition.Family.{headings, sample, by_one, by_two, write_histogram}
use mcpstead.Exposition.Family.Lines.{
  AreLines, AreLines-append, AreLines-headings, IsLine-sample, AreLines-by_one, AreLines-by_two,
  AreLines-write_histogram, IsLine-six,
}

pub record IsBlock (texts : List String) : Type 0 where
  pub lines : AreLines texts

pub IsBlock-append : (a b : List String) → IsBlock a → IsBlock b → IsBlock (append a b)
IsBlock-append a b p q = record { lines = AreLines-append a b p.lines q.lines }

pub IsBlock-nil : IsBlock []
IsBlock-nil = record { lines = tt }

pub IsBlock-headings :
    (name help kind : String)
    → IsLine name
    → IsLine help
    → IsLine kind
    → IsBlock (headings name help kind)
IsBlock-headings name help kind n h k = record { lines = AreLines-headings name help kind n h k }

pub IsBlock-sample :
    (name : String) (labels : List (String × String)) (value : String)
    → IsLine name
    → All HasKey labels
    → IsLine value
    → IsBlock (sample name labels none value ∷ [])
IsBlock-sample name labels value n h v = record {
  lines = (IsLine-sample name labels none value n h tt v, tt);
}

module _ {V : Type 0} (name : String) (show : V → String) where
  pub IsBlock-by_one :
      (label : String) (m : List (String × V))
      → IsLine name
      → IsLine label
      → ((v : V) → IsLine (show v))
      → IsBlock (by_one name label show m)
  IsBlock-by_one label m n h shows = record { lines = AreLines-by_one name n show shows label m h }

  pub IsBlock-by_two :
      (first second : String) (m : List ((String × String) × V))
      → IsLine name
      → IsLine first
      → IsLine second
      → ((v : V) → IsLine (show v))
      → IsBlock (by_two name first second show m)
  IsBlock-by_two first second m n h k shows = record {
    lines = AreLines-by_two name n show shows first second m h k;
  }

pub IsBlock-histogram :
    (name help : String) (labels : List (String × String)) (metric : HistogramMetric)
    (bounds : List ℕ)
    → IsLine name
    → IsLine help
    → All HasKey labels
    → IsBlock (write_histogram name help labels metric bounds)
IsBlock-histogram name help labels metric bounds n h k = record {
  lines = AreLines-write_histogram name help labels metric bounds n h k;
}

-- the parts that a section is put together from
pub ruleset blocks = (
  IsBlock-append, IsBlock-nil, IsBlock-headings, IsBlock-sample, IsBlock-by_one, IsBlock-by_two,
  IsBlock-histogram, IsLine-decimal, IsLine-six,
)
