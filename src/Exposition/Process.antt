-- ===== src/Exposition/Process.antt =====
-- src/metrics.rs: the figures of the process, from the texts of /proc. `read_to_string` and the number
-- of open descriptors are arguments. An `i64` that is below zero counts as zero.
pub mod Name
use Prim.Native.Char.{Char, code}
use Prim.Native.String.{String, [], ◌∷◌, ◌++◌}
use mathlib.Core.List
use mathlib.Core.List.{List, ◌++◌ as append}
use mcpstead.Base.{
  ℕ, zero, suc, ◌+◌, ◌-◌, ◌*◌, ◌<◌, Bool, true, false, ◌&&◌, Option, none, some, leb, ltb, ◌==◌,
  if◌then◌else◌, unwrap_or, or_else, get_elem?, u64_max, wrapping_add, saturating_mul,
}
use mcpstead.Base.Text.{is_empty, is_whitespace, push, strip_prefix, starts_with, lines, cons_first}
use mcpstead.Base.Text.Decimal.{decimal}
use mcpstead.Upstream.Classify.{bind_option}
use mcpstead.Exposition.Family.{headings, sample}
use mcpstead.Exposition.Numbers.{six}

-- `s.rsplit_once(p)`: at the last place where `p` stands
unfoldable pub rsplit_once : String → String → Option (String × String)
unfolding strip_prefix
rsplit_once [] p = elim (strip_prefix [] p) [ none ↦ none | some rest ↦ some ([], rest) ]
rsplit_once (c ∷ s) p =
    let here : Option (String × String) = elim (strip_prefix (c ∷ s) p) [
      | none ↦ none
      | some rest ↦ some ([], rest)
    ] in
    or_else (cons_first c (rsplit_once s p)) here

abbrev pub ended : String → List String → List String
ended cur rest = if is_empty cur then rest else List.◌∷◌ cur rest

-- `s.split_whitespace().collect()`, behind the characters of a word that has begun
unfoldable pub words_from : String → String → List String
words_from cur [] = ended cur List.[]
words_from cur (c ∷ s) =
    let after = ended cur (words_from [] s) in
    let longer = words_from (push cur c) s in if is_whitespace c then after else longer

unfoldable pub split_whitespace : String → List String
unfolding words_from
split_whitespace s = words_from [] s

abbrev pub is_digit : Char → Bool
is_digit c = leb 48 (code c) && leb (code c) 57

-- a number in decimal that fits its type, the bound, behind the part that has been read
unfoldable pub digits_within : ℕ → ℕ → String → Option ℕ
digits_within bound n [] = some n
digits_within bound n (c ∷ s) =
    let n' = n * 10 + (code c - 48) in
    let rest = digits_within bound n' s in if is_digit c && leb n' bound then rest else none

unfoldable pub parse_within : ℕ → String → Option ℕ
unfolding digits_within
parse_within bound [] = none
parse_within bound (c ∷ s) = digits_within bound 0 (c ∷ s)

-- `s.parse::<u64>()`, which takes a plus sign
unfoldable pub parse_u64 : String → Option ℕ
unfolding parse_within
parse_u64 s = elim (strip_prefix s "+") [
  | none ↦ parse_within u64_max s
  | some rest ↦ parse_within u64_max rest
]

abbrev pub i64_max : ℕ
i64_max = 9223372036854775807

abbrev pub below_zero : Option ℕ → Option ℕ
below_zero none = none
below_zero (some n) = some 0

-- `s.parse::<i64>().ok()?.max(0)`
unfoldable pub parse_i64_max_zero : String → Option ℕ
unfolding parse_within
parse_i64_max_zero s = elim (strip_prefix s "-") [
  | some rest ↦ below_zero (parse_within (i64_max + 1) rest)
  | none ↦ elim (strip_prefix s "+") [
    | none ↦ parse_within i64_max s
    | some rest ↦ parse_within i64_max rest
  ]
]

-- the seconds, an `f64`, are nanoseconds: a tick is a hundredth of a second
pub record ProcessStats : Type 0 where
  pub resident_memory_bytes : ℕ
  pub virtual_memory_bytes : ℕ
  pub cpu_seconds_total : ℕ
  pub open_fds : ℕ
  pub max_fds : ℕ
  pub threads : ℕ

abbrev pub ticks : ℕ → ℕ
ticks n = n * 10000000

-- `fields.get(i)?.parse().ok()?`
abbrev pub field_u64 : List String → ℕ → Option ℕ
field_u64 fields i = bind_option (get_elem? fields i) parse_u64

-- the line of /proc/self/limits that `read_max_fds` returns from
unfoldable pub max_fds_in : List String → Option ℕ
unfolding split_whitespace parse_u64 starts_with
max_fds_in List.[] = none
max_fds_in (List.◌∷◌ line rest) =
    let later = max_fds_in rest in
    if starts_with line "Max open files"
    then bind_option (get_elem? (split_whitespace line) 3) parse_u64
    else later

module _ (read_to_string : String → Option String) (open_fds : Option ℕ) where
  -- `read_max_fds`
  unfoldable pub read_max_fds : Option ℕ
  unfolding max_fds_in lines
  read_max_fds = bind_option (read_to_string "/proc/self/limits") (λ text. max_fds_in (lines text))

  -- `process_stats` behind the reading of the fields
  unfoldable pub stats_of : List String → Option ProcessStats
  unfolding read_max_fds parse_u64 parse_i64_max_zero
  stats_of fields = bind_option (field_u64 fields 11) (λ utime_ticks.
      bind_option (field_u64 fields 12) (λ stime_ticks.
        bind_option (field_u64 fields 17) (λ threads.
          bind_option (field_u64 fields 20) (λ virtual_memory_bytes.
            bind_option (bind_option (get_elem? fields 21) parse_i64_max_zero) (λ resident_pages.
              some (record {
                resident_memory_bytes = saturating_mul resident_pages 4096;
                virtual_memory_bytes = virtual_memory_bytes;
                cpu_seconds_total = ticks (wrapping_add utime_ticks stime_ticks);
                open_fds = unwrap_or open_fds 0;
                max_fds = unwrap_or read_max_fds 0;
                threads = threads;
              }))))))

  -- `process_stats`, of the text of /proc/self/stat
  unfoldable pub stats_in : String → Option ProcessStats
  unfolding stats_of rsplit_once split_whitespace
  stats_in stat = bind_option (rsplit_once stat ") ") (λ parts. stats_of (split_whitespace parts.1))

  -- `process_stats`
  unfoldable pub process_stats : Option ProcessStats
  unfolding stats_in
  process_stats = bind_option (read_to_string "/proc/self/stat") stats_in

abbrev pub figure : String → String → String → String → List String
figure name help kind value =
    append (headings name help kind) (List.◌∷◌ (sample name List.[] none value) List.[])

-- `append_process_metrics`
unfoldable pub process_lines : Option ProcessStats → List String
unfolding headings decimal six
process_lines none = List.[]
process_lines (some stats) =
    append
      (figure "mcpstead_process_resident_memory_bytes" "Resident memory size in bytes." "gauge"
        (decimal stats.resident_memory_bytes))
      (append
        (figure "mcpstead_process_virtual_memory_bytes" "Virtual memory size in bytes." "gauge"
          (decimal stats.virtual_memory_bytes))
        (append
          (figure "mcpstead_process_cpu_seconds_total" "Process CPU seconds." "counter"
            (six stats.cpu_seconds_total))
          (append
            (figure "mcpstead_process_open_fds" "Open file descriptors." "gauge"
              (decimal stats.open_fds))
            (append
              (figure "mcpstead_process_max_fds" "Maximum file descriptors." "gauge"
                (decimal stats.max_fds))
              (figure "mcpstead_process_threads" "Process thread count." "gauge"
                (decimal stats.threads))))))
