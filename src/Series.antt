-- ===== src/Series.antt =====
-- src/time_series.c: the ring buffer of memory samples behind the dashboard's charts.
-- The mutex makes each function one step.
pub mod Window
use memory_trace_tool.Base.{
  ℕ, zero, suc, ◌+◌, ◌*◌, ◌%◌, ◌^◌, Bool, true, false, not, ◌||◌, Option, none, some, List, [], ◌∷◌,
  if◌then◌else◌, ◌==◌, leb, ltb, get_or, set, replicate, word,
}
use memory_trace_tool.State.{State}

-- MTT_TS_MAX_POINTS
abbrev pub max_points : ℕ
max_points = 3600

-- `mtt_ts_point_t`
pub record Point : Type 0 where
  pub timestamp : ℕ
  pub current_bytes : ℕ
  pub peak_bytes : ℕ
  pub alloc_count : ℕ
  pub free_count : ℕ
  pub entry_count : ℕ
  pub rss_bytes : ℕ
  pub leak_bytes : ℕ
  pub total_alloc_bytes : ℕ

-- a point after `memset`
abbrev pub zero_point : Point
zero_point = record {
  timestamp = 0;
  current_bytes = 0;
  peak_bytes = 0;
  alloc_count = 0;
  free_count = 0;
  entry_count = 0;
  rss_bytes = 0;
  leak_bytes = 0;
  total_alloc_bytes = 0;
}

-- `mtt_time_series_t` and `g_ts_initialized`
pub record Series : Type 0 where
  pub ready : Bool
  pub points : List Point
  pub head : ℕ
  pub count : ℕ

-- `mtt_ts_init`
unfoldable pub ts_init : Series → Series
ts_init t =
    if t.ready
    then t
    else record { ready = true; points = replicate max_points zero_point; head = 0; count = 0 }

-- What a sample is taken from besides the state: the clock, the pages that /proc/self/statm tells
-- of (nothing if it cannot be read), and the size of a page.
pub record Meter : Type 0 where
  pub now : ℕ
  pub rss_pages : Option ℕ
  pub page_size : ℕ

-- The sample. `rss_bytes` stays 0 where no positive number of pages was read.
unfoldable pub take_point : Meter → State → Point
take_point m s = record {
  timestamp = m.now;
  current_bytes = s.counters.current_bytes;
  peak_bytes = s.counters.peak_bytes;
  alloc_count = s.counters.alloc_count;
  free_count = s.counters.free_count;
  entry_count = s.counters.entry_count;
  rss_bytes = elim m.rss_pages [ none ↦ 0 | some pages ↦ pages * m.page_size % word ];
  leak_bytes = s.counters.leak_bytes_total;
  total_alloc_bytes = s.counters.total_bytes;
}

-- the write at `head`, and both counters, each a 32-bit word
pub write_point : Series → Point → Series
write_point t pt =
    let head = (t.head + 1) % 2 ^ 32 in
    record t {
      points = set t.points t.head pt;
      head = if leb max_points head then 0 else head;
      count = (t.count + 1) % 2 ^ 32;
    }

-- `mtt_ts_record_point`
unfoldable pub ts_record_point : Meter → State → Series → Series
unfolding write_point take_point
ts_record_point m s t = if not t.ready then t else write_point t (take_point m s)

-- The copying loop, `left` points of room left.
pub copy_points : Series → ℕ → ℕ → ℕ → ℕ → List Point
copy_points t valid oldest i zero = []
copy_points t valid oldest i (suc left) =
    let rest = copy_points t valid oldest (i + 1) left in
    let idx = if leb t.count max_points then i else (oldest + i) % max_points in
    if ltb i valid then get_or t.points idx zero_point ∷ rest else []

-- `mtt_ts_get_range`; `given` says that neither output pointer is NULL, and nothing is -1.
unfoldable pub ts_get_range : Bool → ℕ → ℕ → Series → Option (List Point)
unfolding copy_points
ts_get_range given start_idx max_out t =
    if not given || max_out == 0
    then none
    else if t.count == 0
    then some []
    else (let within = leb t.count max_points in
        let valid = if within then t.count else max_points in
        let oldest = if within then 0 else t.head in
        some (copy_points t valid oldest start_idx max_out))
