-- ===== src/Tests/Threading.antt =====
-- Tests and examples of the slots, the recursion guard, the sampler and the time series.
use memory_trace_tool.Base.{
  ℕ, ◌+◌, ◌*◌, ◌<◌, ◌≤◌, ◌≡◌, refl, true, false, some, List, [], ◌∷◌, take, drop, arith,
}
use memory_trace_tool.State.{Sampler}
use memory_trace_tool.Threads.{
  Thread, fresh_thread, thread_get, hook_enter, hook_begin, hook_end, hook_inc_depth,
  hook_dec_depth, is_recursive, hook_depth_max, depth_sentinel,
}
use memory_trace_tool.Threads.Slots.{OneEach, Claims, thread_get-Claims, slots_of}
use memory_trace_tool.Threads.Depth.{
  DepthCall, depth_call, depth_calls, hook_enter-idle, hook_begin-hook_end,
}
use memory_trace_tool.Sampling.{run_sampler, should_track}
use memory_trace_tool.Sampling.Budget.{run_sampler-exact, Small}
use memory_trace_tool.Series.{Series, Meter, ts_init, ts_get_range, max_points}
use memory_trace_tool.Series.Window.{record_all, sampled, last_of, ts_get_range-reads}
use memory_trace_tool.State.{State}
use memory_trace_tool.Tests.{vacant, one_record}

abbrev two_slots : List Thread
two_slots = fresh_thread 5 ∷ fresh_thread 0 ∷ []

two_slots_apart : OneEach two_slots
unfolding slots_of
two_slots_apart q h = ground arith

second_slot : (thread_get (λ _. false) two_slots 7).0 ≡ some 1
unfolding thread_get
second_slot = refl

thread_get-Claims_example :
    Claims (λ _. false) two_slots 7 1 (thread_get (λ _. false) two_slots 7).1
thread_get-Claims_example = thread_get-Claims (λ _. false) two_slots 7 two_slots_apart 1 second_slot

abbrev entered : List DepthCall
entered = DepthCall.enter ∷ DepthCall.inc ∷ DepthCall.dec ∷ []

set_up : (depth_calls (fresh_thread 5) entered).depth_inited ≡ depth_sentinel
unfolding depth_calls depth_call hook_enter hook_inc_depth hook_dec_depth
set_up = refl

hook_enter-idle_example :
    ((depth_calls (fresh_thread 5) entered).hook_depth ≤ hook_depth_max)
    × (hook_enter (depth_calls (fresh_thread 5) entered) ≡ depth_calls (fresh_thread 5) entered)
hook_enter-idle_example = hook_enter-idle 5 entered set_up

first_call : is_recursive (hook_enter (fresh_thread 5)) ≡ false
unfolding is_recursive hook_enter
first_call = refl

hook_begin-hook_end_example :
    (is_recursive (hook_enter (hook_begin (hook_enter (fresh_thread 5)))) ≡ true)
    × (is_recursive (hook_enter (hook_end 0 (hook_begin (hook_enter (fresh_thread 5))))) ≡ false)
    × ((hook_end 0 (hook_begin (hook_enter (fresh_thread 5)))).in_hook ≡ 0)
    × ((hook_end 0 (hook_begin (hook_enter (fresh_thread 5)))).tid ≡ 5)
    × ((hook_end 0 (hook_begin (hook_enter (fresh_thread 5)))).tool_internal ≡ 0)
hook_begin-hook_end_example =
    hook_begin-hook_end (fresh_thread 5) (λ e. absurd (omega (arith, e))) first_call

-- one record for 2048 bytes
abbrev sampler : Sampler
sampler = record {
  sample_period = 0;
  sample_counter = 0;
  sample_rate = 11;
  sample_bytes_accum = 0;
  skipped_sampled = 0;
}

abbrev sizes : List ℕ
sizes = 1000 ∷ 500 ∷ 900 ∷ []

one_tracked : (run_sampler sampler sizes).0 ≡ 1
unfolding run_sampler should_track
one_tracked = refl

sizes-Small : Small sizes
sizes-Small = (omega arith, (omega arith, (omega arith, tt)))

run_sampler-exact_example :
    ((run_sampler sampler sizes).0 * 2048 ≤ 2400)
    × (2400 < ((run_sampler sampler sizes).0 + 1) * 2048)
run_sampler-exact_example =
    run_sampler-exact sampler sizes (omega arith) sizes-Small (omega arith) (omega arith)
      (omega arith)

abbrev unready : Series
unready = record { ready = false; points = []; head = 0; count = 0 }

abbrev meter : Meter
meter = record { now = 60; rss_pages = some 3; page_size = 4096 }

abbrev samples : List (Meter × State)
samples = (meter, vacant) ∷ (meter, one_record) ∷ []

ts_get_range-reads_example :
    ts_get_range true 0 1 (record_all samples (ts_init unready))
    ≡ some (take 1 (drop 0 (last_of max_points (sampled samples))))
ts_get_range-reads_example = ts_get_range-reads samples unready 0 1 refl (omega arith) (omega arith)
