-- ===== src/Capture.antt =====
-- src/tracker.c: `mtt_capture_stack`. The unwinders are not modelled; what they give is in
-- `Unwinders`. The walk along the frame pointers reads `memory`, the words of the caller's stack.
pub mod Walk
use memory_trace_tool.Base.{
  ℕ, zero, suc, ◌+◌, ◌-◌, ◌^◌, ◌%◌, Bool, true, false, not, ◌&&◌, ◌||◌, Option, none, some, List,
  [], ◌∷◌, map, if◌then◌else◌, ◌==◌, ltb, leb, length, add64,
}
use memory_trace_tool.State.{null, stack_depth}
use memory_trace_tool.Threads.{Thread}
use memory_trace_tool.Ranges.{ExecRange, fix_thumb_addr, addr_is_executable}

-- `g_unwinder_mode`, whether libunwind is there and this thread is kept from it, before its call
-- and after; the frames of libunwind (nothing for -1), of `backtrace`, and of `mtt_safe_backtrace`.
-- A negative count of frames counts as none.
pub record Unwinders : Type 0 where
  pub mode : ℕ
  pub available : Bool
  pub disabled : Bool
  pub disabled_after : Bool
  pub libunwind : Option (List ℕ)
  pub backtrace : List ℕ
  pub safe_backtrace : List ℕ

-- The machine: the words of memory, where the innermost frame lies, and the executable ranges.
pub record Machine : Type 0 where
  pub memory : ℕ → ℕ
  pub frame_address : ℕ
  pub ranges : List ExecRange

-- 64 KB
abbrev pub max_span : ℕ
max_span = 2 ^ 16

-- `fp[0]` and `fp[1]`
abbrev pub prev_fp : Machine → ℕ → ℕ
prev_fp m fp = m.memory fp

abbrev pub return_addr : Machine → ℕ → ℕ
return_addr m fp = m.memory (add64 fp 8)

-- the tests that end the loop
pub ends_at : Machine → ℕ → Bool
ends_at m fp =
    fp == null
    || return_addr m fp == null
    || prev_fp m fp == null
    || not (addr_is_executable m.ranges (fix_thumb_addr (return_addr m fp)))
    || leb (prev_fp m fp) fp
    || ltb max_span (prev_fp m fp - fp)

-- the loop, with room for so many frames
pub walk : ℕ → Machine → ℕ → List ℕ
unfolding ends_at
walk zero m fp = []
walk (suc left) m fp =
    let rest = walk left m (prev_fp m fp) in
    if ends_at m fp then [] else fix_thumb_addr (return_addr m fp) ∷ rest

-- the walk, where `backtrace` gave nothing
pub or_walk : Machine → List ℕ → List ℕ
unfolding walk
or_walk m [] = walk stack_depth m m.frame_address
or_walk m (f ∷ fs) = f ∷ fs

-- the paths after libunwind
pub fall_back : Unwinders → Machine → Bool → List ℕ
unfolding or_walk
fall_back u m disabled =
    or_walk m (map fix_thumb_addr (if disabled then u.safe_backtrace else u.backtrace))

-- libunwind's frames, if there are two or more
pub by_libunwind : Unwinders → Machine → Option (List ℕ) → List ℕ
unfolding fall_back
by_libunwind u m none = fall_back u m u.disabled_after
by_libunwind u m (some frames) =
    if leb 2 (length frames) then frames else fall_back u m u.disabled_after

pub capture_frames : Unwinders → Machine → List ℕ
unfolding by_libunwind
capture_frames u m =
    if not (u.mode == 2) && not u.disabled && u.available
    then by_libunwind u m u.libunwind
    else fall_back u m u.disabled

-- `mtt_capture_stack`: the frames of the record, and the caller's slot
unfoldable pub capture_stack : Unwinders → Machine → Option Thread → List ℕ × Option Thread
unfolding capture_frames
capture_stack u m none = ([], none)
capture_stack u m (some t) =
    let inside = record t { in_capture = 1 } in
    if not (t.in_capture == 0)
    then ([], some t)
    else (capture_frames u m, some (record inside { in_capture = t.in_capture }))
