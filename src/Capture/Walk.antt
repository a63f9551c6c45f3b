-- ===== src/Capture/Walk.antt =====
-- The walk along the frame pointers, and what a capture leaves.
use memory_trace_tool.Base.{
  ℕ, zero, suc, ◌+◌, ◌≤◌, ◌<◌, ◌≡◌, ◌≢◌, ◌⊎◌, ap, sym, subst, refl, Bool, true, false, not, ◌&&◌,
  Option, none, some, List, [], ◌∷◌, ◌==◌, leb, length, if_elim, inl, inr, arith,
}
use memory_trace_tool.State.{null, stack_depth}
use memory_trace_tool.Threads.{Thread}
use memory_trace_tool.Ranges.{ExecRange, fix_thumb_addr, addr_is_executable}
use memory_trace_tool.Ranges.Search.{IsSorted, Covers, addr_is_executable_iff}
use memory_trace_tool.Capture.{
  Unwinders, Machine, max_span, prev_fp, return_addr, ends_at, walk, or_walk, fall_back,
  by_libunwind, capture_frames, capture_stack,
}

-- The frame at `fp` has a caller: its return address is code, and the caller's frame lies above
-- it, at most 64 KB away.
pub record HasCaller (m : Machine) (fp : ℕ) : Type 0 where
  pub some_frame : fp ≢ null
  pub above : fp < prev_fp m fp
  pub near : prev_fp m fp ≤ fp + max_span
  pub some_code : fix_thumb_addr (return_addr m fp) ≢ null
  pub code : (i : ℕ) × Covers m.ranges (fix_thumb_addr (return_addr m fp)) i

-- The return addresses from one frame up to another.
pub data Chain (m : Machine) : ℕ → List ℕ → ℕ → Type 0 where
  here : {fp : ℕ} → Chain m fp [] fp
  up :
      {fp last : ℕ} {frames : List ℕ}
      → HasCaller m fp
      → Chain m (prev_fp m fp) frames last
      → Chain m fp (fix_thumb_addr (return_addr m fp) ∷ frames) last

cleared_twice : (a : ℕ) → fix_thumb_addr (fix_thumb_addr a) ≡ fix_thumb_addr a
cleared_twice a = omega arith

null_not_code : (ranges : List ExecRange) → addr_is_executable ranges null ≡ false
unfolding addr_is_executable
null_not_code ranges = refl

ends_at_sound : (m : Machine) (fp : ℕ) → IsSorted m.ranges → ends_at m fp ≡ false → HasCaller m fp
unfolding ends_at
ends_at_sound m fp sorted going =
    let target = fix_thumb_addr (return_addr m fp) in
    let is_code : addr_is_executable m.ranges target ≡ true = ground (arith, going) in
    let some_code : target ≢ null =
      λ e. cc (ap (addr_is_executable m.ranges) e, is_code, null_not_code m.ranges) in
    let (i, covered) = (addr_is_executable_iff m.ranges target sorted some_code).0 is_code in
    record {
      some_frame = ground (arith, going);
      above = ground (arith, going);
      near = ground (arith, going);
      some_code = some_code;
      code = (i, subst (λ a. Covers m.ranges a i) (cleared_twice (return_addr m fp)) covered);
    }

ends_at_complete :
    (m : Machine) (fp : ℕ) → IsSorted m.ranges → HasCaller m fp → ends_at m fp ≡ false
unfolding ends_at
ends_at_complete m fp sorted c =
    let target = fix_thumb_addr (return_addr m fp) in
    let (i, covered) = c.code in
    let covered_again =
      subst (λ a. Covers m.ranges a i) (sym (cleared_twice (return_addr m fp))) covered in
    let is_code =
      (addr_is_executable_iff m.ranges target sorted c.some_code).1 (i, covered_again) in
    let some_addr : return_addr m fp ≢ null = λ e. c.some_code (ap fix_thumb_addr e) in
    ground (arith, is_code, some_addr, c.some_frame, c.above, c.near)

-- What a walk leaves: a chain that ends at the bound, or where there is no caller.
pub record Walked (m : Machine) (bound fp : ℕ) (frames : List ℕ) : Type 0 where
  pub last : ℕ
  pub chain : Chain m fp frames last
  pub bounded : length frames ≤ bound
  pub longest : (length frames ≡ bound) ⊎ ¬ HasCaller m last

walk-Walked :
    (left : ℕ) (m : Machine) (fp : ℕ) → IsSorted m.ranges → Walked m left fp (walk left m fp)
unfolding walk
walk-Walked zero m fp sorted = record {
  last = fp;
  chain = here;
  bounded = omega arith;
  longest = inl refl;
}
walk-Walked (suc left) m fp sorted =
    if_elim (Walked m (suc left) fp) (ends_at m fp) [] _
      (λ ends. (record {
        last = fp;
        chain = here;
        bounded = omega arith;
        longest = inr (λ c. cc (ends, ends_at_complete m fp sorted c));
      }))
      (λ going.
        let w = walk-Walked left m (prev_fp m fp) sorted in
        (record {
          last = w.last;
          chain = up (ends_at_sound m fp sorted going) w.chain;
          bounded = omega (arith, w.bounded);
          longest = elim w.longest [ inl full ↦ inl (ap suc full) | inr top ↦ inr top ];
        }))

-- No unwinder has anything to give.
pub record IsBlank (u : Unwinders) : Type 0 where
  pub libunwind : (frames : List ℕ) → u.libunwind ≡ some frames → length frames < 2
  pub backtrace : u.backtrace ≡ []
  pub safe_backtrace : u.safe_backtrace ≡ []

fall_back_blank :
    (u : Unwinders) (m : Machine) (disabled : Bool)
    → IsBlank u
    → fall_back u m disabled ≡ walk stack_depth m m.frame_address
unfolding fall_back or_walk
fall_back_blank u m true blank = rw blank.safe_backtrace refl
fall_back_blank u m false blank = rw blank.backtrace refl

by_libunwind_blank :
    (u : Unwinders) (m : Machine) (given : Option (List ℕ))
    → IsBlank u
    → u.libunwind ≡ given
    → by_libunwind u m given ≡ walk stack_depth m m.frame_address
unfolding by_libunwind
by_libunwind_blank u m none blank given = fall_back_blank u m u.disabled_after blank
by_libunwind_blank u m (some frames) blank given =
    let few : leb 2 (length frames) ≡ false = ground (arith, blank.libunwind frames given) in
    rw few (fall_back_blank u m u.disabled_after blank)

capture_frames_blank :
    (u : Unwinders) (m : Machine)
    → IsBlank u
    → capture_frames u m ≡ walk stack_depth m m.frame_address
unfolding capture_frames
capture_frames_blank u m blank =
    if_elim (λ frames. frames ≡ walk stack_depth m m.frame_address)
      (not (u.mode == 2) && not u.disabled && u.available) (by_libunwind u m u.libunwind)
      (fall_back u m u.disabled) (λ _. by_libunwind_blank u m u.libunwind blank refl)
      (λ _. fall_back_blank u m u.disabled blank)

-- Where the executable ranges are sorted and apart, the thread is in no capture and neither
-- libunwind, with two frames or more, nor backtrace has anything to give: the capture leaves the
-- caller's slot as it was and keeps the return addresses of a chain of frames from the innermost
-- one on, at most 64 of them, each covered by an executable range, each caller's frame above the
-- last and at most 64 KB away, which ends at the bound or at a frame without such a caller.
pub capture_stack-Walked :
    (u : Unwinders) (m : Machine) (t : Thread)
    → IsSorted m.ranges
    → t.in_capture ≡ 0
    → IsBlank u
    → Walked m stack_depth m.frame_address (capture_stack u m (some t)).0
      × ((capture_stack u m (some t)).1 ≡ some t)
unfolding capture_stack
capture_stack-Walked u m t sorted outside blank =
    let walked = walk-Walked stack_depth m m.frame_address sorted in
    let free : not (t.in_capture == 0) ≡ false = ground (arith, outside) in
    rw free (
      subst (Walked m stack_depth m.frame_address) (sym (capture_frames_blank u m blank)) walked,
      refl,
    )
