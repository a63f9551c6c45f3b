-- ===== src/Series/Window.antt =====
-- The ring buffer holds the last points recorded, and is read from the oldest of them.
use memory_trace_tool.Base.{
  ℕ, zero, suc, ◌+◌, ◌-◌, ◌%◌, ◌^◌, ◌≤◌, ◌<◌, ◌≡◌, ◌≢◌, ◌∙◌, refl, ap, true, false, not, some, List,
  [], ◌∷◌, ◌++◌, if◌then◌else◌, ◌==◌, leb, length, get_or, take, drop, arith, length-append,
  length-set, length-replicate, get_or-append, get_or-set, take-drop, drop-drop, append-nil,
  take-drop-nil, if_elim,
}
use memory_trace_tool.State.{State}
use memory_trace_tool.Series.{
  Point, zero_point, Series, Meter, max_points, ts_init, take_point, write_point, ts_record_point,
  copy_points, ts_get_range,
}

-- The last `n` elements of a list.
abbrev pub last_of {ℓ} : {A : Type ℓ} → ℕ → List A → List A
last_of n xs = drop (length xs - n) xs

-- The points `pts`, oldest first, have been recorded since the buffer was made.
pub record IsWindow (pts : List Point) (t : Series) : Type 0 where
  pub ready : t.ready ≡ true
  pub size : length t.points ≡ max_points
  pub head : t.head ≡ length pts % max_points
  pub count : t.count ≡ length pts
  pub holds :
      (k : ℕ)
      → k < length pts
      → length pts ≤ k + max_points
      → get_or t.points (k % max_points) zero_point ≡ get_or pts k zero_point

pub ts_init-IsWindow : (t : Series) → t.ready ≡ false → IsWindow [] (ts_init t)
unfolding ts_init
ts_init-IsWindow t fresh = rw fresh (record {
  ready = refl;
  size = length-replicate max_points zero_point;
  head = refl;
  count = refl;
  holds = λ k h _. absurd (omega (arith, h));
})

pub write_point-IsWindow :
    (pts : List Point) (pt : Point) (t : Series)
    → IsWindow pts t
    → length pts + 1 < 2 ^ 32
    → IsWindow (pts ++ (pt ∷ [])) (write_point t pt)
unfolding write_point
write_point-IsWindow pts pt t w fits = record {
  ready = w.ready;
  size = length-set t.points t.head pt ∙ w.size;
  head = ground (arith, length-append pts (pt ∷ []), w.head);
  count = ground (arith, length-append pts (pt ∷ []), w.count);
  holds = λ k lt le. ground (
    arith,
    length-append pts (pt ∷ []),
    w.head,
    w.size,
    w.holds k,
    get_or-append pts (pt ∷ []) k zero_point,
    get_or-set t.points t.head (k % max_points) pt zero_point,
  );
}

copy_points_lem :
    (pts : List Point) (t : Series) (valid oldest i left : ℕ)
    → IsWindow pts t
    → valid + (length pts - max_points) ≡ length pts
    → (max_points < length pts → oldest ≡ t.head)
    → copy_points t valid oldest i left ≡ take left (drop (length pts - max_points + i) pts)
unfolding copy_points
copy_points_lem pts t valid oldest i zero w v o = refl
copy_points_lem pts t valid oldest i (suc left) w v o = ground (
  arith,
  copy_points_lem pts t valid oldest (i + 1) left w v o,
  take-drop left (length pts - max_points + i) pts zero_point,
  w.holds (length pts - max_points + i),
  w.head,
  w.count,
)

-- One call of `mtt_ts_record_point` for each sample, in order.
abbrev pub record_all : List (Meter × State) → Series → Series
record_all [] t = t
record_all ((m, s) ∷ samples) t = record_all samples (ts_record_point m s t)

-- What the samples hold.
abbrev pub sampled : List (Meter × State) → List Point
sampled [] = []
sampled ((m, s) ∷ samples) = take_point m s ∷ sampled samples

append_one : (pts qs : List Point) (p : Point) → (pts ++ (p ∷ [])) ++ qs ≡ pts ++ (p ∷ qs)
append_one [] qs p = refl
append_one (x ∷ pts) qs p = ap (λ r. x ∷ r) (append_one pts qs p)

record_all-IsWindow :
    (samples : List (Meter × State)) (pts : List Point) (t : Series)
    → IsWindow pts t
    → length pts + length samples < 2 ^ 32
    → IsWindow (pts ++ sampled samples) (record_all samples t)
unfolding ts_record_point
record_all-IsWindow [] pts t w fits = rw (append-nil pts) w
record_all-IsWindow ((m, s) ∷ samples) pts t w fits =
    let p = take_point m s in
    let w' : IsWindow (pts ++ (p ∷ [])) (ts_record_point m s t) =
      if_elim (IsWindow (pts ++ (p ∷ []))) (not t.ready) t (write_point t p)
        (λ h. absurd (ground (arith, w.ready)))
        (λ _. write_point-IsWindow pts p t w (omega arith)) in
    rw (append_one pts (sampled samples) p) at (
      record_all-IsWindow samples (pts ++ (p ∷ [])) (ts_record_point m s t) w'
        (omega (arith, length-append pts (p ∷ []))))

ts_get_range-IsWindow :
    (pts : List Point) (t : Series) (start room : ℕ)
    → IsWindow pts t
    → room ≢ 0
    → ts_get_range true start room t ≡ some (take room (drop start (last_of max_points pts)))
unfolding ts_get_range
ts_get_range-IsWindow [] t start room w some_room =
    ground (arith, w.count, take-drop-nil {A = Point} room start)
ts_get_range-IsWindow (p ∷ pts) t start room w some_room =
    let all = p ∷ pts in
    let within = leb t.count max_points in
    let valid = if within then t.count else max_points in
    let oldest = if within then 0 else t.head in
    let positive : (t.count == 0) ≡ false = ground (arith, w.count) in
    let room_left : (room == 0) ≡ false = ground arith in
    rw (room_left, positive, drop-drop (length all - max_points) start all)
      (ap some (
        copy_points_lem all t valid oldest start room w (ground (arith, w.count))
          (ground (arith, w.count))))

length-sampled : (samples : List (Meter × State)) → length (sampled samples) ≡ length samples
length-sampled [] = refl
length-sampled ((m, s) ∷ samples) = ap suc (length-sampled samples)

-- After fewer than 2 ^ 32 samples have been recorded since the buffer was made, reading with room
-- for at least one point gives, from the given one of the last 3600 points recorded, oldest
-- first, as many points as there is room for.
pub ts_get_range-reads :
    (samples : List (Meter × State)) (t : Series) (start room : ℕ)
    → t.ready ≡ false
    → length samples < 2 ^ 32
    → room ≢ 0
    → ts_get_range true start room (record_all samples (ts_init t))
      ≡ some (take room (drop start (last_of max_points (sampled samples))))
ts_get_range-reads samples t start room fresh fits some_room =
    let w = record_all-IsWindow samples [] (ts_init t) (ts_init-IsWindow t fresh) (omega arith) in
    ts_get_range-IsWindow (sampled samples) (record_all samples (ts_init t)) start room w some_room
