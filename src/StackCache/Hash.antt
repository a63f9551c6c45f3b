-- ===== src/StackCache/Hash.antt =====
-- src/stack_cache.c: the hash of a call stack. A pointer is 8 bytes, so that the hash reads whole
-- frames.
use memory_trace_tool.Base.{
  ℕ, ◌-◌, ◌*◌, ◌/◌, ◌%◌, ◌^◌, List, [], ◌∷◌, if◌then◌else◌, ◌==◌, ltb, leb, length, drop, map,
  add64, sub64, mul64, word, bit_or, bit_xor,
}
use memory_trace_tool.Ranges.{fix_thumb_addr}

-- XXH_PRIME64_1 to XXH_PRIME64_5
abbrev pub prime_1 : ℕ
prime_1 = 0x9E3779B185EBCA87

abbrev pub prime_2 : ℕ
prime_2 = 0xC2B2AE3D27D4EB4F

abbrev pub prime_3 : ℕ
prime_3 = 0x165667B19E3779F9

abbrev pub prime_4 : ℕ
prime_4 = 0x85EBCA77C2B2AE63

abbrev pub prime_5 : ℕ
prime_5 = 0x27D4EB2F165667C5

-- `(x << r) | (x >> (64 - r))`
abbrev pub rotate_left : ℕ → ℕ → ℕ
rotate_left r x = bit_or (x * 2 ^ r % word) (x / 2 ^ (64 - r))

-- `xxhash64_round`
pub xxhash64_round : ℕ → ℕ → ℕ
xxhash64_round acc input = mul64 (rotate_left 31 (add64 acc (mul64 input prime_2))) prime_1

-- The four accumulators and the frames that are left.
pub record Lanes : Type 0 where
  pub v₁ : ℕ
  pub v₂ : ℕ
  pub v₃ : ℕ
  pub v₄ : ℕ
  pub rest : List ℕ

-- the loop over 32 bytes, which are four frames
pub four_lanes : List ℕ → ℕ → ℕ → ℕ → ℕ → Lanes
unfolding xxhash64_round
four_lanes (k₁ ∷ k₂ ∷ k₃ ∷ k₄ ∷ rest) v₁ v₂ v₃ v₄ =
    four_lanes rest (xxhash64_round v₁ k₁) (xxhash64_round v₂ k₂) (xxhash64_round v₃ k₃)
      (xxhash64_round v₄ k₄)
four_lanes rest v₁ v₂ v₃ v₄ = record { v₁ = v₁; v₂ = v₂; v₃ = v₃; v₄ = v₄; rest = rest }

-- the lanes joined
pub join_lanes : Lanes → ℕ
unfolding xxhash64_round
join_lanes l =
    let sum =
      add64 (add64 (add64 (rotate_left 1 l.v₁) (rotate_left 7 l.v₂)) (rotate_left 12 l.v₃))
        (rotate_left 18 l.v₄) in
    xxhash64_round (xxhash64_round (xxhash64_round (xxhash64_round sum l.v₁) l.v₂) l.v₃) l.v₄

-- the loop over the 8 bytes of each frame that is left
pub tail_frames : List ℕ → ℕ → ℕ
tail_frames [] h = h
tail_frames (k ∷ ks) h =
    let k' = mul64 (rotate_left 31 (mul64 k prime_2)) prime_1 in
    tail_frames ks (add64 (mul64 (rotate_left 27 (bit_xor h k')) prime_1) prime_4)

-- the last mix
pub final_mix : ℕ → ℕ
final_mix h =
    let h₁ = mul64 (bit_xor h (h / 2 ^ 33)) prime_2 in
    let h₂ = mul64 (bit_xor h₁ (h₁ / 2 ^ 29)) prime_3 in bit_xor h₂ (h₂ / 2 ^ 32)

-- `xxhash64_frames`. The loops for 4 bytes and for single bytes find nothing left. What is added
-- before the tail is the number of bytes left, not the length of the input.
pub xxhash64_frames : List ℕ → ℕ → ℕ
unfolding four_lanes join_lanes tail_frames final_mix
xxhash64_frames frames seed =
    if length frames == 0
    then 0
    else if leb 4 (length frames)
    then (let lanes =
          four_lanes frames (add64 (add64 seed prime_1) prime_2) (add64 seed prime_2) seed
            (sub64 seed prime_1) in
        final_mix (tail_frames lanes.rest (add64 (join_lanes lanes) (length lanes.rest * 8))))
    else final_mix (tail_frames frames (add64 (add64 seed prime_5) (length frames * 8)))

-- `mtt_stack_hash_compute`: all the frames but the first, if there is more than one
unfoldable pub stack_hash_compute : List ℕ → ℕ
unfolding xxhash64_frames
stack_hash_compute frames =
    if length frames == 0
    then 0
    else (let used = if ltb 1 (length frames) then drop 1 frames else frames in
        xxhash64_frames (map fix_thumb_addr used) 0x9e3779b97f4a7c15)
