-- ===== src/StackCache/Symbols.antt =====
-- The cache of symbols gives back what was put in.
use memory_trace_tool.Base.{
  ℕ, zero, suc, ◌+◌, ◌-◌, ◌*◌, min, ◌/◌, ◌%◌, ◌<◌, ◌≡◌, ◌≢◌, refl, some, List, length, set, take,
  mul64, bit_and, bit_and-le, bit_and_step, arith, get_or-set, Option-cases, inl, inr,
}
use memory_trace_tool.State.{null, fibonacci}
use memory_trace_tool.StackCache.{
  AddrEntry, no_addr, addr_cache_buckets, symbol_max, addr_bucket, probe_own, probe_place,
  addr_cache_lookup, addr_cache_insert,
}

probe_place-lt :
    (addr idx : ℕ) (entries : List AddrEntry) (bucket i left : ℕ)
    → probe_place addr entries bucket i left ≡ some idx
    → idx < addr_cache_buckets
unfolding probe_place
probe_place-lt addr idx entries bucket i zero h = cc
probe_place-lt addr idx entries bucket i (suc left) h = ground (
  arith,
  probe_place-lt addr idx entries bucket (i + 1) left,
  bit_and-le (bucket + i) (addr_cache_buckets - 1),
)

-- A write to the slot that the insertion chose is the one that a later search for `addr` stops at.
probe-chosen :
    (addr idx : ℕ) (e : AddrEntry) (entries : List AddrEntry) (bucket i left : ℕ)
    → length entries ≡ addr_cache_buckets
    → e.addr ≡ addr
    → idx < addr_cache_buckets
    → probe_place addr entries bucket i left ≡ some idx
    → probe_own addr (set entries idx e) bucket i left ≡ some idx
unfolding probe_own probe_place
probe-chosen addr idx e entries bucket i zero whole own lt h = cc
probe-chosen addr idx e entries bucket i (suc left) whole own lt h =
    let j = bit_and (bucket + i) (addr_cache_buckets - 1) in
    ground (
      arith,
      probe-chosen addr idx e entries bucket (i + 1) left whole own lt,
      bit_and-le (bucket + i) (addr_cache_buckets - 1),
      get_or-set entries idx j e no_addr,
    )

-- A mask of ones keeps the lowest bit.
mask_step : (a m : ℕ) → bit_and a (2 * m + 1) ≡ bit_and (a / 2) m * 2 + a % 2
mask_step a m =
    let half : (2 * m + 1) / 2 ≡ m = omega arith in rw half at (lowest (bit_and_step a (2 * m + 1)))
  where
    lowest :
        bit_and a (2 * m + 1)
          ≡ min (a % 2) ((2 * m + 1) % 2) + bit_and (a / 2) ((2 * m + 1) / 2) * 2
        → bit_and a (2 * m + 1) ≡ bit_and (a / 2) ((2 * m + 1) / 2) * 2 + a % 2
    lowest h = omega arith

-- The mask of the table's size is a remainder.
bit_and_511 : (a : ℕ) → bit_and a 511 ≡ a % 512
bit_and_511 a = omega (
  arith,
  mask_step (a) 255,
  mask_step (a / 2) 127,
  mask_step (a / 2 / 2) 63,
  mask_step (a / 2 / 2 / 2) 31,
  mask_step (a / 2 / 2 / 2 / 2) 15,
  mask_step (a / 2 / 2 / 2 / 2 / 2) 7,
  mask_step (a / 2 / 2 / 2 / 2 / 2 / 2) 3,
  mask_step (a / 2 / 2 / 2 / 2 / 2 / 2 / 2) 1,
  mask_step (a / 2 / 2 / 2 / 2 / 2 / 2 / 2 / 2) 0,
  bit_and-le (a / 2 / 2 / 2 / 2 / 2 / 2 / 2 / 2 / 2) 0,
)

-- Where no slot was free, the write goes to the first, at which the search stops at once.
probe-first :
    (addr left : ℕ) (e : AddrEntry) (entries : List AddrEntry)
    → length entries ≡ addr_cache_buckets
    → e.addr ≡ addr
    → probe_own addr (set entries (addr_bucket addr) e) (addr_bucket addr) 0 (suc left)
      ≡ some (addr_bucket addr)
unfolding probe_own
probe-first addr left e entries whole own =
    let b = addr_bucket addr in
    let hash = mul64 (addr / 8) fibonacci in
    let same : bit_and (b + 0) (addr_cache_buckets - 1) ≡ b =
      omega (arith, bit_and_511 (b + 0), bit_and_511 hash) in
    rw same (ground (arith, get_or-set entries b b e no_addr, bit_and_511 hash))

-- In a cache of 512 slots, a symbol that was inserted for an address that is not NULL is found
-- again, cut to 255 bytes and to the reader's room.
pub addr_cache_lookup-insert :
    (addr out_size : ℕ) (symbol : List ℕ) (entries : List AddrEntry)
    → length entries ≡ addr_cache_buckets
    → addr ≢ null
    → out_size ≢ 0
    → addr_cache_lookup addr out_size (addr_cache_insert addr symbol entries)
      ≡ some (take (out_size - 1) (take (symbol_max - 1) symbol))
unfolding addr_cache_lookup addr_cache_insert
addr_cache_lookup-insert addr out_size symbol entries whole some_addr some_room =
    let b = addr_bucket addr in
    let kept : AddrEntry = record { addr = addr; symbol = take (symbol_max - 1) symbol } in
    let hash = mul64 (addr / 8) fibonacci in
    elim (Option-cases (probe_place addr entries b 0 4)) [
      | inl occupied ↦ ground (
        arith,
        occupied,
        probe-first addr 3 kept entries whole refl,
        get_or-set entries b b kept no_addr,
        bit_and_511 hash,
      )
      | inr (idx, place) ↦
          let lt = probe_place-lt addr idx entries b 0 4 place in
          ground (
            arith,
            place,
            lt,
            probe-chosen addr idx kept entries b 0 4 whole refl lt place,
            get_or-set entries idx idx kept no_addr,
          )
    ]
