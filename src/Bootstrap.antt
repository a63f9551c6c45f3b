-- ===== src/Bootstrap.antt =====
-- src/tracker.c: the bump allocator that serves until libc's functions are found.
-- A block is an offset into `g_bootstrap_buf`; the words written into it are bytes by offset.
pub mod Blocks
use memory_trace_tool.Base.{
  ℕ, zero, suc, ◌+◌, ◌-◌, ◌*◌, ◌/◌, ◌%◌, Bool, true, false, not, ◌&&◌, Option, none, some, List, [],
  ◌∷◌, if◌then◌else◌, ◌==◌, ltb, leb, add64, mul64, word, get_or, set, min,
}

-- MTT_BOOTSTRAP_BUF_SIZE
abbrev pub buf_size : ℕ
buf_size = 65536

-- `g_bootstrap_buf` and `g_bootstrap_offset`
pub record Bootstrap : Type 0 where
  pub bytes : List ℕ
  pub offset : ℕ

-- `(size + 7) & ~7`, on 64-bit words
abbrev pub align8 : ℕ → ℕ
align8 size = add64 size 7 / 8 * 8

-- `bootstrap_malloc`
unfoldable pub bootstrap_malloc : ℕ → Bootstrap → Option ℕ × Bootstrap
bootstrap_malloc size b =
    let aligned = align8 size in
    let old = b.offset in
    let b' = record b { offset = add64 old aligned } in
    if ltb buf_size (add64 old aligned) then (none, b') else (some old, b')

-- `memset(p, 0, n)`
pub clear : ℕ → ℕ → List ℕ → List ℕ
clear zero p bytes = bytes
clear (suc n) p bytes = set (clear n p bytes) (p + n) 0

-- a block of `total` bytes, all of it and what rounding adds set to 0
pub zeroed_block : ℕ → Bootstrap → Option ℕ × Bootstrap
unfolding bootstrap_malloc clear
zeroed_block total b =
    let (block, b') = bootstrap_malloc total b in
    elim block [
      | none ↦ (none, b')
      | some p ↦ (some p, record b' { bytes = clear (align8 total) p b'.bytes })
    ]

-- `bootstrap_calloc`
unfoldable pub bootstrap_calloc : ℕ → ℕ → Bootstrap → Option ℕ × Bootstrap
unfolding zeroed_block
bootstrap_calloc count size b =
    if ltb 0 count && ltb 0 size && ltb ((word - 1) / size) count
    then (none, b)
    else zeroed_block (mul64 count size) b

-- `memcpy(to, from, n)` inside the buffer, a byte at a time upwards; a read out of it gives 0
pub copy : ℕ → ℕ → ℕ → List ℕ → List ℕ
copy zero to from bytes = bytes
copy (suc n) to from bytes =
    let before = copy n to from bytes in set before (to + n) (get_or before (from + n) 0)

-- `bootstrap_realloc`, for NULL or a block of the buffer
unfoldable pub bootstrap_realloc : Option ℕ → ℕ → Bootstrap → Option ℕ × Bootstrap
unfolding bootstrap_malloc copy
bootstrap_realloc none size b = bootstrap_malloc size b
bootstrap_realloc (some ptr) size b =
    if size == 0
    then (none, b)
    else (let (block, b') = bootstrap_malloc size b in
        elim block [
          | none ↦ (none, b')
          | some p ↦ (some p, record b' { bytes = copy (min size buf_size) p ptr b'.bytes })
        ])
