-- ===== src/Bootstrap/Blocks.antt =====
-- The blocks of the bump allocator are aligned, inside the buffer, and apart from one another.
use memory_trace_tool.Base.{
  ℕ, zero, suc, ◌+◌, ◌-◌, ◌*◌, ◌%◌, ◌≤◌, ◌<◌, ◌≡◌, refl, ◌∙◌, false, inl, inr, Option, none, some,
  List, [], ◌∷◌, ltb, add64, mul64, word, length, get_or, arith, length-set, get_or-set,
  Option-cases, if_elim,
}
use memory_trace_tool.Bootstrap.{
  Bootstrap, buf_size, align8, bootstrap_malloc, clear, zeroed_block, bootstrap_calloc,
}

-- The blocks that a sequence of calls of `bootstrap_malloc` gives, each with the size asked for.
abbrev pub serve : List ℕ → Bootstrap → List (ℕ × ℕ)
serve [] b = []
serve (size ∷ sizes) b =
    let (block, b') = bootstrap_malloc size b in
    let rest = serve sizes b' in elim block [ none ↦ rest | some p ↦ (p, size) ∷ rest ]

-- Blocks from `lo` on, each 8-byte aligned, inside the buffer, and past the end of the one before.
pub data InOrder : ℕ → List (ℕ × ℕ) → Type 0 where
  no_blocks : {lo : ℕ} → InOrder lo []
  block :
      {lo : ℕ} {p size : ℕ} {rest : List (ℕ × ℕ)}
      → lo ≤ p
      → p % 8 ≡ 0
      → p + size ≤ buf_size
      → InOrder (p + size) rest
      → InOrder lo ((p, size) ∷ rest)

-- No request is larger than the buffer.
pub data AllFit : List ℕ → Type 0 where
  none_asked : AllFit []
  one_more : {size : ℕ} {sizes : List ℕ} → size ≤ buf_size → AllFit sizes → AllFit (size ∷ sizes)

InOrder-le :
    {lo lo' : ℕ} (blocks : List (ℕ × ℕ)) → lo' ≤ lo → InOrder lo blocks → InOrder lo' blocks
InOrder-le [] le o = InOrder.no_blocks
InOrder-le ((p, size) ∷ rest) le (InOrder.block h₁ h₂ h₃ o) = InOrder.block (omega arith) h₂ h₃ o

given_or_not :
    (size : ℕ) (b : Bootstrap)
    → b.offset % 8 ≡ 0
    → size ≤ buf_size
    → b.offset + buf_size + 8 < word
    → ((bootstrap_malloc size b).1.offset % 8 ≡ 0)
      × ((bootstrap_malloc size b).1.offset ≤ b.offset + size + 7)
      × (b.offset + size ≤ (bootstrap_malloc size b).1.offset)
unfolding bootstrap_malloc
given_or_not size b h fits room = ground arith

given_block :
    (size p : ℕ) (b : Bootstrap)
    → b.offset % 8 ≡ 0
    → size ≤ buf_size
    → b.offset + buf_size + 8 < word
    → (bootstrap_malloc size b).0 ≡ some p
    → (p ≡ b.offset) × (p + size ≤ buf_size) × (p + align8 size ≤ buf_size)
unfolding bootstrap_malloc
given_block size p b h fits room e = ground arith

-- From an offset that is a multiple of 8, the blocks that a sequence of requests gives, each at
-- most the buffer's size, lie in order without overlap, aligned to 8 and inside the buffer, as
-- long as the offset cannot reach the word's end.
pub serve-InOrder :
    (sizes : List ℕ) (b : Bootstrap)
    → AllFit sizes
    → b.offset % 8 ≡ 0
    → b.offset + length sizes * (buf_size + 8) < word
    → InOrder b.offset (serve sizes b)
serve-InOrder [] b fit h room = InOrder.no_blocks
serve-InOrder (size ∷ sizes) b (AllFit.one_more fits fit) h room =
    let b' = (bootstrap_malloc size b).1 in
    let (h', le, ge) = given_or_not size b h fits (omega arith) in
    let rest = serve-InOrder sizes b' fit h' (omega arith) in
    elim (Option-cases (bootstrap_malloc size b).0) [
      | inl failed ↦ rw (failed, serve) (InOrder-le _ (omega arith) rest)
      | inr (p, given) ↦
          let (start, inside, _) = given_block size p b h fits (omega arith) given in
          rw (given, serve)
            (InOrder.block (omega arith) (rw start h) inside
              (InOrder-le _ (omega (arith, start)) rest))
    ]

-- A request within 7 of the word's end, at an offset inside the buffer, gives the block at the
-- offset and leaves the offset, as a request for nothing would.
pub bootstrap_malloc-wraps :
    (size : ℕ) (b : Bootstrap)
    → word - 7 ≤ size
    → size < word
    → b.offset ≤ buf_size
    → bootstrap_malloc size b ≡ (some b.offset, b)
unfolding bootstrap_malloc
bootstrap_malloc-wraps size b big fits room =
    let same : add64 b.offset (align8 size) ≡ b.offset = omega arith in
    let inside : ltb buf_size b.offset ≡ false = ground arith in rw (same, inside) refl

clear-length : (n p : ℕ) (bytes : List ℕ) → length (clear n p bytes) ≡ length bytes
unfolding clear
clear-length zero p bytes = refl
clear-length (suc n) p bytes = length-set (clear n p bytes) (p + n) 0 ∙ clear-length n p bytes

clear-zeroes :
    (n p k : ℕ) (bytes : List ℕ)
    → p + n ≤ length bytes
    → k < n
    → get_or (clear n p bytes) (p + k) 1 ≡ 0
unfolding clear
clear-zeroes zero p k bytes inside lt = absurd (omega arith)
clear-zeroes (suc n) p k bytes inside lt = ground (
  arith,
  clear-zeroes n p k bytes (omega arith),
  clear-length n p bytes,
  get_or-set (clear n p bytes) (p + n) (p + k) 0 1,
)

bootstrap_malloc-bytes : (size : ℕ) (b : Bootstrap) → (bootstrap_malloc size b).1.bytes ≡ b.bytes
unfolding bootstrap_malloc
bootstrap_malloc-bytes size b = ground arith

-- If the block `p` is given, byte `k` of it is 0.
abbrev Zero : ℕ → ℕ → Option ℕ × Bootstrap → Type 0
Zero p k r = r.0 ≡ some p → get_or r.1.bytes (p + k) 1 ≡ 0

zeroed_block-Zero :
    (total p k : ℕ) (b : Bootstrap)
    → length b.bytes ≡ buf_size
    → b.offset % 8 ≡ 0
    → b.offset + buf_size + 8 < word
    → total ≤ buf_size
    → k < total
    → Zero p k (zeroed_block total b)
unfolding zeroed_block
zeroed_block-Zero total p k b whole h room fits lt =
    elim (Option-cases (bootstrap_malloc total b).0) [
      | inl failed ↦ rw (failed, zeroed_block) (λ e. absurd (ground (arith, e)))
      | inr (q, given) ↦
          rw (given, zeroed_block, bootstrap_malloc-bytes total b)
            (λ e. ground (
              arith,
              e,
              given_block total q b h fits room given,
              clear-zeroes (align8 total) q k b.bytes,
            ))
    ]

-- From an offset that is a multiple of 8 and far from the word's end, every byte of a block that
-- bootstrap_calloc gives is 0, where the product is at most the buffer's size.
pub bootstrap_calloc-zeroes :
    (count size p k : ℕ) (b : Bootstrap)
    → length b.bytes ≡ buf_size
    → b.offset % 8 ≡ 0
    → b.offset + buf_size + 8 < word
    → count * size ≤ buf_size
    → k < count * size
    → (bootstrap_calloc count size b).0 ≡ some p
    → get_or (bootstrap_calloc count size b).1.bytes (p + k) 1 ≡ 0
unfolding bootstrap_calloc
bootstrap_calloc-zeroes count size p k b whole h room fits lt =
    if_elim (Zero p k) _ (none, b) (zeroed_block (mul64 count size) b)
      (λ _ e. absurd (ground (arith, e)))
      (λ _. zeroed_block-Zero (mul64 count size) p k b whole h room (omega arith) (omega arith))
