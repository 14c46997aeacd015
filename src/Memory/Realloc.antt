-- ===== src/Memory/Realloc.antt =====
-- `nc_mem_realloc` of src/nc_memory.c on the blocks.
use nanoc.Base.{
  ℕ, ◌+◌, ◌-◌, ◌*◌, ◌%◌, ◌≤◌, ◌<◌, ◌≡◌, ◌⊎◌, inl, inr, refl, List, ◌∷◌, ◌++◌, arith,
  get_elem?-eq-get_or, replicate, min, true, false, leb, leb_le, leb_lt, ltb, if◌then◌else◌, ◌>>=◌,
  Run, done, fault, Returns, Returns-mono,
}
use native.Mathlib.Decide.{dec_le}
use nanoc.Base.Word.{u16}
use nanoc.Memory.{Mem, read, free, alloc, realloc}
use nanoc.Memory.Layout.{Block, used, vacant, extent, extent-append, Holds, Layout-split}
use nanoc.Memory.Alloc.{Allocated, alloc-Allocated}
use nanoc.Memory.Free.{Freed, free-Freed}

-- What `nc_mem_realloc` of the run of `w` words between `xs` and `ys` did. Either the bytes fit the
-- words of the run, and nothing has changed. Or they do not, the blocks of the run became free and
-- the search start the smaller of the old one and the run, and `nc_mem_alloc` worked on that heap.
abbrev pub Resized : Mem → List Block → ℕ → ℕ → List Block → ℕ → ℕ × Mem → Type 0
Resized m xs n w ys bytes (a, m') =
    ((bytes ≤ w * 4 - 2) × (a ≡ 0x8000 + extent xs + 2) × (m' ≡ m))
    ⊎ ((w * 4 - 2 < bytes)
        × ((mid : Mem) × (before : List Block) × (after : List Block) × (before ++ after
              ≡ xs ++ (replicate n vacant ++ ys))
            × (mid.mem_start_addr ≡ min m.mem_start_addr (extent xs))
            × Holds mid before after
            × Allocated mid before after bytes (a, m')))

module _ (m : Mem) (before after xs ys : List Block) (n w bytes : ℕ) (holds : Holds m before after)
    (split : before ++ after ≡ xs ++ (used n w ∷ ys)) (fits : bytes ≤ 512) where
  abbrev addr : ℕ
  addr = 0x8000 + extent xs + 2

  -- The run goes, and memory is allocated anew.
  moved :
      w * 4 - 2 < bytes → Returns (free m addr >>= λ m'. alloc m' bytes) (Resized m xs n w ys bytes)
  moved lt = after_free (free m addr) (free-Freed m before after xs ys n w holds split)
    where
      after_free :
          (r : Run Mem)
          → Returns r (Freed m xs n ys)
          → Returns (r >>= λ m'. alloc m' bytes) (Resized m xs n w ys bytes)
      after_free (done mid) (start, (b, a, e, h)) =
          Returns-mono (alloc mid bytes) (λ r k. inr (lt, (mid, b, a, e, start, h, k)))
            (alloc-Allocated mid b a bytes h fits)
      after_free fault h = h

  in_heap : (extent xs + 2 < 8192) × (0 < w) × (w < 512)
  in_heap =
      let filled : extent (xs ++ (used n w ∷ ys)) ≡ 8192 = rw (← split) holds.filled in
      let (_, ((_, pos, _, run), _)) =
        Layout-split m.heap 0 xs (used n w ∷ ys) (rw split at holds.tags) in
      let sum = extent-append xs (used n w ∷ ys) in
      (omega (arith, sum), run.positive, omega (arith, run))

  read_words : read m (extent xs + 1) ≡ done w
  read_words =
      let (_, ((_, _, words, _), _)) =
        Layout-split m.heap 0 xs (used n w ∷ ys) (rw split at holds.tags) in
      ground (arith, get_elem?-eq-get_or m.heap (extent xs + 1) 0, holds.sized, in_heap)

  realloc_lem :
      realloc m addr bytes
      ≡ (if leb bytes (w * 4 - 2) then done (addr, m) else (free m addr >>= λ m'. alloc m' bytes))
  unfolding realloc
  realloc_lem =
      let index : addr % 0x8000 ≡ extent xs + 2 = omega (arith, in_heap) in
      let before_it : extent xs + 2 - 1 ≡ extent xs + 1 = omega arith in
      let size : u16 (w * 4 + 65536 - 2) ≡ w * 4 - 2 = omega (arith, in_heap) in
      let low : ltb (extent xs + 2) 2 ≡ false = ground arith in
      let high : leb 8192 (extent xs + 2) ≡ false = ground (arith, in_heap) in
      let in_range : ltb 0x7fff addr ≡ true = ground arith in
      rw (in_range, leb_le bytes 512 fits, index, low, high, before_it, read_words, size) refl

  -- On a heap that is a sequence of blocks, nc_mem_realloc of the address of an allocated run of w
  -- words to at most 512 bytes returns. If the bytes are at most 4 * w - 2 it returns that address
  -- and changes nothing. If they are more, then the blocks of that run became free with all others
  -- as before, the search start became the smaller of the old one and the run, and the result is
  -- one that nc_mem_alloc gives on that heap: 0, only if there is no run of enough free blocks
  -- behind the search start, with the heap bytes unchanged; or the address of a run that was free
  -- and is now allocated, with every other block as before.
  pub realloc-Resized : Returns (realloc m addr bytes) (Resized m xs n w ys bytes)
  realloc-Resized = rw realloc_lem (elim (dec_le bytes (w * 4 - 2)) [
    | yes le ↦ rw (leb_le bytes (w * 4 - 2) le) (inl (le, refl, refl))
    | no gt ↦ rw (leb_lt bytes (w * 4 - 2) (omega arith)) (moved (omega arith))
  ])
