-- ===== src/Memory/Roundtrip.antt =====
-- What `nc_mem_alloc` returns, handed on to the other functions of src/nc_memory.c.
use nanoc.Base.{
  ℕ, ◌+◌, ◌≤◌, ◌≡◌, refl, ◌∙◌, ◌≢◌, inl, inr, List, ◌∷◌, ◌++◌, arith, replicate, done, Returns,
  Returns-mono,
}
use mathlib.Core.List.{append_assoc}
use nanoc.Memory.{Mem, alloc, free, get_blocksize, num_blocks, num_words}
use nanoc.Memory.Layout.{Block, vacant, used, extent, Holds}
use nanoc.Memory.Alloc.{alloc-Allocated}
use nanoc.Memory.Free.{free-Freed, get_blocksize_lem}

module _ (m : Mem) (before after : List Block) (bytes a : ℕ) (m' : Mem)
    (holds : Holds m before after) (fits : bytes ≤ 512) (e : alloc m bytes ≡ done (a, m'))
    (got : a ≢ 0) where
  -- If nc_mem_alloc of at most 512 bytes on a heap of blocks returned an address other than 0, then
  -- nc_mem_get_blocksize of it returns at least the bytes that were asked for and at most 3 more.
  pub get_blocksize-alloc :
      Returns (get_blocksize m' a) (λ size. (bytes ≤ size) × (size ≤ bytes + 3))
  get_blocksize-alloc = elim (rw e at (alloc-Allocated m before after bytes holds fits)) [
    | inl (zero_addr, _, _, _) ↦ absurd (got zero_addr)
    | inr (x, y, split, at, holds') ↦
        rw
          (
            at,
            get_blocksize_lem m' (before ++ x) (used (num_blocks bytes) (num_words bytes) ∷ y)
                (before ++ x) y (num_blocks bytes) (num_words bytes) holds' refl,
          )
          (omega arith)
  ]

  -- If nc_mem_alloc of at most 512 bytes on a heap of blocks returned an address other than 0, then
  -- nc_mem_free of that address returns and the heap has the sequence of blocks that it had before
  -- the allocation.
  pub free-alloc : Returns (free m' a) (λ m''.
      (before' : List Block) × (after' : List Block) × (before' ++ after' ≡ before ++ after)
      × Holds m'' before' after')
  free-alloc = elim (rw e at (alloc-Allocated m before after bytes holds fits)) [
    | inl (zero_addr, _, _, _) ↦ absurd (got zero_addr)
    | inr (x, y, split, at, holds') ↦
        let n = num_blocks bytes in
        let whole : (before ++ x) ++ (replicate n vacant ++ y) ≡ before ++ after =
          rw split (append_assoc before x (replicate n vacant ++ y)) in
        rw at (
          Returns-mono (free m' (0x8000 + extent (before ++ x) + 2))
            (λ m'' f. let (_, (before', after', same, h)) = f in (before', after', same ∙ whole, h))
            (free-Freed m' (before ++ x) (used n (num_words bytes) ∷ y) (before ++ x) y n
              (num_words bytes) holds' refl))
  ]
