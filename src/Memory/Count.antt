-- ===== src/Memory/Count.antt =====
-- `nc_mem_get_free` of src/nc_memory.c on the blocks.
use nanoc.Base.{
  ℕ, zero, suc, ◌+◌, ◌*◌, ◌≤◌, ◌≡◌, ap, ◌∙◌, List, [], ◌∷◌, arith, length, get_elem?-eq-get_or,
  done,
}
use nanoc.Base.Word.{u16}
use nanoc.Memory.{Mem, free_loop, get_free, rounds}
use nanoc.Memory.Layout.{
  Block, vacant, used, extent, Layout, Holds, extent-append, extent_mod, Layout-at, Layout-split,
}

abbrev pub vacant_count : List Block → ℕ
vacant_count [] = 0
vacant_count (vacant ∷ bs) = suc (vacant_count bs)
vacant_count (used n w ∷ bs) = vacant_count bs

vacant_count-le : (bs : List Block) → vacant_count bs * 8 ≤ extent bs
vacant_count-le [] = omega arith
vacant_count-le (vacant ∷ bs) = omega (arith, vacant_count-le bs)
vacant_count-le (used n w ∷ bs) = omega (arith, vacant_count-le bs)

free_loop_lem :
    (fuel i total : ℕ) (m : Mem) (bs : List Block)
    → length m.heap ≡ 8192
    → i + extent bs ≡ 8192
    → extent bs ≤ fuel * 8
    → total ≤ i
    → Layout m.heap i bs
    → free_loop fuel i total m ≡ done (total + vacant_count bs * 8)
unfolding free_loop
free_loop_lem zero i total m [] sized ends enough le l = ground arith
free_loop_lem (suc fuel) i total m [] sized ends enough le l = ground arith
free_loop_lem zero i total m (vacant ∷ bs) sized ends enough le l = absurd (omega arith)
free_loop_lem zero i total m (used n w ∷ bs) sized ends enough le ((_, pos, _, _), l) =
    absurd (omega arith)
free_loop_lem (suc fuel) i total m (vacant ∷ bs) sized ends enough le (hd, l) =
    let no_wrap : u16 (total + 8) ≡ total + 8 = omega arith in
    ground (
      arith,
      get_elem?-eq-get_or m.heap i 0,
      no_wrap,
      free_loop_lem fuel (i + 8) (total + 8) m bs sized (omega arith) (omega arith) (omega arith) l,
    )
free_loop_lem (suc fuel) i total m (used n w ∷ bs) sized ends enough le ((tag, pos, _, _), l) =
    ground (
      arith,
      get_elem?-eq-get_or m.heap i 0,
      free_loop_lem fuel (i + n * 8) total m bs sized (omega arith) (omega arith) (omega arith) l,
    )

-- On a heap that is a sequence of blocks, nc_mem_get_free returns 8 times the number of free blocks
-- from the search start on.
pub get_free_lem :
    (m : Mem) (before after : List Block)
    → Holds m before after
    → get_free m ≡ done (vacant_count after * 8)
unfolding get_free
get_free_lem m before after holds =
    let l = Layout-split m.heap 0 before after holds.tags in
    free_loop_lem (rounds m.mem_start_addr) m.mem_start_addr 0 m after holds.sized
      (omega (arith, extent-append before after, holds))
      (omega (arith, extent-append before after, extent_mod after, holds)) (omega arith)
      (Layout-at m.heap after (0 + extent before) m.mem_start_addr (omega (arith, holds)) l.1)
    ∙ ap done (omega arith)
