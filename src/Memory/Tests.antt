-- ===== src/Memory/Tests.antt =====
-- Calls of src/nc_memory.c on the heap with one allocated run.
use nanoc.Base.{
  ℕ, ◌+◌, ◌-◌, ◌*◌, ◌≤◌, ◌≡◌, refl, List, [], ◌∷◌, ◌++◌, arith, set, replicate, done, Returns,
}
use nanoc.Memory.{Mem, realloc, alloc_loop, claim, write, alloc, free, get_blocksize, get_free}
use nanoc.Memory.Alloc.{Allocated, alloc-Allocated}
use nanoc.Memory.Count.{vacant_count, get_free_lem}
use nanoc.Memory.Free.{Freed, free-Freed, get_blocksize_lem}
use nanoc.Memory.Roundtrip.{get_blocksize-alloc, free-alloc}
use nanoc.Memory.Layout.{Block, vacant, used, Holds}
use nanoc.Memory.Realloc.{Resized, realloc-Resized}
use nanoc.Memory.History.{
  Heap, Reach, here, further, allocated, AreDistinct, AreServed, Reach-AreServed,
}
use nanoc.Memory.Sample.{headed, one_run, one_run-Holds}

abbrev heap_after : List ℕ
heap_after = set (set (headed 8190) 24 1) 25 2

abbrev after_alloc : Mem
after_alloc = record { heap = heap_after; mem_start_addr = 24 }

allocs : alloc (one_run 8190) 6 ≡ done (0x8000 + 26, after_alloc)
unfolding alloc alloc_loop claim write
allocs = refl

alloc-Allocated_example :
    Returns
      (alloc (one_run 8190) 16)
      (Allocated (one_run 8190) (used 3 6 ∷ []) (replicate 1021 vacant) 16)
alloc-Allocated_example =
    alloc-Allocated (one_run 8190) (used 3 6 ∷ []) (replicate 1021 vacant) 16
      (one_run-Holds 8190 1021 refl refl) (omega arith)

free-Freed_example :
    Returns
      (free (one_run 8190) (0x8000 + 0 + 2))
      (Freed (one_run 8190) [] 3 (replicate 1021 vacant))
free-Freed_example =
    free-Freed (one_run 8190) (used 3 6 ∷ []) (replicate 1021 vacant) [] (replicate 1021 vacant) 3 6
      (one_run-Holds 8190 1021 refl refl) refl

get_blocksize_lem_example : get_blocksize (one_run 8190) (0x8000 + 0 + 2) ≡ done (6 * 4 - 2)
get_blocksize_lem_example =
    get_blocksize_lem (one_run 8190) (used 3 6 ∷ []) (replicate 1021 vacant) []
      (replicate 1021 vacant) 3 6 (one_run-Holds 8190 1021 refl refl) refl

get_free_lem_example : get_free (one_run 8190) ≡ done (vacant_count (replicate 1021 vacant) * 8)
get_free_lem_example =
    get_free_lem (one_run 8190) (used 3 6 ∷ []) (replicate 1021 vacant)
      (one_run-Holds 8190 1021 refl refl)

get_blocksize-alloc_example :
    Returns (get_blocksize after_alloc (0x8000 + 26)) (λ size. (6 ≤ size) × (size ≤ 6 + 3))
get_blocksize-alloc_example =
    get_blocksize-alloc (one_run 8190) (used 3 6 ∷ []) (replicate 1021 vacant) 6 (0x8000 + 26)
      after_alloc (one_run-Holds 8190 1021 refl refl) (omega arith) allocs (λ e. omega arith)

free-alloc_example : Returns (free after_alloc (0x8000 + 26)) (λ m''.
    (before' : List Block) × (after' : List Block) × (before' ++ after'
      ≡ (used 3 6 ∷ []) ++ replicate 1021 vacant)
    × Holds m'' before' after')
free-alloc_example =
    free-alloc (one_run 8190) (used 3 6 ∷ []) (replicate 1021 vacant) 6 (0x8000 + 26) after_alloc
      (one_run-Holds 8190 1021 refl refl) (omega arith) allocs (λ e. omega arith)

realloc-Resized_example :
    Returns
      (realloc (one_run 8190) (0x8000 + 0 + 2) 30)
      (Resized (one_run 8190) [] 3 6 (replicate 1021 vacant) 30)
realloc-Resized_example =
    realloc-Resized (one_run 8190) (used 3 6 ∷ []) (replicate 1021 vacant) []
      (replicate 1021 vacant) 3 6 30 (one_run-Holds 8190 1021 refl refl) refl (omega arith)

-- The heap after one allocation.
abbrev in_use : Heap
in_use = record { mem = after_alloc; live = (0x8000 + 26, 6) ∷ [] }

in_use-Reach : Reach (record { mem = one_run 8190; live = [] }) in_use
in_use-Reach = further here (
    allocated (record { mem = one_run 8190; live = [] }) 6 (0x8000 + 26) after_alloc (omega arith)
      allocs (λ e. omega arith))

Reach-AreServed_example :
    AreDistinct in_use.live
    × AreServed after_alloc in_use.live
    × Returns (alloc after_alloc 10) (λ r. Unit {0})
Reach-AreServed_example =
    Reach-AreServed (one_run 8190) (used 3 6 ∷ []) (replicate 1021 vacant) in_use 10
      (one_run-Holds 8190 1021 refl refl) in_use-Reach (omega arith)
