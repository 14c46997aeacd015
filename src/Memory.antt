-- ===== src/Memory.antt =====
-- src/nc_memory.c with cfg_STRING_SUPPORT: the VM's heap of 8-byte blocks. The first byte of an
-- allocated run of blocks is its number of blocks, the second its number of 32-bit words; 0 tags a
-- free block. The model has the two fields of `t_VM` that these functions use. A function that
-- changes them returns the new memory beside its result; an access outside `heap` is a `fault`.
pub mod Layout
pub mod Scan
pub mod Alloc
pub mod Free
pub mod Count
pub mod Roundtrip
pub mod Realloc
pub mod Runs
pub mod History
pub mod Sample
mod Tests
use nanoc.Base.{
  ℕ, zero, suc, ◌+◌, ◌-◌, ◌*◌, ◌/◌, ◌%◌, min, true, false, List, ltb, leb, ◌==◌, if◌then◌else◌,
  length, get_elem?, set, replicate, Run, done, fault, ◌>>=◌, checked,
}
use nanoc.Base.Word.{u16}

pub record Mem : Type 0 where
  pub heap : List ℕ
  pub mem_start_addr : ℕ

-- cfg_MEM_HEAP_SIZE and cfg_MAX_MEM_BLOCK_SIZE; k_MEM_BLOCK_SIZE is 8, HEADER_SIZE 2.
abbrev pub heap_size : ℕ
heap_size = 8192

abbrev pub max_block_size : ℕ
max_block_size = 512

abbrev pub num_blocks : ℕ → ℕ
num_blocks bytes = (bytes + 9) / 8

abbrev pub num_words : ℕ → ℕ
num_words bytes = (bytes + 5) / 4

-- A byte of the heap, read and written.
abbrev pub read : Mem → ℕ → Run ℕ
read m i = checked (get_elem? m.heap i)

unfoldable pub write : Mem → ℕ → ℕ → Run Mem
write m i b = if ltb i (length m.heap) then done (record m { heap = set m.heap i b }) else fault

-- `for (i = ...; i < cfg_MEM_HEAP_SIZE; i += k_MEM_BLOCK_SIZE)` makes this many rounds.
abbrev pub rounds : ℕ → ℕ
rounds i = (heap_size + 7 - i) / 8

-- Sets the tags of `n` blocks from index `i` on to free.
unfoldable pub clear_tags : ℕ → ℕ → Mem → Run Mem
clear_tags zero i m = done m
clear_tags (suc n) i m = write m i 0 >>= clear_tags n (i + 8)

unfoldable pub init : Mem → Run Mem
init m = clear_tags (rounds 0) 0 m >>= λ m'. done (record m' { mem_start_addr = 0 })

-- The header of the run at `start`, and the address that `nc_mem_alloc` returns.
unfoldable pub claim : ℕ → ℕ → Mem → Run (ℕ × Mem)
claim bytes start m = write m start (num_blocks bytes) >>= λ m₁.
    write m₁ (start + 1) (num_words bytes) >>= λ m₂. done (0x8000 + start + 2, m₂)

-- The loop of `nc_mem_alloc`, with the rounds that are left; `i` is below 8192 in each.
unfoldable pub alloc_loop : ℕ → ℕ → ℕ → ℕ → ℕ → ℕ → Mem → Run (ℕ × Mem)
alloc_loop bytes zero i start count blocked m = done (0, m)
alloc_loop bytes (suc left) i start count blocked m =
    let skip = alloc_loop bytes left (i + 8) start count (blocked - 1) m in
    let first = alloc_loop bytes left (i + 8) i 1 0 (record m { mem_start_addr = i }) in
    let further = alloc_loop bytes left (i + 8) start (count + 1) 0 m in
    let round : Run (ℕ × Mem) = read m i >>= λ tag.
    let allocated = alloc_loop bytes left (i + 8) 0 0 (tag - 1) m in
    let begins =
      if num_blocks bytes == 1 then claim bytes i (record m { mem_start_addr = i }) else first in
    let grows = if count + 1 == num_blocks bytes then claim bytes start m else further in
    if tag == 0 then if count == 0 then begins else grows else allocated in
    if ltb 0 blocked then skip else round

unfoldable pub alloc : Mem → ℕ → Run (ℕ × Mem)
alloc m bytes =
    let search = alloc_loop bytes (rounds m.mem_start_addr) m.mem_start_addr 0 0 0 m in
    if leb bytes max_block_size then search else done (0, m)

unfoldable pub free : Mem → ℕ → Run Mem
free m addr =
    let a = u16 (addr % 0x8000 + 65536 - 2) in
    let release : Run Mem = read m a >>= λ n.
    if leb (a + n * 8) heap_size
    then (clear_tags n a m >>= λ m'. done (record m' { mem_start_addr = min m'.mem_start_addr a }))
    else done m in
    if ltb 0x7fff addr then if ltb a heap_size then release else done m else done m

-- `buff_size` is a `uint16_t`: with a word count of 0 it wraps.
unfoldable pub realloc : Mem → ℕ → ℕ → Run (ℕ × Mem)
realloc m addr bytes =
    let idx = addr % 0x8000 in
    let resize : Run (ℕ × Mem) = read m (idx - 1) >>= λ w.
    if leb bytes (u16 (w * 4 + 65536 - 2))
    then done (addr, m)
    else free m addr >>= λ m'. alloc m' bytes in
    let in_heap =
      if ltb idx 2 then done (0, m) else if leb heap_size idx then done (0, m) else resize in
    if ltb 0x7fff addr
    then if leb bytes max_block_size then in_heap else done (0, m)
    else done (0, m)

unfoldable pub get_blocksize : Mem → ℕ → Run ℕ
get_blocksize m addr =
    read m (u16 (addr % 0x8000 + 65536 - 2) + 1) >>= λ w. done (u16 (w * 4 + 65536 - 2))

-- The loop of `nc_mem_get_free`; a step over an allocated run takes more than one block, so the
-- rounds that are left are fuel here.
unfoldable pub free_loop : ℕ → ℕ → ℕ → Mem → Run ℕ
free_loop zero i total m = if ltb i heap_size then fault else done total
free_loop (suc fuel) i total m =
    let round : Run ℕ = read m i >>= λ tag.
    let next = free_loop fuel (i + 8) (u16 (total + 8)) m in
    let over = free_loop fuel (i + tag * 8) total m in if tag == 0 then next else over in
    if ltb i heap_size then round else done total

unfoldable pub get_free : Mem → Run ℕ
get_free m = free_loop (rounds m.mem_start_addr) m.mem_start_addr 0 m
