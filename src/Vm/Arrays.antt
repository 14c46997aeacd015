-- ===== src/Vm/Arrays.antt =====
-- The array cases of `nc_run` (src/nc_runtime.c). An element address is `addr + offset` in `int`,
-- where the offset is a signed 32-bit pattern; an access outside the heap is undefined.
use nanoc.Base.{
  ℕ, zero, suc, ◌+◌, ◌-◌, ◌*◌, ◌/◌, ◌%◌, Bool, ◌&&◌, ◌||◌, ltb, leb, ◌==◌, if◌then◌else◌, length,
  get_elem?, take, drop, replicate, overwrite, Run, done, fault, checked, List,
}
use nanoc.Base.Outcome
use nanoc.Base.Word.{u16, u32, is_neg, magnitude, sle}
use nanoc.Memory
use nanoc.Memory.{Mem}
use nanoc.Vm.State.{
  M, pure, gets, lift, undefined, ◌>>=◌, ◌>>◌, push, pop, get_var, set_var, operand, advance, fail,
  out_of_bounds, out_of_memory, Flow,
}

-- Calls of src/nc_memory.c.
abbrev pub on_mem : {A : Type 0} → (Mem → Run (A × Mem)) → M A
on_mem f vm = Outcome.◌>>=◌ (f vm.mem) (λ r. done (r.0, record vm { mem = r.1 }))

abbrev pub mem_free : ℕ → M (Unit {0})
mem_free addr = on_mem λ m. Outcome.◌>>=◌ (Memory.free m addr) (λ m'. done (tt, m'))

abbrev pub mem_alloc : ℕ → M ℕ
mem_alloc bytes = on_mem λ m. Memory.alloc m bytes

abbrev pub mem_realloc : ℕ → ℕ → M ℕ
mem_realloc addr bytes = on_mem λ m. Memory.realloc m addr bytes

abbrev pub mem_get_blocksize : ℕ → M ℕ
mem_get_blocksize addr vm = Outcome.◌>>=◌ (Memory.get_blocksize vm.mem addr) (λ n. done (n, vm))

-- The index of `vm->heap[addr + offset]`.
unfoldable pub heap_index : ℕ → ℕ → Run ℕ
heap_index addr offset =
    if is_neg offset
    then if leb (magnitude offset) addr then done (addr - magnitude offset) else fault
    else done (addr + offset)

-- `ACS8`, `ACS16` and `ACS32` of the heap: `n` bytes, the lowest first.
unfoldable pub load : ℕ → ℕ → List ℕ → Run ℕ
load zero i heap = done 0
load (suc n) i heap =
    Outcome.◌>>=◌ (checked (get_elem? heap i))
      λ b. Outcome.◌>>=◌ (load n (i + 1) heap) (λ rest. done (b + rest * 256))

-- The `n` low bytes of a number.
unfoldable pub bytes_of : ℕ → ℕ → List ℕ
bytes_of zero v = List.[]
bytes_of (suc n) v = List.◌∷◌ (v % 256) (bytes_of n (v / 256))

-- Bytes written to the heap from index `i` on.
unfoldable pub write_heap : ℕ → List ℕ → M (Unit {0})
write_heap i bytes vm =
    if leb (i + length bytes) (length vm.mem.heap)
    then done (tt, record vm { mem = record (vm.mem) { heap = overwrite vm.mem.heap i bytes } })
    else fault

abbrev pub load_at : ℕ → ℕ → ℕ → M ℕ
load_at n addr offset vm =
    Outcome.◌>>=◌ (heap_index addr offset)
      λ i. Outcome.◌>>=◌ (load n i vm.mem.heap) (λ x. done (x, vm))

abbrev pub store_at : ℕ → ℕ → ℕ → ℕ → M (Unit {0})
store_at n addr offset v = do i ← lift (heap_index addr offset); write_heap i (bytes_of n v)

-- The guard of an access of `n` bytes: `offset + (n - 1) >= blocksize` in `int`.
abbrev pub is_outside : ℕ → ℕ → ℕ → Bool
is_outside n offset size = sle size (u32 (offset + (n - 1)))

-- The common parts of the accesses: `n` bytes at `offset` of the array at `addr`.
unfoldable pub get_bytes : ℕ → ℕ → ℕ → ℕ → M Flow
get_bytes n len addr offset = do
  size ← mem_get_blocksize addr
  if is_outside n offset size
      then fail out_of_bounds
      else (do x ← load_at n addr offset; push x; advance len)

unfoldable pub set_bytes : ℕ → ℕ → ℕ → ℕ → ℕ → M Flow
set_bytes n len addr offset v = do
  size ← mem_get_blocksize addr
  if is_outside n offset size
      then fail out_of_bounds
      else (do store_at n addr offset v; advance len)

-- The same, for an element: the guard is `idx * 4 >= blocksize`.
unfoldable pub get_elem : ℕ → ℕ → ℕ → M Flow
get_elem len addr offset = do
  size ← mem_get_blocksize addr
  if sle size offset
      then fail out_of_bounds
      else (do x ← load_at 4 addr offset; push x; advance len)

unfoldable pub set_elem : ℕ → ℕ → ℕ → ℕ → M Flow
set_elem len addr offset v = do
  size ← mem_get_blocksize addr
  if sle size offset then fail out_of_bounds else (do store_at 4 addr offset v; advance len)

-- `vm->variables[var] & 0x7FFF` and `POP() & 0x7FFF`, in `uint16_t`.
abbrev pub array_of_var : M ℕ
array_of_var = do var ← operand 1; x ← get_var var; pure (x % 0x8000)

abbrev pub array_of_stack : M ℕ
array_of_stack = do x ← pop; pure (x % 0x8000)

unfoldable pub exec_set_arr_elem : M Flow
exec_set_arr_elem = do addr ← array_of_var; v ← pop; i ← pop; set_elem 2 addr (u32 (i * 4)) v

unfoldable pub exec_get_arr_elem : M Flow
exec_get_arr_elem = do addr ← array_of_var; i ← pop; get_elem 2 addr (u32 (i * 4))

unfoldable pub exec_get_arr_elem_s : M Flow
exec_get_arr_elem_s = do i ← pop; addr ← array_of_stack; get_elem 1 addr (u32 (i * 4))

unfoldable pub exec_set_arr_elem_s : M Flow
exec_set_arr_elem_s = do v ← pop; i ← pop; addr ← array_of_stack; set_elem 1 addr (u32 (i * 4)) v

-- `k_GET_ARR_1BYTE_S_N1` and its like for 2 and 4 bytes.
unfoldable pub exec_get_arr_s : ℕ → M Flow
exec_get_arr_s n = do i ← pop; addr ← array_of_stack; get_bytes n 1 addr i

unfoldable pub exec_set_arr_s : ℕ → M Flow
exec_set_arr_s n = do v ← pop; i ← pop; addr ← array_of_stack; set_bytes n 1 addr i v

-- `k_SET_ARR_1BYTE_N2` and its like for 2 and 4 bytes.
unfoldable pub exec_set_arr : ℕ → M Flow
exec_set_arr n = do addr ← array_of_var; v ← pop; i ← pop; set_bytes n 2 addr i v

unfoldable pub exec_get_arr : ℕ → M Flow
exec_get_arr n = do addr ← array_of_var; i ← pop; get_bytes n 2 addr i

-- Allocates `size + 1` elements; the byte count is cut to `uint16_t`, the `memset` is not.
unfoldable pub exec_dim_arr : M Flow
exec_dim_arr = do
  var ← operand 1
  old ← get_var var
  if ltb 0x7fff old then mem_free (u16 old) else pure tt
  n ← pop
  addr ← mem_alloc (u16 ((u16 n + 1) * 4))
  if addr == 0 then fail out_of_memory else (do
    write_heap (addr % 0x8000) (replicate ((u16 n + 1) * 4) 0)
    set_var var addr
    advance 2)

-- `memcpy` within the heap; it is undefined if both ranges overlap.
unfoldable pub copy_heap : ℕ → ℕ → ℕ → M (Unit {0})
copy_heap dst src n = do
  heap ← gets (λ vm. vm.mem.heap)
  if leb (src + n) (length heap) && (n == 0 || (leb (dst + n) src || leb (src + n) dst))
      then write_heap dst (take n (drop src heap))
      else undefined

unfoldable pub exec_copy : M Flow
exec_copy = do
  n ← pop
  offs2 ← pop
  src ← array_of_stack
  offs1 ← pop
  dst ← array_of_stack
  size1 ← mem_get_blocksize dst
  size2 ← mem_get_blocksize src
  if ltb size1 (u16 n + u16 offs1) || ltb size2 (u16 n + u16 offs2)
      then fail out_of_bounds
      else (do copy_heap (dst + u16 offs1) (src + u16 offs2) (u16 n); advance 1)
