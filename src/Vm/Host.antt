-- ===== src/Vm/Host.antt =====
-- The functions of src/nc_runtime.c that the host calls between runs: reset, access to variables,
-- the parameter stack, strings and arrays.
use nanoc.Base.{
  ℕ, ◌+◌, ◌-◌, ◌*◌, ◌%◌, min, Option, none, some, List, ltb, leb, ◌==◌, if◌then◌else◌, length,
  get_or, take, drop, replicate, Run, done,
}
use nanoc.Base.Outcome
use nanoc.Base.Word.{u16}
use nanoc.Memory
use nanoc.Memory.{Mem, heap_size}
use nanoc.Vm.State.{
  Vm, M, pure, gets, lift, undefined, ◌>>=◌, ◌>>◌, push, ppush, ppop, get_var, set_pc, stack_size,
  paramstack_size, num_variables,
}
use nanoc.Vm.Arrays.{load, mem_get_blocksize, write_heap}
use nanoc.Vm.Text.{c_string, padded}
use nanoc.Vm.Strings.{address, get_string, alloc_temp_string, write_buffer, line_len}

-- `nc_reset`: registers, variables, stacks and heap are cleared; the code stays.
unfoldable pub nc_reset : Vm → Run Vm
nc_reset vm =
    Outcome.◌>>=◌
      (Memory.init
        (record { heap = replicate heap_size 0; mem_start_addr = vm.mem.mem_start_addr }))
      λ m. done (record vm {
        pc = 1;
        sp = 0;
        psp = 0;
        fp = 0;
        ret_val = 0;
        nested_loop_idx = 0;
        variables = replicate num_variables 0;
        stack = replicate stack_size 0;
        paramstack = replicate paramstack_size 0;
        mem = m;
      })

-- A `uint8_t` is below cfg_NUM_VARS, so the guard of these functions never fires.
unfoldable pub nc_get_number : ℕ → M ℕ
nc_get_number var = if leb num_variables var then pure 0 else get_var var

unfoldable pub nc_get_string : ℕ → M (Option (List ℕ))
nc_get_string var =
    if leb num_variables var
    then pure none
    else (do x ← get_var var; s ← get_string x; pure (some s))

unfoldable pub nc_get_arr_elem : ℕ → ℕ → M ℕ
nc_get_arr_elem var idx = if leb num_variables var then pure 0 else (do
  x ← get_var var
  heap ← gets (λ vm. vm.mem.heap)
  lift (load 4 (u16 x % 0x8000 + idx * 4) heap))

unfoldable pub nc_pop_num : M ℕ
nc_pop_num = do is_empty ← gets (λ vm. vm.psp == 0); if is_empty then pure 0 else ppop

-- 4294967295 is -1.
unfoldable pub nc_peek_num : ℕ → M ℕ
nc_peek_num idx = gets λ vm.
    if ltb vm.psp idx then 4294967295 else get_or vm.paramstack ((vm.psp - idx) % paramstack_size) 0

unfoldable pub nc_push_num : ℕ → M (Unit {0})
nc_push_num value = do
  room ← gets (λ vm. ltb vm.psp paramstack_size)
  if room then ppush value else pure tt

-- The bytes written to the caller's `str`, or NULL.
unfoldable pub nc_pop_str : ℕ → M (Option (List ℕ))
nc_pop_str len = do
  is_empty ← gets (λ vm. vm.psp == 0)
  if is_empty then pure none else (do addr ← ppop; s ← get_string addr; pure (some (padded len s)))

unfoldable pub nc_push_str : List ℕ → M (Unit {0})
nc_push_str str = do
  room ← gets (λ vm. ltb vm.psp paramstack_size)
  if room
      then (do b ← alloc_temp_string; write_buffer b 0 (padded line_len str); ppush (address b))
      else pure tt

unfoldable pub nc_pop_arr_ref : M ℕ
nc_pop_arr_ref = do
  is_empty ← gets (λ vm. vm.psp == 0)
  if is_empty then pure 0 else (do x ← ppop; pure (u16 x))

-- A block of an array, if it lies in it.
abbrev pub block : ℕ → ℕ → List ℕ → M (List ℕ)
block i n xs = if leb (i + n) (length xs) then pure (take n (drop i xs)) else undefined

-- The returned count, and the bytes written to the caller's `arr`.
unfoldable pub nc_read_arr : ℕ → ℕ → M (ℕ × List ℕ)
nc_read_arr addr bytes =
    if ltb addr 0x8000
    then (do
      code ← gets (λ vm. vm.code)
      at ← gets (λ vm. min addr vm.code_size)
      s ← lift (c_string (drop at code))
      let n = u16 (min (length s + 1) bytes)
      out ← block at n code
      pure (n, out))
    else (do
      size ← mem_get_blocksize addr
      heap ← gets (λ vm. vm.mem.heap)
      let n = min size bytes
      if size == 0
          then pure (0, replicate bytes 0)
          else (do out ← block (addr % 0x8000) n heap; pure (n, out)))

unfoldable pub nc_write_arr : ℕ → List ℕ → ℕ → M ℕ
nc_write_arr addr arr bytes = if ltb addr 0x8000 then pure 0 else (do
  size ← mem_get_blocksize addr
  let n = min size bytes
  if size == 0 then pure 0 else (do out ← block 0 n arr; write_heap (addr % 0x8000) out; pure n))

unfoldable pub nc_stack_depth : M ℕ
nc_stack_depth = gets λ vm. vm.psp

unfoldable pub nc_set_pc : ℕ → M (Unit {0})
nc_set_pc addr = do pc ← gets (λ vm. vm.pc); push pc; set_pc addr
