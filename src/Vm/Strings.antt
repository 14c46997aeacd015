-- ===== src/Vm/Strings.antt =====
-- The string functions and cases of src/nc_runtime.c. The VM has two temporary buffers of 128
-- bytes, used in turn. A `char *` is a place in the VM; a copy reads its source whole before it
-- writes. A write past the end of a buffer is a `fault`.
use nanoc.Base.{
  ℕ, zero, suc, ◌+◌, ◌-◌, ◌%◌, min, true, false, none, some, List, [], ◌∷◌, ◌++◌, ltb, leb, ◌==◌,
  if◌then◌else◌, length, get_elem?, get_or, take, drop, replicate, overwrite, Run, done, fault,
  checked,
}
use nanoc.Base.Outcome
use nanoc.Base.Word.{u8, u16, is_neg, smin}
use nanoc.Vm.State.{
  Vm, M, pure, gets, lift, undefined, ◌>>=◌, ◌>>◌, push, pop, get_var, set_var, operand, print,
  advance, fail, out_of_bounds, out_of_memory, Flow, max_code_size,
}
use nanoc.Vm.Arrays.{
  mem_free, mem_alloc, mem_realloc, mem_get_blocksize, write_heap, array_of_stack,
}
use nanoc.Vm.Text.{
  c_string, padded, Order, less, equal, greater, compare_text, find_text, atoi, decimal,
  hexadecimal,
}

-- STRBUF1 and STRBUF2 are the addresses of the buffers.
pub data Buffer : Type 0 where
  strbuf1 strbuf2 : Buffer

abbrev pub address : Buffer → ℕ
address strbuf1 = 0x7ff1
address strbuf2 = 0x7ff2

abbrev pub line_len : ℕ
line_len = 128

-- Where a string lies; `empty` is the literal "".
pub data Place : Type 0 where
  in_buffer : Buffer → Place
  in_heap in_code : ℕ → Place
  empty : Place

abbrev pub buffer : Buffer → Vm → List ℕ
buffer strbuf1 vm = vm.strbuf1
buffer strbuf2 vm = vm.strbuf2

abbrev pub set_buffer : Buffer → List ℕ → Vm → Vm
set_buffer strbuf1 b vm = record vm { strbuf1 = b }
set_buffer strbuf2 b vm = record vm { strbuf2 = b }

-- `get_string`, its argument converted to `uint16_t`.
unfoldable pub place_of : ℕ → M Place
place_of x vm =
    let addr = u16 x in
    let in_the_heap : Run (Place × Vm) =
      Outcome.◌>>=◌ (checked (get_elem? vm.mem.heap (addr % 0x8000)))
        λ c. done (if c == 0 then empty else in_heap (addr % 0x8000), vm) in
    let in_the_code : Run (Place × Vm) =
      Outcome.◌>>=◌ (checked (get_elem? vm.code addr))
        λ c. done (if c == 0 then empty else in_code addr, vm) in
    if addr == 0x7ff1
    then done (in_buffer strbuf1, vm)
    else if addr == 0x7ff2
    then done (in_buffer strbuf2, vm)
    else if leb 0x8000 addr
    then in_the_heap
    else if addr == 0
    then done (empty, vm)
    else if leb max_code_size addr
    then done (empty, vm)
    else in_the_code

-- The bytes of the string at a place.
unfoldable pub bytes_at : Place → Vm → Run (List ℕ)
bytes_at (in_buffer b) vm = c_string (buffer b vm)
bytes_at (in_heap i) vm = c_string (drop i vm.mem.heap)
bytes_at (in_code i) vm = c_string (drop i vm.code)
bytes_at empty vm = done []

abbrev pub read_at : Place → M (List ℕ)
read_at p vm = Outcome.◌>>=◌ (bytes_at p vm) (λ s. done (s, vm))

abbrev pub get_string : ℕ → M (List ℕ)
get_string x = do p ← place_of x; read_at p

unfoldable pub alloc_temp_string : M Buffer
alloc_temp_string vm =
    if vm.strbuf1_used
    then done (strbuf2, record vm { strbuf1_used = false })
    else done (strbuf1, record vm { strbuf1_used = true })

-- Bytes written to a buffer from index `i` on.
unfoldable pub write_buffer : Buffer → ℕ → List ℕ → M (Unit {0})
write_buffer b i bytes vm =
    if leb (i + length bytes) (length (buffer b vm))
    then done (tt, set_buffer b (overwrite (buffer b vm) i bytes) vm)
    else fault

-- `strncpy(ptr, s, n); ptr[n] = 0;` for a signed `n`: as `size_t`, a negative one is out of range.
unfoldable pub copy_text : Buffer → List ℕ → ℕ → M (Unit {0})
copy_text b s n =
    if is_neg n then undefined else (do write_buffer b 0 (padded n s); write_buffer b n (0 ∷ []))

abbrev pub give : Buffer → M Flow
give b = do push (address b); advance 1

unfoldable pub exec_add_str : M Flow
exec_add_str = do
  y ← pop
  x ← pop
  p ← place_of x
  q ← place_of y
  b ← alloc_temp_string
  s ← read_at p
  write_buffer b 0 (padded (line_len - 1) s)
  -- `strncat` appends after what now stands in the buffer, and a terminator.
  d ← read_at (in_buffer b)
  t ← read_at q
  write_buffer b (length d) (take (line_len - 1) t ++ (0 ∷ []))
  give b

-- `strcmp` of the two strings on the stack.
abbrev pub compare_strings : (Order → ℕ) → M Flow
compare_strings f = do
  y ← pop
  x ← pop
  s ← get_string x
  t ← get_string y
  push (f (compare_text s t))
  advance 1

unfoldable pub exec_str_equal : M Flow
exec_str_equal = compare_strings λ o. elim o [ equal ↦ 1 | _ ↦ 0 ]

unfoldable pub exec_str_not_equ : M Flow
exec_str_not_equ = compare_strings λ o. elim o [ equal ↦ 0 | _ ↦ 1 ]

unfoldable pub exec_str_less : M Flow
exec_str_less = compare_strings λ o. elim o [ less ↦ 1 | _ ↦ 0 ]

unfoldable pub exec_str_less_equ : M Flow
exec_str_less_equ = compare_strings λ o. elim o [ greater ↦ 0 | _ ↦ 1 ]

unfoldable pub exec_str_greater : M Flow
exec_str_greater = compare_strings λ o. elim o [ greater ↦ 1 | _ ↦ 0 ]

unfoldable pub exec_str_greater_equ : M Flow
exec_str_greater_equ = compare_strings λ o. elim o [ less ↦ 0 | _ ↦ 1 ]

unfoldable pub exec_left_str : M Flow
exec_left_str = do
  n ← pop
  x ← pop
  b ← alloc_temp_string
  s ← get_string x
  copy_text b s (smin (line_len - 1) n)
  give b

-- A negative count would read before the string and write far past the buffer.
unfoldable pub exec_right_str : M Flow
exec_right_str = do
  n ← pop
  x ← pop
  s ← get_string x
  b ← alloc_temp_string
  let size = u16 (length s)
  let m = smin size n
  copy_text b (drop (size - m) s) m
  give b

unfoldable pub exec_mid_str : M Flow
exec_mid_str = do
  n ← pop
  from ← pop
  x ← pop
  s ← get_string x
  let size = u16 (length s)
  let i = smin size from
  b ← alloc_temp_string
  if is_neg i then undefined else (do copy_text b (drop i s) (smin (size - i) n); give b)

unfoldable pub exec_str_len : M Flow
exec_str_len = do x ← pop; s ← get_string x; push (length s); advance 1

unfoldable pub exec_str_to_val : M Flow
exec_str_to_val = do x ← pop; s ← get_string x; n ← lift (atoi s); push n; advance 1

-- `snprintf` to a temporary buffer.
abbrev pub print_number : (ℕ → List ℕ) → M Flow
print_number f = do n ← pop; b ← alloc_temp_string; write_buffer b 0 (f n ++ (0 ∷ [])); give b

unfoldable pub exec_val_to_str : M Flow
exec_val_to_str = print_number decimal

unfoldable pub exec_val_to_hex : M Flow
exec_val_to_hex = print_number hexadecimal

-- The start position is cut to a byte.
unfoldable pub exec_instr : M Flow
exec_instr = do
  y ← pop
  x ← pop
  v ← pop
  s ← get_string x
  t ← get_string y
  let start = u8 (min (u8 v) (length s))
  push (elim (find_text t (drop start s)) [ none ↦ 4294967295 | some i ↦ start + i ])
  advance 1

unfoldable pub exec_alloc_str : M Flow
exec_alloc_str = do
  y ← pop
  t ← get_string y
  x ← pop
  b ← alloc_temp_string
  let n = smin (line_len - 1) x
  if is_neg n
      then undefined
      else (do write_buffer b 0 (replicate n (get_or t 0 0)); write_buffer b n (0 ∷ []); give b)

-- The case of `realloc_string` where the variable has no heap buffer, and where it has one. When
-- memory is out both return NB_ERROR, which the caller takes for an address.
unfoldable pub store_copy : ℕ → List ℕ → M ℕ
store_copy addr s =
    if addr == 0
    then (do print out_of_memory; pure 1)
    else (do write_heap (addr % 0x8000) (s ++ (0 ∷ [])); pure addr)

unfoldable pub realloc_string : M ℕ
realloc_string = do
  var ← operand 1
  x ← pop
  let addr = u16 x
  p ← place_of addr
  s ← read_at p
  old ← get_var var
  if ltb 0x7fff old
      then (if leb 0x7ff1 addr
          then (do new ← mem_realloc (u16 old) (u16 (length s + 1)); store_copy new s)
          else (do mem_free (u16 old); pure addr))
      else (if leb 0x7ff1 addr
          then (do new ← mem_alloc (u16 (length s + 1)); store_copy new s)
          else pure addr)

unfoldable pub exec_pop_str : M Flow
exec_pop_str = do addr ← realloc_string; var ← operand 1; set_var var addr; advance 2

unfoldable pub exec_str2arr : M Flow
exec_str2arr = do
  x ← pop
  s ← get_string x
  offs ← pop
  dst ← array_of_stack
  size ← mem_get_blocksize dst
  if ltb size (u16 (length s + 1) + u16 offs)
      then fail out_of_bounds
      else (do write_heap (dst + u16 offs) (s ++ (0 ∷ [])); advance 1)

-- Reads up to the terminator, the end of the array or 127 bytes.
unfoldable pub until_zero : ℕ → List ℕ → List ℕ
until_zero zero h = []
until_zero (suc n) [] = []
until_zero (suc n) (c ∷ h) = if c == 0 then [] else c ∷ until_zero n h

unfoldable pub exec_arr2str : M Flow
exec_arr2str = do
  x ← pop
  src ← array_of_stack
  size ← mem_get_blocksize src
  heap ← gets (λ vm. vm.mem.heap)
  let offs = u16 x
  let n = min (size - offs) (line_len - 1)
  if leb size offs
      then fail out_of_bounds
      else (if ltb (length heap) (src + offs + n) then undefined else (do
        b ← alloc_temp_string
        copy_text b (until_zero n (drop (src + offs) heap)) n
        give b))
