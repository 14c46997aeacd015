-- ===== src/Vm/Elements.antt =====
-- The access to array elements in `nc_run` (src/nc_runtime.c) and the heap of src/nc_memory.c.
use nanoc.Base.{
  ℕ, zero, suc, ◌+◌, ◌-◌, ◌*◌, ◌/◌, ◌%◌, ◌≤◌, ◌<◌, ◌≡◌, refl, ap, ◌∙◌, arith, List, ◌∷◌, ◌++◌,
  length, get_or, get_elem?, get_elem?-eq-get_or, overwrite, get_or-overwrite_in,
  get_or-overwrite_below, get_or-overwrite_above, length-overwrite, done, Returns, some, false,
}
use nanoc.Base.Word.{IsWord, u16, sle}
use nanoc.Memory.{get_blocksize}
use nanoc.Memory.Layout.{
  Block, used, extent, Holds, Layout-split, Layout-overwrite, extent-append, extent_mod,
}
use nanoc.Memory.Free.{get_blocksize_lem}
use nanoc.Vm.State.{Vm, next, return_vm, nb_error, out_of_bounds, push, advance, ◌>>◌}
use nanoc.Vm.Arrays.{heap_index, load, bytes_of, write_heap, get_elem, set_elem}

length-bytes_of : (n v : ℕ) → length (bytes_of n v) ≡ n
unfolding bytes_of
length-bytes_of zero v = refl
length-bytes_of (suc n) v = ap suc (length-bytes_of n (v / 256))

get_elem?-overwrite :
    (h bs : List ℕ) (i j k : ℕ)
    → i + length bs ≤ length h
    → k < length bs
    → j ≡ i + k
    → get_elem? (overwrite h i bs) j ≡ some (get_or bs k 0)
get_elem?-overwrite h bs i j k fits lt e =
    get_elem?-eq-get_or (overwrite h i bs) j 0 (omega (arith, length-overwrite h i bs))
    ∙ ap some (
        get_or-overwrite_in h i bs j 0 fits (omega arith) (omega arith)
        ∙ ap (λ t. get_or bs t 0) (omega arith))

-- Bytes that were written are read back as the number they were made of.
load-bytes_of :
    (h : List ℕ) (i v : ℕ)
    → i + 4 ≤ length h
    → IsWord v
    → load 4 i (overwrite h i (bytes_of 4 v)) ≡ done v
unfolding load bytes_of
load-bytes_of h i v fits w =
    let at = λ (j k : ℕ) (lt : k < 4) (e : j ≡ i + k).
      get_elem?-overwrite h (bytes_of 4 v) i j k fits lt e in
    rw
      (
        at i 0 (omega arith) (omega arith),
        at (i + 1) 1 (omega arith) (omega arith),
        at (i + 1 + 1) 2 (omega arith) (omega arith),
        at (i + 1 + 1 + 1) 3 (omega arith) (omega arith),
      )
      (ap done (omega arith))

-- The VM after a write of `v` at index `i` of the heap, and its `pc += len`.
abbrev pub stored : Vm → ℕ → ℕ → ℕ → Vm
stored vm len i v = record vm {
  mem = record (vm.mem) { heap = overwrite vm.mem.heap i (bytes_of 4 v) };
  pc = u16 (vm.pc + len);
}

-- The bytes of the heap but the four from index `i` on are as before.
abbrev pub OtherBytes : Vm → Vm → ℕ → Type 0
OtherBytes vm vm' i =
    ((j : ℕ) → j < i → get_or vm'.mem.heap j 0 ≡ get_or vm.mem.heap j 0)
    × ((j : ℕ) → i + 4 ≤ j → get_or vm'.mem.heap j 0 ≡ get_or vm.mem.heap j 0)

module _ (vm : Vm) (before after xs ys : List Block) (n w : ℕ) (holds : Holds vm.mem before after)
    (split : before ++ after ≡ xs ++ (used n w ∷ ys)) where
  abbrev array : ℕ
  array = extent xs + 2

  -- The words of the array lie in its blocks, and these in the heap.
  in_blocks : (array + (w * 4 - 2) ≤ extent xs + n * 8) × (extent xs + n * 8 ≤ 8192)
  in_blocks =
      let filled : extent (xs ++ (used n w ∷ ys)) ≡ 8192 = rw (← split) holds.filled in
      let (_, ((_, _, _, run), _)) =
        Layout-split vm.mem.heap 0 xs (used n w ∷ ys) (rw split at holds.tags) in
      (omega (arith, run), omega (arith, extent-append xs (used n w ∷ ys)))

  run_positive : 0 < w
  run_positive =
      let (_, ((_, _, _, run), _)) =
        Layout-split vm.mem.heap 0 xs (used n w ∷ ys) (rw split at holds.tags) in
      run.positive

  in_heap : array + (w * 4 - 2) ≤ 8192
  in_heap = omega (arith, in_blocks)

  size_lem : get_blocksize vm.mem array ≡ done (w * 4 - 2)
  unfolding get_blocksize
  size_lem =
      let same : (0x8000 + extent xs + 2) % 0x8000 ≡ array % 0x8000 = omega (arith, in_heap) in
      rw (← same)
        (unfold get_blocksize in get_blocksize_lem vm.mem before after xs ys n w holds split)

  -- An offset below the size is accepted, if the four bytes from there on lie in the heap.
  set_accepted :
      (len offset v : ℕ)
      → offset < w * 4 - 2
      → array + offset + 4 ≤ 8192
      → set_elem len array offset v vm ≡ done (next, stored vm len (array + offset) v)
  unfolding set_elem heap_index write_heap
  set_accepted len offset v accepted inside =
      rw size_lem (ground (arith, in_heap, holds.sized, length-bytes_of 4 v, size_lem))

  stored-Holds :
      (len offset v : ℕ)
      → offset + 4 ≤ w * 4 - 2
      → Holds (stored vm len (array + offset) v).mem before after
  stored-Holds len offset v inside = record {
    sized = length-overwrite vm.mem.heap (array + offset) (bytes_of 4 v) ∙ holds.sized;
    filled = holds.filled;
    tags = rw split (
        Layout-overwrite vm.mem.heap xs ys n w (array + offset) (bytes_of 4 v) (omega arith)
          (omega (arith, in_blocks, length-bytes_of 4 v)) (rw split at holds.tags));
    start = holds.start;
  }

  get_inside :
      (len offset x : ℕ)
      → offset + 4 ≤ w * 4 - 2
      → load 4 (array + offset) vm.mem.heap ≡ done x
      → get_elem len array offset vm ≡ (push x >> advance len) vm
  unfolding get_elem heap_index push
  get_inside len offset x inside e = rw size_lem (ground (arith, in_heap, size_lem))

  -- On the address of an allocated run of the heap, a write or a read at an offset from the size of
  -- the run on, up to INT32_MAX, ends with NB_ERROR and the message, and changes nothing else.
  pub set_elem_outside :
      (len offset v : ℕ)
      → w * 4 - 2 ≤ offset
      → offset < 2147483648
      → (set_elem len array offset v vm
          ≡ done (return_vm nb_error, record vm { printed = out_of_bounds ∷ vm.printed }))
        × (get_elem len array offset vm
            ≡ done (return_vm nb_error, record vm { printed = out_of_bounds ∷ vm.printed }))
  unfolding set_elem get_elem
  set_elem_outside len offset v outside small = (
    rw size_lem (ground (arith, in_heap, size_lem)),
    rw size_lem (ground (arith, in_heap, size_lem)),
  )

  heap_index_negative :
      (k : ℕ) → 0 < k → k ≤ array → heap_index array (4294967296 - k) ≡ done (array - k)
  unfolding heap_index
  heap_index_negative k pos below =
      let back : 4294967296 - (4294967296 - k) ≡ k = omega (arith, in_heap) in
      ground (arith, in_heap, back)

  -- If the run of an array is full of words and does not end the heap, then a write at the offset 2
  -- below the size goes on, and the byte behind the run, the tag of the next block, becomes the
  -- third byte of the number.
  pub set_elem_overlap :
      (len v : ℕ)
      → w ≡ n * 2
      → extent xs + n * 8 < 8192
      → Returns
          (set_elem len array (w * 4 - 4) v vm)
          (λ r. (r.0 ≡ next) × (get_or r.1.mem.heap (extent xs + n * 8) 0 ≡ v / 65536 % 256))
  unfolding bytes_of
  set_elem_overlap len v full follows =
      let i = array + (w * 4 - 4) in
      let pos = run_positive in
      let second : extent xs + n * 8 - i ≡ 2 = omega (arith, pos) in
      let room : i + 4 ≤ 8192 = omega (arith, extent_mod xs, pos) in
      rw (set_accepted len (w * 4 - 4) v (omega (arith, pos)) room) (
        refl,
        get_or-overwrite_in vm.mem.heap i (bytes_of 4 v) (extent xs + n * 8) 0
              (omega (arith, holds.sized, room, length-bytes_of 4 v)) (omega (arith, pos))
              (omega (arith, pos, length-bytes_of 4 v))
            ∙ ap (λ t. get_or (bytes_of 4 v) t 0) second
            ∙ omega arith,
      )

  -- On the address of an allocated run of the heap, a write at an offset -k is not refused for any
  -- k above 0 up to the address of the array: it overwrites the four heap bytes that begin k bytes
  -- before the array.
  pub set_elem_negative :
      (len k v : ℕ)
      → 0 < k
      → k ≤ array
      → set_elem len array (4294967296 - k) v vm ≡ done (next, stored vm len (array - k) v)
  unfolding set_elem write_heap
  set_elem_negative len k v pos below =
      let passes : sle (w * 4 - 2) (4294967296 - k) ≡ false = ground (arith, in_heap) in
      rw (size_lem, passes, heap_index_negative k pos below)
        (ground (arith, in_heap, holds.sized, length-bytes_of 4 v, extent_mod xs))

-- On the address of an allocated run of the heap, a write of a 32-bit number at an offset with four
-- bytes below the size goes on, and keeps the blocks of the heap and every other byte; a read at
-- the same offset then pushes the number and goes on.
pub get_elem-set_elem :
    (vm : Vm) (before after xs ys : List Block) (n w len offset v : ℕ)
    → Holds vm.mem before after
    → before ++ after ≡ xs ++ (used n w ∷ ys)
    → IsWord v
    → offset + 4 ≤ w * 4 - 2
    → Returns (set_elem len (extent xs + 2) offset v vm) (λ r.
      (r.0 ≡ next)
      × Holds r.1.mem before after
      × OtherBytes vm r.1 (extent xs + 2 + offset)
      × (get_elem len (extent xs + 2) offset r.1 ≡ (push v >> advance len) r.1))
get_elem-set_elem vm before after xs ys n w len offset v holds split word inside =
    let i = extent xs + 2 + offset in
    let holds' = stored-Holds vm before after xs ys n w holds split len offset v inside in
    let fits = in_heap vm before after xs ys n w holds split in
    rw
      (set_accepted vm before after xs ys n w holds split len offset v (omega arith)
        (omega (arith, fits)))
      (
        refl,
        holds',
        (
          λ j lt. get_or-overwrite_below vm.mem.heap i (bytes_of 4 v) j 0 lt,
          λ j le. get_or-overwrite_above vm.mem.heap i (bytes_of 4 v) j 0 (rw length-bytes_of le),
        ),
        get_inside (stored vm len i v) before after xs ys n w holds' split len offset v inside
            (load-bytes_of vm.mem.heap i v (omega (arith, fits, holds.sized)) word),
      )
