-- ===== src/Memory/Free.antt =====
-- `nc_mem_free` and `nc_mem_get_blocksize` of src/nc_memory.c on the blocks.
use mathlib.Core.List.{append_assoc}
use native.Mathlib.Decide.{dec_le}
use nanoc.Base.{
  ℕ, zero, suc, ◌+◌, ◌-◌, ◌*◌, ◌%◌, ◌≤◌, ◌<◌, ◌≡◌, refl, ap, sym, ◌∙◌, List, [], ◌∷◌, ◌++◌, arith,
  min, replicate, length, get_or, set, get_elem?-eq-get_or, length-set, get_or-set_self,
  get_or-set_ne, done, Returns,
}
use nanoc.Base.Word.{u16}
use nanoc.Memory.{Mem, read, write, clear_tags, free, get_blocksize}
use nanoc.Memory.Layout.{
  Block, vacant, used, width, extent, IsRun, Layout, Holds, extent-append, extent-replicate,
  Layout-at, Layout-split, Layout-join, Layout-set, Untouched-below, Untouched-above,
}

cleared : ℕ → ℕ → List ℕ → List ℕ
cleared zero p h = h
cleared (suc n) p h = cleared n (p + 8) (set h p 0)

length-cleared : (n p : ℕ) (h : List ℕ) → length (cleared n p h) ≡ length h
unfolding cleared
length-cleared zero p h = refl
length-cleared (suc n) p h = length-cleared n (p + 8) (set h p 0) ∙ length-set h p 0

clear_tags_lem :
    (n p : ℕ) (m : Mem)
    → p + n * 8 ≤ length m.heap
    → clear_tags n p m ≡ done (record m { heap = cleared n p m.heap })
unfolding clear_tags cleared write
clear_tags_lem zero p m h = refl
clear_tags_lem (suc n) p m h =
    ground
      (arith, length-set m.heap p 0, clear_tags_lem n (p + 8) (record m { heap = set m.heap p 0 }))

get_or-cleared : (n p j : ℕ) (h : List ℕ) → j < p → get_or (cleared n p h) j 0 ≡ get_or h j 0
unfolding cleared
get_or-cleared zero p j h lt = refl
get_or-cleared (suc n) p j h lt =
    get_or-cleared n (p + 8) j (set h p 0) (omega arith) ∙ get_or-set_ne h p j 0 0 (omega arith)

-- The cleared blocks are free.
Layout-cleared :
    (n p : ℕ) (h : List ℕ) → p + n * 8 ≤ length h → Layout (cleared n p h) p (replicate n vacant)
unfolding cleared
Layout-cleared zero p h fits = tt
Layout-cleared (suc n) p h fits = (
  get_or-cleared n (p + 8) p (set h p 0) (omega arith) ∙ get_or-set_self h p 0 0 (omega arith),
  Layout-cleared n (p + 8) (set h p 0) (rw length-set (omega arith)),
)

-- The blocks before and after them are as they were.
Layout-cleared_before :
    (n p q : ℕ) (h : List ℕ) (bs : List Block)
    → q + extent bs ≤ p
    → Layout h q bs
    → Layout (cleared n p h) q bs
unfolding cleared
Layout-cleared_before zero p q h bs le l = l
Layout-cleared_before (suc n) p q h bs le l =
    Layout-cleared_before n (p + 8) q (set h p 0) bs (omega arith)
      (Layout-set h p 0 q bs (Untouched-above h p q bs le l) l)

Layout-cleared_after :
    (n p q : ℕ) (h : List ℕ) (bs : List Block)
    → p + n * 8 ≤ q
    → Layout h q bs
    → Layout (cleared n p h) q bs
unfolding cleared
Layout-cleared_after zero p q h bs le l = l
Layout-cleared_after (suc n) p q h bs le l =
    Layout-cleared_after n (p + 8) q (set h p 0) bs (omega arith)
      (Layout-set h p 0 q bs (Untouched-below h p q bs (omega arith) l) l)

-- Two splits of one sequence of blocks: the shorter front is a front of the longer one.
front_of :
    (h : List ℕ) (p : ℕ) (xs ys us vs : List Block)
    → Layout h p (xs ++ ys)
    → xs ++ ys ≡ us ++ vs
    → extent xs ≤ extent us
    → (z : List Block) × (us ≡ xs ++ z)
front_of h p [] ys us vs l e le = (us, refl)
front_of h p (vacant ∷ xs) ys [] vs l e le = absurd (omega arith)
front_of h p (used n w ∷ xs) ys [] vs ((_, pos, _, _), _) e le = absurd (omega arith)
front_of h p (x ∷ xs) ys (u ∷ us) vs (_, l) e le =
    let same : x ≡ u = ground arith in
    let same_width : width x ≡ width u = ap width same in
    let (z, q) = front_of h (p + width x) xs ys us vs l (ground arith) (omega arith) in
    (z, ground arith)

-- What `nc_mem_free` did with the run between `xs` and `ys`: its blocks are free, all others as
-- before, and the search for free memory starts at it, if it did not start below it.
abbrev pub Freed : Mem → List Block → ℕ → List Block → Mem → Type 0
Freed m xs n ys m' =
    (m'.mem_start_addr ≡ min m.mem_start_addr (extent xs))
    × ((before : List Block) × (after : List Block) × (before ++ after
          ≡ xs ++ (replicate n vacant ++ ys))
        × Holds m' before after)

module _ (m : Mem) (before after xs ys : List Block) (n w : ℕ) (holds : Holds m before after)
    (split : before ++ after ≡ xs ++ (used n w ∷ ys)) where
  abbrev s : ℕ
  s = extent xs

  sum : s + (n * 8 + extent ys) ≡ 8192
  sum =
      let filled : extent (xs ++ (used n w ∷ ys)) ≡ 8192 = rw (← split) holds.filled in
      omega (arith, extent-append xs (used n w ∷ ys))

  freed_heap : List ℕ
  freed_heap = cleared n s m.heap

  parts : Layout m.heap 0 xs × Layout m.heap s (used n w ∷ ys)
  parts =
      let (a, b) = Layout-split m.heap 0 xs (used n w ∷ ys) (rw split at holds.tags) in
      (a, Layout-at m.heap (used n w ∷ ys) (0 + s) s (omega arith) b)

  freed_tags : Layout freed_heap 0 (xs ++ (replicate n vacant ++ ys))
  unfolding freed_heap
  freed_tags =
      let (lx, (hd, ly)) = parts in
      let mid : Layout freed_heap s (replicate n vacant) =
        Layout-cleared n s m.heap (omega (arith, holds.sized, sum)) in
      let low = Layout-cleared_before n s 0 m.heap xs (omega arith) lx in
      let high = Layout-cleared_after n s (s + n * 8) m.heap ys (omega arith) ly in
      Layout-join freed_heap 0 xs (replicate n vacant ++ ys) low (
        Layout-at freed_heap (replicate n vacant ++ ys) s (0 + s) (omega arith) (
          Layout-join freed_heap s (replicate n vacant) ys mid (
            Layout-at freed_heap ys (s + n * 8) (s + extent (replicate n vacant))
              (omega (arith, extent-replicate n)) high)))

  freed_size : extent (xs ++ (replicate n vacant ++ ys)) ≡ 8192
  freed_size = omega (
    arith,
    sum,
    extent-append xs (replicate n vacant ++ ys),
    extent-append (replicate n vacant) ys,
    extent-replicate n,
  )

  abbrev freed : Mem
  freed = record { heap = freed_heap; mem_start_addr = min m.mem_start_addr s }

  freed_sized : length freed_heap ≡ 8192
  unfolding freed_heap
  freed_sized = length-cleared n s m.heap ∙ holds.sized

  freed-Freed : Freed m xs n ys freed
  freed-Freed = (
    refl,
    elim (dec_le m.mem_start_addr s) [
      | yes le ↦
          let (z, e) =
            front_of m.heap 0 before after xs (used n w ∷ ys) holds.tags split
              (omega (arith, holds.start)) in
          let regroup : before ++ (z ++ (replicate n vacant ++ ys))
              ≡ xs ++ (replicate n vacant ++ ys) =
            rw e (sym (append_assoc before z (replicate n vacant ++ ys))) in
          (
            before,
            z ++ (replicate n vacant ++ ys),
            regroup,
            record {
              sized = freed_sized;
              filled = rw regroup freed_size;
              tags = rw regroup freed_tags;
              start = omega (arith, holds.start);
            },
          )
      | no gt ↦ (
        xs,
        replicate n vacant ++ ys,
        refl,
        record { sized = freed_sized; filled = freed_size; tags = freed_tags; start = omega arith },
      )
    ],
  )

  index : u16 ((0x8000 + s + 2) % 0x8000 + 65536 - 2) ≡ s
  index = omega (arith, sum)

  IsRun-fits : IsRun n w × (0 < n)
  IsRun-fits = let (_, ((_, pos, _, run), _)) = parts in (run, pos)

  free_run : free m (0x8000 + s + 2) ≡ done freed
  unfolding free freed_heap
  free_run =
      let (_, ((tag, _, _, _), _)) = parts in
      let in_reach : s < 8192 = omega (arith, sum, IsRun-fits) in
      let got : read m s ≡ done n = ground (arith, get_elem?-eq-get_or m.heap s 0, holds.sized) in
      rw index (ground (arith, got, clear_tags_lem n s m, holds.sized, sum))

  -- On a heap that is a sequence of blocks, nc_mem_free of the address of an allocated run returns;
  -- the blocks of that run are free and all others as before, and the search start is the smaller
  -- of the old one and the run.
  pub free-Freed : Returns (free m (0x8000 + s + 2)) (Freed m xs n ys)
  free-Freed = rw free_run freed-Freed

  -- On a heap that is a sequence of blocks, nc_mem_get_blocksize of the address of an allocated run
  -- with w words returns 4 * w - 2.
  pub get_blocksize_lem : get_blocksize m (0x8000 + s + 2) ≡ done (w * 4 - 2)
  unfolding get_blocksize
  get_blocksize_lem =
      let (_, ((_, _, words, _), _)) = parts in
      let in_reach : s + 1 < 8192 = omega (arith, sum, IsRun-fits) in
      let got : read m (s + 1) ≡ done w =
        ground (arith, get_elem?-eq-get_or m.heap (s + 1) 0, holds.sized) in
      rw (index, got) (ap done (omega (arith, IsRun-fits)))
