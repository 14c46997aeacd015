-- ===== src/Memory/Alloc.antt =====
-- `nc_mem_alloc` of src/nc_memory.c: its loop over the heap is the search on the blocks, and the
-- run that it returns was free.
use Prim.Native.Nat.add
use nanoc.Base.{
  ℕ, zero, suc, ◌+◌, ◌-◌, ◌*◌, ◌≤◌, ◌<◌, ◌≡◌, refl, ap, sym, ◌∙◌, ◌⊎◌, inl, inr, false, Bool-cases,
  leb_le, List, [], ◌∷◌, ◌++◌, arith, ◌==◌, if◌then◌else◌, replicate, length, get_or, set,
  get_elem?-eq-get_or, length-set, get_or-set_self, get_or-set_ne, Run, done, Returns,
}
use mathlib.Core.List.{append_assoc, append-nil}
use nanoc.Memory.{Mem, num_blocks, num_words, rounds, read, write, claim, alloc_loop, alloc}
use nanoc.Memory.Layout.{
  Block, vacant, used, extent, IsRun, Layout, Holds, extent-append, extent-replicate, extent_mod,
  Layout-at, Layout-split, Layout-join, Layout-set, Untouched-below, Untouched-above,
}
use nanoc.Memory.Scan.{Hit, hit, miss, scan, scan-Found, scan_missed, scan_from, has_room}

-- What the loop does, given what the search on the blocks finds.
abbrev outcome : ℕ → Mem → Hit → Run (ℕ × Mem)
outcome bytes m (hit s) = claim bytes s (record m { mem_start_addr = s })
outcome bytes m (miss f) = done (0, record m { mem_start_addr = f })

-- Blocks of an allocated run are passed over.
skip_lem :
    (bytes k left i start count : ℕ) (m : Mem)
    → alloc_loop bytes (k + left) i start count k m
      ≡ alloc_loop bytes left (i + k * 8) start count 0 m
unfolding alloc_loop
skip_lem bytes zero left i start count m = ground arith
skip_lem bytes (suc k) left i start count m =
    rw add.suc (ground (arith, skip_lem bytes k left (i + 8) start count m))

tag_lem : (m : Mem) (i n : ℕ) → i < length m.heap → get_or m.heap i 0 ≡ n → read m i ≡ done n
tag_lem m i n h e = ground (arith, get_elem?-eq-get_or m.heap i 0)

module _ (bytes : ℕ) where
  -- One round of the loop at an allocated run, and at a free block.
  round_used :
      (left i start count n : ℕ) (m : Mem)
      → read m i ≡ done n
      → 0 < n
      → alloc_loop bytes (suc left) i start count 0 m ≡ alloc_loop bytes left (i + 8) 0 0 (n - 1) m
  unfolding alloc_loop
  round_used left i start count n m e pos = rw e (ground arith)

  round_begins :
      (left i start : ℕ) (m : Mem)
      → read m i ≡ done 0
      → alloc_loop bytes (suc left) i start 0 0 m ≡ (
          if num_blocks bytes == 1
          then claim bytes i (record m { mem_start_addr = i })
          else alloc_loop bytes left (i + 8) i 1 0 (record m { mem_start_addr = i }))
  unfolding alloc_loop
  round_begins left i start m e = rw e refl

  round_grows :
      (left i start count : ℕ) (m : Mem)
      → read m i ≡ done 0
      → alloc_loop bytes (suc left) i start (suc count) 0 m ≡ (
          if suc count + 1 == num_blocks bytes
          then claim bytes start m
          else alloc_loop bytes left (i + 8) start (suc count + 1) 0 m)
  unfolding alloc_loop
  round_grows left i start count m e = rw e (ground arith)

  restarted : (s : ℕ) (m : Mem) → m.mem_start_addr ≡ s → record m { mem_start_addr = s } ≡ m
  restarted s m e = ground arith

  -- The loop does what the search on the blocks says.
  loop_lem :
      (left i start count : ℕ) (bs : List Block) (m : Mem)
      → length m.heap ≡ 8192
      → i + extent bs ≡ 8192
      → left * 8 ≡ extent bs
      → Layout m.heap i bs
      → count < num_blocks bytes
      → (count ≡ 0) ⊎ (m.mem_start_addr ≡ start)
      → alloc_loop bytes left i start count 0 m
        ≡ outcome bytes m (scan (num_blocks bytes) i start count m.mem_start_addr bs)
  unfolding scan
  loop_lem zero i start count [] m sized ends len l lt at = unfold alloc_loop in refl
  loop_lem (suc left) i start count [] m sized ends len l lt at = absurd (omega arith)
  loop_lem zero i start count (vacant ∷ bs) m sized ends len l lt at = absurd (omega arith)
  loop_lem zero i start count (used n w ∷ bs) m sized ends len l lt at = absurd (omega arith)
  loop_lem (suc left) i start zero (vacant ∷ bs) m sized ends len (hd, l) lt at =
      let ih =
        loop_lem left (i + 8) i 1 bs (record m { mem_start_addr = i }) sized (omega arith)
          (omega arith) l in
      rw (round_begins left i start m (tag_lem m i 0 (omega arith) hd))
        (elim (Bool-cases (num_blocks bytes == 1)) [
          | inl one ↦ rw one refl
          | inr more ↦ rw more (ih (ground arith) (inr refl))
        ])
  loop_lem (suc left) i start (suc count) (vacant ∷ bs) m sized ends len (hd, l) lt at =
      let same : m.mem_start_addr ≡ start = ground arith in
      let ih =
        loop_lem left (i + 8) start (suc (suc count)) bs m sized (omega arith) (omega arith) l in
      let round = round_grows left i start count m (tag_lem m i 0 (omega arith) hd) in
      elim (Bool-cases (suc (suc count) == num_blocks bytes)) [
        | inl full ↦
            rw full (ground (arith, round, ap (claim bytes start) (restarted start m same)))
        | inr more ↦ rw more (ground (arith, round, ih (ground arith) (inr same)))
      ]
  loop_lem (suc left) i start count (used n w ∷ bs) m sized ends len ((a, b, c, d), l) lt at =
      let reached =
        loop_lem (suc left - n) (i + n * 8) 0 0 bs m sized (omega arith) (omega arith) l
          (omega arith) (inl refl) in
      let split : left ≡ n - 1 + (suc left - n) = omega arith in
      ground (
        arith,
        round_used left i start count n m (tag_lem m i n (omega arith) a) b,
        ap (λ k. alloc_loop bytes k (i + 8) 0 0 (n - 1) m) split,
        skip_lem bytes (n - 1) (suc left - n) (i + 8) 0 0 m,
        reached,
      )

-- The header of a run of `n` free blocks written: the run is allocated, the rest is as before.
Layout-claim :
    (h : List ℕ) (n w : ℕ) (xs ys : List Block)
    → IsRun n w
    → length h ≡ 8192
    → extent (xs ++ (replicate n vacant ++ ys)) ≡ 8192
    → Layout h 0 (xs ++ (replicate n vacant ++ ys))
    → Layout (set (set h (extent xs) n) (extent xs + 1) w) 0 (xs ++ (used n w ∷ ys))
Layout-claim h n w xs ys run sized filled l =
    let s = extent xs in
    let h₁ = set h s n in
    let h₂ = set h₁ (s + 1) w in
    let inside : s + n * 8 ≤ 8192 = omega (
      arith,
      extent-append xs (replicate n vacant ++ ys),
      extent-append (replicate n vacant) ys,
      extent-replicate n,
    ) in
    let room : s + 1 < s + n * 8 = omega (arith, run) in
    let (lx, lrest) = Layout-split h 0 xs (replicate n vacant ++ ys) l in
    let (_, ly₀) = Layout-split h (0 + s) (replicate n vacant) ys lrest in
    let ly : Layout h (s + n * 8) ys =
      Layout-at h ys _ (s + n * 8) (omega (arith, extent-replicate n)) ly₀ in
    let lx₁ : Layout h₁ 0 xs =
      Layout-set h s n 0 xs (Untouched-above h s 0 xs (omega arith) lx) lx in
    let lx₂ : Layout h₂ 0 xs =
      Layout-set h₁ (s + 1) w 0 xs (Untouched-above h₁ (s + 1) 0 xs (omega arith) lx₁) lx₁ in
    let ly₁ : Layout h₁ (s + n * 8) ys =
      Layout-set h s n (s + n * 8) ys (Untouched-below h s (s + n * 8) ys (omega arith) ly) ly in
    let ly₂ : Layout h₂ (s + n * 8) ys =
      Layout-set h₁ (s + 1) w (s + n * 8) ys
        (Untouched-below h₁ (s + 1) (s + n * 8) ys (omega arith) ly₁) ly₁ in
    let tag : get_or h₂ s 0 ≡ n =
      get_or-set_ne h₁ (s + 1) s w 0 (omega arith) ∙ get_or-set_self h s n 0 (omega arith) in
    let words : get_or h₂ (s + 1) 0 ≡ w =
      get_or-set_self h₁ (s + 1) w 0 (rw length-set (omega arith)) in
    Layout-join h₂ 0 xs (used n w ∷ ys) lx₂ (
      Layout-at h₂ (used n w ∷ ys) s (0 + s) (omega arith)
        ((tag, omega (arith, run), words, run), ly₂))

-- What `nc_mem_alloc` did. Either it returned 0: there is no room after the search start, and no
-- byte of the heap has changed. Or it returned the address of a run of blocks that were free, and
-- the heap now holds an allocated run there, with all other blocks as before.
abbrev pub Allocated : Mem → List Block → List Block → ℕ → ℕ × Mem → Type 0
Allocated m before after bytes (a, m') =
    ((a ≡ 0)
      × (has_room (num_blocks bytes) after ≡ false)
      × (m'.heap ≡ m.heap)
      × ((x : List Block) × (y : List Block) × (after ≡ x ++ y) × Holds m' (before ++ x) y))
    ⊎ ((x : List Block) × (y : List Block) × (after
          ≡ x ++ (replicate (num_blocks bytes) vacant ++ y))
        × (a ≡ 0x8000 + extent (before ++ x) + 2)
        × Holds m' (before ++ x) (used (num_blocks bytes) (num_words bytes) ∷ y))

claim_run :
    (bytes s : ℕ) (m : Mem)
    → s + 1 < length m.heap
    → claim bytes s m
      ≡ done (
        0x8000 + s + 2,
        record m { heap = set (set m.heap s (num_blocks bytes)) (s + 1) (num_words bytes) },
      )
unfolding claim write
claim_run bytes s m h = ground (arith, length-set m.heap s (num_blocks bytes))

module _ (m : Mem) (before after : List Block) (bytes : ℕ) (holds : Holds m before after)
    (fits : bytes ≤ 512) where
  IsRun-of_bytes : IsRun (num_blocks bytes) (num_words bytes)
  IsRun-of_bytes = omega arith

  search_lem :
      alloc m bytes
      ≡ outcome bytes m (scan (num_blocks bytes) m.mem_start_addr 0 0 m.mem_start_addr after)
  unfolding alloc
  search_lem = rw (leb_le bytes 512 fits) (
      loop_lem bytes (rounds m.mem_start_addr) m.mem_start_addr 0 0 after m holds.sized
        (omega (arith, extent-append before after, holds))
        (omega (arith, extent-append before after, extent_mod after, holds))
        (Layout-at m.heap after (0 + extent before) m.mem_start_addr (omega (arith, holds))
          (Layout-split m.heap 0 before after holds.tags).1)
        (omega arith) (inl refl))

  left_start :
      (f : ℕ)
      → (f ≡ m.mem_start_addr)
        ⊎ ((x : List Block) × (y : List Block) × (after ≡ x ++ y)
            × (f ≡ m.mem_start_addr + extent x))
      → (x : List Block) × (y : List Block) × (after ≡ x ++ y)
        × Holds (record m { mem_start_addr = f }) (before ++ x) y
  left_start f (inl e) = (
    [],
    after,
    refl,
    rw append-nil (record {
      sized = holds.sized;
      filled = holds.filled;
      tags = holds.tags;
      start = e ∙ holds.start;
    }),
  )
  left_start f (inr (x, y, e, at)) =
      let regroup : before ++ after ≡ (before ++ x) ++ y = rw e (sym (append_assoc before x y)) in
      (
        x,
        y,
        e,
        record {
          sized = holds.sized;
          filled = rw (← regroup) holds.filled;
          tags = rw regroup at holds.tags;
          start = omega (arith, extent-append before x, holds.start);
        },
      )

  -- On a run that the search found, the header is written and its address returned.
  claim_lem :
      (x y : List Block)
      → after ≡ x ++ (replicate (num_blocks bytes) vacant ++ y)
      → Returns
          (claim bytes (extent (before ++ x)) (record m { mem_start_addr = extent (before ++ x) }))
          (Allocated m before after bytes)
  claim_lem x y e =
      let regroup : before ++ after ≡ (before ++ x) ++ (replicate (num_blocks bytes) vacant ++ y) =
        rw e (sym (append_assoc before x (replicate (num_blocks bytes) vacant ++ y))) in
      let l = rw regroup at holds.tags in
      let size : extent ((before ++ x) ++ (replicate (num_blocks bytes) vacant ++ y)) ≡ 8192 =
        rw (← regroup) holds.filled in
      let laid =
        Layout-claim m.heap (num_blocks bytes) (num_words bytes) (before ++ x) y IsRun-of_bytes
          holds.sized size l in
      let s = extent (before ++ x) in
      let sum : s + num_blocks bytes * 8 + extent y ≡ 8192 = omega (
        arith,
        extent-append (before ++ x) (replicate (num_blocks bytes) vacant ++ y),
        extent-append (replicate (num_blocks bytes) vacant) y,
        extent-replicate (num_blocks bytes),
      ) in
      rw (claim_run bytes s (record m { mem_start_addr = s }) (omega (arith, holds.sized))) (
        inr (
          x,
          y,
          e,
          refl,
          record {
            sized =
                length-set (set m.heap s (num_blocks bytes)) (s + 1) (num_words bytes)
                ∙ length-set m.heap s (num_blocks bytes)
                ∙ holds.sized;
            filled = omega (
              arith,
              extent-append (before ++ x) (used (num_blocks bytes) (num_words bytes) ∷ y),
            );
            tags = laid;
            start = refl;
          },
        ))

  -- On a heap that is a sequence of blocks, nc_mem_alloc of at most 512 bytes returns: either 0,
  -- and there is no run of enough free blocks behind the search start, the heap bytes are
  -- unchanged, and the search start has moved over blocks only; or the address behind the header of
  -- a run that was free, now allocated with its numbers of blocks and words, and every other block
  -- is as before.
  pub alloc-Allocated : Returns (alloc m bytes) (Allocated m before after bytes)
  alloc-Allocated = rw search_lem (decide (scan n m.mem_start_addr 0 0 m.mem_start_addr after) refl)
    where
      n : ℕ
      n = num_blocks bytes

      decide :
          (r : Hit)
          → scan n m.mem_start_addr 0 0 m.mem_start_addr after ≡ r
          → Returns (outcome bytes m r) (Allocated m before after bytes)
      decide (hit s) e =
          let (x, y, split, at) =
            scan-Found n m.mem_start_addr m.mem_start_addr 0 0 m.mem_start_addr after s
              (omega arith) (omega arith) (inr refl) e in
          let place : s ≡ extent (before ++ x) =
            omega (arith, extent-append before x, holds.start) in
          rw place (claim_lem x y split)
      decide (miss f) e = inl (
        refl,
        scan_missed n m.mem_start_addr 0 0 m.mem_start_addr after f (omega arith) e,
        refl,
        left_start f (scan_from n m.mem_start_addr 0 0 m.mem_start_addr after f e),
      )
