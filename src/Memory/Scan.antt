-- ===== src/Memory/Scan.antt =====
-- The search of `nc_mem_alloc` (src/nc_memory.c), first on the list of blocks: the first run of
-- enough free blocks, and what it means that there is none.
use nanoc.Base.{
  ℕ, zero, suc, ◌+◌, ◌*◌, ◌<◌, ◌≡◌, refl, ap, ◌⊎◌, inl, inr, Bool, true, false, ◌||◌, Bool-cases,
  List, [], ◌∷◌, ◌++◌, arith, ◌==◌, if◌then◌else◌, replicate,
}
use mathlib.Core.List.{append_assoc}
use nanoc.Memory.Layout.{Block, vacant, used, extent, extent-append, extent-replicate}

-- The first `n` blocks are free; some `n` blocks in a row are free.
unfoldable pub starts_free : ℕ → List Block → Bool
starts_free zero bs = true
starts_free (suc n) [] = false
starts_free (suc n) (vacant ∷ bs) = starts_free n bs
starts_free (suc n) (used k w ∷ bs) = false

unfoldable pub has_room : ℕ → List Block → Bool
has_room n [] = starts_free n []
has_room n (b ∷ bs) = starts_free n (b ∷ bs) || has_room n bs

-- What a search ends with: the index of the run and the search start left behind, or only that.
pub data Hit : Type 0 where
  hit miss : ℕ → Hit

-- The search at index `i`, after a run of `count` free blocks that began at `start`, with the
-- search start `from`.
unfoldable pub scan : ℕ → ℕ → ℕ → ℕ → ℕ → List Block → Hit
scan n i start count from [] = miss from
scan n i start zero from (vacant ∷ bs) =
    let rest = scan n (i + 8) i 1 i bs in if n == 1 then hit i else rest
scan n i start (suc count) from (vacant ∷ bs) =
    let rest = scan n (i + 8) start (suc (suc count)) from bs in
    if suc (suc count) == n then hit start else rest
scan n i start count from (used k w ∷ bs) = scan n (i + k * 8) 0 0 from bs

replicate-snoc :
    (n : ℕ) (bs : List Block)
    → replicate n vacant ++ (vacant ∷ bs) ≡ vacant ∷ (replicate n vacant ++ bs)
replicate-snoc zero bs = refl
replicate-snoc (suc n) bs = ap (λ t. vacant ∷ t) (replicate-snoc n bs)

-- A found run lies where the search says, as a run of `n` free blocks.
abbrev pub Found : ℕ → ℕ → List Block → ℕ → Type 0
Found n base bs s =
    (x : List Block) × (y : List Block) × (bs ≡ x ++ (replicate n vacant ++ y))
    × (s ≡ base + extent x)

hit-injective : (a b : ℕ) → hit a ≡ hit b → a ≡ b
hit-injective a b e = cc

Found-after_run :
    (n base k w c s : ℕ) (bs : List Block)
    → Found n (base + c * 8 + k * 8) bs s
    → Found n base (replicate c vacant ++ (used k w ∷ bs)) s
Found-after_run n base k w c s bs (x, y, e, at) = (
  replicate c vacant ++ (used k w ∷ x),
  y,
  rw (e, append_assoc) refl,
  omega (arith, extent-append (replicate c vacant) (used k w ∷ x), extent-replicate c),
)

pub scan-Found :
    (n base i start count from : ℕ) (bs : List Block) (s : ℕ)
    → count < n
    → base + count * 8 ≡ i
    → (start ≡ base) ⊎ (count ≡ 0)
    → scan n i start count from bs ≡ hit s
    → Found n base (replicate count vacant ++ bs) s
unfolding scan
scan-Found n base i start count from [] s lt e b h = absurd (cc)
scan-Found n base i start zero from (vacant ∷ bs) s lt e b h = elim (Bool-cases (n == 1)) [
  | inl one ↦
      let size : n ≡ 1 = ground arith in
      let at : i ≡ s = hit-injective i s (rw one at h) in ([], bs, rw size refl, omega arith)
  | inr more ↦
      scan-Found n base (i + 8) i 1 i bs s (ground arith) (omega arith) (inl (omega arith))
        (rw more at h)
]
scan-Found n base i start (suc count) from (vacant ∷ bs) s lt e b h =
    elim (Bool-cases (suc (suc count) == n)) [
      | inl full ↦
          let size : n ≡ suc (suc count) = ground arith in
          let at : start ≡ s = hit-injective start s (rw full at h) in
          ([], bs, rw size (ap (λ t. vacant ∷ t) (replicate-snoc count bs)), ground arith)
      | inr more ↦ rw replicate-snoc (
          scan-Found n base (i + 8) start (suc (suc count)) from bs s (ground arith) (omega arith)
            (ground arith) (rw more at h))
    ]
scan-Found n base i start count from (used k w ∷ bs) s lt e b h =
    Found-after_run n base k w count s bs (
      rw e (
        scan-Found n (i + k * 8) (i + k * 8) 0 0 from bs s (omega arith) (omega arith) (inr refl)
          h))

starts_free-used :
    (n c k w : ℕ) (bs : List Block)
    → c < n
    → starts_free n (replicate c vacant ++ (used k w ∷ bs)) ≡ false
unfolding starts_free
starts_free-used zero c k w bs lt = absurd (omega arith)
starts_free-used (suc n) zero k w bs lt = refl
starts_free-used (suc n) (suc c) k w bs lt = starts_free-used n c k w bs (omega arith)

-- A run of too few free blocks before an allocated one makes no room.
has_room-used :
    (n c k w : ℕ) (bs : List Block)
    → c < n
    → has_room n (replicate c vacant ++ (used k w ∷ bs)) ≡ has_room n bs
unfolding has_room
has_room-used n zero k w bs lt = rw (starts_free-used n 0 k w bs lt) refl
has_room-used n (suc c) k w bs lt =
    rw (starts_free-used n (suc c) k w bs lt) (has_room-used n c k w bs (omega arith))

starts_free_short : (n c : ℕ) → c < n → starts_free n (replicate c vacant ++ []) ≡ false
unfolding starts_free
starts_free_short zero c lt = absurd (omega arith)
starts_free_short (suc n) zero lt = refl
starts_free_short (suc n) (suc c) lt = starts_free_short n c (omega arith)

has_room_short : (n c : ℕ) → c < n → has_room n (replicate c vacant ++ []) ≡ false
unfolding has_room
has_room_short n zero lt = starts_free_short n 0 lt
has_room_short n (suc c) lt = rw (starts_free_short n (suc c) lt) (has_room_short n c (omega arith))

-- A search that finds nothing has seen no room.
pub scan_missed :
    (n i start count from : ℕ) (bs : List Block) (f : ℕ)
    → count < n
    → scan n i start count from bs ≡ miss f
    → has_room n (replicate count vacant ++ bs) ≡ false
unfolding scan
scan_missed n i start count from [] f lt h = has_room_short n count lt
scan_missed n i start zero from (vacant ∷ bs) f lt h = elim (Bool-cases (n == 1)) [
  | inl one ↦ absurd (ground arith)
  | inr more ↦ scan_missed n (i + 8) i 1 i bs f (ground arith) (rw more at h)
]
scan_missed n i start (suc count) from (vacant ∷ bs) f lt h =
    elim (Bool-cases (suc (suc count) == n)) [
      | inl full ↦ absurd (ground arith)
      | inr more ↦
          rw replicate-snoc
            (scan_missed n (i + 8) start (suc (suc count)) from bs f (ground arith) (rw more at h))
    ]
scan_missed n i start count from (used k w ∷ bs) f lt h =
    rw (has_room-used n count k w bs lt) (scan_missed n (i + k * 8) 0 0 from bs f (omega arith) h)

-- The search start that a miss leaves behind lies between two blocks.
pub scan_from :
    (n i start count from : ℕ) (bs : List Block) (f : ℕ)
    → scan n i start count from bs ≡ miss f
    → (f ≡ from) ⊎ ((x : List Block) × (y : List Block) × (bs ≡ x ++ y) × (f ≡ i + extent x))
unfolding scan
scan_from n i start count from [] f h = inl (ground arith)
scan_from n i start zero from (vacant ∷ bs) f h = elim (Bool-cases (n == 1)) [
  | inl one ↦ absurd (ground arith)
  | inr more ↦ elim (scan_from n (i + 8) i 1 i bs f (rw more at h)) [
    | inl e ↦ inr ([], vacant ∷ bs, refl, omega arith)
    | inr (x, y, e, at) ↦ inr (vacant ∷ x, y, rw e refl, omega arith)
  ]
]
scan_from n i start (suc count) from (vacant ∷ bs) f h = elim (Bool-cases (suc (suc count) == n)) [
  | inl full ↦ absurd (ground arith)
  | inr more ↦ elim (scan_from n (i + 8) start (suc (suc count)) from bs f (rw more at h)) [
    | inl e ↦ inl e
    | inr (x, y, e, at) ↦ inr (vacant ∷ x, y, rw e refl, omega arith)
  ]
]
scan_from n i start count from (used k w ∷ bs) f h =
    elim (scan_from n (i + k * 8) 0 0 from bs f h) [
      | inl e ↦ inl e
      | inr (x, y, e, at) ↦ inr (used k w ∷ x, y, rw e refl, omega arith)
    ]
