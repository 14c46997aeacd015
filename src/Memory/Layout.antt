-- ===== src/Memory/Layout.antt =====
-- The heap of src/nc_memory.c as a sequence of blocks: what its tag bytes stand for.
use nanoc.Base.{
  ℕ, zero, suc, ◌+◌, ◌*◌, ◌%◌, ◌≤◌, ◌<◌, ◌≡◌, refl, ◌∙◌, ◌≢◌, List, [], ◌∷◌, ◌++◌, arith, length,
  get_or, set, get_or-set_ne, replicate, overwrite, get_or-overwrite_below, get_or-overwrite_above,
}
use mathlib.Core.Path.{subst}
use nanoc.Memory.{Mem}

-- A free block, or an allocated run of blocks with its two header bytes.
pub data Block : Type 0 where
  vacant : Block
  used : ℕ → ℕ → Block

abbrev pub width : Block → ℕ
width vacant = 8
width (used n w) = n * 8

abbrev pub extent : List Block → ℕ
extent [] = 0
extent (b ∷ bs) = width b + extent bs

-- An allocated run has words, which lie in its blocks, and its number of blocks is a byte.
pub record IsRun (n w : ℕ) : Type 0 where
  pub positive : 0 < w
  pub enough : w ≤ n * 2
  pub byte : n < 256

-- The header of an allocated run: it has blocks, and its words lie in them.
abbrev pub Header : List ℕ → ℕ → Block → Type 0
Header h p vacant = get_or h p 0 ≡ 0
Header h p (used n w) = (get_or h p 0 ≡ n) × (0 < n) × (get_or h (p + 1) 0 ≡ w) × IsRun n w

-- From index `p` on, the heap holds these blocks.
abbrev pub Layout : List ℕ → ℕ → List Block → Type 0
Layout h p [] = Unit
Layout h p (b ∷ bs) = Header h p b × Layout h (p + width b) bs

-- The whole heap holds the blocks `before` and `after`, and the search for free memory starts
-- between them.
pub record Holds (m : Mem) (before after : List Block) : Type 0 where
  pub sized : length m.heap ≡ 8192
  pub filled : extent (before ++ after) ≡ 8192
  pub tags : Layout m.heap 0 (before ++ after)
  pub start : m.mem_start_addr ≡ extent before

pub extent-append : (xs ys : List Block) → extent (xs ++ ys) ≡ extent xs + extent ys
extent-append [] ys = omega arith
extent-append (x ∷ xs) ys = omega (arith, extent-append xs ys)

pub extent-replicate : (n : ℕ) → extent (replicate n vacant) ≡ n * 8
extent-replicate zero = refl
extent-replicate (suc n) = omega (arith, extent-replicate n)

pub extent_mod : (bs : List Block) → extent bs % 8 ≡ 0
extent_mod [] = refl
extent_mod (vacant ∷ bs) = omega (arith, extent_mod bs)
extent_mod (used n w ∷ bs) = omega (arith, extent_mod bs)

pub Layout-at : (h : List ℕ) (bs : List Block) (p q : ℕ) → p ≡ q → Layout h p bs → Layout h q bs
Layout-at h bs p q e l = subst (λ t. Layout h t bs) e l

pub Layout-split :
    (h : List ℕ) (p : ℕ) (xs ys : List Block)
    → Layout h p (xs ++ ys)
    → Layout h p xs × Layout h (p + extent xs) ys
Layout-split h p [] ys l = (tt, Layout-at h ys p _ (omega arith) l)
Layout-split h p (x ∷ xs) ys (hd, l) =
    let (a, b) = Layout-split h (p + width x) xs ys l in
    ((hd, a), Layout-at h ys (p + width x + extent xs) _ (omega arith) b)

pub Layout-join :
    (h : List ℕ) (p : ℕ) (xs ys : List Block)
    → Layout h p xs
    → Layout h (p + extent xs) ys
    → Layout h p (xs ++ ys)
Layout-join h p [] ys l k = Layout-at h ys (p + 0) p (omega arith) k
Layout-join h p (x ∷ xs) ys (hd, l) k = (
  hd,
  Layout-join h (p + width x) xs ys l
      (Layout-at h ys (p + (width x + extent xs)) _ (omega arith) k),
)

-- Index `i` is no header byte of these blocks.
abbrev pub Untouched : ℕ → ℕ → List Block → Type 0
Untouched i p [] = Unit
Untouched i p (vacant ∷ bs) = (i ≢ p) × Untouched i (p + 8) bs
Untouched i p (used n w ∷ bs) = (i ≢ p) × (i ≢ p + 1) × Untouched i (p + n * 8) bs

-- A write to no header byte leaves the blocks as they are.
pub Layout-set :
    (h : List ℕ) (i v p : ℕ) (bs : List Block)
    → Untouched i p bs
    → Layout h p bs
    → Layout (set h i v) p bs
Layout-set h i v p [] u l = tt
Layout-set h i v p (vacant ∷ bs) (ne, u) (hd, l) =
    (get_or-set_ne h i p v 0 ne ∙ hd, Layout-set h i v (p + 8) bs u l)
Layout-set h i v p (used n w ∷ bs) (ne, ne', u) ((a, b, c, d), l) = (
  (get_or-set_ne h i p v 0 ne ∙ a, b, get_or-set_ne h i (p + 1) v 0 ne' ∙ c, d),
  Layout-set h i v (p + n * 8) bs u l,
)

-- An index below the blocks is none of their header bytes.
pub Untouched-below :
    (h : List ℕ) (i p : ℕ) (bs : List Block) → i < p → Layout h p bs → Untouched i p bs
Untouched-below h i p [] lt l = tt
Untouched-below h i p (vacant ∷ bs) lt (hd, l) =
    (omega arith, Untouched-below h i (p + 8) bs (omega arith) l)
Untouched-below h i p (used n w ∷ bs) lt (hd, l) =
    (omega arith, omega arith, Untouched-below h i (p + n * 8) bs (omega arith) l)

-- Nor is an index past them.
pub Untouched-above :
    (h : List ℕ) (i p : ℕ) (bs : List Block) → p + extent bs ≤ i → Layout h p bs → Untouched i p bs
Untouched-above h i p [] le l = tt
Untouched-above h i p (vacant ∷ bs) le (hd, l) =
    (omega arith, Untouched-above h i (p + 8) bs (omega arith) l)
Untouched-above h i p (used n w ∷ bs) le (hd, l) =
    (omega arith, omega arith, Untouched-above h i (p + n * 8) bs (omega arith) l)

-- Bytes outside the blocks do not matter.
pub Layout-frame :
    (h h' : List ℕ) (p : ℕ) (bs : List Block)
    → ((j : ℕ) → p ≤ j → j < p + extent bs → get_or h' j 0 ≡ get_or h j 0)
    → Layout h p bs
    → Layout h' p bs
Layout-frame h h' p [] same l = tt
Layout-frame h h' p (vacant ∷ bs) same (hd, l) = (
  same p (omega arith) (omega arith) ∙ hd,
  Layout-frame h h' (p + 8) bs (λ j a b. same j (omega arith) (omega arith)) l,
)
Layout-frame h h' p (used n w ∷ bs) same ((a, b, c, d), l) = (
  (same p (omega arith) (omega arith) ∙ a, b, same (p + 1) (omega arith) (omega arith) ∙ c, d),
  Layout-frame h h' (p + n * 8) bs (λ j k m. same j (omega arith) (omega arith)) l,
)

-- A write into the payload of an allocated run leaves all blocks as they are.
pub Layout-overwrite :
    (h : List ℕ) (xs ys : List Block) (n w i : ℕ) (bytes : List ℕ)
    → extent xs + 2 ≤ i
    → i + length bytes ≤ extent xs + n * 8
    → Layout h 0 (xs ++ (used n w ∷ ys))
    → Layout (overwrite h i bytes) 0 (xs ++ (used n w ∷ ys))
Layout-overwrite h xs ys n w i bytes lo hi l =
    let (lx, ((a, b, c, d), ly)) = Layout-split h 0 xs (used n w ∷ ys) l in
    let below = λ (j : ℕ) (q : j < i). get_or-overwrite_below h i bytes j 0 q in
    let above = λ (j : ℕ) (q : i + length bytes ≤ j). get_or-overwrite_above h i bytes j 0 q in
    Layout-join (overwrite h i bytes) 0 xs (used n w ∷ ys)
      (Layout-frame h (overwrite h i bytes) 0 xs (λ j _ q. below j (omega arith)) lx)
      (
        (below _ (omega arith) ∙ a, b, below _ (omega arith) ∙ c, d),
        Layout-frame h (overwrite h i bytes) _ ys (λ j q _. above j (omega arith)) ly,
      )
