-- ===== src/Memory/Runs.antt =====
-- Where the allocated runs of the heap of src/nc_memory.c lie, and that they stay there when another
-- run is allocated or freed.
use nanoc.Base.{
  ℕ, zero, suc, ◌+◌, ◌-◌, ◌≤◌, ◌<◌, ◌≡◌, ◌≢◌, ◌⊎◌, inl, inr, refl, ap, List, [], ◌∷◌, ◌++◌, arith,
  replicate,
}
use nanoc.Memory.Layout.{Block, vacant, used, width, extent, extent-replicate}

-- A run of `n` blocks and `w` words begins `e` bytes behind the start of the blocks.
abbrev pub RunAt : ℕ → ℕ → ℕ → List Block → Type 0
RunAt e n w [] = ⊥
RunAt e n w (b ∷ bs) = ((e ≡ 0) × (b ≡ used n w)) ⊎ ((width b ≤ e) × RunAt (e - width b) n w bs)

pub RunAt-here : (xs ys : List Block) (n w : ℕ) → RunAt (extent xs) n w (xs ++ (used n w ∷ ys))
RunAt-here [] ys n w = inl (refl, refl)
RunAt-here (x ∷ xs) ys n w =
    let e : width x + extent xs - width x ≡ extent xs = omega arith in
    inr (omega arith, rw e (RunAt-here xs ys n w))

module _ (n w : ℕ) where
  pub RunAt-before : (e : ℕ) (xs ys : List Block) → RunAt e n w xs → RunAt e n w (xs ++ ys)
  RunAt-before e [] ys h = absurd h
  RunAt-before e (x ∷ xs) ys (inl h) = inl h
  RunAt-before e (x ∷ xs) ys (inr (le, h)) = inr (le, RunAt-before (e - width x) xs ys h)

  pub RunAt-behind :
      (e : ℕ) (xs ys : List Block)
      → extent xs ≤ e
      → RunAt (e - extent xs) n w ys
      → RunAt e n w (xs ++ ys)
  RunAt-behind e [] ys le h = let z : e - 0 ≡ e = omega arith in rw z at h
  RunAt-behind e (x ∷ xs) ys le h =
      let d : e - (width x + extent xs) ≡ e - width x - extent xs = omega arith in
      inr (omega arith, RunAt-behind (e - width x) xs ys (omega arith) (rw d at h))

  pub RunAt-split :
      (e : ℕ) (xs ys : List Block)
      → RunAt e n w (xs ++ ys)
      → RunAt e n w xs ⊎ ((extent xs ≤ e) × RunAt (e - extent xs) n w ys)
  RunAt-split e [] ys h = let z : e - 0 ≡ e = omega arith in inr (omega arith, rw z h)
  RunAt-split e (x ∷ xs) ys (inl h) = inl (inl h)
  RunAt-split e (x ∷ xs) ys (inr (le, h)) = elim (RunAt-split (e - width x) xs ys h) [
    | inl k ↦ inl (inr (le, k))
    | inr (le', k) ↦
        (let d : e - (width x + extent xs) ≡ e - width x - extent xs = omega arith in
          inr (omega arith, rw d k))
  ]

  RunAt-vacant : (e k : ℕ) → RunAt e n w (replicate k vacant) → ⊥
  RunAt-vacant e zero h = h
  RunAt-vacant e (suc k) (inl (_, e')) = cc
  RunAt-vacant e (suc k) (inr (_, h)) = RunAt-vacant (e - 8) k h

  pub RunAt-lt : (e : ℕ) (xs : List Block) → 0 < n → RunAt e n w xs → e < extent xs
  RunAt-lt e [] pos h = absurd h
  RunAt-lt e (x ∷ xs) pos (inl (z, same)) = let s = ap width same in omega arith
  RunAt-lt e (x ∷ xs) pos (inr (le, h)) = let lt = RunAt-lt (e - width x) xs pos h in omega arith

  -- A run stays where it is when free blocks become a run, and lies elsewhere.
  pub RunAt-claim :
      (e k v : ℕ) (xs ys : List Block)
      → 0 < n
      → 0 < k
      → RunAt e n w (xs ++ (replicate k vacant ++ ys))
      → RunAt e n w (xs ++ (used k v ∷ ys)) × (e ≢ extent xs)
  RunAt-claim e k v xs ys pos pos' h = elim (RunAt-split e xs (replicate k vacant ++ ys) h) [
    | inl b ↦
        (let lt = RunAt-lt e xs pos b in
          (RunAt-before e xs (used k v ∷ ys) b, λ eq. absurd (omega arith)))
    | inr (le, b) ↦ elim (RunAt-split (e - extent xs) (replicate k vacant) ys b) [
      | inl c ↦ absurd (RunAt-vacant (e - extent xs) k c)
      | inr (le', c) ↦
          (let size = extent-replicate k in
            let c' = rw size at c in
            (
              RunAt-behind e xs (used k v ∷ ys) le (inr (omega arith, c')),
              λ eq. absurd (omega arith),
            ))
    ]
  ]

  -- A run stays where it is when another one is freed.
  pub RunAt-release :
      (e k v : ℕ) (xs ys : List Block)
      → e ≢ extent xs
      → RunAt e n w (xs ++ (used k v ∷ ys))
      → RunAt e n w (xs ++ (replicate k vacant ++ ys))
  RunAt-release e k v xs ys ne h = elim (RunAt-split e xs (used k v ∷ ys) h) [
    | inl b ↦ RunAt-before e xs (replicate k vacant ++ ys) b
    | inr (le, inl (z, _)) ↦ absurd (ne (omega arith))
    | inr (le, inr (le', c)) ↦
        (let size = extent-replicate k in
          RunAt-behind e xs (replicate k vacant ++ ys) le
            (RunAt-behind (e - extent xs) (replicate k vacant) ys (omega arith) (rw size c)))
  ]

  -- The blocks around a run.
  pub RunAt-parts :
      (e : ℕ) (bs : List Block)
      → RunAt e n w bs
      → (xs : List Block) × (ys : List Block) × (bs ≡ xs ++ (used n w ∷ ys)) × (extent xs ≡ e)
  RunAt-parts e [] h = absurd h
  RunAt-parts e (b ∷ bs) (inl (z, same)) = ([], bs, ap (λ x. x ∷ bs) same, omega arith)
  RunAt-parts e (b ∷ bs) (inr (le, h)) =
      let (xs, ys, same, at) = RunAt-parts (e - width b) bs h in
      (b ∷ xs, ys, ap (λ t. b ∷ t) same, omega arith)
