-- ===== src/Base/Arrays.antt =====
-- Blocks of an array: reading `n` elements, and overwriting some.
use Prim.Native.Nat.{ℕ, zero, suc, ◌+◌, ◌-◌, ◌≤◌, ◌<◌}
use mathlib.Core.Path.{◌≡◌, refl}
use mathlib.Core.List.{List, [], ◌∷◌}
use native.Mathlib.Omega.{arith}
use nanoc.Base.Lists.{length, get_or, take, drop}

module _ {ℓ} {A : Type ℓ} where
  -- `xs` with the elements from index `i` on replaced by those of `ys`; it never grows.
  abbrev pub overwrite : List A → ℕ → List A → List A
  overwrite [] i ys = []
  overwrite (x ∷ xs) (suc i) ys = x ∷ overwrite xs i ys
  overwrite (x ∷ xs) zero [] = x ∷ xs
  overwrite (x ∷ xs) zero (y ∷ ys) = y ∷ overwrite xs zero ys

module _ {ℓ} {A : Type ℓ} where
  pub length-overwrite :
      (xs : List A) (i : ℕ) (ys : List A) → length (overwrite xs i ys) ≡ length xs
  length-overwrite [] i ys = refl
  length-overwrite (x ∷ xs) (suc i) ys = omega (arith, length-overwrite xs i ys)
  length-overwrite (x ∷ xs) zero [] = refl
  length-overwrite (x ∷ xs) zero (y ∷ ys) = omega (arith, length-overwrite xs zero ys)

  pub get_or-take :
      (n : ℕ) (xs : List A) (j : ℕ) (d : A) → j < n → get_or (take n xs) j d ≡ get_or xs j d
  get_or-take zero xs j d h = absurd (omega arith)
  get_or-take (suc n) [] j d h = refl
  get_or-take (suc n) (x ∷ xs) zero d h = refl
  get_or-take (suc n) (x ∷ xs) (suc j) d h = get_or-take n xs j d (omega arith)

  pub get_or-drop :
      (n : ℕ) (xs : List A) (j : ℕ) (d : A) → get_or (drop n xs) j d ≡ get_or xs (n + j) d
  get_or-drop zero xs j d = ground arith
  get_or-drop (suc n) [] j d = refl
  get_or-drop (suc n) (x ∷ xs) j d = ground (arith, get_or-drop n xs j d)

  -- Inside the replaced block the new elements stand, outside it the old ones.
  pub get_or-overwrite_in :
      (xs : List A) (i : ℕ) (ys : List A) (j : ℕ) (d : A)
      → i + length ys ≤ length xs
      → i ≤ j
      → j < i + length ys
      → get_or (overwrite xs i ys) j d ≡ get_or ys (j - i) d
  get_or-overwrite_in [] i ys j d h p q = absurd (omega arith)
  get_or-overwrite_in (x ∷ xs) (suc i) ys zero d h p q = absurd (omega arith)
  get_or-overwrite_in (x ∷ xs) (suc i) ys (suc j) d h p q =
      ground (arith, get_or-overwrite_in xs i ys j d)
  get_or-overwrite_in (x ∷ xs) zero [] j d h p q = absurd (omega arith)
  get_or-overwrite_in (x ∷ xs) zero (y ∷ ys) zero d h p q = refl
  get_or-overwrite_in (x ∷ xs) zero (y ∷ ys) (suc j) d h p q =
      ground (arith, get_or-overwrite_in xs zero ys j d)

  pub get_or-overwrite_below :
      (xs : List A) (i : ℕ) (ys : List A) (j : ℕ) (d : A)
      → j < i
      → get_or (overwrite xs i ys) j d ≡ get_or xs j d
  get_or-overwrite_below [] i ys j d h = refl
  get_or-overwrite_below (x ∷ xs) zero ys j d h = absurd (omega arith)
  get_or-overwrite_below (x ∷ xs) (suc i) ys zero d h = refl
  get_or-overwrite_below (x ∷ xs) (suc i) ys (suc j) d h =
      get_or-overwrite_below xs i ys j d (omega arith)

  pub get_or-overwrite_above :
      (xs : List A) (i : ℕ) (ys : List A) (j : ℕ) (d : A)
      → i + length ys ≤ j
      → get_or (overwrite xs i ys) j d ≡ get_or xs j d
  get_or-overwrite_above [] i ys j d h = refl
  get_or-overwrite_above (x ∷ xs) zero [] j d h = refl
  get_or-overwrite_above (x ∷ xs) zero (y ∷ ys) zero d h = absurd (omega arith)
  get_or-overwrite_above (x ∷ xs) zero (y ∷ ys) (suc j) d h =
      get_or-overwrite_above xs zero ys j d (omega arith)
  get_or-overwrite_above (x ∷ xs) (suc i) ys zero d h = refl
  get_or-overwrite_above (x ∷ xs) (suc i) ys (suc j) d h =
      get_or-overwrite_above xs i ys j d (omega arith)

  -- `memmove (xs + dst, xs + src, n)`, where both blocks lie in the array.
  abbrev pub move : List A → ℕ → ℕ → ℕ → List A
  move xs dst src n = overwrite xs dst (take n (drop src xs))
