-- ===== src/Kvstore/Shift.antt =====
-- The two shifts of src/nc_kvstore.c, element by element: the insertion in `kvs_set` and the
-- removal in `kvs_delete`.
use nanoc.Base.{
  ℕ, ◌+◌, ◌-◌, ◌≤◌, ◌<◌, ◌≡◌, List, arith, ltb, if◌then◌else◌, length, get_or, set, take, drop,
  length-take, length-drop, length-set, move, length-overwrite, get_or-take, get_or-drop,
  get_or-overwrite_in, get_or-overwrite_below, get_or-overwrite_above, get_or-set_self,
  get_or-set_ne,
}

module _ {A : Type 0} (xs : List A) where
  -- `count` live elements, and a new one put at `i`; and the one at `i` taken out.
  abbrev pub inserted : ℕ → ℕ → A → List A
  inserted i count e = set (if ltb i count then move xs (i + 1) i (count - i) else xs) i e

  abbrev pub removed : ℕ → ℕ → List A
  removed i count = if ltb i (count - 1) then move xs i (i + 1) (count - i - 1) else xs

module _ {A : Type 0} (xs : List A) (d : A) where
  length_block : (dst src n : ℕ) → src + n ≤ length xs → length (take n (drop src xs)) ≡ n
  length_block dst src n h = omega (arith, length-take n (drop src xs), length-drop src xs)

  -- Inside the target block the moved elements stand, outside it the old ones.
  get_or-move :
      (dst src n j : ℕ)
      → dst + n ≤ length xs
      → src + n ≤ length xs
      → get_or (move xs dst src n) j d ≡ (
          if ltb j dst
          then get_or xs j d
          else if ltb j (dst + n)
          then get_or xs (src + (j - dst)) d
          else get_or xs j d)
  get_or-move dst src n j p q = ground (
    arith,
    length_block dst src n q,
    get_or-overwrite_below xs dst (take n (drop src xs)) j d,
    get_or-overwrite_in xs dst (take n (drop src xs)) j d,
    get_or-overwrite_above xs dst (take n (drop src xs)) j d,
    get_or-take n (drop src xs) (j - dst) d,
    get_or-drop src xs (j - dst) d,
  )

  pub length-inserted : (i count : ℕ) (e : A) → length (inserted xs i count e) ≡ length xs
  length-inserted i count e = ground (
    arith,
    length-set (move xs (i + 1) i (count - i)) i e,
    length-set xs i e,
    length-overwrite xs (i + 1) (take (count - i) (drop i xs)),
  )

  pub get_or-inserted :
      (i count j : ℕ) (e : A)
      → i ≤ count
      → count < length xs
      → j ≤ count
      → get_or (inserted xs i count e) j d
        ≡ (if ltb j i then get_or xs j d else if ltb i j then get_or xs (j - 1) d else e)
  get_or-inserted i count j e p q r = ground (
    arith,
    length-overwrite xs (i + 1) (take (count - i) (drop i xs)),
    get_or-move (i + 1) i (count - i) j,
    get_or-set_self (move xs (i + 1) i (count - i)) i e d,
    get_or-set_ne (move xs (i + 1) i (count - i)) i j e d,
    get_or-set_self xs i e d,
    get_or-set_ne xs i j e d,
  )

  pub length-removed : (i count : ℕ) → length (removed xs i count) ≡ length xs
  length-removed i count =
      ground (arith, length-overwrite xs i (take (count - i - 1) (drop (i + 1) xs)))

  pub get_or-removed :
      (i count j : ℕ)
      → i < count
      → count ≤ length xs
      → j < count - 1
      → get_or (removed xs i count) j d ≡ (if ltb j i then get_or xs j d else get_or xs (j + 1) d)
  get_or-removed i count j p q r = ground (arith, get_or-move i (i + 1) (count - i - 1) j)
