-- ===== src/Kvstore/Map.antt =====
-- The store of src/nc_kvstore.c as a finite map: what `kvs_get` and `kvs_exists` report after
-- `kvs_set`, `kvs_delete` and `kvs_clear`.
use nanoc.Base.{
  ℕ, ◌+◌, ◌-◌, ◌≤◌, ◌<◌, ◌≡◌, refl, ◌≢◌, inl, inr, true, false, Option, none, some, Bool-cases,
  leb_lt, leb_le, arith, ltb, ◌==◌, if◌then◌else◌, get_or, done, Returns, get_elem?-eq-get_or,
}
use native.Mathlib.Decide.{dec_lt}
use nanoc.Base.Word.{IsWord}
use nanoc.Kvstore.{Store, Status, success, failure, absent, put, get, exists, delete, remove_at}
use nanoc.Kvstore.Search.{
  blank, key_at, value_at, IsValid, Locates, bsearch-cases, bsearch_at, bsearch_absent,
}
use nanoc.Kvstore.Valid.{
  with_value, with_entry, with_value-key_at, with_value-value_at, with_entry-get_or, set_value_lem,
  insert_at_lem, remove_at-get_or, count-remove_at,
}

-- The abstract view: the key is bound to the value by a live entry, or by none.
abbrev pub Binds : Store → ℕ → Option ℕ → Type 0
Binds s key (some v) =
    (i : ℕ) × (i < s.count) × (key_at s.entries i ≡ key) × (value_at s.entries i ≡ v)
Binds s key none = (i : ℕ) → i < s.count → key_at s.entries i ≢ key

-- What the interface reports of a key with that binding.
abbrev pub Reports : Store → ℕ → Option ℕ → Type 0
Reports s key (some v) = (exists s key ≡ done true) × (get s key ≡ done v)
Reports s key none = (exists s key ≡ done false) × (get s key ≡ done s.default_val)

module _ (s : Store) (v : IsValid s) (key : ℕ) (word : IsWord key) where
  -- Every key has a binding.
  pub Binds-total : (o : Option ℕ) × Binds s key o
  Binds-total = elim (bsearch-cases s key v word) [
    | inl (i, e, (b, k)) ↦ (some (value_at s.entries i), (i, b, k, refl))
    | inr (i, e, (b, lo, hi)) ↦ (none, λ j h k. ground (arith, lo j, hi j))
  ]

  -- On a valid store kvs_exists and kvs_get of a 32-bit key return, and report its binding: true
  -- and the value, or false and the default value.
  pub Binds-Reports : (o : Option ℕ) → Binds s key o → Reports s key o
  unfolding exists get
  Binds-Reports (some x) (i, b, k, e) = (
    rw (bsearch_at s key v word i b k),
    ground (
      arith,
      v.fits,
      v.allocated,
      bsearch_at s key v word i b k,
      get_elem?-eq-get_or s.entries i blank,
    ),
  )
  Binds-Reports none h = let (k, e) = bsearch_absent s key v word h in (rw e, rw e)

module _ (s : Store) (v : IsValid s) (key value : ℕ) (word : IsWord key) where
  -- The store after an update in place, and after an insertion, at index `i`.
  abbrev updated : ℕ → Store
  updated = with_value s v key value word

  abbrev extended : ℕ → Store
  extended = with_entry s v key value word

  updated-key_at : (i j : ℕ) → i < s.count → key_at (updated i).entries j ≡ key_at s.entries j
  updated-key_at = with_value-key_at s v key value word

  updated-value_at :
      (i j : ℕ)
      → i < s.count
      → value_at (updated i).entries j ≡ (if i == j then value else value_at s.entries j)
  updated-value_at = with_value-value_at s v key value word

  updated_self :
      (i : ℕ) → i < s.count → key_at s.entries i ≡ key → Binds (updated i) key (some value)
  updated_self i b e =
      (i, b, ground (arith, updated-key_at i i b), ground (arith, updated-value_at i i b))

  updated_other :
      (i : ℕ)
      → i < s.count
      → key_at s.entries i ≡ key
      → (j : ℕ) → j ≢ key
      → (o : Option ℕ) → Binds s j o
      → Binds (updated i) j o
  updated_other i b e j ne (some x) (k, c, kk, kv) =
      (k, c, ground (arith, updated-key_at i k b), ground (arith, updated-value_at i k b, ne))
  updated_other i b e j ne none h = λ k c kk. ground (arith, updated-key_at i k b, h k)

  module _ (i : ℕ) (room : s.count < s.capacity)
      (there : Locates s.entries s.count key (absent i)) where
    at :
        (j : ℕ)
        → j ≤ s.count
        → get_or (extended i).entries j blank ≡ (
            if ltb j i
            then get_or s.entries j blank
            else if ltb i j
            then get_or s.entries (j - 1) blank
            else record { key = key; value = value })
    at j = with_entry-get_or s v key value word i j there.0 room

    extended_self : Binds (extended i) key (some value)
    extended_self = (i, omega (arith, there), ground (arith, at i), ground (arith, at i))

    extended_other : (j : ℕ) → j ≢ key → (o : Option ℕ) → Binds s j o → Binds (extended i) j o
    extended_other j ne (some x) (k, c, kk, kv) = elim (dec_lt k i) [
      | yes lt ↦ (k, omega arith, ground (arith, at k), ground (arith, at k))
      | no ge ↦ (k + 1, omega arith, ground (arith, at (k + 1)), ground (arith, at (k + 1)))
    ]
    extended_other j ne none h = λ k c kk. ground (arith, at k, h k, h (k - 1), there)

abbrev pub bound_after_put : ℕ → ℕ → ℕ → Option ℕ → Option ℕ
bound_after_put key value j o = if j == key then some value else o

abbrev pub bound_after_delete : ℕ → ℕ → Option ℕ → Option ℕ
bound_after_delete key j o = if j == key then none else o

-- What a call of `kvs_set` did: it bound the key and nothing else, or it left the store alone, which
-- was full and had no binding of the key.
abbrev pub PutResult : Store → ℕ → ℕ → ℕ → Option ℕ → Status × Store → Type 0
PutResult s key value j o (success, s') =
    Binds s' j (bound_after_put key value j o)
    × (s'.default_val ≡ s.default_val)
    × (s'.capacity ≡ s.capacity)
PutResult s key value j o (failure, s') = (s' ≡ s) × Binds s key none × (s.count ≡ s.capacity)

abbrev pub DeleteResult : Store → ℕ → ℕ → Option ℕ → Status × Store → Type 0
DeleteResult s key j o (success, s') =
    Binds s' j (bound_after_delete key j o)
    × (s'.default_val ≡ s.default_val)
    × (s'.count + 1 ≡ s.count)
DeleteResult s key j o (failure, s') = (s' ≡ s) × Binds s key none

module _ (s : Store) (v : IsValid s) (key value : ℕ) (word : IsWord key) (j : ℕ) (o : Option ℕ)
    (h : Binds s j o) where
  updated-Binds :
      (i : ℕ)
      → i < s.count
      → key_at s.entries i ≡ key
      → Binds (updated s v key value word i) j (bound_after_put key value j o)
  updated-Binds i b e = elim (Bool-cases (j == key)) [
    | inl same ↦
        let eq : j ≡ key = ground arith in rw (same, eq) (updated_self s v key value word i b e)
    | inr other ↦ rw other (updated_other s v key value word i b e j (ground arith) o h)
  ]

  extended-Binds :
      (i : ℕ)
      → s.count < s.capacity
      → Locates s.entries s.count key (absent i)
      → Binds (extended s v key value word i) j (bound_after_put key value j o)
  extended-Binds i room there = elim (Bool-cases (j == key)) [
    | inl same ↦
        let eq : j ≡ key = ground arith in
        rw (same, eq) (extended_self s v key value word i room there)
    | inr other ↦ rw other (extended_other s v key value word i room there j (ground arith) o h)
  ]

  -- On a valid store whose key j has a given binding, kvs_set of a 32-bit key returns: on success
  -- it has bound its key to the value and kept the binding of any other key, the default value and
  -- the capacity; on -1 the store is unchanged, full, and without the key.
  pub put-PutResult : Returns (put s key value) (PutResult s key value j o)
  unfolding put
  put-PutResult = elim (bsearch-cases s key v word) [
    | inl (i, e, (b, k)) ↦
        rw (e, set_value_lem s v key value word i b) (updated-Binds i b k, refl, refl)
    | inr (i, e, there) ↦ rw e (elim (dec_lt s.count s.capacity) [
      | yes room ↦
          rw (leb_lt s.capacity s.count room, insert_at_lem s v key value word i there.0 room)
            (extended-Binds i room there, refl, refl)
      | no full ↦
          rw (leb_le s.capacity s.count (omega arith))
            (refl, λ a b' c. ground (arith, there.1 a, there.2 a), omega (arith, v.fits))
    ])
  ]

module _ (s : Store) (v : IsValid s) (key : ℕ) (word : IsWord key) (j : ℕ) where
  removed_other :
      (i : ℕ)
      → i < s.count
      → key_at s.entries i ≡ key
      → j ≢ key
      → (o : Option ℕ) → Binds s j o
      → Binds (remove_at s i) j o
  removed_other i b e ne (some x) (k, c, kk, kv) = elim (dec_lt k i) [
    | yes lt ↦ (
      k,
      ground (arith, count-remove_at s v i),
      ground (arith, remove_at-get_or s v i k b),
      ground (arith, remove_at-get_or s v i k b),
    )
    | no ge ↦
        let after : i < k = ground arith in
        (
          k - 1,
          ground (arith, count-remove_at s v i),
          ground (arith, remove_at-get_or s v i (k - 1) b),
          ground (arith, remove_at-get_or s v i (k - 1) b),
        )
  ]
  removed_other i b e ne none h =
      λ k c kk. ground (arith, count-remove_at s v i, remove_at-get_or s v i k b, h k, h (k + 1))

  removed_self : (i : ℕ) → i < s.count → key_at s.entries i ≡ key → Binds (remove_at s i) key none
  removed_self i b e = λ k c kk.
      ground
        (arith, count-remove_at s v i, remove_at-get_or s v i k b, v.sorted k i, v.sorted i (k + 1))

  removed-Binds :
      (i : ℕ)
      → i < s.count
      → key_at s.entries i ≡ key
      → (o : Option ℕ) → Binds s j o
      → Binds (remove_at s i) j (bound_after_delete key j o)
  removed-Binds i b e o h = elim (Bool-cases (j == key)) [
    | inl same ↦ let eq : j ≡ key = ground arith in rw (same, eq) (removed_self i b e)
    | inr other ↦ rw other (removed_other i b e (ground arith) o h)
  ]

  -- On a valid store whose key j has a given binding, kvs_delete of a 32-bit key returns: on
  -- success it has removed the binding of its key, kept that of any other key and the default
  -- value, and made the count one less; on -1 the store is unchanged and has no binding of the key.
  pub delete-DeleteResult :
      (o : Option ℕ) → Binds s j o → Returns (delete s key) (DeleteResult s key j o)
  unfolding delete
  delete-DeleteResult o h = elim (bsearch-cases s key v word) [
    | inl (i, e, (b, k)) ↦
        rw e
          (removed-Binds i b k o h, unfold remove_at in refl, omega (arith, count-remove_at s v i))
    | inr (i, e, there) ↦ rw e (refl, λ a b c. ground (arith, there.1 a, there.2 a))
  ]
