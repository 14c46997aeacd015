-- ===== src/Kvstore/Valid.antt =====
-- Every operation of src/nc_kvstore.c keeps the entries sorted and within the capacity.
use nanoc.Base.{
  ℕ, ◌+◌, ◌-◌, ◌≤◌, ◌<◌, ◌≡◌, refl, inl, inr, some, List, arith, ltb, ◌==◌, if◌then◌else◌, length,
  get_or, set, length-set, get_or-set_self, get_or-set_ne, done, Returns, get_elem?-eq-get_or,
}
use nanoc.Base.Word.{IsWord}
use nanoc.Kvstore.{
  Entry, Store, success, absent, create, clear, insert_at, set_value, remove_at, put, delete,
}
use nanoc.Kvstore.Search.{blank, key_at, value_at, IsValid, Locates, bsearch-cases}
use nanoc.Kvstore.Shift.{inserted, length-inserted, get_or-inserted, length-removed, get_or-removed}

-- If kvs_create on memory for at least its 16-bit number of elements gives a store, then that store
-- is valid, empty, and has this capacity.
pub create-IsValid :
    (mem : List Entry) (num_elem default_val : ℕ) {s : Store}
    → num_elem ≤ length mem
    → num_elem < 65536
    → create (some mem) num_elem default_val ≡ some s
    → IsValid s × (s.count ≡ 0) × (s.capacity ≡ num_elem)
unfolding create
create-IsValid mem num_elem default_val {s} fits small e = grind arith

pub clear-IsValid : (s : Store) → IsValid s → IsValid (clear s)
unfolding clear
clear-IsValid s v = record {
  fits = omega arith;
  allocated = omega arith;
  small = omega arith;
  words = λ i h. absurd (omega arith);
  sorted = λ i j h k. absurd (omega arith);
}

module _ (s : Store) (v : IsValid s) (key value : ℕ) (word : IsWord key) where
  abbrev pub with_value : ℕ → Store
  with_value i = record s {
    entries = set s.entries i (record { key = key_at s.entries i; value = value });
  }

  abbrev pub with_entry : ℕ → Store
  with_entry i = record s {
    count = s.count + 1;
    entries = inserted s.entries i s.count (record { key = key; value = value });
  }

  pub with_value-key_at :
      (i j : ℕ) → i < s.count → key_at (with_value i).entries j ≡ key_at s.entries j
  with_value-key_at i j h = ground (
    arith,
    get_or-set_self s.entries i (record { key = key_at s.entries i; value = value }) blank,
    get_or-set_ne s.entries i j (record { key = key_at s.entries i; value = value }) blank,
  )

  pub with_value-value_at :
      (i j : ℕ)
      → i < s.count
      → value_at (with_value i).entries j ≡ (if i == j then value else value_at s.entries j)
  with_value-value_at i j h = ground (
    arith,
    get_or-set_self s.entries i (record { key = key_at s.entries i; value = value }) blank,
    get_or-set_ne s.entries i j (record { key = key_at s.entries i; value = value }) blank,
  )

  pub with_entry-get_or :
      (i j : ℕ)
      → i ≤ s.count
      → s.count < s.capacity
      → j ≤ s.count
      → get_or (with_entry i).entries j blank ≡ (
          if ltb j i
          then get_or s.entries j blank
          else if ltb i j
          then get_or s.entries (j - 1) blank
          else record { key = key; value = value })
  with_entry-get_or i j p q r = get_or-inserted s.entries blank i s.count j _ p (omega arith) r

  pub with_value-IsValid : (i : ℕ) → i < s.count → IsValid (with_value i)
  with_value-IsValid i h = record {
    fits = v.fits;
    allocated = rw length-set v.allocated;
    small = v.small;
    words = λ j k. ground (arith, with_value-key_at i j h, v.words j);
    sorted =
        λ j k p q. ground (arith, with_value-key_at i j h, with_value-key_at i k h, v.sorted j k);
  }

  pub with_entry-IsValid :
      (i : ℕ)
      → s.count < s.capacity
      → Locates s.entries s.count key (absent i)
      → IsValid (with_entry i)
  with_entry-IsValid i room (b, lo, hi) = record {
    fits = omega arith;
    allocated =
        omega
          (arith, length-inserted s.entries blank i s.count (record { key = key; value = value }));
    small = v.small;
    words = λ j k. ground (arith, with_entry-get_or i j b room, v.words j, v.words (j - 1));
    sorted = λ j k p q. ground (
      arith,
      with_entry-get_or i j b room,
      with_entry-get_or i k b room,
      v.sorted j k,
      v.sorted j (k - 1),
      v.sorted (j - 1) (k - 1),
      lo j,
      hi (k - 1),
    );
  }

  pub set_value_lem : (i : ℕ) → i < s.count → set_value s i key value ≡ done (success, with_value i)
  unfolding set_value
  set_value_lem i h = ground (arith, get_elem?-eq-get_or s.entries i blank)

  pub insert_at_lem :
      (i : ℕ)
      → i ≤ s.count
      → s.count < s.capacity
      → insert_at s i (record { key = key; value = value }) ≡ done (with_entry i)
  unfolding insert_at
  insert_at_lem i h room = ground arith

  -- kvs_set of a 32-bit key on a valid store returns a valid store.
  pub put-IsValid : Returns (put s key value) (λ r. IsValid r.1)
  unfolding put
  put-IsValid = elim (bsearch-cases s key v word) [
    | inl (i, e, (b, k)) ↦ rw (e, set_value_lem i b) (with_value-IsValid i b)
    | inr (i, e, there) ↦
        rw e (ground (arith, v.fits, there, insert_at_lem i, with_entry-IsValid i, v))
  ]

module _ (s : Store) (v : IsValid s) where
  pub remove_at-get_or :
      (i j : ℕ)
      → i < s.count
      → j < s.count - 1
      → get_or (remove_at s i).entries j blank
        ≡ (if ltb j i then get_or s.entries j blank else get_or s.entries (j + 1) blank)
  unfolding remove_at
  remove_at-get_or i j p q = get_or-removed s.entries blank i s.count j p (omega arith) q

  pub count-remove_at : (i : ℕ) → (remove_at s i).count ≡ s.count - 1
  unfolding remove_at
  count-remove_at i = refl

  pub remove_at-IsValid : (i : ℕ) → i < s.count → IsValid (remove_at s i)
  remove_at-IsValid i h = record {
    fits = unfold remove_at in omega arith;
    allocated = unfold remove_at in omega (arith, length-removed s.entries blank i s.count);
    small = unfold remove_at in v.small;
    words = λ j k.
        ground (arith, count-remove_at i, remove_at-get_or i j h, v.words j, v.words (j + 1));
    sorted = λ j k p q. ground (
      arith,
      count-remove_at i,
      remove_at-get_or i j h,
      remove_at-get_or i k h,
      v.sorted j k,
      v.sorted j (k + 1),
      v.sorted (j + 1) (k + 1),
    );
  }

  -- kvs_delete of a 32-bit key on a valid store returns a valid store.
  pub delete-IsValid : (key : ℕ) → IsWord key → Returns (delete s key) (λ r. IsValid r.1)
  unfolding delete
  delete-IsValid key word = elim (bsearch-cases s key v word) [
    | inl (i, e, (b, k)) ↦ rw e (remove_at-IsValid i b)
    | inr (i, e, there) ↦ rw e v
  ]
