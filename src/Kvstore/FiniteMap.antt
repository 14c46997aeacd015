-- ===== src/Kvstore/FiniteMap.antt =====
-- The contract of src/nc_kvstore.c: a finite map with a capacity and a default value, and that a call
-- of a function on a store that stands for a map does what the map does.
use nanoc.Base.{
  ℕ, ◌+◌, ◌-◌, ◌<◌, ◌≡◌, sym, ◌∙◌, refl, false, Option, none, some, ltb, lt→ltb, leb_lt, leb_le,
  arith, if◌then◌else◌, done, Returns, Returns-done, inl, inr,
}
use native.Mathlib.Decide.{dec_lt}
use nanoc.Base.Word.{IsWord}
use nanoc.Kvstore.{Store, Status, success, failure, put, delete, remove_at, clear}
use nanoc.Kvstore.Search.{IsValid, bsearch-cases, bsearch_at, bsearch_absent}
use nanoc.Kvstore.Valid.{put-IsValid, delete-IsValid, clear-IsValid, set_value_lem, insert_at_lem}
use nanoc.Kvstore.Map.{
  Binds, PutResult, put-PutResult, DeleteResult, delete-DeleteResult, bound_after_put,
  bound_after_delete,
}

pub record FiniteMap : Type 0 where
  pub bound : ℕ → Option ℕ
  pub size : ℕ
  pub capacity : ℕ
  pub default_val : ℕ

abbrev pub empty : ℕ → ℕ → FiniteMap
empty capacity default_val = record {
  bound = λ j. none;
  size = 0;
  capacity = capacity;
  default_val = default_val;
}

-- The first argument is the binding of the key.
abbrev bind : Option ℕ → ℕ → ℕ → FiniteMap → Status × FiniteMap
bind (some w) key value m =
    (success, record m { bound = λ j. bound_after_put key value j (m.bound j) })
bind none key value m =
    if ltb m.size m.capacity
    then (
      success,
      record m { bound = λ j. bound_after_put key value j (m.bound j); size = m.size + 1 },
    )
    else (failure, m)

abbrev unbind : Option ℕ → ℕ → FiniteMap → Status × FiniteMap
unbind (some w) key m =
    (success, record m { bound = λ j. bound_after_delete key j (m.bound j); size = m.size - 1 })
unbind none key m = (failure, m)

abbrev pub map_set : ℕ → ℕ → FiniteMap → Status × FiniteMap
map_set key value m = bind (m.bound key) key value m

abbrev pub map_delete : ℕ → FiniteMap → Status × FiniteMap
map_delete key m = unbind (m.bound key) key m

abbrev pub map_clear : FiniteMap → FiniteMap
map_clear m = record m { bound = λ j. none; size = 0 }

-- The store stands for the map.
pub record Refines (s : Store) (m : FiniteMap) : Type 0 where
  pub valid : IsValid s
  pub binds : (j : ℕ) → Binds s j (m.bound j)
  pub size : s.count ≡ m.size
  pub capacity : s.capacity ≡ m.capacity
  pub default_val : s.default_val ≡ m.default_val

-- How a call of `kvs_set` changes the count, by the binding of its key.
abbrev Counted : Store → Option ℕ → Status × Store → Type 0
Counted s (some w) (success, s') = s'.count ≡ s.count
Counted s (some w) (failure, s') = ⊥
Counted s none (success, s') = (s.count < s.capacity) × (s'.count ≡ s.count + 1)
Counted s none (failure, s') = Unit {0}

put-Counted :
    (s : Store) (v : IsValid s) (key value : ℕ) (word : IsWord key) (o : Option ℕ)
    → Binds s key o
    → Returns (put s key value) (Counted s o)
unfolding put
put-Counted s v key value word (some w) (i, b, k, _) =
    rw (bsearch_at s key v word i b k, set_value_lem s v key value word i b) refl
put-Counted s v key value word none h = elim (bsearch-cases s key v word) [
  | inl (i, e, (b, k)) ↦ absurd (h i b k)
  | inr (i, e, there) ↦ rw e (elim (dec_lt s.count s.capacity) [
    | yes room ↦
        rw (leb_lt s.capacity s.count room, insert_at_lem s v key value word i there.0 room)
          (room, refl)
    | no full ↦ rw (leb_le s.capacity s.count (omega arith)) tt
  ])
]

module _ (s : Store) (m : FiniteMap) (h : Refines s m) (key value : ℕ) where
  bind-Refines :
      (o : Option ℕ) (r : Status × Store)
      → IsValid r.1
      → ((j : ℕ) → PutResult s key value j (m.bound j) r)
      → Counted s o r
      → (r.0 ≡ (bind o key value m).0) × Refines r.1 (bind o key value m).1
  bind-Refines (some w) (success, s') v result count = (
    refl,
    record {
      valid = v;
      binds = λ j. (result j).0;
      size = count ∙ h.size;
      capacity = (result key).2 ∙ h.capacity;
      default_val = (result key).1 ∙ h.default_val;
    },
  )
  bind-Refines (some w) (failure, s') v result count = absurd count
  bind-Refines none (success, s') v result (room, count) =
      let size = h.size in
      let capacity = h.capacity in
      rw (lt→ltb m.size m.capacity (omega arith)) (
        refl,
        record {
          valid = v;
          binds = λ j. (result j).0;
          size = omega arith;
          capacity = (result key).2 ∙ h.capacity;
          default_val = (result key).1 ∙ h.default_val;
        },
      )
  bind-Refines none (failure, s') v result count =
      let size = h.size in
      let capacity = h.capacity in
      let (same, _, full) = result key in
      let no_room : ltb m.size m.capacity ≡ false = ground arith in rw (no_room, same) (refl, h)

  pub put-Refines :
      IsWord key
      → Returns
          (put s key value)
          (λ r. (r.0 ≡ (map_set key value m).0) × Refines r.1 (map_set key value m).1)
  put-Refines word =
      let v = h.valid in
      let (r, ran, count) =
        Returns-done (put s key value)
          (put-Counted s v key value word (m.bound key) (h.binds key)) in
      let result : (j : ℕ) → PutResult s key value j (m.bound j) r =
        λ j. rw ran at (put-PutResult s v key value word j (m.bound j) (h.binds j)) in
      rw ran
        (bind-Refines (m.bound key) r (rw ran at (put-IsValid s v key value word)) result count)

delete_absent :
    (s : Store) (v : IsValid s) (key : ℕ)
    → IsWord key
    → Binds s key none
    → delete s key ≡ done (failure, s)
unfolding delete
delete_absent s v key word h = let (i, e) = bsearch_absent s key v word h in rw e refl

delete_capacity :
    (s : Store) (v : IsValid s) (key : ℕ)
    → IsWord key
    → Returns (delete s key) (λ r. r.1.capacity ≡ s.capacity)
unfolding delete
delete_capacity s v key word = elim (bsearch-cases s key v word) [
  | inl (i, e, _) ↦ rw e (unfold remove_at in refl)
  | inr (i, e, _) ↦ rw e refl
]

done_inj : (a b : Status × Store) → done a ≡ done b → a ≡ b
done_inj a b e = cc

module _ (s : Store) (m : FiniteMap) (h : Refines s m) (key : ℕ) (word : IsWord key) where
  unbind-Refines :
      (o : Option ℕ)
      → Binds s key o
      → (r : Status × Store) → delete s key ≡ done r
      → IsValid r.1
      → ((j : ℕ) → DeleteResult s key j (m.bound j) r)
      → (r.0 ≡ (unbind o key m).0) × Refines r.1 (unbind o key m).1
  unbind-Refines (some w) b (success, s') e v result =
      let size = h.size in
      let (_, d, count) = result key in
      (
        refl,
        record {
          valid = v;
          binds = λ j. (result j).0;
          size = omega arith;
          capacity = rw e at (delete_capacity s h.valid key word) ∙ h.capacity;
          default_val = d ∙ h.default_val;
        },
      )
  unbind-Refines (some w) (i, lt, k, _) (failure, s') e v result = absurd ((result key).1 i lt k)
  unbind-Refines none b r e v result =
      let same : (failure, s) ≡ r = done_inj _ _ (sym (delete_absent s h.valid key word b) ∙ e) in
      rw (← same) (refl, h)

  pub delete-Refines :
      Returns (delete s key) (λ r. (r.0 ≡ (map_delete key m).0) × Refines r.1 (map_delete key m).1)
  delete-Refines =
      let v = h.valid in
      let (r, ran, _) = Returns-done (delete s key) (delete-IsValid s v key word) in
      let result : (j : ℕ) → DeleteResult s key j (m.bound j) r =
        λ j. rw ran at (delete-DeleteResult s v key word j (m.bound j) (h.binds j)) in
      rw ran (
        unbind-Refines (m.bound key) (h.binds key) r ran (rw ran at (delete-IsValid s v key word))
          result)

pub clear-Refines : (s : Store) (m : FiniteMap) → Refines s m → Refines (clear s) (map_clear m)
unfolding clear
clear-Refines s m h = record {
  valid = unfold clear in clear-IsValid s h.valid;
  binds = λ j i lt. absurd (omega arith);
  size = refl;
  capacity = h.capacity;
  default_val = h.default_val;
}
