-- ===== src/Kvstore/Search.antt =====
-- `kvs_bsearch` of src/nc_kvstore.c: it ends, reads only live entries, and finds the key.
use nanoc.Base.{
  ℕ, zero, suc, ◌+◌, ◌-◌, ◌/◌, ◌≤◌, ◌<◌, ◌≡◌, refl, ◌∙◌, ap, ◌≢◌, ◌⊎◌, inl, inr, List, arith,
  length, get_or, get_elem?-eq-get_or, done, fault, Returns,
}
use native.Mathlib.Decide.{dec_lt}
use nanoc.Base.Word.{u16, bias, IsWord, bias_injective}
use nanoc.Kvstore.{Entry, Store, Place, found, absent, bsearch_loop, bsearch}

abbrev pub blank : Entry
blank = record { key = 0; value = 0 }

abbrev pub key_at : List Entry → ℕ → ℕ
key_at es i = (get_or es i blank).key

abbrev pub value_at : List Entry → ℕ → ℕ
value_at es i = (get_or es i blank).value

-- The live entries lie in the array and are sorted by their signed keys, with no key twice.
pub record IsValid (s : Store) : Type 0 where
  pub fits : s.count ≤ s.capacity
  pub allocated : s.capacity ≤ length s.entries
  pub small : s.capacity < 65536
  pub words : (i : ℕ) → i < s.count → IsWord (key_at s.entries i)
  pub sorted :
      (i j : ℕ) → i < j → j < s.count → bias (key_at s.entries i) < bias (key_at s.entries j)

-- What a search of the first `n` entries means: the index of the key, or the index that splits
-- the entries into those below the key and those above it.
abbrev pub Locates : List Entry → ℕ → ℕ → Place → Type 0
Locates es n key (found i) = (i < n) × (key_at es i ≡ key)
Locates es n key (absent i) =
    (i ≤ n)
    × ((j : ℕ) → j < i → bias (key_at es j) < bias key)
    × ((j : ℕ) → i ≤ j → j < n → bias key < bias (key_at es j))

module _ (es : List Entry) (n key : ℕ) (small : n < 65536) (inside : n ≤ length es)
    (word : IsWord key) (words : (i : ℕ) → i < n → IsWord (key_at es i))
    (sorted : (i j : ℕ) → i < j → j < n → bias (key_at es i) < bias (key_at es j)) where
  -- What the loop has learnt of the entries outside left..right.
  record Inv (left right : ℕ) : Type 0 where
    ordered : left ≤ right
    bounded : right ≤ n
    below : (j : ℕ) → j < left → bias (key_at es j) < bias key
    above : (j : ℕ) → right ≤ j → j < n → bias key < bias (key_at es j)

  module _ (left right : ℕ) (inv : Inv left right) (h : left < right) where
    upper-Inv :
        (mid : ℕ) → left ≤ mid → mid < right → bias (key_at es mid) < bias key → Inv (mid + 1) right
    upper-Inv mid p q lt = record {
      ordered = omega arith;
      bounded = inv.bounded;
      below = λ j r. ground (arith, sorted j mid, inv.bounded);
      above = inv.above;
    }

    lower-Inv :
        (mid : ℕ) → left ≤ mid → mid < right → bias key < bias (key_at es mid) → Inv left mid
    lower-Inv mid p q lt = record {
      ordered = omega arith;
      bounded = omega (arith, inv.bounded);
      below = inv.below;
      above = λ j r t. ground (arith, sorted mid j, inv.bounded);
    }

  -- The midpoint does not wrap, and lies in the range.
  mid_exact :
      (left right : ℕ)
      → left < right
      → right ≤ n
      → (u16 (left + (right - left) / 2) ≡ left + (right - left) / 2)
        × (left + (right - left) / 2 < right)
        × (u16 (left + (right - left) / 2 + 1) ≡ left + (right - left) / 2 + 1)
  mid_exact left right h b = omega arith

  bsearch_loop-Locates :
      (fuel left right : ℕ)
      → right - left < fuel
      → Inv left right
      → Returns (bsearch_loop fuel es key left right) (Locates es n key)
  unfolding bsearch_loop
  bsearch_loop-Locates zero left right m inv = absurd (omega arith)
  bsearch_loop-Locates (suc fuel) left right m inv = elim (dec_lt left right) [
    | no empty ↦ ground (arith, inv)
    | yes h ↦
        let mid = left + (right - left) / 2 in
        ground (
          arith,
          mid_exact left right h inv.bounded,
          get_elem?-eq-get_or es mid blank,
          bias_injective (key_at es mid) key,
          words mid,
          upper-Inv left right inv h mid,
          lower-Inv left right inv h mid,
          bsearch_loop-Locates fuel (mid + 1) right,
          bsearch_loop-Locates fuel left mid,
        )
  ]

-- On a valid store kvs_bsearch of a 32-bit key returns: the index of the live entry with that key,
-- or the index that splits the live entries into those with smaller and those with greater signed
-- keys.
pub bsearch-Locates :
    (s : Store) (key : ℕ)
    → IsValid s
    → IsWord key
    → Returns (bsearch s key) (Locates s.entries s.count key)
unfolding bsearch
bsearch-Locates s key v word =
    let loop =
      bsearch_loop-Locates s.entries s.count key (omega arith) (omega arith) word v.words v.sorted
        (suc s.count) 0 s.count in
    ground (
      arith,
      loop (omega arith) (record {
        ordered = omega arith;
        bounded = omega arith;
        below = λ j h. absurd (omega arith);
        above = λ j h k. absurd (omega arith);
      }),
    )

module _ (s : Store) (key : ℕ) (v : IsValid s) (word : IsWord key) where
  -- The two outcomes, as cases that keep the equation.
  pub bsearch-cases :
      ((i : ℕ) × (bsearch s key ≡ done (found i)) × Locates s.entries s.count key (found i))
      ⊎ ((i : ℕ) × (bsearch s key ≡ done (absent i)) × Locates s.entries s.count key (absent i))
  bsearch-cases =
      (elim (bsearch s key)
          as (λ r.
            Returns r (Locates s.entries s.count key)
            → ((i : ℕ) × (r ≡ done (found i)) × Locates s.entries s.count key (found i))
              ⊎ ((i : ℕ) × (r ≡ done (absent i)) × Locates s.entries s.count key (absent i))) [
                | done (found i) ↦ λ h. inl (i, refl, h)
                | done (absent i) ↦ λ h. inr (i, refl, h)
                | fault ↦ λ h. absurd h
              ])
        (bsearch-Locates s key v word)

  -- A live index with the key is the index that the search finds.
  pub bsearch_at : (i : ℕ) → i < s.count → key_at s.entries i ≡ key → bsearch s key ≡ done (found i)
  bsearch_at i h e = elim bsearch-cases [
    | inl (k, eq, (b, ek)) ↦
        eq ∙ ap (λ t. done (found t)) (ground (arith, v.sorted i k, v.sorted k i))
    | inr (k, eq, (b, lo, hi)) ↦ absurd (ground (arith, lo i, hi i))
  ]

  -- If no live entry has the key the search says so.
  pub bsearch_absent :
      ((i : ℕ) → i < s.count → key_at s.entries i ≢ key)
      → (k : ℕ) × (bsearch s key ≡ done (absent k))
  bsearch_absent none_there = elim bsearch-cases [
    | inl (k, eq, (b, ek)) ↦ absurd (none_there k b ek)
    | inr (k, eq, _) ↦ (k, eq)
  ]
