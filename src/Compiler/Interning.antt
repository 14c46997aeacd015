-- ===== src/Compiler/Interning.antt =====
-- `sym_add` of src/nc_compiler.c gives a name its entry again.
use nanoc.Base.{
  ℕ, zero, suc, ◌+◌, ◌-◌, ◌≤◌, ◌≡◌, ◌≢◌, refl, Bool, true, false, not, ◌&&◌, ◌||◌, Option, none,
  some, List, [], ◌∷◌, ◌==◌, if◌then◌else◌, length, get_or, set, Bool-cases, inl, inr, arith, ltb,
  ◌∙◌, ap,
}
use nanoc.Compiler.State.{
  Comp, Symbol, Result, ok, fault, ◌>>=◌, pure, gets, modify, raise, symbol, set_symbol, blank,
}
use nanoc.Compiler.Tokens.{tok_label}
use nanoc.Compiler.Symbols.{
  same_text, is_free, short_name, first_free, or_else, find, fresh, add_new, sym_found, sym_add,
}

same_text_refl : (s : List ℕ) → same_text s s ≡ true
unfolding same_text
same_text_refl [] = refl
same_text_refl (c ∷ s) = let rest = same_text_refl s in ground arith

-- An entry of the name.
abbrev matches : List ℕ → Symbol → Bool
matches name s = not (is_free s) && same_text s.name name

some_if :
    (b : Bool) (k : ℕ) (o : Option ℕ)
    → (n : ℕ) × (o ≡ some n)
    → (n : ℕ) × ((if b then some k else o) ≡ some n)
some_if true k o h = (k, refl)
some_if false k o h = h

either_way :
    (b : Bool) (k : ℕ) (o a : Option ℕ) → some k ≡ a → o ≡ a → (if b then some k else o) ≡ a
either_way true k o a h h' = h
either_way false k o a h h' = h'

some-none : (o : Option ℕ) → (n : ℕ) × (o ≡ some n) → o ≢ none
some-none o (n, e) h = cc

some_inj : (m n : ℕ) → some m ≡ some n → m ≡ n
some_inj m n e = cc

module _ (in_func : Bool) (name : List ℕ) where
  -- What was found once stays found.
  find_found :
      (m k : ℕ) (table : List Symbol) → (n : ℕ) × (find in_func name (some m) k table ≡ some n)
  unfolding find
  find_found m k [] = (m, refl)
  find_found m k (s ∷ table) = elim (Bool-cases (matches name s)) [
    | inl e ↦ rw e (some_if (s.is_local || not in_func) k _ (find_found m (k + 1) table))
    | inr e ↦ rw e (find_found m (k + 1) table)
  ]

  find-none :
      (m k : ℕ) (table : List Symbol)
      → find in_func name none k table ≡ none
      → find in_func name (some m) k table ≡ some m
  unfolding find
  find-none m k [] h = refl
  find-none m k (s ∷ table) h = elim (Bool-cases (matches name s)) [
    | inl e ↦ absurd (
        some-none _ (some_if (s.is_local || not in_func) k _ (find_found k (k + 1) table))
          (rw e at h))
    | inr e ↦ rw e (find-none m (k + 1) table (rw e at h))
  ]

  find_new :
      (k n : ℕ) (table : List Symbol) (t : Symbol)
      → find in_func name none k table ≡ none
      → first_free k table ≡ some n
      → matches name t ≡ true
      → (k ≤ n) × (find in_func name none k (set table (n - k) t) ≡ some n)
  unfolding find first_free
  find_new k n [] t h f e = absurd (cc)
  find_new k n (s ∷ table) t h f e = elim (Bool-cases (is_free s)) [
    | inl o ↦
        (let same : k ≡ n = some_inj k n (rw o at f) in
          let z : n - k ≡ 0 = omega arith in
          let none_left : find in_func name none (k + 1) table ≡ none = rw o at h in
          let found : some k ≡ some n = ap some same in
          (
            omega arith,
            rw z (
                rw e (
                  either_way (t.is_local || not in_func) k _ (some n) found
                    (find-none k (k + 1) table none_left ∙ found))),
          ))
    | inr o ↦ (elim (Bool-cases (matches name s)) [
      | inl e' ↦ absurd (
          some-none _ (some_if (s.is_local || not in_func) k _ (find_found k (k + 1) table))
            (rw e' at h))
      | inr e' ↦
          (let (le, found) = find_new (k + 1) n table t (rw e' at h) (rw o at f) e in
            let z : n - k ≡ suc (n - (k + 1)) = omega arith in (omega arith, rw z (rw e' found)))
    ])
  ]

  -- The search does not look at the value of a symbol.
  find_value :
      (found : Option ℕ) (k j v : ℕ) (table : List Symbol)
      → find in_func name found k (set table j (record (get_or table j blank) { value = v }))
        ≡ find in_func name found k table
  unfolding find
  find_value found k j v [] = refl
  find_value found k zero v (s ∷ table) = refl
  find_value found k (suc j) v (s ∷ table) =
      rw (find_value (if matches name s then or_else found k else found) (k + 1) j v table) refl

abbrev inside : Comp → Bool
inside c = c.running && c.in_func

-- The search for the name finds the entry that was returned.
abbrev Named : List ℕ → Result ℕ → Type 0
Named name (ok i c) = find (inside c) name none 0 c.symbols ≡ some i
Named name _ = Unit {0}

Named-if : (name : List ℕ) (b : Bool) (c : Comp) → Named name (if b then Result.raised c else fault)
Named-if name true c = tt
Named-if name false c = tt

add_new-Named :
    (name : List ℕ) (val type : ℕ) (o : Option ℕ) (c : Comp)
    → length name ≢ 0
    → find (inside c) name none 0 c.symbols ≡ none
    → first_free 0 c.symbols ≡ o
    → Named name (add_new name val type o c)
unfolding add_new raise set_symbol modify pure ◌>>=◌
add_new-Named name val type none c ne h f = Named-if name c.running _
add_new-Named name val type (some n) c ne h f =
    let t = fresh name val type (get_or c.symbols n blank) in
    let m : matches name t ≡ true = let r = same_text_refl name in ground arith in
    let (_, new) = find_new (inside c) name 0 n c.symbols t h f m in
    let z : n - 0 ≡ n = omega arith in
    let found = rw z at new in
    elim (Bool-cases (type == tok_label)) [ inl e ↦ rw e found | inr e ↦ rw e found ]

sym_found-Named :
    (name : List ℕ) (val type : ℕ) (o : Option ℕ) (c : Comp)
    → length name ≢ 0
    → find (inside c) name none 0 c.symbols ≡ o
    → Named name (sym_found name val type o c)
unfolding sym_found gets symbol set_symbol modify pure ◌>>=◌
sym_found-Named name val type none c ne h =
    add_new-Named name val type (first_free 0 c.symbols) c ne h refl
sym_found-Named name val type (some i) c ne h =
    elim (Bool-cases (
      ((get_or c.symbols i blank).value == 0)
      && ((get_or c.symbols i blank).type == tok_label)
      && ltb 0 val)) [
        | inl e ↦ rw e (find_value (inside c) name none 0 i val c.symbols ∙ h)
        | inr e ↦ rw e h
      ]

short_nonempty : (id : List ℕ) → id ≢ [] → length (short_name id) ≢ 0
short_nonempty [] ne = absurd (ne refl)
short_nonempty (c ∷ s) ne = omega arith

sym_add-Named :
    (id : List ℕ) (val type : ℕ) (c : Comp)
    → id ≢ []
    → Named (short_name id) (sym_add id val type c)
unfolding sym_add gets ◌>>=◌
sym_add-Named id val type c ne =
    sym_found-Named (short_name id) val type (find (inside c) (short_name id) none 0 c.symbols) c
      (short_nonempty id ne) refl

sym_found_ok :
    (name : List ℕ) (val type i : ℕ) (c : Comp)
    → (c' : Comp) × (sym_found name val type (some i) c ≡ ok i c')
      × (c'.curr_var_idx ≡ c.curr_var_idx)
unfolding sym_found symbol gets set_symbol modify pure ◌>>=◌
sym_found_ok name val type i c =
    elim (Bool-cases (
      ((get_or c.symbols i blank).value == 0)
      && ((get_or c.symbols i blank).type == tok_label)
      && ltb 0 val)) [
        | inl e ↦ (
          record c {
            symbols = set c.symbols i (record (get_or c.symbols i blank) { value = val });
          },
          rw e refl,
          refl,
        )
        | inr e ↦ (c, rw e refl, refl)
      ]

again :
    (id : List ℕ) (val type i : ℕ) (c c' : Comp)
    → find (inside c) (short_name id) none 0 c.symbols ≡ some i
    → sym_found (short_name id) val type (some i) c ≡ ok i c'
    → sym_add id val type c ≡ ok i c'
unfolding sym_add gets ◌>>=◌
again id val type i c c' named found = rw named found

-- If sym_add of a name that is not empty returned an index, in whatever state and with whatever
-- value and type, then sym_add of that name in the state it left returns the same index, whatever
-- value and type it is given now, and takes no variable index.
pub sym_add-sym_add :
    (id : List ℕ) (val type val' type' i : ℕ) (c c' : Comp)
    → id ≢ []
    → sym_add id val type c ≡ ok i c'
    → (c'' : Comp) × (sym_add id val' type' c' ≡ ok i c'') × (c''.curr_var_idx ≡ c'.curr_var_idx)
sym_add-sym_add id val type val' type' i c c' ne h =
    let named : find (inside c') (short_name id) none 0 c'.symbols ≡ some i =
      rw h at (sym_add-Named id val type c ne) in
    let (c'', found, same) = sym_found_ok (short_name id) val' type' i c' in
    (c'', again id val' type' i c' c'' named found, same)
