-- ===== src/Compiler/Taken/Tokens.antt =====
-- The tokens of src/nc_compiler.c: what reading one takes off the line.
use nanoc.Base.{
  ℕ, suc, ◌<◌, ◌≡◌, ◌≢◌, refl, false, Option, none, some, List, [], ◌∷◌, done, Run-cases, ◌==◌,
  if◌then◌else◌, Bool-cases, ap, inl, inr, arith,
}
use nanoc.Scanner.{nc_scanner}
use nanoc.Scanner.Progress.{nc_scanner_shorter}
use nanoc.Compiler.State.{
  out_of_fuel, Comp, Result, ok, raised, ◌>>=◌, pure, gets, modify, lift, raise, syntax_error, skip,
  continue,
}
use nanoc.Compiler.Symbols.{add_new, sym_found, sym_add}
use nanoc.Compiler.Lexer.{
  operator_or_error, set_value, classify, scan_token, token_from, next_token, same_place, fetch,
  lookahead, next, match,
}
use nanoc.Compiler.Still.{Unmoved, classify-Still}
use nanoc.Compiler.Contract.{Sound, Sound-trans, Takes-raise}
use nanoc.Compiler.Takes.{
  left, Ready, After, line, Keeps, Eats, takes_rules, After-seen, After-shorter, After-refl,
  After-trans,
}

left_scanned :
    (c : ℕ) (s t : List ℕ) (p : Option (List ℕ))
    → nc_scanner (c ∷ s) ≡ done (t, p)
    → left p < left (some (c ∷ s))
left_scanned c s t none e = omega arith
left_scanned c s t (some rest) e = omega (arith, (nc_scanner_shorter (c ∷ s) t rest e).1)

module _ (f : ℕ) where
  add_new-Keeps : (name : List ℕ) (val type : ℕ) (o : Option ℕ) → Keeps f (add_new name val type o)
  unfolding add_new
  add_new-Keeps name val type none = search takes_rules
  add_new-Keeps name val type (some i) = search (takes_rules)

  sym_found-Keeps :
      (name : List ℕ) (val type : ℕ) (o : Option ℕ) → Keeps f (sym_found name val type o)
  unfolding sym_found
  sym_found-Keeps name val type none = search (takes_rules, add_new-Keeps)
  sym_found-Keeps name val type (some i) = search takes_rules

  pub sym_add-Keeps : (id : List ℕ) (val type : ℕ) → Keeps f (sym_add id val type)
  unfolding sym_add
  sym_add-Keeps id val type = search (takes_rules, sym_found-Keeps)

  operator_or_error-Keeps : (o : Option ℕ) → Keeps f (operator_or_error o)
  unfolding operator_or_error
  operator_or_error-Keeps none = search takes_rules
  operator_or_error-Keeps (some t) = search takes_rules

  set_value-Keeps : (v : ℕ) → Keeps f (set_value v)
  set_value-Keeps v = search takes_rules

  classify-Keeps : (s : List ℕ) → Keeps f (classify s)
  unfolding classify
  classify-Keeps [] = search takes_rules
  classify-Keeps (c ∷ s) =
      search (takes_rules, set_value-Keeps, sym_add-Keeps, operator_or_error-Keeps) depth 14

-- A token lies ahead.
abbrev pub Ahead : Comp → Type 0
Ahead c = left c.next_pos < left c.pos

-- The run is sound, and where it returned, `P` holds of what it returned and left.
abbrev pub Ends : {A : Type 0} → (A → Comp → Type 0) → Comp → Result A → Type 0
Ends P c (ok a c') = After 0 c c' × P a c'
Ends P c (raised c') = After 0 c c'
Ends P c Result.fault = Unit {0}
Ends P c out_of_fuel = ⊥

-- The token that was read lies ahead, unless it is the end of the line.
abbrev pub Reads : Comp → Result ℕ → Type 0
Reads = Ends λ tok c. (tok ≢ 0 → Ahead c)

reads :
    (c c' : Comp) (r : Result ℕ)
    → After 0 c c'
    → Ahead c'
    → Sound line 0 c' r
    → Unmoved c' r
    → Reads c r
reads c c' (ok tok c'') h a k u =
    let p : c''.pos ≡ c'.pos = ap (λ s. s.0) u in
    let n : c''.next_pos ≡ c'.next_pos = ap (λ s. s.1) u in
    (After-trans 0 0 c c' c'' h k, λ _. rw (p, n) a)
reads c c' (raised c'') h a k u = After-trans 0 0 c c' c'' h k
reads c c' Result.fault h a k u = tt
reads c c' out_of_fuel h a k u = k

After-scan :
    (c : Comp) (t : List ℕ) (p : Option (List ℕ))
    → Ready c
    → left p < left c.pos
    → After 0 c (record c { buff = t; next_pos = p })
After-scan c t p h lt = record {
  ready = record { fits = h.fits; ahead = omega arith };
  shorter = omega arith;
  lines = refl;
  size = refl;
  grown = omega arith;
  kept = λ i _. refl;
}

scan_token-Reads :
    (b : ℕ) (s : List ℕ) (c : Comp)
    → c.pos ≡ some (b ∷ s)
    → Ready c
    → Reads c (scan_token (b ∷ s) c)
unfolding scan_token lift modify ◌>>=◌
scan_token-Reads b s c e h = elim (Run-cases (nc_scanner (b ∷ s))) [
  | inl e' ↦ rw e' tt
  | inr ((t, p), e') ↦
      (let lt : left p < left c.pos = rw e (left_scanned b s t p e') in
        let c' = record c { buff = t; next_pos = p } in
        let start = After-scan c t p h lt in
        rw e' (
          reads c c' (classify t c') start lt
            ((classify-Keeps (suc (left c.pos)) t).at c' start.ready (omega arith))
            ((classify-Still t).at c')))
]

pub token_from-Reads :
    (p : Option (List ℕ)) (c : Comp) → c.pos ≡ p → Ready c → Reads c (token_from p c)
unfolding token_from pure
token_from-Reads none c e h = (After-refl c h, λ ne. absurd (ne refl))
token_from-Reads (some []) c e h = (After-refl c h, λ ne. absurd (ne refl))
token_from-Reads (some (b ∷ s)) c e h = scan_token-Reads b s c e h

-- The token in `next_tok` lies ahead, unless it is the end of the line.
abbrev pub Fetched : Comp → Result (Unit {0}) → Type 0
Fetched = Ends λ _ c. (c.next_tok ≢ 0 → Ahead c)

pub fetched :
    (c : Comp) (r : Result ℕ)
    → Reads c r
    → Fetched c (continue r (λ tok. modify (λ c'. record c' { next_tok = tok })))
unfolding modify
fetched c (ok tok c') (h, k) = (After-trans 0 0 c c' _ h (After-seen c' _ refl h.ready), k)
fetched c (raised c') h = h
fetched c Result.fault h = tt
fetched c out_of_fuel h = h

apart : (p q : Option (List ℕ)) → same_place p q ≡ false → left p ≢ left q
apart none none e = absurd (cc)
apart none (some t) e = omega arith
apart (some s) none e = omega arith
apart (some s) (some t) e = ground arith

pub fetch-Fetched : (c : Comp) → Ready c → Fetched c (fetch c)
unfolding fetch gets ◌>>=◌ pure next_token
fetch-Fetched c h = elim (Bool-cases (same_place c.pos c.next_pos)) [
  | inl e ↦ rw e (fetched c (token_from c.pos c) (token_from-Reads c.pos c refl h))
  | inr e ↦
      (let ne = apart c.pos c.next_pos e in
        let ahead = h.ahead in rw e (After-refl c h, λ _. omega arith))
]

looked :
    (c : Comp) (r : Result (Unit {0}))
    → Fetched c r
    → Sound line 0 c (continue r (λ _. gets (λ c'. c'.next_tok)))
unfolding gets
looked c (ok u c') (h, k) = h
looked c (raised c') h = h
looked c Result.fault h = tt
looked c out_of_fuel h = h

pub Keeps-lookahead : (f : ℕ) → Keeps f lookahead
unfolding lookahead ◌>>=◌
Keeps-lookahead f = record { at = λ c h lt. looked c (fetch c) (fetch-Fetched c h) }

-- The token that was taken was on the line, unless it is the end of the line.
abbrev pub Took : Comp → Result ℕ → Type 0
Took c = Ends (λ tok c'. (tok ≢ 0 → left c'.pos < left c.pos)) c

pub After-step : (c : Comp) → Ready c → After 0 c (record c { pos = c.next_pos })
After-step c h =
    let ahead = h.ahead in
    record {
      ready = record { fits = h.fits; ahead = omega arith };
      shorter = omega arith;
      lines = refl;
      size = refl;
      grown = omega arith;
      kept = λ i _. refl;
    }

took :
    (c : Comp) (r : Result (Unit {0}))
    → Fetched c r
    → Took c (
        continue r
          (λ _. modify (λ c'. record c' { pos = c'.next_pos }) >>= λ _. gets (λ c'. c'.next_tok)))
unfolding gets modify ◌>>=◌
took c (ok u c') (h, k) =
    let s = h.shorter in
    (After-trans 0 0 c c' _ h (After-step c' h.ready), λ ne. let lt = k ne in omega arith)
took c (raised c') h = h
took c Result.fault h = tt
took c out_of_fuel h = h

pub next-Took : (c : Comp) → Ready c → Took c (next c)
unfolding next ◌>>=◌
next-Took c h = took c (fetch c) (fetch-Fetched c h)

matched :
    (t : ℕ) (c : Comp) (r : Result ℕ)
    → t ≢ 0
    → Took c r
    → Sound line 1 c (continue r (λ tok. if tok == t then skip else raise syntax_error))
unfolding pure
matched t c (ok tok c') ne (h, k) = elim (Bool-cases (tok == t)) [
  | inl e ↦
      (let lt : left c'.pos < left c.pos = k (λ z. ne (ground arith)) in
        rw e (After-shorter c c' h lt))
  | inr e ↦ rw e (
      Sound-trans line 0 1 c c' (raise syntax_error c') h
        ((Takes-raise line 1 (suc (left c'.pos)) syntax_error).at c' h.ready (omega arith)))
]
matched t c (raised c') ne h = h
matched t c Result.fault ne h = tt
matched t c out_of_fuel ne h = h

pub Eats-match : (f t : ℕ) → (t == 0) ≡ false → Eats f (match t)
unfolding match ◌>>=◌
Eats-match f t ne = record { at = λ c h lt. matched t c (next c) (ground arith) (next-Took c h) }
