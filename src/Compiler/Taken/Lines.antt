-- ===== src/Compiler/Taken/Lines.antt =====
-- Reading the next token where the end of the line is possible, and the next line.
use nanoc.Base.{
  ℕ, zero, suc, ◌<◌, ◌≡◌, ◌≢◌, refl, false, Option, none, some, List, ◌==◌, Bool-cases, inl, inr,
  arith,
}
use nanoc.Compiler.State.{
  Comp, Result, M, ok, raised, fault, out_of_fuel, continue, ◌>>=◌, ◌>>◌, pure, gets, modify,
}
use nanoc.Compiler.Lexer.{lookahead, fetch, same_place, next, token_from, next_token, skip_colons}
use nanoc.Compiler.Contract.{Sound, Sound-trans}
use nanoc.Compiler.Takes.{
  left, Ready, After, line, After-seen, After-trans, After-shorter, After-refl,
}
use nanoc.Compiler.Whole.{total, Fit, Since, program, Runs, Advances, Since-After}
use nanoc.Compiler.Taken.Tokens.{
  Took, next-Took, Ahead, Reads, Fetched, token_from-Reads, After-step, fetch-Fetched,
}

nonzero : (n : ℕ) → (suc n == 0) ≡ false
nonzero n = ground arith

module _ {B : Type 0} (f : ℕ) (k : ℕ → M B) (on_token : (t : ℕ) → (t == 0) ≡ false → Runs f (k t))
    (at_end : Advances (suc f) (k 0)) where
  after_next :
      (c : Comp) (r : Result ℕ)
      → Fit c
      → total c < suc f
      → Took c r
      → Sound program 1 c (continue r k)
  after_next c (ok zero c') h lt (a, t) =
      let s = Since-After 0 c c' h a in
      let le = s.shorter in
      Sound-trans program 0 1 c c' (k 0 c') s (at_end.at c' s.fit (omega arith))
  after_next c (ok (suc n) c') h lt (a, t) =
      let s = Since-After 1 c c' h (After-shorter c c' a (t (λ e. omega arith))) in
      let le = s.shorter in
      Sound-trans program 1 0 c c' (k (suc n) c') s
        ((on_token (suc n) (nonzero n)).at c' s.fit (omega arith))
  after_next c (raised c') h lt a = Since-After 0 c c' h a
  after_next c fault h lt a = tt
  after_next c out_of_fuel h lt a = a

  -- A token that is not the end of the line is taken off the line.
  pub Advances-next : Advances (suc f) (next >>= k)
  unfolding ◌>>=◌
  Advances-next = record { at = λ c h lt. after_next c (next c) h lt (next-Took c h.ready) }

runs_next : (c : Comp) (r : Result ℕ) → Fit c → Took c r → Sound program 0 c r
runs_next c (ok t c') h (a, _) = Since-After 0 c c' h a
runs_next c (raised c') h a = Since-After 0 c c' h a
runs_next c fault h a = tt
runs_next c out_of_fuel h a = a

pub Runs-next : (f : ℕ) → Runs f next
Runs-next f = record { at = λ c h lt. runs_next c (next c) h (next-Took c h.ready) }

module _ {B : Type 0} (f : ℕ) (k : ℕ → M B)
    (go : (t : ℕ) (c : Comp)
      → Fit c
      → total c < f
      → c.next_tok ≡ t
      → (t ≢ 0 → Ahead c)
      → Sound program 0 c (k t c)) where
  after_fetch :
      (c : Comp) (r : Result (Unit {0}))
      → Fit c
      → total c < f
      → Fetched c r
      → Sound program 0 c (continue (continue r (λ _. gets (λ c'. c'.next_tok))) k)
  unfolding gets
  after_fetch c (ok u c') h lt (a, t) =
      let s = Since-After 0 c c' h a in
      let le = s.shorter in
      Sound-trans program 0 0 c c' (k c'.next_tok c') s
        (go c'.next_tok c' s.fit (omega arith) refl t)
  after_fetch c (raised c') h lt a = Since-After 0 c c' h a
  after_fetch c fault h lt a = tt
  after_fetch c out_of_fuel h lt a = a

  -- What follows may use that the token is still ahead.
  pub Runs-ahead : Runs f (lookahead >>= k)
  unfolding ◌>>=◌ lookahead
  Runs-ahead = record { at = λ c h lt. after_fetch c (fetch c) h lt (fetch-Fetched c h.ready) }

ahead_apart : (p q : Option (List ℕ)) → left q < left p → same_place p q ≡ false
ahead_apart none none lt = absurd (omega arith)
ahead_apart none (some t) lt = refl
ahead_apart (some s) none lt = refl
ahead_apart (some s) (some t) lt = ground arith

-- `next` takes the token that is ahead.
pub next-Ahead : (c : Comp) → Ahead c → next c ≡ ok c.next_tok (record c { pos = c.next_pos })
unfolding next fetch gets modify ◌>>=◌ pure
next-Ahead c lt = rw (ahead_apart c.pos c.next_pos lt) refl

pub Since-next : (c : Comp) → Fit c → Ahead c → Since 1 c (record c { pos = c.next_pos })
Since-next c h lt =
    Since-After 1 c (record c { pos = c.next_pos }) h
      (After-shorter c (record c { pos = c.next_pos }) (After-step c h.ready) lt)

-- The colons at the start of a line.
module _ (n : ℕ)
    (rest : (c : Comp)
      → Ready c
      → (c.next_tok ≢ 0 → Ahead c)
      → left c.pos < n
      → Sound line 0 c (skip_colons n c)) where
  After-colon :
      (c c' : Comp) (r : Result ℕ)
      → After 0 c c'
      → left c'.pos < n
      → Reads c' r
      → Sound line 0 c
          (continue r (λ tok. modify (λ s. record s { next_tok = tok }) >> skip_colons n))
  unfolding modify ◌>>=◌
  After-colon c c' (ok tok d) a lt (b, k) =
      let e = record d { next_tok = tok } in
      let ab = After-trans 0 0 c c' d a b in
      let s = b.shorter in
      let i = After-trans 0 0 c d e ab (After-seen d e refl b.ready) in
      Sound-trans line 0 0 c e (skip_colons n e) i (rest e i.ready k (omega arith))
  After-colon c c' (raised d) a lt b = After-trans 0 0 c c' d a b
  After-colon c c' fault a lt b = tt
  After-colon c c' out_of_fuel a lt b = b

pub skip_colons-Sound :
    (n : ℕ) (c : Comp)
    → Ready c
    → (c.next_tok ≢ 0 → Ahead c)
    → left c.pos < n
    → Sound line 0 c (skip_colons n c)
unfolding skip_colons gets modify ◌>>=◌ next_token pure
skip_colons-Sound zero c h k lt = absurd (omega arith)
skip_colons-Sound (suc n) c h k lt = elim (Bool-cases (c.next_tok == b':')) [
  | inl e ↦
      (let ahead = k (λ z. ground arith) in
        let c' = record c { pos = c.next_pos } in
        let step = After-step c h in
        rw e (
          After-colon n (skip_colons-Sound n) c c' (token_from c.next_pos c') step (omega arith)
            (token_from-Reads c.next_pos c' refl step.ready)))
  | inr e ↦ rw e (After-refl c h)
]
