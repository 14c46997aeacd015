-- ===== src/Compiler/Taken/NextLine.antt =====
-- `get_line`: the next line of the program becomes the current one.
use nanoc.Base.{
  ℕ, suc, ◌+◌, ◌<◌, ◌≡◌, refl, Bool, true, false, some, List, [], ◌∷◌, ltb, ap, sym, if◌then◌else◌,
  length, set, Bool-cases, inl, inr, arith, Option-cases, Run-cases,
}
use nanoc.Base.Word.{u16}
use nanoc.Vm.Text.{atoi}
use nanoc.Compiler.State.{
  Comp, Result, M, ok, raised, out_of_fuel, continue, ◌>>=◌, ◌>>◌, pure, gets, modify, raise,
  line_too_long, lift,
}
use nanoc.Compiler.Lexer.{
  token_from, next_token, skip_colons, start_line, trace_print, take_lines, get_line, after_prefix,
  directive, skip_blanks,
}
use nanoc.Compiler.Contract.{
  Sound, after_error, Sound-trans, Sound-weaken, Sound-continue, Keeps-bind,
}
use nanoc.Compiler.Takes.{left, line, Keeps, Keeps-modify, After-seen, After-trans}
use nanoc.Compiler.Whole.{
  sum, total, Fit, Since, program, Runs, Since-seen, Since-trans, Since-less, Since-weaken,
  Since-error, Sound-line,
}
use nanoc.Compiler.Taken.Tokens.{Reads, token_from-Reads}
use nanoc.Compiler.Taken.Lines.{skip_colons-Sound}

Keeps-trace_print : (f : ℕ) → Keeps f trace_print
unfolding trace_print
Keeps-trace_print f = record {
  at = λ c h lt. elim (Bool-cases (ltb c.pc (length c.trace))) [
    | inl e ↦ rw e (After-seen c (record c { trace = set c.trace c.pc c.linenum }) refl h)
    | inr e ↦ rw e tt
  ];
}

-- The end of `start_line`.
abbrev count_line : M (Unit {0})
count_line = do modify (λ c. record c { linenum = u16 (c.linenum + 1) }); trace_print

Keeps-count_line : (f : ℕ) → Keeps f count_line
Keeps-count_line f =
    Keeps-bind line f (modify (λ c. record c { linenum = u16 (c.linenum + 1) })) (λ _. trace_print)
      (Keeps-modify f (λ c. record c { linenum = u16 (c.linenum + 1) }) (λ c. refl))
      (λ _. Keeps-trace_print f)

after_token :
    (n : ℕ) (c : Comp) (r : Result ℕ)
    → left c.pos < n
    → Reads c r
    → Sound line 0 c (
        continue r
          (λ tok. modify (λ s. record s { next_tok = tok }) >> (skip_colons n >> count_line)))
unfolding modify ◌>>=◌
after_token n c (ok tok d) lt (b, k) =
    let e = record d { next_tok = tok } in
    let s = b.shorter in
    let i = After-trans 0 0 c d e b (After-seen d e refl b.ready) in
    Sound-trans line 0 0 c e (continue (skip_colons n e) (λ _. count_line)) i (
      Sound-continue line 0 0 n n e (skip_colons n e) (λ _. count_line) (omega arith) (omega arith)
        (skip_colons-Sound n e i.ready k (omega arith)) (λ _. Keeps-count_line n))
after_token n c (raised d) lt b = b
after_token n c Result.fault lt b = tt
after_token n c out_of_fuel lt b = b

-- The state in which the first token of a line is read.
abbrev loaded : List ℕ → Comp → Comp
loaded l c = record c { pos = some l; next_pos = some l }

loaded-Fit : (l : List ℕ) (c : Comp) → length l < 127 → Fit c → Fit (loaded l c)
loaded-Fit l c lt h = record {
  ready = record { fits = h.ready.fits; ahead = omega arith };
  short = omega arith;
}

start_line-Sound :
    (l : List ℕ) (c : Comp) → length l < 127 → Fit c → Sound program 0 (loaded l c) (start_line l c)
unfolding start_line modify ◌>>=◌ next_token gets
start_line-Sound l c lt h =
    let c' = loaded l c in
    let fit = loaded-Fit l c lt h in
    Sound-line 0 c' (start_line l c) fit (
      after_token (suc (suc (length l))) c' (token_from (some l) c') (omega arith)
        (token_from-Reads (some l) c' refl fit.ready))

-- A line was taken, unless none is left.
abbrev pub Got : Comp → Result Bool → Type 0
Got c (ok true c') = Since 1 c c'
Got c (ok false c') = Since 0 c c'
Got c (raised c') = Since 1 c c'
Got c Result.fault = Unit {0}
Got c out_of_fuel = ⊥

Got-later : (c c' : Comp) (r : Result Bool) → Since 1 c c' → Got c' r → Got c r
Got-later c c' (ok true d) h k = Since-less 1 c d (Since-trans 1 1 c c' d h k)
Got-later c c' (ok false d) h k = Since-weaken (1 + 0) c d (Since-trans 1 0 c c' d h k)
Got-later c c' (raised d) h k = Since-less 1 c d (Since-trans 1 1 c c' d h k)
Got-later c c' Result.fault h k = tt
Got-later c c' out_of_fuel h k = k

pub Got-line :
    (c c' : Comp) (r : Result (Unit {0}))
    → Since 1 c c'
    → Sound program 0 c' r
    → Got c (continue r (λ _. pure true))
unfolding pure
Got-line c c' (ok u d) h k = Since-trans 1 0 c c' d h k
Got-line c c' (raised d) h k = Since-trans 1 0 c c' d h k
Got-line c c' Result.fault h k = tt
Got-line c c' out_of_fuel h k = k

Got-error :
    {A : Type 0} (c c' : Comp) (b : Bool) (k : A → M Bool)
    → Since 1 c c'
    → Got c (continue (if b then raised c' else Result.fault) k)
Got-error c c' true k h = h
Got-error c c' false k h = tt

Since-line :
    (l : List ℕ) (rest : List (List ℕ)) (c : Comp)
    → c.lines ≡ l ∷ rest
    → Fit c
    → Since 1 c (record c { lines = rest })
Since-line l rest c e h =
    let s : sum c.lines ≡ sum (l ∷ rest) = ap sum e in
    record {
      fit = record {
        ready = record { fits = h.ready.fits; ahead = h.ready.ahead };
        short = h.short;
      };
      shorter = omega arith;
      size = refl;
    }

Since-loaded :
    (l : List ℕ) (rest : List (List ℕ)) (c : Comp)
    → c.lines ≡ l ∷ rest
    → length l < 127
    → Fit c
    → Since 1 c (loaded l (record c { lines = rest }))
Since-loaded l rest c e lt h =
    let s : sum c.lines ≡ sum (l ∷ rest) = ap sum e in
    record {
      fit = loaded-Fit l (record c { lines = rest }) lt (Since-line l rest c e h).fit;
      shorter = omega arith;
      size = refl;
    }

take_lines-Got : (ls : List (List ℕ)) (c : Comp) → c.lines ≡ ls → Fit c → Got c (take_lines ls c)
unfolding take_lines modify ◌>>=◌ raise pure lift
take_lines-Got [] c e h =
    Since-seen c (record c { lines = [] }) (ap (λ l. (c.pos, c.next_pos, l, length c.code)) (sym e))
      h
take_lines-Got (l ∷ rest) c e h =
    let c' = record c { lines = rest } in
    let step = Since-line l rest c e h in
    elim (Bool-cases (ltb 126 (length l))) [
      | inl long ↦ rw long (
          Got-error c (after_error line_too_long c') c.running _ (
            Since-trans 1 0 c c' (after_error line_too_long c') step
              (Since-error line_too_long c' step.fit)))
      | inr short ↦ rw short (elim (Option-cases (after_prefix directive (skip_blanks l))) [
        | inl o ↦ rw o (
            Got-line c (loaded l c') (start_line l c') (Since-loaded l rest c e (ground arith) h)
              (start_line-Sound l c' (ground arith) step.fit))
        | inr (s, o) ↦ rw o (elim (Run-cases (atoi s)) [
          | inl f ↦ rw f tt
          | inr (n, f) ↦
              (let d = record c' { linenum = u16 (n + 65535) } in
                rw f (
                  Got-later c d (take_lines rest d)
                    (Since-trans 1 0 c c' d step (Since-seen c' d refl step.fit))
                    (take_lines-Got rest d refl (Since-seen c' d refl step.fit).fit)))
        ])
      ])
    ]

pub get_line-Got : (c : Comp) → Fit c → Got c (get_line c)
unfolding get_line gets ◌>>=◌
get_line-Got c h = take_lines-Got c.lines c refl h

module _ {B : Type 0} (f : ℕ) (k : Bool → M B) (line_read : Runs f (k true))
    (at_end : Runs (suc f) (k false)) where
  after_get_line :
      (c : Comp) (r : Result Bool) → total c < suc f → Got c r → Sound program 0 c (continue r k)
  after_get_line c (ok true c') lt h =
      let s = h.shorter in
      Sound-weaken program 1 c (k true c')
        (Sound-trans program 1 0 c c' (k true c') h (line_read.at c' h.fit (omega arith)))
  after_get_line c (ok false c') lt h =
      let s = h.shorter in
      Sound-trans program 0 0 c c' (k false c') h (at_end.at c' h.fit (omega arith))
  after_get_line c (raised c') lt h = Since-weaken 1 c c' h
  after_get_line c Result.fault lt h = tt
  after_get_line c out_of_fuel lt h = h

  -- A line is taken off the program, unless it is at its end.
  pub Runs-get_line : Runs (suc f) (get_line >>= k)
  unfolding ◌>>=◌
  Runs-get_line = record { at = λ c h lt. after_get_line c (get_line c) lt (get_line-Got c h) }
