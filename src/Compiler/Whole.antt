-- ===== src/Compiler/Whole.antt =====
-- The contract of an action that works on the program: what it takes off the current line and the
-- lines ahead. Code may be patched anywhere.
use nanoc.Base.{
  ℕ, suc, ◌+◌, ◌<◌, ◌≤◌, ◌≡◌, refl, false, Option, List, [], ◌∷◌, ap, ltb, ◌==◌, length, set,
  length-set, ◌∙◌, Bool-cases, inl, inr, arith,
}
use nanoc.Base.Word.{u8}
use nanoc.Compiler.State.{
  Comp, Symbol, Error, Result, M, ok, raised, fault, out_of_fuel, modify, emit, patch, set_symbol,
  reserve,
}
use nanoc.Compiler.Lexer.{lookahead, match}
use nanoc.Compiler.Contract.{
  Contract, Sound, Takes, Eats-Keeps, Takes-bind, Keeps-bind, Sound-trans, after_error,
  contract_rules,
}
use nanoc.Compiler.Takes.{left, Ready, After, line, After-raise, Keeps-emit, Keeps-set_symbol}
use nanoc.Compiler.Taken.Tokens.{Keeps-lookahead, Eats-match}

-- The bytes of the lines ahead, with two more for each.
abbrev pub sum : List (List ℕ) → ℕ
sum [] = 0
sum (l ∷ ls) = suc (suc (length l)) + sum ls

abbrev pub total : Comp → ℕ
total c = left c.pos + sum c.lines

-- No line is longer than `get_line` lets pass.
pub record Fit (c : Comp) : Type 0 where
  pub ready : Ready c
  pub short : left c.pos < 128

-- At least `d` bytes of the program were taken.
pub record Since (d : ℕ) (c c' : Comp) : Type 0 where
  pub fit : Fit c'
  pub shorter : total c' + d ≤ total c
  pub size : length c'.code ≡ length c.code

pub Since-refl : (c : Comp) → Fit c → Since 0 c c
Since-refl c h = record { fit = h; shorter = omega arith; size = refl }

pub Since-trans : (d e : ℕ) (c c' c'' : Comp) → Since d c c' → Since e c' c'' → Since (d + e) c c''
Since-trans d e c c' c'' h k =
    let a = h.shorter in
    let b = k.shorter in record { fit = k.fit; shorter = omega arith; size = k.size ∙ h.size }

pub Since-weaken : (d : ℕ) (c c' : Comp) → Since d c c' → Since 0 c c'
Since-weaken d c c' h =
    let a = h.shorter in record { fit = h.fit; shorter = omega arith; size = h.size }

pub Since-less : (d : ℕ) (c c' : Comp) → Since (suc d) c c' → Since d c c'
Since-less d c c' h =
    let a = h.shorter in record { fit = h.fit; shorter = omega arith; size = h.size }

pub Since-After : (d : ℕ) (c c' : Comp) → Fit c → After d c c' → Since d c c'
Since-After d c c' h k =
    let s = h.short in
    let a = k.shorter in
    let e : sum c'.lines ≡ sum c.lines = ap sum k.lines in
    record {
      fit = record { ready = k.ready; short = omega arith };
      shorter = omega arith;
      size = k.size;
    }

pub Since-error : (e : Error) (c : Comp) → Fit c → Since 0 c (after_error e c)
Since-error e c h = Since-After 0 c (after_error e c) h (After-raise e c h.ready)

-- On a whole program.
abbrev pub program : Contract
program = record {
  ready = Fit;
  size = total;
  after = Since;
  to_ready = λ d c c' h. h.fit;
  to_smaller = λ d c c' h. h.shorter;
  stay = Since-refl;
  chain = Since-trans;
  weaken = Since-weaken;
  on_error = Since-error;
}

abbrev pub Runs : {A : Type 0} → ℕ → M A → Type 0
Runs f m = Takes program 0 f m

abbrev pub Advances : {A : Type 0} → ℕ → M A → Type 0
Advances f m = Takes program 1 f m

-- What works on a line works on the program.
pub Sound-line :
    {A : Type 0} (d : ℕ) (c : Comp) (r : Result A) → Fit c → Sound line d c r → Sound program d c r
Sound-line d c (ok a c') h k = Since-After d c c' h k
Sound-line d c (raised c') h k = Since-After 0 c c' h k
Sound-line d c fault h k = tt
Sound-line d c out_of_fuel h k = k

pub from_line : {A : Type 0} (d f : ℕ) (m : M A) → Takes line d 128 m → Takes program d f m
from_line d f m h = record { at = λ c r lt. Sound-line d c (m c) r (h.at c r.ready r.short) }

-- A change of what the contract does not look at.
abbrev Seen : Type 0
Seen = Option (List ℕ) × Option (List ℕ) × List (List ℕ) × ℕ

abbrev seen : Comp → Seen
seen c = (c.pos, c.next_pos, c.lines, length c.code)

pub Since-seen : (c c' : Comp) → seen c' ≡ seen c → Fit c → Since 0 c c'
Since-seen c c' e h =
    let p : c'.pos ≡ c.pos = ap (λ s. s.0) e in
    let n : c'.next_pos ≡ c.next_pos = ap (λ s. s.1) e in
    let l : c'.lines ≡ c.lines = ap (λ s. s.2) e in
    let k : length c'.code ≡ length c.code = ap (λ s. s.3) e in
    let fits = h.ready.fits in
    let ahead = h.ready.ahead in
    let short = h.short in
    record {
      fit = record {
        ready = record { fits = rw k fits; ahead = rw (p, n) ahead };
        short = rw p short;
      };
      shorter = rw (p, l) (omega arith);
      size = k;
    }

module _ (f : ℕ) where
  pub Runs-modify : (g : Comp → Comp) → ((c : Comp) → seen (g c) ≡ seen c) → Runs f (modify g)
  unfolding modify
  Runs-modify g same = record { at = λ c h lt. Since-seen c (g c) (same c) h }

  pub Runs-reserve : (n : ℕ) → Runs f (reserve n)
  unfolding reserve
  Runs-reserve n = Runs-modify _ (λ c. refl)

  pub Runs-patch : (i b : ℕ) → Runs f (patch i b)
  unfolding patch
  Runs-patch i b = record {
    at = λ c h lt. elim (Bool-cases (ltb i (length c.code))) [
      | inl e ↦ rw e (
          Since-seen c (record c { code = set c.code i (u8 b) })
            (ap (λ n. (c.pos, c.next_pos, c.lines, n)) (length-set c.code i (u8 b))) h)
      | inr e ↦ rw e tt
    ];
  }

  pub Runs-emit : (b : ℕ) → Runs f (emit b)
  Runs-emit b = from_line 0 f (emit b) (Keeps-emit 128 b)

  pub Runs-set_symbol : (i : ℕ) (g : Symbol → Symbol) → Runs f (set_symbol i g)
  Runs-set_symbol i g = from_line 0 f (set_symbol i g) (Keeps-set_symbol 128 i g)

  pub Runs-lookahead : Runs f lookahead
  Runs-lookahead = from_line 0 f lookahead (Keeps-lookahead 128)

  pub Advances-match : (t : ℕ) → (t == 0) ≡ false → Advances f (match t)
  Advances-match t ne = from_line 1 f (match t) (Eats-match 128 t ne)

  pub Runs-match : (t : ℕ) → (t == 0) ≡ false → Runs f (match t)
  Runs-match t ne = Eats-Keeps program f (match t) (Advances-match t ne)

pub ruleset program_rules = (
  contract_rules, Runs-modify, Runs-reserve, Runs-patch, Runs-emit, Runs-set_symbol, Runs-lookahead,
  Runs-match, Advances-match,
)
