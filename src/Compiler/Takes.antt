-- ===== src/Compiler/Takes.antt =====
-- The contract of an action that works on the current line: what it does to the line, to the lines
-- ahead, and to the code that is there already.
use nanoc.Base.{
  ℕ, suc, ◌+◌, ◌<◌, ◌≤◌, ◌≡◌, refl, true, Option, none, some, List, ltb, length, get_or, set,
  length-set, get_or-set_ne, Bool-cases, ltb→lt, ap, inl, inr, arith,
}
use nanoc.Base.Word.{u8, u16}
use nanoc.Compiler.State.{Comp, Symbol, Error, M, modify, set_symbol, emit, cut}
use nanoc.Compiler.Contract.{Contract, Takes, contract_rules, after_error}

-- The bytes that are left at a pointer into the line, with the one that ends the line.
abbrev pub left : Option (List ℕ) → ℕ
left none = 0
left (some s) = suc (length s)

-- The code has a 16-bit address, and the next token starts at `p_pos` or behind it.
pub record Ready (c : Comp) : Type 0 where
  pub fits : length c.code < 65536
  pub ahead : left c.next_pos ≤ left c.pos

-- From `c` to `c'` at least `d` bytes were taken off the line and no line was read. Code was
-- appended, and what was there is unchanged.
pub record After (d : ℕ) (c c' : Comp) : Type 0 where
  pub ready : Ready c'
  pub shorter : left c'.pos + d ≤ left c.pos
  pub lines : c'.lines ≡ c.lines
  pub size : length c'.code ≡ length c.code
  pub grown : c.pc ≤ c'.pc
  pub kept : (i : ℕ) → i < c.pc → get_or c'.code i 0 ≡ get_or c.code i 0

-- What the rules look at.
abbrev Seen : Type 0
Seen = Option (List ℕ) × Option (List ℕ) × List (List ℕ) × List ℕ × ℕ

abbrev seen : Comp → Seen
seen c = (c.pos, c.next_pos, c.lines, c.code, c.pc)

left-cut : (p : Option (List ℕ)) → left (cut p) ≤ left p
left-cut none = omega arith
left-cut (some s) = omega arith

pub After-refl : (c : Comp) → Ready c → After 0 c c
After-refl c h = record {
  ready = h;
  shorter = omega arith;
  lines = refl;
  size = refl;
  grown = omega arith;
  kept = λ i _. refl;
}

pub After-trans : (d e : ℕ) (c c' c'' : Comp) → After d c c' → After e c' c'' → After (d + e) c c''
After-trans d e c c' c'' h k =
    let a = h.shorter in
    let b = k.shorter in
    let s = h.size in
    let t = k.size in
    let p = h.grown in
    let q = k.grown in
    let l : c''.lines ≡ c.lines = rw (k.lines, h.lines) refl in
    record {
      ready = k.ready;
      shorter = omega arith;
      lines = l;
      size = omega arith;
      grown = omega arith;
      kept = λ i lt. rw (k.kept i (omega arith), h.kept i lt) refl;
    }

pub After-shorter : (c c' : Comp) → After 0 c c' → left c'.pos < left c.pos → After 1 c c'
After-shorter c c' h lt = record {
  ready = h.ready;
  shorter = omega arith;
  lines = h.lines;
  size = h.size;
  grown = h.grown;
  kept = h.kept;
}

pub After-weaken : (d : ℕ) (c c' : Comp) → After d c c' → After 0 c c'
After-weaken d c c' h =
    let a = h.shorter in
    record {
      ready = h.ready;
      shorter = omega arith;
      lines = h.lines;
      size = h.size;
      grown = h.grown;
      kept = h.kept;
    }

pub After-seen : (c c' : Comp) → seen c' ≡ seen c → Ready c → After 0 c c'
After-seen c c' e h =
    let p : c'.pos ≡ c.pos = ap (λ s. s.0) e in
    let n : c'.next_pos ≡ c.next_pos = ap (λ s. s.1) e in
    let l : c'.lines ≡ c.lines = ap (λ s. s.2) e in
    let k : c'.code ≡ c.code = ap (λ s. s.3) e in
    let i : c'.pc ≡ c.pc = ap (λ s. s.4) e in
    let fits = h.fits in
    let ahead = h.ahead in
    record {
      ready = record { fits = rw k fits; ahead = rw (p, n) ahead };
      shorter = rw p (omega arith);
      lines = l;
      size = rw k refl;
      grown = rw i (omega arith);
      kept = λ i lt. rw k refl;
    }

pub After-raise : (e : Error) (c : Comp) → Ready c → After 0 c (after_error e c)
After-raise e c h =
    let a = h.ahead in
    let b = left-cut c.next_pos in
    record {
      ready = record { fits = h.fits; ahead = omega arith };
      shorter = omega arith;
      lines = refl;
      size = refl;
      grown = omega arith;
      kept = λ i _. refl;
    }

-- On one line.
abbrev pub line : Contract
line = record {
  ready = Ready;
  size = λ c. left c.pos;
  after = After;
  to_ready = λ d c c' h. h.ready;
  to_smaller = λ d c c' h. h.shorter;
  stay = After-refl;
  chain = After-trans;
  weaken = After-weaken;
  on_error = After-raise;
}

abbrev pub Keeps : {A : Type 0} → ℕ → M A → Type 0
Keeps f m = Takes line 0 f m

abbrev pub Eats : {A : Type 0} → ℕ → M A → Type 0
Eats f m = Takes line 1 f m

After-emit :
    (c : Comp) (b : ℕ)
    → ltb c.pc (length c.code) ≡ true
    → Ready c
    → After 0 c (record c { code = set c.code c.pc (u8 b); pc = u16 (c.pc + 1) })
After-emit c b e h =
    let fits = h.fits in
    let ahead = h.ahead in
    let lt = ltb→lt c.pc (length c.code) e in
    let size = length-set c.code c.pc (u8 b) in
    record {
      ready = record { fits = omega arith; ahead = ahead };
      shorter = omega arith;
      lines = refl;
      size = size;
      grown = omega arith;
      kept = λ i lt. get_or-set_ne c.code c.pc i (u8 b) 0 (omega arith);
    }

module _ (f : ℕ) where
  -- A change of what the rules do not look at.
  pub Keeps-modify : (g : Comp → Comp) → ((c : Comp) → seen (g c) ≡ seen c) → Keeps f (modify g)
  unfolding modify
  Keeps-modify g same = record { at = λ c h lt. After-seen c (g c) (same c) h }

  pub Keeps-set_symbol : (i : ℕ) (g : Symbol → Symbol) → Keeps f (set_symbol i g)
  unfolding set_symbol
  Keeps-set_symbol i g = Keeps-modify (λ c. record c { symbols = _ }) (λ c. refl)

  pub Keeps-emit : (b : ℕ) → Keeps f (emit b)
  unfolding emit
  Keeps-emit b = record {
    at = λ c h lt. elim (Bool-cases (ltb c.pc (length c.code))) [
      | inl e ↦ rw e (After-emit c b e h)
      | inr e ↦ rw e tt
    ];
  }

pub ruleset takes_rules = (contract_rules, Keeps-set_symbol, Keeps-emit, Keeps-modify)
