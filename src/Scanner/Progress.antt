-- ===== src/Scanner/Progress.antt =====
-- What a call of `nc_scanner` (src/nc_scanner.c) cuts off a line, and that it makes progress.
use nanoc.Base.{
  ℕ, ◌+◌, ◌≤◌, ◌<◌, ◌≡◌, refl, ◌∙◌, ap, ◌≢◌, Bool, true, false, Bool-cases, inl, inr, none, some,
  List, [], ◌∷◌, ◌++◌, ◌==◌, arith, if◌then◌else◌, length, length-append, Run, done, fault, ◌>>=◌,
  Ensures, ◌&&◌, ◌||◌,
}
use mathlib.Core.List.{append_assoc}
use nanoc.Scanner.{
  Token, is_alpha, is_digit, is_wspace, is_alnum, is_comp, is_arith, is_hexdigit, skip, take_while,
  token, with_suffix, number, literal, next_is, skip_one, is_comment, scan_at, scan_line,
  nc_scanner,
}

abbrev pub All : (ℕ → Bool) → List ℕ → Type 0
All p [] = Unit
All p (c ∷ s) = (p c ≡ true) × All p s

take_while_split : (p : ℕ → Bool) (s : List ℕ) → (take_while p s).0 ++ (take_while p s).1 ≡ s
unfolding take_while
take_while_split p [] = refl
take_while_split p (c ∷ s) = ground (arith, take_while_split p s)

skip_split : (p : ℕ → Bool) (s : List ℕ) → (w : List ℕ) × (s ≡ w ++ skip p s) × All p w
unfolding skip
skip_split p [] = ([], refl, tt)
skip_split p (c ∷ s) = elim (Bool-cases (p c)) [
  | inl yes_it ↦
      let (w, e, a) = skip_split p s in (c ∷ w, rw yes_it (ap (λ t. c ∷ t) e), (yes_it, a))
  | inr no_it ↦ ([], rw no_it refl, tt)
]

abbrev Parts : List ℕ → List ℕ × List ℕ → Type 0
Parts s r = (r.0 ++ r.1 ≡ s) × (r.0 ≢ [])

literal_split : (s : List ℕ) → Ensures (literal s) (Parts s)
unfolding literal
literal_split [] = tt
literal_split (c ∷ s) = elim (Bool-cases (c == 34)) [
  | inl quote ↦ rw quote (refl, λ e. cc)
  | inr other ↦ rw other (step (literal s) (literal_split s))
]
  where
    step :
        (r : Run (List ℕ × List ℕ))
        → Ensures r (Parts s)
        → Ensures (r >>= λ r. done (c ∷ r.0, r.1)) (Parts (c ∷ s))
    step (done r) h = (ap (λ t. c ∷ t) h.0, λ e. cc)
    step fault h = tt

with_suffix_split : (r : List ℕ × List ℕ) → (with_suffix r).0 ++ (with_suffix r).1 ≡ r.0 ++ r.1
with_suffix_split (t, []) = refl
with_suffix_split (t, c ∷ rest) = elim (Bool-cases (c == b'$')) [
  | inl dollar ↦ rw (dollar, append_assoc) refl
  | inr other ↦ rw other refl
]

-- The token is not empty and stands at the front of the text; or there is none.
abbrev pub Cut : List ℕ → Token → Type 0
Cut s (t, some rest) = (t ++ rest ≡ s) × (t ≢ [])
Cut s (t, none) = t ≡ []

token-Cut :
    (c : ℕ) (s : List ℕ) (r : List ℕ × List ℕ)
    → r.0 ++ r.1 ≡ s
    → Ensures (token (c ∷ []) r) (Cut (c ∷ s))
token-Cut c s (t, rest) e = (ap (λ u. c ∷ u) e, λ n. cc)

number-Cut : (c : ℕ) (s : List ℕ) → Ensures (number c s) (Cut (c ∷ s))
number-Cut c [] = (refl, λ e. cc)
number-Cut c (d ∷ s) = elim (Bool-cases ((c == b'0') && (d == b'x' || d == b'X'))) [
  | inl hex ↦ rw hex (ap (λ u. c ∷ d ∷ u) (take_while_split is_hexdigit s), λ e. cc)
  | inr dec ↦
      rw dec (token-Cut c (d ∷ s) (take_while is_digit (d ∷ s)) (take_while_split is_digit (d ∷ s)))
]

double-Cut :
    (c d : ℕ) (s : List ℕ) → next_is d s ≡ true → Cut (c ∷ s) (c ∷ d ∷ [], some (skip_one s))
double-Cut c d [] h = absurd (ground arith)
double-Cut c d (k ∷ s) h = let same : k ≡ d = ground arith in (rw same refl, λ e. cc)

-- The same, of a result that is not computed.
record IsCut (s : List ℕ) (r : Run Token) : Type 0 where
  cut : Ensures r (Cut s)

-- The two branches of a test.
branch :
    {s : List ℕ} (b : Bool) (x y : Run Token)
    → (b ≡ true → IsCut s x)
    → IsCut s y
    → IsCut s (if b then x else y)
branch true x y f g = f refl
branch false x y f g = g

double :
    (c d : ℕ) (s : List ℕ)
    → (c == d && next_is d s) ≡ true
    → IsCut (c ∷ s) (done (c ∷ d ∷ [], some (skip_one s)))
double c d s h = record { cut = double-Cut c d s (ground arith) }

quoted :
    (c : ℕ) (s : List ℕ) (r : Run (List ℕ × List ℕ))
    → Ensures r (Parts s)
    → IsCut (c ∷ s) (r >>= token (c ∷ []))
quoted c s (done r) h = record { cut = (ap (λ u. c ∷ u) h.0, λ e. cc) }
quoted c s fault h = record { cut = tt }

scan_at-IsCut : (c : ℕ) (s : List ℕ) → IsCut (c ∷ s) (scan_at c s)
unfolding scan_at
scan_at-IsCut c s =
    branch (is_comment c s) (done ([], none)) _ (λ _. stopped)
      (branch (c == b';') (done (c ∷ [], some s)) _ (λ _. single)
        (branch (is_alpha c) (token (c ∷ []) (with_suffix (take_while is_alnum s))) _ (λ _. name)
          (branch (is_digit c) (number c s) _ (λ _. record { cut = number-Cut c s })
            (branch (is_comp c) _ _ (λ _. run is_comp)
              (branch (c == b'+' && next_is b'+' s) _ _ (double c b'+' s) (
                branch (c == b'-' && next_is b'-' s) _ _ (double c b'-' s) (
                  branch (is_arith c) _ _ (λ _. run is_arith)
                    (branch (c == 34) _ _ (λ _. quoted c s (literal s) (literal_split s))
                      (branch (c == 10 || c == 13) (done ([], none)) (done (c ∷ [], some s))
                        (λ _. stopped) single)))))))))
  where
    stopped : IsCut (c ∷ s) (done ([], none))
    stopped = record { cut = refl }

    single : IsCut (c ∷ s) (done (c ∷ [], some s))
    single = record { cut = (refl, λ e. cc) }

    run : (p : ℕ → Bool) → IsCut (c ∷ s) (token (c ∷ []) (take_while p s))
    run p = record { cut = token-Cut c s (take_while p s) (take_while_split p s) }

    name : IsCut (c ∷ s) (token (c ∷ []) (with_suffix (take_while is_alnum s)))
    name = record {
      cut =
          token-Cut c s (with_suffix (take_while is_alnum s))
            (with_suffix_split (take_while is_alnum s) ∙ take_while_split is_alnum s);
    }

-- What a call of `nc_scanner` does with a line: it skips white space, and what follows begins with
-- the token, which is not empty, and goes on with the rest that is returned; or it returns no token.
abbrev pub Scanned : List ℕ → Token → Type 0
Scanned s (t, some rest) = (w : List ℕ) × (s ≡ w ++ (t ++ rest)) × All is_wspace w × (0 < length t)
Scanned s (t, none) = t ≡ []

nonempty : (t : List ℕ) → t ≢ [] → 0 < length t
nonempty [] h = absurd (h refl)
nonempty (c ∷ t) h = omega arith

Cut-Scanned : (s : List ℕ) (r : Token) → Cut (skip is_wspace s) r → Scanned s r
Cut-Scanned s (t, none) h = h
Cut-Scanned s (t, some rest) (e, ne) =
    let (w, split, a) = skip_split is_wspace s in (w, rw e split, a, nonempty t ne)

-- If a call of nc_scanner on a line ends, then the line is white space, the token, which is not
-- empty, and the returned rest, in this order; or no rest is returned and the token is empty.
pub nc_scanner-Scanned : (s : List ℕ) → Ensures (nc_scanner s) (Scanned s)
unfolding nc_scanner scan_line
nc_scanner-Scanned s = after (skip is_wspace s) refl
  where
    carry : (r : Run Token) → Ensures r (Cut (skip is_wspace s)) → Ensures r (Scanned s)
    carry (done r) h = Cut-Scanned s r h
    carry fault h = tt

    after : (u : List ℕ) → skip is_wspace s ≡ u → Ensures (scan_line (skip is_wspace s)) (Scanned s)
    after [] e = rw e refl
    after (c ∷ u) e = rw e (carry (scan_at c u) (rw e (scan_at-IsCut c u).cut))

-- If nc_scanner returns a token and a rest, then the rest is shorter than the line, and token and
-- rest together are no longer than it.
pub nc_scanner_shorter :
    (s t rest : List ℕ)
    → nc_scanner s ≡ done (t, some rest)
    → (length t + length rest ≤ length s) × (length rest < length s)
nc_scanner_shorter s t rest e =
    let (w, split, _, pos) = rw e at (nc_scanner-Scanned s) in
    omega (arith, ap length split, length-append w (t ++ rest), length-append t rest)
