-- ===== src/Compiler/Contract.antt =====
-- Contracts for actions of the compiler: what a run that returns or raises an error may do to the
-- state, and a size of the state that bounds the fuel. One rule for each way to build an action.
use nanoc.Base.{
  ℕ, suc, List, [], ◌∷◌, ◌+◌, ◌<◌, ◌≤◌, ◌≡◌, refl, Bool, true, false, Option, none, some, Run, done,
  if◌then◌else◌, get_or, arith,
}
use nanoc.Base.Outcome
use nanoc.Compiler.State.{
  Comp, Error, Result, M, ok, raised, fault, out_of_fuel, continue, ◌>>=◌, ◌>>◌, when, pure, gets,
  lift, raise, symbol, cut,
}
use nanoc.Base.Word.{u16}

-- The state that `error` leaves.
abbrev pub after_error : Error → Comp → Comp
after_error e c = record c {
  messages = record { line = c.linenum; error = e } ∷ c.messages;
  err_count = u16 (c.err_count + 1);
  pos = cut c.next_pos;
  next_pos = cut c.next_pos;
}

-- `after d c c'` is what an action may do from `c` to `c'` that makes the state smaller by `d`.
pub record Contract : Type 1 where
  pub ready : Comp → Type 0
  pub size : Comp → ℕ
  pub after : ℕ → Comp → Comp → Type 0
  pub to_ready : (d : ℕ) (c c' : Comp) → after d c c' → ready c'
  pub to_smaller : (d : ℕ) (c c' : Comp) → after d c c' → size c' + d ≤ size c
  pub stay : (c : Comp) → ready c → after 0 c c
  pub chain : (d e : ℕ) (c c' c'' : Comp) → after d c c' → after e c' c'' → after (d + e) c c''
  pub weaken : (d : ℕ) (c c' : Comp) → after d c c' → after 0 c c'
  pub on_error : (e : Error) (c : Comp) → ready c → after 0 c (after_error e c)

-- The run did not end for lack of fuel, and where it returned or raised an error it kept to `K`.
abbrev pub Sound : {A : Type 0} → Contract → ℕ → Comp → Result A → Type 0
Sound K d c (ok a c') = K.after d c c'
Sound K d c (raised c') = K.after 0 c c'
Sound K d c fault = Unit {0}
Sound K d c out_of_fuel = ⊥

-- On a state smaller than `f`, `m` is sound, and makes it smaller by `d` at least.
pub record Takes {A : Type 0} (K : Contract) (d f : ℕ) (m : M A) : Type 0 where
  pub at : (c : Comp) → K.ready c → K.size c < f → Sound K d c (m c)

module _ {A : Type 0} (K : Contract) where
  pub Sound-weaken : (d : ℕ) (c : Comp) (r : Result A) → Sound K d c r → Sound K 0 c r
  Sound-weaken d c (ok a c') h = K.weaken d c c' h
  Sound-weaken d c (raised c') h = h
  Sound-weaken d c fault h = tt
  Sound-weaken d c out_of_fuel h = h

  pub Sound-trans :
      (d e : ℕ) (c c' : Comp) (r : Result A) → K.after d c c' → Sound K e c' r → Sound K (d + e) c r
  Sound-trans d e c c' (ok a c'') h k = K.chain d e c c' c'' h k
  Sound-trans d e c c' (raised c'') h k = K.weaken (d + 0) c c'' (K.chain d 0 c c' c'' h k)
  Sound-trans d e c c' fault h k = tt
  Sound-trans d e c c' out_of_fuel h k = k

  pub Eats-Keeps : (f : ℕ) (m : M A) → Takes K 1 f m → Takes K 0 f m
  Eats-Keeps f m h = record { at = λ c r lt. Sound-weaken 1 c (m c) (h.at c r lt) }

  pub Takes-less : (d f g : ℕ) (m : M A) → g ≤ f → Takes K d f m → Takes K d g m
  Takes-less d f g m le h = record { at = λ c r lt. h.at c r (omega arith) }

  pub Takes-zero : (d : ℕ) (m : M A) → Takes K d 0 m
  Takes-zero d m = record { at = λ c r lt. absurd (omega arith) }

module _ {A B : Type 0} (K : Contract) where
  pub Sound-continue :
      (d e f g : ℕ) (c : Comp) (r : Result A) (k : A → M B)
      → K.size c < f
      → f ≤ g + d
      → Sound K d c r
      → ((a : A) → Takes K e g (k a))
      → Sound K (d + e) c (continue r k)
  Sound-continue d e f g c (ok a c') k lt le h hk =
      let s = K.to_smaller d c c' h in
      Sound-trans K d e c c' (k a c') h ((hk a).at c' (K.to_ready d c c' h) (omega arith))
  Sound-continue d e f g c (raised c') k lt le h hk = h
  Sound-continue d e f g c fault k lt le h hk = tt
  Sound-continue d e f g c out_of_fuel k lt le h hk = h

  pub Takes-bind :
      (d e f g : ℕ) (m : M A) (k : A → M B)
      → f ≤ g + d
      → Takes K d f m
      → ((a : A) → Takes K e g (k a))
      → Takes K (d + e) f (m >>= k)
  unfolding ◌>>=◌
  Takes-bind d e f g m k le h hk = record {
    at = λ c r lt. Sound-continue d e f g c (m c) k lt le (h.at c r lt) hk;
  }

  pub Keeps-bind :
      (f : ℕ) (m : M A) (k : A → M B)
      → Takes K 0 f m
      → ((a : A) → Takes K 0 f (k a))
      → Takes K 0 f (m >>= k)
  Keeps-bind f m k = Takes-bind 0 0 f f m k (omega arith)

  -- What comes after a part that takes something has less fuel.
  pub Eats-first :
      (f : ℕ) (m : M A) (k : A → M B)
      → Takes K 1 (suc f) m
      → ((a : A) → Takes K 0 f (k a))
      → Takes K 1 (suc f) (m >>= k)
  Eats-first f m k = Takes-bind 1 0 (suc f) f m k (omega arith)

  pub Eats-firstly :
      (f : ℕ) (m : M A) (k : A → M B)
      → Takes K 1 f m
      → ((a : A) → Takes K 0 f (k a))
      → Takes K 1 f (m >>= k)
  Eats-firstly f m k = Takes-bind 1 0 f f m k (omega arith)

  pub Eats-later :
      (f : ℕ) (m : M A) (k : A → M B)
      → Takes K 0 f m
      → ((a : A) → Takes K 1 f (k a))
      → Takes K 1 f (m >>= k)
  Eats-later f m k = Takes-bind 0 1 f f m k (omega arith)

Sound-if :
    {A : Type 0} (K : Contract) (d : ℕ) (c : Comp) (b : Bool) (r s : Result A)
    → Sound K d c r
    → Sound K d c s
    → Sound K d c (if b then r else s)
Sound-if K d c true r s h k = h
Sound-if K d c false r s h k = k

module _ {A : Type 0} (K : Contract) (d f : ℕ) where
  pub Takes-if :
      (b : Bool) (m n : M A) → Takes K d f m → Takes K d f n → Takes K d f (if b then m else n)
  Takes-if true m n hm hn = hm
  Takes-if false m n hm hn = hn

  -- The branches may use how the test came out.
  pub Takes-branch :
      (b : Bool) (m n : M A)
      → (b ≡ true → Takes K d f m)
      → (b ≡ false → Takes K d f n)
      → Takes K d f (if b then m else n)
  Takes-branch true m n hm hn = hm refl
  Takes-branch false m n hm hn = hn refl

  pub Takes-raise : (e : Error) → Takes {A = A} K d f (raise e)
  unfolding raise
  Takes-raise e = record {
    at = λ c h lt. Sound-if K d c c.running (raised (after_error e c)) fault (K.on_error e c h) tt;
  }

module _ {A : Type 0} (K : Contract) (f : ℕ) where
  pub Keeps-pure : (a : A) → Takes K 0 f (pure a)
  unfolding pure
  Keeps-pure a = record { at = λ c h lt. K.stay c h }

  pub Keeps-gets : (g : Comp → A) → Takes K 0 f (gets g)
  unfolding gets
  Keeps-gets g = record { at = λ c h lt. K.stay c h }

  pub Keeps-lift : (r : Run A) → Takes K 0 f (lift r)
  unfolding lift
  Keeps-lift (done a) = record { at = λ c h lt. K.stay c h }
  Keeps-lift Outcome.fault = record { at = λ c h lt. tt }

pub Keeps-symbol : (K : Contract) (f i : ℕ) → Takes K 0 f (symbol i)
unfolding symbol
Keeps-symbol K f i = Keeps-gets K f (λ c. get_or c.symbols i _)

Sound-stop :
    {A B : Type 0} (K : Contract) (d : ℕ) (c c' : Comp) (b : Bool) (k : A → M B)
    → K.after 0 c c'
    → Sound K d c (continue (if b then raised c' else fault) k)
Sound-stop K d c c' true k h = h
Sound-stop K d c c' false k h = tt

-- Behind a guard its test has failed.
pub Takes-guard :
    {A : Type 0} (K : Contract) (d f : ℕ) (b : Bool) (e : Error) (m : M A)
    → (b ≡ false → Takes K d f m)
    → Takes K d f (when b (raise e) >> m)
unfolding ◌>>=◌ raise pure
Takes-guard K d f true e m h = record {
  at = λ c r lt. Sound-stop K d c (after_error e c) c.running (λ _. m) (K.on_error e c r);
}
Takes-guard K d f false e m h = record { at = (h refl).at }

pub ruleset contract_rules = (
  Keeps-bind, Eats-first, Takes-if, Takes-raise, Keeps-pure, Keeps-gets, Keeps-lift, Keeps-symbol,
  refl,
)
