-- ===== src/Compiler/Still.antt =====
-- Actions of the compiler that return with the pointers into the line as they were: what
-- `next_token` does with a token that the scanner has cut off.
use nanoc.Base.{
  ℕ, Bool, true, false, Option, none, some, List, [], ◌∷◌, ◌≡◌, refl, Run, done, if◌then◌else◌, ◌∙◌,
}
use nanoc.Base.Outcome
use nanoc.Compiler.State.{
  Comp, Symbol, Error, Result, M, ok, raised, fault, out_of_fuel, continue, ◌>>=◌, pure, gets,
  modify, lift, raise, symbol, set_symbol,
}
use nanoc.Compiler.Symbols.{add_new, sym_found, sym_add}
use nanoc.Compiler.Lexer.{operator_or_error, classify}

abbrev Pointers : Type 0
Pointers = Option (List ℕ) × Option (List ℕ)

abbrev pointers : Comp → Pointers
pointers c = (c.pos, c.next_pos)

abbrev pub Unmoved : {A : Type 0} → Comp → Result A → Type 0
Unmoved c (ok a c') = pointers c' ≡ pointers c
Unmoved c (raised c') = Unit {0}
Unmoved c fault = Unit {0}
Unmoved c out_of_fuel = Unit {0}

pub record Still {A : Type 0} (m : M A) : Type 0 where
  pub at : (c : Comp) → Unmoved c (m c)

module _ {A : Type 0} where
  Unmoved-trans :
      (c c' : Comp) (r : Result A) → pointers c' ≡ pointers c → Unmoved c' r → Unmoved c r
  Unmoved-trans c c' (ok a c'') e h = h ∙ e
  Unmoved-trans c c' (raised c'') e h = tt
  Unmoved-trans c c' fault e h = tt
  Unmoved-trans c c' out_of_fuel e h = tt

  Unmoved-if :
      (c : Comp) (b : Bool) (r s : Result A)
      → Unmoved c r
      → Unmoved c s
      → Unmoved c (if b then r else s)
  Unmoved-if c true r s h k = h
  Unmoved-if c false r s h k = k

  Still-raise : (e : Error) → Still {A = A} (raise e)
  unfolding raise
  Still-raise e = record { at = λ c. Unmoved-if c c.running (raised _) fault tt tt }

  Still-if : (b : Bool) (m n : M A) → Still m → Still n → Still (if b then m else n)
  Still-if true m n hm hn = hm
  Still-if false m n hm hn = hn

  Still-pure : (a : A) → Still (pure a)
  unfolding pure
  Still-pure a = record { at = λ c. refl }

  Still-gets : (g : Comp → A) → Still (gets g)
  unfolding gets
  Still-gets g = record { at = λ c. refl }

  Still-lift : (r : Run A) → Still (lift r)
  unfolding lift
  Still-lift (done a) = record { at = λ c. refl }
  Still-lift Outcome.fault = record { at = λ c. tt }

module _ {A B : Type 0} where
  Unmoved-continue :
      (c : Comp) (r : Result A) (k : A → M B)
      → Unmoved c r
      → ((a : A) → Still (k a))
      → Unmoved c (continue r k)
  Unmoved-continue c (ok a c') k h hk = Unmoved-trans c c' (k a c') h ((hk a).at c')
  Unmoved-continue c (raised c') k h hk = tt
  Unmoved-continue c fault k h hk = tt
  Unmoved-continue c out_of_fuel k h hk = tt

  Still-bind : (m : M A) (k : A → M B) → Still m → ((a : A) → Still (k a)) → Still (m >>= k)
  unfolding ◌>>=◌
  Still-bind m k h hk = record { at = λ c. Unmoved-continue c (m c) k (h.at c) hk }

Still-modify : (g : Comp → Comp) → ((c : Comp) → pointers (g c) ≡ pointers c) → Still (modify g)
unfolding modify
Still-modify g same = record { at = same }

ruleset still_rules =
    (Still-bind, Still-if, Still-raise, Still-pure, Still-gets, Still-lift, Still-modify, refl)

Still-symbol : (i : ℕ) → Still (symbol i)
unfolding symbol
Still-symbol i = search still_rules

Still-set_symbol : (i : ℕ) (g : Symbol → Symbol) → Still (set_symbol i g)
unfolding set_symbol
Still-set_symbol i g = search still_rules

add_new-Still : (name : List ℕ) (val type : ℕ) (o : Option ℕ) → Still (add_new name val type o)
unfolding add_new
add_new-Still name val type none = search still_rules
add_new-Still name val type (some i) = search (still_rules, Still-set_symbol)

sym_found-Still : (name : List ℕ) (val type : ℕ) (o : Option ℕ) → Still (sym_found name val type o)
unfolding sym_found
sym_found-Still name val type none = search (still_rules, add_new-Still)
sym_found-Still name val type (some i) = search (still_rules, Still-symbol, Still-set_symbol)

sym_add-Still : (id : List ℕ) (val type : ℕ) → Still (sym_add id val type)
unfolding sym_add
sym_add-Still id val type = search (still_rules, sym_found-Still)

operator_or_error-Still : (o : Option ℕ) → Still (operator_or_error o)
unfolding operator_or_error
operator_or_error-Still none = search still_rules
operator_or_error-Still (some t) = search still_rules

pub classify-Still : (s : List ℕ) → Still (classify s)
unfolding classify
classify-Still [] = search still_rules
classify-Still (c ∷ s) =
    search (still_rules, Still-symbol, sym_add-Still, operator_or_error-Still) depth 14
