-- ===== src/Compiler/Patches.antt =====
-- The jumps that `patch_breaks` of src/nc_compiler.c patches.
use nanoc.Base.{
  ℕ, ◌+◌, ◌/◌, ◌%◌, ◌<◌, ◌≡◌, ◌≢◌, refl, List, [], ◌∷◌, length, drop, take, get_or, set,
  get_or-set_ne, get_or-set_self, length-set, ltb, ltb→lt, Bool-cases, inl, inr, arith, ◌∙◌, sym,
  ◌*◌,
}
use nanoc.Base.Word.{u8}
use nanoc.Compiler.State.{
  Comp, Result, M, ok, raised, fault, out_of_fuel, continue, patch, patch16, pure, gets, modify,
  ◌>>=◌, ◌>>◌,
}
use nanoc.Compiler.Emit.{patch_all, patch_breaks}

-- `P` holds of the code, if the action returned.
abbrev OnCode : (List ℕ → Type 0) → Result (Unit {0}) → Type 0
OnCode P (ok u c) = P c.code
OnCode P _ = Unit {0}

-- No jump of the list has a byte at `i`, and no two of them overlap.
abbrev Away : ℕ → List ℕ → Type 0
Away i [] = Unit {0}
Away i (p ∷ ps) = (i ≢ p) × (i ≢ p + 1) × Away i ps

abbrev pub Apart : List ℕ → Type 0
Apart [] = Unit {0}
Apart (p ∷ ps) = Away p ps × Away (p + 1) ps × Apart ps

-- Each jump of the list leads to the target.
abbrev pub Lead : ℕ → List ℕ → List ℕ → Type 0
Lead target [] code = Unit {0}
Lead target (p ∷ ps) code =
    (get_or code p 0 + get_or code (p + 1) 0 * 256 ≡ target) × Lead target ps code

abbrev patched : ℕ → ℕ → List ℕ → List ℕ
patched p v code = set (set code p (u8 v)) (p + 1) (u8 (v / 256))

-- The rest of the list goes on with both bytes written, or the code is too short.
patch16_then :
    (P : List ℕ → Type 0) (p v : ℕ) (m : M (Unit {0})) (c : Comp)
    → (p + 1 < length c.code → OnCode P (m (record c { code = patched p v c.code })))
    → OnCode P ((patch16 p v >> m) c)
unfolding patch ◌>>=◌
patch16_then P p v m c h = elim (Bool-cases (ltb p (length c.code))) [
  | inl e ↦ rw e (elim (Bool-cases (ltb (p + 1) (length (set c.code p (u8 v))))) [
    | inl e' ↦ rw e' (
        h (
          let l = length-set c.code p (u8 v) in
          let lt = ltb→lt (p + 1) (length (set c.code p (u8 v))) e' in omega arith))
    | inr e' ↦ rw e' tt
  ])
  | inr e ↦ rw e tt
]

patch_all_other :
    (target : ℕ) (ps : List ℕ) (i x : ℕ) (c : Comp)
    → Away i ps
    → get_or c.code i 0 ≡ x
    → OnCode (λ code. get_or code i 0 ≡ x) (patch_all target ps c)
unfolding patch_all pure
patch_all_other target [] i x c a h = h
patch_all_other target (p ∷ ps) i x c (ne, ne', a) h =
    patch16_then (λ code. get_or code i 0 ≡ x) p target (patch_all target ps) c
      λ lt.
        patch_all_other target ps i x (record c { code = patched p target c.code }) a
          (get_or-set_ne (set c.code p (u8 target)) (p + 1) i _ 0 (λ e. ne' (sym e))
            ∙ get_or-set_ne c.code p i (u8 target) 0 (λ e. ne (sym e))
            ∙ h)

leads :
    (target p : ℕ) (ps : List ℕ) (r : Result (Unit {0}))
    → target < 65536
    → OnCode (λ code. get_or code p 0 ≡ target % 256) r
    → OnCode (λ code. get_or code (p + 1) 0 ≡ target / 256 % 256) r
    → OnCode (Lead target ps) r
    → OnCode (Lead target (p ∷ ps)) r
leads target p ps (ok u c) lt a b h = (omega arith, h)
leads target p ps (raised c) lt a b h = tt
leads target p ps fault lt a b h = tt
leads target p ps out_of_fuel lt a b h = tt

patch_all-OnCode :
    (target : ℕ) (ps : List ℕ) (c : Comp)
    → target < 65536
    → Apart ps
    → OnCode (Lead target ps) (patch_all target ps c)
unfolding patch_all pure
patch_all-OnCode target [] c lt a = tt
patch_all-OnCode target (p ∷ ps) c lt (a, b, apart) =
    patch16_then (Lead target (p ∷ ps)) p target (patch_all target ps) c λ room.
      let c' = record c { code = patched p target c.code } in
      let first = set c.code p (u8 target) in
      let l = length-set c.code p (u8 target) in
      leads target p ps (patch_all target ps c') lt
        (patch_all_other target ps p (target % 256) c' a (
          get_or-set_ne first (p + 1) p _ 0 (λ e. omega arith)
          ∙ get_or-set_self c.code p (u8 target) 0 (omega arith)))
        (patch_all_other target ps (p + 1) (target / 256 % 256) c' b
          (get_or-set_self first (p + 1) _ 0 (omega arith)))
        (patch_all-OnCode target ps c' lt apart)

forget :
    (P : List ℕ → Type 0) (r : Result (Unit {0})) (g : Comp → Comp)
    → ((c : Comp) → (g c).code ≡ c.code)
    → OnCode P r
    → OnCode P (continue r (λ _. modify g))
unfolding modify
forget P (ok u c) g same h = rw (same c) h
forget P (raised c) g same h = tt
forget P fault g same h = tt
forget P out_of_fuel g same h = tt

patch_breaks-OnCode :
    (first_break : ℕ) (c : Comp)
    → c.pc < 65536
    → Apart (drop first_break c.breaks)
    → OnCode (Lead c.pc (drop first_break c.breaks)) (patch_breaks first_break c)
unfolding patch_breaks gets ◌>>=◌
patch_breaks-OnCode first_break c lt apart =
    forget (Lead c.pc (drop first_break c.breaks)) (patch_all c.pc (drop first_break c.breaks) c)
      (λ s. record s { breaks = take first_break s.breaks }) (λ s. refl)
      (patch_all-OnCode c.pc (drop first_break c.breaks) c lt apart)

-- If patch_breaks returned, with a 16-bit pc and pending breaks from first_break on of which no two
-- overlap, then each of these jumps has the pc as its target.
pub patch_breaks-Lead :
    (first_break : ℕ) (c c' : Comp)
    → c.pc < 65536
    → Apart (drop first_break c.breaks)
    → patch_breaks first_break c ≡ ok tt c'
    → Lead c.pc (drop first_break c.breaks) c'.code
patch_breaks-Lead first_break c c' lt apart h = rw h at (patch_breaks-OnCode first_break c lt apart)
