-- ===== src/Compiler/OnVm.antt =====
-- The code that src/nc_compiler.c writes for a number, and what `nc_run` does with it.
use nanoc.Base.{
  ℕ, ◌+◌, ◌*◌, ◌/◌, ◌%◌, ◌<◌, ◌≤◌, ◌≡◌, refl, List, [], ◌∷◌, ltb, length, get_elem?, set,
  length-set, get_elem?-set_ne, get_elem?-set_self, ◌∙◌, lt→ltb, done, arith, Bool-cases, inl, inr,
  ltb→lt,
}
use nanoc.Base.Word.{u8, u16, IsWord}
use nanoc.Vm.Opcode.{number, decode, opcodes}
use nanoc.Vm.State.{Vm, At, stack_size, push, code_byte, code16, code32, next}
use nanoc.Vm.Control.{exec_push_num2, exec_push_num5}
use nanoc.Vm.Step.{step, exec}
use nanoc.Compiler.State.{Comp, ok, emit, ◌>>=◌, ◌>>◌}
use nanoc.Compiler.Emit.{push_number, emit32}

abbrev put : ℕ → Comp → Comp
put b c = record c { code = set c.code c.pc (u8 b); pc = u16 (c.pc + 1) }

-- The state in which `bs` was written.
unfoldable pub wrote : List ℕ → Comp → Comp
wrote [] c = c
wrote (b ∷ bs) c = wrote bs (record c { code = set c.code c.pc (u8 b); pc = u16 (c.pc + 1) })

emit_lem :
    (b : ℕ) (c : Comp)
    → c.pc < length c.code
    → emit b c ≡ ok tt (record c { code = set c.code c.pc (u8 b); pc = u16 (c.pc + 1) })
unfolding emit
emit_lem b c lt = rw (lt→ltb c.pc (length c.code) lt) refl

wrote_below :
    (bs : List ℕ) (c : Comp) (i : ℕ)
    → i < c.pc
    → c.pc + length bs ≤ length c.code
    → length c.code < 65536
    → get_elem? (wrote bs c).code i ≡ get_elem? c.code i
unfolding wrote
wrote_below [] c i lt room small = refl
wrote_below (b ∷ bs) c i lt room small =
    let c' = record c { code = set c.code c.pc (u8 b); pc = u16 (c.pc + 1) } in
    let e = length-set c.code c.pc (u8 b) in
    wrote_below bs c' i (omega arith) (omega arith) (omega arith)
    ∙ get_elem?-set_ne c.code c.pc i (u8 b) (omega arith)

At-cast : (bs : List ℕ) (i j : ℕ) (code : List ℕ) → i ≡ j → At bs i code → At bs j code
At-cast bs i j code e h = rw e at h

wrote-At :
    (bs : List ℕ) (c : Comp)
    → c.pc + length bs ≤ length c.code
    → length c.code < 65536
    → At bs c.pc (wrote bs c).code
unfolding wrote
wrote-At [] c room small = tt
wrote-At (b ∷ bs) c room small =
    let c' = record c { code = set c.code c.pc (u8 b); pc = u16 (c.pc + 1) } in
    let e = length-set c.code c.pc (u8 b) in
    let p : c'.pc ≡ c.pc + 1 = omega arith in
    (
      wrote_below bs c' c.pc (omega arith) (omega arith) (omega arith)
          ∙ get_elem?-set_self c.code c.pc (u8 b) (omega arith),
      At-cast bs c'.pc (c.pc + 1) (wrote bs c').code p (wrote-At bs c' (omega arith) (omega arith)),
    )

wrote_pc :
    (bs : List ℕ) (c : Comp)
    → c.pc + length bs ≤ length c.code
    → length c.code < 65536
    → (wrote bs c).pc ≡ c.pc + length bs
unfolding wrote
wrote_pc [] c room small = omega arith
wrote_pc (b ∷ bs) c room small =
    let c' = record c { code = set c.code c.pc (u8 b); pc = u16 (c.pc + 1) } in
    let e = length-set c.code c.pc (u8 b) in
    let p = wrote_pc bs c' (omega arith) (omega arith) in omega arith

-- What the VM is after it has pushed `v` and gone on by `n` bytes.
abbrev pub pushed : ℕ → ℕ → Vm → Vm
pushed v n vm = record vm {
  stack = set vm.stack (vm.sp % stack_size) v;
  sp = u16 (vm.sp + 1);
  pc = u16 (vm.pc + n);
}

step_push2 :
    (r v : ℕ) (vm : Vm)
    → At (3 ∷ v ∷ []) vm.pc vm.code
    → step r vm ≡ done (next, pushed (v % 256) 2 vm)
unfolding step code_byte exec exec_push_num2 push decode opcodes
step_push2 r v vm (a, (b, _)) = rw (a, b) refl

step_push5 :
    (r a b c d : ℕ) (vm : Vm)
    → At (2 ∷ a ∷ b ∷ c ∷ d ∷ []) vm.pc vm.code
    → step r vm
      ≡ done (next, pushed ((a % 256 + b % 256 * 256) + (c % 256 + d % 256 * 256) * 65536) 5 vm)
unfolding step code_byte code16 code32 exec exec_push_num5 push decode opcodes
step_push5 r a b c d vm (h, (ha, (hb, (hc, (hd, _))))) =
    let e : vm.pc + 1 + 1 + 1 ≡ vm.pc + 1 + 2 = omega arith in
    let hc' = rw e at hc in let hd' = rw e at hd in rw (h, ha, hb, hc', hd') refl

-- With the code of `c'`, and at the position of `c`, the VM pushes `v` and goes on at the position of `c'`.
abbrev pub Pushes : ℕ → ℕ → Comp → Comp → Vm → Type 0
Pushes r v c c' vm =
    step r (record vm { code = c'.code; pc = c.pc })
    ≡ done (
      next,
      record vm {
        code = c'.code;
        stack = set vm.stack (vm.sp % stack_size) v;
        sp = u16 (vm.sp + 1);
        pc = c'.pc;
      },
    )

push_two :
    (v : ℕ) (c : Comp)
    → c.pc + 2 ≤ length c.code
    → length c.code < 65536
    → (emit 3 >> emit v) c ≡ ok tt (wrote (3 ∷ v ∷ []) c)
unfolding ◌>>=◌ wrote
push_two v c room small =
    let e = length-set c.code c.pc (u8 3) in
    rw (emit_lem 3 c (omega arith)) (emit_lem v _ (omega arith))

push_five :
    (v : ℕ) (c : Comp)
    → c.pc + 5 ≤ length c.code
    → length c.code < 65536
    → (emit 2 >> emit32 v) c ≡ ok tt (wrote (2 ∷ v ∷ v / 256 ∷ v / 65536 ∷ v / 16777216 ∷ []) c)
unfolding ◌>>=◌ wrote emit32
push_five v c room small =
    let c₁ = put 2 c in
    let c₂ = put v c₁ in
    let c₃ = put (v / 256) c₂ in
    let c₄ = put (v / 65536) c₃ in
    let e₁ = length-set c.code c.pc (u8 2) in
    let e₂ = length-set c₁.code c₁.pc (u8 v) in
    let e₃ = length-set c₂.code c₂.pc (u8 (v / 256)) in
    let e₄ = length-set c₃.code c₃.pc (u8 (v / 65536)) in
    rw (emit_lem 2 c (omega arith)) (
      rw (emit_lem v c₁ (omega arith)) (
        rw (emit_lem (v / 256) c₂ (omega arith))
          (rw (emit_lem (v / 65536) c₃ (omega arith)) (emit_lem (v / 16777216) c₄ (omega arith)))))

Pushes-two :
    (r v : ℕ) (c : Comp) (vm : Vm)
    → v < 256
    → c.pc + 5 ≤ length c.code
    → length c.code < 65536
    → Pushes r v c (wrote (3 ∷ v ∷ []) c) vm
Pushes-two r v c vm lt room small =
    let bytes = 3 ∷ v ∷ [] in
    let c' = wrote bytes c in
    let p : u16 (c.pc + 2) ≡ c'.pc = omega (arith, wrote_pc bytes c (omega arith) small) in
    let e : v % 256 ≡ v = omega arith in
    rw⁻¹ p (
      rw e at (
        step_push2 r v (record vm { code = c'.code; pc = c.pc })
          (wrote-At bytes c (omega arith) small)))

Pushes-five :
    (r v : ℕ) (c : Comp) (vm : Vm)
    → IsWord v
    → c.pc + 5 ≤ length c.code
    → length c.code < 65536
    → Pushes r v c (wrote (2 ∷ v ∷ v / 256 ∷ v / 65536 ∷ v / 16777216 ∷ []) c) vm
Pushes-five r v c vm lt room small =
    let bytes = 2 ∷ v ∷ v / 256 ∷ v / 65536 ∷ v / 16777216 ∷ [] in
    let c' = wrote bytes c in
    let p : u16 (c.pc + 5) ≡ c'.pc = omega (arith, wrote_pc bytes c (omega arith) small) in
    let e : (v % 256 + v / 256 % 256 * 256) + (v / 65536 % 256 + v / 16777216 % 256 * 256) * 65536
        ≡ v =
      omega arith in
    rw⁻¹ p (
      rw e at (
        step_push5 r v (v / 256) (v / 65536) (v / 16777216)
          (record vm { code = c'.code; pc = c.pc }) (wrote-At bytes c (omega arith) small)))

-- Let there be five bytes of room in a code of 16-bit size, and v be a 32-bit number. Then the
-- compiler writes the push of v without an error, and a round of nc_run on a VM with that code, at
-- the position where the compiler was, pushes exactly v, goes on at the position where the compiler
-- is now, and changes nothing else.
pub step-push_number :
    (r v : ℕ) (c : Comp) (vm : Vm)
    → IsWord v
    → c.pc + 5 ≤ length c.code
    → length c.code < 65536
    → (c' : Comp) × (push_number v c ≡ ok tt c') × Pushes r v c c' vm
unfolding push_number number
step-push_number r v c vm lt room small = elim (Bool-cases (ltb v 256)) [
  | inl e ↦ (
    wrote (3 ∷ v ∷ []) c,
    rw e (push_two v c (omega arith) small),
    Pushes-two r v c vm (ltb→lt v 256 e) room small,
  )
  | inr e ↦ (
    wrote (2 ∷ v ∷ v / 256 ∷ v / 65536 ∷ v / 16777216 ∷ []) c,
    rw e (push_five v c room small),
    Pushes-five r v c vm lt room small,
  )
]
