-- ===== src/Vm/Next.antt =====
-- The rounds of `nc_run` (src/nc_runtime.c) at the FOR_CHECK that starts a counting loop and at the
-- NEXT that ends it.
use nanoc.Base.{
  ℕ, ◌+◌, ◌*◌, ◌/◌, ◌%◌, ◌≤◌, ◌<◌, ◌≡◌, refl, true, false, arith, if◌then◌else◌, List, ◌∷◌, [],
  length, length-set, get_or, get_or-set_self, set, done, Returns, Bool-cases, inl, inr,
}
use nanoc.Base.Word.{u8, u16, u32}
use nanoc.Vm.State.{Vm, At, next, stack_size, code_byte, code16, top, peek2, pop, get_var, set_var}
use nanoc.Vm.Control.{is_empty_range, goes_on, exec_for_check, exec_next}
use nanoc.Vm.Opcode.{decode, opcodes}
use nanoc.Vm.Step.{step, exec}

-- A loop in the code: the positions of FOR_CHECK and NEXT and the target of the check, the loop
-- variable, the step and the end value on the stack, and the state of the VM around the body.
pub record Loop : Type 0 where
  pub code : List ℕ
  pub check : ℕ
  pub behind : ℕ
  pub target : ℕ
  pub var : ℕ
  pub step : ℕ
  pub end : ℕ
  pub sp : ℕ
  pub depth : ℕ

-- The code is that of `compile_for`: the body stands between FOR_CHECK and NEXT, which jumps to it.
pub record IsLoop (l : Loop) : Type 0 where
  pub order : l.check + 4 ≤ l.behind
  pub room : l.behind + 4 < 65536
  pub outside : l.target < 65536
  pub byte : l.var < 256
  pub at_check : At (93 ∷ l.target ∷ l.target / 256 ∷ l.var ∷ []) l.check l.code
  pub at_next : At (33 ∷ (l.check + 4) ∷ (l.check + 4) / 256 ∷ l.var ∷ []) l.behind l.code

-- The VM is at a position of the loop, and the loop variable is `x`.
pub record InLoop (l : Loop) (pos x : ℕ) (vm : Vm) : Type 0 where
  pub pc : vm.pc ≡ pos
  pub code : vm.code ≡ l.code
  pub sp : vm.sp ≡ l.sp
  pub depth : vm.nested_loop_idx ≡ l.depth
  pub step : get_or vm.stack (u16 (vm.sp + 65535) % stack_size) 0 ≡ l.step
  pub end : get_or vm.stack (u16 (vm.sp + 65534) % stack_size) 0 ≡ l.end
  pub exists : l.var < length vm.variables
  pub value : get_or vm.variables l.var 0 ≡ x

-- The VM has left the loop: both stack values are gone, and the loop variable is `x`.
pub record Left (l : Loop) (pos x : ℕ) (vm : Vm) : Type 0 where
  pub pc : vm.pc ≡ pos
  pub sp : vm.sp ≡ u16 (l.sp + 65534)
  pub depth : vm.nested_loop_idx ≡ u8 (l.depth + 255)
  pub value : get_or vm.variables l.var 0 ≡ x

-- The VM behind NEXT.
abbrev jumped : ℕ → ℕ → ℕ → Vm → Vm
jumped start var y vm = record vm { variables = set vm.variables var y; pc = start }

abbrev dropped : ℕ → ℕ → ℕ → Vm → Vm
dropped pos var y vm = record vm {
  variables = set vm.variables var y;
  pc = pos;
  sp = u16 (u16 (vm.sp + 65535) + 65535);
  nested_loop_idx = u8 (vm.nested_loop_idx + 255);
}

step_next :
    (r start var : ℕ) (vm : Vm)
    → start < 65536
    → var < 256
    → At (33 ∷ start ∷ start / 256 ∷ var ∷ []) vm.pc vm.code
    → let step_value = get_or vm.stack (u16 (vm.sp + 65535) % stack_size) 0 in
      let end = get_or vm.stack (u16 (vm.sp + 65534) % stack_size) 0 in
      let y = u32 (get_or vm.variables var 0 + step_value) in
      step r vm
      ≡ done (
        next,
        if goes_on step_value y end
            then jumped start var y vm
            else dropped (u16 (vm.pc + 4)) var y vm,
      )
unfolding step code_byte code16 exec exec_next decode opcodes top peek2 pop get_var set_var
step_next r start var vm small byte (h, (ha, (hb, (hc, _)))) =
    let e : vm.pc + 1 + 1 + 1 ≡ vm.pc + 3 = omega arith in
    let hc' = rw e at hc in
    let v : var % 256 ≡ var = omega arith in
    let t : start % 256 + start / 256 % 256 * 256 ≡ start = omega arith in
    let t' : u16 start ≡ start = omega arith in
    rw (h, ha, hb, hc', v, t, t')
      (elim (Bool-cases (
        goes_on (get_or vm.stack (u16 (vm.sp + 65535) % stack_size) 0)
          (u32 (get_or vm.variables var 0 + get_or vm.stack (u16 (vm.sp + 65535) % stack_size) 0))
          (get_or vm.stack (u16 (vm.sp + 65534) % stack_size) 0))) [
            | inl g ↦ rw g refl
            | inr g ↦ rw g refl
          ])

step_check :
    (r target var : ℕ) (vm : Vm)
    → target < 65536
    → var < 256
    → At (93 ∷ target ∷ target / 256 ∷ var ∷ []) vm.pc vm.code
    → let step_value = get_or vm.stack (u16 (vm.sp + 65535) % stack_size) 0 in
      let end = get_or vm.stack (u16 (vm.sp + 65534) % stack_size) 0 in
      step r vm
      ≡ done (
        next,
        if is_empty_range step_value (get_or vm.variables var 0) end
            then record vm {
              pc = target;
              sp = u16 (u16 (vm.sp + 65535) + 65535);
              nested_loop_idx = u8 (vm.nested_loop_idx + 255);
            }
            else record vm { pc = u16 (vm.pc + 4) },
      )
unfolding step code_byte code16 exec exec_for_check decode opcodes top peek2 pop get_var
step_check r target var vm small byte (h, (ha, (hb, (hc, _)))) =
    let e : vm.pc + 1 + 1 + 1 ≡ vm.pc + 3 = omega arith in
    let hc' = rw e at hc in
    let v : var % 256 ≡ var = omega arith in
    let t : target % 256 + target / 256 % 256 * 256 ≡ target = omega arith in
    let t' : u16 target ≡ target = omega arith in
    rw (h, ha, hb, hc', v, t, t')
      (elim (Bool-cases (
        is_empty_range (get_or vm.stack (u16 (vm.sp + 65535) % stack_size) 0)
          (get_or vm.variables var 0) (get_or vm.stack (u16 (vm.sp + 65534) % stack_size) 0))) [
            | inl g ↦ rw g refl
            | inr g ↦ rw g refl
          ])

module _ (l : Loop) (is : IsLoop l) (r : ℕ) where
  pub check_enters :
      (x : ℕ) (vm : Vm)
      → InLoop l l.check x vm
      → is_empty_range l.step x l.end ≡ false
      → Returns (step r vm) (λ q. (q.0 ≡ next) × InLoop l (l.check + 4) x q.1)
  check_enters x vm h g =
      let at : At (93 ∷ l.target ∷ l.target / 256 ∷ l.var ∷ []) vm.pc vm.code =
        rw (h.pc, h.code) is.at_check in
      let room = is.room in
      let order = is.order in
      let pos : u16 (vm.pc + 4) ≡ l.check + 4 = omega (arith, h.pc) in
      rw (step_check r l.target l.var vm is.outside is.byte at, h.step, h.end, h.value, g)
        (
          refl,
          record {
            pc = pos;
            code = h.code;
            sp = h.sp;
            depth = h.depth;
            step = h.step;
            end = h.end;
            exists = h.exists;
            value = h.value;
          },
        )

  pub next_repeats :
      (x : ℕ) (vm : Vm)
      → InLoop l l.behind x vm
      → goes_on l.step (u32 (x + l.step)) l.end ≡ true
      → Returns (step r vm) (λ q. (q.0 ≡ next) × InLoop l (l.check + 4) (u32 (x + l.step)) q.1)
  next_repeats x vm h g =
      let at : At (33 ∷ (l.check + 4) ∷ (l.check + 4) / 256 ∷ l.var ∷ []) vm.pc vm.code =
        rw (h.pc, h.code) is.at_next in
      let room = is.room in
      let order = is.order in
      rw (step_next r (l.check + 4) l.var vm (omega arith) is.byte at, h.step, h.end, h.value, g)
        (
          refl,
          record {
            pc = refl;
            code = h.code;
            sp = h.sp;
            depth = h.depth;
            step = h.step;
            end = h.end;
            exists = rw (length-set vm.variables l.var (u32 (x + l.step))) h.exists;
            value = get_or-set_self vm.variables l.var (u32 (x + l.step)) 0 h.exists;
          },
        )

  pub next_leaves :
      (x : ℕ) (vm : Vm)
      → InLoop l l.behind x vm
      → goes_on l.step (u32 (x + l.step)) l.end ≡ false
      → Returns (step r vm) (λ q. (q.0 ≡ next) × Left l (l.behind + 4) (u32 (x + l.step)) q.1)
  next_leaves x vm h g =
      let at : At (33 ∷ (l.check + 4) ∷ (l.check + 4) / 256 ∷ l.var ∷ []) vm.pc vm.code =
        rw (h.pc, h.code) is.at_next in
      let room = is.room in
      let order = is.order in
      let pos : u16 (vm.pc + 4) ≡ l.behind + 4 = omega (arith, h.pc) in
      let two : u16 (u16 (vm.sp + 65535) + 65535) ≡ u16 (l.sp + 65534) = omega (arith, h.sp) in
      let d : u8 (vm.nested_loop_idx + 255) ≡ u8 (l.depth + 255) = rw h.depth refl in
      rw (step_next r (l.check + 4) l.var vm (omega arith) is.byte at, h.step, h.end, h.value, g)
        (
          refl,
          record {
            pc = pos;
            sp = two;
            depth = d;
            value = get_or-set_self vm.variables l.var (u32 (x + l.step)) 0 h.exists;
          },
        )
