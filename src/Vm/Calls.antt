-- ===== src/Vm/Calls.antt =====
-- The calling protocol of `nc_run` (src/nc_runtime.c): GOSUB and ENTER build a frame on the data
-- stack, and LEAVE takes it down.
use nanoc.Base.{
  ℕ, ◌+◌, ◌%◌, ◌<◌, ◌≡◌, ap, ◌∙◌, done, arith, Returns, Returns-mono, get_or, set, length,
  length-set, get_or-set_self, get_or-set_ne,
}
use nanoc.Base.Word.{u16}
use nanoc.Vm.State.{Vm, Flow, next, push, pop, code16, code_byte}
use nanoc.Vm.Control.{exec_gosub, exec_enter, exec_leave}

-- The two cells of the frame that the callee must leave alone.
pub record Frame (vm : Vm) (ret old : ℕ) : Type 0 where
  pub return_address : get_or vm.stack (u16 (vm.fp + 65534) % 128) 0 ≡ ret
  pub old_pointer : get_or vm.stack (u16 (vm.fp + 65535) % 128) 0 ≡ old

-- What GOSUB does when it goes on.
abbrev Called : Vm → Vm → Type 0
Called vm vm₁ =
    (vm.sp < 128)
    × (vm₁.stack ≡ set vm.stack (vm.sp % 128) (vm.pc + 3))
    × (vm₁.sp ≡ u16 (vm.sp + 1))
    × (vm₁.fp ≡ vm.fp)

gosub_lem : (vm vm₁ : Vm) → exec_gosub vm ≡ done (next, vm₁) → Called vm vm₁
unfolding exec_gosub push code16 code_byte
gosub_lem vm vm₁ e = ground arith

abbrev Entered : Vm → Vm → Type 0
Entered vm vm₁ = (vm₁.stack ≡ set vm.stack (vm.sp % 128) vm.fp) × (vm₁.fp ≡ u16 (vm.sp + 1))

enter_lem : (vm vm₁ : Vm) → exec_enter vm ≡ done (next, vm₁) → Entered vm vm₁
unfolding exec_enter push code_byte
enter_lem vm vm₁ e = ground arith

-- If GOSUB and ENTER went on from a VM with 128 stack cells, then the two cells below the new frame
-- pointer hold the address behind the GOSUB and the old frame pointer, and the new frame pointer is
-- the old stack pointer plus 2.
pub call-Frame :
    (vm vm₁ vm₂ : Vm)
    → length vm.stack ≡ 128
    → exec_gosub vm ≡ done (next, vm₁)
    → exec_enter vm₁ ≡ done (next, vm₂)
    → Frame vm₂ (vm.pc + 3) vm.fp × (vm₂.fp ≡ vm.sp + 2)
call-Frame vm vm₁ vm₂ sized e₁ e₂ =
    let (room, stack₁, sp₁, fp₁) = gosub_lem vm vm₁ e₁ in
    let (stack₂, fp₂) = enter_lem vm₁ vm₂ e₂ in
    let at : vm₂.fp ≡ vm.sp + 2 = omega arith in
    let one = vm.sp % 128 in
    let two = vm₁.sp % 128 in
    let size₁ : length vm₁.stack ≡ 128 =
      ap length stack₁ ∙ length-set vm.stack one (vm.pc + 3) ∙ sized in
    let low : u16 (vm₂.fp + 65534) % 128 ≡ one = omega arith in
    let high : u16 (vm₂.fp + 65535) % 128 ≡ two = omega arith in
    (
      record {
        return_address =
            rw (low, stack₂, get_or-set_ne vm₁.stack two one vm₁.fp 0 (omega arith), stack₁)
              (get_or-set_self vm.stack one (vm.pc + 3) 0 (omega arith));
        old_pointer =
            rw (high, stack₂) (get_or-set_self vm₁.stack two vm₁.fp 0 (omega arith) ∙ fp₁);
      },
      at,
    )

-- What LEAVE does in a frame, whatever stands above the frame pointer.
abbrev pub Left : Vm → ℕ → ℕ → Flow × Vm → Type 0
Left vm ret old (flow, vm') =
    (flow ≡ next)
    × (vm'.pc ≡ u16 ret)
    × (vm'.fp ≡ u16 old)
    × (vm'.sp ≡ u16 (vm.fp + 65534))
    × (vm'.stack ≡ vm.stack)

leave_lem :
    (vm : Vm) (ret old : ℕ)
    → vm.fp < 65536
    → Frame vm ret old
    → Returns (exec_leave vm) (Left vm ret old)
unfolding exec_leave pop
leave_lem vm ret old small f = ground (arith, f.return_address, f.old_pointer)

-- If GOSUB and ENTER went on from a VM with 128 stack cells, pc below 65533 and a 16-bit fp, and
-- the callee comes to LEAVE with the frame pointer and the two stack cells below it as ENTER left
-- them, then LEAVE goes on behind the GOSUB with stack pointer and frame pointer as before the
-- call.
pub call_return :
    (vm vm₁ vm₂ vm₃ : Vm)
    → length vm.stack ≡ 128
    → vm.pc < 65533
    → vm.fp < 65536
    → exec_gosub vm ≡ done (next, vm₁)
    → exec_enter vm₁ ≡ done (next, vm₂)
    → vm₃.fp ≡ vm₂.fp
    → get_or vm₃.stack (vm.sp % 128) 0 ≡ get_or vm₂.stack (vm.sp % 128) 0
    → get_or vm₃.stack ((vm.sp + 1) % 128) 0 ≡ get_or vm₂.stack ((vm.sp + 1) % 128) 0
    → Returns
        (exec_leave vm₃)
        (λ r. (r.0 ≡ next) × (r.1.pc ≡ vm.pc + 3) × (r.1.sp ≡ vm.sp) × (r.1.fp ≡ vm.fp))
call_return vm vm₁ vm₂ vm₃ sized pc fp e₁ e₂ same low high =
    let (f, at) = call-Frame vm vm₁ vm₂ sized e₁ e₂ in
    let (room, _, _, _) = gosub_lem vm vm₁ e₁ in
    let one : u16 (vm₃.fp + 65534) % 128 ≡ vm.sp % 128 = omega arith in
    let two : u16 (vm₃.fp + 65535) % 128 ≡ (vm.sp + 1) % 128 = omega arith in
    let one₂ : u16 (vm₂.fp + 65534) % 128 ≡ vm.sp % 128 = omega arith in
    let two₂ : u16 (vm₂.fp + 65535) % 128 ≡ (vm.sp + 1) % 128 = omega arith in
    let frame : Frame vm₃ (vm.pc + 3) vm.fp = record {
      return_address = rw (one, low, ← one₂) f.return_address;
      old_pointer = rw (two, high, ← two₂) f.old_pointer;
    } in
    Returns-mono (exec_leave vm₃)
      (λ r l. (l.0, l.1 ∙ omega arith, l.3 ∙ omega arith, l.2 ∙ omega arith))
      (leave_lem vm₃ (vm.pc + 3) vm.fp (omega arith) frame)
