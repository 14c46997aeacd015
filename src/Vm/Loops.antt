-- ===== src/Vm/Loops.antt =====
-- The counting loops of `nc_run` (src/nc_runtime.c): FOR_CHECK at the start of a loop and NEXT at
-- its end, with any body between them.
use nanoc.Base.{
  ℕ, zero, suc, ◌+◌, ◌*◌, ◌≤◌, ◌<◌, ◌≡◌, ap, refl, true, false, arith, if◌then◌else◌, ◌==◌, Run,
  done, Returns, Returns-mono, Returns-bind, ◌>>=◌,
}
use nanoc.Base.Word.{u32, IsWord, bias}
use nanoc.Vm.State.{Vm, next}
use nanoc.Vm.Control.{goes_on}
use nanoc.Vm.Step.{step}
use nanoc.Vm.Next.{Loop, IsLoop, InLoop, Left, check_enters, next_repeats, next_leaves}

-- The loop from its first instruction behind the check on: the body, a round of nc_run at the NEXT
-- behind it, and again if that went to the start of the body, at most `fuel` times. Gives the number
-- of times that the body ran.
unfoldable pub passes : ℕ → (Vm → Run Vm) → ℕ → ℕ → Vm → Run (ℕ × Vm)
passes r body start zero vm = done (0, vm)
passes r body start (suc fuel) vm = body vm >>= λ v. step r v >>= λ q.
    let again = passes r body start fuel q.1 >>= λ z. done (suc z.0, z.1) in
    if q.1.pc == start then again else done (1, q.1)

module _ (l : Loop) (is : IsLoop l) (r : ℕ) (body : Vm → Run Vm)
    (keeps : (x : ℕ) (vm : Vm)
      → InLoop l (l.check + 4) x vm
      → Returns (body vm) (InLoop l l.behind x)) where
  start_again :
      (fuel x : ℕ) (vm : Vm) (P : ℕ × Vm → Type 0)
      → InLoop l (l.check + 4) x vm
      → goes_on l.step (u32 (x + l.step)) l.end ≡ true
      → ((v : Vm)
          → InLoop l (l.check + 4) (u32 (x + l.step)) v
          → Returns (passes r body (l.check + 4) fuel v) (λ z. P (suc z.0, z.1)))
      → Returns (passes r body (l.check + 4) (suc fuel) vm) P
  unfolding passes
  start_again fuel x vm P h g rest = Returns-bind (body vm) _ _ (keeps x vm h) (λ v at_next.
      Returns-bind (step r v) _ _ (next_repeats l is r x v at_next g) (λ q e.
        let same : (q.1.pc == l.check + 4) ≡ true = ground (arith, e.1.pc) in
        rw same (
          Returns-bind (passes r body (l.check + 4) fuel q.1) (λ z. done (suc z.0, z.1)) P
            (rest q.1 e.1) (λ z p. p))))

  stop :
      (fuel x : ℕ) (vm : Vm)
      → InLoop l (l.check + 4) x vm
      → goes_on l.step (u32 (x + l.step)) l.end ≡ false
      → Returns
          (passes r body (l.check + 4) (suc fuel) vm)
          (λ z. (z.0 ≡ 1) × Left l (l.behind + 4) (u32 (x + l.step)) z.1)
  unfolding passes
  stop fuel x vm h g = Returns-bind (body vm) _ _ (keeps x vm h) (λ v at_next.
      Returns-bind (step r v) _ _ (next_leaves l is r x v at_next g) (λ q e.
        let order = is.order in
        let other : (q.1.pc == l.check + 4) ≡ false = ground (arith, e.1.pc) in
        rw other (refl, e.1)))

  -- Let the code of a loop be laid out as FOR_CHECK, a body and a NEXT that jumps to the body, and
  -- let the body return at NEXT with the code, the stack pointer, the two values on top of the
  -- stack, the loop depth and the loop variable as it found them. With a positive signed step, and
  -- a start and an end such that the value after the last one does not overflow, a round of nc_run
  -- at FOR_CHECK goes to the body; rounds of the body and NEXT then run the body k + 1 times, where
  -- k is how often the step fits between start and end and any fuel above k is enough; and the VM
  -- stands behind NEXT, with both stack values gone, one loop less, and k + 1 steps added to the
  -- variable.
  pub passes_up :
      (k fuel x : ℕ) (vm : Vm)
      → InLoop l l.check x vm
      → IsWord x
      → 0 < l.step
      → l.step < 2147483648
      → bias x + k * l.step ≤ bias l.end
      → bias l.end < bias x + suc k * l.step
      → bias l.end + l.step < 4294967296
      → k < fuel
      → Returns (step r vm) (λ q.
        (q.0 ≡ next)
        × Returns
            (passes r body (l.check + 4) fuel q.1)
            (λ z. (z.0 ≡ suc k) × Left l (l.behind + 4) (u32 (x + suc k * l.step)) z.1))
  passes_up k fuel x vm h w pos small lo hi fits enough =
      Returns-mono (step r vm) (λ q e. (e.0, up k fuel x q.1 e.1 w lo hi enough))
        (check_enters l is r x vm h (ground arith))
    where
      up :
          (k fuel x : ℕ) (vm : Vm)
          → InLoop l (l.check + 4) x vm
          → IsWord x
          → bias x + k * l.step ≤ bias l.end
          → bias l.end < bias x + suc k * l.step
          → k < fuel
          → Returns
              (passes r body (l.check + 4) fuel vm)
              (λ z. (z.0 ≡ suc k) × Left l (l.behind + 4) (u32 (x + suc k * l.step)) z.1)
      up k zero x vm h w lo hi enough = absurd (omega arith)
      up zero (suc fuel) x vm h w lo hi enough =
          let e : u32 (x + 1 * l.step) ≡ u32 (x + l.step) = omega arith in
          rw e (stop fuel x vm h (ground arith))
      up (suc k) (suc fuel) x vm h w lo hi enough =
          let moved : bias (u32 (x + l.step)) ≡ bias x + l.step = omega arith in
          let e : u32 (u32 (x + l.step) + suc k * l.step) ≡ u32 (x + suc (suc k) * l.step) =
            omega arith in
          start_again fuel x vm _ h (ground (arith, moved)) (λ v h'.
            Returns-mono (passes r body (l.check + 4) fuel v) (λ z p. (ap suc p.0, rw e at p.1))
              (up k fuel (u32 (x + l.step)) v h' (omega arith) (omega arith) (omega arith)
                (omega arith)))

  -- In a loop of that layout with such a body, to the end value INT32_MAX in steps of 1, NEXT never
  -- leaves: from the start of the body with any 32-bit value x of the variable, rounds of the body
  -- and NEXT run the body as often as the fuel allows, and the VM is at the start of the body
  -- again, with x plus that number, cut to 32 bits, in the variable.
  pub passes_forever :
      (fuel x : ℕ) (vm : Vm)
      → l.step ≡ 1
      → l.end ≡ 2147483647
      → IsWord x
      → InLoop l (l.check + 4) x vm
      → Returns
          (passes r body (l.check + 4) fuel vm)
          (λ z. (z.0 ≡ fuel) × InLoop l (l.check + 4) (u32 (x + fuel)) z.1)
  unfolding passes
  passes_forever zero x vm s t w h = let e : u32 (x + 0) ≡ x = omega arith in (refl, rw e h)
  passes_forever (suc fuel) x vm s t w h =
      let e : u32 (u32 (x + l.step) + fuel) ≡ u32 (x + suc fuel) = omega (arith, s) in
      start_again fuel x vm _ h (rw (s, t) (ground arith)) (λ v h'.
        Returns-mono (passes r body (l.check + 4) fuel v) (λ z p. (ap suc p.0, rw e at p.1))
          (passes_forever fuel (u32 (x + l.step)) v s t (omega arith) h'))
