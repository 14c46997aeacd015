-- ===== src/Vm/Budget.antt =====
-- The cycle budget of `nc_run` (src/nc_runtime.c): a run that used it up goes on where it stopped.
use Prim.Native.Nat.add
use nanoc.Base.{ℕ, zero, suc, ◌+◌, ◌≡◌, refl, Run, done, fault, arith}
use nanoc.Base.Outcome
use nanoc.Vm.State.{Vm, Flow, next, return_vm, nb_busy}
use nanoc.Vm.Step.{Stop, step, run}

abbrev pub used_up : Stop
used_up = record { result = nb_busy; cycles = 0 }

-- The rest of a run after the outcome of one round.
after : (ℕ → ℕ) → ℕ → Run (Flow × Vm) → Run (Stop × Vm)
after rand c r = Outcome.◌>>=◌ r λ r. elim (r.0) [
  | next ↦ run rand (suc c) (r.1)
  | return_vm v ↦ done (record { result = v; cycles = suc c }, r.1)
]

run-suc :
    (rand : ℕ → ℕ) (c : ℕ) (vm : Vm)
    → run rand (suc (suc c)) vm ≡ after rand c (step (rand (suc c)) vm)
unfolding run after
run-suc rand c vm = refl

-- What `rand()` returns in the rounds before the last `n`.
abbrev pub before_last : ℕ → (ℕ → ℕ) → ℕ → ℕ
before_last n rand k = rand (k + n)

module _ (rand : ℕ → ℕ) (n m : ℕ) (vm' : Vm)
    (ih : (vm : Vm)
      → run (before_last n rand) (suc m) vm ≡ done (used_up, vm')
      → run rand (suc (m + n)) vm ≡ run rand (suc n) vm') where
  one_round :
      (r : Run (Flow × Vm))
      → after (before_last n rand) m r ≡ done (used_up, vm')
      → after rand (m + n) r ≡ run rand (suc n) vm'
  unfolding after
  one_round fault h = absurd (cc)
  one_round (done (next, vm)) h = ih vm h
  one_round (done (return_vm v, vm)) h = absurd (ground arith)

-- If a run of nc_run with m + 1 cycles left 0 cycles and NB_BUSY, then a run with n cycles more, on
-- the same random numbers, equals the run with n + 1 cycles from the VM that the first one left.
pub run_resume :
    (rand : ℕ → ℕ) (n m : ℕ) (vm vm' : Vm)
    → run (before_last n rand) (suc m) vm ≡ done (used_up, vm')
    → run rand (suc (m + n)) vm ≡ run rand (suc n) vm'
run_resume rand n zero vm vm' e =
    let same : vm ≡ vm' = unfold run in ground arith in rw (add.zero, same) refl
run_resume rand n (suc m) vm vm' e =
    let first : after (before_last n rand) m (step (rand (suc (m + n))) vm) ≡ done (used_up, vm') =
      rw (run-suc, add.suc) at e in
    rw (add.suc, run-suc)
      (one_round rand n m vm' (λ v. run_resume rand n m v vm') (step (rand (suc (m + n))) vm) first)
