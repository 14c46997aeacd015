-- ===== src/Vm/Params.antt =====
-- The parameter stack and the temporary strings of src/nc_runtime.c.
use nanoc.Base.{
  ℕ, ◌+◌, ◌<◌, ◌≡◌, ◌≢◌, refl, arith, Returns, length, get_or-set_self, Bool-cases, inl, inr,
}
use nanoc.Vm.State.{Vm, ppush, ppop}
use nanoc.Vm.Host.{nc_push_num, nc_pop_num, nc_peek_num}
use nanoc.Vm.Strings.{alloc_temp_string}

-- With fewer than 8 parameters on the stack, nc_push_num makes it one deeper, nc_peek_num of 1 then
-- reads the pushed number, and nc_pop_num returns it and leaves the stack as deep as before.
pub nc_pop_num-nc_push_num :
    (vm : Vm) (x : ℕ)
    → length vm.paramstack ≡ 8
    → vm.psp < 8
    → Returns (nc_push_num x vm) (λ r.
      (r.1.psp ≡ vm.psp + 1)
      × Returns (nc_peek_num 1 r.1) (λ q. q.0 ≡ x)
      × Returns (nc_pop_num r.1) (λ q. (q.0 ≡ x) × (q.1.psp ≡ vm.psp)))
unfolding nc_push_num nc_pop_num nc_peek_num ppush ppop
nc_pop_num-nc_push_num vm x sized room = ground (arith, get_or-set_self vm.paramstack vm.psp x 0)

-- Two temporary strings in a row lie in different buffers, and a third lies in that of the first.
pub alloc_temp_string_lem :
    (vm : Vm)
    → Returns (alloc_temp_string vm) (λ r.
      Returns
        (alloc_temp_string r.1)
        (λ q. (q.0 ≢ r.0) × Returns (alloc_temp_string q.1) (λ p. p.0 ≡ r.0)))
unfolding alloc_temp_string
alloc_temp_string_lem vm = elim (Bool-cases vm.strbuf1_used) [
  | inl e ↦ rw e ((λ c. cc), refl)
  | inr e ↦ rw e ((λ c. cc), refl)
]
