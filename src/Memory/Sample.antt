-- ===== src/Memory/Sample.antt =====
-- The heap of src/nc_memory.c with one allocated run of 3 blocks at its start, for tests.
use nanoc.Base.{
  ℕ, zero, suc, ◌+◌, ◌≤◌, ◌≡◌, refl, List, [], ◌∷◌, arith, get_or, replicate, length-replicate,
}
use nanoc.Memory.{Mem}
use nanoc.Memory.Layout.{vacant, used, extent-replicate, IsRun, Layout, Holds}

abbrev zeros : ℕ → List ℕ
zeros n = replicate n 0

-- A heap that is 0 behind its first two bytes.
abbrev pub headed : ℕ → List ℕ
headed n = 3 ∷ 6 ∷ zeros n

zeros_at : (n i : ℕ) → get_or (zeros n) i 0 ≡ zero
zeros_at zero zero = refl
zeros_at zero (suc i) = refl
zeros_at (suc n) zero = refl
zeros_at (suc n) (suc i) = zeros_at n i

behind_header : (n i : ℕ) → 2 ≤ i → get_or (headed n) i 0 ≡ 0
behind_header n zero h = absurd (omega arith)
behind_header n (suc zero) h = absurd (omega arith)
behind_header n (suc (suc i)) h = zeros_at n i

vacant_Layout : (k n p : ℕ) → 2 ≤ p → Layout (headed n) p (replicate k vacant)
vacant_Layout zero n p h = tt
vacant_Layout (suc k) n p h = (behind_header n p h, vacant_Layout k n (p + 8) (omega arith))

header_IsRun : IsRun 3 6
header_IsRun = record { positive = omega arith; enough = omega arith; byte = omega arith }

-- The whole heap: the run, and the free blocks behind it.
abbrev pub one_run : ℕ → Mem
one_run n = record { heap = headed n; mem_start_addr = 24 }

pub one_run-Holds :
    (n k : ℕ) → n ≡ 8190 → k ≡ 1021 → Holds (one_run n) (used 3 6 ∷ []) (replicate k vacant)
one_run-Holds n k en ek = record {
  sized = omega (arith, length-replicate {A = ℕ} n 0);
  filled = omega (arith, extent-replicate k);
  tags = ((refl, omega arith, refl, header_IsRun), vacant_Layout k n 24 (omega arith));
  start = refl;
}
