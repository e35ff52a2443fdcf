-- ===== src/Core/Runtime/Backoff.antt =====
-- crates/sg-core/src/runtime.rs: the delays between attempts to reconnect.
use server_glass.Base.{ℕ, zero, suc, ◌≤◌, ◌≡◌, ◌-◌, ◌+◌, min, refl, sym, arith}
use mathlib.Core.Path.{subst}
use server_glass.Core.Runtime.{backoff_ms, backoff_for}

backoff_ms_step :
    (i : ℕ) → (1000 ≤ backoff_ms i) × (backoff_ms i ≤ backoff_ms (suc i)) × (backoff_ms i ≤ 30000)
unfolding backoff_ms
backoff_ms_step zero = (omega arith, omega arith, omega arith)
backoff_ms_step (suc zero) = (omega arith, omega arith, omega arith)
backoff_ms_step (suc (suc zero)) = (omega arith, omega arith, omega arith)
backoff_ms_step (suc (suc (suc zero))) = (omega arith, omega arith, omega arith)
backoff_ms_step (suc (suc (suc (suc zero)))) = (omega arith, omega arith, omega arith)
backoff_ms_step (suc (suc (suc (suc (suc n))))) = (omega arith, omega arith, omega arith)

backoff_ms_mono : (i k : ℕ) → backoff_ms i ≤ backoff_ms (k + i)
backoff_ms_mono i zero =
    let e : i ≡ zero + i = omega arith in subst (λ x. backoff_ms i ≤ backoff_ms x) e (omega arith)
backoff_ms_mono i (suc k) =
    let e : suc (k + i) ≡ suc k + i = omega arith in
    subst (λ x. backoff_ms i ≤ backoff_ms x) e
      (omega (arith, backoff_ms_mono i k, (backoff_ms_step (k + i)).1))

backoff_ms-le : (i j : ℕ) → i ≤ j → backoff_ms i ≤ backoff_ms j
backoff_ms-le i j h =
    let e : (j - i) + i ≡ j = omega (arith, h) in
    subst (λ x. backoff_ms i ≤ backoff_ms x) e (backoff_ms_mono i (j - i))

-- The delay is at least a second and at most 30 seconds, does not shrink as the attempts go on, and
-- stays at 30 seconds from the sixth attempt.
pub backoff_for-bounds :
    (m n : ℕ)
    → m ≤ n
    → (1000 ≤ backoff_for m)
      × (backoff_for m ≤ backoff_for n)
      × (backoff_for n ≤ 30000)
      × (backoff_for (n + 6) ≡ 30000)
unfolding backoff_for backoff_ms
backoff_for-bounds m n h =
    let lo = min (m - 1) 5 in
    let hi = min (n - 1) 5 in
    let last : min (n + 6 - 1) 5 ≡ 5 = omega arith in
    (
      (backoff_ms_step lo).0,
      backoff_ms-le lo hi (omega (arith, h)),
      (backoff_ms_step hi).2,
      subst (λ x. backoff_ms x ≡ 30000) (sym last) refl,
    )
