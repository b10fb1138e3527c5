-- ===== src/SecurityConfig/Retry/Delay.antt =====
-- The delay before a retry.
use opensearch_k8s_operator.Prelude.{
  ℕ, zero, suc, ◌*◌, ◌^◌, ◌≤◌, ◌<◌, ◌≡◌, ◌∙◌, inl, inr, arith, leb, leb→le, Bool-cases,
}
use opensearch_k8s_operator.Prelude.Int.{ℤ, pos, negsuc}
use opensearch_k8s_operator.SecurityConfig.Retry.{delay_loop, retry_delay}

double : (n d : ℕ) → d * 2 * 2 ^ n ≡ d * 2 ^ suc n
double n d = grind arith

grows : (n d : ℕ) → d ≤ d * 2 ^ n
grows zero d = omega arith
grows (suc n) d = omega (arith, grows n (d * 2), double n d)

delay_loop_small : (n d : ℕ) → d * 2 ^ n < 900 → delay_loop n d ≡ d * 2 ^ n
unfolding delay_loop
delay_loop_small zero d h = omega arith
delay_loop_small (suc n) d h = elim (Bool-cases (leb 900 (d * 2))) [
  | inl e ↦ absurd (omega (arith, leb→le 900 (d * 2) e, grows n (d * 2), double n d))
  | inr e ↦ rw e (delay_loop_small n (d * 2) (omega (arith, double n d)) ∙ double n d)
]

delay_loop_large : (n d : ℕ) → d < 900 → 900 ≤ d * 2 ^ n → delay_loop n d ≡ 900
unfolding delay_loop
delay_loop_large zero d l h = absurd (omega arith)
delay_loop_large (suc n) d l h = elim (Bool-cases (leb 900 (d * 2))) [
  | inl e ↦ rw e (omega arith)
  | inr e ↦ rw e (delay_loop_large n (d * 2) (ground arith) (omega (arith, double n d)))
]

pub delay_loop-bounds : (n d : ℕ) → d ≤ 900 → (d ≤ delay_loop n d) × (delay_loop n d ≤ 900)
unfolding delay_loop
delay_loop-bounds zero d h = (omega arith, h)
delay_loop-bounds (suc n) d h = elim (Bool-cases (leb 900 (d * 2))) [
  | inl e ↦ rw e (h, omega arith)
  | inr e ↦
      let (a, b) = delay_loop-bounds n (d * 2) (ground arith) in
      rw e (omega (arith, a), omega (arith, b))
]

-- The delay before a retry is 30 s doubled once for each earlier retry, cut at 15 minutes; for any
-- count, a negative one too, it is between the two.
pub retry_delay-closed_form :
    (count : ℤ) (n : ℕ)
    → (30 * 2 ^ n < 900 → retry_delay (pos n) ≡ 30 * 2 ^ n)
      × (900 ≤ 30 * 2 ^ n → retry_delay (pos n) ≡ 900)
      × (30 ≤ retry_delay count)
      × (retry_delay count ≤ 900)
unfolding retry_delay
retry_delay-closed_form (pos k) n =
    let (a, b) = delay_loop-bounds k 30 (omega arith) in
    (delay_loop_small n 30, delay_loop_large n 30 (omega arith), a, b)
retry_delay-closed_form (negsuc k) n =
    (delay_loop_small n 30, delay_loop_large n 30 (omega arith), omega arith, omega arith)
