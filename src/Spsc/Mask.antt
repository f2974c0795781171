-- ===== src/Spsc/Mask.antt =====
-- `x & (2^k - 1)`, the way in which the ring buffer wraps its indices.
use Prim.Native.Nat.{bit_and, bit_and-bitwise, digits}
use native.Mathlib.Nat.{
  two-pow-succ, mod-eq_of_lt, one-le-pow, div-add-mod, mod-lt, add-mul-mod_self_left,
}
use astra_exchange.Base.{
  ℕ, zero, suc, ◌+◌, ◌-◌, ◌*◌, ◌/◌, ◌%◌, ◌^◌, ◌≤◌, ◌<◌, ◌≡◌, ap, ◌∙◌, sym, min, arith,
}

pub two-pow-pos : (k : ℕ) → 0 < 2 ^ k
two-pow-pos k = one-le-pow k 2 (omega arith)

-- The last binary digit, put back behind a remainder of the others.
mod-double : (x m : ℕ) → 0 < m → x / 2 % m * 2 + x % 2 ≡ x % (m + m)
mod-double x m h =
    let d : ℕ = x / 2 % m * 2 + x % 2 in
    let e : x ≡ d + (m + m) * (x / 2 / m) = omega (arith, div-add-mod (x / 2) m) in
    sym (
      ap (λ n. n % (m + m)) e
      ∙ add-mul-mod_self_left d (m + m) (x / 2 / m)
      ∙ mod-eq_of_lt (omega (arith, mod-lt (x / 2) h)))

low_digits : (k n a : ℕ) → a ≤ n → digits (λ b. zero) min n a (2 ^ k - 1) ≡ a % 2 ^ k
low_digits k zero zero h = sym (mod-eq_of_lt (two-pow-pos k))
low_digits k zero (suc a) h = absurd (omega arith)
low_digits k (suc n) zero h = sym (mod-eq_of_lt (two-pow-pos k))
low_digits zero (suc n) (suc a) h = omega (arith, low_digits zero n (suc a / 2) (omega arith))
low_digits (suc k) (suc n) (suc a) h =
    let p : 2 ^ suc k ≡ 2 ^ k + 2 ^ k = two-pow-succ k in
    let half : (2 ^ suc k - 1) / 2 ≡ 2 ^ k - 1 = omega (arith, p, two-pow-pos k) in
    let low : (2 ^ suc k - 1) % 2 ≡ 1 = omega (arith, p, two-pow-pos k) in
    let rest = low_digits k n (suc a / 2) (omega arith) in
    rw (half, low, rest)
      (omega (arith, mod-double (suc a) (2 ^ k) (two-pow-pos k), ap (λ m. suc a % m) p))

pub bit_and-mask : (k x : ℕ) → bit_and x (2 ^ k - 1) ≡ x % 2 ^ k
bit_and-mask k x = bit_and-bitwise x (2 ^ k - 1) ∙ low_digits k x x (omega arith)
