-- ===== src/Base/Residues.antt =====
-- The low bits of sums, differences, products and of the bitwise operations are those of the low
-- bits of the operands.
use Prim.Native.Nat.{
  ℕ, zero, suc, ◌+◌, ◌-◌, ◌*◌, ◌/◌, ◌%◌, ◌^◌, ◌≤◌, ◌<◌, min, max, differ, bit_and, bit_or, bit_xor,
}
use mathlib.Core.Path.{◌≡◌, refl, sym, ap, ◌∙◌}
use native.Mathlib.Nat.{
  pow-suc, one-le-pow, mul_comm, mul_assoc, mod-eq_of_lt, add-mul-mod_self_left, div-add-mod,
  mod-lt, add-mul, div-lt_iff_lt-mul,
}
use native.Mathlib.Omega.{arith}
use booth.Base.Bits.{bit_and-halves, bit_or-halves, bit_xor-halves, differ_lem}

-- A remainder by a double, digit by digit.
mod_digits : (p d x : ℕ) → 0 < p → d < 2 → (d + x * 2) % (2 * p) ≡ d + x % p * 2
mod_digits p d x h low =
    let whole = div-add-mod x p in
    let below = mod-lt x h in
    let split : d + x * 2 ≡ (d + x % p * 2) + 2 * p * (x / p) =
      omega (arith, mul_assoc 2 p (x / p)) in
    rw split (
      add-mul-mod_self_left (d + x % p * 2) (2 * p) (x / p)
      ∙ mod-eq_of_lt {n = d + x % p * 2} {m = 2 * p} (omega arith))

low_digits : (k a : ℕ) → a % 2 ^ suc k ≡ a % 2 + a / 2 % 2 ^ k * 2
low_digits k a =
    let here : a ≡ a % 2 + a / 2 * 2 = omega arith in
    let double : 2 ^ suc k ≡ 2 * 2 ^ k = omega (arith, pow-suc 2 k) in
    rw double (
      ap (λ (t : ℕ). t % (2 * 2 ^ k)) here
      ∙ mod_digits (2 ^ k) (a % 2) (a / 2) (omega (arith, one-le-pow k 2)) (omega arith))

module _ (op : ℕ → ℕ → ℕ) (f : ℕ → ℕ → ℕ)
    (halves : (a b : ℕ) → op a b ≡ f (a % 2) (b % 2) + op (a / 2) (b / 2) * 2)
    (digit : (x y : ℕ) → x < 2 → y < 2 → f x y < 2) (nothing : op 0 0 ≡ 0) where
  mod_bitwise : (k a b : ℕ) → op (a % 2 ^ k) (b % 2 ^ k) ≡ op a b % 2 ^ k
  mod_bitwise zero a b =
      let low_a : a % 2 ^ 0 ≡ 0 = omega arith in
      let low_b : b % 2 ^ 0 ≡ 0 = omega arith in rw (low_a, low_b) (omega arith)
  mod_bitwise (suc k) a b =
      let x = a % 2 ^ suc k in
      let y = b % 2 ^ suc k in
      let low_a : x % 2 ≡ a % 2 = omega (arith, low_digits k a) in
      let low_b : y % 2 ≡ b % 2 = omega (arith, low_digits k b) in
      let high_a : x / 2 ≡ a / 2 % 2 ^ k = omega (arith, low_digits k a) in
      let high_b : y / 2 ≡ b / 2 % 2 ^ k = omega (arith, low_digits k b) in
      let d = f (a % 2) (b % 2) in
      let rest = op (a / 2) (b / 2) in
      let left : op x y ≡ d + op (a / 2 % 2 ^ k) (b / 2 % 2 ^ k) * 2 =
        rw (← low_a, ← low_b, ← high_a, ← high_b) (halves x y) in
      let small : d < 2 = digit (a % 2) (b % 2) (omega arith) (omega arith) in
      let right = low_digits k (op a b) in
      let low : op a b % 2 ≡ d = omega (arith, halves a b) in
      let high : op a b / 2 ≡ rest = omega (arith, halves a b) in
      let right' = rw (low, high) at right in omega (arith, mod_bitwise k (a / 2) (b / 2))

pub mod-bit_and : (k a b : ℕ) → bit_and (a % 2 ^ k) (b % 2 ^ k) ≡ bit_and a b % 2 ^ k
mod-bit_and = mod_bitwise bit_and min (λ a b. bit_and-halves a b) (λ x y p q. omega arith) refl

pub mod-bit_or : (k a b : ℕ) → bit_or (a % 2 ^ k) (b % 2 ^ k) ≡ bit_or a b % 2 ^ k
mod-bit_or = mod_bitwise bit_or max (λ a b. bit_or-halves a b) (λ x y p q. omega arith) refl

pub mod-bit_xor : (k a b : ℕ) → bit_xor (a % 2 ^ k) (b % 2 ^ k) ≡ bit_xor a b % 2 ^ k
mod-bit_xor =
    mod_bitwise bit_xor differ (λ a b. bit_xor-halves a b)
      (λ x y p q. omega (arith, differ_lem x y p q)) refl

-- A remainder by a power of two keeps the remainder by a smaller one.
pub mod-mod_pow : (k j a : ℕ) → k ≤ j → a % 2 ^ j % 2 ^ k ≡ a % 2 ^ k
mod-mod_pow zero j a h = omega arith
mod-mod_pow (suc k) zero a h = absurd (omega arith)
mod-mod_pow (suc k) (suc j) a h =
    let x = a % 2 ^ suc j in
    let low : x % 2 ≡ a % 2 = omega (arith, low_digits j a) in
    let high : x / 2 ≡ a / 2 % 2 ^ j = omega (arith, low_digits j a) in
    let here = rw (low, high, mod-mod_pow k j (a / 2) (omega arith)) at (low_digits k x) in
    omega (arith, low_digits k a)

pub mul-mod_one : (a b m : ℕ) → (a % m) * b % m ≡ a * b % m
mul-mod_one a b m =
    let whole : (m * (a / m) + a % m) * b ≡ a * b = ap (λ (t : ℕ). t * b) (div-add-mod a m) in
    let split : (m * (a / m) + a % m) * b ≡ (a % m) * b + m * (a / m * b) =
      omega (arith, add-mul (m * (a / m)) (a % m) b, mul_assoc m (a / m) b) in
    rw (← whole, split) (sym (add-mul-mod_self_left ((a % m) * b) m (a / m * b)))

pub mul-mod_both : (a b m : ℕ) → (a % m) * (b % m) % m ≡ a * b % m
mul-mod_both a b m =
    mul-mod_one a (b % m) m
    ∙ ap (λ (t : ℕ). t % m) (mul_comm a (b % m))
    ∙ mul-mod_one b a m
    ∙ ap (λ (t : ℕ). t % m) (mul_comm b a)

pub pow_split : (j k : ℕ) → 2 ^ (j + k) ≡ 2 ^ j * 2 ^ k
pow_split zero k = omega (arith, ap (λ (n : ℕ). 2 ^ n) (let e : 0 + k ≡ k = omega arith in e))
pow_split (suc j) k =
    ap (λ (n : ℕ). 2 ^ n) {x = suc j + k} {y = suc (j + k)} (omega arith)
    ∙ rw (pow-suc 2 (j + k), pow-suc 2 j, pow_split j k) (grind arith)

-- Flipping all the bits flips the low ones.
pub complement-mod :
    (k j x : ℕ) → k ≤ j → x < 2 ^ j → (2 ^ j - 1 - x) % 2 ^ k ≡ 2 ^ k - 1 - x % 2 ^ k
complement-mod k j x h fits =
    let p = 2 ^ k in
    let n = 2 ^ (j - k) in
    let q = x / p in
    let above : 0 < p = omega (arith, one-le-pow k 2) in
    let total : 2 ^ j ≡ n * p =
      ap (λ (i : ℕ). 2 ^ i) {x = j} {y = (j - k) + k} (omega arith) ∙ pow_split (j - k) k in
    let whole = div-add-mod x p in
    let r_low = mod-lt x above in
    let q_low : q < n = (div-lt_iff_lt-mul above).1 (omega arith) in
    let c = n - q - 1 in
    let parts : n * p ≡ q * p + p + c * p =
      ap (λ (t : ℕ). t * p) {x = n} {y = q + 1 + c} (omega arith)
      ∙ omega (arith, add-mul (q + 1) c p, add-mul q 1 p) in
    let split : 2 ^ j - 1 - x ≡ (p - 1 - x % p) + p * (n - q - 1) =
      omega (arith, mul_comm p q, mul_comm p c) in
    rw split (
      add-mul-mod_self_left (p - 1 - x % p) p (n - q - 1)
      ∙ mod-eq_of_lt {n = p - 1 - x % p} {m = p} (omega arith))
