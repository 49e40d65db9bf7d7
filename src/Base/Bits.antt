-- ===== src/Base/Bits.antt =====
-- `|` and `&` of C on disjoint fields, as sums and remainders: the native operations compute at
-- numerals only, so these are the laws by which packed words are read.
use Prim.Native.Nat.{
  ℕ, zero, suc, ◌+◌, ◌-◌, ◌*◌, ◌/◌, ◌%◌, ◌^◌, ◌≤◌, ◌<◌, min, max, bit_and, bit_or, digits, differ,
  bit_xor, bit_and-bitwise, bit_or-bitwise, bit_xor-bitwise,
}
use mathlib.Core.Path.{◌≡◌, refl, ap}
use native.Mathlib.Nat.{pow-suc, one-le-pow, mul_comm, div-div-eq-div-mul}
use native.Mathlib.Omega.{arith}

-- Each native operation is a recursion on binary digits, `digits z f`, with its first operand as
-- fuel. Any fuel from the first operand on gives the same value.
module _ (z : ℕ → ℕ) (f : ℕ → ℕ → ℕ) where
  enough_fuel : (bound m a b : ℕ) → m ≤ bound → a ≤ m → digits z f m a b ≡ digits z f a a b
  enough_fuel bound zero zero b hm ha = refl
  enough_fuel bound (suc m) zero b hm ha = refl
  enough_fuel bound zero (suc a) b hm ha = elim ha [ ]
  enough_fuel zero (suc m) (suc a) b hm ha = elim hm [ ]
  enough_fuel (suc bound) (suc m) (suc a) b hm ha =
      let half = suc a / 2 in
      let long = enough_fuel bound m half (b / 2) (omega arith) (omega arith) in
      let short = enough_fuel bound a half (b / 2) (omega arith) (omega arith) in omega arith

  -- The lowest digit, and the rest of both numbers.
  lowest_digit :
      (a b : ℕ)
      → let half = suc a / 2 in
        digits z f (suc a) (suc a) b ≡ digits z f half half (b / 2) * 2 + f (suc a % 2) (b % 2)
  lowest_digit a b =
      let rest = enough_fuel a a (suc a / 2) (b / 2) (omega arith) (omega arith) in omega arith

-- What the three operations share, over an operation that is given by its digits.
module _ (op : ℕ → ℕ → ℕ) (z : ℕ → ℕ) (f : ℕ → ℕ → ℕ)
    (by_digits : (a b : ℕ) → op a b ≡ digits z f a a b)
    (left_zero : (b : ℕ) → z b ≡ f 0 (b % 2) + z (b / 2) * 2) where
  halves : (a b : ℕ) → op a b ≡ f (a % 2) (b % 2) + op (a / 2) (b / 2) * 2
  halves zero b = rw (by_digits 0 b, by_digits 0 (b / 2)) (left_zero b)
  halves (suc a) b =
      rw (by_digits (suc a) b, by_digits (suc a / 2) (b / 2), lowest_digit z f a b) (omega arith)

  -- An operation that keeps the digits of `a` against zeros, keeps `a`.
  right_zero : ((x : ℕ) → x < 2 → f x 0 ≡ x) → (bound a : ℕ) → a ≤ bound → op a 0 ≡ a
  right_zero keeps zero zero h =
      omega (arith, halves 0 0, keeps 0 (omega arith), left_zero 0, by_digits 0 0)
  right_zero keeps zero (suc a) h = elim h [ ]
  right_zero keeps (suc bound) a h =
      omega (arith, halves a 0, keeps (a % 2), right_zero keeps bound (a / 2) (omega arith))

pub bit_or-halves : (a b : ℕ) → bit_or a b ≡ max (a % 2) (b % 2) + bit_or (a / 2) (b / 2) * 2
bit_or-halves = halves bit_or (λ y. y) max (λ a b. bit_or-bitwise a b) (λ b. omega arith)

pub bit_and-halves : (a b : ℕ) → bit_and a b ≡ min (a % 2) (b % 2) + bit_and (a / 2) (b / 2) * 2
bit_and-halves = halves bit_and (λ y. 0) min (λ a b. bit_and-bitwise a b) (λ b. omega arith)

pub bit_xor-halves : (a b : ℕ) → bit_xor a b ≡ differ (a % 2) (b % 2) + bit_xor (a / 2) (b / 2) * 2
bit_xor-halves = halves bit_xor (λ y. y) differ (λ a b. bit_xor-bitwise a b) (λ b. omega arith)

pub zero-bit_or : (b : ℕ) → bit_or 0 b ≡ b
zero-bit_or b = bit_or-bitwise 0 b

pub zero-bit_xor : (b : ℕ) → bit_xor 0 b ≡ b
zero-bit_xor b = bit_xor-bitwise 0 b

pub bit_or-zero : (a : ℕ) → bit_or a 0 ≡ a
bit_or-zero a =
    right_zero bit_or (λ y. y) max (λ a b. bit_or-bitwise a b) (λ b. omega arith)
      (λ x h. omega arith) a a (omega arith)

pub differ_lem : (x y : ℕ) → x < 2 → y < 2 → differ x y ≡ (x + y) % 2
differ_lem zero y p q = omega arith
differ_lem (suc zero) zero p q = refl
differ_lem (suc zero) (suc zero) p q = refl
differ_lem (suc zero) (suc (suc y)) p q = absurd (omega arith)
differ_lem (suc (suc x)) y p q = absurd (omega arith)

pub bit_xor-zero : (a : ℕ) → bit_xor a 0 ≡ a
bit_xor-zero a =
    right_zero bit_xor (λ y. y) differ (λ a b. bit_xor-bitwise a b) (λ b. omega arith)
      (λ x h. omega (arith, differ_lem x 0)) a a (omega arith)

no_digits : (bound a : ℕ) → a ≤ bound → bit_and a 0 ≡ 0
no_digits zero zero h = refl
no_digits zero (suc a) h = elim h [ ]
no_digits (suc bound) a h = omega (arith, bit_and-halves a 0, no_digits bound (a / 2) (omega arith))

pub bit_and-zero : (a : ℕ) → bit_and a 0 ≡ 0
bit_and-zero a = no_digits a a (omega arith)

double_product : (q k : ℕ) → q * 2 ^ suc k ≡ 2 * (q * 2 ^ k)
double_product q k = omega (arith, ap (λ (t : ℕ). q * t) (pow-suc 2 k))

-- A field below bit `k`, or-ed into a word that has no bit below `k`, is added.
or_below : (k q r : ℕ) → r < 2 ^ k → bit_or (q * 2 ^ k) r ≡ q * 2 ^ k + r
or_below zero q r h = ground (arith, bit_or-zero q)
or_below (suc k) q r h =
    ground (
      arith,
      double_product q k,
      pow-suc 2 k,
      bit_or-halves (q * 2 ^ suc k) r,
      or_below k q (r / 2),
    )

pub bit_or_add : (k a r : ℕ) → a % 2 ^ k ≡ 0 → r < 2 ^ k → bit_or a r ≡ a + r
bit_or_add k a r low fits = ground (arith, or_below k (a / 2 ^ k) r, one-le-pow k 2)

and_below : (k q r : ℕ) → r < 2 ^ k → bit_and (q * 2 ^ k + r) (2 ^ k - 1) ≡ r
and_below zero q r h = rw bit_and-zero (omega arith)
and_below (suc k) q r h = ground (
  arith,
  double_product q k,
  pow-suc 2 k,
  one-le-pow k 2,
  bit_and-halves (q * 2 ^ suc k + r) (2 ^ suc k - 1),
  and_below k q (r / 2),
)

-- A mask of `k` ones is the remainder by 2 ^ k.
pub bit_and_mask : (k a : ℕ) → bit_and a (2 ^ k - 1) ≡ a % 2 ^ k
bit_and_mask k a = ground (arith, one-le-pow k 2, and_below k (a / 2 ^ k) (a % 2 ^ k))

pub bit_or_one : (a : ℕ) → bit_or a 1 ≡ a / 2 * 2 + 1
bit_or_one a = omega (arith, bit_or-halves a 1, bit_or-zero (a / 2))

halve_shift : (k a : ℕ) → a / 2 / 2 ^ k ≡ a / 2 ^ suc k
halve_shift k a = rw (pow-suc 2 k, mul_comm (2 ^ k) 2) (div-div-eq-div-mul a 2 (2 ^ k))

-- The test of one bit.
pub bit_and_bit : (k a : ℕ) → bit_and a (2 ^ k) ≡ a / 2 ^ k % 2 * 2 ^ k
bit_and_bit zero a = omega (arith, bit_and-halves a 1, bit_and-zero (a / 2))
bit_and_bit (suc k) a =
    let ih = rw (halve_shift k a) at (bit_and_bit k (a / 2)) in
    let low : bit_and a (2 ^ suc k) ≡ bit_and (a / 2) (2 ^ k) * 2 =
      ground (arith, pow-suc 2 k, bit_and-halves a (2 ^ suc k)) in
    omega (arith, double_product (a / 2 ^ suc k % 2) k)

commutes : (bound a b : ℕ) → a ≤ bound → bit_or a b ≡ bit_or b a
commutes bound zero b h = omega (arith, zero-bit_or b, bit_or-zero b)
commutes zero (suc a) b h = elim h [ ]
commutes (suc bound) (suc a) b h = omega (
  arith,
  bit_or-halves (suc a) b,
  bit_or-halves b (suc a),
  commutes bound (suc a / 2) (b / 2) (omega arith),
)

pub bit_or_comm : (a b : ℕ) → bit_or a b ≡ bit_or b a
bit_or_comm a b = commutes a a b (omega arith)

-- `^` with one bit adds it where it is absent and takes it away where it is there.
pub bit_xor_bit : (k a : ℕ) → bit_xor a (2 ^ k) + a / 2 ^ k % 2 * 2 ^ k * 2 ≡ a + 2 ^ k
bit_xor_bit zero a = omega (arith, bit_xor-halves a 1, differ_lem (a % 2) 1, bit_xor-zero (a / 2))
bit_xor_bit (suc k) a =
    let ih = rw (halve_shift k a) at (bit_xor_bit k (a / 2)) in
    let low : bit_xor a (2 ^ suc k) ≡ bit_xor (a / 2) (2 ^ k) * 2 + a % 2 =
      ground (arith, pow-suc 2 k, bit_xor-halves a (2 ^ suc k), differ_lem (a % 2) 0) in
    omega (arith, pow-suc 2 k, double_product (a / 2 ^ suc k % 2) k)

-- A mask with `k` zeros below it sees what stands above them.
pub bit_and_above : (k a b : ℕ) → bit_and a (b * 2 ^ k) ≡ bit_and (a / 2 ^ k) b * 2 ^ k
bit_and_above zero a b =
    let same : a / 2 ^ 0 ≡ a = omega arith in
    let mask : b * 2 ^ 0 ≡ b = omega arith in rw (same, mask) (omega arith)
bit_and_above (suc k) a b =
    let ih = rw (halve_shift k a) at (bit_and_above k (a / 2) b) in
    let low : bit_and a (b * 2 ^ suc k) ≡ bit_and (a / 2) (b * 2 ^ k) * 2 =
      ground (arith, double_product b k, bit_and-halves a (b * 2 ^ suc k)) in
    omega (arith, double_product (bit_and (a / 2 ^ suc k) b) k)
