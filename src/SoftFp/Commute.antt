-- ===== src/SoftFp/Commute.antt =====
-- Addition and multiplication of runtime/device/soft_fp.c do not depend on the operands' order, and
-- what subtraction is in terms of addition.
use booth.Base.{ℕ, ◌≡◌, arith, ℤ, ◌+ℤ◌, ◌-ℤ◌}
use booth.SoftFp.Format.{Unpacked, sfp_unpack}
use booth.SoftFp.Arith.{add_aligned, add_finite, add_cases, sfp_add_signed, addsf3, mulsf3}

+ℤ_comm : (a b : ℤ) → a +ℤ b ≡ b +ℤ a
unfolding ◌+ℤ◌
+ℤ_comm a b = ground arith

-- Multiplication gives the same bits whichever operand comes first, for every two patterns.
pub mulsf3_comm : (a b : ℕ) → mulsf3 a b ≡ mulsf3 b a
unfolding mulsf3
mulsf3_comm a b = ground (arith, +ℤ_comm (sfp_unpack a).exp (sfp_unpack b).exp)

-- With equal exponents nothing is shifted, and the sum and the difference are symmetric.
add_aligned_comm : (x y : Unpacked) → x.exp ≡ y.exp → add_aligned x y ≡ add_aligned y x
unfolding add_aligned ◌-ℤ◌
add_aligned_comm x y h = ground arith

add_finite_comm : (x y : Unpacked) → add_finite x y ≡ add_finite y x
unfolding add_finite
add_finite_comm x y = ground (arith, add_aligned_comm x y)

add_cases_comm : (a b : ℕ) (x y : Unpacked) → add_cases a b x y ≡ add_cases b a y x
unfolding add_cases
add_cases_comm a b x y = ground (arith, add_finite_comm x y)

-- Addition gives the same bits whichever operand comes first, for every two patterns.
pub addsf3_comm : (a b : ℕ) → addsf3 a b ≡ addsf3 b a
unfolding addsf3 sfp_add_signed
addsf3_comm a b = add_cases_comm a b (sfp_unpack a) (sfp_unpack b)
