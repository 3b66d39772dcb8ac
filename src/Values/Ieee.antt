-- ===== src/Values/Ieee.antt =====
-- IEEE 754 binary64 values by their bit patterns, and Go's four order operators on them.
use false_flag_demo.Base.{
  ℕ, ◌+◌, ◌*◌, ◌/◌, ◌%◌, ◌^◌, Bool, false, ◌&&◌, not, ltb, ◌==◌, if◌then◌else◌,
}

pub record Float64 : Type 0 where
  pub bits : ℕ

abbrev pub magnitude : Float64 → ℕ
magnitude f = f.bits % 2 ^ 63

abbrev pub is_negative : Float64 → Bool
is_negative f = f.bits / 2 ^ 63 % 2 == 1

-- The exponent is all ones and the fraction is not zero.
abbrev pub is_nan : Float64 → Bool
is_nan f = ltb (2047 * 2 ^ 52) (magnitude f)

-- The order of the bit patterns of two values that are not NaN; the two zeros are equal.
abbrev below : Float64 → Float64 → Bool
below a b =
    if is_negative a
    then (if is_negative b
        then ltb (magnitude b) (magnitude a)
        else ltb 0 (magnitude a + magnitude b))
    else if is_negative b
    then false
    else ltb (magnitude a) (magnitude b)

unfoldable pub lt : Float64 → Float64 → Bool
lt a b = not (is_nan a) && not (is_nan b) && below a b

unfoldable pub gt : Float64 → Float64 → Bool
unfolding lt
gt a b = lt b a

unfoldable pub le : Float64 → Float64 → Bool
le a b = not (is_nan a) && not (is_nan b) && not (below b a)

unfoldable pub ge : Float64 → Float64 → Bool
unfolding le
ge a b = le b a
