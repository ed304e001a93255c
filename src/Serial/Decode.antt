-- ===== src/Serial/Decode.antt =====
-- `decodeData` of batterySystem/s800serialDAO.c: a 16-bit word of a sensor, with a sign bit, four bits
-- of exponent and eleven of mantissa, as a float of whole thousandths.
pub mod Order
use batterysystem.Common.{ℕ, ◌+◌, ◌*◌, ◌/◌, ◌%◌, ◌^◌, ◌&&◌, ltb, leb, ◌==◌, if◌then◌else◌}
use batterysystem.Common.Int.{pos, negsuc}
use batterysystem.Float.{Float, millis}

-- The int of the cast for exponent 0: `pow(2.0, exp - 17) * man * 1000.0 + 0.5`, cut off. Every
-- value of the computation is a multiple of 2 ^ -17 below 2 ^ 31, so the doubles are exact.
abbrev pub subnormal_millis : ℕ → ℕ
subnormal_millis man = (man * 1000 + 2 ^ 16) / 2 ^ 17

-- The same for `pow(2.0, exp - 7) * (1.0 + man * pow(2.0, -11)) * 1000.0 + 0.5`, over 2 ^ 18.
abbrev pub normal_millis : ℕ → ℕ → ℕ
normal_millis exp man = ((2048 + man) * 1000 * 2 ^ exp + 2 ^ 17) / 2 ^ 18

-- `return -2`
abbrev pub invalid : (F : Float) → F.T
invalid F = F.of_int (negsuc 1)

unfoldable pub decode_data : (F : Float) → ℕ → ℕ → F.T
decode_data F high low =
    let res0 = F.of_int (pos 0) in
    let exp = high / 2 ^ 3 in
    let man = 256 * (high % 8) + low in
    let res1 = if exp == 15 then invalid F else res0 in
    let res2 = if exp == 0 then millis F (subnormal_millis man) else res1 in
    let res3 = if leb 1 exp && leb exp 14 then millis F (normal_millis exp man) else res2 in
    if ltb 0 (high / 2 ^ 7) then invalid F else res3
