-- ===== src/Serial/Decode/Order.antt =====
-- What `decodeData` makes of the words: which are valid, and that it keeps their order.
use batterysystem.Common.{
  ℕ, zero, suc, ◌+◌, ◌*◌, ◌/◌, ◌%◌, ◌^◌, ◌≤◌, ◌<◌, ◌≡◌, refl, ◌&&◌, arith, ltb, leb, if◌then◌else◌,
  ap, false, Bool-cases, inl, inr, not, ◌≢◌,
}
use batterysystem.Common.Int.{pos}
use batterysystem.Float.{Float, IsOrdered, millis}
use batterysystem.Serial.Decode.{subnormal_millis, normal_millis, invalid, decode_data}
use native.Mathlib.Nat.{pow-suc, mul-le-mul, le_refl, pow-le-pow_right}

-- A word's value in units of 2 ^ -18: the exponent is the bits from 11 on. Words of the lowest exponent
-- have no leading one.
abbrev pub units_of : ℕ → ℕ → ℕ
units_of zero man = man * 2
units_of (suc e) man = (2048 + man) * 2 ^ suc e

abbrev pub units : ℕ → ℕ
units w = units_of (w / 2048) (w % 2048)

-- The value to the nearest thousandth.
abbrev pub word_millis : ℕ → ℕ
word_millis w = (units w * 1000 + 2 ^ 17) / 2 ^ 18

-- The words below this one have no sign bit and an exponent other than 15.
abbrev pub valid_words : ℕ
valid_words = 15 * 2048

pow_mono : (i j : ℕ) → i ≤ j → 2 ^ i ≤ 2 ^ j
pow_mono i j h = pow-le-pow_right {n = 2} (omega arith) h

units_of_mono :
    (e e' m m' : ℕ)
    → m < 2048
    → m' < 2048
    → e * 2048 + m ≤ e' * 2048 + m'
    → units_of e m ≤ units_of e' m'
units_of_mono zero zero m m' p q h = omega arith
units_of_mono zero (suc e') m m' p q h =
    let big : 2 ^ 1 ≤ 2 ^ suc e' = pow_mono 1 (suc e') (omega arith) in
    let more : 2048 * 2 ^ 1 ≤ (2048 + m') * 2 ^ suc e' =
      mul-le-mul {n₁ = 2048} {n₂ = 2048 + m'} (omega arith) big in
    omega arith
units_of_mono (suc e) zero m m' p q h = absurd (omega arith)
units_of_mono (suc e) (suc e') m m' p q h = elim (Bool-cases (leb e' e)) [
  | inl le ↦
      let same : e ≡ e' = ground arith in
      rw same (mul-le-mul {n₁ = 2048 + m} {n₂ = 2048 + m'} (ground arith) (le_refl (2 ^ suc e')))
  | inr gt ↦
      let up : 2 ^ suc (suc e) ≤ 2 ^ suc e' = pow_mono (suc (suc e)) (suc e') (ground arith) in
      let low : (2048 + m) * 2 ^ suc e ≤ 4096 * 2 ^ suc e =
        mul-le-mul {n₁ = 2048 + m} {n₂ = 4096} (omega arith) (le_refl (2 ^ suc e)) in
      let high : 2048 * 2 ^ suc (suc e) ≤ (2048 + m') * 2 ^ suc e' =
        mul-le-mul {n₁ = 2048} {n₂ = 2048 + m'} (omega arith) up in
      omega (arith, pow-suc 2 (suc e))
]

units_mono : (v w : ℕ) → v ≤ w → units v ≤ units w
units_mono v w h =
    units_of_mono (v / 2048) (w / 2048) (v % 2048) (w % 2048) (omega arith) (omega arith)
      (omega arith)

rounded : (m n : ℕ) → m ≤ n → (m * 1000 + 2 ^ 17) / 2 ^ 18 ≤ (n * 1000 + 2 ^ 17) / 2 ^ 18
rounded m n h = omega arith

-- Larger words do not have smaller values.
word_millis_mono : (v w : ℕ) → v ≤ w → word_millis v ≤ word_millis w
word_millis_mono v w h = rounded (units v) (units w) (units_mono v w h)

word_millis-le : (w : ℕ) → w < valid_words → word_millis w ≤ 255938
word_millis-le w h = word_millis_mono w 30719 (omega arith)

-- The two branches of the code round the same value.
normal_millis-eq :
    (exp man : ℕ) → exp ≢ 0 → normal_millis exp man ≡ (units_of exp man * 1000 + 2 ^ 17) / 2 ^ 18
normal_millis-eq zero man h = absurd (h refl)
normal_millis-eq (suc e) man h = ap (λ (n : ℕ). (n + 2 ^ 17) / 2 ^ 18) (omega arith)

subnormal_millis-eq :
    (exp man : ℕ) → exp ≡ 0 → subnormal_millis man ≡ (units_of exp man * 1000 + 2 ^ 17) / 2 ^ 18
subnormal_millis-eq zero man h = omega arith
subnormal_millis-eq (suc e) man h = absurd (omega arith)

-- For the two bytes of a word, `decodeData` gives -2 if the sign bit is set or the exponent is 15, and
-- otherwise the float of the word's value to the nearest thousandth.
pub decode_data_lem :
    (F : Float) (high low : ℕ)
    → high < 256
    → low < 256
    → let w = 256 * high + low in
      decode_data F high low ≡ (if ltb w valid_words then millis F (word_millis w) else invalid F)
unfolding decode_data
decode_data_lem F high low p q =
    let exp : (256 * high + low) / 2048 ≡ high / 8 = omega arith in
    let man : (256 * high + low) % 2048 ≡ 256 * (high % 8) + low = omega arith in
    let n = 256 * (high % 8) + low in
    let zero_case = subnormal_millis-eq (high / 8) n in
    let other_case = normal_millis-eq (high / 8) n in
    rw (exp, man) (ground (arith, zero_case, other_case))

module _ (F : Float) (o : IsOrdered F) (high low : ℕ) (p : high < 256) (q : low < 256) where
  -- The result compares equal to -2 exactly for the words from 15 * 2048 on: the error code is never
  -- the value of a valid word.
  pub decode_data-eq-invalid :
      F.eq (decode_data F high low) (invalid F) ≡ not (ltb (256 * high + low) valid_words)
  decode_data-eq-invalid =
      let w = 256 * high + low in
      ground (
        arith,
        decode_data_lem F high low p q,
        word_millis-le w,
        o.millis_ne_negsuc 1 (word_millis w),
        o.eq_negsuc 1,
      )

  -- The result is above zero exactly for the valid words that are half a thousandth or more.
  pub decode_data_pos :
      F.lt (F.of_int (pos 0)) (decode_data F high low)
      ≡ (ltb (256 * high + low) valid_words && leb (2 ^ 17) (units (256 * high + low) * 1000))
  decode_data_pos =
      let w = 256 * high + low in
      ground (
        arith,
        decode_data_lem F high low p q,
        word_millis-le w,
        o.zero_lt_millis (word_millis w),
        o.zero_lt_negsuc 1,
      )

-- Of two valid words, the larger one does not decode to the lower float.
pub decode_data_mono :
    (F : Float)
    → IsOrdered F
    → (high low high' low' : ℕ) → high < 256
    → low < 256
    → high' < 256
    → low' < 256
    → 256 * high + low ≤ 256 * high' + low'
    → 256 * high' + low' < valid_words
    → F.lt (decode_data F high' low') (decode_data F high low) ≡ false
decode_data_mono F o high low high' low' p q p' q' le valid =
    let v = 256 * high + low in
    let w = 256 * high' + low' in
    ground (
      arith,
      decode_data_lem F high low p q,
      decode_data_lem F high' low' p' q',
      word_millis_mono v w le,
      word_millis-le v,
      word_millis-le w,
      o.lt_millis (word_millis w) (word_millis v),
    )
