-- ===== src/Serial/Checksum.antt =====
-- `genChecksum` of batterySystem/s800serialDAO.c: the exclusive or of the bytes of a frame.
use Prim.Native.Nat.{bit_xor}
use batterysystem.Common.{
  ℕ, ◌%◌, ◌<◌, ◌≡◌, ◌≢◌, refl, ap, List, [], ◌∷◌, ◌++◌, arith, length, take, All, ◌∙◌, sym,
  All-append,
}
use batterysystem.Common.Xor.{bit_xor-lt, bit_xor_cancel_left, bit_xor_cancel_right}

-- `for (i = 0; i < len; i++) s ^= pstr[i]`
unfoldable pub xor_from : ℕ → List ℕ → ℕ
xor_from s [] = s
xor_from s (b ∷ bs) = xor_from (bit_xor s b) bs

-- The callers pass a `len` within the array.
unfoldable pub gen_checksum : List ℕ → ℕ → ℕ
unfolding xor_from
gen_checksum pstr len = xor_from 0 (take len pstr) % 256

abbrev pub IsByte : ℕ → Type 0
IsByte b = b < 256

take-length : (xs : List ℕ) → take (length xs) xs ≡ xs
take-length [] = refl
take-length (x ∷ xs) = ap (◌∷◌ x) (take-length xs)

xor_from-lt : (s : ℕ) (bs : List ℕ) → s < 256 → All IsByte bs → xor_from s bs < 256
unfolding xor_from
xor_from-lt s [] p q = p
xor_from-lt s (b ∷ bs) p q = xor_from-lt (bit_xor s b) bs (bit_xor-lt 8 s b p q.0) q.1

pub gen_checksum_lem : (bs : List ℕ) → All IsByte bs → gen_checksum bs (length bs) ≡ xor_from 0 bs
unfolding gen_checksum
gen_checksum_lem bs q =
    let small = xor_from-lt 0 bs (omega arith) q in
    (ap (λ l. xor_from 0 l % 256) (take-length bs)) ∙ omega arith

xor_from_injective :
    (bs : List ℕ) (s t : ℕ)
    → s < 256
    → t < 256
    → All IsByte bs
    → xor_from s bs ≡ xor_from t bs
    → s ≡ t
unfolding xor_from
xor_from_injective [] s t p q r e = e
xor_from_injective (b ∷ bs) s t p q r e =
    let same =
      xor_from_injective bs (bit_xor s b) (bit_xor t b) (bit_xor-lt 8 s b p r.0)
        (bit_xor-lt 8 t b q r.0) r.1 e in
    bit_xor_cancel_right 8 s t b p q r.0 same

xor_from_differ :
    (before after : List ℕ) (s x y : ℕ)
    → s < 256
    → All IsByte before
    → x < 256
    → y < 256
    → All IsByte after
    → xor_from s (before ++ x ∷ after) ≡ xor_from s (before ++ y ∷ after)
    → x ≡ y
unfolding xor_from
xor_from_differ [] after s x y p _ q r u e =
    bit_xor_cancel_left 8 s x y q r
      (xor_from_injective after _ _ (bit_xor-lt 8 s x p q) (bit_xor-lt 8 s y p r) u e)
xor_from_differ (b ∷ before) after s x y p v q r u e =
    xor_from_differ before after (bit_xor s b) x y (bit_xor-lt 8 s b p v.0) v.1 q r u e

-- Two frames of bytes that differ in one byte have different checksums.
pub checksum_detects :
    (before after : List ℕ) (x y : ℕ)
    → All IsByte before
    → All IsByte after
    → x < 256
    → y < 256
    → x ≢ y
    → gen_checksum (before ++ x ∷ after) (length (before ++ x ∷ after))
      ≢ gen_checksum (before ++ y ∷ after) (length (before ++ y ∷ after))
checksum_detects before after x y b a p q ne e = ne (
    xor_from_differ before after 0 x y (omega arith) b p q a (
      sym (gen_checksum_lem (before ++ x ∷ after) (All-append IsByte before (x ∷ after) b (p, a)))
      ∙ e
      ∙ gen_checksum_lem (before ++ y ∷ after) (All-append IsByte before (y ∷ after) b (q, a))))
