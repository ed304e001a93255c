-- ===== src/Tests/Open.antt =====
-- `openSerial` with the arguments that the threads pass, and others.
use batterysystem.Common.{◌≡◌, ◌≢◌, inr, refl, none, arith}
use batterysystem.Common.Int.{negsuc}
use batterysystem.Serial.Open.{
  no_parity, even, Speed, b0, b300, b600, b1200, b2400, b4800, b9600, b19200, b38400, b57600,
  b115200, configure, open_serial,
}
use batterysystem.Serial.Open.Line.{data_bits, stop_bits, parity, bauds, configure-line}

-- open fails
failed_open : (open_serial (negsuc 0) 13 no_parity 8 1).1 ≡ none
unfolding open_serial
failed_open = refl

configure-line_example :
    let t = configure 13 even 7 2 in (data_bits t ≡ 7) × (stop_bits t ≡ 2) × (parity t ≡ even)
configure-line_example = configure-line 13 7 2 even (omega arith) (omega arith) (inr refl)

not_zero : b4800 ≢ b0
not_zero e = cc

-- B9600 is 13.
thirteen : (s : Speed) → 13 ≢ bauds s
thirteen b0 = omega arith
thirteen b300 = omega arith
thirteen b600 = omega arith
thirteen b1200 = omega arith
thirteen b2400 = omega arith
thirteen b4800 = omega arith
thirteen b9600 = omega arith
thirteen b19200 = omega arith
thirteen b38400 = omega arith
thirteen b57600 = omega arith
thirteen b115200 = omega arith
