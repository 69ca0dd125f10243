-- ===== src/Order/Converter/Money.antt =====
-- The text of an amount: read back, it is the amount.
use rocket_maintenance.Common.{
  ℕ, ◌+◌, ◌-◌, ◌*◌, ◌/◌, ◌%◌, ◌<◌, ◌≡◌, ◌≢◌, refl, sym, ap, ◌∙◌, ◌≤◌, Bool, true, false, Option,
  none, some, [], ◌∷◌, ◌++◌, inl, inr, Bool-cases, if◌then◌else◌, ◌==◌, leb, ◌&&◌, arith,
}
use rocket_maintenance.Common.Int64.{
  Int64, IsInt64, modulus, sign_bit, is_negative, neg64, quot64, rem64,
}
use rocket_maintenance.Common.Bytes.{
  Bytes, digits, digits-append, digits-head, show_int-pos, show_int2-eq, show_nat, show_int,
  show_int2, read_digits, read_digits-digits,
}
use rocket_maintenance.Order.Converter.{format_cents}

abbrev pub is_digit : ℕ → Bool
is_digit c = leb b'0' c && leb c b'9'

-- What a reader takes for an amount: digits, at least one, a point and exactly two digits, with
-- nothing behind them; a minus before it is a sign.
abbrev pub cents_of : ℕ × Bytes → Option ℕ
cents_of (units, point ∷ d ∷ u ∷ []) =
    if point == b'.' && (is_digit d && is_digit u)
    then some (units * 100 + ((d - b'0') * 10 + (u - b'0')))
    else none
cents_of (units, _) = none

abbrev pub unsigned_of : Bytes → Option ℕ
unsigned_of [] = none
unsigned_of (c ∷ s) = if is_digit c then cents_of (read_digits 0 (c ∷ s)) else none

abbrev pub read_money : Bytes → Bool × Option ℕ
read_money [] = (false, none)
read_money (c ∷ s) = if c == b'-' then (true, unsigned_of s) else (false, unsigned_of (c ∷ s))

abbrev pub magnitude : Int64 → ℕ
magnitude c = if is_negative c then modulus - c else c

-- The two digits behind the point, read back.
cents_of-two :
    (units r : ℕ) → r < 100 → cents_of (units, b'.' ∷ show_int2 r) ≡ some (units * 100 + r)
cents_of-two units r h =
    let tens : is_digit (b'0' + r / 10) ≡ true = ground arith in
    let ones : is_digit (b'0' + r % 10) ≡ true = ground arith in
    rw (show_int2-eq r h, tens, ones) (ap some (omega arith))

-- The print of an amount below 2 ^ 63.
unsigned_digits : ℕ → Bytes
unsigned_digits m = show_int (quot64 m 100) ++ (b'.' ∷ show_int2 (rem64 m 100))

-- It has no sign, and is read back.
read-unsigned : (m : ℕ) → m < sign_bit → cents_of (read_digits 0 (unsigned_digits m)) ≡ some m
unfolding unsigned_digits show_nat
read-unsigned m h =
    let plus : is_negative m ≡ false = ground arith in
    let tail = b'.' ∷ show_int2 (m % 100) in
    let units : read_digits 0 (digits 20 (m / 100) [] ++ tail) ≡ (m / 100, tail) =
      ap (read_digits 0) (digits-append 20 (m / 100) [] tail)
      ∙ read_digits-digits 20 (m / 100) tail (omega arith)
      ∙ unfold read_digits in refl in
    rw
      (
        plus,
        show_int-pos (m / 100) (omega arith),
        units,
        cents_of-two (m / 100) (m % 100) (omega arith),
      )
      (ap some (omega arith))

unsigned_digits-head :
    (m : ℕ)
    → m < sign_bit
    → (c : ℕ) × (s : Bytes) × (unsigned_digits m ≡ c ∷ s) × (b'0' ≤ c) × (c ≤ b'9')
unfolding unsigned_digits show_nat
unsigned_digits-head m h =
    let plus : is_negative m ≡ false = ground arith in
    let (c, s, e, d, n) = digits-head 19 (m / 100) [] in
    (
      c,
      s ++ (b'.' ∷ show_int2 (m % 100)),
      rw (plus, show_int-pos (m / 100) (omega arith), e) refl,
      d,
      n,
    )

unsigned_of-unsigned_digits : (m : ℕ) → m < sign_bit → unsigned_of (unsigned_digits m) ≡ some m
unsigned_of-unsigned_digits m h =
    let (d, s, e, low, high) = unsigned_digits-head m h in
    let digit : is_digit d ≡ true = ground arith in
    ap unsigned_of e ∙ rw digit (ap (λ t. cents_of (read_digits 0 t)) (sym e) ∙ read-unsigned m h)

-- Every amount but the least int64 is printed as digits, a point and exactly two digits, behind a
-- minus if it is negative, and this text reads back as its sign and its magnitude.
pub read_money-format_cents :
    (c : Int64)
    → IsInt64 c
    → c ≢ sign_bit
    → read_money (format_cents c) ≡ (is_negative c, some (magnitude c))
unfolding format_cents unsigned_digits
read_money-format_cents c h n = elim (Bool-cases (is_negative c)) [
  | inl minus ↦
      let abs : neg64 c ≡ modulus - c = ground arith in
      let small : modulus - c < sign_bit = ground arith in
      rw (minus, abs)
        (ap (λ (r : Option ℕ). (true, r)) (unsigned_of-unsigned_digits (modulus - c) small))
  | inr plus ↦
      let small : c < sign_bit = ground arith in
      let (d, s, e, low, high) = unsigned_digits-head c small in
      let no_sign : (d == b'-') ≡ false = ground arith in
      rw (plus, e, no_sign)
        (ap (λ (r : Option ℕ). (false, r))
          (ap unsigned_of (sym e) ∙ unsigned_of-unsigned_digits c small))
]
