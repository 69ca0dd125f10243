-- ===== src/Common/Bytes.antt =====
-- ASCII text as its bytes, and the decimal prints of Go's `fmt` over an `int64`.
use Prim.Native.Nat.{ℕ, zero, suc, ◌+◌, ◌*◌, ◌/◌, ◌%◌, ◌-◌, ◌^◌, ◌<◌, ◌≤◌}
use mathlib.Core.Path.{◌≡◌, refl, ap, ◌∙◌}
use mathlib.Core.Bool.{true, false, ◌&&◌}
use mathlib.Core.List.{List, [], ◌∷◌, ◌++◌}
use mathlib.Core.Logic.{inl, inr}
use native.Mathlib.Nat.{pow-suc}
use native.Mathlib.Omega.{arith}
use rocket_maintenance.Common.Tests.{◌==◌, ==→eq, Bool-cases, ltb, leb, if◌then◌else◌}
use rocket_maintenance.Common.Int64.{Int64, sign_bit, is_negative, neg64}

abbrev pub Bytes : Type 0
Bytes = List ℕ

-- The decimal digits of `n` before `rest`; the fuel bounds the number of digits.
unfoldable pub digits : ℕ → ℕ → Bytes → Bytes
digits zero n rest = rest
digits (suc f) n rest =
    let more = digits f (n / 10) ((b'0' + n % 10) ∷ rest) in
    if n / 10 == 0 then (b'0' + n % 10) ∷ rest else more

-- A number below 2 ^ 64 has at most 20 digits.
unfoldable pub show_nat : ℕ → Bytes
show_nat n = digits 20 n []

-- `%d`
unfoldable pub show_int : Int64 → Bytes
show_int w = if is_negative w then b'-' ∷ show_nat (neg64 w) else show_nat w

-- `%02d`: the sign counts for the width, so only a single digit is padded
unfoldable pub show_int2 : Int64 → Bytes
show_int2 w = if ltb w 10 then b'0' ∷ show_int w else show_int w

-- The number that a text of digits spells behind `n`, and what follows the digits.
unfoldable pub read_digits : ℕ → Bytes → ℕ × Bytes
read_digits n [] = (n, [])
read_digits n (c ∷ s) = elim (leb b'0' c && leb c b'9') [
  | true ↦ read_digits (n * 10 + (c - b'0')) s
  | false ↦ (n, c ∷ s)
]

pub read_digits-cons :
    (m d : ℕ) (rest : Bytes)
    → d < 10
    → read_digits m ((b'0' + d) ∷ rest) ≡ read_digits (m * 10 + d) rest
unfolding read_digits
read_digits-cons m d rest h =
    let digit : (leb b'0' (b'0' + d) && leb (b'0' + d) b'9') ≡ true = ground arith in
    let back : b'0' + d - b'0' ≡ d = omega arith in rw (digit, read_digits, back) refl

-- Digits are read back, whatever follows them.
pub read_digits-digits :
    (f n : ℕ) (rest : Bytes) → n < 10 ^ f → read_digits 0 (digits f n rest) ≡ read_digits n rest
unfolding digits
read_digits-digits zero n rest h = let it : 0 ≡ n = omega arith in ap (λ k. read_digits k rest) it
read_digits-digits (suc f) n rest h = elim (Bool-cases (n / 10 == 0)) [
  | inl last ↦
      let it : 0 * 10 + n % 10 ≡ n = omega (arith, ==→eq (n / 10) 0 last) in
      rw last (read_digits-cons 0 (n % 10) rest (omega arith) ∙ ap (λ k. read_digits k rest) it)
  | inr more ↦
      let it : n / 10 * 10 + n % 10 ≡ n = omega arith in
      let small : n / 10 < 10 ^ f = omega (arith, pow-suc 10 f) in
      rw more (
        read_digits-digits f (n / 10) ((b'0' + n % 10) ∷ rest) small
        ∙ read_digits-cons (n / 10) (n % 10) rest (omega arith)
        ∙ ap (λ k. read_digits k rest) it)
]

pub digits-append : (f n : ℕ) (s t : Bytes) → digits f n s ++ t ≡ digits f n (s ++ t)
unfolding digits
digits-append zero n s t = refl
digits-append (suc f) n s t = elim (Bool-cases (n / 10 == 0)) [
  | inl last ↦ rw last refl
  | inr more ↦ rw more (digits-append f (n / 10) ((b'0' + n % 10) ∷ s) t)
]

digits-one : (f n : ℕ) (rest : Bytes) → n < 10 → digits (suc f) n rest ≡ (b'0' + n % 10) ∷ rest
unfolding digits
digits-one f n rest h = let small : (n / 10 == 0) ≡ true = ground arith in rw (small, digits) refl

digits-two :
    (f n : ℕ) → 9 < n → n < 100 → digits (suc (suc f)) n [] ≡ (b'0' + n / 10) ∷ (b'0' + n % 10) ∷ []
unfolding digits
digits-two f n l h =
    let large : (n / 10 == 0) ≡ false = ground arith in
    let one : n / 10 % 10 ≡ n / 10 = omega arith in
    rw (large, digits)
      (digits-one f (n / 10) ((b'0' + n % 10) ∷ []) (omega arith)
        ∙ ap (λ (k : ℕ). (b'0' + k) ∷ (b'0' + n % 10) ∷ []) one)

-- Below 2 ^ 63 no sign is printed.
pub show_int-pos : (w : Int64) → w < sign_bit → show_int w ≡ show_nat w
unfolding show_int
show_int-pos w h = let it : is_negative w ≡ false = ground arith in rw it refl

-- Two digits, from 00 to 99.
pub show_int2-eq : (r : ℕ) → r < 100 → show_int2 r ≡ (b'0' + r / 10) ∷ (b'0' + r % 10) ∷ []
unfolding show_int2 show_nat
show_int2-eq r h = elim (Bool-cases (ltb r 10)) [
  | inl one ↦
      let none_above : 0 ≡ r / 10 = ground arith in
      rw (one, show_int-pos r (omega arith), digits-one 19 r [] (ground arith), ← none_above) refl
  | inr two ↦ rw (two, show_int-pos r (omega arith)) (digits-two 18 r (ground arith) h)
]

-- A number is printed from a digit on.
pub digits-head :
    (f n : ℕ) (rest : Bytes)
    → (c : ℕ) × (s : Bytes) × (digits (suc f) n rest ≡ c ∷ s) × (b'0' ≤ c) × (c ≤ b'9')
unfolding digits
digits-head zero n rest = elim (Bool-cases (n / 10 == 0)) [
  | inl last ↦ (b'0' + n % 10, rest, rw last refl, omega arith, omega arith)
  | inr more ↦ (b'0' + n % 10, rest, rw more refl, omega arith, omega arith)
]
digits-head (suc f) n rest = elim (Bool-cases (n / 10 == 0)) [
  | inl last ↦ (b'0' + n % 10, rest, rw last refl, omega arith, omega arith)
  | inr more ↦
      let (c, s, e, h, k) = digits-head f (n / 10) ((b'0' + n % 10) ∷ rest) in
      (c, s, rw more e, h, k)
]
