-- ===== src/Base/Decimal/Laws.antt =====
-- The decimal print of a non-negative integer is read back, and holds digits only.
use Prim.Native.Nat.{ℕ, zero, suc, ◌+◌, ◌-◌, ◌*◌, ◌/◌, ◌%◌, ◌≤◌}
use mathlib.Core.Bool.{Bool, true, false}
use mathlib.Core.List.{[], ◌∷◌}
use mathlib.Core.Logic.{◌≢◌, inl, inr}
use mathlib.Core.Path.{◌≡◌, refl}
use native.Mathlib.Omega.{arith}
use natsx.Base.Logic.{◌==◌, Bool-cases}
use natsx.Base.Lists.{all, any}
use natsx.Base.Numbers.{ℤ, pos, negsuc}
use natsx.Base.Text.{Text}
use natsx.Base.Decimal.{
  max_uint64, max_int64, emit, format_nat, itoa, Number, parsed, failed, is_digit, scan, parse_uint,
  signed, atoi,
}

scan_last :
    (n : ℕ) (out : Text) → n ≤ max_uint64 → scan ((b'0' + n % 10) ∷ out) (n / 10) ≡ scan out n
unfolding scan
scan_last n out h = ground arith

scan-emit :
    (fuel n : ℕ) (out : Text) → n ≤ fuel → n ≤ max_uint64 → scan (emit fuel n out) 0 ≡ scan out n
unfolding emit
scan-emit zero n out h fits = let e : n ≡ 0 = omega arith in rw e
scan-emit (suc fuel) n out h fits =
    ground (arith, scan_last n out fits, scan-emit fuel (n / 10) ((b'0' + n % 10) ∷ out))

emit-ne-nil : (fuel n : ℕ) (out : Text) → out ≢ [] → emit fuel n out ≢ []
unfolding emit
emit-ne-nil zero n out h = h
emit-ne-nil (suc fuel) n out h = ground (arith, emit-ne-nil fuel (n / 10) ((b'0' + n % 10) ∷ out))

emit-digits :
    (fuel n : ℕ) (out : Text) → all is_digit out ≡ true → all is_digit (emit fuel n out) ≡ true
unfolding emit
emit-digits zero n out h = h
emit-digits (suc fuel) n out h = ground (arith, emit-digits fuel (n / 10) ((b'0' + n % 10) ∷ out))

-- A decimal print is not empty, and each code point of it is a digit.
pub format_nat-ne-nil : (n : ℕ) → format_nat n ≢ []
unfolding format_nat emit
format_nat-ne-nil zero = cc
format_nat-ne-nil (suc n) =
    ground
      (arith, emit-ne-nil (suc n) (suc n) [], emit-ne-nil n (suc n / 10) ((b'0' + suc n % 10) ∷ []))

pub format_nat-digits : (n : ℕ) → all is_digit (format_nat n) ≡ true
unfolding format_nat
format_nat-digits n = ground (arith, emit-digits n n [] refl)

scan-format_nat : (n : ℕ) → n ≤ max_uint64 → scan (format_nat n) 0 ≡ parsed n
unfolding format_nat scan
scan-format_nat n h = ground (arith, scan-emit n n [])

pub atoi_of_digits : (s : Text) → s ≢ [] → all is_digit s ≡ true → atoi s ≡ signed false (scan s 0)
unfolding atoi parse_uint
atoi_of_digits [] h d = absurd (h refl)
atoi_of_digits (c ∷ s) h d = ground arith

parse_uint_of_digits : (s : Text) → s ≢ [] → parse_uint s ≡ scan s 0
unfolding parse_uint
parse_uint_of_digits [] h = absurd (h refl)
parse_uint_of_digits (c ∷ s) h = refl

-- `Atoi` reads back what `Itoa` writes for a non-negative `int`.
pub atoi-itoa : (n : ℕ) → n ≤ max_int64 → atoi (itoa (pos n)) ≡ parsed (pos n)
unfolding atoi itoa
atoi-itoa n h =
    rw (atoi_of_digits (format_nat n) (format_nat-ne-nil n) (format_nat-digits n))
      (rw (scan-format_nat n (omega arith)) (ground arith))

round_numbers_lem :
    (atoi (itoa (negsuc 9)) ≡ parsed (negsuc 9))
    × (atoi (itoa (pos max_int64)) ≡ parsed (pos max_int64))
unfolding atoi itoa
round_numbers_lem = (refl, refl)

scan-digits : (s : Text) (n m : ℕ) → scan s n ≡ parsed m → all is_digit s ≡ true
unfolding scan
scan-digits [] n m h = refl
scan-digits (c ∷ s) n m h = ground (arith, scan-digits s (n * 10 + (c - b'0')) m)

signed_inversion :
    (neg : Bool) (r : Number ℕ) {z : ℤ} → signed neg r ≡ parsed z → (m : ℕ) × (r ≡ parsed m)
signed_inversion neg (parsed m) h = (m, refl)
signed_inversion false (failed e) h = cc
signed_inversion true (failed e) h = cc

parse_uint-digits : (s : Text) (m : ℕ) → parse_uint s ≡ parsed m → all is_digit s ≡ true
unfolding parse_uint
parse_uint-digits [] m h = refl
parse_uint-digits (c ∷ s) m h = scan-digits (c ∷ s) 0 m h

digits-any :
    (q : ℕ → Bool)
    → ((c : ℕ) → is_digit c ≡ true → q c ≡ false)
    → (s : Text) → all is_digit s ≡ true
    → any q s ≡ false
digits-any q h [] d = refl
digits-any q h (c ∷ s) d = ground (arith, h c, digits-any q h s)

-- A test that no digit and no sign passes finds nothing in a text that `Atoi` reads.
pub atoi-any :
    (q : ℕ → Bool)
    → ((c : ℕ) → is_digit c ≡ true → q c ≡ false)
    → q b'+' ≡ false
    → q b'-' ≡ false
    → (s : Text) {z : ℤ} → atoi s ≡ parsed z
    → any q s ≡ false
unfolding atoi
atoi-any q h plus minus [] e = refl
atoi-any q h plus minus (c ∷ s) {z} e = elim (Bool-cases (c == b'-')) [
  | inl is_minus ↦
      let (m, r) = signed_inversion true (parse_uint s) (rw is_minus at e) in
      ground (arith, digits-any q h s (parse_uint-digits s m r))
  | inr not_minus ↦ elim (Bool-cases (c == b'+')) [
    | inl is_plus ↦
        let (m, r) = signed_inversion false (parse_uint s) (rw (not_minus, is_plus) at e) in
        ground (arith, digits-any q h s (parse_uint-digits s m r))
    | inr not_plus ↦
        let (m, r) = signed_inversion false (parse_uint (c ∷ s)) (rw (not_minus, not_plus) at e) in
        digits-any q h (c ∷ s) (parse_uint-digits (c ∷ s) m r)
  ]
]

-- A leading plus sign changes nothing.
pub atoi_plus : (n : ℕ) → n ≤ max_int64 → atoi (b'+' ∷ itoa (pos n)) ≡ parsed (pos n)
unfolding atoi itoa
atoi_plus n h =
    rw (parse_uint_of_digits (format_nat n) (format_nat-ne-nil n))
      (rw (scan-format_nat n (omega arith)) (ground arith))
