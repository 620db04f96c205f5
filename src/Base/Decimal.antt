-- ===== src/Base/Decimal.antt =====
-- `strconv.Itoa` and `strconv.Atoi` on 64-bit integers.
pub mod Laws
use Prim.Native.Nat.{ℕ, zero, suc, ◌+◌, ◌-◌, ◌*◌, ◌/◌, ◌%◌, ◌^◌, ◌≤◌}
use mathlib.Core.Bool.{Bool, true, false, ◌&&◌, ◌||◌}
use mathlib.Core.List.{List, [], ◌∷◌, ◌++◌}
use mathlib.Core.Path.{◌≡◌, refl}
use natsx.Base.Logic.{ltb, leb, ◌==◌, if◌then◌else◌}
use natsx.Base.Numbers.{ℤ, pos, negsuc}
use natsx.Base.Text.{Text, codes}

abbrev pub max_uint64 : ℕ
max_uint64 = 2 ^ 64 - 1

abbrev pub max_int64 : ℕ
max_int64 = 2 ^ 63 - 1

-- Puts the digits of `n` before `out`; `n` rounds are enough, since each divides `n` by ten.
unfoldable pub emit : ℕ → ℕ → Text → Text
emit zero n out = out
emit (suc fuel) n out = elim (n == 0) [
  | true ↦ out
  | false ↦ emit fuel (n / 10) ((b'0' + n % 10) ∷ out)
]

unfoldable pub format_nat : ℕ → Text
unfolding emit
format_nat n = if n == 0 then b'0' ∷ [] else emit n n []

unfoldable pub itoa : ℤ → Text
unfolding format_nat
itoa (pos n) = format_nat n
itoa (negsuc n) = b'-' ∷ format_nat (n + 1)

-- `strconv.ErrSyntax` and `strconv.ErrRange`
pub data NumError : Type 0 where
  syntax range : NumError

pub data Number (A : Type 0) : Type 0 where
  parsed : A → Number A
  failed : NumError → Number A

abbrev pub is_digit : ℕ → Bool
is_digit c = leb b'0' c && leb c b'9'

-- The loop of `ParseUint` in base ten: a byte that is no digit, then the overflow of an uint64.
unfoldable pub scan : Text → ℕ → Number ℕ
scan [] n = parsed n
scan (c ∷ s) n =
    let m = n * 10 + (c - b'0') in
    let rest = scan s m in
    if is_digit c then (if leb m max_uint64 then rest else failed range) else failed syntax

unfoldable pub parse_uint : Text → Number ℕ
unfolding scan
parse_uint [] = failed syntax
parse_uint (c ∷ s) = scan (c ∷ s) 0

abbrev pub signed : Bool → Number ℕ → Number ℤ
signed neg (failed e) = failed e
signed false (parsed n) = if leb n max_int64 then parsed (pos n) else failed range
signed true (parsed zero) = parsed (pos 0)
signed true (parsed (suc n)) = if leb n max_int64 then parsed (negsuc n) else failed range

-- An optional sign, then digits.
unfoldable pub atoi : Text → Number ℤ
unfolding parse_uint
atoi [] = failed syntax
atoi (c ∷ s) =
    if c == b'-'
    then signed true (parse_uint s)
    else if c == b'+'
    then signed false (parse_uint s)
    else signed false (parse_uint (c ∷ s))

abbrev pub round_numbers : List ℤ
round_numbers = pos 0 ∷ pos 1234 ∷ negsuc 9 ∷ pos max_int64 ∷ negsuc max_int64 ∷ []
