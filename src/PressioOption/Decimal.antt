-- ===== src/PressioOption/Decimal.antt =====
-- `std::to_string` of an integer, and `std::stoi`, `std::stol`, `std::stoll`, `std::stoul` and
-- `std::stoull` in base ten.
use libpressio.Base.{
  Bool, Bool-cases, Option, Text, [], arith, false, if◌then◌else◌, inl, inr, leb, ltb, none, some,
  subst, suc, true, zero, ℕ, ◌%◌, ◌&&◌, ◌*◌, ◌+◌, ◌-◌, ◌/◌, ◌<◌, ◌==◌, ◌^◌, ◌||◌, ◌∷◌, ◌≡◌, ◌≢◌,
  ◌≤◌,
}
use libpressio.Base.Int.{ℤ, pos, negsuc, InSigned}
use libpressio.PressioOption.Host.{Parsed, ok, invalid_argument, out_of_range}

-- The digits of `n` in front of `out`; each round divides `n` by ten.
print_digits : ℕ → ℕ → Text → Text
print_digits zero n out = out
print_digits (suc fuel) n out =
    let out' = (b'0' + n % 10) ∷ out in
    let rest = print_digits fuel (n / 10) out' in if n / 10 == 0 then out' else rest

print_ℕ : ℕ → Text
unfolding print_digits
print_ℕ n = print_digits (suc n) n []

unfoldable pub to_string : ℤ → Text
unfolding print_ℕ
to_string (pos n) = print_ℕ n
to_string (negsuc n) = b'-' ∷ print_ℕ (suc n)

is_digit : ℕ → Bool
is_digit c = leb b'0' c && leb c b'9'

-- `isspace` in the C locale
is_space : ℕ → Bool
is_space c = (c == 32) || (leb 9 c && leb c 13)

skip_spaces : Text → Text
unfolding is_space
skip_spaces [] = []
skip_spaces (c ∷ s) = if is_space c then skip_spaces s else c ∷ s

-- The number that the leading digits continue.
scan_digits : ℕ → Text → ℕ
unfolding is_digit
scan_digits acc [] = acc
scan_digits acc (c ∷ s) =
    let rest = scan_digits (acc * 10 + (c - b'0')) s in if is_digit c then rest else acc

-- `none` if no digit stands in front.
scan_number : Text → Option ℕ
unfolding is_digit scan_digits
scan_number [] = none
scan_number (c ∷ s) = if is_digit c then some (scan_digits 0 (c ∷ s)) else none

with_sign : Bool → Option ℕ → Option (Bool × ℕ)
with_sign b none = none
with_sign b (some n) = some (b, n)

-- A sign and a magnitude; what follows the digits is ignored.
scan_signed : Text → Option (Bool × ℕ)
unfolding scan_number with_sign
scan_signed [] = none
scan_signed (c ∷ s) =
    if c == b'-'
    then with_sign true (scan_number s)
    else if c == b'+'
    then with_sign false (scan_number s)
    else with_sign false (scan_number (c ∷ s))

signed_value : Bool → ℕ → ℤ
signed_value false n = pos n
signed_value true zero = pos 0
signed_value true (suc n) = negsuc n

in_signed : ℕ → ℤ → Bool
in_signed h (pos n) = ltb n h
in_signed h (negsuc n) = ltb n h

-- `strtol` and a check of the range of a word with `2 * h` values.
check_signed : ℕ → Option (Bool × ℕ) → Parsed ℤ
unfolding in_signed signed_value
check_signed h none = invalid_argument
check_signed h (some (b, n)) =
    if in_signed h (signed_value b n) then ok (signed_value b n) else out_of_range

unfoldable pub parse_signed : ℕ → Text → Parsed ℤ
unfolding skip_spaces scan_signed check_signed
parse_signed h s = check_signed h (scan_signed (skip_spaces s))

-- `strtoul` negates a number with a minus sign modulo 2^64, and reports a magnitude above the range.
check_unsigned : Option (Bool × ℕ) → Parsed ℤ
check_unsigned none = invalid_argument
check_unsigned (some (false, n)) = if ltb n (2 ^ 64) then ok (pos n) else out_of_range
check_unsigned (some (true, n)) =
    if ltb n (2 ^ 64) then ok (pos ((2 ^ 64 - n) % 2 ^ 64)) else out_of_range

-- `int` has 32 bits, `long` and `long long` have 64.
unfoldable pub stoi : Text → Parsed ℤ
stoi s = parse_signed (2 ^ 31) s

unfoldable pub stol : Text → Parsed ℤ
stol s = parse_signed (2 ^ 63) s

unfoldable pub stoul : Text → Parsed ℤ
unfolding skip_spaces scan_signed check_unsigned
stoul s = check_unsigned (scan_signed (skip_spaces s))

scan-print :
    (fuel n : ℕ) (out : Text)
    → n < fuel
    → scan_digits 0 (print_digits fuel n out) ≡ scan_digits n out
unfolding scan_digits print_digits
scan-print zero n out h = elim h [ ]
scan-print (suc fuel) n out h = ground (arith, scan-print fuel (n / 10) ((b'0' + n % 10) ∷ out))

-- A printed number starts with a digit.
abbrev StartsDigit : Text → Type 0
StartsDigit [] = ⊥
StartsDigit (c ∷ s) = (b'0' ≤ c) × (c ≤ b'9')

print-StartsDigit : (fuel n : ℕ) (out : Text) → n < fuel → StartsDigit (print_digits fuel n out)
unfolding print_digits
print-StartsDigit zero n out h = elim h [ ]
print-StartsDigit (suc fuel) n out h = elim (Bool-cases (n / 10 == 0)) [
  | inl e ↦ rw e (omega arith)
  | inr e ↦ rw e (print-StartsDigit fuel (n / 10) ((b'0' + n % 10) ∷ out) (ground arith))
]

-- A text that starts with a digit is read as a number without a sign.
scan_signed-digit :
    (s : Text) → StartsDigit s → scan_signed (skip_spaces s) ≡ some (false, scan_digits 0 s)
unfolding scan_signed skip_spaces
scan_signed-digit [] h = absurd h
scan_signed-digit (c ∷ s) h = ground arith

scan_signed-minus :
    (s : Text) → StartsDigit s → scan_signed (skip_spaces (b'-' ∷ s)) ≡ some (true, scan_digits 0 s)
unfolding scan_signed skip_spaces
scan_signed-minus [] h = absurd h
scan_signed-minus (c ∷ s) h = ground arith

scan-print_ℕ : (n : ℕ) → scan_digits 0 (print_ℕ n) ≡ n
unfolding print_ℕ scan_digits
scan-print_ℕ n = scan-print (suc n) n [] (omega arith)

print_ℕ-StartsDigit : (n : ℕ) → StartsDigit (print_ℕ n)
unfolding print_ℕ
print_ℕ-StartsDigit n = print-StartsDigit (suc n) n [] (omega arith)

-- What `std::to_string` prints of an integer in range, `strtol` reads back.
pub parse_signed-to_string : (h : ℕ) (z : ℤ) → InSigned h z → parse_signed h (to_string z) ≡ ok z
unfolding parse_signed to_string
parse_signed-to_string h (pos n) p =
    rw (scan_signed-digit (print_ℕ n) (print_ℕ-StartsDigit n), scan-print_ℕ n) (ground arith)
parse_signed-to_string h (negsuc n) p =
    rw (scan_signed-minus (print_ℕ (suc n)) (print_ℕ-StartsDigit (suc n)), scan-print_ℕ (suc n))
      (ground arith)

pub stoul-to_string : (n : ℕ) → n < 2 ^ 64 → stoul (to_string (pos n)) ≡ ok (pos n)
unfolding stoul to_string
stoul-to_string n p =
    rw (scan_signed-digit (print_ℕ n) (print_ℕ-StartsDigit n), scan-print_ℕ n) (ground arith)

-- What `strtol` accepts lies in the range that was asked for.
pub parse_signed-InSigned : (h : ℕ) (s : Text) {z : ℤ} → parse_signed h s ≡ ok z → InSigned h z
unfolding parse_signed
parse_signed-InSigned h s e = ground arith

pub ok_of_stoi : (s : Text) {z : ℤ} → stoi s ≡ ok z → InSigned (2 ^ 31) z
unfolding stoi
ok_of_stoi s e = parse_signed-InSigned (2 ^ 31) s e

pub to_string-nonempty : (z : ℤ) → to_string z ≢ []
unfolding to_string
to_string-nonempty (pos n) e = subst StartsDigit e (print_ℕ-StartsDigit n)
to_string-nonempty (negsuc n) e = cc
