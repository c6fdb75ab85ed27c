-- ===== src/Money.antt =====
-- common/money/money.ts. A text is the list of its codes, an amount a whole number of cents; the
-- quotient by 100 that `toFixed(2)` prints is exact for amounts below 2^46 * 100, and `Number` of a
-- whole part is exact below 2^53.
pub mod Digits
pub mod Trim
pub mod RoundTrip
use mathlib.Core.Logic.{dite}
use mathlib.Core.WellFounded.{Acc, WellFounded}
use native.Mathlib.Decide.{dec_lt}
use Prim.Native.Char.{code}
use Prim.Native.String
use mib_server.Prelude.Int.{ℤ, pos, negsuc}
use mib_server.Prelude.{
  ℕ, zero, suc, ◌+◌, ◌-◌, ◌*◌, ◌/◌, ◌%◌, ◌<◌, ◌==◌, leb, String, Bool, true, false, ◌&&◌, ◌||◌,
  List, [], ◌∷◌, ◌++◌, Result, ok, err, if◌then◌else◌, arith,
}

-- Texts as lists of codes.
abbrev pub Codes : Type 0
Codes = List ℕ

abbrev pub codes : String → Codes
codes String.[] = []
codes (String.◌∷◌ c s) = code c ∷ codes s

reachable_below : (k n : ℕ) → n < k → Acc ◌<◌ n
reachable_below zero n h = absurd (omega arith)
reachable_below (suc k) n h = Acc.intro n λ m lt. reachable_below k m (omega arith)

pub less_than_wf : WellFounded ◌<◌
unfolding reachable_below
less_than_wf = record { apply = λ n. reachable_below (suc n) n (omega arith) }

pub tenth_lt : {n : ℕ} → 9 < n → n / 10 < n
tenth_lt h = omega arith

unfoldable pub emit : (n : ℕ) → Acc ◌<◌ n → Codes → Codes
emit n (Acc.intro _ below) out =
    dite (dec_lt 9 n) (λ h. emit (n / 10) (below (n / 10) (tenth_lt h)) ((b'0' + n % 10) ∷ out))
      (λ _. (b'0' + n) ∷ out)

-- The decimal digits of a number, before a text.
unfoldable pub digits : ℕ → Codes → Codes
unfolding emit less_than_wf
digits n = emit n (less_than_wf.apply n)

abbrev pub two_digits : ℕ → Codes
two_digits n = (b'0' + n / 10 % 10) ∷ (b'0' + n % 10) ∷ []

-- Cents as units with two decimal places.
unfoldable pub to_fixed_2 : ℕ → Codes
unfolding digits
to_fixed_2 cents = digits (cents / 100) (b'.' ∷ two_digits (cents % 100))

-- `formatAmountFromCents`; the currency is not read
unfoldable pub format_amount_from_cents : ℤ → Codes
unfolding to_fixed_2
format_amount_from_cents (pos n) = to_fixed_2 n
format_amount_from_cents (negsuc n) = b'-' ∷ to_fixed_2 (suc n)

-- White space and ends of line, as `trim` takes them.
unfoldable pub is_space : ℕ → Bool
is_space c =
    (leb 9 c && leb c 13)
    || c == 32
    || c == 160
    || c == 5760
    || (leb 8192 c && leb c 8202)
    || c == 8232
    || c == 8233
    || c == 8239
    || c == 8287
    || c == 12288
    || c == 65279

abbrev pub trim_start : Codes → Codes
trim_start [] = []
trim_start (c ∷ s) = let rest = trim_start s in if is_space c then rest else c ∷ s

abbrev pub keep_unless_space : ℕ → Codes → Codes
keep_unless_space c [] = if is_space c then [] else c ∷ []
keep_unless_space c (d ∷ s) = c ∷ d ∷ s

abbrev pub trim_end : Codes → Codes
trim_end [] = []
trim_end (c ∷ s) = keep_unless_space c (trim_end s)

unfoldable pub trim : Codes → Codes
unfolding is_space
trim s = trim_end (trim_start s)

abbrev pub is_digit : ℕ → Bool
is_digit c = leb b'0' c && leb c b'9'

-- The pattern of `yuanStringToCents`, part by part.
abbrev pub is_fraction : Codes → Bool
is_fraction (c ∷ []) = is_digit c
is_fraction (c ∷ d ∷ []) = is_digit c && is_digit d
is_fraction _ = false

abbrev pub is_after_digit : Codes → Bool
is_after_digit [] = true
is_after_digit (c ∷ s) =
    let rest = is_after_digit s in if is_digit c then rest else c == b'.' && is_fraction s

abbrev pub is_unsigned : Codes → Bool
is_unsigned [] = false
is_unsigned (c ∷ s) = is_digit c && is_after_digit s

abbrev pub without_sign : Codes → Bool × Codes
without_sign [] = (false, [])
without_sign (c ∷ s) = if c == b'-' then (true, s) else (false, c ∷ s)

-- `split('.')`: what stands before the first dot and after it
abbrev pub split_dot : Codes → Codes × Codes
split_dot [] = ([], [])
split_dot (c ∷ s) =
    let (whole, frac) = split_dot s in if c == b'.' then ([], s) else (c ∷ whole, frac)

-- `Number` of digits, begun with the value of those before.
abbrev pub digits_value : ℕ → Codes → ℕ
digits_value n [] = n
digits_value n (c ∷ s) = digits_value (n * 10 + (c - b'0')) s

-- `(frac + '00').slice(0, 2)`
abbrev pub first_two : Codes → Codes
first_two (c ∷ d ∷ s) = c ∷ d ∷ []
first_two s = s

abbrev pub negate : ℕ → ℤ
negate zero = pos 0
negate (suc n) = negsuc n

unfoldable pub unsigned_cents : Codes → ℕ
unsigned_cents normalized =
    let (whole, frac) = split_dot normalized in
    digits_value 0 whole * 100 + digits_value 0 (first_two (frac ++ (b'0' ∷ b'0' ∷ [])))

-- `yuanStringToCents`; what is thrown is the text that it names
unfoldable pub yuan_string_to_cents : Codes → Result Codes ℤ
unfolding trim unsigned_cents
yuan_string_to_cents yuan =
    let (negative, normalized) = without_sign (trim yuan) in
    if is_unsigned normalized
    then ok
        (if negative then negate (unsigned_cents normalized) else pos (unsigned_cents normalized))
    else err yuan
