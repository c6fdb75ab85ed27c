-- ===== src/Tests/Money.antt =====
-- Amounts of common/money/money.ts.
use mib_server.Prelude.Int.{pos, negsuc}
use mib_server.Prelude.{◌≡◌, refl, ◌++◌, ok, err}
use native.Mathlib.Decide.{dec_lt}
use mib_server.Money.{codes, is_space, format_amount_from_cents, yuan_string_to_cents}
use mib_server.Money.RoundTrip.{yuan_string_to_cents-format}

formatted : format_amount_from_cents (negsuc 12344) ≡ codes "-123.45"
unfolding format_amount_from_cents dec_lt
formatted = refl

one_decimal : yuan_string_to_cents (codes " 12.5 ") ≡ ok (pos 1250)
unfolding yuan_string_to_cents
one_decimal = refl

three_decimals : yuan_string_to_cents (codes "1.005") ≡ err (codes "1.005")
unfolding yuan_string_to_cents
three_decimals = refl

yuan_string_to_cents-format_example :
    yuan_string_to_cents (codes " " ++ (format_amount_from_cents (negsuc 4) ++ codes "  "))
    ≡ ok (negsuc 4)
unfolding is_space
yuan_string_to_cents-format_example =
    yuan_string_to_cents-format (negsuc 4) (codes " ") (codes "  ") refl refl
