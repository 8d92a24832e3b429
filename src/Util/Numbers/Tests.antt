-- ===== src/Util/Numbers/Tests.antt =====
-- Tests of the numbers that the user writes, and the theorems at concrete inputs.
use prosper.Prelude.{◌≡◌, refl, true, none, some, [], ◌∷◌}
use prosper.Prelude.Int.{pos, negsuc, ◌*ℤ◌, neg_ℤ}
use prosper.Prelude.Text.{codes, to_decimal}
use prosper.Util.Numbers.{
  parse_amount_as_nanos, nanos_per_cent, one, several, absent, first_positive_int_or_null,
}
use prosper.Util.Numbers.RoundTrip.{print_cents, parse_amount_as_nanos-print_cents}

twelve : parse_amount_as_nanos (codes "12.34") ≡ some (pos 12_340_000_000)
unfolding parse_amount_as_nanos
twelve = refl

minus_comma : parse_amount_as_nanos (codes "-5,5") ≡ some (negsuc 5_499_999_999)
unfolding parse_amount_as_nanos neg_ℤ
minus_comma = refl

three_digits : parse_amount_as_nanos (codes "1.234") ≡ none
unfolding parse_amount_as_nanos
three_digits = refl

no_whole : parse_amount_as_nanos (codes ".5") ≡ none
unfolding parse_amount_as_nanos
no_whole = refl

printed : print_cents true (negsuc 1049) ≡ codes "-10,50"
unfolding to_decimal
printed = refl

page_two : first_positive_int_or_null (several (codes "2" ∷ codes "x" ∷ [])) ≡ some 2
unfolding first_positive_int_or_null
page_two = refl

page_zero : first_positive_int_or_null (one (codes "0")) ≡ none
unfolding first_positive_int_or_null
page_zero = refl

no_page : first_positive_int_or_null absent ≡ none
unfolding first_positive_int_or_null
no_page = refl

parse_amount_as_nanos-print_cents_example :
    parse_amount_as_nanos (print_cents true (negsuc 1049))
    ≡ some (negsuc 1049 *ℤ pos nanos_per_cent)
parse_amount_as_nanos-print_cents_example = parse_amount_as_nanos-print_cents true (negsuc 1049)
