-- ===== src/Tests/Numbers.antt =====
-- src/slice.c and the string utilities of src/util.c at concrete inputs.
use Prim.Native.Nat.{Ordering}
use wheatserver.Common.{
  ◌≡◌, refl, ◌↔◌, Bool, true, none, some, [], ◌∷◌, ◌++◌, arith, negsuc, length, take,
}
use wheatserver.Slice.{Bytes, Slice, view, memcmp, compare_slices, start_with}
use wheatserver.Slice.Order.{lex, compare_slices-lex, start_with-prefix}
use wheatserver.Number.{ll2string, string2ll, get_int_len}
use wheatserver.Number.Decimal.{decimal}
use wheatserver.Number.Print.{signed_decimal, ll2string_lem, get_int_len-decimal}
use wheatserver.Number.Parse.{InRange, string2ll_sound, string2ll_complete, string2ll-ll2string}

abbrev abcd : Slice
abcd = record { pointer = some (97 ∷ 98 ∷ 99 ∷ 100 ∷ 101 ∷ []); len = 4 }

abbrev abc : Slice
abc = record { pointer = some (97 ∷ 98 ∷ 99 ∷ []); len = 3 }

compare_run : compare_slices abc abcd ≡ some Ordering.lt
unfolding compare_slices memcmp
compare_run = refl

start_run : start_with abcd abc ≡ some true
unfolding start_with memcmp
start_run = refl

compare_slices-lex_example : compare_slices abcd abc ≡ some (lex (view abcd) (view abc))
compare_slices-lex_example = compare_slices-lex abcd abc (omega arith) (omega arith)

start_with-prefix_run :
    (r : Bool) × (start_with abcd abc ≡ some r)
    × ((r ≡ true) ↔ ((rest : Bytes) × (view abcd ≡ view abc ++ rest)))
start_with-prefix_run = start_with-prefix abcd abc (omega arith) (omega arith)

abbrev minus_120 : Bytes
minus_120 = b'-' ∷ b'1' ∷ b'2' ∷ b'0' ∷ []

print_run : ll2string 32 (negsuc 119) ≡ minus_120
unfolding ll2string
print_run = refl

print_short_run : ll2string 3 (negsuc 119) ≡ b'-' ∷ b'1' ∷ []
unfolding ll2string
print_short_run = refl

parse_run : string2ll minus_120 ≡ some (negsuc 119)
unfolding string2ll
parse_run = refl

parse_zeros_run : string2ll (b'0' ∷ b'0' ∷ []) ≡ none
unfolding string2ll
parse_zeros_run = refl

ll2string_lem_run : ll2string 32 (negsuc 119) ≡ take 31 (signed_decimal (negsuc 119))
ll2string_lem_run = ll2string_lem 32 (negsuc 119)

int_len_run : get_int_len 1234 ≡ length (decimal 1234)
int_len_run = get_int_len-decimal 1234

string2ll_sound_example : (minus_120 ≡ signed_decimal (negsuc 119)) × InRange (negsuc 119)
string2ll_sound_example = string2ll_sound minus_120 (negsuc 119) parse_run

string2ll_complete_run : string2ll (signed_decimal (negsuc 119)) ≡ some (negsuc 119)
string2ll_complete_run = string2ll_complete (negsuc 119) (omega arith)

minus_120_text : signed_decimal (negsuc 119) ≡ minus_120
unfolding signed_decimal decimal
minus_120_text = refl

string2ll-ll2string_example : string2ll (ll2string 5 (negsuc 119)) ≡ some (negsuc 119)
string2ll-ll2string_example =
    string2ll-ll2string 5 (negsuc 119) (omega arith) (rw minus_120_text (omega arith))
