-- ===== src/Decimal.antt =====
-- Decimal texts of integers: `strconv.FormatInt(z, 10)` and `big.Int.SetString(s, 10)`.
pub mod RoundTrip
use Prim.Native.Char.{Char, code}
use rosetta_ergo.Base.{
  ℕ, zero, suc, ◌+◌, ◌-◌, ◌*◌, ◌/◌, ◌%◌, ℤ, pos, negsuc, neg, String, Bool, true, false, ◌&&◌, ◌||◌,
  Option, none, some, ◌≡◌, refl, leb, eq_ℕ, if◌then◌else◌,
}

pub digit_char : ℕ → Char
digit_char zero = "0"
digit_char (suc zero) = "1"
digit_char (suc (suc zero)) = "2"
digit_char (suc (suc (suc zero))) = "3"
digit_char (suc (suc (suc (suc zero)))) = "4"
digit_char (suc (suc (suc (suc (suc zero))))) = "5"
digit_char (suc (suc (suc (suc (suc (suc zero)))))) = "6"
digit_char (suc (suc (suc (suc (suc (suc (suc zero))))))) = "7"
digit_char (suc (suc (suc (suc (suc (suc (suc (suc zero)))))))) = "8"
digit_char _ = "9"

-- The digits of `n`, the last one first, in front of `rest`.
pub print : ℕ → ℕ → String → String
unfolding digit_char
print zero n rest = rest
print (suc fuel) n rest =
    let longer = String.◌∷◌ (digit_char (n % 10)) rest in
    let more = print fuel (n / 10) longer in if eq_ℕ (n / 10) 0 then longer else more

unfoldable pub format_nat : ℕ → String
unfolding print
format_nat n = print (suc n) n ""

unfoldable pub format_int : ℤ → String
unfolding format_nat
format_int (pos n) = format_nat n
format_int (negsuc n) = String.◌∷◌ "-" (format_nat (suc n))

pub scan : ℕ → String → Option ℕ
scan n String.[] = some n
scan n (String.◌∷◌ c s) =
    let rest = scan (n * 10 + (code c - 48)) s in
    if leb 48 (code c) && leb (code c) 57 then rest else none

-- At least one digit.
pub parse_nat : String → Option ℕ
unfolding scan
parse_nat String.[] = none
parse_nat (String.◌∷◌ c s) = scan 0 (String.◌∷◌ c s)

abbrev pub signed : (ℕ → ℤ) → Option ℕ → Option ℤ
signed f none = none
signed f (some n) = some (f n)

-- An optional sign, and digits.
unfoldable pub parse_int : String → Option ℤ
unfolding parse_nat
parse_int String.[] = none
parse_int (String.◌∷◌ c s) =
    if eq_ℕ (code c) 45
    then signed (λ n. neg (pos n)) (parse_nat s)
    else if eq_ℕ (code c) 43
    then signed pos (parse_nat s)
    else signed pos (parse_nat (String.◌∷◌ c s))

format-samples :
    (format_int (pos 120) ≡ "120") × (format_int (negsuc 0) ≡ "-1") × (format_int (pos 0) ≡ "0")
unfolding format_int
format-samples = (refl, refl, refl)

parse-samples :
    (parse_int "-120" ≡ some (negsuc 119))
    × (parse_int "+7" ≡ some (pos 7))
    × (parse_int "1x" ≡ none)
    × (parse_int "-" ≡ none)
unfolding parse_int
parse-samples = (refl, refl, refl, refl)
