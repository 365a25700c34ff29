-- ===== src/Decimal/RoundTrip.antt =====
-- Reading back a printed integer.
use Prim.Native.Char.{code}
use rosetta_ergo.Base.{
  ℕ, zero, suc, ◌+◌, ◌-◌, ◌*◌, ◌/◌, ◌%◌, ◌<◌, ℤ, pos, negsuc, String, some, ◌≡◌, ◌∙◌, refl, ap,
  arith, eq_ℕ, Bool-cases, inl, inr,
}
use rosetta_ergo.Decimal.{
  digit_char, print, format_nat, format_int, scan, parse_nat, parse_int, signed,
}

code-digit_char : (d : ℕ) → d < 10 → code (digit_char d) ≡ d + 48
unfolding digit_char
code-digit_char zero h = refl
code-digit_char (suc zero) h = refl
code-digit_char (suc (suc zero)) h = refl
code-digit_char (suc (suc (suc zero))) h = refl
code-digit_char (suc (suc (suc (suc zero)))) h = refl
code-digit_char (suc (suc (suc (suc (suc zero))))) h = refl
code-digit_char (suc (suc (suc (suc (suc (suc zero)))))) h = refl
code-digit_char (suc (suc (suc (suc (suc (suc (suc zero))))))) h = refl
code-digit_char (suc (suc (suc (suc (suc (suc (suc (suc zero)))))))) h = refl
code-digit_char (suc (suc (suc (suc (suc (suc (suc (suc (suc zero))))))))) h = refl
code-digit_char (suc (suc (suc (suc (suc (suc (suc (suc (suc (suc d)))))))))) h =
    absurd (omega arith)

scan-digit :
    (n d : ℕ) (s : String) → d < 10 → scan n (String.◌∷◌ (digit_char d) s) ≡ scan (n * 10 + d) s
unfolding scan
scan-digit n d s h =
    let e : n * 10 + (d + 48 - 48) ≡ n * 10 + d = omega arith in
    rw (code-digit_char d h, e) (ground arith)

scan-print : (fuel n : ℕ) (s : String) → n < fuel → scan 0 (print fuel n s) ≡ scan n s
unfolding print
scan-print zero n s h = elim h [ ]
scan-print (suc fuel) n s h = elim (Bool-cases (eq_ℕ (n / 10) 0)) [
  | inl last ↦
      let e : 0 * 10 + n % 10 ≡ n = ground arith in
      rw last (scan-digit 0 (n % 10) s (omega arith) ∙ ap (λ k. scan k s) e)
  | inr more ↦
      let e : n / 10 * 10 + n % 10 ≡ n = omega arith in
      rw more (
        scan-print fuel (n / 10) (String.◌∷◌ (digit_char (n % 10)) s) (ground arith)
        ∙ scan-digit (n / 10) (n % 10) s (omega arith)
        ∙ ap (λ k. scan k s) e)
]

-- A printed number begins with a digit.
StartsWithDigit : String → Type 0
StartsWithDigit t = (d : ℕ) × (s : String) × (d < 10) × (t ≡ String.◌∷◌ (digit_char d) s)

print-StartsWithDigit : (fuel n : ℕ) (s : String) → n < fuel → StartsWithDigit (print fuel n s)
unfolding print StartsWithDigit
print-StartsWithDigit zero n s h = elim h [ ]
print-StartsWithDigit (suc fuel) n s h = elim (Bool-cases (eq_ℕ (n / 10) 0)) [
  | inl last ↦ rw last (n % 10, s, omega arith, refl)
  | inr more ↦
      rw more
        (print-StartsWithDigit fuel (n / 10) (String.◌∷◌ (digit_char (n % 10)) s) (ground arith))
]

parse_nat-scan : (t : String) → StartsWithDigit t → parse_nat t ≡ scan 0 t
unfolding parse_nat StartsWithDigit
parse_nat-scan t (d, s, h, e) = rw e

parse_nat-format_nat : (n : ℕ) → parse_nat (format_nat n) ≡ some n
unfolding format_nat scan
parse_nat-format_nat n =
    parse_nat-scan _ (print-StartsWithDigit (suc n) n "" (omega arith))
    ∙ scan-print (suc n) n "" (omega arith)

-- A text that begins with a digit has no sign to skip.
parse_int-unsigned : (t : String) → StartsWithDigit t → parse_int t ≡ signed pos (parse_nat t)
unfolding parse_int StartsWithDigit
parse_int-unsigned t (d, s, h, e) = rw e (ground (arith, code-digit_char d h))

-- Parsing the decimal text of an integer returns the integer.
pub parse_int-format_int : (z : ℤ) → parse_int (format_int z) ≡ some z
unfolding format_int
parse_int-format_int (pos n) =
    parse_int-unsigned (format_nat n) (print-StartsWithDigit (suc n) n "" (omega arith))
    ∙ ap (signed pos) (parse_nat-format_nat n)
parse_int-format_int (negsuc n) = unfold parse_int in rw (parse_nat-format_nat (suc n))
