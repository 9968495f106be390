-- ===== src/Grid/Ids.antt =====
-- The id of a source on the grid: the template of `buildSource` in
-- src/front-end/src/presentation/hooks/useSourceTransportFactory.ts, the id of the chosen input, a dash and
-- the number of the source in decimal digits, which is how JavaScript prints a number.
use Prim.Native.Char.{Char, code}
use Prim.Native.String as Text
use Prim.Native.String.append
use learning_cuda.Base.{
  ℕ, zero, suc, ◌+◌, ◌-◌, ◌*◌, ◌/◌, ◌%◌, ◌<◌, ◌≡◌, refl, sym, ap, ◌∙◌, inl, inr, false, String,
  ◌==◌, if◌then◌else◌, Bool-cases, arith,
}

abbrev digit : ℕ → Char
digit zero = "0"
digit (suc zero) = "1"
digit (suc (suc zero)) = "2"
digit (suc (suc (suc zero))) = "3"
digit (suc (suc (suc (suc zero)))) = "4"
digit (suc (suc (suc (suc (suc zero))))) = "5"
digit (suc (suc (suc (suc (suc (suc zero)))))) = "6"
digit (suc (suc (suc (suc (suc (suc (suc zero))))))) = "7"
digit (suc (suc (suc (suc (suc (suc (suc (suc zero)))))))) = "8"
digit (suc (suc (suc (suc (suc (suc (suc (suc (suc n))))))))) = "9"

-- The digits of a number in front of a text, with the rounds that are left.
unfoldable put_digits : ℕ → ℕ → String → String
put_digits zero n out = out
put_digits (suc rounds) n out =
    let last = String.◌∷◌ (digit (n % 10)) out in
    let rest = put_digits rounds (n / 10) last in if n / 10 == 0 then last else rest

unfoldable decimal : ℕ → String
unfolding put_digits
decimal n = put_digits (suc n) n ""

-- `${id}-${number}`
unfoldable pub unique_id : String → ℕ → String
unfolding decimal
unique_id id number = Text.◌++◌ id (String.◌∷◌ "-" (decimal number))

webcam_id : unique_id "webcam" 120 ≡ "webcam-120"
unfolding unique_id
webcam_id = refl

-- The number that the digits after the last dash spell, behind the digits read so far.
read_number : String → ℕ → ℕ
read_number String.[] n = n
read_number (String.◌∷◌ c s) n =
    if code c == 45 then read_number s 0 else read_number s (n * 10 + (code c - 48))

code-digit : (n : ℕ) → n < 10 → code (digit n) ≡ 48 + n
code-digit zero h = refl
code-digit (suc zero) h = refl
code-digit (suc (suc zero)) h = refl
code-digit (suc (suc (suc zero))) h = refl
code-digit (suc (suc (suc (suc zero)))) h = refl
code-digit (suc (suc (suc (suc (suc zero))))) h = refl
code-digit (suc (suc (suc (suc (suc (suc zero)))))) h = refl
code-digit (suc (suc (suc (suc (suc (suc (suc zero))))))) h = refl
code-digit (suc (suc (suc (suc (suc (suc (suc (suc zero)))))))) h = refl
code-digit (suc (suc (suc (suc (suc (suc (suc (suc (suc zero))))))))) h = refl
code-digit (suc (suc (suc (suc (suc (suc (suc (suc (suc (suc n)))))))))) h =
    absurd (omega (arith, h))

read_number-digit :
    (d n : ℕ) (s : String)
    → d < 10
    → read_number (String.◌∷◌ (digit d) s) n ≡ read_number s (n * 10 + d)
unfolding read_number
read_number-digit d n s h =
    let no_dash : (48 + d == 45) ≡ false = ground arith in
    rw (code-digit d h, no_dash) (ap (read_number s) (omega arith))

read_number-put_digits :
    (rounds n : ℕ) (out : String)
    → n < rounds
    → read_number (put_digits rounds n out) 0 ≡ read_number out n
unfolding put_digits
read_number-put_digits zero n out h = absurd (omega (arith, h))
read_number-put_digits (suc rounds) n out h = elim (Bool-cases (n / 10 == 0)) [
  | inl small ↦ rw small (
      read_number-digit (n % 10) 0 out (omega arith) ∙ ap (read_number out) (ground (arith, small)))
  | inr large ↦ rw large (
      read_number-put_digits rounds (n / 10) (String.◌∷◌ (digit (n % 10)) out)
        (ground (arith, large, h))
      ∙ read_number-digit (n % 10) (n / 10) out (omega arith)
      ∙ ap (read_number out) (omega arith))
]

read_number-unique_id : (id : String) (number n : ℕ) → read_number (unique_id id number) n ≡ number
unfolding unique_id read_number decimal
read_number-unique_id String.[] number n =
    rw (append.nil (String.◌∷◌ "-" (decimal number)))
      (read_number-put_digits (suc number) number "" (omega arith))
read_number-unique_id (String.◌∷◌ c id) number n =
    rw (append.cons c id (String.◌∷◌ "-" (decimal number))) (elim (Bool-cases (code c == 45)) [
      | inl dash ↦ rw dash (read_number-unique_id id number 0)
      | inr other ↦ rw other (read_number-unique_id id number (n * 10 + (code c - 48)))
    ])

-- Different numbers make different ids, whatever the inputs' own ids are.
pub unique_id-injective : (a b : String) (m n : ℕ) → unique_id a m ≡ unique_id b n → m ≡ n
unique_id-injective a b m n e =
    sym (read_number-unique_id a m 0) ∙ ap (λ s. read_number s 0) e ∙ read_number-unique_id b n 0
