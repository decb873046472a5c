-- ===== src/Utils/Format.antt =====
-- What src uses of `std::fmt`: `{}`, `{:x}` and `{:02x}` of integers, and `{:?}` of a text. Which characters
-- `{:?}` leaves as they are is in the Unicode tables of the standard library: a parameter.
pub mod Digits
use Prim.Native.Char.{Char, code}
use Prim.Native.String.{◌++◌, slice}
use ros2trace_analyzer.Common.{
  ℕ, zero, suc, ◌+◌, ◌/◌, ◌%◌, ltb, ◌==◌, String, List, [], ◌∷◌, ℤ, pos, negsuc, Bool, true, false,
  if◌then◌else◌,
}

-- The digits of a number, in front of those that are known; `fuel` is at least the number.
unfoldable pub digits : ℕ → ℕ → ℕ → List ℕ → List ℕ
digits base zero n acc = n ∷ acc
digits base (suc fuel) n acc =
    let more = digits base fuel (n / base) ((n % base) ∷ acc) in
    if ltb n base then n ∷ acc else more

abbrev pub digit : ℕ → String
digit d = slice "0123456789abcdef" d (d + 1)

unfoldable pub digits_text : List ℕ → String
digits_text [] = ""
digits_text (d ∷ ds) = digit d ++ digits_text ds

unfoldable pub decimal : ℕ → String
unfolding digits digits_text
decimal n = digits_text (digits 10 n n [])

unfoldable pub hex : ℕ → String
unfolding digits digits_text
hex n = digits_text (digits 16 n n [])

-- `{:02x}` of a byte.
unfoldable pub hex_byte : ℕ → String
hex_byte b = digit (b / 16) ++ digit (b % 16)

unfoldable pub decimal_ℤ : ℤ → String
unfolding decimal
decimal_ℤ (pos n) = decimal n
decimal_ℤ (negsuc n) = "-" ++ decimal (suc n)

unfoldable pub show_bool : Bool → String
show_bool true = "true"
show_bool false = "false"

module _ (printable : Char → Bool) where
  unfoldable pub debug_char : Char → String
  unfolding hex
  debug_char c =
      if code c == 0
      then "\\0"
      else if code c == 9
      then "\\t"
      else if code c == 13
      then "\\r"
      else if code c == 10
      then "\\n"
      else if code c == 92
      then "\\\\"
      else if code c == 34
      then "\\\""
      else if printable c
      then String.◌∷◌ c String.[]
      else "\\u{" ++ (hex (code c) ++ "}")

  unfoldable pub debug_chars : String → String
  unfolding debug_char
  debug_chars String.[] = ""
  debug_chars (String.◌∷◌ c s) = debug_char c ++ debug_chars s

  unfoldable pub debug_text : String → String
  unfolding debug_chars
  debug_text s = "\"" ++ (debug_chars s ++ "\"")
