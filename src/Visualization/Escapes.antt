-- ===== src/Visualization/Escapes.antt =====
-- The labels of clusters: the three replacements, one behind the other, escape each character once, and what is escaped
-- can be read back.
use Prim.Native.Char.{Char, code}
use Prim.Native.String.{◌++◌}
use text.Mathlib.TextEquality.{Char-path}
use text.Mathlib.TextLemmas.{nil-append, cons-append, append-nil, append_assoc}
use ros2trace_analyzer.Common.{
  ℕ, ◌==◌, ==_iff, Bool, true, false, String, Option, none, some, ◌≡◌, refl, sym, ap, inl, inr,
  Bool-cases, if◌then◌else◌, ◌∙◌,
}
use ros2trace_analyzer.Visualization.{replace, escape_string}

-- One character, escaped.
unfoldable pub escape_char : Char → String
escape_char c =
    if code c == 92
    then "\\\\"
    else if code c == 34
    then "\\\""
    else if code c == 10
    then "\\n"
    else String.◌∷◌ c String.[]

unfoldable pub escape_chars : String → String
unfolding escape_char
escape_chars String.[] = ""
escape_chars (String.◌∷◌ c s) = escape_char c ++ escape_chars s

replace-append :
    (from : ℕ) (to s t : String) → replace from to (s ++ t) ≡ replace from to s ++ replace from to t
unfolding replace
replace-append from to String.[] t = rw (nil-append t, nil-append (replace from to t)) refl
replace-append from to (String.◌∷◌ c s) t = rw (cons-append c s t) (
    ap (λ u. (if code c == from then to else String.◌∷◌ c String.[]) ++ u)
      (replace-append from to s t)
    ∙ sym (
        append_assoc (if code c == from then to else String.◌∷◌ c String.[]) (replace from to s)
          (replace from to t)))

-- A text of one character.
replace_one :
    (from : ℕ) (to : String) (c : Char)
    → replace from to (String.◌∷◌ c String.[])
      ≡ (if code c == from then to else String.◌∷◌ c String.[])
unfolding replace
replace_one from to c = append-nil _

escape_one :
    (c : Char)
    → replace 10 "\\n" (replace 34 "\\\"" (if code c == 92 then "\\\\" else String.◌∷◌ c String.[]))
      ≡ escape_char c
unfolding escape_char
escape_one c = elim (Bool-cases (code c == 92)) [
  | inl backslash ↦ rw backslash (unfold replace in refl)
  | inr other ↦
      rw (other, replace_one 34 "\\\"" c)
        (elim (Bool-cases (code c == 34)) [
          | inl quote ↦ rw quote (unfold replace in refl)
          | inr other' ↦ rw (other', replace_one 10 "\\n" c) refl
        ])
]

replace-cons :
    (from : ℕ) (to : String) (c : Char) (s : String)
    → replace from to (String.◌∷◌ c s)
      ≡ (if code c == from then to else String.◌∷◌ c String.[]) ++ replace from to s
unfolding replace
replace-cons from to c s = refl

-- Each character is escaped once.
escape_string-escape_chars : (s : String) → escape_string s ≡ escape_chars s
unfolding escape_string escape_chars
escape_string-escape_chars String.[] = unfold replace in refl
escape_string-escape_chars (String.◌∷◌ c s) =
    let first : String = if code c == 92 then "\\\\" else String.◌∷◌ c String.[] in
    let rest = replace 92 "\\\\" s in
    ap (λ t. replace 10 "\\n" (replace 34 "\\\"" t)) (replace-cons 92 "\\\\" c s)
    ∙ ap (replace 10 "\\n") (replace-append 34 "\\\"" first rest)
    ∙ replace-append 10 "\\n" (replace 34 "\\\"" first) (replace 34 "\\\"" rest)
    ∙ rw (escape_one c) (ap (λ t. escape_char c ++ t) (escape_string-escape_chars s))

-- A character behind a backslash, as a reader of the label takes it.
unfoldable pub unescape_char : Char → Char
unescape_char c = if code c == 110 then "\n" else c

abbrev pub behind : Char → Option (String × String) → Option (String × String)
behind c none = none
behind c (some (s, rest)) = some (String.◌∷◌ c s, rest)

-- The text up to the quote that ends it, and what follows; the flag says that a backslash was read.
unfoldable pub read_quoted : Bool → String → Option (String × String)
unfolding unescape_char
read_quoted escaped String.[] = none
read_quoted true (String.◌∷◌ c s) = behind (unescape_char c) (read_quoted false s)
read_quoted false (String.◌∷◌ c s) =
    let after_backslash = read_quoted true s in
    let after = behind c (read_quoted false s) in
    if code c == 34 then some ("", s) else if code c == 92 then after_backslash else after

two-append :
    (c d : Char) (t : String)
    → String.◌∷◌ c (String.◌∷◌ d String.[]) ++ t ≡ String.◌∷◌ c (String.◌∷◌ d t)
two-append c d t =
    cons-append c (String.◌∷◌ d String.[]) t
    ∙ ap (λ u. String.◌∷◌ c u) (cons-append d String.[] t ∙ ap (λ u. String.◌∷◌ d u) (nil-append t))

one-append : (c : Char) (t : String) → String.◌∷◌ c String.[] ++ t ≡ String.◌∷◌ c t
one-append c t = cons-append c String.[] t ∙ ap (λ u. String.◌∷◌ c u) (nil-append t)

char_of : (c d : Char) → code c == code d ≡ true → c ≡ d
char_of c d e = Char-path c d ((==_iff (code c) (code d)).0 e)

read_plain :
    (c : Char) (s : String)
    → code c == 34 ≡ false
    → code c == 92 ≡ false
    → read_quoted false (String.◌∷◌ c s) ≡ behind c (read_quoted false s)
unfolding read_quoted
read_plain c s quote backslash = rw (quote, backslash) refl

read_char :
    (c : Char) (s : String)
    → read_quoted false (escape_char c ++ s) ≡ behind c (read_quoted false s)
unfolding escape_char read_quoted
read_char c s = elim (Bool-cases (code c == 92)) [
  | inl backslash ↦ rw backslash (
      ap (read_quoted false) (two-append "\\" "\\" s)
      ∙ ap (λ d. behind d (read_quoted false s)) (sym (char_of c "\\" backslash)))
  | inr other ↦ rw other (elim (Bool-cases (code c == 34)) [
    | inl quote ↦ rw quote (
        ap (read_quoted false) (two-append "\\" "\"" s)
        ∙ ap (λ d. behind d (read_quoted false s)) (sym (char_of c "\"" quote)))
    | inr other' ↦ rw other' (elim (Bool-cases (code c == 10)) [
      | inl newline ↦ rw newline (
          ap (read_quoted false) (two-append "\\" "n" s)
          ∙ ap (λ d. behind d (read_quoted false s)) (sym (char_of c "\n" newline)))
      | inr other'' ↦
          rw other'' (ap (read_quoted false) (one-append c s) ∙ read_plain c s other' other)
    ])
  ])
]

read_chars :
    (s rest : String) → read_quoted false (escape_chars s ++ ("\"" ++ rest)) ≡ some (s, rest)
unfolding escape_chars
read_chars String.[] rest =
    ap (read_quoted false) (nil-append ("\"" ++ rest) ∙ one-append "\"" rest)
    ∙ unfold read_quoted in refl
read_chars (String.◌∷◌ c s) rest =
    ap (read_quoted false) (append_assoc (escape_char c) (escape_chars s) ("\"" ++ rest))
    ∙ read_char c (escape_chars s ++ ("\"" ++ rest))
    ∙ ap (behind c) (read_chars s rest)

-- A label that is escaped and put between quotes is read back, up to the quote behind it.
pub read_quoted-escape_string :
    (s rest : String) → read_quoted false (escape_string s ++ ("\"" ++ rest)) ≡ some (s, rest)
read_quoted-escape_string s rest = rw (escape_string-escape_chars s) (read_chars s rest)
