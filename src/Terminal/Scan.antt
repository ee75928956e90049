-- ===== src/Terminal/Scan.antt =====
-- src/terminal.c: what a command line says. `count_words` and the `sscanf` and `scanf` of the commands,
-- as glibc carries them out.
use vecdb.Prelude.{
  ℕ, zero, suc, ◌+◌, ◌-◌, ◌*◌, ◌%◌, ◌^◌, List, [], ◌∷◌, ◌≤◌, Option, none, some, Bool, true, false,
}
use vecdb.Prelude.{◌&&◌, not, if◌then◌else◌, ◌==◌, leb, length, min}
use vecdb.Prelude.Bytes.{u64_mod, u32_mod}
use vecdb.Server.Text.{isspace, skip_spaces}

-- The loop of `count_words`, with `n` and `in_word`.
unfoldable pub count_from : List ℕ → ℕ → Bool → ℕ
unfolding isspace
count_from [] n in_word = n
count_from (c ∷ s) n in_word =
    let outside = count_from s n false in
    let started = count_from s (n + 1) true in
    let inside = count_from s n true in
    if not (isspace c) then (if not in_word then started else inside) else outside

unfoldable pub count_words : List ℕ → ℕ
unfolding count_from
count_words s = count_from s 0 false

-- The bytes of a field of `%<width>s`, and what is left behind them.
unfoldable pub take_word : ℕ → List ℕ → List ℕ × List ℕ
unfolding isspace
take_word zero text = ([], text)
take_word (suc width) [] = ([], [])
take_word (suc width) (c ∷ text) =
    let rest = take_word width text in if isspace c then ([], c ∷ text) else (c ∷ rest.0, rest.1)

-- A field that took no byte has not matched.
abbrev pub matched : List ℕ × List ℕ → Option (List ℕ × List ℕ)
matched ([], rest) = none
matched (c ∷ word, rest) = some (c ∷ word, rest)

-- `%<width>s`; `none`: nothing is left to match.
unfoldable pub scan_field : ℕ → List ℕ → Option (List ℕ × List ℕ)
unfolding take_word
scan_field width text = matched (take_word width (skip_spaces text))

-- `%*s`, which has no width.
abbrev pub skip_word : List ℕ → Option (List ℕ × List ℕ)
skip_word text = scan_field (length text) text

unfoldable pub is_digit : ℕ → Bool
is_digit c = leb b'0' c && leb c b'9'

-- The digits at the start of a text behind the number `n`, and what is left.
unfoldable pub scan_digits : List ℕ → ℕ → ℕ × List ℕ
unfolding is_digit
scan_digits [] n = (n, [])
scan_digits (c ∷ text) n =
    let rest = scan_digits text (n * 10 + c - b'0') in if is_digit c then rest else (n, c ∷ text)

-- A number as `strtoull` and `strtoll` read it: whether it has a minus sign, and its digits.
abbrev pub Number : Type 0
Number = Bool × ℕ

-- The digits behind a sign; there must be one at least.
abbrev pub digits_of : Bool → List ℕ → Option (Number × List ℕ)
digits_of negative [] = none
digits_of negative (c ∷ text) =
    let read = scan_digits (c ∷ text) 0 in
    if is_digit c then some ((negative, read.0), read.1) else none

abbrev pub signed_digits : List ℕ → Option (Number × List ℕ)
signed_digits [] = none
signed_digits (c ∷ text) =
    if c == b'-'
    then digits_of true text
    else if c == b'+'
    then digits_of false text
    else digits_of false (c ∷ text)

unfoldable pub scan_number : List ℕ → Option (Number × List ℕ)
unfolding scan_digits is_digit
scan_number text = signed_digits (skip_spaces text)

-- What `strtoull` makes of a number: its largest one where it is too large, and the negative modulo
-- 2^64.
unfoldable pub strtoull : Number → ℕ
strtoull (negative, n) =
    if leb u64_mod n then u64_mod - 1 else if negative then (u64_mod - n) % u64_mod else n

-- What `%d` stores of a number: the lower half of what `strtol` makes of it, as it stands in memory.
unfoldable pub int_word : Number → ℕ
int_word (negative, n) =
    if negative then (u64_mod - min n (2 ^ 63)) % u32_mod else min n (2 ^ 63 - 1) % u32_mod

-- The variables that the first `sscanf` of `handle_command` fills, all of them 0 before, and `ret`, the
-- number of those that it filled.
pub record Fields : Type 0 where
  pub cmd : List ℕ
  pub arg : List ℕ
  pub db_name : List ℕ
  pub dimension : ℕ
  pub initial_capacity : ℕ
  pub metric_int : ℕ
  pub ret : ℕ

abbrev pub no_fields : Fields
no_fields = record {
  cmd = [];
  arg = [];
  db_name = [];
  dimension = 0;
  initial_capacity = 0;
  metric_int = 0;
  ret = 0;
}

-- A conversion, and those after it where it matches.
abbrev pub conversion {ℓ κ} :
    {A : Type ℓ} {B : Type κ} → Option (A × List ℕ) → B → (A → List ℕ → B) → B
conversion none b more = b
conversion (some (a, rest)) b more = more a rest

-- "%19s %19s %199s %llu %llu %d", from the last conversion to the first.
unfoldable pub scan_metric : Fields → List ℕ → Fields
unfolding scan_number int_word
scan_metric f text =
    conversion (scan_number text) f (λ n rest. record f { metric_int = int_word n; ret = 6 })

unfoldable pub scan_capacity : Fields → List ℕ → Fields
unfolding scan_number strtoull scan_metric
scan_capacity f text =
    conversion (scan_number text) f
      (λ n rest. scan_metric (record f { initial_capacity = strtoull n; ret = 5 }) rest)

unfoldable pub scan_dimension : Fields → List ℕ → Fields
unfolding scan_number strtoull scan_capacity
scan_dimension f text =
    conversion (scan_number text) f
      (λ n rest. scan_capacity (record f { dimension = strtoull n; ret = 4 }) rest)

unfoldable pub scan_fields : List ℕ → Fields
unfolding scan_field scan_dimension
scan_fields command = conversion (scan_field 19 command) no_fields (λ cmd rest.
    conversion (scan_field 19 rest) (record no_fields { cmd = cmd; ret = 1 })
      (λ arg rest'.
        conversion (scan_field 199 rest') (record no_fields { cmd = cmd; arg = arg; ret = 2 })
          (λ db_name rest''.
            scan_dimension (record no_fields { cmd = cmd; arg = arg; db_name = db_name; ret = 3 })
              rest'')))

-- What stands behind the first two words, and is read by the second `sscanf` of a command.
abbrev pub behind_words {ℓ} : {A : Type ℓ} → List ℕ → A → (List ℕ → A) → A
behind_words command otherwise go =
    conversion (skip_word command) otherwise
      (λ first rest. conversion (skip_word rest) otherwise (λ second rest'. go rest'))

-- "%*s %*s %llu" and "%*s %*s %u", the latter keeping the lower half of the number.
unfoldable pub scan_u64 : List ℕ → Option (ℕ × List ℕ)
unfolding scan_number strtoull
scan_u64 text = elim (scan_number text) [ none ↦ none | some (n, rest) ↦ some (strtoull n, rest) ]

unfoldable pub scan_u32 : List ℕ → Option (ℕ × List ℕ)
unfolding scan_number strtoull
scan_u32 text = elim (scan_number text) [
  | none ↦ none
  | some (n, rest) ↦ some (strtoull n % u32_mod, rest)
]

-- `scanf("%f", …)` of the C library on what is left of the input: the pattern of the float that it
-- matches, and what it leaves. It takes bytes of the input and puts none there.
pub record FloatScan : Type 0 where
  pub scan_float : List ℕ → Option ℕ × List ℕ
  pub takes_bytes : (input : List ℕ) → length (scan_float input).1 ≤ length input

-- `while ((c = getchar()) != '\n' && c != EOF) ;`
unfoldable pub skip_line : List ℕ → List ℕ
skip_line [] = []
skip_line (c ∷ input) = let rest = skip_line input in if c == 10 then input else rest

-- How `read_vector` ends: with the floats, at something else than a float, or in undefined behaviour.
-- The first two leave what is behind the line.
pub data VectorRead : Type 0 where
  floats : List ℕ → List ℕ → VectorRead
  no_number : List ℕ → VectorRead
  undefined : VectorRead

abbrev pub with_float : ℕ → VectorRead → VectorRead
with_float x (floats xs input) = floats (x ∷ xs) input
with_float x (no_number input) = no_number input
with_float x undefined = undefined

-- A float, and what stands behind it, read into a block with `places` floats.
abbrev pub at_place : Option ℕ × List ℕ → ℕ → (ℕ → List ℕ → VectorRead) → VectorRead
at_place (none, rest) places more = no_number (skip_line rest)
at_place (some x, rest) zero more = undefined
at_place (some x, rest) (suc places) more = with_float x (more places rest)

-- `read_vector`, for a block with `places` floats.
unfoldable pub read_floats : FloatScan → ℕ → ℕ → List ℕ → VectorRead
unfolding skip_line
read_floats F zero places input = floats [] (skip_line input)
read_floats F (suc dimension) places input =
    at_place (F.scan_float input) places (λ more rest. read_floats F dimension more rest)
