-- ===== src/Terminal/Input.antt =====
-- src/terminal.c: no command puts bytes back into its input.
use vecdb.Prelude.{ℕ, zero, suc, ◌≤◌, ◌<◌, arith, List, [], ◌∷◌, Option, none, some}
use vecdb.Prelude.{Bool-cases, inl, inr, length, ◌==◌}
use vecdb.Server.Text.{isspace, skip_spaces}
use vecdb.Server.Keys.{fgets}
use vecdb.Terminal.Scan.{
  FloatScan, VectorRead, floats, no_number, undefined, skip_line, with_float, at_place, read_floats,
}
use vecdb.Terminal.Queue.{read_confirm}

pub length-skip_line : (input : List ℕ) → length (skip_line input) ≤ length input
unfolding skip_line
length-skip_line [] = omega arith
length-skip_line (c ∷ input) = elim (Bool-cases (c == 10)) [
  | inl h ↦ rw h (omega arith)
  | inr h ↦ rw h (omega (arith, length-skip_line input))
]

length-skip_spaces : (input : List ℕ) → length (skip_spaces input) ≤ length input
unfolding skip_spaces
length-skip_spaces [] = omega arith
length-skip_spaces (c ∷ input) = elim (Bool-cases (isspace c)) [
  | inl h ↦ rw h (omega (arith, length-skip_spaces input))
  | inr h ↦ rw h (omega arith)
]

pub length-read_confirm : (input : List ℕ) → length (read_confirm input).1 ≤ length input
unfolding read_confirm
length-read_confirm input = by_rest (skip_spaces input) (length-skip_spaces input)
  where
    by_rest :
        (rest : List ℕ)
        → length rest ≤ length input
        → length
            (elim rest as (λ x. ℕ × List ℕ) [ [] ↦ (b'n', []) | c ∷ more ↦ (c, skip_line more) ]).1
          ≤ length input
    by_rest [] h = omega arith
    by_rest (c ∷ more) h = omega (arith, length-skip_line more)

-- A line takes a byte at least.
pub length-fgets :
    (n c : ℕ) (input : List ℕ) → length (fgets (suc n) (c ∷ input)).1 < length (c ∷ input)
unfolding fgets
length-fgets n c input = elim (Bool-cases (c == 10)) [
  | inl h ↦ rw h (omega arith)
  | inr h ↦ rw h (omega (arith, at_most n input))
]
  where
    at_most : (m : ℕ) (text : List ℕ) → length (fgets m text).1 ≤ length text
    at_most zero text = omega arith
    at_most (suc m) [] = omega arith
    at_most (suc m) (d ∷ text) = elim (Bool-cases (d == 10)) [
      | inl h ↦ rw h (omega arith)
      | inr h ↦ rw h (omega (arith, at_most m text))
    ]

-- What a vector that has been read leaves is at most `n` bytes.
pub data Leaves (n : ℕ) : VectorRead → Type 0 where
  with_floats : {xs rest : List ℕ} → length rest ≤ n → Leaves n (floats xs rest)
  without : {rest : List ℕ} → length rest ≤ n → Leaves n (no_number rest)
  nowhere : Leaves n undefined

pub read_floats-Leaves :
    (F : FloatScan) (dimension places n : ℕ) (input : List ℕ)
    → length input ≤ n
    → Leaves n (read_floats F dimension places input)
unfolding read_floats
read_floats-Leaves F zero places n input h = with_floats (omega (arith, length-skip_line input))
read_floats-Leaves F (suc dimension) places n input h =
    by_scan (F.scan_float input) places (omega (arith, F.takes_bytes input))
      (λ more rest k. read_floats-Leaves F dimension more n rest k)
  where
    one_more : (x : ℕ) (v : VectorRead) → Leaves n v → Leaves n (with_float x v)
    one_more x (floats xs rest) (with_floats k) = with_floats k
    one_more x (no_number rest) (without k) = without k
    one_more x undefined nowhere = nowhere

    by_scan :
        (p : Option ℕ × List ℕ) (m : ℕ)
        → length p.1 ≤ n
        → ((more : ℕ) (rest : List ℕ)
            → length rest ≤ n
            → Leaves n (read_floats F dimension more rest))
        → Leaves n (at_place p m (λ more rest. read_floats F dimension more rest))
    by_scan (none, rest) m k next = without (omega (arith, k, length-skip_line rest))
    by_scan (some x, rest) zero k next = nowhere
    by_scan (some x, rest) (suc more) k next =
        one_more x (read_floats F dimension more rest) (next more rest k)
