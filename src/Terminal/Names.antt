-- ===== src/Terminal/Names.antt =====
-- src/terminal.c: the name of a table in the name of its file.
use vecdb.Prelude.{ℕ, ◌≤◌, ◌≡◌, refl, ap, ◌∙◌, arith, List, [], ◌∷◌, ◌++◌, some, true, false}
use vecdb.Prelude.{◌==◌, length, take, take-length, All}
use vecdb.Db.Name.{IsNameChar, validate_db_name, validate_db_name_iff}
use vecdb.Server.Text.{codes, has_prefix, cut_at}
use vecdb.Terminal.Session.{file_name_of, table_name_of}

name_char-slash : (c : ℕ) → IsNameChar c → (c == b'/') ≡ false
name_char-slash c h = ground arith

-- What stands in front of the first slash.
cut_at-slash :
    (name rest : List ℕ)
    → All IsNameChar name
    → cut_at (λ c. c == b'/') (name ++ (b'/' ∷ rest)) ≡ name
unfolding cut_at
cut_at-slash [] rest h = refl
cut_at-slash (c ∷ name) rest h =
    rw (name_char-slash c h.0) (ap (λ l. c ∷ l) (cut_at-slash name rest h.1))

-- From the name of a table's file the name of the table comes back.
pub table_name_of_lem :
    (name : List ℕ) → validate_db_name (some name) ≡ true → table_name_of (file_name_of name) ≡ name
unfolding table_name_of file_name_of has_prefix
table_name_of_lem name valid =
    ap (take 199) (cut_at-slash name (codes "data.db") facts.2)
    ∙ take-length 199 name (omega (arith, facts.1))
  where
    facts : (1 ≤ length name) × (length name ≤ 64) × All IsNameChar name
    facts = (validate_db_name_iff name).0 valid
