-- ===== src/Db/Name.antt =====
-- src/db.c: `validate_db_name`, the guard in front of every path that is built from a table's name.
use vecdb.Prelude.{ℕ, ◌≤◌, ◌≡◌, ◌↔◌, ◌⊎◌, refl, arith, List, [], ◌∷◌, Option, none, some}
use vecdb.Prelude.{Bool, true, false, ◌&&◌, ◌||◌, not, if◌then◌else◌, leb, ltb, ◌==◌, length, All}

-- `isalnum` in the C locale.
unfoldable pub isalnum : ℕ → Bool
isalnum c = (leb b'0' c && leb c b'9') || (leb b'A' c && leb c b'Z') || (leb b'a' c && leb c b'z')

-- The loop over the characters, up to the first that is refused.
unfoldable pub all_name_chars : List ℕ → Bool
unfolding isalnum
all_name_chars [] = true
all_name_chars (c ∷ cs) =
    if not (isalnum c) && not (c == b'_') && not (c == b'-') then false else all_name_chars cs

-- `validate_db_name`; `none` is NULL, and a name is its characters without the NUL.
unfoldable pub validate_db_name : Option (List ℕ) → Bool
unfolding all_name_chars
validate_db_name none = false
validate_db_name (some name) =
    if length name == 0 || ltb 64 (length name) then false else all_name_chars name

abbrev pub Between : ℕ → ℕ → ℕ → Type 0
Between lo hi c = (lo ≤ c) × (c ≤ hi)

-- A letter, a digit, an underscore or a hyphen.
abbrev pub IsNameChar : ℕ → Type 0
IsNameChar c =
    Between b'0' b'9' c ⊎ Between b'A' b'Z' c ⊎ Between b'a' b'z' c ⊎ (c ≡ b'_') ⊎ (c ≡ b'-')

name_chars→All : (cs : List ℕ) → all_name_chars cs ≡ true → All IsNameChar cs
unfolding all_name_chars
name_chars→All [] h = tt
name_chars→All (c ∷ cs) h = (ground arith, name_chars→All cs (ground arith))

All→name_chars : (cs : List ℕ) → All IsNameChar cs → all_name_chars cs ≡ true
unfolding all_name_chars
All→name_chars [] h = refl
All→name_chars (c ∷ cs) h = ground (arith, All→name_chars cs h.1)

-- A name passes exactly when it has 1 to 64 characters, all of them letters, digits, underscores or
-- hyphens.
pub validate_db_name_iff :
    (name : List ℕ)
    → (validate_db_name (some name) ≡ true)
      ↔ ((1 ≤ length name) × (length name ≤ 64) × All IsNameChar name)
unfolding validate_db_name
validate_db_name_iff name = (
  λ h. (ground arith, ground arith, name_chars→All name (ground arith)),
  λ (lo, hi, chars). ground (arith, All→name_chars name chars),
)
