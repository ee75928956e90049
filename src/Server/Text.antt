-- ===== src/Server/Text.antt =====
-- The functions of the C library on strings that the server uses. A string is its bytes without the
-- NUL, and a buffer may hold bytes behind one.
use Prim.Native.String.{String}
use Prim.Native.Char.{code}
use vecdb.Prelude.{ℕ, ◌+◌, List, [], ◌∷◌, Option, none, some}
use vecdb.Prelude.{Bool, true, false, ◌&&◌, ◌||◌, if◌then◌else◌, leb, ◌==◌}

-- The bytes of a text in ASCII.
abbrev pub codes : String → List ℕ
codes String.[] = []
codes (String.◌∷◌ c s) = code c ∷ codes s

-- `strcmp(…) == 0`.
unfoldable pub same : List ℕ → List ℕ → Bool
same [] [] = true
same [] (c ∷ cs) = false
same (b ∷ bs) [] = false
same (b ∷ bs) (c ∷ cs) = b == c && same bs cs

-- What stands in front of the first byte of a kind.
unfoldable pub cut_at : (ℕ → Bool) → List ℕ → List ℕ
cut_at stops [] = []
cut_at stops (c ∷ cs) = let rest = cut_at stops cs in if stops c then [] else c ∷ rest

-- What stands from the first byte of a kind on.
unfoldable pub find_from : (ℕ → Bool) → List ℕ → Option (List ℕ)
find_from stops [] = none
find_from stops (c ∷ cs) = let rest = find_from stops cs in if stops c then some (c ∷ cs) else rest

-- What a buffer is as a string.
abbrev pub text_of : List ℕ → List ℕ
text_of = cut_at (λ c. c == 0)

-- Whether a string starts with another, the bytes compared by `eq`.
unfoldable pub has_prefix : (ℕ → ℕ → Bool) → List ℕ → List ℕ → Bool
has_prefix eq [] text = true
has_prefix eq (p ∷ ps) [] = false
has_prefix eq (p ∷ ps) (c ∷ cs) = eq p c && has_prefix eq ps cs

-- The string from the first place on where another stands.
unfoldable pub find_text : (ℕ → ℕ → Bool) → List ℕ → List ℕ → Option (List ℕ)
unfolding has_prefix
find_text eq needle [] = if has_prefix eq needle [] then some [] else none
find_text eq needle (c ∷ cs) =
    let rest = find_text eq needle cs in
    if has_prefix eq needle (c ∷ cs) then some (c ∷ cs) else rest

-- `tolower` in the C locale.
unfoldable pub tolower : ℕ → ℕ
tolower c = if leb b'A' c && leb c b'Z' then c + 32 else c

-- `strstr` and `strcasestr`; `none` is NULL.
unfoldable pub strstr : List ℕ → List ℕ → Option (List ℕ)
unfolding find_text
strstr text needle = find_text (λ a b. a == b) needle text

unfoldable pub strcasestr : List ℕ → List ℕ → Option (List ℕ)
unfolding find_text tolower
strcasestr text needle = find_text (λ a b. tolower a == tolower b) needle text

-- `isspace` in the C locale.
unfoldable pub isspace : ℕ → Bool
isspace c = c == 32 || (leb 9 c && leb c 13)

unfoldable pub skip_spaces : List ℕ → List ℕ
unfolding isspace
skip_spaces [] = []
skip_spaces (c ∷ cs) = let rest = skip_spaces cs in if isspace c then rest else c ∷ cs
