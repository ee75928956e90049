-- ===== src/Server/Keys.antt =====
-- src/api-key-generate.c: making a key, and the key file origin_data/.auth_keys.
use vecdb.Prelude.{ℕ, zero, suc, ◌+◌, ◌-◌, ◌/◌, ◌%◌, List, [], ◌∷◌, ◌++◌, Option, none, some}
use vecdb.Prelude.{Bool, false, ◌&&◌, not, if◌then◌else◌, ltb, ◌==◌, length, take}
use vecdb.Server.Text.{text_of}

-- A digit of `%02x`.
unfoldable pub hex_digit : ℕ → ℕ
hex_digit d = if ltb d 10 then b'0' + d else b'a' + d - 10

unfoldable pub hex : List ℕ → List ℕ
unfolding hex_digit
hex [] = []
hex (b ∷ bs) = hex_digit (b / 16) ∷ hex_digit (b % 16) ∷ hex bs

-- `generate_api_key`; `read` is what `open` and `read` give of 32 bytes, nothing where the file does
-- not open. `none`: the program exits.
unfoldable pub generate_api_key : Option (List ℕ) → Option (List ℕ)
unfolding hex
generate_api_key none = none
generate_api_key (some rand_bytes) =
    if not (length rand_bytes == 32) then none else some (hex rand_bytes)

-- `fgets` for a buffer of `n + 1` bytes: the line, and what is left.
unfoldable pub fgets : ℕ → List ℕ → List ℕ × List ℕ
fgets zero bytes = ([], bytes)
fgets (suc n) [] = ([], [])
fgets (suc n) (c ∷ bytes) =
    let rest = fgets n bytes in if c == 10 then (c ∷ [], bytes) else (c ∷ rest.0, rest.1)

-- The buffers that `fgets(line, 256, …)` fills one after the other, as many as there are at most.
unfoldable pub lines : ℕ → List ℕ → List (List ℕ)
unfolding fgets
lines zero bytes = []
lines (suc n) [] = []
lines (suc n) (c ∷ bytes) = (fgets 255 (c ∷ bytes)).0 ∷ lines n (fgets 255 (c ∷ bytes)).1

-- Every call takes a byte at least.
unfoldable pub file_lines : List ℕ → List (List ℕ)
unfolding lines
file_lines bytes = lines (length bytes) bytes

-- `strncmp(line, db_name, name_len) == 0 && line[name_len] == ':'`, the name having no NUL.
unfoldable pub names : List ℕ → List ℕ → Bool
names [] [] = false
names [] (c ∷ line) = c == b':'
names (b ∷ db_name) [] = false
names (b ∷ db_name) (c ∷ line) = b == c && names db_name line

-- The loop: what the lines left leave in the new file.
unfoldable pub other_lines : List ℕ → List (List ℕ) → List ℕ
unfolding names
other_lines db_name [] = []
other_lines db_name (line ∷ more) =
    let rest = other_lines db_name more in if names db_name line then rest else text_of line ++ rest

-- What the two functions are given: whether the files open and the renaming succeeds, and how many
-- bytes the disk takes of a file. No write is checked.
pub record KeyHost : Type 0 where
  pub opens_tmp : Bool
  pub renames : Bool
  pub opens_keys : Bool
  pub room : ℕ

-- `prune_api_key`, with the key file that is there afterwards.
unfoldable pub prune_api_key : KeyHost → List ℕ → Option (List ℕ) → Option (List ℕ)
unfolding other_lines file_lines
prune_api_key host db_name none = none
prune_api_key host db_name (some bytes) =
    if host.opens_tmp && host.renames
    then some (take host.room (other_lines db_name (file_lines bytes)))
    else some bytes

-- `"%s:%s\n"`.
abbrev pub key_line : List ℕ → List ℕ → List ℕ
key_line db_name api_key = db_name ++ (b':' ∷ (api_key ++ (10 ∷ [])))

-- What an append leaves.
unfoldable pub grown : ℕ → List ℕ → Option (List ℕ) → List ℕ
grown room added none = take room added
grown room added (some bytes) = take room (bytes ++ added)

-- `save_api_key`. The folder is made before; where it cannot be, the key file does not open.
unfoldable pub save_api_key : KeyHost → List ℕ → List ℕ → Option (List ℕ) → Option (List ℕ)
unfolding prune_api_key grown
save_api_key host db_name api_key file =
    if host.opens_keys
    then some (grown host.room (key_line db_name api_key) (prune_api_key host db_name file))
    else prune_api_key host db_name file
