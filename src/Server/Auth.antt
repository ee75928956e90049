-- ===== src/Server/Auth.antt =====
-- src/server.c: the cache of the keys, and the check of a request's key.
pub mod Lines
pub mod Refinement
pub mod Verify
use vecdb.Prelude.{ℕ, zero, suc, ◌+◌, List, [], ◌∷◌, ◌++◌, Option, none, some}
use vecdb.Prelude.{Bool, true, false, ◌&&◌, ◌||◌, not, if◌then◌else◌, ◌==◌, length, take, drop}
use vecdb.Server.Text.{codes, same, cut_at, find_from, strstr, isspace, skip_spaces}
use vecdb.Server.Keys.{file_lines}

-- `auth_entry_t`.
pub record AuthEntry : Type 0 where
  pub db_name : List ℕ
  pub api_key : List ℕ

abbrev pub max_auth_keys : ℕ
max_auth_keys = 128

-- `line[strcspn(line, "\r\n")] = '\0'`.
unfoldable pub line_text : List ℕ → List ℕ
line_text line = cut_at (λ c. c == 0 || c == 13 || c == 10) line

-- The entry of a line, the text of which is cut at the first colon.
unfoldable pub auth_entry : List ℕ → Option AuthEntry
unfolding line_text
auth_entry line = elim (find_from (λ c. c == b':') (line_text line)) [
  | none ↦ none
  | some colon ↦ some (record {
    db_name = take 64 (cut_at (λ c. c == b':') (line_text line));
    api_key = take 64 (drop 1 colon);
  })
]

-- The entries of the lines, while there is room for one.
unfoldable pub auth_entries : ℕ → List (List ℕ) → List AuthEntry
unfolding auth_entry
auth_entries zero more = []
auth_entries (suc room) [] = []
auth_entries (suc room) (line ∷ more) =
    let skipped = auth_entries (suc room) more in
    elim (auth_entry line) [ none ↦ skipped | some e ↦ e ∷ auth_entries room more ]

-- `load_auth_cache`; the count of the cache is the length of the list.
unfoldable pub load_auth_cache : Option (List ℕ) → List AuthEntry → List AuthEntry
unfolding auth_entries file_lines
load_auth_cache none auth_cache = auth_cache
load_auth_cache (some bytes) auth_cache = auth_entries max_auth_keys (file_lines bytes)

-- `verify_api_key`.
unfoldable pub verify_api_key : List AuthEntry → List ℕ → List ℕ → Bool
unfolding same
verify_api_key [] db_name provided_key = false
verify_api_key (e ∷ more) db_name provided_key =
    let rest = verify_api_key more db_name provided_key in
    if same e.db_name db_name then same e.api_key provided_key else rest

-- `sscanf(…, "%64s", …)`: the first word, up to 64 bytes of it.
unfoldable pub scan_word : List ℕ → List ℕ
unfolding skip_spaces isspace
scan_word text = take 64 (cut_at isspace (skip_spaces text))

-- `authenticate_request`.
unfoldable pub authenticate_request : List AuthEntry → List ℕ → List ℕ → Bool
unfolding strstr scan_word verify_api_key
authenticate_request auth_cache request_buffer db_name =
    elim (strstr request_buffer (codes "Authorization: Bearer ")) [
      | none ↦ false
      | some auth_header ↦ verify_api_key auth_cache db_name (scan_word (drop 22 auth_header))
    ]
