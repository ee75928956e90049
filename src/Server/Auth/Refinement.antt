-- ===== src/Server/Auth/Refinement.antt =====
-- src/api-key-generate.c and src/server.c: the key file as a map from names to keys.
use vecdb.Prelude.{ℕ, ◌+◌, ◌≤◌, ◌≡◌, sym, ap, ◌∙◌, arith, List, [], ◌∷◌, ◌++◌}
use vecdb.Prelude.{some, Bool-cases, true, inl, inr}
use vecdb.Prelude.{
  length, take, length-append, append_assoc, append-nil, All, All-append, take-length,
}
use vecdb.Server.Text.{same}
use vecdb.Server.Keys.{file_lines, other_lines, KeyHost, prune_api_key, grown, save_api_key}
use vecdb.Server.Auth.{AuthEntry, auth_entries, load_auth_cache}
use vecdb.Server.Auth.Lines.{
  IsEntry, line_of, key_file, without, lines-key_file, other_lines_lem, auth_entries_lem,
}

All-without :
    (P : AuthEntry → Type 0) (name : List ℕ) (es : List AuthEntry)
    → All P es
    → All P (without name es)
unfolding without
All-without P name [] h = tt
All-without P name (e ∷ es) h = elim (Bool-cases (same e.db_name name)) [
  | inl k ↦ rw k (All-without P name es h.1)
  | inr k ↦ rw k (h.0, All-without P name es h.1)
]

length-without :
    (name : List ℕ) (es : List AuthEntry)
    → length (key_file (without name es)) ≤ length (key_file es)
unfolding without
length-without name [] = omega arith
length-without name (e ∷ es) = elim (Bool-cases (same e.db_name name)) [
  | inl h ↦ rw h (omega (arith, length-append (line_of e) (key_file es), length-without name es))
  | inr h ↦ rw h (
      omega (
        arith,
        length-append (line_of e) (key_file es),
        length-append (line_of e) (key_file (without name es)),
        length-without name es,
      ))
]

key_file-append :
    (es : List AuthEntry) (e : AuthEntry) → key_file (es ++ (e ∷ [])) ≡ key_file es ++ line_of e
key_file-append [] e = append-nil (line_of e)
key_file-append (d ∷ es) e =
    ap (λ l. line_of d ++ l) (key_file-append es e)
    ∙ sym (append_assoc (line_of d) (key_file es) (line_of e))

-- Where every file operation succeeds and the disk has room, saving a key turns the key file of some
-- entries into that of the entries of other names, in their order, and the new one behind them; these
-- can all be written to a line each, as the old ones can.
pub save_api_key_refines :
    (host : KeyHost) (es : List AuthEntry) (e : AuthEntry)
    → host.opens_tmp ≡ true
    → host.renames ≡ true
    → host.opens_keys ≡ true
    → All IsEntry es
    → IsEntry e
    → length (key_file es) + length (line_of e) ≤ host.room
    → (save_api_key host e.db_name e.api_key (some (key_file es))
        ≡ some (key_file (without e.db_name es ++ (e ∷ []))))
      × All IsEntry (without e.db_name es ++ (e ∷ []))
unfolding grown file_lines prune_api_key save_api_key
save_api_key_refines host es e opens_tmp renames opens_keys entries entry room = (
  rw (save_api_key, opens_keys, pruned)
      (ap some (
        take-length host.room (key_file others ++ line_of e)
          (omega (arith, fits, length-append (key_file others) (line_of e)))
        ∙ sym (key_file-append others e))),
  All-append IsEntry others (e ∷ []) (All-without IsEntry e.db_name es entries) (entry, tt),
)
  where
    others : List AuthEntry
    others = without e.db_name es

    fits : length (key_file others) ≤ length (key_file es)
    fits = length-without e.db_name es

    pruned : prune_api_key host e.db_name (some (key_file es)) ≡ some (key_file others)
    pruned =
        rw (prune_api_key, opens_tmp, renames)
          (ap (λ l. some (take host.room (other_lines e.db_name l)))
              (lines-key_file (length (key_file es)) es (omega arith) entries)
            ∙ ap (λ l. some (take host.room l))
                (other_lines_lem e.db_name es entry.name_plain entries)
            ∙ ap some (take-length host.room (key_file others) (omega (arith, fits))))

-- What loading a key file gives, and to whom it opens.
pub load_auth_cache_lem :
    (es old : List AuthEntry)
    → All IsEntry es
    → load_auth_cache (some (key_file es)) old ≡ take 128 es
unfolding load_auth_cache file_lines
load_auth_cache_lem es old entries =
    ap (auth_entries 128) (lines-key_file (length (key_file es)) es (omega arith) entries)
    ∙ auth_entries_lem 128 es entries
