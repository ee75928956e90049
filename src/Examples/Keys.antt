-- ===== src/Examples/Keys.antt =====
-- Runs of src/api-key-generate.c and of the keys in src/server.c, and their theorems at concrete inputs.
use vecdb.Prelude.{ℕ, ◌+◌, ◌≤◌, ◌<◌, ◌≡◌, refl, arith, List, [], ◌∷◌, ◌++◌, some, true, false}
use vecdb.Prelude.{ltb, ◌&&◌, length, All, replicate, All-replicate}
use vecdb.Db.Name.{validate_db_name}
use vecdb.Server.Text.{codes, same}
use vecdb.Server.Keys.{KeyHost, hex, generate_api_key, save_api_key}
use vecdb.Server.Auth.{AuthEntry, load_auth_cache, verify_api_key}
use vecdb.Server.Auth.Lines.{IsPlain, IsEntry, line_of, key_file, without}
use vecdb.Server.Auth.Refinement.{save_api_key_refines}
use vecdb.Server.Auth.Verify.{verify_api_key-save_api_key, verify_api_key-save_api_key_other}

abbrev key_host : KeyHost
key_host = record { opens_tmp = true; renames = true; opens_keys = true; room = 4096 }

abbrev entry : List ℕ → List ℕ → AuthEntry
entry db_name api_key = record { db_name = db_name; api_key = api_key }

abbrev old_entries : List AuthEntry
old_entries = entry (codes "a") (codes "x") ∷ entry (codes "b") (codes "y") ∷ []

one-IsEntry : (n k : ℕ) → IsPlain n → IsPlain k → IsEntry (entry (n ∷ []) (k ∷ []))
one-IsEntry n k h h' = record {
  name_plain = (h, tt);
  name_fits = omega arith;
  key_plain = (h', tt);
  key_fits = omega arith;
}

old_entries-IsEntry : All IsEntry old_entries
old_entries-IsEntry = (
  one-IsEntry b'a' b'x' (omega arith) (omega arith),
  (one-IsEntry b'b' b'y' (omega arith) (omega arith), tt),
)

save_api_key_refines_example :
    (save_api_key key_host (codes "a") (codes "z") (some (key_file old_entries))
      ≡ some (key_file (without (codes "a") old_entries ++ (entry (codes "a") (codes "z") ∷ []))))
    × All IsEntry (without (codes "a") old_entries ++ (entry (codes "a") (codes "z") ∷ []))
save_api_key_refines_example =
    save_api_key_refines key_host old_entries (entry (codes "a") (codes "z")) refl refl refl
      old_entries-IsEntry (one-IsEntry b'a' b'z' (omega arith) (omega arith)) (omega arith)

abbrev random_bytes : List ℕ
random_bytes = replicate 32 171

random_bytes-All : All (λ b. b < 256) random_bytes
random_bytes-All = All-replicate (λ b. b < 256) 32 171 (omega arith)

abbrev key_of_bytes : List ℕ
key_of_bytes = hex random_bytes

a_name-valid : validate_db_name (some (codes "a")) ≡ true
unfolding validate_db_name
a_name-valid = refl

key-generated : generate_api_key (some random_bytes) ≡ some key_of_bytes
unfolding generate_api_key
key-generated = refl

key_room : length (key_file old_entries) + length (line_of (entry (codes "a") key_of_bytes)) ≤ 4096
unfolding hex
key_room = omega arith

verify_api_key-save_api_key_example :
    verify_api_key
      (load_auth_cache
        (save_api_key key_host (codes "a") key_of_bytes (some (key_file old_entries)))
        [])
      (codes "a")
      (codes "x")
    ≡ (ltb (length (without (codes "a") old_entries)) 128 && same key_of_bytes (codes "x"))
verify_api_key-save_api_key_example =
    verify_api_key-save_api_key key_host old_entries [] (codes "a") random_bytes key_of_bytes refl
      refl refl old_entries-IsEntry a_name-valid random_bytes-All key-generated key_room (codes "x")

a_b-same : same (codes "a") (codes "b") ≡ false
unfolding same
a_b-same = refl

verify_api_key-save_api_key_other_example :
    verify_api_key
      (load_auth_cache
        (save_api_key key_host (codes "a") key_of_bytes (some (key_file old_entries)))
        [])
      (codes "b")
      (codes "y")
    ≡ verify_api_key (load_auth_cache (some (key_file old_entries)) []) (codes "b") (codes "y")
verify_api_key-save_api_key_other_example =
    verify_api_key-save_api_key_other key_host old_entries [] (codes "a") random_bytes key_of_bytes
      refl refl refl old_entries-IsEntry a_name-valid random_bytes-All key-generated key_room
      (codes "b") (codes "y") a_b-same (omega arith)
