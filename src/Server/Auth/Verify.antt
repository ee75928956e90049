-- ===== src/Server/Auth/Verify.antt =====
-- src/api-key-generate.c and src/server.c: whom a saved key lets in.
use vecdb.Prelude.{
  ℕ, zero, suc, ◌+◌, ◌*◌, ◌/◌, ◌%◌, ◌≤◌, ◌<◌, ◌≡◌, refl, sym, ap, ◌∙◌, subst, arith, List, [], ◌∷◌,
  ◌++◌,
}
use vecdb.Prelude.{
  Option, none, some, Bool-cases, true, false, ◌&&◌, if◌then◌else◌, ◌==◌, ltb, inl, inr, ◌⊎◌, ap₂,
  ==_refl,
}
use vecdb.Prelude.{length, length-append, take, All, take-append_less, take-length}
use mathlib.Core.Option.{some-injective}
use vecdb.Db.Name.{IsNameChar, validate_db_name, validate_db_name_iff}
use vecdb.Server.Text.{same}
use vecdb.Server.Keys.{hex_digit, hex, generate_api_key, KeyHost, save_api_key}
use vecdb.Server.Auth.{AuthEntry, load_auth_cache, verify_api_key}
use vecdb.Server.Auth.Lines.{IsPlain, IsEntry, line_of, key_file, without, All-imp}
use vecdb.Server.Auth.Refinement.{save_api_key_refines, load_auth_cache_lem}

name_char-IsPlain : (c : ℕ) → IsNameChar c → IsPlain c
name_char-IsPlain c (inl h) = omega arith
name_char-IsPlain c h = ground arith

hex_digit-IsPlain : (d : ℕ) → d < 16 → IsPlain (hex_digit d)
unfolding hex_digit
hex_digit-IsPlain d h = elim (Bool-cases (ltb d 10)) [
  | inl k ↦ rw k (ground arith)
  | inr k ↦ rw k (ground arith)
]

hex-IsPlain :
    (bytes : List ℕ)
    → All (λ b. b < 256) bytes
    → (All IsPlain (hex bytes)) × (length (hex bytes) ≡ 2 * length bytes)
unfolding hex
hex-IsPlain [] h = (tt, refl)
hex-IsPlain (b ∷ bytes) h =
    let rest = hex-IsPlain bytes h.1 in
    (
      (
        hex_digit-IsPlain (b / 16) (omega (arith, h.0)),
        (hex_digit-IsPlain (b % 16) (omega arith), rest.0),
      ),
      omega (arith, rest.1),
    )

generated-IsEntry :
    (db_name rand_bytes api_key : List ℕ)
    → validate_db_name (some db_name) ≡ true
    → All (λ b. b < 256) rand_bytes
    → generate_api_key (some rand_bytes) ≡ some api_key
    → IsEntry (record { db_name = db_name; api_key = api_key })
unfolding generate_api_key
generated-IsEntry db_name rand_bytes api_key valid bytes generated =
    by_length (Bool-cases (length rand_bytes == 32))
  where
    name : (1 ≤ length db_name) × (length db_name ≤ 64) × All IsNameChar db_name
    name = (validate_db_name_iff db_name).0 valid

    with_key :
        hex rand_bytes ≡ api_key
        → length rand_bytes ≡ 32
        → IsEntry (record { db_name = db_name; api_key = api_key })
    with_key e n = record {
      name_plain = All-imp name_char-IsPlain db_name name.2;
      name_fits = name.1;
      key_plain = subst (All IsPlain) e (hex-IsPlain rand_bytes bytes).0;
      key_fits = omega (arith, ap length e, (hex-IsPlain rand_bytes bytes).1, n);
    }

    no_key : ◌≡◌ {A = Option (List ℕ)} none (some api_key) → ⊥
    no_key e = cc

    by_length :
        ((length rand_bytes == 32) ≡ true) ⊎ ((length rand_bytes == 32) ≡ false)
        → IsEntry (record { db_name = db_name; api_key = api_key })
    by_length (inl h) =
        with_key (some-injective (hex rand_bytes) api_key (rw h at generated)) (ground arith)
    by_length (inr h) = absurd (no_key (rw h at generated))

pub same_refl : (xs : List ℕ) → same xs xs ≡ true
unfolding same
same_refl [] = refl
same_refl (x ∷ xs) = rw (==_refl x) (same_refl xs)

pub same→≡ : (xs ys : List ℕ) → same xs ys ≡ true → xs ≡ ys
unfolding same
same→≡ [] [] h = refl
same→≡ [] (y ∷ ys) h = cc
same→≡ (x ∷ xs) [] h = cc
same→≡ (x ∷ xs) (y ∷ ys) h = ap₂ (λ a l. a ∷ l) (ground arith) (same→≡ xs ys (ground arith))

-- The entry that stands last is the only one of its name.
verify_last :
    (e : AuthEntry) (m provided : List ℕ) (es : List AuthEntry)
    → verify_api_key (without e.db_name es ++ (e ∷ [])) m provided
      ≡ (if same e.db_name m then same e.api_key provided else verify_api_key es m provided)
unfolding verify_api_key without
verify_last e m provided [] = refl
verify_last e m provided (d ∷ es) = elim (Bool-cases (same d.db_name e.db_name)) [
  | inl h ↦ (elim (Bool-cases (same e.db_name m)) [
    | inl k ↦ rw h (verify_last e m provided es ∙ rw k refl)
    | inr k ↦ rw h (
        verify_last e m provided es
        ∙ rw (k, ap (λ l. same l m) (same→≡ d.db_name e.db_name h) ∙ k) refl)
  ])
  | inr h ↦ (elim (Bool-cases (same d.db_name m)) [
    | inl k ↦ rw (h, k, not_both h k) refl
    | inr k ↦ rw (h, k) (verify_last e m provided es)
  ])
]
  where
    not_both : same d.db_name e.db_name ≡ false → same d.db_name m ≡ true → same e.db_name m ≡ false
    not_both h k = elim (Bool-cases (same e.db_name m)) [
      | inl l ↦ absurd (
          cc (
            h,
            ap (λ n. same d.db_name n) (same→≡ d.db_name m k ∙ sym (same→≡ e.db_name m l)),
            same_refl d.db_name,
          ))
      | inr l ↦ l
    ]

verify_none :
    (name provided : List ℕ) (n : ℕ) (es : List AuthEntry)
    → verify_api_key (take n (without name es)) name provided ≡ false
unfolding verify_api_key without
verify_none name provided zero es = refl
verify_none name provided (suc n) [] = refl
verify_none name provided (suc n) (d ∷ es) = elim (Bool-cases (same d.db_name name)) [
  | inl h ↦ rw h (verify_none name provided (suc n) es)
  | inr h ↦ rw (h, h) (verify_none name provided n es)
]

length_entries-without :
    (name : List ℕ) (es : List AuthEntry) → length (without name es) ≤ length es
unfolding without
length_entries-without name [] = omega arith
length_entries-without name (e ∷ es) = elim (Bool-cases (same e.db_name name)) [
  | inl h ↦ rw h (omega (arith, length_entries-without name es))
  | inr h ↦ rw h (omega (arith, length_entries-without name es))
]

module _ (host : KeyHost) (es old : List AuthEntry) (db_name rand_bytes api_key : List ℕ)
    (opens_tmp : host.opens_tmp ≡ true) (renames : host.renames ≡ true)
    (opens_keys : host.opens_keys ≡ true) (entries : All IsEntry es)
    (valid : validate_db_name (some db_name) ≡ true) (bytes : All (λ b. b < 256) rand_bytes)
    (generated : generate_api_key (some rand_bytes) ≡ some api_key)
    (room : length (key_file es)
        + length (line_of (record { db_name = db_name; api_key = api_key }))
      ≤ host.room) where
  abbrev new : AuthEntry
  new = record { db_name = db_name; api_key = api_key }

  abbrev others : List AuthEntry
  others = without db_name es

  loaded :
      load_auth_cache (save_api_key host db_name api_key (some (key_file es))) old
      ≡ take 128 (without db_name es ++ (new ∷ []))
  loaded =
      let saved =
        save_api_key_refines host es new opens_tmp renames opens_keys entries
          (generated-IsEntry db_name rand_bytes api_key valid bytes generated) room in
      ap (λ f. load_auth_cache f old) saved.0
      ∙ load_auth_cache_lem (without db_name es ++ (new ∷ [])) old saved.1

  -- A key that is generated for a valid name and saved beside the entries of a key file, where every
  -- file operation succeeds and the disk has room, and then loaded: the name is let in with that key
  -- and no other, provided that fewer than 128 entries are of other names; otherwise with none.
  pub verify_api_key-save_api_key :
      (provided : List ℕ)
      → verify_api_key
          (load_auth_cache (save_api_key host db_name api_key (some (key_file es))) old)
          db_name
          provided
        ≡ (ltb (length (without db_name es)) 128 && same api_key provided)
  verify_api_key-save_api_key provided =
      ap (λ c. verify_api_key c db_name provided) loaded
      ∙ (elim (Bool-cases (ltb (length others) 128)) [
        | inl h ↦ rw h (
            ap (λ l. verify_api_key l db_name provided)
              (take-length 128 (others ++ (new ∷ []))
                (ground (arith, length-append others (new ∷ []))))
            ∙ verify_last new db_name provided es
            ∙ rw (same_refl db_name) refl)
        | inr h ↦ rw h (
            ap (λ l. verify_api_key l db_name provided)
              (take-append_less 128 others (new ∷ []) (ground arith))
            ∙ verify_none db_name provided 128 es)
      ])

  -- Under the same conditions, in a file of fewer than 128 entries: what lets another name in stays
  -- as it was.
  pub verify_api_key-save_api_key_other :
      (m provided : List ℕ)
      → same db_name m ≡ false
      → length es < 128
      → verify_api_key
          (load_auth_cache (save_api_key host db_name api_key (some (key_file es))) old)
          m
          provided
        ≡ verify_api_key (load_auth_cache (some (key_file es)) old) m provided
  verify_api_key-save_api_key_other m provided other few =
      ap (λ c. verify_api_key c m provided) loaded
      ∙ ap (λ l. verify_api_key l m provided)
          (take-length 128 (others ++ (new ∷ []))
            (omega (arith, length-append others (new ∷ []), length_entries-without db_name es)))
      ∙ verify_last new m provided es
      ∙ rw other refl
      ∙ ap (λ l. verify_api_key l m provided)
          (sym (load_auth_cache_lem es old entries ∙ take-length 128 es (omega arith)))
