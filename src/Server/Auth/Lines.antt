-- ===== src/Server/Auth/Lines.antt =====
-- src/api-key-generate.c and src/server.c: the lines of a key file and the entries in them.
use vecdb.Prelude.{
  ℕ, zero, suc, ◌≤◌, ◌<◌, ◌≡◌, ◌≢◌, refl, sym, ap, ap₂, ◌∙◌, subst, arith, List, [], ◌∷◌, ◌++◌,
}
use vecdb.Prelude.{some, Bool, Bool-cases, true, false, ◌&&◌, ◌||◌, if◌then◌else◌, ◌==◌, inl, inr}
use vecdb.Prelude.{
  length, take, map, concat, length-append, append_assoc, All, All-append, take-length,
}
use vecdb.Prelude.{ne→==}
use vecdb.Server.Text.{same, cut_at, find_from, text_of}
use vecdb.Server.Keys.{fgets, lines, names, other_lines, key_line}
use vecdb.Server.Auth.{AuthEntry, line_text, auth_entry, auth_entries}

-- A byte that ends neither a line nor a string nor a name.
abbrev pub IsPlain : ℕ → Type 0
IsPlain c = (c ≢ 0) × (c ≢ 10) × (c ≢ 13) × (c ≢ 58)

-- An entry that its line can hold.
pub record IsEntry (e : AuthEntry) : Type 0 where
  pub name_plain : All IsPlain e.db_name
  pub name_fits : length e.db_name ≤ 64
  pub key_plain : All IsPlain e.api_key
  pub key_fits : length e.api_key ≤ 64

abbrev pub line_of : AuthEntry → List ℕ
line_of e = key_line e.db_name e.api_key

-- The key file with these entries.
abbrev pub key_file : List AuthEntry → List ℕ
key_file es = concat (map line_of es)

-- The entries of other names.
unfoldable pub without : List ℕ → List AuthEntry → List AuthEntry
without name [] = []
without name (e ∷ es) = let rest = without name es in if same e.db_name name then rest else e ∷ rest

fgets_lem :
    (n : ℕ) (text rest : List ℕ)
    → All (λ c. c ≢ 10) text
    → length text < n
    → fgets n (text ++ (10 ∷ rest)) ≡ (text ++ (10 ∷ []), rest)
unfolding fgets
fgets_lem zero text rest plain fits = absurd (omega arith)
fgets_lem (suc n) [] rest plain fits = refl
fgets_lem (suc n) (c ∷ text) rest plain fits =
    rw (ne→== c 10 plain.0, fgets_lem n text rest plain.1 (omega arith)) refl

lines_lem :
    (n : ℕ) (bytes : List ℕ)
    → 0 < length bytes
    → lines (suc n) bytes ≡ (fgets 255 bytes).0 ∷ lines n (fgets 255 bytes).1
unfolding lines
lines_lem n [] some_bytes = absurd (omega arith)
lines_lem n (c ∷ bytes) some_bytes = refl

cut_at_lem :
    (stops : ℕ → Bool) (text : List ℕ) (c : ℕ) (rest : List ℕ)
    → All (λ b. stops b ≡ false) text
    → stops c ≡ true
    → (cut_at stops (text ++ (c ∷ rest)) ≡ text)
      × (find_from stops (text ++ (c ∷ rest)) ≡ some (c ∷ rest))
unfolding cut_at find_from
cut_at_lem stops [] c rest through stop = (rw stop refl, rw stop refl)
cut_at_lem stops (b ∷ text) c rest through stop =
    let tail = cut_at_lem stops text c rest through.1 stop in
    (rw through.0 (ap (λ l. b ∷ l) tail.0), rw through.0 tail.1)

cut_at-All :
    (stops : ℕ → Bool) (text : List ℕ) → All (λ b. stops b ≡ false) text → cut_at stops text ≡ text
unfolding cut_at
cut_at-All stops [] through = refl
cut_at-All stops (b ∷ text) through =
    rw through.0 (ap (λ l. b ∷ l) (cut_at-All stops text through.1))

pub All-imp : {P Q : ℕ → Type 0} → ((c : ℕ) → P c → Q c) → (cs : List ℕ) → All P cs → All Q cs
All-imp f [] h = tt
All-imp f (c ∷ cs) h = (f c h.0, All-imp f cs h.1)

-- What a line says, without its end.
abbrev body : AuthEntry → List ℕ
body e = e.db_name ++ (58 ∷ e.api_key)

line_of-body : (e : AuthEntry) (rest : List ℕ) → line_of e ++ rest ≡ body e ++ (10 ∷ rest)
line_of-body e rest =
    append_assoc e.db_name (58 ∷ (e.api_key ++ (10 ∷ []))) rest
    ∙ ap (λ l. e.db_name ++ (58 ∷ l)) (append_assoc e.api_key (10 ∷ []) rest)
    ∙ sym (append_assoc e.db_name (58 ∷ e.api_key) (10 ∷ rest))

body-All :
    (P : ℕ → Type 0) (e : AuthEntry)
    → IsEntry e
    → ((c : ℕ) → IsPlain c → P c)
    → P 58
    → All P (body e)
body-All P e entry plain colon =
    All-append P e.db_name (58 ∷ e.api_key) (All-imp plain e.db_name entry.name_plain)
      (colon, All-imp plain e.api_key entry.key_plain)

length-body : (e : AuthEntry) → IsEntry e → length (body e) ≤ 129
length-body e entry =
    omega (arith, length-append e.db_name (58 ∷ e.api_key), entry.name_fits, entry.key_fits)

some_line : (e : AuthEntry) (rest : List ℕ) → 0 < length (line_of e ++ rest)
some_line e rest = rw (line_of-body e rest) (omega (arith, length-append (body e) (10 ∷ rest)))

-- The lines of a key file are those of its entries.
pub lines-key_file :
    (n : ℕ) (es : List AuthEntry)
    → length (key_file es) ≤ n
    → All IsEntry es
    → lines n (key_file es) ≡ map line_of es
unfolding lines
lines-key_file zero [] enough entries = refl
lines-key_file (suc n) [] enough entries = refl
lines-key_file zero (e ∷ es) enough entries = absurd (omega (arith, some_line e (key_file es)))
lines-key_file (suc n) (e ∷ es) enough entries =
    lines_lem n (key_file (e ∷ es)) (some_line e (key_file es))
    ∙ ap (λ p. p.0 ∷ lines n p.1) first
    ∙ ap (λ l. line_of e ∷ l) (lines-key_file n es fits entries.1)
  where
    first : fgets 255 (key_file (e ∷ es)) ≡ (line_of e, key_file es)
    first = rw (line_of-body e (key_file es)) (
        fgets_lem 255 (body e) (key_file es)
          (body-All (λ c. c ≢ 10) e entries.0 (λ c h. h.1) (omega arith))
          (omega (arith, length-body e entries.0))
        ∙ ap (λ l. (l, key_file es)) (append_assoc e.db_name (58 ∷ e.api_key) (10 ∷ [])))

    fits : length (key_file es) ≤ n
    fits = omega (
      arith,
      enough,
      ap length (line_of-body e (key_file es)),
      length-append (body e) (10 ∷ key_file es),
    )

==_comm : (b c : ℕ) → (b == c) ≡ (c == b)
==_comm b c = ground arith

names_lem :
    (name db_name rest : List ℕ)
    → All IsPlain db_name
    → All IsPlain name
    → names name (db_name ++ (58 ∷ rest)) ≡ same db_name name
unfolding names same
names_lem [] [] rest plain plain_name = refl
names_lem [] (c ∷ db_name) rest plain plain_name = ne→== c 58 plain.0.3
names_lem (b ∷ name) [] rest plain plain_name = rw (ne→== b 58 plain_name.0.3) refl
names_lem (b ∷ name) (c ∷ db_name) rest plain plain_name =
    λ i. ==_comm b c i && names_lem name db_name rest plain.1 plain_name.1 i

-- Dropping the lines of a name drops its entries.
pub other_lines_lem :
    (name : List ℕ) (es : List AuthEntry)
    → All IsPlain name
    → All IsEntry es
    → other_lines name (map line_of es) ≡ key_file (without name es)
unfolding other_lines without
other_lines_lem name [] plain entries = refl
other_lines_lem name (e ∷ es) plain entries = elim (Bool-cases (same e.db_name name)) [
  | inl h ↦ rw (named, h) (other_lines_lem name es plain entries.1)
  | inr h ↦ rw (named, h) (ap₂ (λ a b. a ++ b) whole (other_lines_lem name es plain entries.1))
]
  where
    named : names name (line_of e) ≡ same e.db_name name
    named = names_lem name e.db_name (e.api_key ++ (10 ∷ [])) entries.0.name_plain plain

    whole : text_of (line_of e) ≡ line_of e
    whole =
        subst (λ l. text_of l ≡ l) (append_assoc e.db_name (58 ∷ e.api_key) (10 ∷ []))
          (cut_at-All (λ c. c == 0) (body e ++ (10 ∷ []))
            (All-append (λ c. (c == 0) ≡ false) (body e) (10 ∷ [])
              (body-All (λ c. (c == 0) ≡ false) e entries.0 (λ c h. ne→== c 0 h.0) refl)
              (refl, tt)))

line_text_lem : (e : AuthEntry) → IsEntry e → line_text (line_of e) ≡ body e
unfolding line_text
line_text_lem e entry =
    ap line_text (sym (append_assoc e.db_name (58 ∷ e.api_key) (10 ∷ [])))
    ∙ (cut_at_lem (λ c. c == 0 || c == 13 || c == 10) (body e) 10 []
        (body-All (λ c. (c == 0 || c == 13 || c == 10) ≡ false) e entry (λ c h. ground arith) refl)
        refl).0

-- The line of an entry is read back as that entry.
auth_entry_lem : (e : AuthEntry) → IsEntry e → auth_entry (line_of e) ≡ some e
unfolding auth_entry
auth_entry_lem e entry =
    rw (auth_entry, line_text_lem e entry, colon.1, line_text_lem e entry, colon.0)
      (λ i. some (record {
        db_name = take-length 64 e.db_name entry.name_fits i;
        api_key = take-length 64 e.api_key entry.key_fits i;
      }))
  where
    colon :
        (cut_at (λ c. c == 58) (body e) ≡ e.db_name)
        × (find_from (λ c. c == 58) (body e) ≡ some (58 ∷ e.api_key))
    colon =
        cut_at_lem (λ c. c == 58) e.db_name 58 e.api_key
          (All-imp (λ c h. ne→== c 58 h.3) e.db_name entry.name_plain) refl

pub auth_entries_lem :
    (room : ℕ) (es : List AuthEntry)
    → All IsEntry es
    → auth_entries room (map line_of es) ≡ take room es
unfolding auth_entries
auth_entries_lem zero es entries = refl
auth_entries_lem (suc room) [] entries = refl
auth_entries_lem (suc room) (e ∷ es) entries =
    rw (auth_entries, auth_entry_lem e entries.0)
      (ap (λ l. e ∷ l) (auth_entries_lem room es entries.1))
