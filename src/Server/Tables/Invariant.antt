-- ===== src/Server/Tables/Invariant.antt =====
-- src/server.c: what holds of the open tables at all times.
use vecdb.Prelude.{
  ℕ, suc, ◌+◌, ◌≤◌, ◌<◌, ◌≡◌, refl, sym, ap, ◌∙◌, subst, arith, List, [], ◌∷◌, ◌++◌, Option, none,
  some,
}
use vecdb.Prelude.{
  Bool, Bool-cases, true, false, if◌then◌else◌, leb, ltb, drop, inl, inr, length, length-append,
  length-map, map, take, take-length, All, All-append, get_elem?,
}
use vecdb.Floats.{Floats}
use vecdb.Pending.{Sorting}
use vecdb.Db.Types.{FlatDb}
use mathlib.Core.Option.{some-injective}
use vecdb.Db.Name.{validate_db_name, validate_db_name_iff}
use vecdb.Db.Init.{TableFiles, Host, Opened, refused, opened, faulted, unfinished, db_init, db_open}
use vecdb.Prelude.Bytes.{u64_at, decode_le}
use vecdb.Server.Text.{same}
use vecdb.Server.Auth.Verify.{same→≡}
use vecdb.Server.Tables.{
  OpenTable, State, find_table, Got, table, no_table, undefined, running, new_table,
  get_or_open_table, put_folder,
}

abbrev pub names_of : List OpenTable → List (List ℕ)
names_of ts = map (λ t. t.name) ts

-- No name is there twice.
unfoldable pub Distinct : List (List ℕ) → Type 0
Distinct [] = Unit
Distinct (n ∷ more) = All (λ m. same n m ≡ false) more × Distinct more

unfoldable pub IsNames : List (List ℕ) → Type 0
IsNames ns = (length ns ≤ 32) × Distinct ns × All (λ n. validate_db_name (some n) ≡ true) ns

unfoldable pub IsTables : List OpenTable → Type 0
IsTables ts = IsNames (names_of ts)

-- The place that is found holds a table of that name.
find_table-some :
    (ts : List OpenTable) (db_name : List ℕ) (j i : ℕ) (t : OpenTable)
    → find_table ts db_name j ≡ some (i, t)
    → (k : ℕ) × (i ≡ j + k) × (get_elem? ts k ≡ some t) × (t.name ≡ db_name)
unfolding find_table
find_table-some [] db_name j i t h = cc
find_table-some (u ∷ ts) db_name j i t h =
    by_test (same u.name db_name) refl h (find_table-some ts db_name (j + 1) i t)
  where
    by_test :
        (b : Bool)
        → same u.name db_name ≡ b
        → (if b then some (j, u) else find_table ts db_name (j + 1)) ≡ some (i, t)
        → (find_table ts db_name (j + 1) ≡ some (i, t)
            → (k : ℕ) × (i ≡ j + 1 + k) × (get_elem? ts k ≡ some t) × (t.name ≡ db_name))
        → (k : ℕ) × (i ≡ j + k) × (get_elem? (u ∷ ts) k ≡ some t) × (t.name ≡ db_name)
    by_test true e found tail =
        let p = some-injective (j, u) (i, t) found in
        (
          0,
          omega (arith, ap (λ q. q.0) p),
          ap (λ q. some q.1) p,
          sym (ap (λ q. q.1.name) p) ∙ same→≡ u.name db_name e,
        )
    by_test false e found tail =
        let rest = tail found in (suc rest.0, omega (arith, rest.1), rest.2, rest.3)

find_table-none :
    (ts : List OpenTable) (db_name : List ℕ) (j : ℕ)
    → find_table ts db_name j ≡ none
    → All (λ n. same n db_name ≡ false) (names_of ts)
unfolding find_table
find_table-none [] db_name j h = tt
find_table-none (u ∷ ts) db_name j h =
    by_test (same u.name db_name) refl h (find_table-none ts db_name (j + 1))
  where
    by_test :
        (b : Bool)
        → same u.name db_name ≡ b
        → (if b then some (j, u) else find_table ts db_name (j + 1)) ≡ none
        → (find_table ts db_name (j + 1) ≡ none → All (λ n. same n db_name ≡ false) (names_of ts))
        → All (λ n. same n db_name ≡ false) (names_of (u ∷ ts))
    by_test true e found tail = cc
    by_test false e found tail = (e, tail found)

pub db_open-valid :
    (F : Floats) (libc : Sorting) (host : Host) (fuel : ℕ) (db_name : List ℕ)
    (files after : TableFiles) (db : FlatDb)
    → db_open F libc host fuel (some db_name) files ≡ opened db after
    → validate_db_name (some db_name) ≡ true
unfolding db_open
db_open-valid F libc host fuel db_name files after db h =
    by_test (validate_db_name (some db_name)) h
  where
    by_test :
        (b : Bool)
        → (if b
            then (elim files.meta_bin as (λ x. Opened) [
              | none ↦ refused
              | some bytes ↦
                  if ltb (length bytes) 12
                  then refused
                  else db_init F libc host fuel
                      (some db_name)
                      (u64_at bytes)
                      10
                      (decode_le (take 4 (drop 8 bytes)))
                      files
            ])
            else refused)
          ≡ opened db after
        → b ≡ true
    by_test true e = refl
    by_test false e = cc

append-Distinct :
    (ns : List (List ℕ)) (n : List ℕ)
    → Distinct ns
    → All (λ m. same m n ≡ false) ns
    → Distinct (ns ++ (n ∷ []))
unfolding Distinct
append-Distinct [] n d others = (tt, tt)
append-Distinct (m ∷ ns) n d others = (
  All-append (λ k. same m k ≡ false) ns (n ∷ []) d.0 (others.0, tt),
  append-Distinct ns n d.1 others.1,
)

pub names_of-append : (ts us : List OpenTable) → names_of (ts ++ us) ≡ names_of ts ++ names_of us
names_of-append [] us = refl
names_of-append (t ∷ ts) us = ap (λ l. t.name ∷ l) (names_of-append ts us)

get_elem?-append :
    (ts : List OpenTable) (t : OpenTable) → get_elem? (ts ++ (t ∷ [])) (length ts) ≡ some t
get_elem?-append [] t = refl
get_elem?-append (u ∷ ts) t = get_elem?-append ts t

-- The table that a request is given.
unfoldable pub GivesTable : List ℕ → Got → Type 0
GivesTable db_name no_table = Unit
GivesTable db_name undefined = Unit
GivesTable db_name running = Unit
GivesTable db_name (table i t st) =
    IsTables st.open_tables × (get_elem? st.open_tables i ≡ some t) × (t.name ≡ db_name)

-- The open tables are at most 32, no two have the same name, and every name is valid: a request keeps
-- it so, and where it is given a table, that is the one in its place of the array and has the
-- name asked for.
pub get_or_open_table-IsTables :
    (F : Floats) (libc : Sorting) (host : Host) (fuel : ℕ) (st : State) (db_name : List ℕ)
    → IsTables st.open_tables
    → GivesTable db_name (get_or_open_table F libc host fuel st db_name)
unfolding GivesTable IsTables IsNames new_table get_or_open_table
get_or_open_table-IsTables F libc host fuel st db_name ok =
    by_place (find_table st.open_tables db_name 0) refl
  where
    given :
        {g : Got}
        → get_or_open_table F libc host fuel st db_name ≡ g
        → GivesTable db_name g
        → GivesTable db_name (get_or_open_table F libc host fuel st db_name)
    given e h = subst (GivesTable db_name) (sym e) h

    with_table : FlatDb → TableFiles → State
    with_table db after =
        put_folder db_name (record (st.folder db_name) { table = after })
          (record st { open_tables = st.open_tables ++ (new_table db_name db ∷ []) })

    first_opened :
        (db : FlatDb) (after : TableFiles)
        → db_open F libc host fuel (some db_name) (st.folder db_name).table ≡ opened db after
        → find_table st.open_tables db_name 0 ≡ none
        → length st.open_tables < 32
        → IsTables (st.open_tables ++ (new_table db_name db ∷ []))
          × (get_elem? (st.open_tables ++ (new_table db_name db ∷ [])) (length st.open_tables)
              ≡ some (new_table db_name db))
          × ((new_table db_name db).name ≡ db_name)
    first_opened db after e absent room = (
      subst IsNames (sym (names_of-append st.open_tables (new ∷ []))) (
        omega (
          arith,
          length-append (names_of st.open_tables) (new.name ∷ []),
          length-map st.open_tables (λ t. t.name),
        ),
        append-Distinct (names_of st.open_tables) new.name ok.1 (
            subst (λ n. All (λ m. same m n ≡ false) (names_of st.open_tables)) (sym kept)
              (find_table-none st.open_tables db_name 0 absent)),
        All-append (λ n. validate_db_name (some n) ≡ true) (names_of st.open_tables) (new.name ∷ [])
            ok.2 (ap (λ n. validate_db_name (some n)) kept ∙ valid, tt),
      ),
      get_elem?-append st.open_tables new,
      kept,
    )
      where
        new : OpenTable
        new = new_table db_name db

        valid : validate_db_name (some db_name) ≡ true
        valid = db_open-valid F libc host fuel db_name (st.folder db_name).table after db e

        kept : take 64 db_name ≡ db_name
        kept = take-length 64 db_name (((validate_db_name_iff db_name).0 valid).1)

    by_open :
        (o : Opened)
        → db_open F libc host fuel (some db_name) (st.folder db_name).table ≡ o
        → find_table st.open_tables db_name 0 ≡ none
        → leb 32 (length st.open_tables) ≡ false
        → GivesTable db_name (get_or_open_table F libc host fuel st db_name)
    by_open refused e absent free =
        given {g = no_table} (rw (get_or_open_table, absent, free, e) refl) tt
    by_open faulted e absent free =
        given {g = undefined} (rw (get_or_open_table, absent, free, e) refl) tt
    by_open unfinished e absent free =
        given {g = running} (rw (get_or_open_table, absent, free, e) refl) tt
    by_open (opened db after) e absent free = elim (Bool-cases (host.env.malloc 0x8000)) [
      | inl h ↦
          given {g = table (length st.open_tables) (new_table db_name db) (with_table db after)}
            (rw (get_or_open_table, absent, free, e, h) refl)
            (first_opened db after e absent (ground arith))
      | inr h ↦ given {g = undefined} (rw (get_or_open_table, absent, free, e, h) refl) tt
    ]

    by_place :
        (o : Option (ℕ × OpenTable))
        → find_table st.open_tables db_name 0 ≡ o
        → GivesTable db_name (get_or_open_table F libc host fuel st db_name)
    by_place (some (i, t)) found = given {g = table i t st} (rw (get_or_open_table, found) refl) (
        let at = find_table-some st.open_tables db_name 0 i t found in
        (ok, ap (get_elem? st.open_tables) (omega (arith, at.1)) ∙ at.2, at.3))
    by_place none absent = elim (Bool-cases (leb 32 (length st.open_tables))) [
      | inl full ↦ given {g = no_table} (rw (get_or_open_table, absent, full) refl) tt
      | inr free ↦
          by_open (db_open F libc host fuel (some db_name) (st.folder db_name).table) refl absent
            free
    ]
