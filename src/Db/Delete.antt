-- ===== src/Db/Delete.antt =====
-- src/db.c: what `db_delete` and `storage_patch_flag` leave in memory and in the file.
use native.Mathlib.Nat.{mod-eq_of_lt}
use vecdb.Prelude.{
  ℕ, ◌+◌, ◌%◌, ◌<◌, ◌≡◌, refl, ap, ap₂, sym, ◌∙◌, arith, List, [], ◌∷◌, ◌++◌, All, drop-drop,
}
use vecdb.Prelude.{Bool, true, false, ◌&&◌, ◌||◌, not, ◌==◌, if◌then◌else◌, length, drop, ==_refl}
use vecdb.Prelude.{take-append, drop-append, append_assoc, length-append}
use vecdb.Prelude.Bytes.{u64_mod, u64_bytes, encode_le, length-encode_le}
use vecdb.Storage.Types.{Record}
use vecdb.Storage.Layout.{metadata_length}
use vecdb.Storage.Write.{overwrite, encode_record, status_of}
use vecdb.Storage.Codec.{body, encode_record-append}
use vecdb.Storage.File.{Written}
use vecdb.Db.Types.{FlatDb}
use vecdb.Db.Insert.{present, behind, find_record, storage_patch_flag, delete_at, db_delete}

-- One byte put over another.
overwrite_one :
    (front rest : List ℕ) (old new pos : ℕ)
    → length front ≡ pos
    → overwrite pos (new ∷ []) (front ++ (old ∷ rest)) ≡ front ++ (new ∷ rest)
unfolding overwrite
overwrite_one front rest old new pos e =
    ap₂ (λ a b. (a ++ (new ∷ [])) ++ b) (take-append pos front (old ∷ rest) e)
      (sym (drop-drop 1 pos (pos + 1) (front ++ (old ∷ rest)) refl)
        ∙ ap (drop 1) (drop-append pos front (old ∷ rest) e))
    ∙ append_assoc front (new ∷ []) rest

abbrev zeros : List ℕ
zeros = 0 ∷ 0 ∷ 0 ∷ 0 ∷ 0 ∷ 0 ∷ 0 ∷ []

flags_bytes : (b : Bool) → u64_bytes (if b then 1 else 0) ≡ (if b then 1 else 0) ∷ zeros
unfolding encode_le
flags_bytes true = refl
flags_bytes false = refl

-- A record with its flag.
abbrev pub marked : Bool → Record → Record
marked b r = record r { is_deleted = b }

module _ (dimension : ℕ) (r : Record) (words front rest : List ℕ) where
  -- The record's bytes around the first byte of its flags.
  abbrev tail : List ℕ
  tail = zeros ++ (u64_bytes (metadata_length r.metadata) ++ body dimension r words rest)

  around_flags :
      (b : Bool)
      → front ++ (encode_record dimension (marked b r) words ++ rest)
        ≡ (front ++ u64_bytes r.id) ++ ((if b then 1 else 0) ∷ tail)
  around_flags b =
      ap (λ e. front ++ e)
        (encode_record-append dimension (marked b r) words rest
          ∙ ap
              (λ f.
                u64_bytes r.id
                ++ (f ++ (u64_bytes (metadata_length r.metadata) ++ body dimension r words rest)))
              (flags_bytes b))
      ∙ sym (append_assoc front (u64_bytes r.id) _)

  -- One byte at the offset of the flags makes the record a deleted one.
  pub overwrite-encode_record :
      (pos : ℕ)
      → length front + 8 ≡ pos
      → overwrite pos (1 ∷ []) (front ++ (encode_record dimension (marked false r) words ++ rest))
        ≡ front ++ (encode_record dimension (marked true r) words ++ rest)
  overwrite-encode_record pos at =
      ap (overwrite pos (1 ∷ [])) (around_flags false)
      ∙ overwrite_one (front ++ u64_bytes r.id) tail 0 1 pos
          (omega (arith, length-append front (u64_bytes r.id), length-encode_le 8 r.id))
      ∙ sym (around_flags true)

-- The search passes over records with another id and over deleted ones.
find_record_lem :
    (id : ℕ) (before : List Record) (r : Record) (after : List Record)
    → All (λ x. (x.id == id && not x.is_deleted) ≡ false) before
    → r.id ≡ id
    → r.is_deleted ≡ false
    → find_record id (before ++ (r ∷ after)) ≡ present before r after
unfolding find_record
find_record_lem id [] r after passed same live = ground (arith, same, live, ==_refl id)
find_record_lem id (x ∷ before) r after passed same live =
    rw passed.0 (ap (behind x) (find_record_lem id before r after passed.1 same live))

db_delete_present :
    (seeks opens takes : Bool) (db : FlatDb) (id : ℕ) (before : List Record) (r : Record)
    (after : List Record)
    → db.storage.is_open ≡ true
    → find_record id db.records ≡ present before r after
    → db_delete seeks opens takes db id
      ≡ delete_at seeks opens takes db before r after ((r.byte_offset + 8) % u64_mod)
unfolding db_delete
db_delete_present seeks opens takes db id before r after is_open found =
    ground (arith, is_open, found)

-- What is left at the record that was found, whatever fails.
delete_at_lem :
    (seeks opens takes : Bool) (db : FlatDb) (before : List Record) (r : Record)
    (after : List Record) (flag_offset : ℕ)
    → db.records ≡ before ++ (marked false r ∷ after)
    → (db' : FlatDb) × (delete_at seeks opens takes db before r after flag_offset
        ≡ (status_of (seeks && opens), db'))
      × (db'.records ≡ before ++ (marked (not seeks || opens) r ∷ after))
      × (db'.storage.bytes ≡ (
          if (seeks && opens) && takes
          then overwrite flag_offset (1 ∷ []) db.storage.bytes
          else db.storage.bytes))
unfolding delete_at storage_patch_flag
delete_at_lem true true true db before r after flag_offset e =
    ((delete_at true true true db before r after flag_offset).1, refl, refl, refl)
delete_at_lem true true false db before r after flag_offset e =
    ((delete_at true true false db before r after flag_offset).1, refl, refl, refl)
delete_at_lem true false takes db before r after flag_offset e =
    ((delete_at true false takes db before r after flag_offset).1, refl, e, refl)
delete_at_lem false opens takes db before r after flag_offset e =
    ((delete_at false opens takes db before r after flag_offset).1, refl, refl, refl)

-- A deletion on an open table, whatever fails: it reports success where the stream can be moved and the
-- file opened. The first record with the id that is not deleted is then marked in memory, and also where
-- the stream cannot be moved, though that is reported as a failure; where only the file cannot be opened
-- the records are as before. In the file the record's bytes become those of the same record with the
-- flag set if the disk takes the byte as well, every other byte being kept; else the file is as before.
-- The record's bytes stand at the offset that it notes.
pub db_delete_lem :
    (seeks opens takes : Bool) (db : FlatDb) (id : ℕ) (before after : List Record) (r : Record)
    (w : Written) (front rest : List ℕ)
    → db.storage.is_open ≡ true
    → db.records ≡ before ++ (r ∷ after)
    → All (λ x. (x.id == id && not x.is_deleted) ≡ false) before
    → r.id ≡ id
    → r.is_deleted ≡ false
    → r.byte_offset ≡ length front
    → length front + 8 < u64_mod
    → db.storage.bytes ≡ front ++ (encode_record db.dimension (marked false w.row) w.words ++ rest)
    → (db' : FlatDb) × (db_delete seeks opens takes db id ≡ (status_of (seeks && opens), db'))
      × (db'.records ≡ before ++ (marked (not seeks || opens) r ∷ after))
      × (db'.storage.bytes
          ≡ front
            ++ (encode_record db.dimension (marked ((seeks && opens) && takes) w.row) w.words
                ++ rest))
db_delete_lem seeks opens takes db id before after r w front rest is_open records passed same live
      at small bytes =
    let done =
      delete_at_lem seeks opens takes db before r after flag_offset
        (records ∙ (λ i. before ++ (record r { is_deleted = live i } ∷ after))) in
    (
      done.0,
      db_delete_present seeks opens takes db id before r after is_open found
          ∙ ap (delete_at seeks opens takes db before r after) flag_at
          ∙ done.1,
      done.2,
      done.3 ∙ by_flag ((seeks && opens) && takes),
    )
  where
    flag_offset : ℕ
    flag_offset = length front + 8

    found : find_record id db.records ≡ present before r after
    found = ap (find_record id) records ∙ find_record_lem id before r after passed same live

    flag_at : (r.byte_offset + 8) % u64_mod ≡ flag_offset
    flag_at = ap (λ o. (o + 8) % u64_mod) at ∙ mod-eq_of_lt small

    by_flag :
        (b : Bool)
        → (if b then overwrite flag_offset (1 ∷ []) db.storage.bytes else db.storage.bytes)
          ≡ front ++ (encode_record db.dimension (marked b w.row) w.words ++ rest)
    by_flag true =
        ap (overwrite flag_offset (1 ∷ [])) bytes
        ∙ overwrite-encode_record db.dimension w.row w.words front rest flag_offset refl
    by_flag false = bytes
