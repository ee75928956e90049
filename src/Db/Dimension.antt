-- ===== src/Db/Dimension.antt =====
-- src/db.c: no operation on an open table changes its dimension.
use vecdb.Prelude.{
  ℕ, ◌+◌, ◌*◌, ◌%◌, ◌≡◌, ◌∙◌, refl, sym, ap, List, [], ◌∷◌, ◌++◌, Option, none, some,
}
use vecdb.Prelude.{
  Bool, true, false, if◌then◌else◌, ◌==◌, ltb, leb, length, take, inl, inr, Option-cases,
}
use vecdb.Prelude.Bytes.{u64_mod}
use vecdb.Storage.Types.{Env, Storage, Record, Status, success, failure}
use vecdb.Storage.Compact.{CompactHost, storage_compact}
use vecdb.Storage.Write.{storage_current_offset, storage_write_record}
use vecdb.Db.Types.{FlatDb, record_size}
use vecdb.Db.Insert.{
  Done, done, faulted, Search, absent, present, find_record, make_room, has_memory, new_record,
  storage_patch_flag, delete_at, db_insert, db_delete, db_compact,
}

-- What a call that is done leaves fulfils `P`.
pub data OnDone (P : FlatDb → Type 0) : Done → Type 0 where
  kept : {status : Status} {db : FlatDb} → P db → OnDone P (done status db)
  no_table : OnDone P faulted

OnDone-if :
    (P : FlatDb → Type 0) (b : Bool) (p q : Done)
    → OnDone P p
    → OnDone P q
    → OnDone P (if b then p else q)
OnDone-if P true p q h k = h
OnDone-if P false p q h k = k

-- A table with the same dimension.
abbrev pub SameDimension : FlatDb → FlatDb → Type 0
SameDimension db db' = db'.dimension ≡ db.dimension

make_room-dimension :
    (env : Env) (db grown : FlatDb) → make_room env db ≡ some grown → SameDimension db grown
unfolding make_room
make_room-dimension env db grown h =
    by_test (length db.records == db.capacity)
      (env.malloc (record_size * (db.capacity * 2 % u64_mod) % u64_mod)) h
  where
    dimension_of : Option FlatDb → ℕ
    dimension_of none = 0
    dimension_of (some d) = d.dimension

    by_test :
        (full granted : Bool)
        → (if full
            then (if granted
                then some (record db { capacity = db.capacity * 2 % u64_mod })
                else none)
            else some db)
          ≡ some grown
        → grown.dimension ≡ db.dimension
    by_test false granted e = sym (ap dimension_of e)
    by_test true true e = sym (ap dimension_of e)
    by_test true false e = cc

pub db_insert-dimension :
    (env : Env) (db : FlatDb) (id : ℕ) (vector : List ℕ) (metadata : Option (List ℕ))
    → OnDone (SameDimension db) (db_insert env db id vector metadata)
unfolding db_insert
db_insert-dimension env db id vector metadata = elim (Option-cases (make_room env db)) [
  | inl none_left ↦ rw (none_left, db_insert) (kept refl)
  | inr (grown, e) ↦
      rw (e, db_insert)
        (OnDone-if P (env.malloc (4 * db.dimension % u64_mod)) _ _
          (OnDone-if P (leb db.dimension (length vector)) _ _
            (OnDone-if P (has_memory env metadata) _ _
              (OnDone-if P (ltb (length grown.records) grown.capacity) _ _
                (by_write grown (make_room-dimension env db grown e) _ (
                  storage_write_record (storage_current_offset grown.storage).1
                    (new_record id (take db.dimension vector) metadata
                      (storage_current_offset grown.storage).0)
                    db.dimension))
                no_table)
              (kept (make_room-dimension env db grown e)))
            no_table)
          (kept (make_room-dimension env db grown e)))
]
  where
    P : FlatDb → Type 0
    P = SameDimension db

    by_write :
        (grown : FlatDb)
        → grown.dimension ≡ db.dimension
        → (r : Record) (o : Option (Status × Storage))
        → OnDone P (elim o as (λ x. Done) [
          | none ↦ faulted
          | some (failure, s) ↦ done failure (record grown { storage = s })
          | some (success, s) ↦
              done success (record grown { storage = s; records = grown.records ++ (r ∷ []) })
        ])
    by_write grown e r none = no_table
    by_write grown e r (some (failure, s)) = kept e
    by_write grown e r (some (success, s)) = kept e

delete_at-dimension :
    (seeks opens takes : Bool) (db : FlatDb) (front : List Record) (hit : Record)
    (back : List Record) (flag_offset : ℕ)
    → SameDimension db (delete_at seeks opens takes db front hit back flag_offset).1
unfolding delete_at storage_patch_flag
delete_at-dimension true true takes db front hit back flag_offset = refl
delete_at-dimension true false takes db front hit back flag_offset = refl
delete_at-dimension false opens takes db front hit back flag_offset = refl

pub db_delete-dimension :
    (seeks opens takes : Bool) (db : FlatDb) (id : ℕ)
    → SameDimension db (db_delete seeks opens takes db id).1
unfolding db_delete
db_delete-dimension seeks opens takes db id = by_open db.storage.is_open
  where
    by_search :
        (found : Search)
        → SameDimension db
            (elim found as (λ x. Status × FlatDb) [
              | absent ↦ (failure, db)
              | present front hit back ↦
                  delete_at seeks opens takes db front hit back ((hit.byte_offset + 8) % u64_mod)
            ]).1
    by_search absent = refl
    by_search (present front hit back) =
        delete_at-dimension seeks opens takes db front hit back ((hit.byte_offset + 8) % u64_mod)

    by_open :
        (b : Bool)
        → SameDimension db
            (if b
              then (elim (find_record id db.records) as (λ x. Status × FlatDb) [
                | absent ↦ (failure, db)
                | present front hit back ↦
                    delete_at seeks opens takes db front hit back ((hit.byte_offset + 8) % u64_mod)
              ])
              else (failure, db)).1
    by_open true = by_search (find_record id db.records)
    by_open false = refl

pub db_compact-dimension :
    (host : CompactHost) (db : FlatDb) → OnDone (SameDimension db) (db_compact host db)
unfolding db_compact
db_compact-dimension host db = by_result (storage_compact host db.storage db.records db.dimension)
  where
    by_result :
        (o : Option (Status × Storage × List Record))
        → OnDone (SameDimension db) (elim o as (λ x. Done) [
          | none ↦ faulted
          | some (failure, s, records) ↦ done failure (record db { storage = s; records = records })
          | some (success, s, records) ↦ done success (record db {
            storage = s;
            records = records;
            capacity = if length records == 0 then 1 else length records;
          })
        ])
    by_result none = no_table
    by_result (some (failure, s, records)) = kept refl
    by_result (some (success, s, records)) = kept refl

-- The dimension of a table that has the dimension of another.
pub OnDone-same :
    (base db : FlatDb) (d : Done)
    → SameDimension base db
    → OnDone (SameDimension db) d
    → OnDone (SameDimension base) d
OnDone-same base db (done status after) e (kept h) = kept (h ∙ e)
OnDone-same base db faulted e no_table = no_table
