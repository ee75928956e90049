-- ===== src/Server/Actions/Insert.antt =====
-- src/server.c: an insertion by way of the queue.
use vecdb.Prelude.{
  ℕ, ◌+◌, ◌≤◌, ◌<◌, ◌≡◌, ◌^◌, refl, sym, ap, ◌∙◌, arith, List, [], ◌∷◌, ◌++◌, map, append_assoc,
  Option, none, some,
}
use vecdb.Prelude.{Bool, true, false, not, ◌||◌, if◌then◌else◌, ◌==◌, length, take, length-append}
use vecdb.Storage.Types.{Storage, heap, success}
use vecdb.Storage.Write.{storage_current_offset, storage_write_record}
use vecdb.Server.Request.{InsertReq}
use vecdb.Server.Tables.{PendingInsert, OpenTable}
use vecdb.Pending.{Sorting}
use vecdb.Db.AutoDelete.{AutoHost}
use vecdb.Server.Tables.{Folder}
use vecdb.Server.Sync.{record_of, synced, drain, sync_table}
use vecdb.Server.Sync.Round.{IsQuiet, sync_table_quiet}
use vecdb.Server.Sync.Drain.{contents, drain_refines}
use vecdb.Server.Actions.{Machine, queue_insert, queue_written, copied, push, temp_rec}
use vecdb.Prelude.{◌*◌, ◌%◌}
use vecdb.Prelude.Bytes.{u64_mod}
use vecdb.Server.Tables.{pending_insert_size}
use vecdb.Storage.Write.{seek_end}

map-append_one :
    (q : List PendingInsert) (p : PendingInsert)
    → map record_of (q ++ (p ∷ [])) ≡ map record_of q ++ (record_of p ∷ [])
map-append_one [] p = refl
map-append_one (x ∷ q) p = ap (λ l. record_of x ∷ l) (map-append_one q p)

at_end : (s : Storage) → s.is_open ≡ true → storage_current_offset s ≡ (length s.bytes, seek_end s)
unfolding storage_current_offset seek_end
at_end s is_open = ap (λ b. if b then (length s.bytes, seek_end s) else (0, s)) is_open

module _ (M : Machine) (memory : (n : ℕ) → M.host.env.malloc n ≡ true) where
  copied_lem : (metadata : Option (List ℕ)) → copied M metadata ≡ metadata
  unfolding copied
  copied_lem none = refl
  copied_lem (some m) = rw (memory (length m + 1)) refl

  -- A pushed entry is what the table answers for behind all else.
  push_lem :
      (p : PendingInsert) (t : OpenTable)
      → (t' : OpenTable) × (push M p t ≡ some t')
        × (contents t' ≡ contents t ++ (record_of p ∷ []))
        × (t'.db ≡ t.db)
  unfolding push
  push_lem p t = (
    record t { insert_queue_capacity = capacity; insert_queue = t.insert_queue ++ (p ∷ []) },
    rw (memory (pending_insert_size * capacity % u64_mod), or_true (not full)) refl,
    ap (λ l. t.db.records ++ l) (map-append_one t.insert_queue p)
        ∙ sym (append_assoc t.db.records (map record_of t.insert_queue) (record_of p ∷ [])),
    refl,
  )
    where
      full : Bool
      full = length t.insert_queue == t.insert_queue_capacity

      capacity : ℕ
      capacity = if full then t.insert_queue_capacity * 2 % u64_mod else t.insert_queue_capacity

      or_true : (b : Bool) → (b || true) ≡ true
      or_true true = refl
      or_true false = refl

  -- With memory granted, a file that is open and takes the record,
  -- an array with a place and room for its records, and fewer than 2^63 of these with the queue: it
  -- succeeds without touching the records, and the first block of the next round leaves the queue
  -- empty and, behind the records and the insertions queued before, in their order, a live
  -- record with the id, the floats and the metadata of the request and the offset of its bytes.
  drain-queue_insert :
      (t : OpenTable) (req : InsertReq) (s : Storage)
      → t.db.storage.is_open ≡ true
      → storage_write_record
          (seek_end t.db.storage)
          (temp_rec M t req (length t.db.storage.bytes))
          t.db.dimension
        ≡ some (success, s)
      → 0 < t.db.capacity
      → length t.db.records ≤ t.db.capacity
      → length (contents t) < 2 ^ 63
      → (t' t'' : OpenTable) × (queue_insert M t req ≡ some (success, t'))
        × (t'.db.records ≡ t.db.records)
        × (drain M.host.env t' ≡ synced t'')
        × (t''.insert_queue ≡ [])
        × (t''.db.records
            ≡ contents t
              ++ (record {
                id = req.id;
                vector = heap (take t.db.dimension req.vector);
                metadata = req.metadata;
                is_deleted = false;
                byte_offset = length t.db.storage.bytes;
                is_mmap = false;
              }
                  ∷ []))
  unfolding temp_rec record_of queue_insert queue_written
  drain-queue_insert t req s is_open written pos room fits = (
    pushed.0,
    drained.0,
    rw
        (
          queue_insert,
          memory (t.db.dimension * 4 % u64_mod),
          at_end t.db.storage is_open,
          written,
          queue_written,
          at_end t.db.storage is_open,
          pushed.1,
        )
        refl,
    ap (λ db. db.records) pushed.3,
    drained.1,
    drained.2,
    drained.3 ∙ pushed.2 ∙ λ i.
        contents t
        ++ (record {
          id = req.id;
          vector = heap (take t.db.dimension req.vector);
          metadata = copied_lem req.metadata i;
          is_deleted = false;
          byte_offset = length t.db.storage.bytes;
          is_mmap = false;
        }
            ∷ []),
  )
    where
      entry : PendingInsert
      entry = record {
        id = req.id;
        vector = take t.db.dimension req.vector;
        metadata = copied M req.metadata;
        byte_offset = length t.db.storage.bytes;
      }

      pushed :
          (t' : OpenTable) × (push M entry (record t { db = record (t.db) { storage = s } })
            ≡ some t')
          × (contents t' ≡ contents t ++ (record_of entry ∷ []))
          × (t'.db ≡ record (t.db) { storage = s })
      pushed = push_lem entry (record t { db = record (t.db) { storage = s } })

      drained :
          (t'' : OpenTable) × (drain M.host.env pushed.0 ≡ synced t'')
          × (t''.insert_queue ≡ [])
          × (t''.db.records ≡ contents pushed.0)
          × (contents t'' ≡ contents pushed.0)
          × (length t''.db.records ≤ t''.db.capacity)
      drained =
          drain_refines M.host.env pushed.0 memory
            (omega (arith, pos, ap (λ db. db.capacity) pushed.3))
            (omega
              (arith, room, ap (λ db. db.capacity) pushed.3, ap (λ db. length db.records) pushed.3))
            (omega
              (arith, fits, ap length pushed.2, length-append (contents t) (record_of entry ∷ [])))

  -- An insertion by way of the server, with memory granted, a file that is open and takes the record,
  -- an array with a place and room for its records, and fewer than 2^63 of these with the queue: it
  -- succeeds without touching the records. The next whole round of the synchronisation of the table, if
  -- no automatic deletion is due at its time, leaves the queue empty and, behind the records and the
  -- insertions queued before, in their order, a live record with the id, the floats and the metadata of
  -- the request and the offset of its bytes.
  pub sync_table-queue_insert :
      (libc : Sorting) (host : AutoHost) (now : ℕ) (f : Folder) (t : OpenTable) (req : InsertReq)
      (s : Storage)
      → IsQuiet now f
      → t.db.storage.is_open ≡ true
      → storage_write_record
          (seek_end t.db.storage)
          (temp_rec M t req (length t.db.storage.bytes))
          t.db.dimension
        ≡ some (success, s)
      → 0 < t.db.capacity
      → length t.db.records ≤ t.db.capacity
      → length (contents t) < 2 ^ 63
      → (t' t'' : OpenTable) × (queue_insert M t req ≡ some (success, t'))
        × (t'.db.records ≡ t.db.records)
        × (sync_table M.host.env libc host now f t' ≡ synced (t'', f))
        × (t''.insert_queue ≡ [])
        × (t''.db.records
            ≡ contents t
              ++ (record {
                id = req.id;
                vector = heap (take t.db.dimension req.vector);
                metadata = req.metadata;
                is_deleted = false;
                byte_offset = length t.db.storage.bytes;
                is_mmap = false;
              }
                  ∷ []))
  sync_table-queue_insert libc host now f t req s quiet is_open written pos room fits =
      let d = drain-queue_insert t req s is_open written pos room fits in
      let r = sync_table_quiet M.host.env libc host now f d.0 d.1 memory quiet d.4 in
      (d.0, r.0, d.2, d.3, r.1, r.2 ∙ d.5, r.3 ∙ d.6)
