-- ===== src/Storage/Compact/Layout.antt =====
-- src/storage.c: the file and the records that `storage_compact` leaves.
use vecdb.Prelude.{
  ℕ, ◌+◌, ◌-◌, ◌≤◌, ◌<◌, ◌≡◌, refl, sym, ap, ap₂, ◌∙◌, arith, List, [], ◌∷◌, ◌++◌, map,
}
use vecdb.Prelude.{some, true, false, length, leb, le→leb, gt→leb, take-length}
use vecdb.Prelude.{length-append, inl, inr, le-or-lt, if◌then◌else◌}
use vecdb.Storage.Types.{Storage, Record, success, failure, floats_of}
use vecdb.Storage.Layout.{record_chunks}
use vecdb.Storage.Write.{write_all-appended, appended, encode_record, status_of}
use vecdb.Storage.Write.{appended-appended, appended_end, appended_room, appended-nil}
use vecdb.Storage.File.{Written, file_of}
use vecdb.Storage.Compact.{CompactHost, Kept, Rewritten, rewritten, not_written, keep, compact_loop}
use vecdb.Storage.Compact.{relocate, temporary, swapped, storage_compact}

-- The records that are left, each with the floats behind its pointer.
pub data Left (s : Storage) (dimension : ℕ) : List Record → List Written → Type 0 where
  over : Left s dimension [] []
  dropped :
      {r : Record} {more : List Record} {ws : List Written}
      → r.is_deleted ≡ true
      → Left s dimension more ws
      → Left s dimension (r ∷ more) ws
  kept :
      {r : Record} {more : List Record} {ws : List Written} (words : List ℕ)
      → r.is_deleted ≡ false
      → floats_of s dimension r.vector ≡ some words
      → Left s dimension more ws
      → Left s dimension (r ∷ more) (record { row = r; words = words } ∷ ws)

-- Each record that is left, with the offset at which its bytes begin.
unfoldable pub kept_from : ℕ → ℕ → List Written → List Kept
kept_from dimension offset [] = []
kept_from dimension offset (w ∷ ws) =
    record { row = w.row; new_offset = offset }
    ∷ kept_from dimension (offset + length (encode_record dimension w.row w.words)) ws

appended_pos :
    (new : List ℕ) (s : Storage) → length new ≤ s.room → (appended new s).pos ≡ s.pos + length new
unfolding appended
appended_pos new s h = omega (arith, ap length (take-length s.room new h))

module _ (s : Storage) (dimension : ℕ) where
  abbrev outcome : List Written → Storage → Rewritten
  outcome ws out =
      if leb (length (file_of dimension ws)) out.room
      then rewritten (kept_from dimension out.pos ws) (appended (file_of dimension ws) out)
      else not_written

  -- One record, once the rest of the loop is known.
  outcome-cons :
      (w : Written) (ws : List Written) (out : Storage)
      → length (encode_record dimension w.row w.words) ≤ out.room
      → keep
          (record { row = w.row; new_offset = out.pos })
          (outcome ws (appended (encode_record dimension w.row w.words) out))
        ≡ outcome (w ∷ ws) out
  unfolding kept_from file_of
  outcome-cons w ws out fits =
      elim (le-or-lt (length (file_of dimension ws)) (appended new out).room) [
        | inl more ↦ rw (le→leb _ _ more) (
            rw (le→leb (length (new ++ file_of dimension ws)) out.room (omega (arith, whole, room)))
              (ap₂ rewritten
                (ap (λ p. record { row = w.row; new_offset = out.pos } ∷ kept_from dimension p ws)
                  (appended_pos new out fits))
                (appended-appended new (file_of dimension ws) out fits)))
        | inr full ↦ rw (gt→leb _ _ full) (
            rw (gt→leb (length (new ++ file_of dimension ws)) out.room (omega (arith, whole, room)))
              refl)
      ]
    where
      new : List ℕ
      new = encode_record dimension w.row w.words

      whole : length (new ++ file_of dimension ws) ≡ length new + length (file_of dimension ws)
      whole = length-append new (file_of dimension ws)

      room : (appended new out).room ≡ out.room - length new
      room = appended_room new out fits

  outcome_full :
      (w : Written) (ws : List Written) (out : Storage)
      → out.room < length (encode_record dimension w.row w.words)
      → not_written ≡ outcome (w ∷ ws) out
  unfolding file_of
  outcome_full w ws out full =
      rw
        (gt→leb (length (encode_record dimension w.row w.words ++ file_of dimension ws)) out.room (
          omega
            (arith, length-append (encode_record dimension w.row w.words) (file_of dimension ws))))
        refl

  -- One record that the loop writes.
  compact_loop_kept :
      (r : Record) (words : List ℕ) (more : List Record) (out : Storage)
      → r.is_deleted ≡ false
      → floats_of s dimension r.vector ≡ some words
      → out.pos ≡ length out.bytes
      → compact_loop s dimension (r ∷ more) out
        ≡ (elim (status_of (leb (length (encode_record dimension r words)) out.room)) [
          | failure ↦ not_written
          | success ↦
              keep
                (record { row = r; new_offset = out.pos })
                (compact_loop s dimension more (appended (encode_record dimension r words) out))
        ])
  unfolding compact_loop encode_record
  compact_loop_kept r words more out d f e =
      ground (arith, d, f, write_all-appended (record_chunks dimension r words) out e)

  compact_loop_dropped :
      (r : Record) (more : List Record) (out : Storage)
      → r.is_deleted ≡ true
      → compact_loop s dimension (r ∷ more) out ≡ compact_loop s dimension more out
  unfolding compact_loop
  compact_loop_dropped r more out d = ground (arith, d)

  compact_loop_lem :
      (records : List Record) (ws : List Written) (out : Storage)
      → Left s dimension records ws
      → out.pos ≡ length out.bytes
      → compact_loop s dimension records out ≡ outcome ws out
  compact_loop_lem records ws out over e =
      unfold compact_loop file_of kept_from in
      rw (le→leb 0 out.room (omega arith)) (ap (rewritten []) (sym (appended-nil out)))
  compact_loop_lem records ws out (dropped {r} {more} d l) e =
      compact_loop_dropped r more out d ∙ compact_loop_lem more ws out l e
  compact_loop_lem records ws out (kept {r} {more} {ws = ws'} words d f l) e =
      elim (le-or-lt (length (encode_record dimension r words)) out.room) [
        | inl fits ↦
            compact_loop_kept r words more out d f e
            ∙ rw
                (
                  le→leb (length (encode_record dimension r words)) out.room fits,
                  compact_loop_lem more ws' (appended (encode_record dimension r words) out) l
                      (appended_end (encode_record dimension r words) out e),
                )
                (outcome-cons (record { row = r; words = words }) ws' out fits)
        | inr full ↦
            compact_loop_kept r words more out d f e
            ∙ rw (gt→leb (length (encode_record dimension r words)) out.room full)
                (outcome_full (record { row = r; words = words }) ws' out full)
      ]

-- A compaction for which the environment grants everything: it succeeds exactly when the new file fits
-- beside the old one. Then the file holds the records that are left, in their order and with nothing
-- between them, each record notes the offset of its bytes, and the stream and the mapping are of the
-- new file. Otherwise it fails and nothing has changed.
pub storage_compact_lem :
    (host : CompactHost) (s : Storage) (dimension : ℕ) (records : List Record) (ws : List Written)
    → Left s dimension records ws
    → host.opens ≡ true
    → host.allocates ≡ true
    → host.renames ≡ true
    → host.reopens ≡ true
    → storage_compact host s records dimension
      ≡ some (
          if leb (length (file_of dimension ws)) s.room
          then (
            success,
            swapped host s (appended (file_of dimension ws) (temporary s)),
            map
                (relocate
                  (swapped host s (appended (file_of dimension ws) (temporary s))).mmap_data)
                (kept_from dimension 0 ws),
          )
          else (failure, s, records))
unfolding storage_compact temporary
storage_compact_lem host s dimension records ws l opens allocates renames reopens =
    ground (arith, loop)
  where
    loop : compact_loop s dimension records (temporary s) ≡ outcome s dimension ws (temporary s)
    loop = compact_loop_lem s dimension records ws (temporary s) l refl
