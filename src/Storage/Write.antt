-- ===== src/Storage/Write.antt =====
-- src/storage.c: the stream, `storage_current_offset` and `storage_write_record`.
use vecdb.Prelude.{ℕ, zero, suc, ◌+◌, ◌-◌, ◌≤◌, ◌<◌, ◌≡◌, refl, ap, sym, ◌∙◌, arith}
use vecdb.Prelude.{List, [], ◌∷◌, ◌++◌, concat, Option, none, some, Bool, true}
use vecdb.Prelude.{
  if◌then◌else◌, leb, length, take, drop, append-nil, append_assoc, take-length, drop-length,
}
use vecdb.Prelude.{
  ap₂, le→leb, gt→leb, le-or-lt, inl, inr, length-append, take-append_more, take-append_less,
}
use vecdb.Storage.Types.{Storage, Record, Status, success, failure, floats_of}
use vecdb.Storage.Layout.{record_chunks}

-- `fseek(fp, 0, SEEK_END)`
unfoldable pub seek_end : Storage → Storage
seek_end s = record s { pos = length s.bytes }

-- Bytes put over those at `pos`; past the end the file grows.
unfoldable pub overwrite : ℕ → List ℕ → List ℕ → List ℕ
overwrite pos new bytes = take pos bytes ++ new ++ drop (pos + length new) bytes

-- `fwrite`: as much as the disk takes, and whether that was all. Every byte goes to the file at
-- once, so the `fflush` at the end of a write has nothing left to do.
unfoldable pub fwrite : List ℕ → Storage → Bool × Storage
unfolding overwrite
fwrite new s =
    let kept = take s.room new in
    (
      leb (length new) s.room,
      record s {
        bytes = overwrite s.pos kept s.bytes;
        room = s.room - length kept;
        pos = s.pos + length kept;
      },
    )

-- A row of writes, each made only if the one before it was whole.
unfoldable pub write_all : List (List ℕ) → Storage → Status × Storage
write_all [] s = (success, s)
write_all (new ∷ more) s =
    let s' = (fwrite new s).1 in
    let rest = write_all more s' in if (fwrite new s).0 then rest else (failure, s')

-- `storage_write_record`. `none` is undefined behaviour: the floats are looked at before the header
-- is written, so a bad pointer is undefined also where an earlier write would have failed.
unfoldable pub storage_write_record : Storage → Record → ℕ → Option (Status × Storage)
storage_write_record s r dimension =
    if s.is_open
    then (elim (floats_of s dimension r.vector) [
      | none ↦ none
      | some ws ↦ some (write_all (record_chunks dimension r ws) (seek_end s))
    ])
    else some (failure, s)

-- `storage_current_offset`: the stream goes to the end of the file.
unfoldable pub storage_current_offset : Storage → ℕ × Storage
unfolding seek_end
storage_current_offset s = if s.is_open then (length s.bytes, seek_end s) else (0, s)

-- What a row of writes at the end of the file leaves: as much of it as there is room for.
unfoldable pub appended : List ℕ → Storage → Storage
appended new s =
    let kept = take s.room new in
    record s { bytes = s.bytes ++ kept; room = s.room - length kept; pos = s.pos + length kept }

abbrev pub status_of : Bool → Status
status_of b = if b then success else failure

fwrite-appended :
    (new : List ℕ) (s : Storage)
    → s.pos ≡ length s.bytes
    → fwrite new s ≡ (leb (length new) s.room, appended new s)
unfolding fwrite appended
fwrite-appended new s e =
    rw (e, take-length (length s.bytes) s.bytes (omega arith))
      (rw
        (drop-length (length s.bytes + length (take s.room new)) s.bytes (omega arith), append-nil)
        refl)

take-append_room :
    (new more : List ℕ) (room : ℕ)
    → length new ≤ room
    → take room new ++ take (room - length (take room new)) more ≡ take room (new ++ more)
take-append_room new more room h =
    rw (take-length room new h) (sym (take-append_more room new more h))

pub appended-appended :
    (new more : List ℕ) (s : Storage)
    → length new ≤ s.room
    → appended more (appended new s) ≡ appended (new ++ more) s
unfolding appended
appended-appended new more s h =
    λ i. record s { bytes = bytes_eq i; room = room_eq i; pos = pos_eq i }
  where
    kept_eq :
        take s.room new ++ take (s.room - length (take s.room new)) more ≡ take s.room (new ++ more)
    kept_eq = take-append_room new more s.room h

    bytes_eq :
        (s.bytes ++ take s.room new) ++ take (s.room - length (take s.room new)) more
        ≡ s.bytes ++ take s.room (new ++ more)
    bytes_eq = append_assoc s.bytes (take s.room new) _ ∙ ap (λ t. s.bytes ++ t) kept_eq

    room_eq :
        s.room - length (take s.room new) - length (take (s.room - length (take s.room new)) more)
        ≡ s.room - length (take s.room (new ++ more))
    room_eq = omega (
      arith,
      ap length kept_eq,
      length-append (take s.room new) (take (s.room - length (take s.room new)) more),
    )

    pos_eq :
        s.pos + length (take s.room new) + length (take (s.room - length (take s.room new)) more)
        ≡ s.pos + length (take s.room (new ++ more))
    pos_eq = omega (
      arith,
      ap length kept_eq,
      length-append (take s.room new) (take (s.room - length (take s.room new)) more),
    )

-- What does not fit behind `new` is not written at all.
appended-append_full :
    (new more : List ℕ) (s : Storage)
    → s.room < length new
    → appended (new ++ more) s ≡ appended new s
unfolding appended
appended-append_full new more s h = rw (take-append_less s.room new more (omega arith)) refl

pub appended_end :
    (new : List ℕ) (s : Storage)
    → s.pos ≡ length s.bytes
    → (appended new s).pos ≡ length (appended new s).bytes
unfolding appended
appended_end new s e = omega (arith, length-append s.bytes (take s.room new))

pub appended_room :
    (new : List ℕ) (s : Storage) → length new ≤ s.room → (appended new s).room ≡ s.room - length new
unfolding appended
appended_room new s h = omega (arith, ap length (take-length s.room new h))

pub appended-nil : (s : Storage) → appended [] s ≡ s
unfolding appended
appended-nil s = λ i. record s { bytes = bytes_eq i; room = room_eq i; pos = pos_eq i }
  where
    take-nil : (n : ℕ) → take {A = ℕ} n [] ≡ []
    take-nil zero = refl
    take-nil (suc n) = refl

    bytes_eq : s.bytes ++ take s.room [] ≡ s.bytes
    bytes_eq = rw (take-nil s.room) (append-nil s.bytes)

    room_eq : s.room - length (take {A = ℕ} s.room []) ≡ s.room
    room_eq = rw (take-nil s.room) (omega arith)

    pos_eq : s.pos + length (take {A = ℕ} s.room []) ≡ s.pos
    pos_eq = rw (take-nil s.room) (omega arith)

-- A row of writes at the end of the file succeeds exactly when all of it fits; what fits is appended.
pub write_all-appended :
    (chunks : List (List ℕ)) (s : Storage)
    → s.pos ≡ length s.bytes
    → write_all chunks s
      ≡ (status_of (leb (length (concat chunks)) s.room), appended (concat chunks) s)
unfolding write_all
write_all-appended [] s e =
    ap₂ (λ b t. (status_of b, t)) (sym (le→leb 0 s.room (omega arith))) (sym (appended-nil s))
write_all-appended (new ∷ more) s e = elim (le-or-lt (length new) s.room) [
  | inl fits ↦
      rw (fwrite-appended new s e, le→leb (length new) s.room fits)
        (write_all-appended more (appended new s) (appended_end new s e)
          ∙ ap₂ (λ b t. (status_of b, t))
              (ground (arith, length-append new (concat more), appended_room new s fits))
              (appended-appended new (concat more) s fits))
  | inr full ↦
      rw (fwrite-appended new s e, gt→leb (length new) s.room full)
        (ap₂ (λ b t. (status_of b, t))
          (sym (
            gt→leb (length (new ++ concat more)) s.room
              (omega (arith, length-append new (concat more)))))
          (sym (appended-append_full new (concat more) s full)))
]

-- The bytes of one record.
unfoldable pub encode_record : ℕ → Record → List ℕ → List ℕ
encode_record dimension r ws = concat (record_chunks dimension r ws)

-- `storage_write_record` on an open stream and a valid pointer: it succeeds exactly when the whole
-- record fits on the disk, and what fits of its bytes stands behind the old file, of which nothing
-- changes.
pub storage_write_record_lem :
    (s : Storage) (r : Record) (dimension : ℕ) (ws : List ℕ)
    → s.is_open ≡ true
    → floats_of s dimension r.vector ≡ some ws
    → storage_write_record s r dimension
      ≡ some (
        status_of (leb (length (encode_record dimension r ws)) s.room),
        appended (encode_record dimension r ws) (seek_end s),
      )
unfolding storage_write_record encode_record seek_end
storage_write_record_lem s r dimension ws ho hf =
    ground (arith, write_all-appended (record_chunks dimension r ws) (seek_end s) refl)
