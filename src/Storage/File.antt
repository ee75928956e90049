-- ===== src/Storage/File.antt =====
-- A data file as a whole: records that stand one behind the other.
use vecdb.Prelude.{ℕ, ◌+◌, List, [], ◌∷◌, ◌++◌, true}
use vecdb.Storage.Types.{Record, mapped}
use vecdb.Storage.Layout.{record_header_bytes, record_padded_size, metadata_length}
use vecdb.Storage.Write.{encode_record}
use vecdb.Storage.Codec.{CanStore, stored_metadata}

-- A record with the floats behind its pointer.
pub record Written : Type 0 where
  pub row : Record
  pub words : List ℕ

-- The bytes of records that stand one behind the other.
unfoldable pub file_of : ℕ → List Written → List ℕ
file_of dimension [] = []
file_of dimension (w ∷ more) = encode_record dimension w.row w.words ++ file_of dimension more

abbrev pub size_of : ℕ → Written → ℕ
size_of dimension w = record_padded_size dimension (metadata_length w.row.metadata)

-- The same records as a reader has them: each at its offset, its floats in the mapping `g`.
unfoldable pub records_at : ℕ → ℕ → ℕ → List Written → List Record
records_at g dimension offset [] = []
records_at g dimension offset (w ∷ more) =
    record {
      id = w.row.id;
      vector = mapped g (offset + record_header_bytes);
      metadata = stored_metadata w.row.metadata;
      is_deleted = w.row.is_deleted;
      byte_offset = offset;
      is_mmap = true;
    }
    ∷ records_at g dimension (offset + size_of dimension w) more

abbrev pub CanWrite : ℕ → Written → Type 0
CanWrite dimension w = CanStore dimension w.row w.words
