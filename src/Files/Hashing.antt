-- ===== src/Files/Hashing.antt =====
-- `compute_file_hash` and `compute_block_hashes` of src/file/file_manager.cpp. The hash is a parameter:
-- what the xxHash64 hasher gives for all of the bytes that it was fed. No caller here cancels.
pub mod Laws
use net_copy.Common.{
  ℕ, zero, suc, ◌+◌, ◌*◌, List, [], ◌∷◌, ◌++◌, length, map, not, ◌==◌, Option, none, some, Result,
  ok, throw, and_then, file_exception, String, if◌then◌else◌,
}
use net_copy.Files.Path.{Text}
use net_copy.Files.Disk.{FileSystem}

-- A piece of a file and its offset.
abbrev pub Piece : Type 0
Piece = ℕ × List ℕ

-- All of the bytes.
abbrev pub joined : List Piece → List ℕ
joined [] = []
joined (p ∷ ps) = p.1 ++ joined ps

module _ (F : FileSystem) (path : Text) (size : ℕ) (d : F.Disk) where
  -- A round that read nothing ends the loop, and one that failed throws.
  abbrev pub after_read : ℕ → Option (List ℕ) → (List ℕ → Result (List Piece)) → Result (List Piece)
  after_read offset none more = throw (file_exception "FileStream read failed: ")
  after_read offset (some []) more = ok []
  after_read offset (some (b ∷ bs)) more =
      and_then (more (b ∷ bs)) (λ ps. ok ((offset, b ∷ bs) ∷ ps))

  -- The loop that reads up to `size` bytes at a time. Each round but the last reads a byte, so a fuel
  -- of more than the bytes that are left is enough.
  unfoldable pub read_from : ℕ → ℕ → Result (List Piece)
  read_from zero offset = ok []
  read_from (suc fuel) offset =
      after_read offset (F.pread path size offset d)
        (λ bytes. read_from fuel (offset + length bytes))

module _ (F : FileSystem) where
  -- The tests before a file is read, with the texts of their exceptions, and the loop.
  unfoldable pub read_file : String → String → Text → ℕ → F.Disk → Result (List Piece)
  read_file missing unopened path size d =
      if not (F.exists path d)
      then throw (file_exception missing)
      else if not (F.is_regular_file path d)
      then throw (file_exception "Path is not a regular file: ")
      else if not (F.open_read path d)
      then throw (file_exception unopened)
      else read_from F path size d (suc (length (F.content path d))) 0

module _ (F : FileSystem) (xxhash64 : List ℕ → List ℕ) where
  unfoldable pub compute_file_hash : Text → F.Disk → Result (List ℕ)
  compute_file_hash path d =
      and_then
        (read_file F "File does not exist for hashing: " "Failed to open file for hashing: " path
          (256 * 1024) d)
        (λ pieces. ok (xxhash64 (joined pieces)))

  abbrev or_default : ℕ → ℕ
  or_default size = if size == 0 then 65536 else size

  abbrev hash_piece : Piece → ℕ × List ℕ
  hash_piece p = (p.0, xxhash64 p.1)

  -- The hash of each block with its offset, and the hash of the file.
  unfoldable pub compute_block_hashes : Text → ℕ → F.Disk → Result (List (ℕ × List ℕ) × List ℕ)
  compute_block_hashes path block_size d =
      and_then
        (read_file F "File does not exist for block hashing: "
          "Failed to open file for block hashing: " path (or_default block_size) d)
        (λ pieces. ok (map hash_piece pieces, xxhash64 (joined pieces)))
