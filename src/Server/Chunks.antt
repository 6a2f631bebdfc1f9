-- ===== src/Server/Chunks.antt =====
-- What `handle_file_data` of src/server/server.cpp does with one chunk.
pub mod Hashing
pub mod Opening
pub mod Content
use net_copy.Common.{
  ℕ, ◌+◌, ◌%◌, ◌^◌, List, [], ◌∷◌, length, Bool, false, not, ◌==◌, ◌&&◌, ◌||◌, ltb, same_bytes,
  if◌then◌else◌, Option, none, some, Result, ok, throw, file_exception, runtime_error,
}
use net_copy.Crypto.Sha3.{Sha3Hasher, update}
use net_copy.Protocol.Chunk.{Chunk}
use net_copy.Files.Path.{Text, normalize_path}
use net_copy.Files.Names.{get_filename, get_directory}
use net_copy.Files.Disk.{
  FileSystem, ensure_directory, open_write, write, preallocate_file, create_symlink,
}
use net_copy.Server.Run.{◌>>=◌, return, current, throw_if}
use net_copy.Server.State.{Run, set_handler, set_disk, or_raise, is_empty, ConnectionHandler}

-- ".netcopy_dir_marker" and ".netcopy_empty_dir"
abbrev pub dir_marker : Text
dir_marker =
    46 ∷ 110 ∷ 101 ∷ 116 ∷ 99 ∷ 111 ∷ 112 ∷ 121 ∷ 95 ∷ 100 ∷ 105 ∷ 114 ∷ 95 ∷ 109 ∷ 97 ∷ 114 ∷ 107
    ∷ 101 ∷ 114 ∷ []

abbrev pub empty_dir : Text
empty_dir =
    46 ∷ 110 ∷ 101 ∷ 116 ∷ 99 ∷ 111 ∷ 112 ∷ 121 ∷ 95 ∷ 101 ∷ 109 ∷ 112 ∷ 116 ∷ 121 ∷ 95 ∷ 100 ∷ 105
    ∷ 114 ∷ []

unfoldable pub is_marker_file : Text → Bool
is_marker_file path =
    not (is_empty path)
    && (same_bytes (get_filename path) dir_marker || same_bytes (get_filename path) empty_dir)

abbrev pub is_open_at : Option Text → Text → Bool
is_open_at none path = false
is_open_at (some p) path = same_bytes p path

abbrev pub open_file : ConnectionHandler → ConnectionHandler
open_file h = record h {
  stream = some h.current_file_path;
  current_preallocated =
      h.current_preallocated || (h.config.preallocate_files && ltb 0 h.current_expected_file_size);
  current_truncate_on_zero = false;
}

abbrev pub hash_with : Option Sha3Hasher → ℕ → List ℕ → ConnectionHandler → ConnectionHandler
hash_with none offset payload h = h
hash_with (some hasher) offset payload h =
    if ltb 0 (length payload)
    then if h.current_upload_hash_valid && offset == h.current_upload_hash_next_offset
      then record h {
        current_upload_hasher = some (update hasher payload);
        current_upload_hash_next_offset =
            (h.current_upload_hash_next_offset + length payload) % 2 ^ 64;
      }
      else record h { current_upload_hash_valid = false }
    else h

abbrev pub hash_chunk : ℕ → List ℕ → ConnectionHandler → ConnectionHandler
hash_chunk offset payload h = hash_with h.current_upload_hasher offset payload h

-- The hash of the blocks is of the file before the write.
abbrev pub forget_block_hash : ConnectionHandler → ConnectionHandler
forget_block_hash h = record h {
  cached_block_hash = record h.cached_block_hash {
    valid =
        h.cached_block_hash.valid
        && not (
            same_bytes (normalize_path h.cached_block_hash.path)
              (normalize_path h.current_file_path));
  };
}

module _ (F : FileSystem) where
  -- A symbolic link in place of what is there.
  abbrev pub place_symlink : Run F (Unit {0})
  place_symlink = do
    w ← current
    let path = w.handler.current_file_path
    removed ←
        set_disk F (λ d. if F.exists path d || F.is_symlink path d then F.remove path d else d)
    linked ← (λ v.
        or_raise F (file_exception "Failed to create symlink: ")
          (create_symlink F w.handler.current_symlink_target path v.disk) v)
    set_disk F (λ d.
        if w.handler.current_permissions == 0
        then d
        else F.set_permissions path w.handler.current_permissions d)

  -- A marker stands for an empty directory.
  abbrev pub make_marker : Run F (Unit {0})
  make_marker = do
    w ← current
    may ←
        throw_if (not w.handler.current_auto_create)
          (file_exception "Server policy does not allow empty directory creation")
    set_disk F (ensure_directory F (get_directory w.handler.current_file_path))

  abbrev pub preallocate : ConnectionHandler → F.Disk → F.Disk
  preallocate h d =
      if h.config.preallocate_files
        && (not h.current_preallocated && ltb 0 h.current_expected_file_size)
      then preallocate_file F h.current_file_path h.current_expected_file_size h.current_auto_create
          d
      else d

  abbrev pub open_stream : Run F (Unit {0})
  open_stream = do
    w ← current
    if is_open_at w.handler.stream w.handler.current_file_path then return tt else (do
      closed ← set_handler F (λ h. record h { stream = none })
      opened ← or_raise F (file_exception "Failed to open destination file for writing: ") (
          open_write F w.handler.current_file_path w.handler.current_truncate_on_zero
            w.handler.current_auto_create w.disk)
      allocated ← set_disk F (preallocate w.handler)
      set_handler F open_file)

  abbrev pub write_stream : ℕ → List ℕ → Run F (Unit {0})
  write_stream offset payload w =
      let r = write F w.handler.current_file_path (length payload) offset payload w.disk in
      (r.0, record { handler = w.handler; disk = r.1 })

  unfoldable pub write_chunk : ℕ → List ℕ → Run F (Unit {0})
  write_chunk offset payload = do
    opened ← open_stream
    hashed ← set_handler F (hash_chunk offset payload)
    written ← write_stream offset payload
    set_handler F forget_block_hash

  unfoldable pub place : Bool → ℕ → List ℕ → Run F (Unit {0})
  place is_marker offset payload = do
    w ← current
    if w.handler.current_is_symlink
        then place_symlink
        else if is_marker
        then make_marker
        else write_chunk offset payload

  -- The end of a chunk and its size, and the test of the limit.
  abbrev pub end_chunk : ℕ → ℕ → Run F (ℕ × ℕ)
  end_chunk offset size = do
    w ← current
    let end_offset = (offset + size) % 2 ^ 64
    within ←
        throw_if
          (ltb 0 w.handler.config.max_file_size && ltb w.handler.config.max_file_size end_offset)
          (file_exception "File exceeds maximum allowed size of ")
    return (end_offset, size)

-- `lz4` is LZ4_decompress_safe; no bytes stand for an error.
module _ (F : FileSystem) (lz4 : List ℕ → ℕ → Option (List ℕ)) where
  -- `decompress_buffer`
  abbrev decompress_buffer : Option (List ℕ) → Result (List ℕ)
  decompress_buffer none = throw (runtime_error "LZ4 decompression failed")
  decompress_buffer (some out) = ok out

  unfoldable pub payload_of : Chunk → Result (List ℕ)
  payload_of c =
      if c.compressed
      then decompress_buffer (lz4 c.data_bytes c.uncompressed_size)
      else ok c.data_bytes

  -- One round of the loop: the end of the chunk and the size of its payload.
  unfoldable pub process_chunk : Bool → Chunk → Run F (ℕ × ℕ)
  process_chunk is_marker c = do
    payload ← (λ w. (payload_of c, w))
    placed ← place F is_marker c.offset payload
    end_chunk F c.offset (length payload)
