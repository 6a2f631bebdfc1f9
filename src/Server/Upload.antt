-- ===== src/Server/Upload.antt =====
-- `handle_file_data` of src/server/server.cpp: the chunks of a message, and the end of a file.
pub mod Content
pub mod Complete
pub mod Whole
use net_copy.Common.{
  ℕ, ◌+◌, ◌%◌, ◌^◌, List, [], ◌∷◌, length, max, Bool, true, false, not, ◌==◌, ◌&&◌, ◌||◌, ltb,
  if◌then◌else◌, Option, none, some, Result, ok, throw, NetCopyException, runtime_error,
}
use net_copy.Crypto.Sha3.{Sha3Hasher, finalize}
use net_copy.Protocol.FileAck.{FileAck}
use net_copy.Protocol.Chunk.{Chunk}
use net_copy.Protocol.FileData.{FileData, single, or_single}
use net_copy.Files.Disk.{FileSystem, or_unchanged}
use net_copy.Server.Run.{◌>>=◌, return, current, throw_if}
use net_copy.Server.State.{
  Run, set_handler, is_empty, Session, end_session, completed, failed, KnownHash, ConnectionHandler,
  World,
}
use net_copy.Server.Chunks.{is_marker_file, process_chunk}

pub record Progress : Type 0 where
  pub max_bytes_received : ℕ
  pub payload_size : ℕ
  pub completes : Bool

abbrev pub count_chunk : Chunk → ℕ × ℕ → Progress → Progress
count_chunk c ended p = record {
  max_bytes_received = max p.max_bytes_received ended.0;
  payload_size = (p.payload_size + ended.1) % 2 ^ 64;
  completes = c.is_last_chunk || p.completes;
}

abbrev pub count_session : ℕ → Option Session → Option Session
count_session n none = none
count_session n (some s) =
    some (record s { bytes_transferred = (s.bytes_transferred + n) % 2 ^ 64 })

abbrev pub is_plain : ConnectionHandler → Bool
is_plain h = not h.current_is_symlink && not (is_marker_file h.current_file_path)

-- The hash of the data that came in order and is complete.
abbrev pub streamed_hash : ConnectionHandler → Option Sha3Hasher → KnownHash
streamed_hash h none = h.last_received_file_hash
streamed_hash h (some hasher) =
    if (h.current_upload_hash_valid
        && h.current_upload_hash_next_offset == h.current_expected_file_size)
      && is_plain h
    then record { hash = finalize hasher; path = h.current_file_path; valid = true }
    else h.last_received_file_hash

module _ (F : FileSystem) where
  -- A file is cut to the size that was announced.
  abbrev pub cut : ConnectionHandler → F.Disk → Option ℕ → Option F.Disk
  cut h d none = none
  cut h d (some current_size) = some (
      if ltb h.current_expected_file_size current_size
      then or_unchanged F d (F.resize_file h.current_file_path h.current_expected_file_size d)
      else d)

  -- No disk stands for an exception.
  abbrev pub shrink : ConnectionHandler → F.Disk → Option F.Disk
  shrink h d =
      if F.exists h.current_file_path d then cut h d (F.file_size h.current_file_path d) else some d

  abbrev permit : ConnectionHandler → F.Disk → F.Disk
  permit h d =
      if h.current_permissions == 0 || h.current_is_symlink
      then d
      else F.set_permissions h.current_file_path h.current_permissions d

  abbrev date : ConnectionHandler → F.Disk → F.Disk
  date h d =
      if not (h.current_expected_last_modified == 0) && is_plain h
      then F.set_last_write_time h.current_file_path h.current_expected_last_modified d
      else d

  abbrev pub completed_handler : ConnectionHandler → ConnectionHandler
  completed_handler h = record h {
    current_transfer_completed = true;
    stream = none;
    current_session = end_session completed h.current_session;
  }

  abbrev pub finish : World F → Option F.Disk → World F
  finish w none = record { handler = completed_handler w.handler; disk = w.disk }
  finish w (some d) = record {
    handler = record (completed_handler w.handler) {
      last_received_file_hash = streamed_hash w.handler w.handler.current_upload_hasher;
    };
    disk = date w.handler (permit w.handler d);
  }

  -- The end of a file. An exception here is behind the acknowledgement, and ends the connection.
  abbrev pub complete : World F → World F
  complete w = finish w (if is_plain w.handler then shrink w.handler w.disk else some w.disk)

  -- The session counts the payloads of the message.
  abbrev pub count_transfer : Progress → Run F Progress
  count_transfer p = do
    counted ←
        set_handler F
          (λ h. record h { current_session = count_session p.payload_size h.current_session })
    return p

-- `lz4` is LZ4_decompress_safe; no bytes stand for an error.
module _ (F : FileSystem) (lz4 : List ℕ → ℕ → Option (List ℕ)) where
  unfoldable pub process_chunks : Bool → List Chunk → Progress → Run F Progress
  process_chunks is_marker [] p = return p
  process_chunks is_marker (c ∷ cs) p = do
    ended ← process_chunk F lz4 is_marker c
    process_chunks is_marker cs (count_chunk c ended p)

  unfoldable pub receive_chunks : FileData → Run F Progress
  receive_chunks m = do
    w ← current
    started ←
        throw_if (is_empty w.handler.current_file_path)
          (runtime_error "No file transfer in progress")
    p ←
        process_chunks (is_marker_file w.handler.current_file_path) (or_single (single m) m.chunks)
          (record { max_bytes_received = 0; payload_size = 0; completes = false })
    count_transfer F p

-- `what` gives the text of an exception, and `unset` is what the memory of a field holds that is not
-- set.
module _ (F : FileSystem) (what : NetCopyException → List ℕ) (unset : ℕ) where
  abbrev pub after_chunks : Result Progress × World F → FileAck × World F
  after_chunks (throw e, w) = (
    record { bytes_received = unset; success = false; error_message = what e },
    record {
      handler = record w.handler {
        stream = none;
        current_session = end_session failed w.handler.current_session;
      };
      disk = w.disk;
    },
  )
  after_chunks (ok p, w) = (
    record { bytes_received = p.max_bytes_received; success = true; error_message = [] },
    if p.completes then complete F w else w,
  )

  -- The acknowledgement, and the state behind it.
  unfoldable pub handle_file_data :
      (List ℕ → ℕ → Option (List ℕ)) → FileData → World F → FileAck × World F
  handle_file_data lz4 m w = after_chunks (receive_chunks F lz4 m w)
