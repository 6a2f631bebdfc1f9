-- ===== src/Server/Download/Answer.antt =====
-- The answer of `handle_download_request` of src/server/server.cpp, and the end of its transfer.
use net_copy.Common.{
  ℕ, List, [], map, Bool, true, false, not, ◌&&◌, ◌||◌, leb, if◌then◌else◌, Option, some, Result,
  ok, and_then,
}
use net_copy.Crypto.Sha3.{new_hasher, finalize}
use net_copy.Crypto.Sha3.Streaming.{update_all}
use net_copy.Protocol.Chunk.{Chunk}
use net_copy.Protocol.DownloadRequest.{DownloadRequest}
use net_copy.Protocol.DownloadResponse.{DownloadResponse}
use net_copy.Files.Path.{Text, convert_to_native_path, normalize_path}
use net_copy.Files.Safe.{is_path_allowed}
use net_copy.Files.Disk.{FileSystem}
use net_copy.Server.State.{
  size_or_throw, completed, failed, Session, create_session, end_session, KnownHash, World,
}
use net_copy.Server.Queries.{last_write_time}

-- An answer that names no file.
abbrev no_file : List ℕ → DownloadResponse
no_file text = record {
  success = false;
  error_message = text;
  file_size = 0;
  is_directory = false;
  permissions = 0;
  is_symlink = false;
  symlink_target = [];
  session_id = [];
  last_modified = 0;
}

-- `current_session_->bytes_transferred = request.resume_offset`
abbrev resumed : ℕ → Session → Session
resumed n s = record s { bytes_transferred = n }

module _ (F : FileSystem) (denied not_found : Text → List ℕ) where
  -- The answer for a file that is there, with the new session in the handler. An exception ends the
  -- connection.
  unfoldable pub describe :
      List ℕ → List ℕ → DownloadRequest → Text → World F → Result (DownloadResponse × World F)
  describe id client_ip request resolved w =
      let d = w.disk in
      let directory = F.is_directory resolved d in
      let link = F.is_symlink resolved d in
      let size = if link || directory then ok 0 else size_or_throw F (F.file_size resolved d) in
      let time = if directory || link then ok 0 else last_write_time F resolved d in
      and_then size (λ size. and_then time (λ time. ok (
        record {
          success = true;
          error_message = [];
          file_size = size;
          is_directory = directory;
          permissions = F.get_permissions resolved d;
          is_symlink = link;
          symlink_target = if link then F.read_symlink resolved d else [];
          session_id = id;
          last_modified = time;
        },
        record {
          handler = record w.handler {
            last_sent_file_hash = record w.handler.last_sent_file_hash { valid = false };
            current_session = some (
                resumed request.resume_offset (
                  create_session id request.remote_path request.remote_path
                    w.handler.authenticated_user client_ip size));
          };
          disk = d;
        },
      )))

  -- The first message that `handle_download_request` sends.
  unfoldable pub download_answer :
      List ℕ → List ℕ → DownloadRequest → World F → Result (DownloadResponse × World F)
  download_answer id client_ip request w =
      let resolved = normalize_path (convert_to_native_path request.remote_path) in
      if not (
        is_path_allowed (F.weakly_canonical w.disk) w.handler.config.allowed_paths
          request.remote_path)
      then ok (no_file (denied request.remote_path), w)
      else if not (F.exists resolved w.disk)
      then ok (no_file (not_found resolved), w)
      else describe id client_ip request resolved w

-- The session after the transfer: what is said last stands.
abbrev pub end_transfer : Bool → ℕ → ℕ → Option Session → Option Session
end_transfer ack_failed offset file_size session =
    let told = if ack_failed then end_session failed session else session in
    if leb file_size offset then end_session completed told else told

-- The hash of what was sent, kept if all of it was sent and acknowledged from the start.
abbrev pub sent_hash : Bool → Bool → ℕ → ℕ → Text → List Chunk → KnownHash → KnownHash
sent_hash ack_failed hash_valid offset file_size resolved chunks before =
    if not ack_failed && (hash_valid && leb file_size offset)
    then record {
      hash = finalize (update_all new_hasher (map (λ (c : Chunk). c.data_bytes) chunks));
      path = resolved;
      valid = true;
    }
    else record before { valid = false }
