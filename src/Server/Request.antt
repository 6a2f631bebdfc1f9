-- ===== src/Server/Request.antt =====
-- `handle_file_request` of src/server/server.cpp. The answer that is sent is a result here; if the
-- socket fails instead, the exception ends the connection.
pub mod Accepted
use net_copy.Common.{
  ℕ, List, [], length, Bool, true, false, not, ◌==◌, ◌&&◌, ◌||◌, ltb, if◌then◌else◌, Option, none,
  some, Result, ok, throw, NetCopyException, file_exception,
}
use net_copy.Crypto.Sha3.{new_hasher}
use net_copy.Auth.UserEntry.{UserEntry, can_access_path, is_separator}
use net_copy.Auth.UserDb.{find_user}
use net_copy.Protocol.FileRequest.{FileRequest}
use net_copy.Protocol.FileResponse.{FileResponse}
use net_copy.Files.Path.{Text, convert_to_native_path, is_absolute_path, normalize_path}
use net_copy.Files.Names.{get_filename, get_directory, ends_with, join_path}
use net_copy.Files.Safe.{is_path_allowed}
use net_copy.Files.Disk.{FileSystem, ensure_directory, open_write}
use net_copy.Server.Run.{◌>>=◌, return, raise, current, throw_if}
use net_copy.Server.State.{
  ServerConfig, Run, set_handler, set_disk, or_raise, size_of, is_empty, create_session,
  ConnectionHandler, World,
}

-- A user who is not in the database is held to the server's own paths alone.
abbrev pub user_is_denied : Option UserEntry → Text → Bool
user_is_denied none path = false
user_is_denied (some user) path = not (can_access_path user path)

abbrev pub is_denied_to_user : ConnectionHandler → Text → Bool
is_denied_to_user h path =
    not (is_empty h.authenticated_user)
    && (h.user_db.loaded && user_is_denied (find_user h.user_db h.authenticated_user) path)

-- Whether the file is hashed as it comes.
abbrev pub is_streamed : FileRequest → ServerConfig → Bool
is_streamed request config =
    config.streaming_verification && (not request.is_symlink && request.resume_offset == 0)

-- The handler's fields for the new file.
abbrev pub begin_file : FileRequest → Text → ConnectionHandler → ConnectionHandler
begin_file request path h =
    let streamed = is_streamed request h.config in
    record h {
      current_file_path = path;
      block_hashes_were_computed = false;
      current_auto_create = request.auto_create_directories;
      current_truncate_on_zero = request.truncate_destination;
      current_is_symlink = request.is_symlink;
      current_symlink_target = request.symlink_target;
      current_permissions = request.permissions;
      current_expected_file_size = request.file_size;
      current_expected_last_modified = request.last_modified;
      current_preallocated = false;
      current_upload_hash_next_offset = 0;
      current_upload_hash_valid = streamed;
      current_upload_hasher = if streamed then some new_hasher else none;
      last_received_file_hash = record h.last_received_file_hash { valid = false };
    }

module _ (F : FileSystem) where
  -- `resolve_path`
  unfoldable pub resolve_path : Text → Run F Text
  resolve_path path =
      if is_absolute_path (convert_to_native_path path)
      then return (normalize_path (convert_to_native_path path))
      else raise
          (file_exception "Relative paths are not allowed. All paths must be absolute. Path: ")

  -- A destination that is a directory gets the name of the source.
  abbrev pub in_directory : Text → Text → F.Disk → Text
  in_directory resolved source d =
      if ends_with is_separator resolved || F.is_directory resolved d
      then join_path resolved (get_filename source)
      else resolved

  -- `get_partial_file_size`
  abbrev pub partial_size : Text → Run F ℕ
  partial_size path = do w ← current; if F.exists path w.disk then size_of F path else return 0

  -- The answer's `resume_offset`.
  abbrev pub resume_offset_of : FileRequest → Text → Run F ℕ
  resume_offset_of request path =
      if ltb 0 request.resume_offset then partial_size path else return 0

  -- Both tests of the destination: the server's paths, and the user's.
  abbrev pub is_granted : FileRequest → World F → Bool
  is_granted request w =
      is_path_allowed (F.weakly_canonical w.disk) w.handler.config.allowed_paths
        request.destination_path
      && not (is_denied_to_user w.handler request.destination_path)

  -- The file of the request, up to the answer's `resume_offset`.
  unfoldable pub choose_file : FileRequest → Run F (Text × ℕ)
  choose_file request = do
    w ← current
    allowed ←
        throw_if
          (not (
            is_path_allowed (F.weakly_canonical w.disk) w.handler.config.allowed_paths
              request.destination_path))
          (file_exception "Access denied to path: ")
    granted ←
        throw_if (is_denied_to_user w.handler request.destination_path) (file_exception "User '")
    resolved ← resolve_path request.destination_path
    let path = in_directory resolved request.source_path w.disk
    begun ← set_handler F (begin_file request path)
    offset ← resume_offset_of request path
    return (path, offset)

  abbrev pub truncate_file : Text → Run F (Unit {0})
  truncate_file path = do
    w ← current
    opened ←
        or_raise F (file_exception "Failed to truncate destination file for writing: ")
          (open_write F path true w.handler.current_auto_create w.disk)
    set_handler F (λ h. record h { current_truncate_on_zero = false })

  -- The disk with the directory of the file, if directories are to be made.
  abbrev pub made_directory : Text → World F → F.Disk
  made_directory path w =
      if w.handler.current_auto_create
      then ensure_directory F (get_directory path) w.disk
      else w.disk

  -- The directory, the truncation and the session; the result is the answer's `file_size`.
  unfoldable pub prepare_file : List ℕ → List ℕ → FileRequest → Text → Run F ℕ
  prepare_file id client_ip request path = do
    w ← current
    made ← set_disk F (λ d. made_directory path w)
    emptied ←
        if w.handler.current_truncate_on_zero && not w.handler.current_is_symlink
        then truncate_file path
        else return tt
    v ← current
    size ←
        if not v.handler.current_is_symlink
          && (F.exists path v.disk && F.is_regular_file path v.disk)
        then size_of F path
        else return 0
    created ← set_handler F (λ h. record h {
      current_session = some (
          create_session id request.source_path request.destination_path h.authenticated_user
            client_ip request.file_size);
    })
    return size

-- `what` gives the text of an exception. `unset` is what the memory of an answer's fields holds that
-- neither its constructor nor the handler sets.
module _ (F : FileSystem) (what : NetCopyException → List ℕ) (unset : ℕ) where
  abbrev refused : ℕ → NetCopyException → FileResponse
  refused resume_offset e = record {
    success = false;
    error_message = what e;
    file_size = unset;
    resume_offset = resume_offset;
    session_id = [];
  }

  abbrev pub after_prepare : List ℕ → ℕ → Result ℕ × World F → FileResponse × World F
  after_prepare id resume_offset (throw e, w) = (refused resume_offset e, w)
  after_prepare id resume_offset (ok file_size, w) = (
    record {
      success = true;
      error_message = [];
      file_size = file_size;
      resume_offset = resume_offset;
      session_id = id;
    },
    w,
  )

  abbrev pub after_choice :
      List ℕ → List ℕ → FileRequest → Result (Text × ℕ) × World F → FileResponse × World F
  after_choice id client_ip request (throw e, w) = (refused unset e, w)
  after_choice id client_ip request (ok chosen, w) =
      after_prepare id chosen.1 (prepare_file F id client_ip request chosen.0 w)

  -- The answer, and the state behind it. The session's id is random.
  unfoldable pub handle_file_request :
      List ℕ → List ℕ → FileRequest → World F → FileResponse × World F
  handle_file_request id client_ip request w = after_choice id client_ip request (
      choose_file F request (record {
        handler = record w.handler { current_transfer_completed = false; stream = none };
        disk = w.disk;
      }))
