-- ===== src/Server/Queries.antt =====
-- `handle_list_request`, `handle_transfer_status_request` and the answer of `handle_download_request` of
-- src/server/server.cpp, with `list_directory` of src/file/file_manager.cpp.
pub mod Owned
pub mod Tests
use net_copy.Common.{
  ℕ, List, [], ◌∷◌, length, drop, get_or, Bool, true, false, not, ◌==◌, ◌&&◌, ◌||◌, same_bytes,
  if◌then◌else◌, Option, none, some, Result, ok, throw, and_then, NetCopyException, file_exception,
}
use net_copy.Protocol.ListRequest.{ListRequest}
use net_copy.Protocol.ListResponse.{ListResponse}
use net_copy.Protocol.RemoteFileInfo.{RemoteFileInfo}
use net_copy.Protocol.TransferStatusRequest.{TransferStatusRequest}
use net_copy.Protocol.TransferStatusResponse.{TransferStatusResponse}
use net_copy.Files.Path.{Text, convert_to_native_path, normalize_path}
use net_copy.Files.Safe.{is_path_allowed}
use net_copy.Files.Disk.{FileSystem}
use net_copy.Server.State.{
  size_or_throw, Status, transferring, completed, failed, Session, World, is_empty,
}

-- The last colon of an address, with what is before it, the last character first.
last_colon : Text → Text → Option Text → Option Text
last_colon before [] found = found
last_colon before (c ∷ cs) found =
    last_colon (c ∷ before) cs (if c == 58 then some before else found)

abbrev onto : Text → Text → Text
onto [] out = out
onto (c ∷ cs) out = onto cs (c ∷ out)

-- `[address]` before the colon loses its brackets.
abbrev unbracketed : ℕ → Text → Text
unbracketed first [] = []
unbracketed first (c ∷ cs) =
    if first == 91 && c == 93 then drop 1 (onto cs []) else onto (c ∷ cs) []

abbrev before_colon : Text → Option Text → Text
before_colon address none = address
before_colon address (some before) = unbracketed (get_or address 0 0) before

-- `get_ip_only`
unfoldable pub get_ip_only : Text → Text
unfolding last_colon
get_ip_only address = before_colon address (last_colon [] address none)

-- Whose session it is: the user's, or that of the address if no user owns it.
unfoldable pub is_owner : Session → List ℕ → Text → Bool
is_owner session user address =
    if not (is_empty session.owner_user)
    then same_bytes session.owner_user user
    else is_empty user && same_bytes (get_ip_only address) (get_ip_only session.owner_ip)

-- `SessionRegistry::get_session`. The registry is the list of its sessions, the newest first.
unfoldable pub get_session : List Session → List ℕ → Option Session
get_session [] id = none
get_session (s ∷ ss) id =
    let later = get_session ss id in if same_bytes s.session_id id then some s else later

-- "transferring", "completed" and "failed"
abbrev pub status_string : Status → List ℕ
status_string transferring =
    116 ∷ 114 ∷ 97 ∷ 110 ∷ 115 ∷ 102 ∷ 101 ∷ 114 ∷ 114 ∷ 105 ∷ 110 ∷ 103 ∷ []
status_string completed = 99 ∷ 111 ∷ 109 ∷ 112 ∷ 108 ∷ 101 ∷ 116 ∷ 101 ∷ 100 ∷ []
status_string failed = 102 ∷ 97 ∷ 105 ∷ 108 ∷ 101 ∷ 100 ∷ []

-- `refusal` gives the text of the answer; `unset` is what is in the memory of fields that are not set,
-- and `logs` the lines of a session.
module _ (not_found denied : List ℕ → List ℕ) (unset : ℕ) (unset_flag : Bool)
    (logs : Session → List ℕ) where
  abbrev pub no_status : List ℕ → TransferStatusResponse
  no_status text = record {
    success = false;
    error_message = text;
    active = unset_flag;
    bytes_transferred = unset;
    total_bytes = unset;
    status_string = [];
    logs = [];
  }

  abbrev pub status_of : List ℕ → Text → List ℕ → Option Session → TransferStatusResponse
  status_of user address id none = no_status (not_found id)
  status_of user address id (some s) =
      if not (is_owner s user address) then no_status (denied id) else record {
        success = true;
        error_message = [];
        active = s.is_active;
        bytes_transferred = s.bytes_transferred;
        total_bytes = s.total_bytes;
        status_string = status_string s.status;
        logs = logs s;
      }

  unfoldable pub handle_transfer_status_request :
      List Session → List ℕ → Text → TransferStatusRequest → TransferStatusResponse
  handle_transfer_status_request registry user address request =
      status_of user address request.session_id (get_session registry request.session_id)

module _ (F : FileSystem) where
  abbrev time_or_throw : Option ℕ → Result ℕ
  time_or_throw none = throw (file_exception "Failed to get last write time for ")
  time_or_throw (some t) = ok t

  -- `FileManager::last_write_time`
  unfoldable pub last_write_time : Text → F.Disk → Result ℕ
  last_write_time path d =
      if F.is_symlink path d
      then elim (F.last_write_time path d) [ none ↦ ok 0 | some t ↦ ok t ]
      else time_or_throw (F.last_write_time path d)

  -- An entry of `list_directory`.
  unfoldable pub info_of : F.Disk → Text → Result RemoteFileInfo
  info_of d path =
      let link = F.is_symlink path d in
      let directory = not link && F.is_directory path d in
      let size = if link || directory then ok 0 else size_or_throw F (F.file_size path d) in
      let time = if directory then ok 0 else last_write_time path d in
      and_then size (λ size. and_then time (λ time. ok (record {
        path = path;
        size = size;
        is_directory = directory;
        last_modified = time;
        permissions = F.get_permissions path d;
        is_symlink = link;
        symlink_target = if link then F.read_symlink path d else [];
      })))

  unfoldable pub infos_of : F.Disk → List Text → Result (List RemoteFileInfo)
  infos_of d [] = ok []
  infos_of d (p ∷ ps) = and_then (info_of d p) (λ i. and_then (infos_of d ps) (λ is. ok (i ∷ is)))

  abbrev entries_or_throw : Option (List Text) → Result (List Text)
  entries_or_throw none = throw (file_exception "Failed to list directory ")
  entries_or_throw (some paths) = ok paths

  -- `FileManager::list_directory`
  unfoldable pub list_directory : Text → Bool → F.Disk → Result (List RemoteFileInfo)
  list_directory path recursive d =
      and_then (entries_or_throw (F.entries_of recursive path d)) (infos_of d)

  module _ (what : NetCopyException → List ℕ) (denied not_found : Text → List ℕ) where
    abbrev no_list : List ℕ → ListResponse
    no_list text = record { success = false; error_message = text; entries = [] }

    abbrev listing : Result (List RemoteFileInfo) → ListResponse
    listing (throw e) = no_list (what e)
    listing (ok entries) = record { success = true; error_message = []; entries = entries }

    unfoldable pub handle_list_request : ListRequest → World F → ListResponse
    handle_list_request request w =
        let resolved = normalize_path (convert_to_native_path request.remote_path) in
        if not (
          is_path_allowed (F.weakly_canonical w.disk) w.handler.config.allowed_paths
            request.remote_path)
        then no_list (denied request.remote_path)
        else if not (F.exists resolved w.disk)
        then no_list (not_found resolved)
        else listing (list_directory resolved request.recursive w.disk)
