-- ===== src/Server/State.antt =====
-- What a connection keeps between messages: the fields of ConnectionHandler (include/server/server.h)
-- that the file operations use, the part of ServerConfig that they read, and the disk.
use net_copy.Common.{
  ok, throw, file_exception, ℕ, List, [], ◌∷◌, Bool, true, false, Option, none, some, Result,
  NetCopyException,
}
use net_copy.Auth.UserDb.{UserDb}
use net_copy.Crypto.Sha3.{Sha3Hasher}
use net_copy.Files.Path.{Text}
use net_copy.Files.Disk.{FileSystem}
use net_copy.Server.Run.{raise, change}

-- A limit of 0 stands for none.
pub record ServerConfig : Type 0 where
  pub allowed_paths : List Text
  pub max_file_size : ℕ
  pub streaming_verification : Bool
  pub preallocate_files : Bool

-- The values of `status` of a session.
pub data Status : Type 0 where
  transferring : Status
  completed : Status
  failed : Status

-- `ServerTransferSession`, without its log lines.
pub record Session : Type 0 where
  pub session_id : List ℕ
  pub source_path : Text
  pub destination_path : Text
  pub owner_user : List ℕ
  pub owner_ip : List ℕ
  pub bytes_transferred : ℕ
  pub total_bytes : ℕ
  pub is_active : Bool
  pub status : Status

-- `SessionRegistry::create_session`. The random id is an argument.
abbrev pub create_session : List ℕ → Text → Text → List ℕ → List ℕ → ℕ → Session
create_session id src dest user ip total_size = record {
  session_id = id;
  source_path = src;
  destination_path = dest;
  owner_user = user;
  owner_ip = ip;
  bytes_transferred = 0;
  total_bytes = total_size;
  is_active = true;
  status = transferring;
}

abbrev pub end_session : Status → Option Session → Option Session
end_session status none = none
end_session status (some s) = some (record s { is_active = false; status = status })

-- A hash that was computed for a path, as long as it is valid.
pub record KnownHash : Type 0 where
  pub hash : List ℕ
  pub path : Text
  pub valid : Bool

-- `stream` is the path of the open file, none if none is open.
pub record ConnectionHandler : Type 0 where
  pub config : ServerConfig
  pub user_db : UserDb
  pub authenticated_user : List ℕ
  pub current_file_path : Text
  pub stream : Option Text
  pub current_auto_create : Bool
  pub current_truncate_on_zero : Bool
  pub current_transfer_completed : Bool
  pub current_is_symlink : Bool
  pub current_symlink_target : Text
  pub current_permissions : ℕ
  pub current_expected_file_size : ℕ
  pub current_expected_last_modified : ℕ
  pub current_preallocated : Bool
  pub current_upload_hasher : Option Sha3Hasher
  pub current_upload_hash_next_offset : ℕ
  pub current_upload_hash_valid : Bool
  pub last_received_file_hash : KnownHash
  pub last_sent_file_hash : KnownHash
  pub cached_block_hash : KnownHash
  pub block_hashes_were_computed : Bool
  pub current_session : Option Session

module _ (F : FileSystem) where
  pub record World : Type 0 where
    pub handler : ConnectionHandler
    pub disk : F.Disk

  -- Code of the handler.
  abbrev pub Run : Type 0 → Type 0
  Run A = World → Result A × World

  abbrev pub set_handler : (ConnectionHandler → ConnectionHandler) → Run (Unit {0})
  set_handler f = change (λ w. record { handler = f w.handler; disk = w.disk })

  abbrev pub set_disk : (F.Disk → F.Disk) → Run (Unit {0})
  set_disk f = change (λ w. record { handler = w.handler; disk = f w.disk })

  -- A call that gives a disk or fails.
  abbrev pub or_raise : NetCopyException → Option F.Disk → Run (Unit {0})
  or_raise e none = raise e
  or_raise e (some d) = set_disk (λ old. d)

  -- `FileManager::file_size`
  abbrev pub size_or_throw : Option ℕ → Result ℕ
  size_or_throw none = throw (file_exception "Failed to get file size for ")
  size_or_throw (some n) = ok n

  abbrev pub size_of : Text → Run ℕ
  size_of path w = (size_or_throw (F.file_size path w.disk), w)

abbrev pub is_empty : Text → Bool
is_empty [] = true
is_empty (c ∷ cs) = false
