-- ===== src/Server/Tests.antt =====
-- Runs of the handler on a file system in memory, and of its theorems.
use net_copy.Common.{
  ℕ, ◌≡◌, ◌↔◌, refl, List, [], ◌∷◌, length, replicate, Bool, true, false, Option, none,
  NetCopyException, same_bytes, arith,
}
use net_copy.Crypto.Sha3.{sha3_256}
use net_copy.Protocol.FileRequest.{FileRequest}
use net_copy.Protocol.FileData.{FileData}
use net_copy.Protocol.FileVerifyRequest.{FileVerifyRequest}
use net_copy.Files.Path.{
  Text, convert_to_native_path, is_absolute_path, normalize_path, lexically_normal, walk, walk_step,
}
use net_copy.Files.Names.{filename, get_filename, get_directory, ends_with}
use net_copy.Files.Safe.{
  is_path_allowed, any_safe, is_path_safe, clean, trim_spaces_and_quotes, same_path, same_names,
  lexically_relative, mismatch, ups, downs,
}
use net_copy.Files.Disk.{open_write, write, preallocate_file, write_at}
use net_copy.Files.Memory.{memory, memory_laws}
use net_copy.Server.State.{is_empty, KnownHash, ConnectionHandler, World}
use net_copy.Server.Request.{
  is_granted, resolve_path, choose_file, prepare_file, handle_file_request,
}
use net_copy.Server.Request.Accepted.{handle_file_request_denied}
use net_copy.Server.Chunks.{is_marker_file, payload_of, write_chunk, place, process_chunk}
use net_copy.Server.Upload.{process_chunks, receive_chunks, handle_file_data}
use net_copy.Server.Upload.Content.{sent_chunks, Continues, end, next}
use net_copy.Server.Upload.Complete.{known_hash}
use net_copy.Server.Upload.Whole.{nothing_sent, then_sent, upload-stores}
use net_copy.Server.Verify.{handle_file_verify_request}
use net_copy.Server.Verify.Answers.{IsServed, verify-upload}

abbrev pub no_text : NetCopyException → List ℕ
no_text e = []

abbrev pub no_lz4 : List ℕ → ℕ → Option (List ℕ)
no_lz4 bytes size = none

-- `/srv`, `/srv/a` and `/etc`
abbrev srv : Text
srv = 47 ∷ 115 ∷ 114 ∷ 118 ∷ []

abbrev pub srv_a : Text
srv_a = 47 ∷ 115 ∷ 114 ∷ 118 ∷ 47 ∷ 97 ∷ []

abbrev pub etc : Text
etc = 47 ∷ 101 ∷ 116 ∷ 99 ∷ []

abbrev no_hash : KnownHash
no_hash = record { hash = []; path = []; valid = false }

-- A new connection to a server that hashes files as they come.
abbrev pub new_handler : ConnectionHandler
new_handler = record {
  config = record {
    allowed_paths = srv ∷ [];
    max_file_size = 0;
    streaming_verification = true;
    preallocate_files = true;
  };
  user_db = record { path = []; users = []; loaded = false };
  authenticated_user = [];
  current_file_path = [];
  stream = none;
  current_auto_create = true;
  current_truncate_on_zero = true;
  current_transfer_completed = false;
  current_is_symlink = false;
  current_symlink_target = [];
  current_permissions = 0;
  current_expected_file_size = 0;
  current_expected_last_modified = 0;
  current_preallocated = false;
  current_upload_hasher = none;
  current_upload_hash_next_offset = 0;
  current_upload_hash_valid = false;
  last_received_file_hash = no_hash;
  last_sent_file_hash = no_hash;
  cached_block_hash = no_hash;
  block_hashes_were_computed = false;
  current_session = none;
}

-- Every file holds seven bytes at first.
abbrev pub start : World memory
start = record { handler = new_handler; disk = λ p. replicate 7 255 }

-- The upload of five bytes to a path.
abbrev pub request_to : Text → FileRequest
request_to path = record {
  source_path = 97 ∷ [];
  destination_path = path;
  recursive = false;
  resume_offset = 0;
  auto_create_directories = true;
  truncate_destination = false;
  permissions = 0;
  is_symlink = false;
  symlink_target = [];
  file_size = 5;
  last_modified = 0;
}

abbrev pub message : ℕ → List ℕ → Bool → FileData
message offset bytes last = record {
  chunks = [];
  offset = offset;
  uncompressed_size = length bytes;
  data_bytes = bytes;
  is_last_chunk = last;
  compressed = false;
}

denied : is_granted memory (request_to etc) start ≡ false
unfolding is_path_allowed any_safe is_path_safe clean trim_spaces_and_quotes same_path same_names
    lexically_relative mismatch ups downs normalize_path convert_to_native_path lexically_normal
    walk walk_step same_bytes
denied = refl

handle_file_request_denied_example :
    let after = handle_file_request memory no_text 9 [] [] (request_to etc) start in
    (after.0.success ≡ false)
    × (after.1.disk ≡ start.disk)
    × (after.1.handler.current_file_path ≡ [])
handle_file_request_denied_example =
    handle_file_request_denied memory memory_laws no_text 9 [] [] (request_to etc) start denied

abbrev accepted : World memory
accepted = (handle_file_request memory no_text 9 [] [] (request_to srv_a) start).1

is_accepted : (handle_file_request memory no_text 9 [] [] (request_to srv_a) start).0.success ≡ true
unfolding handle_file_request choose_file resolve_path prepare_file is_path_allowed any_safe
    is_path_safe clean trim_spaces_and_quotes same_path same_names lexically_relative mismatch ups
    downs normalize_path convert_to_native_path lexically_normal walk walk_step same_bytes
    is_absolute_path ends_with get_directory
is_accepted = refl

abbrev first : FileData
first = message 0 (1 ∷ 2 ∷ 3 ∷ []) false

abbrev second : FileData
second = message 3 (4 ∷ 5 ∷ []) true

abbrev halfway : World memory
halfway = (handle_file_data memory no_text 9 no_lz4 first accepted).1

is_ordinary : is_marker_file accepted.handler.current_file_path ≡ false
unfolding handle_file_request choose_file resolve_path prepare_file is_path_allowed any_safe
    is_path_safe clean trim_spaces_and_quotes same_path same_names lexically_relative mismatch ups
    downs normalize_path convert_to_native_path lexically_normal walk walk_step same_bytes
    is_absolute_path ends_with get_directory is_marker_file get_filename filename
is_ordinary = refl

is_given : is_empty accepted.handler.current_file_path ≡ false
unfolding handle_file_request choose_file resolve_path prepare_file is_path_allowed any_safe
    is_path_safe clean trim_spaces_and_quotes same_path same_names lexically_relative mismatch ups
    downs normalize_path convert_to_native_path lexically_normal walk walk_step same_bytes
    is_absolute_path ends_with get_directory
is_given = refl

first_received : (handle_file_data memory no_text 9 no_lz4 first accepted).0.success ≡ true
unfolding handle_file_request choose_file resolve_path prepare_file is_path_allowed any_safe
    is_path_safe clean trim_spaces_and_quotes same_path same_names lexically_relative mismatch ups
    downs normalize_path convert_to_native_path lexically_normal walk walk_step same_bytes
    is_absolute_path ends_with get_directory is_marker_file get_filename filename handle_file_data
    receive_chunks process_chunks process_chunk payload_of place write_chunk open_write write
    preallocate_file write_at
first_received = refl

second_received : (handle_file_data memory no_text 9 no_lz4 second halfway).0.success ≡ true
unfolding handle_file_request choose_file resolve_path prepare_file is_path_allowed any_safe
    is_path_safe clean trim_spaces_and_quotes same_path same_names lexically_relative mismatch ups
    downs normalize_path convert_to_native_path lexically_normal walk walk_step same_bytes
    is_absolute_path ends_with get_directory is_marker_file get_filename filename handle_file_data
    receive_chunks process_chunks process_chunk payload_of place write_chunk open_write write
    preallocate_file write_at
second_received = refl

first-Continues : Continues memory no_lz4 [] (sent_chunks first) (1 ∷ 2 ∷ 3 ∷ [])
unfolding payload_of
first-Continues = next refl refl end

second-Continues :
    Continues memory no_lz4 (1 ∷ 2 ∷ 3 ∷ []) (sent_chunks second) (1 ∷ 2 ∷ 3 ∷ 4 ∷ 5 ∷ [])
unfolding payload_of
second-Continues = next refl refl end

upload-stores_example :
    let path = accepted.handler.current_file_path in
    let after = handle_file_data memory no_text 9 no_lz4 second halfway in
    (after.0.bytes_received ≡ 5)
    × (after.1.disk path ≡ 1 ∷ 2 ∷ 3 ∷ 4 ∷ 5 ∷ [])
    × (true ≡ true
        → after.1.handler.last_received_file_hash ≡ known_hash path (1 ∷ 2 ∷ 3 ∷ 4 ∷ 5 ∷ []))
upload-stores_example =
    upload-stores memory memory_laws no_text 9 no_lz4 [] [] (request_to srv_a) start halfway
      (1 ∷ 2 ∷ 3 ∷ []) (1 ∷ 2 ∷ 3 ∷ 4 ∷ 5 ∷ []) second refl is_given is_ordinary refl (omega arith)
      (λ found. ((_, refl), (_, refl))) is_accepted
      (then_sent first first-Continues refl first_received nothing_sent) second-Continues refl
      second_received

-- After an upload of one byte.
abbrev uploaded : World memory
uploaded = record {
  handler = record new_handler { last_received_file_hash = known_hash srv_a (7 ∷ []) };
  disk = λ p. 7 ∷ [];
}

abbrev pub some_hash : List ℕ → List ℕ
some_hash bytes = replicate 8 (length bytes)

abbrev pub check_of : List ℕ → FileVerifyRequest
check_of hash = record { file_path = srv_a; expected_hash = hash }

uploaded-IsServed : IsServed memory some_hash no_text [] srv_a uploaded
unfolding is_path_allowed any_safe is_path_safe clean trim_spaces_and_quotes same_path same_names
    lexically_relative mismatch ups downs normalize_path convert_to_native_path lexically_normal
    walk walk_step same_bytes is_absolute_path
uploaded-IsServed = record { absolute = refl; allowed = refl; found = refl }

srv_a_native : normalize_path srv_a ≡ normalize_path (convert_to_native_path srv_a)
unfolding convert_to_native_path
srv_a_native = refl

abbrev eight : List ℕ
eight = replicate 8 1

verify-upload_example :
    let answer =
      (handle_file_verify_request memory some_hash no_text [] (check_of eight) uploaded).0 in
    ((answer.success ≡ true) ↔ (eight ≡ sha3_256 (7 ∷ [])))
    × (length eight ≡ 8 → answer.success ≡ false)
verify-upload_example =
    verify-upload memory some_hash no_text [] (check_of eight) uploaded srv_a (7 ∷ [])
      uploaded-IsServed refl refl srv_a_native
