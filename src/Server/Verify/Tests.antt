-- ===== src/Server/Verify/Tests.antt =====
-- A run of a delta transfer on a file system in memory.
use net_copy.Common.{same_bytes, ◌≡◌, refl, [], ◌∷◌, replicate, true, false}
use net_copy.Protocol.FileData.{FileData}
use net_copy.Protocol.BlockHashesRequest.{BlockHashesRequest}
use net_copy.Files.Path.{
  convert_to_native_path, is_absolute_path, normalize_path, lexically_normal, walk, walk_step,
}
use net_copy.Files.Names.{filename, get_filename, get_directory, ends_with}
use net_copy.Files.Safe.{
  is_path_allowed, any_safe, is_path_safe, clean, trim_spaces_and_quotes, same_path, same_names,
  lexically_relative, mismatch, ups, downs,
}
use net_copy.Files.Disk.{open_write, write, preallocate_file, write_at}
use net_copy.Files.Hashing.{compute_block_hashes, read_file, read_from}
use net_copy.Files.Memory.{memory, memory_laws}
use net_copy.Server.State.{World}
use net_copy.Server.Request.{resolve_path}
use net_copy.Server.Chunks.{is_marker_file, payload_of, write_chunk, place, process_chunk}
use net_copy.Server.Upload.{process_chunks, receive_chunks, handle_file_data}
use net_copy.Server.Tests.{no_text, no_lz4, some_hash, new_handler, message, srv_a, check_of}
use net_copy.Server.Verify.{
  existing_file, block_hashes, handle_block_hashes_request, handle_file_verify_request,
}
use net_copy.Server.Verify.Answers.{IsServed}
use net_copy.Server.Verify.Delta.{verify_delta}

-- A transfer to a file that holds seven bytes, without streaming_verification.
abbrev begun : World memory
begun = record {
  handler = record new_handler {
    config = record new_handler.config { streaming_verification = false };
    current_file_path = srv_a;
  };
  disk = λ p. replicate 7 255;
}

abbrev blocks_of_a : BlockHashesRequest
blocks_of_a = record { file_path = srv_a; block_size = 4 }

abbrev changes : FileData
changes = message 0 (1 ∷ 2 ∷ []) false

abbrev hashed : World memory
hashed = (handle_block_hashes_request memory some_hash no_text blocks_of_a begun).1

abbrev written : World memory
written = (handle_file_data memory no_text 9 no_lz4 changes hashed).1

begun_ordinary : is_marker_file srv_a ≡ false
unfolding is_marker_file get_filename filename same_bytes
begun_ordinary = refl

begun_at : normalize_path srv_a ≡ normalize_path (convert_to_native_path srv_a)
unfolding convert_to_native_path
begun_at = refl

begun_normal :
    normalize_path (normalize_path (convert_to_native_path srv_a))
    ≡ normalize_path (convert_to_native_path srv_a)
unfolding convert_to_native_path normalize_path lexically_normal walk walk_step same_bytes
begun_normal = refl

blocks_hashed :
    (handle_block_hashes_request memory some_hash no_text blocks_of_a begun).0.success ≡ true
unfolding handle_block_hashes_request block_hashes existing_file compute_block_hashes read_file
    read_from handle_file_data resolve_path is_path_allowed any_safe is_path_safe clean
    trim_spaces_and_quotes same_path same_names lexically_relative mismatch ups downs normalize_path
    convert_to_native_path lexically_normal walk walk_step same_bytes is_absolute_path ends_with
    get_directory is_marker_file get_filename filename receive_chunks process_chunks process_chunk
    payload_of place write_chunk open_write write preallocate_file write_at
blocks_hashed = refl

changes_written : (handle_file_data memory no_text 9 no_lz4 changes hashed).0.success ≡ true
unfolding handle_block_hashes_request block_hashes existing_file compute_block_hashes read_file
    read_from handle_file_data resolve_path is_path_allowed any_safe is_path_safe clean
    trim_spaces_and_quotes same_path same_names lexically_relative mismatch ups downs normalize_path
    convert_to_native_path lexically_normal walk walk_step same_bytes is_absolute_path ends_with
    get_directory is_marker_file get_filename filename receive_chunks process_chunks process_chunk
    payload_of place write_chunk open_write write preallocate_file write_at
changes_written = refl

written-IsServed : IsServed memory some_hash no_text [] srv_a written
unfolding handle_block_hashes_request block_hashes existing_file compute_block_hashes read_file
    read_from handle_file_data resolve_path is_path_allowed any_safe is_path_safe clean
    trim_spaces_and_quotes same_path same_names lexically_relative mismatch ups downs normalize_path
    convert_to_native_path lexically_normal walk walk_step same_bytes is_absolute_path ends_with
    get_directory is_marker_file get_filename filename receive_chunks process_chunks process_chunk
    payload_of place write_chunk open_write write preallocate_file write_at
written-IsServed = record { absolute = refl; allowed = refl; found = refl }

verify_delta_example :
    (handle_file_verify_request memory some_hash no_text [] (check_of (9 ∷ [])) written).0.success
    ≡ true
verify_delta_example =
    verify_delta memory memory_laws some_hash no_text [] 9 no_lz4 blocks_of_a changes
      (check_of (9 ∷ [])) begun refl refl refl begun_ordinary begun_at begun_normal blocks_hashed
      changes_written refl written-IsServed
