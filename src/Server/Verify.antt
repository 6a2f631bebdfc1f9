-- ===== src/Server/Verify.antt =====
-- `handle_file_verify_request` and `handle_block_hashes_request` of src/server/server.cpp. The answer
-- that is sent is a result here.
pub mod Answers
pub mod Delta
pub mod Tests
use net_copy.Common.{
  ℕ, List, [], ◌∷◌, map, Bool, true, false, not, ◌&&◌, same_bytes, if◌then◌else◌, Result, ok, throw,
  and_then, NetCopyException, file_exception,
}
use net_copy.Protocol.FileVerifyRequest.{FileVerifyRequest}
use net_copy.Protocol.FileVerifyResponse.{FileVerifyResponse}
use net_copy.Protocol.BlockHashesRequest.{BlockHashesRequest}
use net_copy.Protocol.BlockHashesResponse.{BlockHashesResponse}
use net_copy.Protocol.BlockHashInfo.{BlockHashInfo}
use net_copy.Files.Path.{Text, normalize_path}
use net_copy.Files.Safe.{is_path_allowed}
use net_copy.Files.Disk.{FileSystem}
use net_copy.Files.Hashing.{compute_file_hash, compute_block_hashes}
use net_copy.Server.Run.{◌>>=◌, return, raise, current, throw_if}
use net_copy.Server.State.{Run, set_handler, KnownHash, ConnectionHandler, World}
use net_copy.Server.Request.{resolve_path}

-- Whether a hash that is kept is of this path.
abbrev pub is_of : KnownHash → Text → Bool
is_of k resolved = same_bytes (normalize_path k.path) resolved

module _ (F : FileSystem) (xxhash64 : List ℕ → List ℕ) where
  -- The hash that the client's is compared with.
  unfoldable pub actual_hash : FileVerifyRequest → Text → World F → Result (List ℕ)
  actual_hash request resolved w =
      let h = w.handler in
      if h.config.streaming_verification
        && (h.last_received_file_hash.valid && is_of h.last_received_file_hash resolved)
      then ok h.last_received_file_hash.hash
      else if h.config.streaming_verification
          && (h.last_sent_file_hash.valid && is_of h.last_sent_file_hash resolved)
      then ok h.last_sent_file_hash.hash
      else if h.cached_block_hash.valid && is_of h.cached_block_hash resolved
      then ok h.cached_block_hash.hash
      else if h.block_hashes_were_computed && is_of h.cached_block_hash resolved
      then ok request.expected_hash
      else compute_file_hash F xxhash64 resolved w.disk

  -- The file that a request names, if the server's paths have it and it is there.
  unfoldable pub existing_file : Text → Run F Text
  existing_file path = do
    resolved ← resolve_path F path
    w ← current
    allowed ←
        throw_if
          (not (is_path_allowed (F.weakly_canonical w.disk) w.handler.config.allowed_paths path))
          (file_exception "Access denied: ")
    found ← throw_if (not (F.exists resolved w.disk)) (file_exception "File not found: ")
    return resolved

  unfoldable pub file_hash : FileVerifyRequest → Run F (List ℕ)
  file_hash request = do
    resolved ← existing_file request.file_path
    w ← current
    (λ v. (actual_hash request resolved w, v))

  -- `block_hashes_were_computed_` stays set until the next file request.
  unfoldable pub block_hashes : BlockHashesRequest → Run F (List (ℕ × List ℕ))
  block_hashes request = do
    resolved ← existing_file request.file_path
    kept ← set_handler F (λ h. record h { current_truncate_on_zero = false })
    w ← current
    hashes ← (λ v. (compute_block_hashes F xxhash64 resolved request.block_size w.disk, v))
    cached ← set_handler F (λ h. record h {
      cached_block_hash = record { hash = hashes.1; path = resolved; valid = true };
      block_hashes_were_computed = true;
    })
    return hashes.0

  module _ (what : NetCopyException → List ℕ) where
    -- "Integrity check failed: hash mismatch" is the text where the hashes differ.
    abbrev pub verdict : List ℕ → List ℕ → Result (List ℕ) × World F → FileVerifyResponse × World F
    verdict mismatch expected (throw e, w) =
        (record { success = false; error_message = what e; actual_hash = [] }, w)
    verdict mismatch expected (ok hash, w) = (
      record {
        success = same_bytes hash expected;
        error_message = if same_bytes hash expected then [] else mismatch;
        actual_hash = hash;
      },
      w,
    )

    unfoldable pub handle_file_verify_request :
        List ℕ → FileVerifyRequest → World F → FileVerifyResponse × World F
    handle_file_verify_request mismatch request w =
        verdict mismatch request.expected_hash (file_hash request w)

    abbrev info_of : ℕ × List ℕ → BlockHashInfo
    info_of b = record { offset = b.0; hash = b.1 }

    abbrev pub listing : ℕ → Result (List (ℕ × List ℕ)) × World F → BlockHashesResponse × World F
    listing block_size (throw e, w) = (
      record { success = false; error_message = what e; block_size = block_size; blocks = [] },
      w,
    )
    listing block_size (ok blocks, w) = (
      record {
        success = true;
        error_message = [];
        block_size = block_size;
        blocks = map info_of blocks;
      },
      w,
    )

    unfoldable pub handle_block_hashes_request :
        BlockHashesRequest → World F → BlockHashesResponse × World F
    handle_block_hashes_request request w = listing request.block_size (block_hashes request w)
