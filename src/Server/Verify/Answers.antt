-- ===== src/Server/Verify/Answers.antt =====
-- When a check of the whole file succeeds.
use net_copy.Common.{
  ℕ, ◌≡◌, ◌≢◌, ◌↔◌, refl, sym, ap, ◌∙◌, List, length, true, false, same_bytes, same_bytes→eq,
  same_bytes_self, Bool-cases, inl, inr, ok, NetCopyException, arith,
}
use net_copy.Crypto.Sha3.{sha3_256}
use net_copy.Crypto.Sha3.Digest.{length-sha3_256}
use net_copy.Protocol.FileVerifyRequest.{FileVerifyRequest}
use net_copy.Protocol.FileVerifyResponse.{FileVerifyResponse}
use net_copy.Files.Path.{Text, normalize_path, convert_to_native_path, is_absolute_path}
use net_copy.Files.Safe.{is_path_allowed}
use net_copy.Files.Disk.{FileSystem}
use net_copy.Server.State.{KnownHash, World}
use net_copy.Server.Request.{resolve_path}
use net_copy.Server.Upload.Complete.{known_hash}
use net_copy.Server.Verify.{
  is_of, actual_hash, existing_file, file_hash, verdict, handle_file_verify_request,
}

other_length : (a b : List ℕ) → length a ≢ length b → same_bytes a b ≡ false
other_length a b h = elim (Bool-cases (same_bytes a b)) [
  | inl y ↦ absurd (h (ap (λ l. length l) (same_bytes→eq a b y)))
  | inr n ↦ n
]

module _ (F : FileSystem) (xxhash64 : List ℕ → List ℕ) (what : NetCopyException → List ℕ)
    (mismatch : List ℕ) where
  -- A request for a file that is there and that the server's paths have.
  pub record IsServed (path : Text) (w : World F) : Type 0 where
    pub absolute : is_absolute_path (convert_to_native_path path) ≡ true
    pub allowed :
        is_path_allowed (F.weakly_canonical w.disk) w.handler.config.allowed_paths path ≡ true
    pub found : F.exists (normalize_path (convert_to_native_path path)) w.disk ≡ true

  abbrev pub resolved : Text → Text
  resolved path = normalize_path (convert_to_native_path path)

  served_answer :
      (request : FileVerifyRequest) (w : World F)
      → IsServed request.file_path w
      → handle_file_verify_request F xxhash64 what mismatch request w
        ≡ verdict F xxhash64 what mismatch request.expected_hash
            (actual_hash F xxhash64 request (resolved request.file_path) w, w)
  unfolding handle_file_verify_request file_hash existing_file resolve_path
  served_answer request w s = rw (s.absolute, s.allowed, s.found) refl

  streamed_actual :
      (request : FileVerifyRequest) (w : World F) (path : Text) (total : List ℕ)
      → w.handler.config.streaming_verification ≡ true
      → w.handler.last_received_file_hash ≡ known_hash path total
      → normalize_path path ≡ resolved request.file_path
      → actual_hash F xxhash64 request (resolved request.file_path) w ≡ ok (sha3_256 total)
  unfolding actual_hash
  streamed_actual request w path total streaming known same =
      let target = resolved request.file_path in
      let kept = ap (λ (k : KnownHash). k.valid) known in
      let of =
        ap (λ (k : KnownHash). is_of k target) known
        ∙ ap (λ q. same_bytes q target) same
        ∙ same_bytes_self target in
      rw (streaming, kept, of) (ap (λ (k : KnownHash). ok k.hash) known)

  -- While the hash of a file that was hashed as it came is kept, a check of that file succeeds exactly
  -- for the SHA3-256 of the data. So it fails for every hash of eight bytes, such as the xxHash64 that
  -- the client computes of a file that it has uploaded.
  pub verify-upload :
      (request : FileVerifyRequest) (w : World F) (path : Text) (total : List ℕ)
      → IsServed request.file_path w
      → w.handler.config.streaming_verification ≡ true
      → w.handler.last_received_file_hash ≡ known_hash path total
      → normalize_path path ≡ resolved request.file_path
      → let answer = (handle_file_verify_request F xxhash64 what mismatch request w).0 in
        ((answer.success ≡ true) ↔ (request.expected_hash ≡ sha3_256 total))
        × (length request.expected_hash ≡ 8 → answer.success ≡ false)
  verify-upload request w path total s streaming known same =
      let answer = (handle_file_verify_request F xxhash64 what mismatch request w).0 in
      let hash = sha3_256 total in
      let expected = request.expected_hash in
      let compared : answer.success ≡ same_bytes hash expected =
        ap (λ (a : FileVerifyResponse × World F). a.0.success)
          (served_answer request w s
            ∙ ap (λ r. verdict F xxhash64 what mismatch expected (r, w))
                (streamed_actual request w path total streaming known same)) in
      (
        (
          λ yes. sym (same_bytes→eq hash expected (sym compared ∙ yes)),
          λ e. compared ∙ ap (same_bytes hash) e ∙ same_bytes_self hash,
        ),
        λ eight. compared ∙ other_length hash expected (omega (arith, length-sha3_256 total)),
      )

  -- If the hashes of a file's blocks were computed and the hash of the file is kept no more, as after
  -- a write to the file, and no hash of streamed data is used, then a check succeeds for every hash
  -- that the client gives, whatever the file holds.
  pub verify_unchecked :
      (request : FileVerifyRequest) (w : World F)
      → IsServed request.file_path w
      → w.handler.config.streaming_verification ≡ false
      → w.handler.block_hashes_were_computed ≡ true
      → w.handler.cached_block_hash.valid ≡ false
      → is_of w.handler.cached_block_hash (resolved request.file_path) ≡ true
      → (handle_file_verify_request F xxhash64 what mismatch request w).0.success ≡ true
  unfolding actual_hash
  verify_unchecked request w s streaming computed stale same =
      rw (served_answer request w s, streaming, stale, computed, same)
        (same_bytes_self request.expected_hash)
