-- ===== src/Server/Confined/Grants.antt =====
-- The checks of files leave which file is written.
use net_copy.Common.{
  ℕ, ◌≡◌, refl, ◌∙◌, List, true, false, not, Result, ok, throw, NetCopyException, file_exception,
}
use net_copy.Protocol.FileVerifyRequest.{FileVerifyRequest}
use net_copy.Protocol.BlockHashesRequest.{BlockHashesRequest}
use net_copy.Files.Path.{Text, convert_to_native_path, is_absolute_path}
use net_copy.Files.Safe.{is_path_allowed}
use net_copy.Files.Disk.{FileSystem}
use net_copy.Files.Hashing.{compute_block_hashes}
use net_copy.Server.State.{World}
use net_copy.Server.Request.{resolve_path}
use net_copy.Server.Verify.{
  actual_hash, existing_file, file_hash, block_hashes, verdict, listing, handle_file_verify_request,
  handle_block_hashes_request,
}
use net_copy.Server.Confined.{
  target_of, Keeps, keeps, same, then-Keeps, if-Keeps, throw_if-Keeps, set_handler-Keeps,
  current-Keeps, return-Keeps,
}

module _ (F : FileSystem) where
  resolve_path-Keeps : (path : Text) → Keeps F target_of (resolve_path F path)
  unfolding resolve_path
  resolve_path-Keeps path =
      if-Keeps F target_of (is_absolute_path (convert_to_native_path path)) _ _
        (return-Keeps F target_of _) (keeps (λ w. refl))

module _ (F : FileSystem) (xxhash64 : List ℕ → List ℕ) where
  existing_file-Keeps : (path : Text) → Keeps F target_of (existing_file F xxhash64 path)
  unfolding existing_file
  existing_file-Keeps path = then-Keeps F target_of _ _ (resolve_path-Keeps F path) (λ resolved.
      then-Keeps F target_of _ _ (current-Keeps F target_of) (λ w.
        then-Keeps F target_of _ _
          (throw_if-Keeps F target_of
            (not (is_path_allowed (F.weakly_canonical w.disk) w.handler.config.allowed_paths path))
            (file_exception "Access denied: "))
          (λ allowed.
            then-Keeps F target_of _ _
              (throw_if-Keeps F target_of (not (F.exists resolved w.disk))
                (file_exception "File not found: "))
              (λ found. return-Keeps F target_of resolved))))

  file_hash-Keeps : (request : FileVerifyRequest) → Keeps F target_of (file_hash F xxhash64 request)
  unfolding file_hash
  file_hash-Keeps request =
      then-Keeps F target_of _ _ (existing_file-Keeps request.file_path) (λ resolved.
        then-Keeps F target_of _ (λ w v. (actual_hash F xxhash64 request resolved w, v))
          (current-Keeps F target_of) (λ w. keeps (λ v. refl)))

  block_hashes-Keeps :
      (request : BlockHashesRequest) → Keeps F target_of (block_hashes F xxhash64 request)
  unfolding block_hashes
  block_hashes-Keeps request =
      then-Keeps F target_of _ _ (existing_file-Keeps request.file_path) (λ resolved.
        then-Keeps F target_of _ _
          (set_handler-Keeps F target_of (λ h. record h { current_truncate_on_zero = false })
            (λ h. refl))
          (λ kept. then-Keeps F target_of _ _ (current-Keeps F target_of) (λ w.
            then-Keeps F target_of
              (λ v. (compute_block_hashes F xxhash64 resolved request.block_size w.disk, v)) _
              (keeps (λ v. refl))
              (λ hashes.
                then-Keeps F target_of _ _
                  (set_handler-Keeps F target_of
                    (λ h. record h {
                      cached_block_hash = record { hash = hashes.1; path = resolved; valid = true };
                      block_hashes_were_computed = true;
                    })
                    (λ h. refl))
                  (λ cached. return-Keeps F target_of hashes.0)))))

  module _ (what : NetCopyException → List ℕ) where
    pub handle_file_verify_request_same :
        (mismatch : List ℕ) (request : FileVerifyRequest) (w : World F)
        → target_of (handle_file_verify_request F xxhash64 what mismatch request w).1.handler
          ≡ target_of w.handler
    unfolding handle_file_verify_request
    handle_file_verify_request_same mismatch request w =
        told (file_hash F xxhash64 request w) ∙ same F target_of (file_hash-Keeps request) w
      where
        told :
            (r : Result (List ℕ) × World F)
            → target_of (verdict F xxhash64 what mismatch request.expected_hash r).1.handler
              ≡ target_of r.1.handler
        told (ok hash, v) = refl
        told (throw e, v) = refl

    pub handle_block_hashes_request_same :
        (request : BlockHashesRequest) (w : World F)
        → target_of (handle_block_hashes_request F xxhash64 what request w).1.handler
          ≡ target_of w.handler
    unfolding handle_block_hashes_request
    handle_block_hashes_request_same request w =
        told (block_hashes F xxhash64 request w) ∙ same F target_of (block_hashes-Keeps request) w
      where
        told :
            (r : Result (List (ℕ × List ℕ)) × World F)
            → target_of (listing F xxhash64 what request.block_size r).1.handler
              ≡ target_of r.1.handler
        told (ok blocks, v) = refl
        told (throw e, v) = refl
