-- ===== src/Server/Confined/Writes.antt =====
-- `handle_file_data` writes to the file of the transfer and keeps which one that is.
use net_copy.Common.{
  ◌+◌, ◌%◌, ◌^◌, ◌==◌, ◌||◌, ◌&&◌, not, length, ltb, file_exception, runtime_error, arith, ℕ, ◌≡◌,
  refl, ◌∙◌, List, [], ◌∷◌, Bool, true, false, if◌then◌else◌, Option, none, some, Result, ok, throw,
  NetCopyException,
}
use net_copy.Crypto.Sha3.{Sha3Hasher}
use net_copy.Protocol.FileData.{FileData, single, or_single}
use net_copy.Protocol.Chunk.{Chunk}
use net_copy.Files.Disk.{FileSystem, open_write, create_symlink, ensure_directory}
use net_copy.Files.Path.{Text}
use net_copy.Files.Names.{get_directory}
use net_copy.Server.State.{ConnectionHandler, World, is_empty}
use net_copy.Server.Chunks.{
  is_marker_file, preallocate, payload_of, is_open_at, hash_with, hash_chunk, open_file,
  forget_block_hash, open_stream, write_stream, write_chunk, place_symlink, make_marker, place,
  end_chunk, process_chunk,
}
use net_copy.Server.Upload.{
  Progress, count_chunk, count_session, process_chunks, receive_chunks, count_transfer,
  after_chunks, finish, is_plain, shrink, complete, handle_file_data,
}
use net_copy.Server.Confined.{
  Target, target_of, Keeps, keeps, same, then-Keeps, if-Keeps, throw_if-Keeps, or_raise-Keeps,
  set_disk-Keeps, set_handler-Keeps, current-Keeps, return-Keeps,
}

-- What `handle_file_data` keeps.
pub record Kept : Type 0 where
  pub target : Target
  pub is_symlink : Bool
  pub hashed_path : Text
  pub were_computed : Bool

abbrev pub kept_of : ConnectionHandler → Kept
kept_of h = record {
  target = target_of h;
  is_symlink = h.current_is_symlink;
  hashed_path = h.cached_block_hash.path;
  were_computed = h.block_hashes_were_computed;
}

pub hash_with_same :
    (o : Option Sha3Hasher) (offset : ℕ) (payload : List ℕ) (h : ConnectionHandler)
    → kept_of (hash_with o offset payload h) ≡ kept_of h
hash_with_same none offset payload h = refl
hash_with_same (some x) offset payload h = ground arith

module _ (F : FileSystem) where
  pub open_stream-Keeps : Keeps F kept_of (open_stream F)
  open_stream-Keeps = then-Keeps F kept_of _ _ (current-Keeps F kept_of) (λ w.
      if-Keeps F kept_of (is_open_at w.handler.stream w.handler.current_file_path) _ _
        (return-Keeps F kept_of tt)
        (then-Keeps F kept_of _ _
          (set_handler-Keeps F kept_of (λ h. record h { stream = none }) (λ h. refl))
          (λ closed.
            then-Keeps F kept_of _ _
              (or_raise-Keeps F kept_of
                (file_exception "Failed to open destination file for writing: ")
                (λ v.
                  open_write F w.handler.current_file_path w.handler.current_truncate_on_zero
                    w.handler.current_auto_create w.disk))
              (λ opened.
                then-Keeps F kept_of _ _ (set_disk-Keeps F kept_of (preallocate F w.handler))
                  (λ allocated. set_handler-Keeps F kept_of open_file (λ h. refl))))))

  pub write_chunk-Keeps :
      (offset : ℕ) (payload : List ℕ) → Keeps F kept_of (write_chunk F offset payload)
  unfolding write_chunk
  write_chunk-Keeps offset payload = then-Keeps F kept_of _ _ open_stream-Keeps (λ opened.
      then-Keeps F kept_of _ _
        (set_handler-Keeps F kept_of (hash_chunk offset payload)
          (λ h. hash_with_same h.current_upload_hasher offset payload h))
        (λ hashed.
          then-Keeps F kept_of (write_stream F offset payload) _ (keeps (λ w. refl))
            (λ written. set_handler-Keeps F kept_of forget_block_hash (λ h. refl))))

  place_symlink-Keeps : Keeps F kept_of (place_symlink F)
  place_symlink-Keeps = then-Keeps F kept_of _ _ (current-Keeps F kept_of) (λ w.
      let path = w.handler.current_file_path in
      then-Keeps F kept_of _ _
        (set_disk-Keeps F kept_of
          (λ d. if F.exists path d || F.is_symlink path d then F.remove path d else d))
        (λ removed.
          then-Keeps F kept_of _ _
            (or_raise-Keeps F kept_of (file_exception "Failed to create symlink: ")
              (λ v. create_symlink F w.handler.current_symlink_target path v.disk))
            (λ linked. set_disk-Keeps F kept_of (λ d.
              if w.handler.current_permissions == 0
              then d
              else F.set_permissions path w.handler.current_permissions d))))

  make_marker-Keeps : Keeps F kept_of (make_marker F)
  make_marker-Keeps = then-Keeps F kept_of _ _ (current-Keeps F kept_of) (λ w.
      then-Keeps F kept_of _ _
        (throw_if-Keeps F kept_of (not w.handler.current_auto_create)
          (file_exception "Server policy does not allow empty directory creation"))
        (λ may.
          set_disk-Keeps F kept_of
            (ensure_directory F (get_directory w.handler.current_file_path))))

  pub place-Keeps :
      (is_marker : Bool) (offset : ℕ) (payload : List ℕ)
      → Keeps F kept_of (place F is_marker offset payload)
  unfolding place
  place-Keeps is_marker offset payload = then-Keeps F kept_of _ _ (current-Keeps F kept_of) (λ w.
      if-Keeps F kept_of w.handler.current_is_symlink _ _ place_symlink-Keeps
        (if-Keeps F kept_of is_marker _ _ make_marker-Keeps (write_chunk-Keeps offset payload)))

  end_chunk-Keeps : (offset size : ℕ) → Keeps F kept_of (end_chunk F offset size)
  end_chunk-Keeps offset size = then-Keeps F kept_of _ _ (current-Keeps F kept_of) (λ w.
      let end_offset = (offset + size) % 2 ^ 64 in
      then-Keeps F kept_of _ _
        (throw_if-Keeps F kept_of
          (ltb 0 w.handler.config.max_file_size && ltb w.handler.config.max_file_size end_offset)
          (file_exception "File exceeds maximum allowed size of "))
        (λ within. return-Keeps F kept_of (end_offset, size)))

  count_transfer-Keeps : (p : Progress) → Keeps F kept_of (count_transfer F p)
  count_transfer-Keeps p =
      then-Keeps F kept_of _ _
        (set_handler-Keeps F kept_of
          (λ h. record h { current_session = count_session p.payload_size h.current_session })
          (λ h. refl))
        (λ counted. return-Keeps F kept_of p)

module _ (F : FileSystem) (lz4 : List ℕ → ℕ → Option (List ℕ)) where
  pub process_chunk-Keeps :
      (is_marker : Bool) (c : Chunk) → Keeps F kept_of (process_chunk F lz4 is_marker c)
  unfolding process_chunk
  process_chunk-Keeps is_marker c =
      then-Keeps F kept_of (λ w. (payload_of F lz4 c, w)) _ (keeps (λ w. refl))
        (λ payload.
          then-Keeps F kept_of _ _ (place-Keeps F is_marker c.offset payload)
            (λ placed. end_chunk-Keeps F c.offset (length payload)))

  pub process_chunks-Keeps :
      (is_marker : Bool) (chunks : List Chunk) (p : Progress)
      → Keeps F kept_of (process_chunks F lz4 is_marker chunks p)
  unfolding process_chunks
  process_chunks-Keeps is_marker [] p = return-Keeps F kept_of p
  process_chunks-Keeps is_marker (c ∷ cs) p =
      then-Keeps F kept_of _ _ (process_chunk-Keeps is_marker c)
        (λ ended. process_chunks-Keeps is_marker cs (count_chunk c ended p))

  pub receive_chunks-Keeps : (m : FileData) → Keeps F kept_of (receive_chunks F lz4 m)
  unfolding receive_chunks
  receive_chunks-Keeps m = then-Keeps F kept_of _ _ (current-Keeps F kept_of) (λ w.
      then-Keeps F kept_of _ _
        (throw_if-Keeps F kept_of (is_empty w.handler.current_file_path)
          (runtime_error "No file transfer in progress"))
        (λ started.
          then-Keeps F kept_of _ _
            (process_chunks-Keeps (is_marker_file w.handler.current_file_path)
              (or_single (single m) m.chunks)
              (record { max_bytes_received = 0; payload_size = 0; completes = false }))
            (λ p. count_transfer-Keeps F p)))

module _ (F : FileSystem) (what : NetCopyException → List ℕ) (unset : ℕ) where
  finish_same :
      (w : World F) (o : Option F.Disk) → kept_of (finish F w o).handler ≡ kept_of w.handler
  finish_same w none = refl
  finish_same w (some d) = refl

  after_chunks_same :
      (r : Result Progress × World F)
      → kept_of (after_chunks F what unset r).1.handler ≡ kept_of r.1.handler
  after_chunks_same (throw e, w) = refl
  after_chunks_same (ok p, w) = completed_same p.completes
    where
      completed_same :
          (b : Bool) → kept_of (if b then complete F w else w).handler ≡ kept_of w.handler
      completed_same true =
          finish_same w (if is_plain w.handler then shrink F w.handler w.disk else some w.disk)
      completed_same false = refl

  pub handle_file_data_same :
      (lz4 : List ℕ → ℕ → Option (List ℕ)) (m : FileData) (w : World F)
      → kept_of (handle_file_data F what unset lz4 m w).1.handler ≡ kept_of w.handler
  unfolding handle_file_data
  handle_file_data_same lz4 m w =
      after_chunks_same (receive_chunks F lz4 m w) ∙ same F kept_of (receive_chunks-Keeps F lz4 m) w
