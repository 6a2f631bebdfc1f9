-- ===== src/Server/Verify/Delta.antt =====
-- A delta transfer: the hashes of the blocks of the old file, then new data, then the check.
use net_copy.Common.{
  none, some, Bool-cases, inl, inr, ℕ, ◌≡◌, refl, sym, ap, ◌∙◌, subst, List, [], ◌∷◌, length, Bool,
  true, false, not, ◌&&◌, same_bytes, same_bytes_self, if◌then◌else◌, Option, Result, ok, throw,
  NetCopyException,
}
use net_copy.Protocol.Chunk.{Chunk}
use net_copy.Protocol.FileData.{FileData, single, or_single}
use net_copy.Protocol.FileVerifyRequest.{FileVerifyRequest}
use net_copy.Protocol.BlockHashesRequest.{BlockHashesRequest}
use net_copy.Files.Path.{is_absolute_path, Text, normalize_path, convert_to_native_path}
use net_copy.Server.Request.{resolve_path}
use net_copy.Files.Safe.{is_path_allowed}
use net_copy.Files.Disk.{FileSystem, IsPosix}
use net_copy.Files.Hashing.{compute_block_hashes}
use net_copy.Server.Run.{pass}
use net_copy.Server.Run.Laws.{passed}
use net_copy.Server.State.{ConnectionHandler, World, is_empty}
use net_copy.Server.Chunks.{
  is_marker_file, payload_of, open_stream, hash_chunk, write_stream, write_chunk, place,
  process_chunk,
}
use net_copy.Server.Chunks.Content.{end_chunk_ok}
use net_copy.Server.Upload.{
  Progress, count_chunk, count_transfer, process_chunks, receive_chunks, after_chunks, finish,
  is_plain, shrink, complete, handle_file_data,
}
use net_copy.Server.Confined.{same}
use net_copy.Server.Confined.Writes.{
  Kept, kept_of, hash_with_same, open_stream-Keeps, process_chunk-Keeps, handle_file_data_same,
}
use net_copy.Server.Verify.{
  existing_file, block_hashes, listing, handle_block_hashes_request, handle_file_verify_request,
}
use net_copy.Server.Verify.Answers.{IsServed, resolved, verify_unchecked}

-- The blocks that were hashed are of the file that is written, which is a plain one.
abbrev pub IsHashedFile : ConnectionHandler → Type 0
IsHashedFile h =
    (normalize_path h.cached_block_hash.path ≡ normalize_path h.current_file_path)
    × (h.current_is_symlink ≡ false)

and_false : (b : Bool) → (b && false) ≡ false
and_false true = refl
and_false false = refl

same_IsHashedFile :
    (h k : ConnectionHandler) → kept_of k ≡ kept_of h → IsHashedFile h → IsHashedFile k
same_IsHashedFile h k e (same_path, plain) = (
  ap (λ (x : Kept). normalize_path x.hashed_path) e
      ∙ same_path
      ∙ sym (ap (λ (x : Kept). normalize_path x.target.path) e),
  ap (λ (x : Kept). x.is_symlink) e ∙ plain,
)

module _ (F : FileSystem) where
  -- A write to the file forgets its hash.
  write_chunk_forgets :
      (offset : ℕ) (payload : List ℕ) (w : World F) (u : Unit {0})
      → IsHashedFile w.handler
      → (write_chunk F offset payload w).0 ≡ ok u
      → (write_chunk F offset payload w).1.handler.cached_block_hash.valid ≡ false
  unfolding write_chunk
  write_chunk_forgets offset payload w u hashed done =
      let (a, opened_ok, to_hash) = passed (open_stream F w) _ u done in
      let w1 = (open_stream F w).1 in
      let h2 = hash_chunk offset payload w1.handler in
      let w2 : World F = record { handler = h2; disk = w1.disk } in
      let (b, written_ok, to_end) =
        passed (write_stream F offset payload w2) _ u (ap (λ r. r.0) (sym to_hash) ∙ done) in
      let (same_path, plain) =
        same_IsHashedFile w.handler h2
          (hash_with_same w1.handler.current_upload_hasher offset payload w1.handler
            ∙ same F kept_of (open_stream-Keeps F) w)
          hashed in
      ap (λ (r : Result (Unit {0}) × World F). r.1.handler.cached_block_hash.valid)
        (to_hash ∙ to_end)
      ∙ ap
          (λ q.
            h2.cached_block_hash.valid && not (same_bytes q (normalize_path h2.current_file_path)))
          same_path
      ∙ ap (λ c. h2.cached_block_hash.valid && not c)
          (same_bytes_self (normalize_path h2.current_file_path))
      ∙ and_false h2.cached_block_hash.valid

module _ (F : FileSystem) (P : IsPosix F) (lz4 : List ℕ → ℕ → Option (List ℕ)) where
  process_chunk_forgets :
      (c : Chunk) (w : World F) (ended : ℕ × ℕ)
      → IsHashedFile w.handler
      → (process_chunk F lz4 false c w).0 ≡ ok ended
      → (process_chunk F lz4 false c w).1.handler.cached_block_hash.valid ≡ false
  unfolding process_chunk place
  process_chunk_forgets c w ended (same_path, plain) done =
      let (payload, sent, to_place) = passed (payload_of F lz4 c, w) _ ended done in
      let known : place F false c.offset payload w ≡ write_chunk F c.offset payload w =
        rw plain refl in
      let (u, placed_ok, to_end) =
        passed (place F false c.offset payload w) _ ended (ap (λ r. r.0) (sym to_place) ∙ done) in
      let v = (place F false c.offset payload w).1 in
      let (counted, kept) =
        end_chunk_ok F P lz4 c.offset (length payload) v ended
          (ap (λ r. r.0) (sym (to_place ∙ to_end)) ∙ done) in
      ap (λ (r : Result (ℕ × ℕ) × World F). r.1.handler.cached_block_hash.valid) (to_place ∙ to_end)
      ∙ ap (λ (x : World F). x.handler.cached_block_hash.valid) kept
      ∙ ap (λ (r : Result (Unit {0}) × World F). r.1.handler.cached_block_hash.valid) known
      ∙ write_chunk_forgets F c.offset payload w u (same_path, plain)
          (ap (λ r. r.0) (sym known) ∙ placed_ok)

  process_chunks_forget :
      (c : Chunk) (cs : List Chunk) (p q : Progress) (w : World F)
      → IsHashedFile w.handler
      → (process_chunks F lz4 false (c ∷ cs) p w).0 ≡ ok q
      → (process_chunks F lz4 false (c ∷ cs) p w).1.handler.cached_block_hash.valid ≡ false
  unfolding process_chunks
  process_chunks_forget c [] p q w hashed done =
      let (ended, processed, to_end) = passed (process_chunk F lz4 false c w) _ q done in
      ap (λ (r : Result Progress × World F). r.1.handler.cached_block_hash.valid) to_end
      ∙ process_chunk_forgets c w ended hashed processed
  process_chunks_forget c (e ∷ es) p q w hashed done =
      let (ended, processed, to_more) = passed (process_chunk F lz4 false c w) _ q done in
      let v = (process_chunk F lz4 false c w).1 in
      ap (λ (r : Result Progress × World F). r.1.handler.cached_block_hash.valid) to_more
      ∙ process_chunks_forget e es (count_chunk c ended p) q v
          (same_IsHashedFile w.handler v.handler
            (same F kept_of (process_chunk-Keeps F lz4 false c) w) hashed)
          (ap (λ r. r.0) (sym to_more) ∙ done)

  receive_chunks_forgets :
      (c : Chunk) (cs : List Chunk) (m : FileData) (q : Progress) (w : World F)
      → or_single (single m) m.chunks ≡ c ∷ cs
      → is_empty w.handler.current_file_path ≡ false
      → is_marker_file w.handler.current_file_path ≡ false
      → IsHashedFile w.handler
      → (receive_chunks F lz4 m w).0 ≡ ok q
      → (receive_chunks F lz4 m w).1.handler.cached_block_hash.valid ≡ false
  unfolding receive_chunks
  receive_chunks_forgets c cs m q w sent given ordinary hashed done =
      let start : Progress = record {
        max_bytes_received = 0;
        payload_size = 0;
        completes = false;
      } in
      let known : receive_chunks F lz4 m w
          ≡ pass (process_chunks F lz4 false (c ∷ cs) start w) (count_transfer F) =
        rw (given, ordinary, sent) refl in
      let (p, processed, to_end) =
        passed (process_chunks F lz4 false (c ∷ cs) start w) (count_transfer F) q
          (ap (λ r. r.0) (sym known) ∙ done) in
      ap (λ (r : Result Progress × World F). r.1.handler.cached_block_hash.valid) (known ∙ to_end)
      ∙ process_chunks_forget c cs start p w hashed processed

some_chunk :
    (m : FileData) → (c : Chunk) × (cs : List Chunk) × (or_single (single m) m.chunks ≡ c ∷ cs)
some_chunk m = chunk_of m.chunks
  where
    chunk_of :
        (chunks : List Chunk)
        → (c : Chunk) × (cs : List Chunk) × (or_single (single m) chunks ≡ c ∷ cs)
    chunk_of [] = (single m, [], refl)
    chunk_of (c ∷ cs) = (c, cs, refl)

module _ (F : FileSystem) (what : NetCopyException → List ℕ) (unset : ℕ) where
  finish_valid :
      (w : World F) (o : Option F.Disk)
      → (finish F w o).handler.cached_block_hash.valid ≡ w.handler.cached_block_hash.valid
  finish_valid w none = refl
  finish_valid w (some d) = refl

  after_chunks_forgets :
      (r : Result Progress × World F)
      → ((q : Progress) → r.0 ≡ ok q → r.1.handler.cached_block_hash.valid ≡ false)
      → (after_chunks F what unset r).0.success ≡ true
      → (after_chunks F what unset r).1.handler.cached_block_hash.valid ≡ false
  after_chunks_forgets (throw e, w) h done = absurd (cc)
  after_chunks_forgets (ok p, w) h done = ended p.completes
    where
      ended : (b : Bool) → (if b then complete F w else w).handler.cached_block_hash.valid ≡ false
      ended true =
          finish_valid w (if is_plain w.handler then shrink F w.handler w.disk else some w.disk)
          ∙ h p refl
      ended false = h p refl

module _ (F : FileSystem) (xxhash64 : List ℕ → List ℕ) (what : NetCopyException → List ℕ)
    (mismatch : List ℕ) where
  existing_file_ok :
      (path r : Text) (w : World F)
      → (existing_file F xxhash64 path w).0 ≡ ok r
      → existing_file F xxhash64 path w ≡ (ok (resolved F xxhash64 what mismatch path), w)
  unfolding existing_file resolve_path
  existing_file_ok path r w done =
      let native = convert_to_native_path path in
      elim (Bool-cases (is_absolute_path native)) [
        | inr n ↦ absurd (let f = rw n at done in cc)
        | inl y ↦
            elim (Bool-cases
              (is_path_allowed (F.weakly_canonical w.disk) w.handler.config.allowed_paths path)) [
                | inr n ↦ absurd (let f = rw (y, n) at done in cc)
                | inl a ↦ elim (Bool-cases (F.exists (normalize_path native) w.disk)) [
                  | inr n ↦ absurd (let f = rw (y, a, n) at done in cc)
                  | inl found ↦ rw (y, a, found) refl
                ]
              ]
      ]

  -- The handler after the hashes of the blocks of a file were computed.
  abbrev hashed_handler : List ℕ → Text → ConnectionHandler → ConnectionHandler
  hashed_handler hash path h = record h {
    current_truncate_on_zero = false;
    cached_block_hash = record { hash = hash; path = path; valid = true };
    block_hashes_were_computed = true;
  }

  block_hashes_ok :
      (request : BlockHashesRequest) (w : World F) (blocks : List (ℕ × List ℕ))
      → (block_hashes F xxhash64 request w).0 ≡ ok blocks
      → (hash : List ℕ) × ((block_hashes F xxhash64 request w).1.handler
          ≡ hashed_handler hash (resolved F xxhash64 what mismatch request.file_path) w.handler)
  unfolding block_hashes
  block_hashes_ok request w blocks done =
      let path = resolved F xxhash64 what mismatch request.file_path in
      let (r, found, to_hash) =
        passed (existing_file F xxhash64 request.file_path w) _ blocks done in
      let exact = existing_file_ok request.file_path r w found in
      let done' = rw exact at done in
      let (hashes, computed, to_end) =
        passed
          (
            compute_block_hashes F xxhash64 path request.block_size w.disk,
            record {
              handler = record w.handler { current_truncate_on_zero = false };
              disk = w.disk;
            },
          )
          _ blocks done' in
      (hashes.1, rw exact (ap (λ (x : Result (List (ℕ × List ℕ)) × World F). x.1.handler) to_end))

  listed :
      (block_size : ℕ) (r : Result (List (ℕ × List ℕ)) × World F)
      → (listing F xxhash64 what block_size r).0.success ≡ true
      → (blocks : List (ℕ × List ℕ)) × (r.0 ≡ ok blocks)
        × ((listing F xxhash64 what block_size r).1 ≡ r.1)
  listed block_size (ok blocks, w) h = (blocks, refl, refl)
  listed block_size (throw e, w) h = absurd (cc)

module _ (F : FileSystem) (P : IsPosix F) (xxhash64 : List ℕ → List ℕ)
    (what : NetCopyException → List ℕ) (mismatch : List ℕ) (unset : ℕ)
    (lz4 : List ℕ → ℕ → Option (List ℕ)) where
  -- A delta transfer without streaming_verification: the hashes of the blocks of the file of the transfer
  -- are asked for and given, then a message of data for this file, an ordinary one, is acknowledged. Then a
  -- check of the file succeeds for every hash that the client gives, if the file is served then. This is of
  -- a path whose normal form is its own normal form.
  pub verify_delta :
      (hash_request : BlockHashesRequest) (m : FileData) (check : FileVerifyRequest) (w : World F)
      → let hashed = handle_block_hashes_request F xxhash64 what hash_request w in
        let written = handle_file_data F what unset lz4 m hashed.1 in
        let path = w.handler.current_file_path in
        let target = resolved F xxhash64 what mismatch hash_request.file_path in
        w.handler.config.streaming_verification ≡ false
        → w.handler.current_is_symlink ≡ false
        → is_empty path ≡ false
        → is_marker_file path ≡ false
        → normalize_path path ≡ target
        → normalize_path target ≡ target
        → hashed.0.success ≡ true
        → written.0.success ≡ true
        → check.file_path ≡ hash_request.file_path
        → IsServed F xxhash64 what mismatch check.file_path written.1
        → (handle_file_verify_request F xxhash64 what mismatch check written.1).0.success ≡ true
  unfolding handle_block_hashes_request handle_file_data
  verify_delta hash_request m check w streaming plain given ordinary at normal hashed_ok written_ok
        same_file served =
      let target = resolved F xxhash64 what mismatch hash_request.file_path in
      let v = (handle_block_hashes_request F xxhash64 what hash_request w).1 in
      let u = (handle_file_data F what unset lz4 m v).1 in
      let (blocks, computed, same_world) =
        listed F xxhash64 what mismatch hash_request.block_size
          (block_hashes F xxhash64 hash_request w) hashed_ok in
      let (hash, handler_is) =
        block_hashes_ok F xxhash64 what mismatch hash_request w blocks computed in
      let h = hashed_handler F xxhash64 what mismatch hash target w.handler in
      let now : v.handler ≡ h = ap (λ (x : World F). x.handler) same_world ∙ handler_is in
      let hashed : IsHashedFile v.handler = subst IsHashedFile (sym now) (normal ∙ sym at, plain) in
      let (c, cs, sent) = some_chunk m in
      let kept : kept_of u.handler ≡ kept_of h =
        handle_file_data_same F what unset lz4 m v ∙ ap (λ k. kept_of k) now in
      let stale =
        after_chunks_forgets F what unset (receive_chunks F lz4 m v)
          (λ q done.
            receive_chunks_forgets F P lz4 c cs m q v sent
              (ap (λ k. is_empty k.current_file_path) now ∙ given)
              (ap (λ k. is_marker_file k.current_file_path) now ∙ ordinary) hashed done)
          written_ok in
      let same_path =
        ap (λ (k : Kept). normalize_path k.hashed_path) kept
        ∙ normal
        ∙ sym (ap (λ p. resolved F xxhash64 what mismatch p) same_file) in
      verify_unchecked F xxhash64 what mismatch check u served
        (ap (λ (k : Kept). k.target.config.streaming_verification) kept ∙ streaming)
        (ap (λ (k : Kept). k.were_computed) kept) stale
        (ap (λ p. same_bytes p (resolved F xxhash64 what mismatch check.file_path)) same_path
          ∙ same_bytes_self (resolved F xxhash64 what mismatch check.file_path))
