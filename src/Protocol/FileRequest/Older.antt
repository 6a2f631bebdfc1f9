-- ===== src/Protocol/FileRequest/Older.antt =====
-- FileRequest from an older peer, which sends only the first of the fields.
use net_copy.Common.{
  zero, suc, ◌≤◌, refl, take, ltb, if◌then◌else◌, ok, ℕ, ◌≡◌, List, [], ◌∷◌, true, false, arith,
}
use net_copy.Protocol.Reader.{◌>>=◌, return, if_remaining, concat, seq_end, run, run_end}
use net_copy.Protocol.Wire.{write_bool, write_uint32, write_uint64, write_string, uint8_or, bool_or}
use net_copy.Protocol.Wire.Laws.{
  bool-Reads, bool_or-Reads, uint64-Reads, string-Reads, uint64_or-Reads, uint32_or-Reads,
  string_or-Reads,
}
use net_copy.Protocol.FileRequest.{FileRequest, init, read_payload, serialize_payload, IsValid}

-- What each field is written as, in their order.
abbrev pub pieces : FileRequest → List (List ℕ)
pieces m =
    write_string m.source_path
    ∷ write_string m.destination_path
    ∷ write_bool m.recursive
    ∷ write_uint64 m.resume_offset
    ∷ write_bool m.auto_create_directories
    ∷ write_bool m.truncate_destination
    ∷ write_uint32 m.permissions
    ∷ write_bool m.is_symlink
    ∷ write_string m.symlink_target
    ∷ write_uint64 m.file_size
    ∷ write_uint64 m.last_modified
    ∷ []

serialize-pieces : (m : FileRequest) → serialize_payload m ≡ concat (pieces m)
unfolding serialize_payload
serialize-pieces m = refl

-- The message with its first `k` fields, and for the others what a peer that lacks them means.
abbrev pub first_fields : ℕ → FileRequest → FileRequest
first_fields k m = record {
  source_path = m.source_path;
  destination_path = m.destination_path;
  recursive = m.recursive;
  resume_offset = m.resume_offset;
  auto_create_directories = if ltb 4 k then m.auto_create_directories else true;
  truncate_destination = if ltb 5 k then m.truncate_destination else false;
  permissions = if ltb 6 k then m.permissions else 0;
  is_symlink = if ltb 7 k then m.is_symlink else false;
  symlink_target = if ltb 8 k then m.symlink_target else [];
  file_size = if ltb 9 k then m.file_size else 0;
  last_modified = if ltb 10 k then m.last_modified else 0;
}

at_4 :
    (m : FileRequest)
    → IsValid m
    → (read_payload init) (concat (take 4 (pieces m))) ≡ ok (first_fields 4 m, [])
unfolding read_payload ◌>>=◌ return uint8_or bool_or if_remaining
at_4 m v = seq_end _ (string-Reads _ v.source_path) (
    seq_end _ (string-Reads _ v.destination_path)
      (seq_end _ (bool-Reads _ _) (seq_end _ (uint64-Reads _ v.resume_offset) (refl))))

at_5 :
    (m : FileRequest)
    → IsValid m
    → (read_payload init) (concat (take 5 (pieces m))) ≡ ok (first_fields 5 m, [])
unfolding read_payload ◌>>=◌ return uint8_or bool_or if_remaining
at_5 m v = seq_end _ (string-Reads _ v.source_path) (
    seq_end _ (string-Reads _ v.destination_path) (
      seq_end _ (bool-Reads _ _)
        (seq_end _ (uint64-Reads _ v.resume_offset) (seq_end _ (bool_or-Reads _ _) (refl)))))

at_6 :
    (m : FileRequest)
    → IsValid m
    → (read_payload init) (concat (take 6 (pieces m))) ≡ ok (first_fields 6 m, [])
unfolding read_payload ◌>>=◌ return uint8_or bool_or if_remaining
at_6 m v = seq_end _ (string-Reads _ v.source_path) (
    seq_end _ (string-Reads _ v.destination_path) (
      seq_end _ (bool-Reads _ _) (
        seq_end _ (uint64-Reads _ v.resume_offset)
          (seq_end _ (bool_or-Reads _ _) (seq_end _ (bool_or-Reads _ _) (refl))))))

at_7 :
    (m : FileRequest)
    → IsValid m
    → (read_payload init) (concat (take 7 (pieces m))) ≡ ok (first_fields 7 m, [])
unfolding read_payload ◌>>=◌ return uint8_or bool_or if_remaining
at_7 m v = seq_end _ (string-Reads _ v.source_path) (
    seq_end _ (string-Reads _ v.destination_path) (
      seq_end _ (bool-Reads _ _) (
        seq_end _ (uint64-Reads _ v.resume_offset) (
          seq_end _ (bool_or-Reads _ _) (
            seq_end _ (bool_or-Reads _ _)
              (seq_end _ (uint32_or-Reads 1 _ _ (omega arith) v.permissions) (refl)))))))

at_8 :
    (m : FileRequest)
    → IsValid m
    → (read_payload init) (concat (take 8 (pieces m))) ≡ ok (first_fields 8 m, [])
unfolding read_payload ◌>>=◌ return uint8_or bool_or if_remaining
at_8 m v = seq_end _ (string-Reads _ v.source_path) (
    seq_end _ (string-Reads _ v.destination_path) (
      seq_end _ (bool-Reads _ _) (
        seq_end _ (uint64-Reads _ v.resume_offset) (
          seq_end _ (bool_or-Reads _ _) (
            seq_end _ (bool_or-Reads _ _) (
              seq_end _ (uint32_or-Reads 1 _ _ (omega arith) v.permissions)
                (seq_end _ (bool_or-Reads _ _) (refl))))))))

at_9 :
    (m : FileRequest)
    → IsValid m
    → (read_payload init) (concat (take 9 (pieces m))) ≡ ok (first_fields 9 m, [])
unfolding read_payload ◌>>=◌ return uint8_or bool_or if_remaining
at_9 m v = seq_end _ (string-Reads _ v.source_path) (
    seq_end _ (string-Reads _ v.destination_path) (
      seq_end _ (bool-Reads _ _) (
        seq_end _ (uint64-Reads _ v.resume_offset) (
          seq_end _ (bool_or-Reads _ _) (
            seq_end _ (bool_or-Reads _ _) (
              seq_end _ (uint32_or-Reads 1 _ _ (omega arith) v.permissions) (
                seq_end _ (bool_or-Reads _ _)
                  (seq_end _ (string_or-Reads 1 _ _ (omega arith) v.symlink_target) (refl)))))))))

at_10 :
    (m : FileRequest)
    → IsValid m
    → (read_payload init) (concat (take 10 (pieces m))) ≡ ok (first_fields 10 m, [])
unfolding read_payload ◌>>=◌ return uint8_or bool_or if_remaining
at_10 m v = seq_end _ (string-Reads _ v.source_path) (
    seq_end _ (string-Reads _ v.destination_path) (
      seq_end _ (bool-Reads _ _) (
        seq_end _ (uint64-Reads _ v.resume_offset) (
          seq_end _ (bool_or-Reads _ _) (
            seq_end _ (bool_or-Reads _ _) (
              seq_end _ (uint32_or-Reads 1 _ _ (omega arith) v.permissions) (
                seq_end _ (bool_or-Reads _ _) (
                  seq_end _ (string_or-Reads 1 _ _ (omega arith) v.symlink_target)
                    (seq_end _ (uint64_or-Reads 1 _ _ (omega arith) v.file_size) (refl))))))))))

at_11 :
    (m : FileRequest)
    → IsValid m
    → (read_payload init) (concat (take 11 (pieces m))) ≡ ok (first_fields 11 m, [])
unfolding read_payload ◌>>=◌ return uint8_or bool_or if_remaining
at_11 m v = seq_end _ (string-Reads _ v.source_path) (
    seq_end _ (string-Reads _ v.destination_path) (
      seq_end _ (bool-Reads _ _) (
        seq_end _ (uint64-Reads _ v.resume_offset) (
          seq_end _ (bool_or-Reads _ _) (
            seq_end _ (bool_or-Reads _ _) (
              seq_end _ (uint32_or-Reads 1 _ _ (omega arith) v.permissions) (
                seq_end _ (bool_or-Reads _ _) (
                  seq_end _ (string_or-Reads 1 _ _ (omega arith) v.symlink_target) (
                    seq_end _ (uint64_or-Reads 1 _ _ (omega arith) v.file_size) (
                      seq_end _ (uint64_or-Reads 1 _ _ (omega arith) v.last_modified)
                        (refl)))))))))))

-- A request in range that stops after its first `k` fields, those up to the resume offset among them,
-- is read as those fields, with the defaults for the rest.
pub read_older_file_request :
    (k : ℕ) (m : FileRequest)
    → 4 ≤ k
    → k ≤ 11
    → IsValid m
    → (serialize_payload m ≡ concat (pieces m))
      × (run (read_payload init) (concat (take k (pieces m))) ≡ ok (first_fields k m))
unfolding read_payload
read_older_file_request zero m lo hi v = absurd (omega arith)
read_older_file_request (suc zero) m lo hi v = absurd (omega arith)
read_older_file_request (suc (suc zero)) m lo hi v = absurd (omega arith)
read_older_file_request (suc (suc (suc zero))) m lo hi v = absurd (omega arith)
read_older_file_request (suc (suc (suc (suc zero)))) m lo hi v =
    (serialize-pieces m, run_end _ _ _ (at_4 m v))
read_older_file_request (suc (suc (suc (suc (suc zero))))) m lo hi v =
    (serialize-pieces m, run_end _ _ _ (at_5 m v))
read_older_file_request (suc (suc (suc (suc (suc (suc zero)))))) m lo hi v =
    (serialize-pieces m, run_end _ _ _ (at_6 m v))
read_older_file_request (suc (suc (suc (suc (suc (suc (suc zero))))))) m lo hi v =
    (serialize-pieces m, run_end _ _ _ (at_7 m v))
read_older_file_request (suc (suc (suc (suc (suc (suc (suc (suc zero)))))))) m lo hi v =
    (serialize-pieces m, run_end _ _ _ (at_8 m v))
read_older_file_request (suc (suc (suc (suc (suc (suc (suc (suc (suc zero))))))))) m lo hi v =
    (serialize-pieces m, run_end _ _ _ (at_9 m v))
read_older_file_request (suc (suc (suc (suc (suc (suc (suc (suc (suc (suc zero)))))))))) m lo hi v =
    (serialize-pieces m, run_end _ _ _ (at_10 m v))
read_older_file_request (suc (suc (suc (suc (suc (suc (suc (suc (suc (suc (suc zero))))))))))) m lo
      hi v =
    (serialize-pieces m, run_end _ _ _ (at_11 m v))
read_older_file_request (suc (suc (suc (suc (suc (suc (suc (suc (suc (suc (suc (suc k)))))))))))) m
      lo hi v =
    absurd (omega arith)
