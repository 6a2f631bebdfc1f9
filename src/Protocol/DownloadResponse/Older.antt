-- ===== src/Protocol/DownloadResponse/Older.antt =====
-- DownloadResponse from an older peer, which sends only the first of the fields.
use net_copy.Common.{
  zero, suc, ◌≤◌, refl, take, ltb, if◌then◌else◌, ok, ℕ, ◌≡◌, List, [], ◌∷◌, false, arith,
}
use net_copy.Protocol.Reader.{◌>>=◌, return, if_remaining, concat, seq_end, run, run_end}
use net_copy.Protocol.Wire.{write_bool, write_uint32, write_uint64, write_string, uint8_or, bool_or}
use net_copy.Protocol.Wire.Laws.{
  bool-Reads, bool_or-Reads, uint64-Reads, string-Reads, uint64_or-Reads, uint32_or-Reads,
  string_or-Reads,
}
use net_copy.Protocol.DownloadResponse.{DownloadResponse, read_payload, serialize_payload, IsValid}

-- What each field is written as, in their order.
abbrev pub pieces : DownloadResponse → List (List ℕ)
pieces m =
    write_bool m.success
    ∷ write_string m.error_message
    ∷ write_uint64 m.file_size
    ∷ write_bool m.is_directory
    ∷ write_uint32 m.permissions
    ∷ write_bool m.is_symlink
    ∷ write_string m.symlink_target
    ∷ write_string m.session_id
    ∷ write_uint64 m.last_modified
    ∷ []

serialize-pieces : (m : DownloadResponse) → serialize_payload m ≡ concat (pieces m)
unfolding serialize_payload
serialize-pieces m = refl

-- The message with its first `k` fields, and for the others what a peer that lacks them means.
abbrev pub first_fields : ℕ → DownloadResponse → DownloadResponse
first_fields k m = record {
  success = m.success;
  error_message = m.error_message;
  file_size = m.file_size;
  is_directory = m.is_directory;
  permissions = if ltb 4 k then m.permissions else 0;
  is_symlink = if ltb 5 k then m.is_symlink else false;
  symlink_target = if ltb 6 k then m.symlink_target else [];
  session_id = if ltb 7 k then m.session_id else [];
  last_modified = if ltb 8 k then m.last_modified else 0;
}

at_4 :
    (m : DownloadResponse)
    → IsValid m
    → read_payload (concat (take 4 (pieces m))) ≡ ok (first_fields 4 m, [])
unfolding read_payload ◌>>=◌ return uint8_or bool_or if_remaining
at_4 m v = seq_end _ (bool-Reads _ _) (
    seq_end _ (string-Reads _ v.error_message)
      (seq_end _ (uint64-Reads _ v.file_size) (seq_end _ (bool-Reads _ _) (refl))))

at_5 :
    (m : DownloadResponse)
    → IsValid m
    → read_payload (concat (take 5 (pieces m))) ≡ ok (first_fields 5 m, [])
unfolding read_payload ◌>>=◌ return uint8_or bool_or if_remaining
at_5 m v = seq_end _ (bool-Reads _ _) (
    seq_end _ (string-Reads _ v.error_message) (
      seq_end _ (uint64-Reads _ v.file_size) (
        seq_end _ (bool-Reads _ _)
          (seq_end _ (uint32_or-Reads 1 _ _ (omega arith) v.permissions) (refl)))))

at_6 :
    (m : DownloadResponse)
    → IsValid m
    → read_payload (concat (take 6 (pieces m))) ≡ ok (first_fields 6 m, [])
unfolding read_payload ◌>>=◌ return uint8_or bool_or if_remaining
at_6 m v = seq_end _ (bool-Reads _ _) (
    seq_end _ (string-Reads _ v.error_message) (
      seq_end _ (uint64-Reads _ v.file_size) (
        seq_end _ (bool-Reads _ _) (
          seq_end _ (uint32_or-Reads 1 _ _ (omega arith) v.permissions)
            (seq_end _ (bool_or-Reads _ _) (refl))))))

at_7 :
    (m : DownloadResponse)
    → IsValid m
    → read_payload (concat (take 7 (pieces m))) ≡ ok (first_fields 7 m, [])
unfolding read_payload ◌>>=◌ return uint8_or bool_or if_remaining
at_7 m v = seq_end _ (bool-Reads _ _) (
    seq_end _ (string-Reads _ v.error_message) (
      seq_end _ (uint64-Reads _ v.file_size) (
        seq_end _ (bool-Reads _ _) (
          seq_end _ (uint32_or-Reads 1 _ _ (omega arith) v.permissions) (
            seq_end _ (bool_or-Reads _ _)
              (seq_end _ (string_or-Reads 1 _ _ (omega arith) v.symlink_target) (refl)))))))

at_8 :
    (m : DownloadResponse)
    → IsValid m
    → read_payload (concat (take 8 (pieces m))) ≡ ok (first_fields 8 m, [])
unfolding read_payload ◌>>=◌ return uint8_or bool_or if_remaining
at_8 m v = seq_end _ (bool-Reads _ _) (
    seq_end _ (string-Reads _ v.error_message) (
      seq_end _ (uint64-Reads _ v.file_size) (
        seq_end _ (bool-Reads _ _) (
          seq_end _ (uint32_or-Reads 1 _ _ (omega arith) v.permissions) (
            seq_end _ (bool_or-Reads _ _) (
              seq_end _ (string_or-Reads 1 _ _ (omega arith) v.symlink_target)
                (seq_end _ (string_or-Reads 1 _ _ (omega arith) v.session_id) (refl))))))))

at_9 :
    (m : DownloadResponse)
    → IsValid m
    → read_payload (concat (take 9 (pieces m))) ≡ ok (first_fields 9 m, [])
unfolding read_payload ◌>>=◌ return uint8_or bool_or if_remaining
at_9 m v = seq_end _ (bool-Reads _ _) (
    seq_end _ (string-Reads _ v.error_message) (
      seq_end _ (uint64-Reads _ v.file_size) (
        seq_end _ (bool-Reads _ _) (
          seq_end _ (uint32_or-Reads 1 _ _ (omega arith) v.permissions) (
            seq_end _ (bool_or-Reads _ _) (
              seq_end _ (string_or-Reads 1 _ _ (omega arith) v.symlink_target) (
                seq_end _ (string_or-Reads 1 _ _ (omega arith) v.session_id)
                  (seq_end _ (uint64_or-Reads 1 _ _ (omega arith) v.last_modified) (refl)))))))))

-- A response in range that stops after its first `k` fields, those up to the directory flag among
-- them, is read as those fields, with the defaults for the rest.
pub read_older_download_response :
    (k : ℕ) (m : DownloadResponse)
    → 4 ≤ k
    → k ≤ 9
    → IsValid m
    → (serialize_payload m ≡ concat (pieces m))
      × (run read_payload (concat (take k (pieces m))) ≡ ok (first_fields k m))
unfolding read_payload
read_older_download_response zero m lo hi v = absurd (omega arith)
read_older_download_response (suc zero) m lo hi v = absurd (omega arith)
read_older_download_response (suc (suc zero)) m lo hi v = absurd (omega arith)
read_older_download_response (suc (suc (suc zero))) m lo hi v = absurd (omega arith)
read_older_download_response (suc (suc (suc (suc zero)))) m lo hi v =
    (serialize-pieces m, run_end _ _ _ (at_4 m v))
read_older_download_response (suc (suc (suc (suc (suc zero))))) m lo hi v =
    (serialize-pieces m, run_end _ _ _ (at_5 m v))
read_older_download_response (suc (suc (suc (suc (suc (suc zero)))))) m lo hi v =
    (serialize-pieces m, run_end _ _ _ (at_6 m v))
read_older_download_response (suc (suc (suc (suc (suc (suc (suc zero))))))) m lo hi v =
    (serialize-pieces m, run_end _ _ _ (at_7 m v))
read_older_download_response (suc (suc (suc (suc (suc (suc (suc (suc zero)))))))) m lo hi v =
    (serialize-pieces m, run_end _ _ _ (at_8 m v))
read_older_download_response (suc (suc (suc (suc (suc (suc (suc (suc (suc zero))))))))) m lo hi v =
    (serialize-pieces m, run_end _ _ _ (at_9 m v))
read_older_download_response (suc (suc (suc (suc (suc (suc (suc (suc (suc (suc k)))))))))) m lo hi
      v =
    absurd (omega arith)
