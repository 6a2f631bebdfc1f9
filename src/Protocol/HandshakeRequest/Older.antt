-- ===== src/Protocol/HandshakeRequest/Older.antt =====
-- HandshakeRequest from an older peer, which sends only the first of the fields.
use net_copy.Common.{
  zero, suc, ◌≤◌, refl, take, ltb, if◌then◌else◌, ok, ℕ, ◌≡◌, List, [], ◌∷◌, arith,
}
use net_copy.Protocol.Reader.{◌>>=◌, return, if_remaining, concat, seq_end, run, run_end}
use net_copy.Protocol.Wire.{
  write_uint8, write_uint32, write_uint64, write_bytes, write_string, uint8_or, bool_or,
}
use net_copy.Protocol.Wire.Laws.{
  uint8_or-Reads, bytes-Reads, string-Reads, uint64_or-Reads, uint32_or-Reads, string_or-Reads,
}
use net_copy.Protocol.HandshakeRequest.{
  HandshakeRequest, init, read_payload, serialize_payload, IsValid,
}

-- What each field is written as, in their order.
abbrev pub pieces : HandshakeRequest → List (List ℕ)
pieces m =
    write_string m.client_version
    ∷ write_bytes m.client_nonce
    ∷ write_uint8 m.security_level
    ∷ write_uint64 m.max_chunk_size
    ∷ write_uint64 m.file_size
    ∷ write_uint32 m.requested_parallel_streams
    ∷ write_string m.username
    ∷ write_uint8 m.auth_method_id
    ∷ []

serialize-pieces : (m : HandshakeRequest) → serialize_payload m ≡ concat (pieces m)
unfolding serialize_payload
serialize-pieces m = refl

-- The message with its first `k` fields, and for the others what a peer that lacks them means.
abbrev pub first_fields : ℕ → HandshakeRequest → HandshakeRequest
first_fields k m = record {
  client_version = m.client_version;
  client_nonce = m.client_nonce;
  security_level = if ltb 2 k then m.security_level else 0;
  max_chunk_size = if ltb 3 k then m.max_chunk_size else 0;
  file_size = if ltb 4 k then m.file_size else 0;
  requested_parallel_streams = if ltb 5 k then m.requested_parallel_streams else 1;
  username = if ltb 6 k then m.username else [];
  auth_method_id = if ltb 7 k then m.auth_method_id else 0;
}

at_2 :
    (m : HandshakeRequest)
    → IsValid m
    → (read_payload init) (concat (take 2 (pieces m))) ≡ ok (first_fields 2 m, [])
unfolding read_payload ◌>>=◌ return uint8_or bool_or if_remaining
at_2 m v =
    seq_end _ (string-Reads _ v.client_version) (seq_end _ (bytes-Reads _ v.client_nonce) (refl))

at_3 :
    (m : HandshakeRequest)
    → IsValid m
    → (read_payload init) (concat (take 3 (pieces m))) ≡ ok (first_fields 3 m, [])
unfolding read_payload ◌>>=◌ return uint8_or bool_or if_remaining
at_3 m v = seq_end _ (string-Reads _ v.client_version) (
    seq_end _ (bytes-Reads _ v.client_nonce)
      (seq_end _ (uint8_or-Reads _ _ v.security_level) (refl)))

at_4 :
    (m : HandshakeRequest)
    → IsValid m
    → (read_payload init) (concat (take 4 (pieces m))) ≡ ok (first_fields 4 m, [])
unfolding read_payload ◌>>=◌ return uint8_or bool_or if_remaining
at_4 m v = seq_end _ (string-Reads _ v.client_version) (
    seq_end _ (bytes-Reads _ v.client_nonce) (
      seq_end _ (uint8_or-Reads _ _ v.security_level)
        (seq_end _ (uint64_or-Reads 8 _ _ (omega arith) v.max_chunk_size) (refl))))

at_5 :
    (m : HandshakeRequest)
    → IsValid m
    → (read_payload init) (concat (take 5 (pieces m))) ≡ ok (first_fields 5 m, [])
unfolding read_payload ◌>>=◌ return uint8_or bool_or if_remaining
at_5 m v = seq_end _ (string-Reads _ v.client_version) (
    seq_end _ (bytes-Reads _ v.client_nonce) (
      seq_end _ (uint8_or-Reads _ _ v.security_level) (
        seq_end _ (uint64_or-Reads 8 _ _ (omega arith) v.max_chunk_size)
          (seq_end _ (uint64_or-Reads 8 _ _ (omega arith) v.file_size) (refl)))))

at_6 :
    (m : HandshakeRequest)
    → IsValid m
    → (read_payload init) (concat (take 6 (pieces m))) ≡ ok (first_fields 6 m, [])
unfolding read_payload ◌>>=◌ return uint8_or bool_or if_remaining
at_6 m v = seq_end _ (string-Reads _ v.client_version) (
    seq_end _ (bytes-Reads _ v.client_nonce) (
      seq_end _ (uint8_or-Reads _ _ v.security_level) (
        seq_end _ (uint64_or-Reads 8 _ _ (omega arith) v.max_chunk_size) (
          seq_end _ (uint64_or-Reads 8 _ _ (omega arith) v.file_size) (
            seq_end _ (uint32_or-Reads 4 _ _ (omega arith) v.requested_parallel_streams) (refl))))))

at_7 :
    (m : HandshakeRequest)
    → IsValid m
    → (read_payload init) (concat (take 7 (pieces m))) ≡ ok (first_fields 7 m, [])
unfolding read_payload ◌>>=◌ return uint8_or bool_or if_remaining
at_7 m v = seq_end _ (string-Reads _ v.client_version) (
    seq_end _ (bytes-Reads _ v.client_nonce) (
      seq_end _ (uint8_or-Reads _ _ v.security_level) (
        seq_end _ (uint64_or-Reads 8 _ _ (omega arith) v.max_chunk_size) (
          seq_end _ (uint64_or-Reads 8 _ _ (omega arith) v.file_size) (
            seq_end _ (uint32_or-Reads 4 _ _ (omega arith) v.requested_parallel_streams)
              (seq_end _ (string_or-Reads 4 _ _ (omega arith) v.username) (refl)))))))

at_8 :
    (m : HandshakeRequest)
    → IsValid m
    → (read_payload init) (concat (take 8 (pieces m))) ≡ ok (first_fields 8 m, [])
unfolding read_payload ◌>>=◌ return uint8_or bool_or if_remaining
at_8 m v = seq_end _ (string-Reads _ v.client_version) (
    seq_end _ (bytes-Reads _ v.client_nonce) (
      seq_end _ (uint8_or-Reads _ _ v.security_level) (
        seq_end _ (uint64_or-Reads 8 _ _ (omega arith) v.max_chunk_size) (
          seq_end _ (uint64_or-Reads 8 _ _ (omega arith) v.file_size) (
            seq_end _ (uint32_or-Reads 4 _ _ (omega arith) v.requested_parallel_streams) (
              seq_end _ (string_or-Reads 4 _ _ (omega arith) v.username)
                (seq_end _ (uint8_or-Reads _ _ v.auth_method_id) (refl))))))))

-- A request in range that stops after its first `k` fields, the version and the nonce among them, is
-- read as those fields, with the defaults of the constructor for the rest.
pub read_older_handshake_request :
    (k : ℕ) (m : HandshakeRequest)
    → 2 ≤ k
    → k ≤ 8
    → IsValid m
    → (serialize_payload m ≡ concat (pieces m))
      × (run (read_payload init) (concat (take k (pieces m))) ≡ ok (first_fields k m))
unfolding read_payload
read_older_handshake_request zero m lo hi v = absurd (omega arith)
read_older_handshake_request (suc zero) m lo hi v = absurd (omega arith)
read_older_handshake_request (suc (suc zero)) m lo hi v =
    (serialize-pieces m, run_end _ _ _ (at_2 m v))
read_older_handshake_request (suc (suc (suc zero))) m lo hi v =
    (serialize-pieces m, run_end _ _ _ (at_3 m v))
read_older_handshake_request (suc (suc (suc (suc zero)))) m lo hi v =
    (serialize-pieces m, run_end _ _ _ (at_4 m v))
read_older_handshake_request (suc (suc (suc (suc (suc zero))))) m lo hi v =
    (serialize-pieces m, run_end _ _ _ (at_5 m v))
read_older_handshake_request (suc (suc (suc (suc (suc (suc zero)))))) m lo hi v =
    (serialize-pieces m, run_end _ _ _ (at_6 m v))
read_older_handshake_request (suc (suc (suc (suc (suc (suc (suc zero))))))) m lo hi v =
    (serialize-pieces m, run_end _ _ _ (at_7 m v))
read_older_handshake_request (suc (suc (suc (suc (suc (suc (suc (suc zero)))))))) m lo hi v =
    (serialize-pieces m, run_end _ _ _ (at_8 m v))
read_older_handshake_request (suc (suc (suc (suc (suc (suc (suc (suc (suc k))))))))) m lo hi v =
    absurd (omega arith)
