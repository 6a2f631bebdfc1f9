-- ===== src/Transport/Tests.antt =====
-- A socket that delivers a few bytes at a time, and runs of the theorems on it.
use net_copy.Common.{
  zero, ◌≤◌, ◌<◌, ap, ◌∙◌, Result, throw, network_exception, NetCopyException, ok-injective, ℕ, suc,
  ◌≡◌, refl, sym, List, [], ◌∷◌, ◌++◌, length, replicate, take, drop, take-append-drop, length-take,
  min, true, some, ok, arith,
}
use net_copy.Crypto.Stream.{xor_blocks, xor_from}
use net_copy.Crypto.XorCipher
use net_copy.Crypto.FastSecurityEngine
use net_copy.Protocol.Wire.{write_uint32, write_uint64, write_string, write_bool}
use net_copy.Protocol.MessageHeader
use net_copy.Protocol.FileAck
use net_copy.Protocol.FileAck.{FileAck}
use net_copy.Protocol.Message.{Message, file_ack, serialize, serialize_body, type_of}
use net_copy.Protocol.Message.RoundTrip.{IsSendable}
use net_copy.Transport.Engine.{fast_security_engine, fast_security_laws}
use net_copy.Transport.Socket.{Socket, IsStream, receive_all}
use net_copy.Transport.Socket.Laws.{Gets, receive_all-Gets}
use net_copy.Transport.Frame.{send_message, receive_message, htonl}
use net_copy.Transport.Frame.Delivery.{Arrives, receive_message-send_message}

-- At most `k + 1` bytes come at a time, and an exception behind the last.
abbrev got_from : ℕ → ℕ → List ℕ → Result (List ℕ × (ℕ × List ℕ))
got_from n k [] = throw (network_exception "Connection closed by peer")
got_from n k (b ∷ bs) = ok (take (min n (suc k)) (b ∷ bs), (k, drop (min n (suc k)) (b ∷ bs)))

abbrev segments : Socket
segments = record { State = ℕ × List ℕ; receive = λ n s. got_from n s.0 s.1 }

got_in_order :
    (n k : ℕ) (pending bytes : List ℕ) (after : ℕ × List ℕ)
    → got_from n k pending ≡ ok (bytes, after)
    → pending ≡ bytes ++ after.1
got_in_order n k [] bytes after e = absurd (cc)
got_in_order n k (b ∷ bs) bytes after e =
    sym (take-append-drop (min n (suc k)) (b ∷ bs))
    ∙ ap (λ (r : List ℕ × (ℕ × List ℕ)). r.0 ++ r.1.1) (ok-injective e)

got_at_most :
    (n k : ℕ) (pending bytes : List ℕ) (after : ℕ × List ℕ)
    → got_from n k pending ≡ ok (bytes, after)
    → length bytes ≤ n
got_at_most n k [] bytes after e = absurd (cc)
got_at_most n k (b ∷ bs) bytes after e = omega (
  arith,
  length-take (min n (suc k)) (b ∷ bs),
  ap (λ (r : List ℕ × (ℕ × List ℕ)). length r.0) (ok-injective e),
)

take_some : (j b : ℕ) (bs : List ℕ) → 0 < j → (rest : List ℕ) × (take j (b ∷ bs) ≡ b ∷ rest)
take_some zero b bs h = absurd (omega arith)
take_some (suc j) b bs h = (take j bs, refl)

got_some :
    (n k : ℕ) (pending : List ℕ)
    → 0 < n
    → 0 < length pending
    → (b : ℕ) × (bs : List ℕ) × (after : ℕ × List ℕ) × (got_from n k pending ≡ ok (b ∷ bs, after))
got_some n k [] pos some_pending = absurd (omega arith)
got_some n k (b ∷ bs) pos some_pending =
    let (rest, e) = take_some (min n (suc k)) b bs (omega arith) in
    (b, rest, (k, drop (min n (suc k)) (b ∷ bs)), rw e refl)

got_ended :
    (n k : ℕ) (pending : List ℕ)
    → length pending ≡ 0
    → (e : NetCopyException) × (got_from n k pending ≡ throw e)
got_ended n k [] none_left = (_, refl)
got_ended n k (b ∷ bs) none_left = absurd (omega arith)

abbrev segments_laws : IsStream segments
segments_laws = record {
  pending = λ s. s.1;
  in_order = λ n s bytes after e. got_in_order n s.0 s.1 bytes after e;
  at_most = λ n s bytes after e. got_at_most n s.0 s.1 bytes after e;
  some_bytes = λ n s pos some_pending. got_some n s.0 s.1 pos some_pending;
  ended = λ n s pos none_left. got_ended n s.0 s.1 none_left;
}

receive_all-Gets_example :
    Gets segments segments_laws "closed" 3
      (1, 7 ∷ 8 ∷ 9 ∷ 10 ∷ [])
      (receive_all segments "closed" 3 3 (1, 7 ∷ 8 ∷ 9 ∷ 10 ∷ []))
receive_all-Gets_example =
    receive_all-Gets segments segments_laws "closed" 3 3 (1, 7 ∷ 8 ∷ 9 ∷ 10 ∷ []) (omega arith)
      (omega arith)

-- FILE_ACK of 1000 bytes with the text "ok", as message 7.
abbrev ack : Message
ack = record {
  header = record { message_type = 6; payload_length = 0; sequence_number = 7; reserved = 0 };
  body =
      file_ack (record { bytes_received = 1000; success = true; error_message = 111 ∷ 107 ∷ [] });
}

ack-IsSendable : IsSendable ack
unfolding type_of serialize_body FileAck.serialize_payload write_uint64 write_bool write_string
ack-IsSendable = record {
  header = omega arith;
  message_type = refl;
  body = omega arith;
  payload_length = omega arith;
}

-- A cipher that has processed messages, and a new one with its key.
abbrev used_cipher : XorCipher.XorCipher
used_cipher = record { base_key = replicate 32 7; current_key = replicate 32 5; round_counter = 3 }

abbrev sealed : List ℕ × XorCipher.XorCipher
sealed = FastSecurityEngine.encrypt used_cipher (serialize ack)

abbrev ack_frame : List ℕ
ack_frame = htonl (length sealed.0) ++ sealed.0

send_message-ack :
    send_message fast_security_engine [] (some used_cipher) ack ≡ ok (ack_frame, some sealed.1)
unfolding send_message FastSecurityEngine.encrypt XorCipher.process XorCipher.reset
    XorCipher.update_key xor_blocks xor_from serialize serialize_body MessageHeader.serialize
    FileAck.serialize_payload write_uint32 write_uint64 write_bool write_string
send_message-ack = refl

receive_message-send_message_example :
    Arrives segments segments_laws fast_security_engine fast_security_laws ack
      (1 ∷ 2 ∷ [])
      (some sealed.1)
      (receive_message fast_security_engine segments
        (some (XorCipher.init (replicate 32 7)))
        (4, ack_frame ++ (1 ∷ 2 ∷ [])))
unfolding fast_security_laws
receive_message-send_message_example =
    receive_message-send_message segments segments_laws fast_security_engine fast_security_laws []
      (some used_cipher) (some (XorCipher.init (replicate 32 7))) (some sealed.1) ack ack_frame
      (1 ∷ 2 ∷ []) (4, ack_frame ++ (1 ∷ 2 ∷ [])) tt refl ack-IsSendable send_message-ack refl
