-- ===== src/Transport/Frame.antt =====
-- `send_message` and `receive_message` of src/server/server.cpp, and the same of
-- src/client/client.cpp: a length of four bytes, the highest first, and the encrypted message.
pub mod Delivery
use net_copy.Common.{
  ℕ, ◌+◌, ◌*◌, ◌/◌, ◌%◌, ◌^◌, List, [], ◌∷◌, ◌++◌, length, ltb, Option, none, some, Result, ok,
  throw, and_then, protocol_exception, if◌then◌else◌,
}
use net_copy.Protocol.Message.{Message, serialize, deserialize}
use net_copy.Transport.Engine.{CryptoEngine}
use net_copy.Transport.Socket.{Socket, receive_all}

-- `kMaxFrameSize`
abbrev pub max_frame_size : ℕ
max_frame_size = 64 * 1024 * 1024

-- `htonl`, as bytes in memory.
unfoldable pub htonl : ℕ → List ℕ
htonl n = n / 2 ^ 24 % 256 ∷ n / 2 ^ 16 % 256 ∷ n / 2 ^ 8 % 256 ∷ n % 256 ∷ []

-- `ntohl`, of bytes in memory.
unfoldable pub ntohl : List ℕ → ℕ
ntohl (a ∷ b ∷ c ∷ d ∷ rest) = a * 2 ^ 24 + b * 2 ^ 16 + c * 2 ^ 8 + d
ntohl _ = 0

module _ (E : CryptoEngine) where
  -- The engine is none before the handshake is done and where no encryption was agreed.
  abbrev encrypt_message : List ℕ → Option E.State → List ℕ → List ℕ × Option E.State
  encrypt_message random none bytes = (bytes, none)
  encrypt_message random (some s) bytes = let p = E.encrypt random s bytes in (p.0, some p.1)

  abbrev decrypt_message : Option E.State → List ℕ → Result (List ℕ) × Option E.State
  decrypt_message none bytes = (ok bytes, none)
  decrypt_message (some s) bytes = let p = E.decrypt s bytes in (p.0, some p.1)

  -- The bytes that `send_vectored` is given, and the engine behind.
  unfoldable pub send_message : List ℕ → Option E.State → Message → Result (List ℕ × Option E.State)
  send_message random engine message =
      let p = encrypt_message random engine (serialize message) in
      if ltb max_frame_size (length p.0)
      then throw
          (protocol_exception "Server attempted to send a message exceeding the 64MB frame limit: ")
      else ok (htonl (length p.0) ++ p.0, p.1)

  module _ (S : Socket) where
    -- A message, and what the socket and the engine are then.
    pub record Received : Type 0 where
      pub message : Message
      pub socket : S.State
      pub engine : Option E.State

    -- Decryption and `Message::deserialize`.
    unfoldable pub open_frame : Option E.State → List ℕ × S.State → Result Received
    open_frame engine frame =
        let p = decrypt_message engine frame.0 in
        and_then p.0 (λ bytes.
          and_then (deserialize bytes)
            (λ message. ok (record { message = message; socket = frame.1; engine = p.1 })))

    -- What follows the length.
    unfoldable pub receive_frame : Option E.State → List ℕ × S.State → Result Received
    receive_frame engine prefix =
        let size = ntohl prefix.0 in
        if ltb max_frame_size size
        then throw
            (protocol_exception "Server received a message with length exceeding the 64MB limit: ")
        else and_then
            (receive_all S "Connection closed while receiving message data" size size prefix.1)
            (open_frame engine)

    unfoldable pub receive_message : Option E.State → S.State → Result Received
    receive_message engine s =
        and_then (receive_all S "Connection closed while receiving message length" 4 4 s)
          (receive_frame engine)
