-- ===== src/Protocol/Message/RoundTrip.antt =====
-- `deserialize` reads back what `serialize` wrote, for every subclass.
use net_copy.Common.{
  ℕ, ◌≡◌, refl, ap, ◌∙◌, List, [], ◌++◌, append-nil, append_assoc, length, length-append, drop,
  take-length_append, drop-length_append, ok, arith,
}
use native.Mathlib.Nat.{mod-eq_of_lt}
use net_copy.Protocol.Reader.{Reader, Reads, run, run-Reads}
use net_copy.Protocol.Wire.{IsU32}
use net_copy.Protocol.MessageHeader
use net_copy.Protocol.MessageHeader.{MessageHeader, header_size}
use net_copy.Protocol.HandshakeRequest
use net_copy.Protocol.HandshakeRequest.{HandshakeRequest}
use net_copy.Protocol.HandshakeResponse
use net_copy.Protocol.HandshakeResponse.{HandshakeResponse}
use net_copy.Protocol.FileRequest
use net_copy.Protocol.FileRequest.{FileRequest}
use net_copy.Protocol.FileResponse
use net_copy.Protocol.FileResponse.{FileResponse}
use net_copy.Protocol.FileData
use net_copy.Protocol.FileData.{FileData}
use net_copy.Protocol.FileAck
use net_copy.Protocol.FileAck.{FileAck}
use net_copy.Protocol.ErrorMessage
use net_copy.Protocol.ErrorMessage.{ErrorMessage}
use net_copy.Protocol.AuthChallenge
use net_copy.Protocol.AuthChallenge.{AuthChallenge}
use net_copy.Protocol.AuthResponse
use net_copy.Protocol.AuthResponse.{AuthResponse}
use net_copy.Protocol.AuthResult
use net_copy.Protocol.AuthResult.{AuthResult}
use net_copy.Protocol.DownloadRequest
use net_copy.Protocol.DownloadRequest.{DownloadRequest}
use net_copy.Protocol.DownloadResponse
use net_copy.Protocol.DownloadResponse.{DownloadResponse}
use net_copy.Protocol.ListRequest
use net_copy.Protocol.ListRequest.{ListRequest}
use net_copy.Protocol.ListResponse
use net_copy.Protocol.ListResponse.{ListResponse}
use net_copy.Protocol.Disconnect
use net_copy.Protocol.Disconnect.{Disconnect}
use net_copy.Protocol.FileVerifyRequest
use net_copy.Protocol.FileVerifyRequest.{FileVerifyRequest}
use net_copy.Protocol.FileVerifyResponse
use net_copy.Protocol.FileVerifyResponse.{FileVerifyResponse}
use net_copy.Protocol.BlockHashesRequest
use net_copy.Protocol.BlockHashesRequest.{BlockHashesRequest}
use net_copy.Protocol.BlockHashesResponse
use net_copy.Protocol.BlockHashesResponse.{BlockHashesResponse}
use net_copy.Protocol.TransferStatusRequest
use net_copy.Protocol.TransferStatusRequest.{TransferStatusRequest}
use net_copy.Protocol.TransferStatusResponse
use net_copy.Protocol.TransferStatusResponse.{TransferStatusResponse}
use net_copy.Protocol.FileData.RoundTrip
use net_copy.Protocol.Message.{
  Message, Body, type_of, serialize_body, serialize, as_body, handlers, select, with_header,
  deserialize, handshake_request, handshake_response, file_request, file_response, file_data,
  file_ack, error_message, auth_challenge, auth_response, auth_result, download_request,
  download_response, list_request, list_response, disconnect, file_verify_request,
  file_verify_response, block_hashes_request, block_hashes_response, transfer_status_request,
  transfer_status_response,
}
use net_copy.Protocol.Message.Bodies.{IsValid, canonical}

-- A payload that is read whole.
whole {ℓ} :
    {A : Type ℓ} (f : A → Body) (m : Reader A) (w : List ℕ) (a : A)
    → Reads m w a
    → as_body f (run m w) ≡ ok (f a)
whole f m w a r = ap (as_body f) (rw append-nil at (run-Reads m w [] a r))

-- The switch finds the reader of the subclass, and that reads the payload back.
pub select-serialize_body :
    (b : Body) → IsValid b → select handlers (type_of b) (serialize_body b) ≡ ok (canonical b)
unfolding select type_of serialize_body
select-serialize_body (handshake_request m) v =
    whole handshake_request _ _ m (HandshakeRequest.payload-Reads HandshakeRequest.init m v)
select-serialize_body (handshake_response m) v =
    whole handshake_response _ _ m (HandshakeResponse.payload-Reads HandshakeResponse.init m v)
select-serialize_body (file_request m) v =
    whole file_request _ _ m (FileRequest.payload-Reads FileRequest.init m v)
select-serialize_body (file_response m) v =
    whole file_response _ _ m (FileResponse.payload-Reads m v)
select-serialize_body (file_data m) v =
    ap (as_body file_data) (FileData.RoundTrip.deserialize-serialize m v)
select-serialize_body (file_ack m) v = whole file_ack _ _ m (FileAck.payload-Reads m v)
select-serialize_body (error_message m) v =
    whole error_message _ _ m (ErrorMessage.payload-Reads m v)
select-serialize_body (auth_challenge m) v =
    whole auth_challenge _ _ m (AuthChallenge.payload-Reads m v)
select-serialize_body (auth_response m) v =
    whole auth_response _ _ m (AuthResponse.payload-Reads m v)
select-serialize_body (auth_result m) v =
    whole auth_result _ _ m (AuthResult.payload-Reads AuthResult.init m v)
select-serialize_body (download_request m) v =
    whole download_request _ _ m (DownloadRequest.payload-Reads m v)
select-serialize_body (download_response m) v =
    whole download_response _ _ m (DownloadResponse.payload-Reads m v)
select-serialize_body (list_request m) v = whole list_request _ _ m (ListRequest.payload-Reads m v)
select-serialize_body (list_response m) v =
    whole list_response _ _ m (ListResponse.payload-Reads m v)
select-serialize_body (disconnect m) v = whole disconnect _ _ m (Disconnect.payload-Reads m)
select-serialize_body (file_verify_request m) v =
    whole file_verify_request _ _ m (FileVerifyRequest.payload-Reads m v)
select-serialize_body (file_verify_response m) v =
    whole file_verify_response _ _ m (FileVerifyResponse.payload-Reads m v)
select-serialize_body (block_hashes_request m) v =
    whole block_hashes_request _ _ m (BlockHashesRequest.payload-Reads m v)
select-serialize_body (block_hashes_response m) v =
    whole block_hashes_response _ _ m (BlockHashesResponse.payload-Reads m v)
select-serialize_body (transfer_status_request m) v =
    whole transfer_status_request _ _ m (TransferStatusRequest.payload-Reads m v)
select-serialize_body (transfer_status_response m) v =
    whole transfer_status_response _ _ m (TransferStatusResponse.payload-Reads m v)

-- What `serialize` sends as the header.
abbrev pub sent_header : Message → MessageHeader
sent_header m = record m.header { payload_length = length (serialize_body m.body) }

-- A message is sent in full if its header is in range and names its subclass, every field is in
-- range, and the payload fits its length field.
pub record IsSendable (m : Message) : Type 0 where
  pub header : MessageHeader.IsValid m.header
  pub message_type : m.header.message_type ≡ type_of m.body
  pub body : IsValid m.body
  pub payload_length : IsU32 (length (serialize_body m.body))

pub serialize_parts :
    (m : Message)
    → IsSendable m
    → serialize m ≡ MessageHeader.serialize (sent_header m) ++ serialize_body m.body
unfolding serialize
serialize_parts m v = rw (mod-eq_of_lt v.payload_length)

pub sent_header-IsValid : (m : Message) → IsSendable m → MessageHeader.IsValid (sent_header m)
sent_header-IsValid m v = record {
  message_type = v.header.message_type;
  payload_length = v.payload_length;
  sequence_number = v.header.sequence_number;
  reserved = v.header.reserved;
}

drop_header :
    (h : MessageHeader) (bytes : List ℕ)
    → drop header_size (MessageHeader.serialize h ++ bytes) ≡ bytes
drop_header h bytes =
    rw MessageHeader.length-serialize at (drop-length_append (MessageHeader.serialize h) bytes)

-- A buffer that holds a header and at least its payload.
pub deserialize_parts :
    (h : MessageHeader) (payload rest : List ℕ)
    → MessageHeader.IsValid h
    → h.payload_length ≡ length payload
    → deserialize (MessageHeader.serialize h ++ (payload ++ rest))
      ≡ with_header h (select handlers h.message_type payload)
unfolding deserialize
deserialize_parts h payload rest v e = ground (
  arith,
  MessageHeader.deserialize-serialize h (payload ++ rest) v,
  drop_header h (payload ++ rest),
  take-length_append payload rest,
  length-append (MessageHeader.serialize h) (payload ++ rest),
  length-append payload rest,
  MessageHeader.length-serialize h,
)

-- Whatever follows a sendable message in the buffer, `deserialize` returns it: its header with the
-- length of the payload, and its fields, file data as a batch with every size filled in.
pub deserialize-serialize :
    (m : Message) (rest : List ℕ)
    → IsSendable m
    → deserialize (serialize m ++ rest)
      ≡ ok (record { header = sent_header m; body = canonical m.body })
deserialize-serialize m rest v =
    rw (serialize_parts m v, append_assoc)
      (deserialize_parts (sent_header m) (serialize_body m.body) rest (sent_header-IsValid m v) refl
        ∙ rw (v.message_type, select-serialize_body m.body v.body) refl)
