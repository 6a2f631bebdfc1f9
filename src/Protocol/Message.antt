-- ===== src/Protocol/Message.antt =====
-- Message of include/protocol/message.h and src/protocol/message.cpp: a header and the fields of
-- one of the subclasses.
pub mod Bodies
pub mod Prefix
pub mod RoundTrip
pub mod Ranges
use net_copy.Common.{
  ℕ, ◌+◌, ◌%◌, ◌^◌, List, [], ◌∷◌, ◌++◌, length, take, drop, Result, ok, throw, protocol_exception,
  ltb, ◌==◌, if◌then◌else◌,
}
use net_copy.Protocol.Reader.{run}
use net_copy.Protocol.MessageHeader
use net_copy.Protocol.MessageHeader.{MessageHeader, header_size}
use net_copy.Protocol.HandshakeRequest
use net_copy.Protocol.HandshakeRequest.{HandshakeRequest}
use net_copy.Protocol.HandshakeResponse
use net_copy.Protocol.HandshakeResponse.{HandshakeResponse}
use net_copy.Protocol.FileRequest
use net_copy.Protocol.FileRequest.{FileRequest}
use net_copy.Protocol.FileResponse
use net_copy.Protocol.FileResponse.{FileResponse}
use net_copy.Protocol.FileData
use net_copy.Protocol.FileData.{FileData}
use net_copy.Protocol.FileAck
use net_copy.Protocol.FileAck.{FileAck}
use net_copy.Protocol.ErrorMessage
use net_copy.Protocol.ErrorMessage.{ErrorMessage}
use net_copy.Protocol.AuthChallenge
use net_copy.Protocol.AuthChallenge.{AuthChallenge}
use net_copy.Protocol.AuthResponse
use net_copy.Protocol.AuthResponse.{AuthResponse}
use net_copy.Protocol.AuthResult
use net_copy.Protocol.AuthResult.{AuthResult}
use net_copy.Protocol.DownloadRequest
use net_copy.Protocol.DownloadRequest.{DownloadRequest}
use net_copy.Protocol.DownloadResponse
use net_copy.Protocol.DownloadResponse.{DownloadResponse}
use net_copy.Protocol.ListRequest
use net_copy.Protocol.ListRequest.{ListRequest}
use net_copy.Protocol.ListResponse
use net_copy.Protocol.ListResponse.{ListResponse}
use net_copy.Protocol.Disconnect
use net_copy.Protocol.Disconnect.{Disconnect}
use net_copy.Protocol.FileVerifyRequest
use net_copy.Protocol.FileVerifyRequest.{FileVerifyRequest}
use net_copy.Protocol.FileVerifyResponse
use net_copy.Protocol.FileVerifyResponse.{FileVerifyResponse}
use net_copy.Protocol.BlockHashesRequest
use net_copy.Protocol.BlockHashesRequest.{BlockHashesRequest}
use net_copy.Protocol.BlockHashesResponse
use net_copy.Protocol.BlockHashesResponse.{BlockHashesResponse}
use net_copy.Protocol.TransferStatusRequest
use net_copy.Protocol.TransferStatusRequest.{TransferStatusRequest}
use net_copy.Protocol.TransferStatusResponse
use net_copy.Protocol.TransferStatusResponse.{TransferStatusResponse}

-- The subclass of a message, with its fields.
pub data Body : Type 0 where
  handshake_request : HandshakeRequest → Body
  handshake_response : HandshakeResponse → Body
  file_request : FileRequest → Body
  file_response : FileResponse → Body
  file_data : FileData → Body
  file_ack : FileAck → Body
  error_message : ErrorMessage → Body
  auth_challenge : AuthChallenge → Body
  auth_response : AuthResponse → Body
  auth_result : AuthResult → Body
  download_request : DownloadRequest → Body
  download_response : DownloadResponse → Body
  list_request : ListRequest → Body
  list_response : ListResponse → Body
  disconnect : Disconnect → Body
  file_verify_request : FileVerifyRequest → Body
  file_verify_response : FileVerifyResponse → Body
  block_hashes_request : BlockHashesRequest → Body
  block_hashes_response : BlockHashesResponse → Body
  transfer_status_request : TransferStatusRequest → Body
  transfer_status_response : TransferStatusResponse → Body

pub record Message : Type 0 where
  pub header : MessageHeader
  pub body : Body

-- MessageType, by the subclass.
unfoldable pub type_of : Body → ℕ
type_of (handshake_request m) = 1
type_of (handshake_response m) = 2
type_of (file_request m) = 3
type_of (file_response m) = 4
type_of (file_data m) = 5
type_of (file_ack m) = 6
type_of (error_message m) = 12
type_of (auth_challenge m) = 13
type_of (auth_response m) = 14
type_of (auth_result m) = 15
type_of (download_request m) = 16
type_of (download_response m) = 17
type_of (list_request m) = 18
type_of (list_response m) = 19
type_of (disconnect m) = 22
type_of (file_verify_request m) = 20
type_of (file_verify_response m) = 21
type_of (block_hashes_request m) = 23
type_of (block_hashes_response m) = 24
type_of (transfer_status_request m) = 25
type_of (transfer_status_response m) = 26

-- The constructor Message(type, sequence_number). It leaves `payload_length` unset.
abbrev pub new_message : Body → ℕ → Message
new_message body sequence_number = record {
  header = record {
    message_type = type_of body;
    payload_length = 0;
    sequence_number = sequence_number;
    reserved = 0;
  };
  body = body;
}

-- The virtual `serialize_payload`.
unfoldable pub serialize_body : Body → List ℕ
serialize_body (handshake_request m) = HandshakeRequest.serialize_payload m
serialize_body (handshake_response m) = HandshakeResponse.serialize_payload m
serialize_body (file_request m) = FileRequest.serialize_payload m
serialize_body (file_response m) = FileResponse.serialize_payload m
serialize_body (file_data m) = FileData.serialize_payload m
serialize_body (file_ack m) = FileAck.serialize_payload m
serialize_body (error_message m) = ErrorMessage.serialize_payload m
serialize_body (auth_challenge m) = AuthChallenge.serialize_payload m
serialize_body (auth_response m) = AuthResponse.serialize_payload m
serialize_body (auth_result m) = AuthResult.serialize_payload m
serialize_body (download_request m) = DownloadRequest.serialize_payload m
serialize_body (download_response m) = DownloadResponse.serialize_payload m
serialize_body (list_request m) = ListRequest.serialize_payload m
serialize_body (list_response m) = ListResponse.serialize_payload m
serialize_body (disconnect m) = Disconnect.serialize_payload m
serialize_body (file_verify_request m) = FileVerifyRequest.serialize_payload m
serialize_body (file_verify_response m) = FileVerifyResponse.serialize_payload m
serialize_body (block_hashes_request m) = BlockHashesRequest.serialize_payload m
serialize_body (block_hashes_response m) = BlockHashesResponse.serialize_payload m
serialize_body (transfer_status_request m) = TransferStatusRequest.serialize_payload m
serialize_body (transfer_status_response m) = TransferStatusResponse.serialize_payload m

unfoldable pub serialize : Message → List ℕ
serialize m =
    let payload = serialize_body m.body in
    MessageHeader.serialize (record m.header { payload_length = length payload % 2 ^ 32 })
    ++ payload

abbrev pub Handler : Type 0
Handler = List ℕ → Result Body

abbrev pub as_body {ℓ} : {A : Type ℓ} → (A → Body) → Result A → Result Body
as_body f (ok a) = ok (f a)
as_body f (throw e) = throw e

-- The cases of the switch: the number of each type, with the object that reads the payload.
abbrev pub handlers : List (ℕ × Handler)
handlers =
    (
      1,
      λ p. as_body handshake_request (run (HandshakeRequest.read_payload HandshakeRequest.init) p),
    )
    ∷ (
      2,
      λ p.
          as_body handshake_response
            (run (HandshakeResponse.read_payload HandshakeResponse.init) p),
    )
    ∷ (3, λ p. as_body file_request (run (FileRequest.read_payload FileRequest.init) p))
    ∷ (4, λ p. as_body file_response (run FileResponse.read_payload p))
    ∷ (5, λ p. as_body file_data (FileData.deserialize_payload p))
    ∷ (6, λ p. as_body file_ack (run FileAck.read_payload p))
    ∷ (12, λ p. as_body error_message (run ErrorMessage.read_payload p))
    ∷ (13, λ p. as_body auth_challenge (run AuthChallenge.read_payload p))
    ∷ (14, λ p. as_body auth_response (run AuthResponse.read_payload p))
    ∷ (15, λ p. as_body auth_result (run (AuthResult.read_payload AuthResult.init) p))
    ∷ (16, λ p. as_body download_request (run DownloadRequest.read_payload p))
    ∷ (17, λ p. as_body download_response (run DownloadResponse.read_payload p))
    ∷ (18, λ p. as_body list_request (run ListRequest.read_payload p))
    ∷ (19, λ p. as_body list_response (run ListResponse.read_payload p))
    ∷ (22, λ p. as_body disconnect (run Disconnect.read_payload p))
    ∷ (20, λ p. as_body file_verify_request (run FileVerifyRequest.read_payload p))
    ∷ (21, λ p. as_body file_verify_response (run FileVerifyResponse.read_payload p))
    ∷ (23, λ p. as_body block_hashes_request (run BlockHashesRequest.read_payload p))
    ∷ (24, λ p. as_body block_hashes_response (run BlockHashesResponse.read_payload p))
    ∷ (25, λ p. as_body transfer_status_request (run TransferStatusRequest.read_payload p))
    ∷ (26, λ p. as_body transfer_status_response (run TransferStatusResponse.read_payload p))
    ∷ []

-- The switch, with its default.
unfoldable pub select : List (ℕ × Handler) → ℕ → Handler
select [] t payload = throw (protocol_exception "Unknown message type")
select ((code, h) ∷ rest) t payload = if code == t then h payload else select rest t payload

-- `message->header_ = header`
abbrev pub with_header : MessageHeader → Result Body → Result Message
with_header header (ok body) = ok (record { header = header; body = body })
with_header header (throw e) = throw e

unfoldable pub deserialize : List ℕ → Result Message
deserialize bytes =
    if ltb (length bytes) header_size
    then throw (protocol_exception "Message too short")
    else elim (MessageHeader.deserialize bytes) [
      | throw e ↦ throw e
      | ok header ↦
          if ltb (length bytes) (header_size + header.payload_length)
          then throw (protocol_exception "Incomplete message")
          else with_header header (
              select handlers header.message_type
                (take header.payload_length (drop header_size bytes)))
    ]
