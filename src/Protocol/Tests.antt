-- ===== src/Protocol/Tests.antt =====
-- Runs of the protocol at concrete messages, and the properties at inputs that meet their hypotheses.
use net_copy.Common.{
  ℕ, ◌≡◌, refl, List, [], ◌∷◌, ◌++◌, true, false, ok, throw, protocol_exception, inl, inr, arith,
  take,
}
use net_copy.Protocol.Reader.{return, run, concat}
use net_copy.Protocol.Wire.{
  write_uint32, write_uint64, write_string, write_bool, read_uint64, read_string, read_bool,
}
use net_copy.Protocol.MessageHeader
use net_copy.Protocol.MessageHeader.{MessageHeader}
use net_copy.Protocol.Chunk.{Chunk}
use net_copy.Protocol.FileData
use net_copy.Protocol.FileData.{FileData}
use net_copy.Protocol.FileData.RoundTrip
use net_copy.Protocol.FileAck
use net_copy.Protocol.FileAck.{FileAck}
use net_copy.Protocol.HandshakeRequest
use net_copy.Protocol.HandshakeRequest.{HandshakeRequest}
use net_copy.Protocol.FileRequest
use net_copy.Protocol.FileRequest.{FileRequest}
use net_copy.Protocol.DownloadResponse
use net_copy.Protocol.DownloadResponse.{DownloadResponse}
use net_copy.Protocol.Message.{
  Message, file_ack, type_of, serialize_body, serialize, deserialize, select,
}
use net_copy.Protocol.Message.RoundTrip.{IsSendable, sent_header, deserialize-serialize}
use net_copy.Protocol.Message.Ranges.{IsReceived, deserialize-IsReceived}
use net_copy.Protocol.Message.Prefix.{deserialize_prefix, deserialize_unknown}

-- FILE_ACK of 1000 bytes with the text "ok", as message 7.
abbrev ack : Message
ack = record {
  header = record { message_type = 6; payload_length = 0; sequence_number = 7; reserved = 0 };
  body =
      file_ack (record { bytes_received = 1000; success = true; error_message = 111 ∷ 107 ∷ [] });
}

abbrev ack_bytes : List ℕ
ack_bytes =
    6 ∷ 0 ∷ 0 ∷ 0 ∷ 15 ∷ 0 ∷ 0 ∷ 0 ∷ 7 ∷ 0 ∷ 0 ∷ 0 ∷ 0 ∷ 0 ∷ 0 ∷ 0 ∷ 232 ∷ 3 ∷ 0 ∷ 0 ∷ 0 ∷ 0 ∷ 0 ∷ 0
    ∷ 1 ∷ 2 ∷ 0 ∷ 0 ∷ 0 ∷ 111 ∷ 107 ∷ []

serialize-ack : serialize ack ≡ ack_bytes
unfolding serialize serialize_body MessageHeader.serialize FileAck.serialize_payload write_uint32
    write_uint64 write_bool write_string
serialize-ack = refl

deserialize-ack :
    deserialize ack_bytes
    ≡ ok (record {
      header = record { message_type = 6; payload_length = 15; sequence_number = 7; reserved = 0 };
      body = ack.body;
    })
unfolding deserialize MessageHeader.deserialize select FileAck.read_payload read_uint64 read_bool
    read_string return
deserialize-ack = refl

ack-IsSendable : IsSendable ack
unfolding type_of serialize_body FileAck.serialize_payload write_uint64 write_bool write_string
ack-IsSendable = record {
  header = omega arith;
  message_type = refl;
  body = omega arith;
  payload_length = omega arith;
}

deserialize-serialize_example :
    deserialize (serialize ack ++ (9 ∷ []))
    ≡ ok (record { header = sent_header ack; body = ack.body })
deserialize-serialize_example = deserialize-serialize ack (9 ∷ []) ack-IsSendable

deserialize-IsReceived_example : IsReceived ack_bytes (record {
  header = record { message_type = 6; payload_length = 15; sequence_number = 7; reserved = 0 };
  body = ack.body;
})
deserialize-IsReceived_example = deserialize-IsReceived ack_bytes _ (omega arith) deserialize-ack

deserialize_prefix_example :
    deserialize (take 20 ack_bytes) ≡ throw (protocol_exception "Incomplete message")
deserialize_prefix_example =
    deserialize_prefix ack (take 20 ack_bytes) (0 ∷ 0 ∷ 0 ∷ 1 ∷ 2 ∷ 0 ∷ 0 ∷ 0 ∷ 111 ∷ 107 ∷ []) 0
      ack-IsSendable serialize-ack

-- SYNC_REQUEST, which the header declares and no case reads.
deserialize_unknown_example :
    deserialize (
      MessageHeader.serialize
        (record { message_type = 9; payload_length = 1; sequence_number = 0; reserved = 0 })
      ++ ((5 ∷ []) ++ []))
    ≡ throw (protocol_exception "Unknown message type")
deserialize_unknown_example =
    deserialize_unknown
      (record { message_type = 9; payload_length = 1; sequence_number = 0; reserved = 0 }) (5 ∷ [])
      [] (omega arith) refl (inr (inl (omega arith, omega arith)))

abbrev old_request : HandshakeRequest
old_request = record {
  client_version = 49 ∷ [];
  client_nonce = 7 ∷ 8 ∷ [];
  security_level = 2;
  max_chunk_size = 65536;
  file_size = 12;
  requested_parallel_streams = 4;
  username = 98 ∷ [];
  auth_method_id = 1;
}

read_older_handshake_request_example :
    (HandshakeRequest.serialize_payload old_request
      ≡ concat (HandshakeRequest.Older.pieces old_request))
    × (run
          (HandshakeRequest.read_payload HandshakeRequest.init)
          (concat (take 3 (HandshakeRequest.Older.pieces old_request)))
        ≡ ok (HandshakeRequest.Older.first_fields 3 old_request))
read_older_handshake_request_example =
    HandshakeRequest.Older.read_older_handshake_request 3 old_request (omega arith) (omega arith)
      (omega arith)

abbrev chunk : Chunk
chunk = record {
  offset = 0;
  uncompressed_size = 0;
  data_bytes = 1 ∷ 2 ∷ [];
  is_last_chunk = true;
  compressed = false;
}

abbrev batch : FileData
batch = record {
  chunks = chunk ∷ [];
  offset = 0;
  uncompressed_size = 0;
  data_bytes = [];
  is_last_chunk = false;
  compressed = false;
}

deserialize_trailing_example :
    FileData.deserialize_payload (FileData.serialize_payload batch ++ (0 ∷ []))
    ≡ throw (protocol_exception "Trailing bytes in file data payload")
deserialize_trailing_example = FileData.RoundTrip.deserialize_trailing batch 0 [] (omega arith)

abbrev upload : FileRequest
upload = record {
  source_path = 97 ∷ [];
  destination_path = 98 ∷ [];
  recursive = true;
  resume_offset = 512;
  auto_create_directories = false;
  truncate_destination = true;
  permissions = 420;
  is_symlink = false;
  symlink_target = [];
  file_size = 4096;
  last_modified = 1700000000;
}

read_older_file_request_example :
    (FileRequest.serialize_payload upload ≡ concat (FileRequest.Older.pieces upload))
    × (run
          (FileRequest.read_payload FileRequest.init)
          (concat (take 5 (FileRequest.Older.pieces upload)))
        ≡ ok (FileRequest.Older.first_fields 5 upload))
read_older_file_request_example =
    FileRequest.Older.read_older_file_request 5 upload (omega arith) (omega arith) (omega arith)

abbrev answer : DownloadResponse
answer = record {
  success = true;
  error_message = [];
  file_size = 10;
  is_directory = false;
  permissions = 420;
  is_symlink = true;
  symlink_target = 97 ∷ [];
  session_id = 98 ∷ [];
  last_modified = 5;
}

read_older_download_response_example :
    (DownloadResponse.serialize_payload answer ≡ concat (DownloadResponse.Older.pieces answer))
    × (run DownloadResponse.read_payload (concat (take 6 (DownloadResponse.Older.pieces answer)))
        ≡ ok (DownloadResponse.Older.first_fields 6 answer))
read_older_download_response_example =
    DownloadResponse.Older.read_older_download_response 6 answer (omega arith) (omega arith)
      (omega arith)
