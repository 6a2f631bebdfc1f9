-- ===== src/Protocol/Message/Bodies.antt =====
-- The range of each subclass's fields, and what its receiver sees of it.
use net_copy.Protocol.HandshakeRequest
use net_copy.Protocol.HandshakeRequest.{HandshakeRequest}
use net_copy.Protocol.HandshakeResponse
use net_copy.Protocol.HandshakeResponse.{HandshakeResponse}
use net_copy.Protocol.FileRequest
use net_copy.Protocol.FileRequest.{FileRequest}
use net_copy.Protocol.FileResponse
use net_copy.Protocol.FileResponse.{FileResponse}
use net_copy.Protocol.FileData
use net_copy.Protocol.FileData.{FileData}
use net_copy.Protocol.FileAck
use net_copy.Protocol.FileAck.{FileAck}
use net_copy.Protocol.ErrorMessage
use net_copy.Protocol.ErrorMessage.{ErrorMessage}
use net_copy.Protocol.AuthChallenge
use net_copy.Protocol.AuthChallenge.{AuthChallenge}
use net_copy.Protocol.AuthResponse
use net_copy.Protocol.AuthResponse.{AuthResponse}
use net_copy.Protocol.AuthResult
use net_copy.Protocol.AuthResult.{AuthResult}
use net_copy.Protocol.DownloadRequest
use net_copy.Protocol.DownloadRequest.{DownloadRequest}
use net_copy.Protocol.DownloadResponse
use net_copy.Protocol.DownloadResponse.{DownloadResponse}
use net_copy.Protocol.ListRequest
use net_copy.Protocol.ListRequest.{ListRequest}
use net_copy.Protocol.ListResponse
use net_copy.Protocol.ListResponse.{ListResponse}
use net_copy.Protocol.FileVerifyRequest
use net_copy.Protocol.FileVerifyRequest.{FileVerifyRequest}
use net_copy.Protocol.FileVerifyResponse
use net_copy.Protocol.FileVerifyResponse.{FileVerifyResponse}
use net_copy.Protocol.BlockHashesRequest
use net_copy.Protocol.BlockHashesRequest.{BlockHashesRequest}
use net_copy.Protocol.BlockHashesResponse
use net_copy.Protocol.BlockHashesResponse.{BlockHashesResponse}
use net_copy.Protocol.TransferStatusRequest
use net_copy.Protocol.TransferStatusRequest.{TransferStatusRequest}
use net_copy.Protocol.TransferStatusResponse
use net_copy.Protocol.TransferStatusResponse.{TransferStatusResponse}
use net_copy.Protocol.FileData.RoundTrip
use net_copy.Protocol.Message.{
  Body, handshake_request, handshake_response, file_request, file_response, file_data, file_ack,
  error_message, auth_challenge, auth_response, auth_result, download_request, download_response,
  list_request, list_response, disconnect, file_verify_request, file_verify_response,
  block_hashes_request, block_hashes_response, transfer_status_request, transfer_status_response,
}

-- Every field is in the range of its C++ type.
abbrev pub IsValid : Body → Type 0
IsValid (handshake_request m) = HandshakeRequest.IsValid m
IsValid (handshake_response m) = HandshakeResponse.IsValid m
IsValid (file_request m) = FileRequest.IsValid m
IsValid (file_response m) = FileResponse.IsValid m
IsValid (file_data m) = FileData.RoundTrip.IsValid m
IsValid (file_ack m) = FileAck.IsValid m
IsValid (error_message m) = ErrorMessage.IsValid m
IsValid (auth_challenge m) = AuthChallenge.IsValid m
IsValid (auth_response m) = AuthResponse.IsValid m
IsValid (auth_result m) = AuthResult.IsValid m
IsValid (download_request m) = DownloadRequest.IsValid m
IsValid (download_response m) = DownloadResponse.IsValid m
IsValid (list_request m) = ListRequest.IsValid m
IsValid (list_response m) = ListResponse.IsValid m
IsValid (disconnect m) = Unit {0}
IsValid (file_verify_request m) = FileVerifyRequest.IsValid m
IsValid (file_verify_response m) = FileVerifyResponse.IsValid m
IsValid (block_hashes_request m) = BlockHashesRequest.IsValid m
IsValid (block_hashes_response m) = BlockHashesResponse.IsValid m
IsValid (transfer_status_request m) = TransferStatusRequest.IsValid m
IsValid (transfer_status_response m) = TransferStatusResponse.IsValid m

-- The receiver of file data sees a batch, with every size filled in; all else arrives as it was.
abbrev pub canonical : Body → Body
canonical (handshake_request m) = handshake_request m
canonical (handshake_response m) = handshake_response m
canonical (file_request m) = file_request m
canonical (file_response m) = file_response m
canonical (file_data m) = file_data (FileData.RoundTrip.canonical m)
canonical (file_ack m) = file_ack m
canonical (error_message m) = error_message m
canonical (auth_challenge m) = auth_challenge m
canonical (auth_response m) = auth_response m
canonical (auth_result m) = auth_result m
canonical (download_request m) = download_request m
canonical (download_response m) = download_response m
canonical (list_request m) = list_request m
canonical (list_response m) = list_response m
canonical (disconnect m) = disconnect m
canonical (file_verify_request m) = file_verify_request m
canonical (file_verify_response m) = file_verify_response m
canonical (block_hashes_request m) = block_hashes_request m
canonical (block_hashes_response m) = block_hashes_response m
canonical (transfer_status_request m) = transfer_status_request m
canonical (transfer_status_response m) = transfer_status_response m
