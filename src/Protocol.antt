-- ===== src/Protocol.antt =====
-- src/protocol/message.cpp
pub mod Reader
pub mod Wire
pub mod HandshakeRequest
pub mod HandshakeResponse
pub mod FileRequest
pub mod FileResponse
pub mod FileAck
pub mod ErrorMessage
pub mod AuthChallenge
pub mod AuthResponse
pub mod AuthResult
pub mod DownloadRequest
pub mod DownloadResponse
pub mod ListRequest
pub mod FileVerifyRequest
pub mod FileVerifyResponse
pub mod BlockHashesRequest
pub mod TransferStatusRequest
pub mod TransferStatusResponse
pub mod RemoteFileInfo
pub mod BlockHashInfo
pub mod Chunk
pub mod Disconnect
pub mod ListResponse
pub mod BlockHashesResponse
pub mod FileData
pub mod MessageHeader
pub mod Message
pub mod Tests
