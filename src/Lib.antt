-- ===== src/Lib.antt =====
-- A verification library of net_copy, a client and a server that copy files over a network.
--
-- The program. A client (src/client) connects to a server (src/server), and the two exchange the
-- messages of src/protocol over a socket (src/network), encrypted by an engine of src/crypto. After the
-- handshake the server may ask who the client is: src/auth keeps a file of users, sends a challenge and
-- verifies the proof. File data then goes in chunks, whose size src/common adapts to what the network
-- carries. This library models the protocol, the ciphers and digests, the users and their
-- authentication, the size of the chunks, the limit on the rate, the exchange of messages over a
-- socket, the paths that a server serves, and the uploads, downloads and listings of files. Paths are
-- from the repository's root.
--
-- The files.
--   Common            what the others share: Boolean tests, lists over the native numbers, bytes,
--                     `&`, `|` and `^` by their digits, and the exceptions of include/exceptions.h.
--   Protocol          src/protocol/message.cpp and include/protocol/message.h. Wire holds the helpers
--                     (write_uint32, read_string, ...), Reader how they are put in sequence. There is
--                     a module for each message class, named as the class, with `serialize_payload`
--                     and `read_payload` (deserialize_payload). MessageHeader and Message hold the
--                     header, `Message::serialize`, and `Message::deserialize` with its switch.
--                     Older, below a message, is about payloads of earlier versions.
--   Crypto            src/crypto. Stream is the loop that the stream ciphers share; XorCipher,
--                     ChaCha20, Poly1305 and ChaCha20Poly1305 are the ciphers of xor_cipher.cpp and
--                     chacha20_poly1305.cpp, the last with HighSecurityEngine of crypto_engine.cpp,
--                     FastSecurityEngine the engine over XorCipher. Keccak, Sha3, Pbkdf2 and Hex are
--                     sha3.cpp, MlKem is mlkem.cpp.
--   Auth              src/auth. Fields, UserEntry and UserDb are user_db.cpp, AuthEngine is
--                     auth_engine.cpp with the proof that client.cpp computes, ConstantTime the
--                     comparison that both files share.
--   Throttle          ChunkSizeManager is src/common/chunk_size_manager.cpp, BandwidthLimiter
--                     src/common/bandwidth_limiter.cpp.
--   Transport         Socket is `Socket::receive` of src/network/socket.cpp as an interface, as it is
--                     over TCP, with or without TLS, and the loop around it; that of UDP is left out.
--                     Engine is the interface of crypto_engine.h with its two modelled engines, Frame
--                     `send_message` and `receive_message`, which src/client/client.cpp has too.
--   Files             Path and Names are the path functions of src/common/utils.cpp and of
--                     src/file/file_manager.cpp, Safe is `is_path_safe` and `is_path_allowed`, Disk
--                     the system's calls as the record `FileSystem`, with `FileStream` over them,
--                     Hashing the hashes of files and blocks. Memory is a file system to run on.
--   Server            ConnectionHandler of src/server/server.cpp. State is what it keeps between
--                     messages and Run the code that changes it, Request is `handle_file_request`,
--                     Chunks and Upload are `handle_file_data`, Verify is the check of whole files,
--                     Download is `handle_download_request` as steps of its two threads, Queries
--                     the listings and the status of a session, Confined a connection as the
--                     sequence of its messages.
-- A folder below a component holds its proofs, named for what they are about; Tests holds runs at
-- concrete inputs and the results below at such inputs.
--
-- How the code is read. A byte, a character and a number of any width are native natural numbers, and
-- every wrap-around is written out. A buffer or a string is a list of them; a string is the list of its
-- characters' codes. A function that throws returns `Result`, with the exception's class and its text
-- (without the names and values that the code appends). An object that a method changes is an argument
-- and a result. A reader takes what is left of a buffer from the position on, and returns what is left
-- behind what it read. A loop is a recursion on the structure of its input, or on fuel: the number of
-- bytes, of which each round takes at least one. `xor_blocks_fuel` and `blocks_fuel` say that more fuel
-- changes nothing. The machine is little-endian where the code uses `memcpy` on numbers.
--
-- What is a parameter. Random bytes and the time are arguments. liboqs is the record `OqsKem` of its
-- functions; numbers of type `double` are the record `Double` of their operations; the system's calls
-- on files are the record `FileSystem` and its receive is the record `Socket`, with what POSIX promises
-- of them in `IsPosix` and `IsStream`. What xxHash64 gives for a row of bytes, LZ4_decompress_safe, the
-- text of an exception, and what the memory of a field holds that nothing sets are arguments. What a
-- result asks of them stands among its hypotheses.
--
-- How the server is read. The code is that of a POSIX system. A handler is a function of its message
-- and of the handler's fields with the disk, and returns the message that it sends and both as they are
-- then; what changed before an exception stays changed. The fields are those that the modelled code
-- reads. Log lines, audit lines and webhooks are left out. An answer counts as sent: if the socket
-- fails instead, the exception ends the connection. Memory suffices: `reserve` does
-- not throw. Whether a path exists and of what kind it is, the system answers without an error. Only this connection writes to the disk, but
-- in Server/Confined, where any program may in between. A loop of `pwrite` or `pread` has a
-- fuel of the bytes that are left, and the results need no more.
--
-- What is not modelled, so far: AES, the key files and base64, the text of the user file as a whole,
-- the configuration, the bandwidth monitor, the handshake, the loop that calls the handlers, and the
-- client's side of a transfer. These are planned in this order of need: the client's side, the
-- configuration, the key files. Not to be modelled are sockets, SSH, logging, services, the programs'
-- command lines and the graphical interface, which are calls of the system; the copies of memory in
-- assembly; lz4, OpenSSL and the GPU; and src/crypto/xxhash64.cpp, a copy of the
-- implementation of xxHash. Each method of ChunkSizeManager and of BandwidthLimiter is one step, which
-- is what a lock makes of it (`set_limits` and `set_max_chunk_size` take none).
pub mod Common
pub mod Protocol
pub mod Crypto
pub mod Auth
pub mod Throttle
pub mod Transport
pub mod Files
pub mod Server
