-- ===== src/Protocol/FileData.antt =====
-- FileData of include/protocol/message.h and src/protocol/message.cpp: a batch of chunks behind a
-- magic number, or a single chunk in the message's own fields.
pub mod RoundTrip
use net_copy.Common.{
  ℕ, zero, suc, ◌%◌, ◌^◌, List, [], ◌∷◌, ◌++◌, Bool, map, length, Result, ok, throw,
  protocol_exception, ◌==◌, if◌then◌else◌,
}
use net_copy.Protocol.Reader.{Reader, ◌>>=◌, return, concat}
use net_copy.Protocol.Wire.{write_bool, write_uint32, write_uint64, write_bytes, read_uint32}
use net_copy.Protocol.Wire.Sequence.{write_list, read_list}
use net_copy.Protocol.Chunk
use net_copy.Protocol.Chunk.{Chunk}

-- "NCD1", little-endian.
abbrev pub file_data_magic : ℕ
file_data_magic = 0x3144434E

pub record FileData : Type 0 where
  pub chunks : List Chunk
  pub offset : ℕ
  pub uncompressed_size : ℕ
  pub data_bytes : List ℕ
  pub is_last_chunk : Bool
  pub compressed : Bool

abbrev size_or_length : ℕ → List ℕ → ℕ
size_or_length n bytes = if n == 0 then length bytes else n

-- The lambda of `serialize_payload`, at a chunk.
unfoldable pub write_chunk_payload : Chunk → List ℕ
write_chunk_payload c = concat (
    write_uint64 c.offset
    ∷ write_uint64 (size_or_length c.uncompressed_size c.data_bytes)
    ∷ write_bytes c.data_bytes
    ∷ write_bool c.is_last_chunk
    ∷ write_bool c.compressed
    ∷ [])

-- The chunk that the message's own fields make.
abbrev pub single : FileData → Chunk
single m = record {
  offset = m.offset;
  uncompressed_size = m.uncompressed_size;
  data_bytes = m.data_bytes;
  is_last_chunk = m.is_last_chunk;
  compressed = m.compressed;
}

-- What is sent: the batch, or the single chunk if the batch is empty.
abbrev pub or_single : Chunk → List Chunk → List Chunk
or_single c [] = c ∷ []
or_single c (d ∷ ds) = d ∷ ds

unfoldable pub serialize_payload : FileData → List ℕ
unfolding write_chunk_payload
serialize_payload m =
    let sent = or_single (single m) m.chunks in
    concat (
      write_uint32 file_data_magic
      ∷ write_uint32 (length sent % 2 ^ 32)
      ∷ write_list write_chunk_payload sent
      ∷ [])

-- A batch that was read, with its first chunk in the message's own fields.
abbrev pub of_chunks : Chunk → List Chunk → FileData
of_chunks c cs = record {
  chunks = c ∷ cs;
  offset = c.offset;
  uncompressed_size = c.uncompressed_size;
  data_bytes = c.data_bytes;
  is_last_chunk = c.is_last_chunk;
  compressed = c.compressed;
}

-- The loop over `chunk_count` chunks, its first round apart for `chunks.front()`.
unfoldable pub read_chunks : ℕ → Reader FileData
read_chunks zero bs = throw (protocol_exception "File data payload has no chunks")
read_chunks (suc n) bs =
    (do c ← Chunk.read_payload; cs ← read_list n Chunk.read_payload; return (of_chunks c cs)) bs

unfoldable pub check_magic : ℕ → Reader (Unit {0})
check_magic magic bs =
    if magic == file_data_magic
    then ok (tt, bs)
    else throw (protocol_exception "Unsupported file data payload format")

unfoldable pub read_payload : Reader FileData
unfolding check_magic read_chunks
read_payload = do
  magic ← read_uint32
  _ ← check_magic magic
  chunk_count ← read_uint32
  read_chunks chunk_count

-- `if (offset_pos != data_buffer.size()) throw ...`
abbrev at_end : FileData → List ℕ → Result FileData
at_end m [] = ok m
at_end m (b ∷ rest) = throw (protocol_exception "Trailing bytes in file data payload")

unfoldable pub deserialize_payload : List ℕ → Result FileData
unfolding read_payload
deserialize_payload bytes = elim (read_payload bytes) [
  | ok (m, rest) ↦ at_end m rest
  | throw e ↦ throw e
]
