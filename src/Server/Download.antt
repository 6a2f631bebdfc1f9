-- ===== src/Server/Download.antt =====
-- The transfer of `handle_download_request` of src/server/server.cpp: its window and its batches, and
-- the two threads, of which one sends and one receives the acknowledgements.
pub mod Bounds
pub mod Answer
pub mod Delivery
pub mod Transfers
pub mod Progress
pub mod Tests
use net_copy.Common.{
  ℕ, zero, suc, ◌+◌, ◌-◌, ◌*◌, ◌/◌, ◌%◌, ◌^◌, ◌<◌, ◌≡◌, min, max, List, [], ◌∷◌, ◌++◌, length, Bool,
  true, false, ltb, leb, ◌==◌, ◌&&◌, if◌then◌else◌, Option, none, some, Result, ok, throw, and_then,
  file_exception,
}
use net_copy.Crypto.Sha3.{Sha3Hasher, update}
use net_copy.Protocol.Chunk.{Chunk}
use net_copy.Protocol.FileData.{FileData}
use net_copy.Files.Path.{Text}
use net_copy.Files.Disk.{FileSystem}

abbrev pub mebibyte : ℕ
mebibyte = 1024 * 1024

-- `normalized_window_bytes`: from 4 to 512 MiB, 64 MiB by default.
unfoldable pub normalized_window_bytes : ℕ → ℕ
normalized_window_bytes configured =
    let value = if configured == 0 then 64 * mebibyte else configured in
    max (4 * mebibyte) (min value (512 * mebibyte))

-- `normalized_batch_bytes`: a frame less a margin, and half of the window, at most. The default is 0.
unfoldable pub normalized_batch_bytes : ℕ → ℕ → ℕ
normalized_batch_bytes configured window_bytes =
    max (64 * 1024) (min (min configured (64 * mebibyte - mebibyte)) (max 1 (window_bytes / 2)))

-- `normalized_batch_chunks`: from 1 to 64, 1 by default. The setting is a signed number; one that is
-- not positive is 0 here.
unfoldable pub normalized_batch_chunks : ℕ → ℕ
normalized_batch_chunks configured =
    let value = if configured == 0 then 1 else configured in max 1 (min value 64)

-- `CHUNK`
abbrev pub chunk_size : ℕ
chunk_size = 4 * mebibyte

-- Where the sending thread stands: at the test of `ack_cv.wait`, behind a test that was false and not yet
-- waiting, or waiting.
pub data Sender : Type 0 where
  testing : Sender
  tested : Sender
  blocked : Sender

-- `ack_cv.notify_all()` reaches the thread only when it waits already.
abbrev pub woken : Sender → Sender
woken blocked = testing
woken testing = testing
woken tested = tested

-- What stays the same during a transfer: the file, its size when it was opened, and the limits.
pub record Limits : Type 0 where
  pub file_size : ℕ
  pub max_window_bytes : ℕ
  pub max_batch_bytes : ℕ
  pub max_batch_chunks : ℕ

module _ (F : FileSystem) (path : Text) (d : F.Disk) (l : Limits) where
  abbrev pub chunk_at : ℕ → List ℕ → Chunk
  chunk_at offset bytes = record {
    offset = offset;
    uncompressed_size = length bytes;
    data_bytes = bytes;
    is_last_chunk = leb l.file_size (offset + length bytes);
    compressed = false;
  }

  -- A round that read nothing ends the batch, as the last chunk of the file does.
  abbrev pub after_read : ℕ → Option (List ℕ) → (List ℕ → Result (List Chunk)) → Result (List Chunk)
  after_read offset none more = throw (file_exception "FileStream read failed: ")
  after_read offset (some []) more = ok []
  after_read offset (some (b ∷ bs)) more =
      let c = chunk_at offset (b ∷ bs) in
      if c.is_last_chunk then ok (c ∷ []) else and_then (more (b ∷ bs)) (λ cs. ok (c ∷ cs))

  -- The loop that collects a batch, with this many chunks to go and these bytes in it.
  unfoldable pub collect : ℕ → ℕ → ℕ → Result (List Chunk)
  collect zero offset batch_bytes = ok []
  collect (suc n) offset batch_bytes =
      let next =
        after_read offset (F.pread path (min chunk_size (l.file_size - offset)) offset d)
          (λ bytes. collect n (offset + length bytes) (batch_bytes + length bytes)) in
      if ltb offset l.file_size && ltb batch_bytes l.max_batch_bytes then next else ok []

  -- A batch of one chunk is sent in the message's own fields.
  abbrev pub batch_message : List Chunk → FileData
  batch_message (c ∷ []) = record {
    chunks = [];
    offset = c.offset;
    uncompressed_size = c.uncompressed_size;
    data_bytes = c.data_bytes;
    is_last_chunk = c.is_last_chunk;
    compressed = c.compressed;
  }
  batch_message chunks = record {
    chunks = chunks;
    offset = 0;
    uncompressed_size = 0;
    data_bytes = [];
    is_last_chunk = false;
    compressed = false;
  }

  -- `offset`, `last_acknowledged_offset` and `ack_thread_failed`, with the messages sent so far, where the
  -- sending thread stands, and whether the other one has still to call `notify_all`.
  pub record Transfer : Type 0 where
    pub offset : ℕ
    pub acknowledged : ℕ
    pub failed : Bool
    pub sent : List FileData
    pub sender : Sender
    pub notifying : Bool

  -- The condition that the sending thread waits for. The difference is one of 64 bits.
  abbrev pub has_room : Transfer → Bool
  has_room t = ltb ((t.offset + 2 ^ 64 - t.acknowledged) % 2 ^ 64) l.max_window_bytes

  abbrev pub payload_size : List Chunk → ℕ
  payload_size [] = 0
  payload_size (c ∷ cs) = length c.data_bytes + payload_size cs

  abbrev pub send_batch : List Chunk → Transfer → Transfer
  send_batch chunks t = record t {
    offset = t.offset + payload_size chunks;
    sent = t.sent ++ (batch_message chunks ∷ []);
  }

  -- The steps of the two threads, in any order: a batch is sent; the test of the wait is false, and the
  -- thread waits; it wakes up by itself, as a condition variable may; an acknowledgement of an offset
  -- comes, or one that is no success; and the sending thread is notified, for which `ack_mutex` is not
  -- held.
  pub data Step : Transfer → Transfer → Type 0 where
    send :
        {t : Transfer} (c : Chunk) (cs : List Chunk)
        → t.sender ≡ testing
        → t.offset < l.file_size
        → t.failed ≡ false
        → has_room t ≡ true
        → collect l.max_batch_chunks t.offset 0 ≡ ok (c ∷ cs)
        → Step t (send_batch (c ∷ cs) t)
    wait :
        {t : Transfer}
        → t.sender ≡ testing
        → t.offset < l.file_size
        → t.failed ≡ false
        → has_room t ≡ false
        → Step t (record t { sender = tested })
    block : {t : Transfer} → t.sender ≡ tested → Step t (record t { sender = blocked })
    wake : {t : Transfer} → t.sender ≡ blocked → Step t (record t { sender = testing })
    acknowledge :
        {t : Transfer} (bytes_received : ℕ)
        → t.notifying ≡ false
        → t.acknowledged < l.file_size
        → t.failed ≡ false
        → Step t (record t { acknowledged = bytes_received; notifying = true })
    fail :
        {t : Transfer}
        → t.notifying ≡ false
        → t.acknowledged < l.file_size
        → t.failed ≡ false
        → Step t (record t { failed = true; notifying = true })
    notify :
        {t : Transfer}
        → t.notifying ≡ true
        → Step t (record t { sender = woken t.sender; notifying = false })
