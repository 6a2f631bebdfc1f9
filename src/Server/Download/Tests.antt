-- ===== src/Server/Download/Tests.antt =====
-- A transfer of five bytes from a file system in memory.
use net_copy.Common.{
  zero, suc, ◌*◌, ◌≤◌, ◌+◌, ◌<◌, ◌≡◌, ◌⊎◌, refl, List, [], ◌∷◌, ◌++◌, drop, true, false, ok, arith,
}
use net_copy.Protocol.Chunk.{Chunk}
use net_copy.Files.Memory.{memory, memory_laws, Files}
use net_copy.Server.Download.{
  Limits, chunk_size, normalized_window_bytes, normalized_batch_bytes, normalized_batch_chunks,
  collect, Transfer, send_batch, Step, send,
}
use net_copy.Server.Download.Transfers.{
  all_chunks, joined_data, start, Reaches, at_start, then_step, transfer-Sound,
}
use net_copy.Server.Download.Progress.{Reads, transfer_progress}

abbrev five : Files
five p = 1 ∷ 2 ∷ 3 ∷ 4 ∷ 5 ∷ []

abbrev limits : Limits
limits = record {
  file_size = 5;
  max_window_bytes = 4 * 1024 * 1024;
  max_batch_bytes = 64 * 1024;
  max_batch_chunks = 1;
}

limits-default :
    (normalized_window_bytes 1 ≡ limits.max_window_bytes)
    × (normalized_batch_bytes 0 limits.max_window_bytes ≡ limits.max_batch_bytes)
    × (normalized_batch_chunks 0 ≡ limits.max_batch_chunks)
unfolding normalized_window_bytes normalized_batch_bytes normalized_batch_chunks
limits-default = (refl, refl, refl)

abbrev whole : Chunk
whole = record {
  offset = 0;
  uncompressed_size = 5;
  data_bytes = 1 ∷ 2 ∷ 3 ∷ 4 ∷ 5 ∷ [];
  is_last_chunk = true;
  compressed = false;
}

collect-whole : collect memory [] five limits 1 0 0 ≡ ok (whole ∷ [])
unfolding collect
collect-whole = refl

abbrev all_sent : Transfer memory [] five limits
all_sent = send_batch memory [] five limits (whole ∷ []) (start memory memory_laws [] five limits 0)

all_sent-Reaches : Reaches memory memory_laws [] five limits 0 all_sent
all_sent-Reaches = then_step (send whole [] refl (omega arith) refl refl collect-whole) tt at_start

transfer-Sound_example :
    (joined_data (all_chunks all_sent.sent) ++ drop 5 (five []) ≡ drop 0 (five []))
    × (5 ≡ limits.file_size → joined_data (all_chunks all_sent.sent) ≡ drop 0 (five []))
    × (all_sent.acknowledged ≤ all_sent.offset)
    × (all_sent.offset
        < all_sent.acknowledged + (limits.max_window_bytes + (limits.max_batch_bytes + chunk_size)))
transfer-Sound_example =
    transfer-Sound memory memory_laws [] five limits 0 all_sent refl (omega arith) (omega arith)
      all_sent-Reaches

five-Reads : Reads memory memory_laws [] five limits
five-Reads zero room = (1, _, refl)
five-Reads (suc zero) room = (2, _, refl)
five-Reads (suc (suc zero)) room = (3, _, refl)
five-Reads (suc (suc (suc zero))) room = (4, _, refl)
five-Reads (suc (suc (suc (suc zero)))) room = (5, _, refl)
five-Reads (suc (suc (suc (suc (suc n))))) room = absurd (omega arith)

transfer_progress_example :
    (all_sent.notifying ≡ true)
    ⊎ ((all_sent.acknowledged < all_sent.offset)
        × Step memory [] five limits all_sent
            (record all_sent { acknowledged = 5; notifying = true }))
    ⊎ ((c : Chunk) × (cs : List Chunk) × Step memory [] five limits all_sent
          (send_batch memory [] five limits (c ∷ cs) all_sent))
unfolding all_sent-Reaches
transfer_progress_example =
    transfer_progress memory memory_laws [] five limits five-Reads 0 all_sent (omega arith)
      (omega arith) (omega arith) (omega arith) (omega arith) all_sent-Reaches (tt, tt) refl
      (omega arith)
