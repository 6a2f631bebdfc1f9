-- ===== src/Server/Download/Bounds.antt =====
-- The limits that the configuration can give.
use net_copy.Common.{ℕ, ◌*◌, ◌≤◌, arith}
use net_copy.Server.Download.{
  mebibyte, normalized_window_bytes, normalized_batch_bytes, normalized_batch_chunks,
}

pub normalized_window_bytes_lem :
    (configured : ℕ)
    → (4 * mebibyte ≤ normalized_window_bytes configured)
      × (normalized_window_bytes configured ≤ 512 * mebibyte)
unfolding normalized_window_bytes
normalized_window_bytes_lem configured = (omega arith, omega arith)

pub normalized_batch_bytes_lem :
    (configured window : ℕ)
    → (64 * 1024 ≤ normalized_batch_bytes configured window)
      × (normalized_batch_bytes configured window ≤ 63 * mebibyte)
unfolding normalized_batch_bytes
normalized_batch_bytes_lem configured window = (omega arith, omega arith)

pub normalized_batch_chunks_lem :
    (configured : ℕ)
    → (1 ≤ normalized_batch_chunks configured) × (normalized_batch_chunks configured ≤ 64)
unfolding normalized_batch_chunks
normalized_batch_chunks_lem configured = (omega arith, omega arith)
