-- ===== src/Server/Upload/Whole.antt =====
-- An upload from its request to its last message.
use net_copy.Common.{
  ℕ, ◌^◌, ◌≤◌, ◌<◌, ◌≡◌, sym, List, [], length, Bool, true, false, Option, NetCopyException, arith,
}
use net_copy.Protocol.FileRequest.{FileRequest}
use net_copy.Protocol.FileData.{FileData}
use net_copy.Files.Path.{Text}
use net_copy.Files.Disk.{FileSystem, IsPosix}
use net_copy.Server.State.{is_empty, World}
use net_copy.Server.Chunks.{is_marker_file}
use net_copy.Server.Chunks.Content.{Wrote}
use net_copy.Server.Request.{is_streamed, handle_file_request}
use net_copy.Server.Request.Accepted.{handle_file_request-Accepted}
use net_copy.Server.Upload.{receive_chunks, handle_file_data}
use net_copy.Server.Upload.Content.{any_last, sent_chunks, Continues, Continues-grows}
use net_copy.Server.Upload.Complete.{
  CanResize, known_hash, handle_file_data-Wrote, handle_file_data_completes,
}

module _ (F : FileSystem) (P : IsPosix F) (what : NetCopyException → List ℕ) (unset : ℕ)
    (lz4 : List ℕ → ℕ → Option (List ℕ)) where
  -- Messages in the middle of a file that the handler acknowledged as successes, each with chunks that
  -- continue the data.
  pub data Uploads : List ℕ → World F → List ℕ → World F → Type 0 where
    nothing_sent : {received : List ℕ} {w : World F} → Uploads received w received w
    then_sent :
        {received more total : List ℕ} {w v : World F} (m : FileData)
        → Continues F lz4 received (sent_chunks m) more
        → any_last (sent_chunks m) ≡ false
        → (handle_file_data F what unset lz4 m w).0.success ≡ true
        → Uploads more (handle_file_data F what unset lz4 m w).1 total v
        → Uploads received w total v

  Uploads-grow :
      (received total : List ℕ) (w v : World F)
      → Uploads received w total v
      → length received ≤ length total
  Uploads-grow received total w v nothing_sent = omega arith
  Uploads-grow received total w v (then_sent {more = more} m continues middle done rest) = omega (
    arith,
    Continues-grows F lz4 received more (sent_chunks m) continues,
    Uploads-grow more total (handle_file_data F what unset lz4 m w).1 v rest,
  )

  module _ (path : Text) (given : is_empty path ≡ false) (plain : is_marker_file path ≡ false)
      (expected : ℕ) (small : expected < 2 ^ 64) (streams : Bool) where
    Uploads-Wrote :
        (received total : List ℕ) (w v : World F)
        → Uploads received w total v
        → length total ≤ expected
        → Wrote F P path expected streams received w
        → Wrote F P path expected streams total v
    Uploads-Wrote received total w v nothing_sent room wrote = wrote
    Uploads-Wrote received total w v (then_sent {more = more} m continues middle done rest) room
          wrote =
        let next = (handle_file_data F what unset lz4 m w).1 in
        let (wrote', ends) =
          handle_file_data-Wrote F P what unset lz4 path given plain expected small streams received
            more m w continues middle (omega (arith, Uploads-grow more total next v rest)) wrote
            done in
        Uploads-Wrote more total next v rest room wrote'

  -- If the destination is an ordinary file, and an accepted request is followed by messages whose
  -- chunks carry the data in order, as many bytes as were announced, and the handler acknowledges each
  -- as a success, then the file holds exactly the data, whatever it held before, however the chunks
  -- were batched and compressed and however short the writes of the system were, whether or not the
  -- file was preallocated; the last acknowledgement names the number of bytes; and if the data was
  -- hashed as it came, the hash that is kept is its SHA3-256. This needs that the file, if it is there at
  -- the end, has a size and can be resized.
  pub upload-stores :
      (id client_ip : List ℕ) (request : FileRequest) (w v : World F) (received total : List ℕ)
      (m : FileData)
      → let accepted = handle_file_request F what unset id client_ip request w in
        let path = accepted.1.handler.current_file_path in
        let after = handle_file_data F what unset lz4 m v in
        request.is_symlink ≡ false
        → is_empty path ≡ false
        → is_marker_file path ≡ false
        → request.file_size ≡ length total
        → length total < 2 ^ 64
        → CanResize F path (length total) (receive_chunks F lz4 m v).1.disk
        → accepted.0.success ≡ true
        → Uploads [] accepted.1 received v
        → Continues F lz4 received (sent_chunks m) total
        → any_last (sent_chunks m) ≡ true
        → after.0.success ≡ true
        → (after.0.bytes_received ≡ length total)
          × (F.content path after.1.disk ≡ total)
          × (is_streamed request w.handler.config ≡ true
              → after.1.handler.last_received_file_hash ≡ known_hash path total)
  upload-stores id client_ip request w v received total m plain given ordinary size small can_resize
        accepted middle continues last done =
      let started = handle_file_request F what unset id client_ip request w in
      let path = started.1.handler.current_file_path in
      let streams = is_streamed request w.handler.config in
      let begun =
        (handle_file_request-Accepted F P what unset id client_ip request w plain
          accepted).started in
      let wrote =
        Uploads-Wrote path given ordinary request.file_size (omega arith) streams [] received
          started.1 v middle
          (omega (arith, Continues-grows F lz4 received total (sent_chunks m) continues)) begun in
      handle_file_data_completes F P what unset lz4 path given ordinary request.file_size
        (omega arith) streams received total m v can_resize continues last (sym size) wrote done
