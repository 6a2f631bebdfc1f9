-- ===== src/Server/Upload/Content.antt =====
-- What a message of chunks that continue the data does, and the last one.
use net_copy.Common.{
  ℕ, ◌^◌, ◌≤◌, ◌<◌, ◌≡◌, refl, sym, ap, ◌∙◌, subst, List, [], ◌∷◌, ◌++◌, length, length-append,
  Bool, true, false, ◌||◌, Option, Result, ok, ok-injective, NetCopyException, arith,
}
use net_copy.Protocol.Chunk.{Chunk}
use net_copy.Protocol.FileData.{FileData, single, or_single}
use net_copy.Files.Path.{Text}
use net_copy.Files.Disk.{FileSystem, IsPosix}
use net_copy.Server.Run.{pass}
use net_copy.Server.Run.Laws.{passed}
use net_copy.Server.State.{is_empty, World}
use net_copy.Server.Chunks.{is_marker_file, payload_of, process_chunk}
use net_copy.Server.Chunks.Hashing.{same_IsHashing}
use net_copy.Server.Chunks.Content.{Wrote, process_chunk-Wrote}
use net_copy.Server.Upload.{count_transfer, Progress, count_chunk, process_chunks, receive_chunks}

-- Whether the last chunk of the file is among them.
abbrev pub any_last : List Chunk → Bool
any_last [] = false
any_last (c ∷ cs) = c.is_last_chunk || any_last cs

-- The chunks that a message carries.
abbrev pub sent_chunks : FileData → List Chunk
sent_chunks m = or_single (single m) m.chunks

module _ (F : FileSystem) (lz4 : List ℕ → ℕ → Option (List ℕ)) where
  -- Chunks that continue what was received up to what is received then: each has the offset at which
  -- the data before it ends, and the payload that it carries, compressed or not, comes next.
  pub data Continues : List ℕ → List Chunk → List ℕ → Type 0 where
    end : {received : List ℕ} → Continues received [] received
    next :
        {received payload total : List ℕ} {c : Chunk} {cs : List Chunk}
        → payload_of F lz4 c ≡ ok payload
        → c.offset ≡ length received
        → Continues (received ++ payload) cs total
        → Continues received (c ∷ cs) total

  pub Continues-grows :
      (received total : List ℕ) (cs : List Chunk)
      → Continues received cs total
      → length received ≤ length total
  Continues-grows received total [] end = omega arith
  Continues-grows received total (c ∷ cs) (next {payload = p} sent at more) =
      omega (arith, Continues-grows (received ++ p) total cs more, length-append received p)

or_swap : (a b c : Bool) → (b || (a || c)) ≡ ((a || b) || c)
or_swap true true c = refl
or_swap true false c = refl
or_swap false b c = refl

-- The largest end of the chunks: that of the last one.
abbrev EndsAt : List Chunk → ℕ → ℕ → List ℕ → Type 0
EndsAt [] before after total = after ≡ before
EndsAt (c ∷ cs) before after total = after ≡ length total

message_end :
    (c : Chunk) (cs : List Chunk) (total : List ℕ) (after : ℕ)
    → EndsAt (or_single c cs) 0 after total
    → after ≡ length total
message_end c [] total after h = h
message_end c (d ∷ ds) total after h = h

or_false : (b : Bool) → (b || false) ≡ b
or_false true = refl
or_false false = refl

EndsAt-total :
    (F : FileSystem) (lz4 : List ℕ → ℕ → Option (List ℕ)) (received total : List ℕ)
    (cs : List Chunk) (before after : ℕ)
    → Continues F lz4 received cs total
    → before ≡ length received
    → EndsAt cs before after total
    → after ≡ length total
EndsAt-total F lz4 received total [] before after end h e = e ∙ h
EndsAt-total F lz4 received total (c ∷ cs) before after (next sent at more) h e = e

module _ (F : FileSystem) (P : IsPosix F) (what : NetCopyException → List ℕ) (unset : ℕ)
    (lz4 : List ℕ → ℕ → Option (List ℕ)) (path : Text) (expected : ℕ) (streams : Bool) where
  -- The loop, where no end so far is behind what was received.
  process_chunks-Wrote :
      (received total : List ℕ) (cs : List Chunk) (p q : Progress) (w : World F)
      → Continues F lz4 received cs total
      → length total ≤ expected
      → expected < 2 ^ 64
      → p.max_bytes_received ≤ length received
      → Wrote F P path expected streams received w
      → (process_chunks F lz4 false cs p w).0 ≡ ok q
      → Wrote F P path expected streams total (process_chunks F lz4 false cs p w).1
        × EndsAt cs p.max_bytes_received q.max_bytes_received total
        × (q.completes ≡ (any_last cs || p.completes))
  unfolding process_chunks
  process_chunks-Wrote received total [] p q w end room small count wrote done =
      let same = ok-injective done in
      (
        wrote,
        ap (λ (x : Progress). x.max_bytes_received) (sym same),
        ap (λ (x : Progress). x.completes) (sym same),
      )
  process_chunks-Wrote received total (c ∷ cs) p q w (next {payload = b} sent at more) room small
        count wrote done =
      let (ended, chunk_ok, to_rest) = passed (process_chunk F lz4 false c w) _ q done in
      let w1 = (process_chunk F lz4 false c w).1 in
      let grows = Continues-grows F lz4 (received ++ b) total cs more in
      let (wrote1, counted) =
        process_chunk-Wrote F P lz4 path expected streams received b c w ended
          (omega (arith, length-append received b)) small sent at wrote chunk_ok in
      let largest : (count_chunk c ended p).max_bytes_received ≡ length (received ++ b) =
        rw counted (omega (arith, length-append received b)) in
      let rest =
        process_chunks-Wrote (received ++ b) total cs (count_chunk c ended p) q w1 more room small
          (omega (arith, largest)) wrote1 (ap (λ r. r.0) (sym to_rest) ∙ done) in
      (
        subst (λ (r : Result Progress × World F). Wrote F P path expected streams total r.1)
            (sym to_rest) rest.0,
        EndsAt-total F lz4 (received ++ b) total cs _ _ more largest rest.1,
        rest.2 ∙ or_swap c.is_last_chunk (any_last cs) p.completes,
      )

  count_session_Wrote :
      (total : List ℕ) (w : World F) (p : Progress)
      → Wrote F P path expected streams total w
      → Wrote F P path expected streams total (count_transfer F p w).1
  count_session_Wrote total w p wrote = record {
    receiving = record {
      at = wrote.receiving.at;
      expects = wrote.receiving.expects;
      plain = wrote.receiving.plain;
      begins = wrote.receiving.begins;
      truncated = wrote.receiving.truncated;
    };
    hashing = same_IsHashing streams total w.handler _ (refl, refl, refl) wrote.hashing;
  }

  -- A message, up to its end.
  pub receive_chunks-Wrote :
      (received total : List ℕ) (m : FileData) (q : Progress) (w : World F)
      → is_empty path ≡ false
      → is_marker_file path ≡ false
      → Continues F lz4 received (sent_chunks m) total
      → length total ≤ expected
      → expected < 2 ^ 64
      → Wrote F P path expected streams received w
      → (receive_chunks F lz4 m w).0 ≡ ok q
      → Wrote F P path expected streams total (receive_chunks F lz4 m w).1
        × (q.max_bytes_received ≡ length total)
        × (q.completes ≡ any_last (sent_chunks m))
  unfolding receive_chunks
  receive_chunks-Wrote received total m q w given plain cs room small wrote done =
      let start : Progress = record {
        max_bytes_received = 0;
        payload_size = 0;
        completes = false;
      } in
      let loop = process_chunks F lz4 false (sent_chunks m) start w in
      let given' = ap is_empty wrote.receiving.at ∙ given in
      let plain' = ap is_marker_file wrote.receiving.at ∙ plain in
      let known : receive_chunks F lz4 m w ≡ pass loop (count_transfer F) =
        unfold receive_chunks in (rw (given', plain') refl) in
      let (p, loop_ok, to_end) =
        passed loop (count_transfer F) q (ap (λ r. r.0) (sym known) ∙ done) in
      let (wrote', largest, last) =
        process_chunks-Wrote received total (sent_chunks m) start p w cs room small (omega arith)
          wrote loop_ok in
      let same : p ≡ q =
        ok-injective (ap (λ (r : Result Progress × World F). r.0) (sym (known ∙ to_end)) ∙ done) in
      (
        subst (λ (r : Result Progress × World F). Wrote F P path expected streams total r.1)
            (sym (known ∙ to_end)) (count_session_Wrote total loop.1 p wrote'),
        ap (λ (x : Progress). x.max_bytes_received) (sym same)
            ∙ message_end (single m) m.chunks total p.max_bytes_received largest,
        ap (λ (x : Progress). x.completes) (sym same) ∙ last ∙ or_false (any_last (sent_chunks m)),
      )
