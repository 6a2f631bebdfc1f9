-- ===== src/Server/Chunks/Content.antt =====
-- What a chunk that continues the data does to the file and to the hash.
use net_copy.Common.{
  ℕ, ◌+◌, ◌%◌, ◌^◌, ◌≤◌, ◌<◌, ◌≡◌, refl, sym, ap, ◌∙◌, subst, List, ◌++◌, length, length-append,
  Bool, false, ◌==◌, ◌&&◌, ltb, Bool-cases, inl, inr, Option, none, some, Result, ok, ok-injective,
  arith,
}
use net_copy.Crypto.Sha3.{Sha3Hasher}
use net_copy.Protocol.Chunk.{Chunk}
use net_copy.Files.Path.{Text}
use net_copy.Files.Disk.{FileSystem, IsPosix, open_write, write}
use net_copy.Files.Disk.Laws.{BeginsWith, write-BeginsWith}
use net_copy.Server.Run.{pass}
use net_copy.Server.Run.Laws.{passed}
use net_copy.Server.State.{ConnectionHandler, World}
use net_copy.Server.Chunks.{
  payload_of, is_open_at, open_stream, hash_chunk, hash_with, write_stream, write_chunk, end_chunk,
  place, process_chunk,
}
use net_copy.Server.Chunks.Hashing.{IsHashing, SameHash, same_IsHashing, hash_chunk-IsHashing}
use net_copy.Server.Chunks.Opening.{Receiving, Opened, open_stream-Receiving}

module _ (F : FileSystem) (P : IsPosix F) where
  write_stream-Receiving :
      (path : Text) (expected : ℕ) (received payload : List ℕ) (w : World F)
      → Opened F P path expected received w
      → (write_stream F (length received) payload w).0 ≡ ok tt
      → Receiving F P path expected
          (received ++ payload)
          (write_stream F (length received) payload w).1
  write_stream-Receiving path expected received payload w o done =
      let r = o.receiving in
      let run = λ (q : Text). write F q (length payload) (length received) payload w.disk in
      record {
        at = r.at;
        expects = r.expects;
        plain = r.plain;
        begins =
            subst (λ q. BeginsWith (received ++ payload) (F.content path (run q).1)) (sym r.at)
              (write-BeginsWith F P path (length payload) received payload w.disk (omega arith)
                r.begins (ap (λ q. (run q).0) (sym r.at) ∙ done));
        truncated = inl o.kept;
      }

  -- What was received is in the file, and in the hasher if the file is hashed as it comes.
  pub record Wrote (path : Text) (expected : ℕ) (streams : Bool) (received : List ℕ) (w : World F)
      : Type 0 where
    pub receiving : Receiving F P path expected received w
    pub hashing : IsHashing streams received w.handler

  after_open-SameHash :
      (w : World F) (o : Option F.Disk)
      → open_write F w.handler.current_file_path w.handler.current_truncate_on_zero
          w.handler.current_auto_create w.disk
        ≡ o
      → is_open_at w.handler.stream w.handler.current_file_path ≡ false
      → SameHash w.handler (open_stream F w).1.handler
  after_open-SameHash w none e n = rw (n, e) (refl, refl, refl)
  after_open-SameHash w (some d) e n = rw (n, e) (refl, refl, refl)

  open_stream-SameHash : (w : World F) → SameHash w.handler (open_stream F w).1.handler
  open_stream-SameHash w =
      elim (Bool-cases (is_open_at w.handler.stream w.handler.current_file_path)) [
        | inl y ↦ rw y (refl, refl, refl)
        | inr n ↦
            after_open-SameHash w
              (open_write F w.handler.current_file_path w.handler.current_truncate_on_zero
                w.handler.current_auto_create w.disk)
              refl n
      ]

  rehash :
      (path : Text) (expected : ℕ) (received : List ℕ) (h : ConnectionHandler) (d : F.Disk)
      (hasher : Option Sha3Hasher) (next : ℕ) (valid : Bool)
      → Opened F P path expected received (record { handler = h; disk = d })
      → Opened F P path expected received (record {
        handler = record h {
          current_upload_hasher = hasher;
          current_upload_hash_next_offset = next;
          current_upload_hash_valid = valid;
        };
        disk = d;
      })
  rehash path expected received h d hasher next valid o = record {
    receiving = record {
      at = o.receiving.at;
      expects = o.receiving.expects;
      plain = o.receiving.plain;
      begins = o.receiving.begins;
      truncated = o.receiving.truncated;
    };
    kept = o.kept;
  }

  hash_with-Opened :
      (path : Text) (expected : ℕ) (received payload : List ℕ) (offset : ℕ) (w : World F)
      (hasher : Option Sha3Hasher)
      → Opened F P path expected received w
      → Opened F P path expected received
          (record { handler = hash_with hasher offset payload w.handler; disk = w.disk })
  hash_with-Opened path expected received payload offset w none o = o
  hash_with-Opened path expected received payload offset w (some hasher) o =
      let h = w.handler in
      elim (Bool-cases (ltb 0 (length payload))) [
        | inl y ↦
            elim (Bool-cases
              (h.current_upload_hash_valid && offset == h.current_upload_hash_next_offset)) [
                | inl t ↦ rw (y, t) (rehash path expected received h w.disk _ _ _ o)
                | inr f ↦ rw (y, f) (rehash path expected received h w.disk _ _ _ o)
              ]
        | inr n ↦ rw n o
      ]

  write_chunk-Wrote :
      (path : Text) (expected : ℕ) (streams : Bool) (received payload : List ℕ) (w : World F)
      (u : Unit {0})
      → length received + length payload ≤ expected
      → expected < 2 ^ 64
      → Wrote path expected streams received w
      → (write_chunk F (length received) payload w).0 ≡ ok u
      → Wrote path expected streams
          (received ++ payload)
          (write_chunk F (length received) payload w).1
  unfolding write_chunk
  write_chunk-Wrote path expected streams received payload w u room small wrote done =
      let (a, opened_ok, to_hash) = passed (open_stream F w) _ u done in
      let w1 = (open_stream F w).1 in
      let w2 : World F = record {
        handler = hash_chunk (length received) payload w1.handler;
        disk = w1.disk;
      } in
      let (b, written_ok, to_end) =
        passed (write_stream F (length received) payload w2) _ u
          (ap (λ r. r.0) (sym to_hash) ∙ done) in
      let o1 =
        open_stream-Receiving F P path expected received w a (omega arith) wrote.receiving
          opened_ok in
      let o2 =
        hash_with-Opened path expected received payload (length received) w1
          w1.handler.current_upload_hasher o1 in
      let r3 = write_stream-Receiving path expected received payload w2 o2 written_ok in
      let hashed = hash_chunk-IsHashing streams received payload w1.handler (omega arith) (
        same_IsHashing streams received w.handler w1.handler (open_stream-SameHash w)
          wrote.hashing) in
      subst
        (λ (r : Result (Unit {0}) × World F). Wrote path expected streams (received ++ payload) r.1)
        (sym (to_hash ∙ to_end))
        (record {
          receiving = record {
            at = r3.at;
            expects = r3.expects;
            plain = r3.plain;
            begins = r3.begins;
            truncated = r3.truncated;
          };
          hashing =
              same_IsHashing streams (received ++ payload) w2.handler _ (refl, refl, refl) hashed;
        })

module _ (F : FileSystem) (P : IsPosix F) (lz4 : List ℕ → ℕ → Option (List ℕ)) where
  -- The test of the size does not change the state.
  pub end_chunk_ok :
      (offset size : ℕ) (w : World F) (ended : ℕ × ℕ)
      → (end_chunk F offset size w).0 ≡ ok ended
      → (ended ≡ ((offset + size) % 2 ^ 64, size)) × ((end_chunk F offset size w).1 ≡ w)
  end_chunk_ok offset size w ended done =
      elim (Bool-cases (
        ltb 0 w.handler.config.max_file_size
        && ltb w.handler.config.max_file_size ((offset + size) % 2 ^ 64))) [
          | inl y ↦ absurd (let f = rw y at done in cc)
          | inr n ↦ (sym (ok-injective (rw n at done)), rw n refl)
        ]

  -- One chunk that continues what was received.
  pub process_chunk-Wrote :
      (path : Text) (expected : ℕ) (streams : Bool) (received payload : List ℕ) (c : Chunk)
      (w : World F) (ended : ℕ × ℕ)
      → length received + length payload ≤ expected
      → expected < 2 ^ 64
      → payload_of F lz4 c ≡ ok payload
      → c.offset ≡ length received
      → Wrote F P path expected streams received w
      → (process_chunk F lz4 false c w).0 ≡ ok ended
      → Wrote F P path expected streams (received ++ payload) (process_chunk F lz4 false c w).1
        × (ended ≡ (length (received ++ payload), length payload))
  process_chunk-Wrote path expected streams received payload c w ended room small sent at wrote
        done =
      let known : process_chunk F lz4 false c w
          ≡ pass (write_chunk F (length received) payload w)
              (λ u. end_chunk F (length received) (length payload)) =
        unfold process_chunk in (rw (sent, at) (unfold place in rw wrote.receiving.plain refl)) in
      let (u, written_ok, to_end) =
        passed (write_chunk F (length received) payload w) _ ended
          (ap (λ r. r.0) (sym known) ∙ done) in
      let w1 = (write_chunk F (length received) payload w).1 in
      let (counted, same) =
        end_chunk_ok (length received) (length payload) w1 ended
          (ap (λ r. r.0) (sym (known ∙ to_end)) ∙ done) in
      (
        subst (Wrote F P path expected streams (received ++ payload))
            (sym (ap (λ r. r.1) (known ∙ to_end) ∙ same))
            (write_chunk-Wrote F P path expected streams received payload w u room small wrote
              written_ok),
        counted ∙ ap (λ n. (n, length payload)) (omega (arith, length-append received payload)),
      )
