-- ===== src/Server/Download/Delivery.antt =====
-- What a batch holds, and what the messages of a transfer hold together.
use net_copy.Common.{
  ℕ, zero, suc, ◌+◌, ◌-◌, ◌<◌, ◌≤◌, ◌≡◌, refl, sym, ◌∙◌, subst, min, List, [], ◌∷◌, ◌++◌, length,
  drop, false, ltb, leb, ltb→lt, ◌&&◌, and_true, Bool-cases, inl, inr, if_true, if_false, Option,
  none, some, Result, ok, and_then_ok, ok-injective, arith,
}
use net_copy.Protocol.Chunk.{Chunk}
use net_copy.Files.Path.{Text}
use net_copy.Files.Disk.{FileSystem, IsPosix}
use net_copy.Server.Download.{Limits, chunk_size, chunk_at, after_read, collect, payload_size}

module _ (F : FileSystem) (P : IsPosix F) (path : Text) (d : F.Disk) (l : Limits) where
  -- A chunk as it is sent from an offset on: uncompressed, with the bytes of the file there, and marked
  -- exactly where it reaches the end of the file.
  pub record IsPiece (offset : ℕ) (c : Chunk) : Type 0 where
    pub at : c.offset ≡ offset
    pub plain : c.compressed ≡ false
    pub last : c.is_last_chunk ≡ leb l.file_size (offset + length c.data_bytes)
    pub bytes :
        drop offset (F.content path d)
        ≡ c.data_bytes ++ drop (offset + length c.data_bytes) (F.content path d)

  -- Chunks that hold the bytes of the file between two offsets, in order and without a gap.
  abbrev pub Covers : ℕ → List Chunk → ℕ → Type 0
  Covers offset [] end = offset ≡ end
  Covers offset (c ∷ cs) end = IsPiece offset c × Covers (offset + length c.data_bytes) cs end

  -- What a batch that was collected is.
  pub record IsBatch (count offset batch_bytes : ℕ) (cs : List Chunk) : Type 0 where
    pub covers : Covers offset cs (offset + payload_size F path d l cs)
    pub within : offset + payload_size F path d l cs ≤ l.file_size
    pub limited : batch_bytes + payload_size F path d l cs < l.max_batch_bytes + chunk_size
    pub counted : length cs ≤ count

  empty_IsBatch :
      (count offset batch_bytes : ℕ)
      → offset ≤ l.file_size
      → batch_bytes < l.max_batch_bytes + chunk_size
      → IsBatch count offset batch_bytes []
  empty_IsBatch count offset batch_bytes h b = record {
    covers = omega arith;
    within = omega arith;
    limited = omega arith;
    counted = omega arith;
  }

  -- A chunk and the batch behind it.
  piece_IsBatch :
      (count offset batch_bytes b : ℕ) (bs : List ℕ) (cs : List Chunk)
      → F.pread path (min chunk_size (l.file_size - offset)) offset d ≡ some (b ∷ bs)
      → offset < l.file_size
      → IsBatch count (offset + length (b ∷ bs)) (batch_bytes + length (b ∷ bs)) cs
      → IsBatch (suc count) offset batch_bytes (chunk_at F path d l offset (b ∷ bs) ∷ cs)
  piece_IsBatch count offset batch_bytes b bs cs read room r = record {
    covers = (
      record {
        at = refl;
        plain = refl;
        last = refl;
        bytes = P.was_read path (min chunk_size (l.file_size - offset)) offset d (b ∷ bs) read;
      },
      subst (Covers (offset + length (b ∷ bs)) cs) (omega arith) r.covers,
    );
    within = omega (arith, r.within);
    limited = omega (arith, r.limited);
    counted = omega (arith, r.counted);
  }

  after_read-IsBatch :
      (count offset batch_bytes : ℕ) (o : Option (List ℕ)) (more : List ℕ → Result (List Chunk))
      (cs : List Chunk)
      → F.pread path (min chunk_size (l.file_size - offset)) offset d ≡ o
      → offset < l.file_size
      → batch_bytes < l.max_batch_bytes
      → ((bytes : List ℕ) (ds : List Chunk)
          → offset + length bytes ≤ l.file_size
          → batch_bytes + length bytes < l.max_batch_bytes + chunk_size
          → more bytes ≡ ok ds
          → IsBatch count (offset + length bytes) (batch_bytes + length bytes) ds)
      → after_read F path d l offset o more ≡ ok cs
      → IsBatch (suc count) offset batch_bytes cs
  after_read-IsBatch count offset batch_bytes none more cs read room limit ih h = cc
  after_read-IsBatch count offset batch_bytes (some []) more cs read room limit ih h =
      subst (IsBatch (suc count) offset batch_bytes) (ok-injective h)
        (empty_IsBatch (suc count) offset batch_bytes (omega arith) (omega arith))
  after_read-IsBatch count offset batch_bytes (some (b ∷ bs)) more cs read room limit ih h =
      let short =
        P.read_at_most path (min chunk_size (l.file_size - offset)) offset d (b ∷ bs) read in
      let c = chunk_at F path d l offset (b ∷ bs) in
      elim (Bool-cases c.is_last_chunk) [
        | inl y ↦
            subst (IsBatch (suc count) offset batch_bytes)
              (ok-injective (sym (if_true c.is_last_chunk _ _ y) ∙ h))
              (piece_IsBatch count offset batch_bytes b bs [] read room (
                empty_IsBatch count (offset + length (b ∷ bs)) (batch_bytes + length (b ∷ bs))
                  (omega arith) (omega arith)))
        | inr n ↦
            let (ds, rest, same) =
              and_then_ok (more (b ∷ bs)) (λ ds. ok (c ∷ ds)) cs
                (sym (if_false c.is_last_chunk _ _ n) ∙ h) in
            subst (IsBatch (suc count) offset batch_bytes) (ok-injective same) (
              piece_IsBatch count offset batch_bytes b bs ds read room
                (ih (b ∷ bs) ds (omega arith) (omega arith) rest))
      ]

  pub collect-IsBatch :
      (count offset batch_bytes : ℕ) (cs : List Chunk)
      → offset ≤ l.file_size
      → batch_bytes < l.max_batch_bytes + chunk_size
      → collect F path d l count offset batch_bytes ≡ ok cs
      → IsBatch count offset batch_bytes cs
  collect-IsBatch zero offset batch_bytes cs room limit h =
      let same : [] ≡ cs = unfold collect in (ok-injective h) in
      subst (IsBatch zero offset batch_bytes) same
        (empty_IsBatch zero offset batch_bytes room limit)
  collect-IsBatch (suc count) offset batch_bytes cs room limit h =
      elim (Bool-cases (ltb offset l.file_size && ltb batch_bytes l.max_batch_bytes)) [
        | inl y ↦
            let (more, below) =
              and_true (ltb offset l.file_size) (ltb batch_bytes l.max_batch_bytes) y in
            after_read-IsBatch count offset batch_bytes
              (F.pread path (min chunk_size (l.file_size - offset)) offset d)
              (λ bytes.
                collect F path d l count (offset + length bytes) (batch_bytes + length bytes))
              cs refl (ltb→lt offset l.file_size more) (ltb→lt batch_bytes l.max_batch_bytes below)
              (λ bytes ds r b.
                collect-IsBatch count (offset + length bytes) (batch_bytes + length bytes) ds r b)
              (unfold collect in (rw y at h))
        | inr n ↦
            let same : [] ≡ cs = unfold collect in (ok-injective (rw n at h)) in
            subst (IsBatch (suc count) offset batch_bytes) same
              (empty_IsBatch (suc count) offset batch_bytes room limit)
      ]
