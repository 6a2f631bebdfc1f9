-- ===== src/Protocol/FileData/RoundTrip.antt =====
-- What `serialize_payload` of FileData sends, `deserialize_payload` reads.
use net_copy.Common.{
  ℕ, zero, suc, Result, ok-injective, ◌%◌, ◌^◌, ◌≡◌, refl, List, [], ◌∷◌, ◌++◌, map, length, All,
  ok, throw, arith, subst, protocol_exception, append-nil, inl, inr, Bool-cases, ◌==◌,
}
use native.Mathlib.Nat.{mod-eq_of_lt}
use net_copy.Protocol.Reader.{
  Reads, Yields, ◌>>=◌, return, seq, seq_last, seq-Yields, return-Yields, concat,
}
use net_copy.Common.{IsByte}
use net_copy.Protocol.Wire.{IsU32, write_uint32}
use net_copy.Protocol.Wire.Laws.{uint32-Reads}
use net_copy.Protocol.Wire.Ranges.{uint32-Yields, Anything}
use net_copy.Protocol.Wire.Sequence.{write_list, read_list, list-Reads-map, list-Yields}
use net_copy.Protocol.Chunk
use net_copy.Protocol.Chunk.{Chunk}
use net_copy.Protocol.FileData.{
  FileData, file_data_magic, size_or_length, write_chunk_payload, single, or_single,
  serialize_payload, of_chunks, read_chunks, check_magic, read_payload, at_end, deserialize_payload,
}

-- A chunk with its size filled in.
abbrev pub filled : Chunk → Chunk
filled c = record c { uncompressed_size = size_or_length c.uncompressed_size c.data_bytes }

-- The message as its receiver sees it: a batch that is not empty, each size filled in.
abbrev canonical_of : Chunk → List Chunk → FileData
canonical_of c [] = of_chunks (filled c) []
canonical_of c (d ∷ ds) = of_chunks (filled d) (map filled ds)

abbrev pub canonical : FileData → FileData
canonical m = canonical_of (single m) m.chunks

-- Every field is in the range of its C++ type.
pub record IsValid (m : FileData) : Type 0 where
  pub count : IsU32 (length m.chunks)
  pub chunks : All Chunk.IsValid m.chunks
  pub own : Chunk.IsValid (single m)

filled-IsValid : (c : Chunk) → Chunk.IsValid c → Chunk.IsValid (filled c)
filled-IsValid c v = record {
  offset = v.offset;
  uncompressed_size = ground arith;
  data_bytes = v.data_bytes;
}

chunk-Reads :
    (c : Chunk) → Chunk.IsValid c → Reads Chunk.read_payload (write_chunk_payload c) (filled c)
unfolding write_chunk_payload Chunk.serialize_payload
chunk-Reads c v = Chunk.payload-Reads (filled c) (filled-IsValid c v)

magic-Reads : Reads (check_magic file_data_magic) [] tt
unfolding check_magic
magic-Reads = record { apply = λ rest. refl }

-- A batch that is sent as `c ∷ cs` is read as it was filled in.
batch-Reads :
    (c : Chunk) (cs : List Chunk)
    → Chunk.IsValid c
    → All Chunk.IsValid cs
    → Reads
        (read_chunks (length (c ∷ cs)))
        (write_list write_chunk_payload (c ∷ cs))
        (of_chunks (filled c) (map filled cs))
unfolding read_chunks write_list
batch-Reads c cs hc hcs = record {
  apply =
      (seq (λ c. read_list (length cs) Chunk.read_payload >>= λ cs. return (of_chunks c cs))
        (chunk-Reads c hc)
        (seq_last (of_chunks (filled c))
          (list-Reads-map Chunk.IsValid _ write_chunk_payload filled chunk-Reads cs hcs))).apply;
}

sent-Reads :
    (c : Chunk) (cs : List Chunk)
    → IsU32 (length (c ∷ cs))
    → Chunk.IsValid c
    → All Chunk.IsValid cs
    → Reads read_payload
        (concat (
          write_uint32 file_data_magic
          ∷ write_uint32 (length (c ∷ cs) % 2 ^ 32)
          ∷ write_list write_chunk_payload (c ∷ cs)
          ∷ []))
        (of_chunks (filled c) (map filled cs))
unfolding read_payload
sent-Reads c cs h hc hcs = rw (mod-eq_of_lt h) (
    seq _ (uint32-Reads _ (omega arith))
      (seq _ magic-Reads (seq _ (uint32-Reads _ h) (rw append-nil (batch-Reads c cs hc hcs)))))

payload-Reads_cases :
    (m : FileData) (cs : List Chunk)
    → IsU32 (length cs)
    → All Chunk.IsValid cs
    → Chunk.IsValid (single m)
    → let sent = or_single (single m) cs in
      Reads read_payload
        (concat (
          write_uint32 file_data_magic
          ∷ write_uint32 (length sent % 2 ^ 32)
          ∷ write_list write_chunk_payload sent
          ∷ []))
        (canonical_of (single m) cs)
payload-Reads_cases m [] h hcs hm = sent-Reads (single m) [] (omega arith) hm tt
payload-Reads_cases m (d ∷ ds) h hcs hm = sent-Reads d ds h hcs.0 hcs.1

pub payload-Reads :
    (m : FileData) → IsValid m → Reads read_payload (serialize_payload m) (canonical m)
unfolding serialize_payload
payload-Reads m v = payload-Reads_cases m m.chunks v.count v.chunks v.own

-- What was sent is read, and nothing may follow it.
pub deserialize-serialize :
    (m : FileData) → IsValid m → deserialize_payload (serialize_payload m) ≡ ok (canonical m)
unfolding deserialize_payload
deserialize-serialize m v =
    rw (← append-nil (serialize_payload m), (payload-Reads m v).apply [], deserialize_payload)

-- File data whose fields are in range is refused if any byte follows it in the payload.
pub deserialize_trailing :
    (m : FileData) (b : ℕ) (rest : List ℕ)
    → IsValid m
    → deserialize_payload (serialize_payload m ++ (b ∷ rest))
      ≡ throw (protocol_exception "Trailing bytes in file data payload")
unfolding deserialize_payload
deserialize_trailing m b rest v = rw ((payload-Reads m v).apply (b ∷ rest), deserialize_payload)

check_magic-Yields : (magic : ℕ) → Yields Anything (check_magic magic)
unfolding check_magic
check_magic-Yields magic = record {
  apply = λ bs a rest h e. elim (Bool-cases (magic == file_data_magic)) [
    | inl t ↦ (return-Yields Anything tt tt).apply bs a rest h (unfold return in rw t at e)
    | inr t ↦ absurd (cc (rw t at e))
  ];
}

read_chunks-Yields : (n : ℕ) → IsU32 n → Yields IsValid (read_chunks n)
unfolding read_chunks
read_chunks-Yields zero hn = record { apply = λ bs a rest h e. absurd (cc) }
read_chunks-Yields (suc n) hn = record { apply = (chunks).apply }
  where
    chunks : Yields IsValid (
        Chunk.read_payload >>= λ c.
        read_list n Chunk.read_payload >>= λ cs. return (of_chunks c cs))
    chunks = seq-Yields Chunk.IsValid Chunk.payload-Yields λ c hc.
        seq-Yields _ (list-Yields Chunk.IsValid _ Chunk.payload-Yields n) λ cs hcs.
          return-Yields IsValid (of_chunks c cs)
            (record { count = rw hcs.1 hn; chunks = (hc, hcs.0); own = hc })

payload-Yields : Yields IsValid read_payload
unfolding read_payload
payload-Yields = seq-Yields IsU32 uint32-Yields λ magic h0.
    seq-Yields Anything (check_magic-Yields magic)
      λ u h1. seq-Yields IsU32 uint32-Yields λ n h2. read_chunks-Yields n h2

-- A message that was read is in range.
pub deserialize-IsValid :
    (bytes : List ℕ) (m : FileData)
    → All IsByte bytes
    → deserialize_payload bytes ≡ ok m
    → IsValid m
unfolding deserialize_payload
deserialize-IsValid bytes m h e = go (read_payload bytes) refl e
  where
    go :
        (r : Result (FileData × List ℕ))
        → read_payload bytes ≡ r
        → (elim r [ ok (m, rest) ↦ at_end m rest | throw e ↦ throw e ]) ≡ ok m
        → IsValid m
    go (ok (m', [])) p q = subst IsValid (ok-injective q) (payload-Yields.apply bytes m' [] h p).0
    go (ok (m', b ∷ rest)) p q = cc
    go (throw x) p q = cc
