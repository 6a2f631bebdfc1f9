-- ===== src/Server/Download/Transfers.antt =====
-- What holds at every moment of a transfer, in whatever order the two threads run.
use net_copy.Common.{
  ℕ, ◌+◌, ◌-◌, ◌%◌, ◌^◌, ◌<◌, ◌≤◌, ◌≡◌, refl, sym, ap, ◌∙◌, subst, List, [], ◌∷◌, ◌++◌,
  append_assoc, append-nil, length, drop, drop-length, true, false, ltb→lt, ok, arith,
}
use net_copy.Protocol.Chunk.{Chunk}
use net_copy.Protocol.FileData.{FileData, single, or_single}
use net_copy.Files.Path.{Text}
use net_copy.Files.Disk.{FileSystem, IsPosix}
use net_copy.Server.Download.{
  Limits, chunk_size, collect, batch_message, payload_size, Transfer, has_room, send_batch, Step,
  send, wait, block, wake, acknowledge, fail, notify, testing,
}
use net_copy.Server.Download.Delivery.{Covers, collect-IsBatch}

-- The chunks of all the messages.
abbrev pub all_chunks : List FileData → List Chunk
all_chunks [] = []
all_chunks (m ∷ ms) = or_single (single m) m.chunks ++ all_chunks ms

-- The bytes of the chunks.
abbrev pub joined_data : List Chunk → List ℕ
joined_data [] = []
joined_data (c ∷ cs) = c.data_bytes ++ joined_data cs

all_chunks-append :
    (ms : List FileData) (m : FileData)
    → all_chunks (ms ++ (m ∷ [])) ≡ all_chunks ms ++ or_single (single m) m.chunks
all_chunks-append [] m = append-nil (or_single (single m) m.chunks)
all_chunks-append (n ∷ ms) m =
    ap (λ l. or_single (single n) n.chunks ++ l) (all_chunks-append ms m)
    ∙ sym (
        append_assoc (or_single (single n) n.chunks) (all_chunks ms)
          (or_single (single m) m.chunks))

module _ (F : FileSystem) (P : IsPosix F) (path : Text) (d : F.Disk) (l : Limits) where
  sent_batch :
      (c : Chunk) (cs : List Chunk)
      → let m = batch_message F path d l (c ∷ cs) in or_single (single m) m.chunks ≡ c ∷ cs
  sent_batch c [] = refl
  sent_batch c (e ∷ es) = refl

  Covers-append :
      (xs ys : List Chunk) (a b c : ℕ)
      → Covers F P path d l a xs b
      → Covers F P path d l b ys c
      → Covers F P path d l a (xs ++ ys) c
  Covers-append [] ys a b c h g = subst (λ n. Covers F P path d l n ys c) (sym h) g
  Covers-append (x ∷ xs) ys a b c (h, hs) g =
      (h, Covers-append xs ys (a + length x.data_bytes) b c hs g)

  Covers-bytes :
      (cs : List Chunk) (a b : ℕ)
      → Covers F P path d l a cs b
      → joined_data cs ++ drop b (F.content path d) ≡ drop a (F.content path d)
  Covers-bytes [] a b h = ap (λ n. drop n (F.content path d)) (sym h)
  Covers-bytes (c ∷ cs) a b (h, hs) =
      append_assoc c.data_bytes (joined_data cs) (drop b (F.content path d))
      ∙ ap (λ r. c.data_bytes ++ r) (Covers-bytes cs (a + length c.data_bytes) b hs)
      ∙ sym h.bytes

  -- A client acknowledges what it was sent, and never less than before.
  abbrev pub IsHonest : {t u : Transfer F path d l} → Step F path d l t u → Type 0
  IsHonest (send c cs at more going room collected) = Unit
  IsHonest (wait at more going full) = Unit
  IsHonest (block at) = Unit
  IsHonest (wake at) = Unit
  IsHonest {t} (acknowledge n quiet more going) = (t.acknowledged ≤ n) × (n ≤ t.offset)
  IsHonest (fail quiet more going) = Unit
  IsHonest (notify told) = Unit

  abbrev pub start : ℕ → Transfer F path d l
  start resume = record {
    offset = resume;
    acknowledged = resume;
    failed = false;
    sent = [];
    sender = testing;
    notifying = false;
  }

  -- The moments of a transfer with such a client.
  pub data Reaches (resume : ℕ) : Transfer F path d l → Type 0 where
    at_start : Reaches resume (start resume)
    then_step :
        {t u : Transfer F path d l} (s : Step F path d l t u)
        → IsHonest s
        → Reaches resume t
        → Reaches resume u

  pub record Sound (resume : ℕ) (t : Transfer F path d l) : Type 0 where
    pub covered : Covers F P path d l resume (all_chunks t.sent) t.offset
    pub within : t.offset ≤ l.file_size
    pub behind : t.acknowledged ≤ t.offset
    pub in_flight :
        t.offset < t.acknowledged + (l.max_window_bytes + (l.max_batch_bytes + chunk_size))

  -- The wait ends when fewer bytes than the window are in flight.
  pub has_room_lem :
      (t : Transfer F path d l)
      → t.acknowledged ≤ t.offset
      → t.offset < 2 ^ 64
      → (t.offset + 2 ^ 64 - t.acknowledged) % 2 ^ 64 ≡ t.offset - t.acknowledged
  has_room_lem t behind small = omega arith

  send-Sound :
      (resume : ℕ) (t : Transfer F path d l) (c : Chunk) (cs : List Chunk)
      → l.file_size < 2 ^ 64
      → has_room F path d l t ≡ true
      → collect F path d l l.max_batch_chunks t.offset 0 ≡ ok (c ∷ cs)
      → Sound resume t
      → Sound resume (send_batch F path d l (c ∷ cs) t)
  send-Sound resume t c cs small room collected s =
      let b =
        collect-IsBatch F P path d l l.max_batch_chunks t.offset 0 (c ∷ cs) s.within (omega arith)
          collected in
      let free = ltb→lt ((t.offset + 2 ^ 64 - t.acknowledged) % 2 ^ 64) l.max_window_bytes room in
      let same = has_room_lem t s.behind (omega (arith, s.within)) in
      record {
        covered =
            subst
              (λ l'. Covers F P path d l resume l' (t.offset + payload_size F path d l (c ∷ cs)))
              (sym (
                all_chunks-append t.sent (batch_message F path d l (c ∷ cs))
                ∙ ap (λ l'. all_chunks t.sent ++ l') (sent_batch c cs)))
              (Covers-append (all_chunks t.sent) (c ∷ cs) resume t.offset _ s.covered b.covers);
        within = b.within;
        behind = omega (arith, s.behind);
        in_flight = omega (arith, b.limited, s.behind, same, free);
      }

  -- Where the threads stand does not matter.
  same_Sound :
      (resume : ℕ) (t u : Transfer F path d l)
      → u.sent ≡ t.sent
      → u.offset ≡ t.offset
      → u.acknowledged ≡ t.acknowledged
      → Sound resume t
      → Sound resume u
  same_Sound resume t u sent offset acknowledged s = record {
    covered = rw (sent, offset) s.covered;
    within = omega (arith, offset, s.within);
    behind = omega (arith, offset, acknowledged, s.behind);
    in_flight = omega (arith, offset, acknowledged, s.in_flight);
  }

  Step-Sound :
      (resume : ℕ) (small : l.file_size < 2 ^ 64) (t u : Transfer F path d l)
      (s : Step F path d l t u)
      → IsHonest s
      → Sound resume t
      → Sound resume u
  Step-Sound resume small t u (send c cs at more going free collected) honest before =
      send-Sound resume t c cs small free collected before
  Step-Sound resume small t u (wait at more going full) honest before =
      same_Sound resume t u refl refl refl before
  Step-Sound resume small t u (block at) honest before = same_Sound resume t u refl refl refl before
  Step-Sound resume small t u (wake at) honest before = same_Sound resume t u refl refl refl before
  Step-Sound resume small t u (acknowledge n quiet more going) (up, sent) before = record {
    covered = before.covered;
    within = before.within;
    behind = sent;
    in_flight = omega (arith, before.in_flight);
  }
  Step-Sound resume small t u (fail quiet more going) honest before =
      same_Sound resume t u refl refl refl before
  Step-Sound resume small t u (notify told) honest before =
      same_Sound resume t u refl refl refl before

  pub Reaches-Sound :
      (resume : ℕ) (t : Transfer F path d l)
      → resume ≤ l.file_size
      → l.file_size < 2 ^ 64
      → Reaches resume t
      → Sound resume t
  Reaches-Sound resume t room small at_start = record {
    covered = refl;
    within = room;
    behind = omega arith;
    in_flight = omega arith;
  }
  Reaches-Sound resume u room small (then_step {t = t} s honest before) =
      Step-Sound resume small t u s honest (Reaches-Sound resume t room small before)

  -- With a client that acknowledges what it was sent, and never less than before, at every moment of a
  -- transfer that starts at an offset within a file of a size below 2^64, in whatever order the two
  -- threads run: the messages sent so far hold, in order and without a gap, the bytes of the file from
  -- where the transfer starts up to the offset, so all the rest of the file once the offset is its size;
  -- and what is in flight is less than the window, a batch and a chunk together.
  pub transfer-Sound :
      (resume : ℕ) (t : Transfer F path d l)
      → l.file_size ≡ length (F.content path d)
      → resume ≤ l.file_size
      → l.file_size < 2 ^ 64
      → Reaches resume t
      → (joined_data (all_chunks t.sent) ++ drop t.offset (F.content path d)
          ≡ drop resume (F.content path d))
        × (t.offset ≡ l.file_size
            → joined_data (all_chunks t.sent) ≡ drop resume (F.content path d))
        × (t.acknowledged ≤ t.offset)
        × (t.offset < t.acknowledged + (l.max_window_bytes + (l.max_batch_bytes + chunk_size)))
  transfer-Sound resume t size room small reached =
      let s = Reaches-Sound resume t room small reached in
      let content = F.content path d in
      let sent = joined_data (all_chunks t.sent) in
      let bytes = Covers-bytes (all_chunks t.sent) resume t.offset s.covered in
      (
        bytes,
        λ all.
            sym (append-nil sent)
            ∙ ap (λ r. sent ++ r)
                (sym (ap (λ n. drop n content) (all ∙ size) ∙ drop-length content))
            ∙ bytes,
        s.behind,
        s.in_flight,
      )
