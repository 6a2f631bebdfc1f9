-- ===== src/Server/Download/Progress.antt =====
-- What a transfer can do next, and which notification it must not lose for that.
use net_copy.Common.{
  Bool, true, sym, ℕ, zero, suc, ◌+◌, ◌-◌, ◌%◌, ◌^◌, ◌<◌, ◌≤◌, ◌≡◌, ◌⊎◌, refl, ap, ◌∙◌, min, List,
  [], ◌∷◌, length, false, ltb, lt→ltb, ltb→lt, ltb-false→le, ◌&&◌, and_true, Bool-cases, inl, inr,
  if_true, if_false, some, Result, ok, and_then, arith,
}
use net_copy.Protocol.Chunk.{Chunk}
use net_copy.Files.Path.{Text}
use net_copy.Files.Disk.{FileSystem, IsPosix}
use net_copy.Server.Download.{
  Limits, chunk_size, chunk_at, after_read, collect, Transfer, has_room, send_batch, Step, send,
  wait, block, wake, acknowledge, fail, notify, Sender, testing, tested, blocked, woken,
}
use net_copy.Server.Download.Transfers.{Reaches, at_start, then_step, Reaches-Sound, has_room_lem}

abbrev is_tested : Sender → Bool
is_tested testing = false
is_tested tested = true
is_tested blocked = false

module _ (F : FileSystem) (P : IsPosix F) (path : Text) (d : F.Disk) (l : Limits) where
  -- Every read before the end of the file gives some bytes.
  abbrev pub Reads : Type 0
  Reads =
      (offset : ℕ)
      → offset < l.file_size
      → (b : ℕ) × (bs : List ℕ) × (F.pread path (min chunk_size (l.file_size - offset)) offset d
          ≡ some (b ∷ bs))

  after_read_ok :
      (offset b : ℕ) (bs : List ℕ) (more : List ℕ → Result (List Chunk))
      → ((cs : List Chunk) × (more (b ∷ bs) ≡ ok cs))
      → (c : Chunk) × (cs : List Chunk) × (after_read F path d l offset (some (b ∷ bs)) more
          ≡ ok (c ∷ cs))
  after_read_ok offset b bs more (cs, e) =
      let c = chunk_at F path d l offset (b ∷ bs) in
      elim (Bool-cases c.is_last_chunk) [
        | inl y ↦ (c, [], if_true c.is_last_chunk _ _ y)
        | inr n ↦
            (c, cs, if_false c.is_last_chunk _ _ n ∙ ap (λ r. and_then r (λ ds. ok (c ∷ ds))) e)
      ]

  collect_ok :
      (reads : Reads) (count offset batch_bytes : ℕ)
      → (cs : List Chunk) × (collect F path d l count offset batch_bytes ≡ ok cs)
  unfolding collect
  collect_ok reads zero offset batch_bytes = ([], refl)
  collect_ok reads (suc count) offset batch_bytes =
      elim (Bool-cases (ltb offset l.file_size && ltb batch_bytes l.max_batch_bytes)) [
        | inr n ↦ ([], rw n refl)
        | inl y ↦
            let (more, below) =
              and_true (ltb offset l.file_size) (ltb batch_bytes l.max_batch_bytes) y in
            let (b, bs, read) = reads offset (ltb→lt offset l.file_size more) in
            let (c, cs, e) =
              after_read_ok offset b bs
                (λ bytes.
                  collect F path d l count (offset + length bytes) (batch_bytes + length bytes))
                (collect_ok reads count (offset + length (b ∷ bs))
                  (batch_bytes + length (b ∷ bs))) in
            (c ∷ cs, rw (y, read) e)
      ]

  -- A batch that is collected before the end of the file is not empty.
  collect_some :
      (reads : Reads) (count offset : ℕ)
      → 0 < count
      → 0 < l.max_batch_bytes
      → offset < l.file_size
      → (c : Chunk) × (cs : List Chunk) × (collect F path d l count offset 0 ≡ ok (c ∷ cs))
  collect_some reads zero offset pos limit room = absurd (omega arith)
  collect_some reads (suc count) offset pos limit room =
      let (b, bs, read) = reads offset room in
      let (c, cs, e) =
        after_read_ok offset b bs
          (λ bytes. collect F path d l count (offset + length bytes) (0 + length bytes))
          (collect_ok reads count (offset + length (b ∷ bs)) (0 + length (b ∷ bs))) in
      (
        c,
        cs,
        unfold collect in
            (rw (lt→ltb offset l.file_size room, lt→ltb 0 l.max_batch_bytes limit, read) e),
      )

  -- A notification that does not fall between a test that was false and the wait behind it, where `woken`
  -- leaves the thread as it is.
  abbrev pub IsHeard : {t u : Transfer F path d l} → Step F path d l t u → Type 0
  IsHeard (send c cs at more going room collected) = Unit
  IsHeard (wait at more going full) = Unit
  IsHeard (block at) = Unit
  IsHeard (wake at) = Unit
  IsHeard (acknowledge n quiet more going) = Unit
  IsHeard (fail quiet more going) = Unit
  IsHeard {t} (notify told) = is_tested t.sender ≡ false

  -- No notification of a transfer was lost.
  abbrev pub AreHeard :
      {resume : ℕ} {t : Transfer F path d l} → Reaches F P path d l resume t → Type 0
  AreHeard at_start = Unit
  AreHeard (then_step s honest before) = IsHeard s × AreHeard before

  -- A thread that waits, or is about to, without a notification to come, does so for a good reason.
  abbrev Waits : Transfer F path d l → Type 0
  Waits t = t.notifying ≡ false → (t.sender ≡ testing) ⊎ (has_room F path d l t ≡ false)

  not_tested : (s : Sender) → is_tested s ≡ false → woken s ≡ testing
  not_tested testing h = refl
  not_tested tested h = absurd (cc)
  not_tested blocked h = refl

  Step-Waits : (t u : Transfer F path d l) (s : Step F path d l t u) → IsHeard s → Waits t → Waits u
  Step-Waits t u (send c cs at more going room collected) heard before quiet = inl at
  Step-Waits t u (wait at more going full) heard before quiet = inr full
  Step-Waits t u (block at) heard before quiet = elim (before quiet) [
    | inl testing_now ↦
        absurd (let f : is_tested testing ≡ true = ap is_tested (sym testing_now ∙ at) in cc)
    | inr full ↦ inr full
  ]
  Step-Waits t u (wake at) heard before quiet = inl refl
  Step-Waits t u (acknowledge n quiet more going) heard before told = absurd (cc)
  Step-Waits t u (fail quiet more going) heard before told = absurd (cc)
  Step-Waits t u (notify told) heard before quiet = inl (not_tested t.sender heard)

  Reaches-Waits :
      (resume : ℕ) (t : Transfer F path d l) (reached : Reaches F P path d l resume t)
      → AreHeard reached
      → Waits t
  Reaches-Waits resume t at_start heard = λ quiet. inl refl
  Reaches-Waits resume u (then_step {t = t} s honest before) (heard, more) =
      Step-Waits t u s heard (Reaches-Waits resume t before more)

  -- Nothing in flight leaves room.
  free_room :
      (t : Transfer F path d l)
      → 0 < l.max_window_bytes
      → t.acknowledged ≡ t.offset
      → t.offset < 2 ^ 64
      → has_room F path d l t ≡ true
  free_room t window e small =
      lt→ltb ((t.offset + 2 ^ 64 - t.acknowledged) % 2 ^ 64) l.max_window_bytes
        (omega (arith, has_room_lem F P path d l t (omega (arith, e)) small))

  -- If reads give bytes and the limits are positive, take a transfer that starts at an offset within a
  -- file of a size below 2^64, with a client that acknowledges what it was sent, and never less than
  -- before, and in which no notification came between a test of the wait that was false and the wait
  -- itself. While it has not failed and not all is acknowledged, one of these can happen next: the
  -- sending thread is notified; the client acknowledges bytes that were sent and are not acknowledged
  -- yet; or a batch is sent.
  pub transfer_progress :
      (reads : Reads) (resume : ℕ) (t : Transfer F path d l)
      → resume ≤ l.file_size
      → l.file_size < 2 ^ 64
      → 0 < l.max_window_bytes
      → 0 < l.max_batch_bytes
      → 0 < l.max_batch_chunks
      → (reached : Reaches F P path d l resume t) → AreHeard reached
      → t.failed ≡ false
      → t.acknowledged < l.file_size
      → (t.notifying ≡ true)
        ⊎ ((t.acknowledged < t.offset)
            × Step F path d l t (record t { acknowledged = t.offset; notifying = true }))
        ⊎ ((c : Chunk) × (cs : List Chunk) × Step F path d l t (send_batch F path d l (c ∷ cs) t))
  transfer_progress reads resume t room small window batch chunks reached heard going more =
      let s = Reaches-Sound F P path d l resume t room small reached in
      elim (Bool-cases t.notifying) [
        | inl told ↦ inl told
        | inr quiet ↦ elim (Bool-cases (ltb t.acknowledged t.offset)) [
          | inl flying ↦
              inr
                (inl (ltb→lt t.acknowledged t.offset flying, acknowledge t.offset quiet more going))
          | inr landed ↦
              let e : t.acknowledged ≡ t.offset =
                omega (arith, s.behind, ltb-false→le t.acknowledged t.offset landed) in
              let free = free_room t window e (omega (arith, s.within)) in
              let left : t.offset < l.file_size = omega (arith, e, more) in
              let (c, cs, collected) =
                collect_some reads l.max_batch_chunks t.offset chunks batch left in
              elim (Reaches-Waits resume t reached heard quiet) [
                | inl at ↦ inr (inr (c, cs, send c cs at left going free collected))
                | inr full ↦ absurd (cc)
              ]
        ]
      ]
