-- ===== src/Server/Upload/Complete.antt =====
-- What an acknowledged message leaves, and the end of a file.
use net_copy.Common.{
  ℕ, zero, suc, ◌-◌, ◌^◌, ◌≤◌, ◌<◌, ◌≡◌, refl, sym, ap, ◌∙◌, subst, List, [], ◌∷◌, length, take,
  replicate, Bool, true, false, ltb, ltb-false→le, ltb→lt, eq→eqb, Bool-cases, inl, inr,
  if◌then◌else◌, Option, some, Result, ok, throw, NetCopyException, arith,
}
use net_copy.Crypto.Sha3.{sha3_256}
use net_copy.Crypto.Sha3.Streaming.{finalize-update_all}
use net_copy.Protocol.FileData.{FileData}
use net_copy.Protocol.FileAck.{FileAck}
use net_copy.Files.Path.{Text}
use net_copy.Files.Disk.{FileSystem, IsPosix}
use net_copy.Files.Disk.Laws.{BeginsWith, take-take_append}
use net_copy.Server.State.{is_empty, KnownHash, ConnectionHandler, World}
use net_copy.Server.Chunks.{is_marker_file}
use net_copy.Server.Chunks.Hashing.{Hashed, IsHashing}
use net_copy.Server.Chunks.Content.{Wrote}
use net_copy.Server.Upload.{
  Progress, receive_chunks, shrink, is_plain, permit, date, streamed_hash, finish, complete,
  after_chunks, handle_file_data,
}
use net_copy.Server.Upload.Content.{any_last, sent_chunks, Continues, receive_chunks-Wrote}

take_all : {A : Type 0} (n : ℕ) (xs : List A) → length xs ≤ n → take n xs ≡ xs
take_all zero [] h = refl
take_all zero (x ∷ xs) h = absurd (omega arith)
take_all (suc n) [] h = refl
take_all (suc n) (x ∷ xs) h = ap (◌∷◌ x) (take_all n xs (omega arith))

-- The file, if it is there, has a size and can be resized.
abbrev pub CanResize : (F : FileSystem) → Text → ℕ → F.Disk → Type 0
CanResize F path size d =
    F.exists path d ≡ true
    → ((n : ℕ) × (F.file_size path d ≡ some n))
      × ((e : F.Disk) × (F.resize_file path size d ≡ some e))

-- The hash that is kept of a file that was hashed as it came.
abbrev pub known_hash : Text → List ℕ → KnownHash
known_hash path total = record { hash = sha3_256 total; path = path; valid = true }

module _ (F : FileSystem) (P : IsPosix F) where
  -- A file that begins with all of the data is cut to just the data.
  shrink_exact :
      (total : List ℕ) (h : ConnectionHandler) (d : F.Disk)
      → CanResize F h.current_file_path h.current_expected_file_size d
      → h.current_expected_file_size ≡ length total
      → BeginsWith total (F.content h.current_file_path d)
      → (e : F.Disk) × (shrink F h d ≡ some e) × (F.content h.current_file_path e ≡ total)
  shrink_exact total h d can_resize expects begins =
      let path = h.current_file_path in
      let content = F.content path d in
      let expected = h.current_expected_file_size in
      let kept = λ (short : length content ≤ length total).
        sym (take_all (length total) content short) ∙ begins in
      elim (Bool-cases (F.exists path d)) [
        | inr missing ↦ (
          d,
          rw missing refl,
          kept (omega (arith, ap (λ (l : List ℕ). length l) (P.absent path d missing))),
        )
        | inl found ↦
            let ((n, has_size), (e, resized)) = can_resize found in
            let size = P.sized path d n has_size in
            elim (Bool-cases (ltb expected n)) [
              | inr fits ↦ (
                d,
                rw (found, has_size, fits) refl,
                kept (omega (arith, size, ltb-false→le expected n fits)),
              )
              | inl longer ↦ (
                e,
                rw (found, has_size, longer, resized) refl,
                P.resized path expected d e resized
                    ∙ take-take_append expected content (replicate (expected - length content) 0)
                        (omega (arith, size, ltb→lt expected n longer))
                    ∙ ap (λ k. take k content) expects
                    ∙ begins,
              )
            ]
      ]

  after_date :
      (path : Text) (h : ConnectionHandler) (d : F.Disk)
      → F.content path (date F h (permit F h d)) ≡ F.content path d
  after_date path h d = ground (
    arith,
    P.permitted path h.current_file_path h.current_permissions d,
    P.dated path h.current_file_path h.current_expected_last_modified (permit F h d),
  )

  streamed_hash_lem :
      (path : Text) (total : List ℕ) (h : ConnectionHandler)
      → is_plain h ≡ true
      → h.current_file_path ≡ path
      → h.current_expected_file_size ≡ length total
      → Hashed total h
      → streamed_hash h h.current_upload_hasher ≡ known_hash path total
  streamed_hash_lem path total h plain at expects k =
      ap (streamed_hash h) k.hasher
      ∙ rw
          (
            k.valid,
            eq→eqb h.current_upload_hash_next_offset h.current_expected_file_size
                (k.next ∙ sym expects),
            plain,
          )
          (rw (finalize-update_all k.parts, k.taken, at) refl)

  complete_lem :
      (path : Text) (total : List ℕ) (streams : Bool) (w : World F)
      → is_marker_file path ≡ false
      → CanResize F path (length total) w.disk
      → Wrote F P path (length total) streams total w
      → (F.content path (complete F w).disk ≡ total)
        × (streams ≡ true → (complete F w).handler.last_received_file_hash ≡ known_hash path total)
  complete_lem path total streams w plain can_resize wrote =
      let r = wrote.receiving in
      let h = w.handler in
      let marker = ap is_marker_file r.at ∙ plain in
      let plain_file : is_plain h ≡ true = rw (r.plain, marker) refl in
      let (e, shrunk, exact) =
        shrink_exact total h w.disk (rw (r.at, r.expects) can_resize) r.expects
          (subst (λ q. BeginsWith total (F.content q w.disk)) (sym r.at) r.begins) in
      let known : complete F w ≡ finish F w (some e) =
        ap (λ b. finish F w (if b then shrink F h w.disk else some w.disk)) plain_file
        ∙ ap (finish F w) shrunk in
      (
        ap (λ (x : World F). F.content path x.disk) known
            ∙ after_date path h e
            ∙ ap (λ q. F.content q e) (sym r.at)
            ∙ exact,
        λ s.
            ap (λ (x : World F). x.handler.last_received_file_hash) known
            ∙ streamed_hash_lem path total h plain_file r.at r.expects
                (subst (λ b. IsHashing b total h) s wrote.hashing),
      )

-- A message that was acknowledged as a success.
acknowledged :
    (F : FileSystem) (what : NetCopyException → List ℕ) (unset : ℕ) (r : Result Progress × World F)
    → (after_chunks F what unset r).0.success ≡ true
    → (q : Progress) × (r.0 ≡ ok q)
      × (after_chunks F what unset r ≡ (
        record { bytes_received = q.max_bytes_received; success = true; error_message = [] },
        if q.completes then complete F r.1 else r.1,
      ))
acknowledged F what unset (ok q, w) h = (q, refl, refl)
acknowledged F what unset (throw e, w) h = cc

module _ (F : FileSystem) (P : IsPosix F) (what : NetCopyException → List ℕ) (unset : ℕ)
    (lz4 : List ℕ → ℕ → Option (List ℕ)) (path : Text) (given : is_empty path ≡ false)
    (plain : is_marker_file path ≡ false) (expected : ℕ) (small : expected < 2 ^ 64)
    (streams : Bool) where
  -- A message in the middle of the data.
  pub handle_file_data-Wrote :
      (received total : List ℕ) (m : FileData) (w : World F)
      → Continues F lz4 received (sent_chunks m) total
      → any_last (sent_chunks m) ≡ false
      → length total ≤ expected
      → Wrote F P path expected streams received w
      → (handle_file_data F what unset lz4 m w).0.success ≡ true
      → Wrote F P path expected streams total (handle_file_data F what unset lz4 m w).1
        × ((handle_file_data F what unset lz4 m w).0.bytes_received ≡ length total)
  unfolding handle_file_data
  handle_file_data-Wrote received total m w continues middle room wrote done =
      let (q, received_ok, whole) = acknowledged F what unset (receive_chunks F lz4 m w) done in
      let (wrote', largest, last) =
        receive_chunks-Wrote F P what unset lz4 path expected streams received total m q w given
          plain continues room small wrote received_ok in
      (
        subst (λ (x : FileAck × World F). Wrote F P path expected streams total x.1) (sym whole)
            (rw (last ∙ middle) wrote'),
        ap (λ (x : FileAck × World F). x.0.bytes_received) whole ∙ largest,
      )

  -- The last message of the data.
  pub handle_file_data_completes :
      (received total : List ℕ) (m : FileData) (w : World F)
      → CanResize F path (length total) (receive_chunks F lz4 m w).1.disk
      → Continues F lz4 received (sent_chunks m) total
      → any_last (sent_chunks m) ≡ true
      → length total ≡ expected
      → Wrote F P path expected streams received w
      → (handle_file_data F what unset lz4 m w).0.success ≡ true
      → let after = handle_file_data F what unset lz4 m w in
        (after.0.bytes_received ≡ length total)
        × (F.content path after.1.disk ≡ total)
        × (streams ≡ true → after.1.handler.last_received_file_hash ≡ known_hash path total)
  unfolding handle_file_data
  handle_file_data_completes received total m w can_resize continues at_end exact wrote done =
      let (q, received_ok, whole) = acknowledged F what unset (receive_chunks F lz4 m w) done in
      let (wrote', largest, last) =
        receive_chunks-Wrote F P what unset lz4 path expected streams received total m q w given
          plain continues (omega arith) small wrote received_ok in
      let v = (receive_chunks F lz4 m w).1 in
      let end : handle_file_data F what unset lz4 m w ≡ (
        record { bytes_received = q.max_bytes_received; success = true; error_message = [] },
        complete F v,
      ) =
        whole ∙ (rw (last ∙ at_end) refl) in
      let (content, hash) =
        complete_lem F P path total streams v plain can_resize
          (subst (λ n. Wrote F P path n streams total v) (sym exact) wrote') in
      (
        ap (λ (x : FileAck × World F). x.0.bytes_received) end ∙ largest,
        ap (λ (x : FileAck × World F). F.content path x.1.disk) end ∙ content,
        λ s. ap (λ (x : FileAck × World F). x.1.handler.last_received_file_hash) end ∙ hash s,
      )
