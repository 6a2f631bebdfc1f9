-- ===== src/Files/Hashing/Laws.antt =====
-- What is read is the content of the file.
use net_copy.Common.{
  String, ℕ, zero, suc, ◌+◌, ◌*◌, ◌<◌, ◌≤◌, ◌≡◌, refl, sym, ap, ◌∙◌, List, [], ◌∷◌, ◌++◌, length,
  drop, Bool-cases, inl, inr, Option, none, some, Result, ok, and_then_ok, ok-injective, arith,
}
use net_copy.Files.Path.{Text}
use net_copy.Files.Disk.{FileSystem, IsPosix}
use net_copy.Files.Hashing.{Piece, joined, after_read, read_from, read_file, compute_file_hash}

drop_short : {A : Type 0} (n : ℕ) (xs : List A) → length xs ≤ n → drop n xs ≡ []
drop_short zero [] h = refl
drop_short zero (x ∷ xs) h = absurd (omega arith)
drop_short (suc n) [] h = refl
drop_short (suc n) (x ∷ xs) h = drop_short n xs (omega arith)

module _ (F : FileSystem) (P : IsPosix F) (path : Text) (size : ℕ) (pos : 0 < size)
    (d : F.Disk) where
  -- One round, where what follows reads the rest.
  after_read-all :
      (offset : ℕ) (o : Option (List ℕ)) (more : List ℕ → Result (List Piece)) (pieces : List Piece)
      → F.pread path size offset d ≡ o
      → ((bytes : List ℕ) (ps : List Piece)
          → 0 < length bytes
          → more bytes ≡ ok ps
          → joined ps ≡ drop (offset + length bytes) (F.content path d))
      → after_read F path size d offset o more ≡ ok pieces
      → joined pieces ≡ drop offset (F.content path d)
  after_read-all offset none more pieces e ih h = cc
  after_read-all offset (some []) more pieces e ih h =
      ap joined (sym (ok-injective h))
      ∙ sym (drop_short offset (F.content path d) (P.read_some path size offset d e pos))
  after_read-all offset (some (b ∷ bs)) more pieces e ih h =
      let (ps, read, same) =
        and_then_ok (more (b ∷ bs)) (λ ps. ok ((offset, b ∷ bs) ∷ ps)) pieces h in
      ap joined (sym (ok-injective same))
      ∙ ap (λ l. (b ∷ bs) ++ l) (ih (b ∷ bs) ps (omega arith) read)
      ∙ sym (P.was_read path size offset d (b ∷ bs) e)

  read_from-all :
      (fuel offset : ℕ) (pieces : List Piece)
      → length (F.content path d) < fuel + offset
      → read_from F path size d fuel offset ≡ ok pieces
      → joined pieces ≡ drop offset (F.content path d)
  read_from-all zero offset pieces enough h =
      let same : [] ≡ pieces = unfold read_from in (ok-injective h) in
      ap joined (sym same) ∙ sym (drop_short offset (F.content path d) (omega arith))
  read_from-all (suc fuel) offset pieces enough h =
      after_read-all offset (F.pread path size offset d)
        (λ bytes. read_from F path size d fuel (offset + length bytes)) pieces refl
        (λ bytes ps some_bytes. read_from-all fuel (offset + length bytes) ps (omega arith))
        (unfold read_from in h)

module _ (F : FileSystem) (P : IsPosix F) where
  read_file-all :
      (missing unopened : String) (path : Text) (size : ℕ) (pos : 0 < size) (d : F.Disk)
      (pieces : List Piece)
      → read_file F missing unopened path size d ≡ ok pieces
      → joined pieces ≡ F.content path d
  unfolding read_file
  read_file-all missing unopened path size pos d pieces h = elim (Bool-cases (F.exists path d)) [
    | inr n ↦ absurd (let f = rw n at h in cc)
    | inl y ↦ elim (Bool-cases (F.is_regular_file path d)) [
      | inr n ↦ absurd (let f = rw (y, n) at h in cc)
      | inl r ↦ elim (Bool-cases (F.open_read path d)) [
        | inr n ↦ absurd (let f = rw (y, r, n) at h in cc)
        | inl o ↦
            read_from-all F P path size pos d (suc (length (F.content path d))) 0 pieces
              (omega arith) (rw (y, r, o) at h)
      ]
    ]
  ]

module _ (F : FileSystem) (P : IsPosix F) (xxhash64 : List ℕ → List ℕ) where
  -- The hash of a file is that of its content.
  pub compute_file_hash-content :
      (path : Text) (d : F.Disk) (hash : List ℕ)
      → compute_file_hash F xxhash64 path d ≡ ok hash
      → hash ≡ xxhash64 (F.content path d)
  unfolding compute_file_hash read_file
  compute_file_hash-content path d hash h =
      let (pieces, read, same) =
        and_then_ok
          (read_file F "File does not exist for hashing: " "Failed to open file for hashing: " path
            (256 * 1024) d)
          (λ pieces. ok (xxhash64 (joined pieces))) hash h in
      sym (ok-injective same)
      ∙ ap xxhash64 (read_file-all F P _ _ path (256 * 1024) (omega arith) d pieces read)
