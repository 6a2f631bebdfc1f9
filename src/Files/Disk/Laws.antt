-- ===== src/Files/Disk/Laws.antt =====
-- What opening, writing and preallocating do to the bytes of the file.
use net_copy.Common.{
  ℕ, zero, suc, ◌+◌, ◌-◌, ◌≤◌, ◌<◌, ◌≡◌, refl, sym, ap, ◌∙◌, List, [], ◌∷◌, ◌++◌, append_assoc,
  append-nil, length, length-append, length-take, take, drop, length-drop, subst, replicate,
  take-append-drop, take-length_append, Bool, true, false, Bool-cases, eqb-false→ne, ◌==◌, ◌⊎◌,
  Option, none, some, inl, inr, ok, if◌then◌else◌, arith,
}
use net_copy.Files.Path.{Text}
use net_copy.Files.Names.{get_directory}
use net_copy.Files.Disk.{
  FileSystem, IsPosix, write_at, ensure_directory, open_write, write, or_unchanged,
  preallocate_file,
}

-- The file begins with these bytes.
abbrev pub BeginsWith : List ℕ → List ℕ → Type 0
BeginsWith bytes content = take (length bytes) content ≡ bytes

pub take-take_append :
    {A : Type 0} (n : ℕ) (xs ys : List A) → n ≤ length xs → take n (xs ++ ys) ≡ take n xs
take-take_append zero xs ys h = refl
take-take_append (suc n) [] ys h = absurd (omega arith)
take-take_append (suc n) (x ∷ xs) ys h = ap (◌∷◌ x) (take-take_append n xs ys (omega arith))

pub begins_length :
    (bytes content : List ℕ) → BeginsWith bytes content → length bytes ≤ length content
begins_length bytes content h =
    omega (arith, length-take (length bytes) content, ap (λ (l : List ℕ). length l) h)

-- A write behind what was received.
pub begins-write_at :
    (received bytes content : List ℕ)
    → BeginsWith received content
    → BeginsWith (received ++ bytes) (write_at content (length received) bytes)
unfolding write_at
begins-write_at received bytes content h =
    let enough = begins_length received content h in
    let cut =
      take-take_append (length received) content (replicate (length received - length content) 0)
        enough
      ∙ h in
    let more = drop (length received + length bytes) content in
    rw (cut, ← append_assoc received bytes more) (take-length_append (received ++ bytes) more)

head_tail : {A : Type 0} (x y : A) (xs ys : List A) → x ∷ xs ≡ y ∷ ys → (x ≡ y) × (xs ≡ ys)
head_tail x y xs ys h = (cc, cc)

pub begins_take :
    (received content : List ℕ) (n : ℕ)
    → length received ≤ n
    → BeginsWith received content
    → BeginsWith received (take n content)
begins_take [] content n l h = refl
begins_take (r ∷ rs) [] n l h = cc
begins_take (r ∷ rs) (c ∷ cs) zero l h = absurd (omega arith)
begins_take (r ∷ rs) (c ∷ cs) (suc n) l h =
    let inj = head_tail c r (take (length rs) cs) rs h in
    rw (inj.0) (ap (◌∷◌ r) (begins_take rs cs n (omega arith) inj.1))

subst2 :
    {A B : Type 0} (R : A → B → Type 0) {a a' : A} {b b' : B} → a ≡ a' → b ≡ b' → R a b → R a' b'
subst2 R {a} {a'} {b} {b'} p q h = subst (λ x. R x b') p (subst (R a) q h)

pub Option-cases : {A : Type 0} (o : Option A) → (o ≡ none) ⊎ ((a : A) × (o ≡ some a))
Option-cases none = inl refl
Option-cases (some a) = inr (a, refl)

module _ (F : FileSystem) (P : IsPosix F) where
  -- One call and what follows it.
  write_round :
      (path : Text) (fuel n : ℕ) (received : List ℕ) (b : ℕ) (bs : List ℕ) (d e : F.Disk)
      → F.pwrite path (b ∷ bs) (length received) d ≡ some (n, e)
      → (write F path (suc fuel) (length received) (b ∷ bs) d).0 ≡ ok tt
      → (0 < n)
        × ((write F path fuel (length received + n) (drop n (b ∷ bs)) e).0 ≡ ok tt)
        × ((write F path (suc fuel) (length received) (b ∷ bs) d).1
            ≡ (write F path fuel (length received + n) (drop n (b ∷ bs)) e).1)
  unfolding write
  write_round path fuel n received b bs d e step h = elim (Bool-cases (n == 0)) [
    | inl y ↦ absurd (let f = rw (step, y) at h in cc)
    | inr some_bytes ↦
        let f = rw (step, some_bytes) at h in
        (omega (arith, eqb-false→ne n 0 some_bytes), f, rw (step, some_bytes) refl)
  ]

  -- A write behind what was received, however short the calls of the system write, puts all of the
  -- bytes there if it reports no error.
  pub write-BeginsWith :
      (path : Text) (fuel : ℕ) (received bytes : List ℕ) (d : F.Disk)
      → length bytes ≤ fuel
      → BeginsWith received (F.content path d)
      → (write F path fuel (length received) bytes d).0 ≡ ok tt
      → BeginsWith
          (received ++ bytes)
          (F.content path (write F path fuel (length received) bytes d).1)
  write-BeginsWith path fuel received [] d l h done = unfold write in rw (append-nil received) h
  write-BeginsWith path zero received (b ∷ bs) d l h done = absurd (omega arith)
  write-BeginsWith path (suc fuel) received (b ∷ bs) d l h done =
      elim (Option-cases (F.pwrite path (b ∷ bs) (length received) d)) [
        | inl failed ↦ absurd (unfold write in let f = rw failed at done in cc)
        | inr ((n, e), step) ↦
            let (pos, done', same) = write_round path fuel n received b bs d e step done in
            let count = P.at_most path (b ∷ bs) (length received) n d e step in
            let part = take n (b ∷ bs) in
            let part_length = length-take n (b ∷ bs) in
            let now : BeginsWith (received ++ part) (F.content path e) =
              rw (P.written path (b ∷ bs) (length received) n d e step)
                (begins-write_at received part (F.content path d) h) in
            let offset : length (received ++ part) ≡ length received + n =
              omega (arith, length-append received part) in
            let end = λ (o : ℕ). write F path fuel o (drop n (b ∷ bs)) e in
            let rest : BeginsWith ((received ++ part) ++ drop n (b ∷ bs))
                (F.content path (end (length (received ++ part))).1) =
              write-BeginsWith path fuel (received ++ part) (drop n (b ∷ bs)) e
                (omega (arith, length-drop n (b ∷ bs))) now (ap (λ o. (end o).0) offset ∙ done') in
            let whole : (received ++ part) ++ drop n (b ∷ bs) ≡ received ++ (b ∷ bs) =
              append_assoc received part (drop n (b ∷ bs))
              ∙ ap (λ l. received ++ l) (take-append-drop n (b ∷ bs)) in
            let disk = ap (λ o. (end o).1) offset ∙ sym same in
            subst2 BeginsWith whole (ap (F.content path) disk) rest
      ]

  ensured :
      (path directory : Text) (d : F.Disk)
      → F.content path (ensure_directory F directory d) ≡ F.content path d
  ensured path directory d = ground (arith, P.created path directory d)

  prepared :
      (path : Text) (auto_create : Bool) (d : F.Disk)
      → F.content path (if auto_create then ensure_directory F (get_directory path) d else d)
        ≡ F.content path d
  prepared path true d = ensured path (get_directory path) d
  prepared path false d = refl

  -- Opening without truncation keeps what was received.
  pub open_write-BeginsWith :
      (path : Text) (truncate auto_create : Bool) (received : List ℕ) (d e : F.Disk)
      → (truncate ≡ true → received ≡ [])
      → BeginsWith received (F.content path d)
      → open_write F path truncate auto_create d ≡ some e
      → BeginsWith received (F.content path e)
  unfolding open_write
  open_write-BeginsWith path true auto_create received d e h begins opened = rw (h refl) refl
  open_write-BeginsWith path false auto_create received d e h begins opened =
      rw (P.open_kept path _ e opened, prepared path auto_create d) begins

  -- So does a change of the size to one that is at least what was received.
  pub resized_BeginsWith :
      (path : Text) (size : ℕ) (received : List ℕ) (d : F.Disk) (o : Option F.Disk)
      → F.resize_file path size d ≡ o
      → length received ≤ size
      → BeginsWith received (F.content path d)
      → BeginsWith received (F.content path (or_unchanged F d o))
  resized_BeginsWith path size received d none step l h = h
  resized_BeginsWith path size received d (some e) step l h =
      let content = F.content path d in
      let enough = begins_length received content h in
      rw (P.resized path size d e step) (
        begins_take received (content ++ replicate (size - length content) 0) size l (
          take-take_append (length received) content (replicate (size - length content) 0) enough
          ∙ h))

  -- Preallocation keeps what was received, if the size is at least that.
  pub preallocate_file-BeginsWith :
      (path : Text) (size : ℕ) (auto_create : Bool) (received : List ℕ) (d : F.Disk)
      → length received ≤ size
      → BeginsWith received (F.content path d)
      → BeginsWith received (F.content path (preallocate_file F path size auto_create d))
  unfolding preallocate_file
  preallocate_file-BeginsWith path size auto_create received d l h =
      let made = if auto_create then ensure_directory F (get_directory path) d else d in
      resized_BeginsWith path size received made (F.resize_file path size made) refl l
        (rw (prepared path auto_create d) h)
