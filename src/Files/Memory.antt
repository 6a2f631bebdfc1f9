-- ===== src/Files/Memory.antt =====
-- A file system in memory, on which the theorems are run: every path is a file, at first empty, and a
-- write takes two bytes at most.
use net_copy.Common.{
  ℕ, zero, suc, ◌+◌, ◌-◌, ◌≡◌, refl, sym, ap, ◌∙◌, List, [], ◌∷◌, ◌++◌, length, length-take,
  length-drop, take, drop, replicate, min, true, false, same_bytes, same_bytes_self, some,
  if◌then◌else◌, arith,
}
use net_copy.Files.Path.{Text}
use net_copy.Files.Disk.{FileSystem, IsPosix, write_at}

abbrev pub Files : Type 0
Files = Text → List ℕ

abbrev put : Text → List ℕ → Files → Files
put p bytes d q = if same_bytes p q then bytes else d q

put_same : (p : Text) (bytes : List ℕ) (d : Files) → put p bytes d p ≡ bytes
put_same p bytes d = rw (same_bytes_self p) refl

abbrev pub memory : FileSystem
memory = record {
  Disk = Files;
  exists = λ p d. true;
  is_directory = λ p d. false;
  is_regular_file = λ p d. true;
  is_symlink = λ p d. false;
  content = λ p d. d p;
  file_size = λ p d. some (length (d p));
  weakly_canonical = λ d p. some p;
  create_directories = λ p d. d;
  remove = λ p d. put p [] d;
  set_permissions = λ p n d. d;
  set_last_write_time = λ p n d. d;
  open_file = λ t p d. some (if t then put p [] d else d);
  pwrite = λ p bytes offset d.
      some
        (min 2 (length bytes), put p (write_at (d p) offset (take (min 2 (length bytes)) bytes)) d);
  resize_file = λ p n d. some (put p (take n (d p ++ replicate (n - length (d p)) 0)) d);
  open_read = λ p d. true;
  pread = λ p n offset d. some (take n (drop offset (d p)));
  create_symlink = λ target p d. some d;
  get_permissions = λ p d. 0;
  last_write_time = λ p d. some 0;
  read_symlink = λ p d. [];
  entries_of = λ r p d. some [];
}

some_same : {A : Type 0} (a b : A) → some a ≡ some b → a ≡ b
some_same a b h = cc

pair_same : {A B : Type 0} (x y : A × B) → some x ≡ some y → (x.0 ≡ y.0) × (x.1 ≡ y.1)
pair_same x y h = let e = some_same x y h in (ap (λ p. p.0) e, ap (λ p. p.1) e)

take_rest : {A : Type 0} (n : ℕ) (xs : List A) → xs ≡ take n xs ++ drop (length (take n xs)) xs
take_rest zero xs = refl
take_rest (suc n) [] = refl
take_rest (suc n) (x ∷ xs) = ap (◌∷◌ x) (take_rest n xs)

plus_zero : (b : ℕ) → 0 + b ≡ b
plus_zero b = omega arith

plus_suc : (a b : ℕ) → suc a + b ≡ suc (a + b)
plus_suc a b = omega arith

drop_none : {A : Type 0} (n : ℕ) → drop {A = A} n [] ≡ []
drop_none zero = refl
drop_none (suc n) = refl

drop-drop : {A : Type 0} (a b : ℕ) (xs : List A) → drop (a + b) xs ≡ drop b (drop a xs)
drop-drop zero b xs = ap (λ n. drop n xs) (plus_zero b)
drop-drop (suc a) b [] = drop_none (suc a + b) ∙ sym (drop_none b)
drop-drop (suc a) b (x ∷ xs) = ap (λ n. drop n (x ∷ xs)) (plus_suc a b) ∙ drop-drop a b xs

pub memory_laws : IsPosix memory
memory_laws = record {
  sized = λ p d n h. sym (some_same _ _ h);
  open_truncated = λ p d e h. ap (λ (f : Files). f p) (sym (some_same _ _ h)) ∙ put_same p [] d;
  open_kept = λ p d e h. ap (λ (f : Files). f p) (sym (some_same _ _ h));
  written = λ p bytes offset n d e h.
      let (count, same) = pair_same _ (n, e) h in
      ap (λ (f : Files). f p) (sym same)
      ∙ put_same p (write_at (d p) offset (take (min 2 (length bytes)) bytes)) d
      ∙ ap (λ k. write_at (d p) offset (take k bytes)) count;
  at_most = λ p bytes offset n d e h. omega (arith, (pair_same _ (n, e) h).0);
  was_read = λ p n offset d bytes h.
      let same = some_same _ _ h in
      rw (← same) (
        take_rest n (drop offset (d p))
        ∙ ap (λ l. take n (drop offset (d p)) ++ l)
            (sym (drop-drop offset (length (take n (drop offset (d p)))) (d p))));
  read_at_most = λ p n offset d bytes h.
      omega
        (arith, length-take n (drop offset (d p)), ap (λ (l : List ℕ). length l) (some_same _ _ h));
  read_some = λ p n offset d h pos. omega (
    arith,
    length-take n (drop offset (d p)),
    length-drop offset (d p),
    ap (λ (l : List ℕ). length l) (some_same _ _ h),
  );
  resized = λ p n d e h.
      ap (λ (f : Files). f p) (sym (some_same _ _ h))
      ∙ put_same p (take n (d p ++ replicate (n - length (d p)) 0)) d;
  absent = λ p d h. cc;
  created = λ p q d. refl;
  permitted = λ p q n d. refl;
  dated = λ p q n d. refl;
}
