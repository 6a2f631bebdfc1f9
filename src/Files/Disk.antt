-- ===== src/Files/Disk.antt =====
-- The file system that src/file/file_manager.cpp calls, as an interface, and `FileStream::write`.
pub mod Laws
use net_copy.Common.{
  ℕ, zero, suc, ◌+◌, ◌-◌, ◌≤◌, ◌<◌, ◌≡◌, List, [], ◌∷◌, ◌++◌, length, take, drop, replicate, Bool,
  true, false, not, ◌==◌, ◌&&◌, Option, none, some, Result, ok, throw, file_exception,
  if◌then◌else◌,
}
use net_copy.Files.Path.{Text, NormalPath}
use net_copy.Files.Names.{get_directory}

-- The calls of a POSIX system. A descriptor is written as the path that it was opened with. Whether a file
-- exists and of what kind it is the system answers without an error.
pub record FileSystem : Type 1 where
  pub Disk : Type 0
  pub exists : Text → Disk → Bool
  pub is_directory : Text → Disk → Bool
  pub is_regular_file : Text → Disk → Bool
  pub is_symlink : Text → Disk → Bool
  -- The bytes of a regular file, none if there is no such file.
  pub content : Text → Disk → List ℕ
  -- The size of a file, or an error, as for a directory.
  pub file_size : Text → Disk → Option ℕ
  pub weakly_canonical : Disk → NormalPath → Option NormalPath
  -- Errors of these are ignored by the code, with the disk as the call left it.
  pub create_directories : Text → Disk → Disk
  pub remove : Text → Disk → Disk
  pub set_permissions : Text → ℕ → Disk → Disk
  pub set_last_write_time : Text → ℕ → Disk → Disk
  -- No disk stands for an error.
  pub open_file : Bool → Text → Disk → Option Disk
  pub pwrite : Text → List ℕ → ℕ → Disk → Option (ℕ × Disk)
  pub resize_file : Text → ℕ → Disk → Option Disk
  -- At most as many bytes as asked for, from an offset on.
  pub open_read : Text → Disk → Bool
  pub pread : Text → ℕ → ℕ → Disk → Option (List ℕ)
  pub create_symlink : Text → Text → Disk → Option Disk
  pub get_permissions : Text → Disk → ℕ
  pub last_write_time : Text → Disk → Option ℕ
  pub read_symlink : Text → Disk → Text
  -- The paths of a directory's entries, or of all below it.
  pub entries_of : Bool → Text → Disk → Option (List Text)

-- What a write at an offset makes of the bytes of a file: a gap is filled with zeros.
unfoldable pub write_at : List ℕ → ℕ → List ℕ → List ℕ
write_at content offset bytes =
    take offset (content ++ replicate (offset - length content) 0)
    ++ (bytes ++ drop (offset + length bytes) content)

-- What POSIX promises of the calls for one file.
pub record IsPosix (F : FileSystem) : Type 0 where
  pub open_truncated :
      (p : Text) (d e : F.Disk) → F.open_file true p d ≡ some e → F.content p e ≡ []
  pub open_kept :
      (p : Text) (d e : F.Disk) → F.open_file false p d ≡ some e → F.content p e ≡ F.content p d
  pub written :
      (p : Text) (bytes : List ℕ) (offset n : ℕ) (d e : F.Disk)
      → F.pwrite p bytes offset d ≡ some (n, e)
      → F.content p e ≡ write_at (F.content p d) offset (take n bytes)
  pub at_most :
      (p : Text) (bytes : List ℕ) (offset n : ℕ) (d e : F.Disk)
      → F.pwrite p bytes offset d ≡ some (n, e)
      → n ≤ length bytes
  pub was_read :
      (p : Text) (n offset : ℕ) (d : F.Disk) (bytes : List ℕ)
      → F.pread p n offset d ≡ some bytes
      → drop offset (F.content p d) ≡ bytes ++ drop (offset + length bytes) (F.content p d)
  pub read_at_most :
      (p : Text) (n offset : ℕ) (d : F.Disk) (bytes : List ℕ)
      → F.pread p n offset d ≡ some bytes
      → length bytes ≤ n
  pub read_some :
      (p : Text) (n offset : ℕ) (d : F.Disk)
      → F.pread p n offset d ≡ some []
      → 0 < n
      → length (F.content p d) ≤ offset
  pub resized :
      (p : Text) (n : ℕ) (d e : F.Disk)
      → F.resize_file p n d ≡ some e
      → F.content p e ≡ take n (F.content p d ++ replicate (n - length (F.content p d)) 0)
  pub sized :
      (p : Text) (d : F.Disk) (n : ℕ) → F.file_size p d ≡ some n → n ≡ length (F.content p d)
  pub absent : (p : Text) (d : F.Disk) → F.exists p d ≡ false → F.content p d ≡ []
  pub created : (p q : Text) (d : F.Disk) → F.content p (F.create_directories q d) ≡ F.content p d
  pub permitted :
      (p q : Text) (n : ℕ) (d : F.Disk) → F.content p (F.set_permissions q n d) ≡ F.content p d
  pub dated :
      (p q : Text) (n : ℕ) (d : F.Disk) → F.content p (F.set_last_write_time q n d) ≡ F.content p d

abbrev is_empty : Text → Bool
is_empty [] = true
is_empty (c ∷ cs) = false

module _ (F : FileSystem) where
  -- `if (!dir.empty() && !exists(dir)) create_directories(dir)`
  abbrev pub ensure_directory : Text → F.Disk → F.Disk
  ensure_directory directory d =
      if not (is_empty directory) && not (F.exists directory d)
      then F.create_directories directory d
      else d

  -- `FileStream::open_write`
  unfoldable pub open_write : Text → Bool → Bool → F.Disk → Option F.Disk
  open_write path truncate_on_zero auto_create d =
      F.open_file truncate_on_zero path
        (if auto_create then ensure_directory (get_directory path) d else d)

  -- What a round of `FileStream::write` does with the result of `pwrite`.
  abbrev pub after_pwrite :
      F.Disk
      → Option (ℕ × F.Disk)
      → (ℕ × F.Disk → Result (Unit {0}) × F.Disk)
      → Result (Unit {0}) × F.Disk
  after_pwrite d none more = (throw (file_exception "FileStream write failed: "), d)
  after_pwrite d (some r) more =
      if r.0 == 0
      then (throw (file_exception "FileStream write made no progress: "), r.1)
      else more r

  -- The loop of `FileStream::write`, of `bytes` that are left. Each round that goes on writes a byte,
  -- so a fuel of their number is enough. The disk stays as the last call left it.
  unfoldable pub write : Text → ℕ → ℕ → List ℕ → F.Disk → Result (Unit {0}) × F.Disk
  write path fuel offset [] d = (ok tt, d)
  write path zero offset (b ∷ bs) d = (ok tt, d)
  write path (suc fuel) offset (b ∷ bs) d =
      after_pwrite d (F.pwrite path (b ∷ bs) offset d)
        (λ r. write path fuel (offset + r.0) (drop r.0 (b ∷ bs)) r.1)

  -- An error leaves the disk as it is.
  abbrev pub or_unchanged : F.Disk → Option F.Disk → F.Disk
  or_unchanged d none = d
  or_unchanged d (some e) = e

  -- `FileManager::preallocate_file`, whose errors are only logged.
  unfoldable pub preallocate_file : Text → ℕ → Bool → F.Disk → F.Disk
  preallocate_file path size auto_create d =
      let made = if auto_create then ensure_directory (get_directory path) d else d in
      or_unchanged made (F.resize_file path size made)

  -- The file that stands for a symbolic link that could not be made; errors of its write are ignored.
  abbrev pub placeholder : Text → Text → Option F.Disk → Option F.Disk
  placeholder target path none = none
  placeholder target path (some e) = some (write path (length target) 0 target e).1

  abbrev pub or_placeholder : Text → Text → F.Disk → Option F.Disk → Option F.Disk
  or_placeholder target path d (some e) = some e
  or_placeholder target path d none = placeholder target path (F.open_file true path d)

  -- `FileManager::create_symlink`
  unfoldable pub create_symlink : Text → Text → F.Disk → Option F.Disk
  create_symlink target path d = or_placeholder target path d (F.create_symlink target path d)
