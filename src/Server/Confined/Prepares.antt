-- ===== src/Server/Confined/Prepares.antt =====
-- `prepare_file` leaves which file it is, its size, its kind, the stream and what was hashed.
use net_copy.Common.{
  ℕ, refl, List, Bool, true, false, not, ◌&&◌, if◌then◌else◌, Option, some, file_exception,
}
use net_copy.Crypto.Sha3.{Sha3Hasher}
use net_copy.Protocol.FileRequest.{FileRequest}
use net_copy.Files.Path.{Text}
use net_copy.Files.Disk.{FileSystem, open_write}
use net_copy.Server.Run.{return}
use net_copy.Server.State.{ConnectionHandler, create_session, size_of}
use net_copy.Server.Request.{truncate_file, made_directory, prepare_file}
use net_copy.Server.Confined.{
  Target, target_of, Keeps, keeps, then-Keeps, if-Keeps, or_raise-Keeps, set_disk-Keeps,
  set_handler-Keeps, current-Keeps, return-Keeps,
}

-- What `prepare_file` keeps.
pub record Prepared : Type 0 where
  pub target : Target
  pub expected_size : ℕ
  pub is_symlink : Bool
  pub stream : Option Text
  pub hasher : Option Sha3Hasher
  pub next_offset : ℕ
  pub hash_valid : Bool

abbrev pub prepared_of : ConnectionHandler → Prepared
prepared_of h = record {
  target = target_of h;
  expected_size = h.current_expected_file_size;
  is_symlink = h.current_is_symlink;
  stream = h.stream;
  hasher = h.current_upload_hasher;
  next_offset = h.current_upload_hash_next_offset;
  hash_valid = h.current_upload_hash_valid;
}

module _ (F : FileSystem) where
  truncate_file-Keeps : (path : Text) → Keeps F prepared_of (truncate_file F path)
  truncate_file-Keeps path = then-Keeps F prepared_of _ _ (current-Keeps F prepared_of) (λ w.
      then-Keeps F prepared_of _ _
        (or_raise-Keeps F prepared_of
          (file_exception "Failed to truncate destination file for writing: ")
          (λ v. open_write F path true w.handler.current_auto_create w.disk))
        (λ opened.
          set_handler-Keeps F prepared_of (λ h. record h { current_truncate_on_zero = false })
            (λ h. refl)))

  size_of_plain-Keeps :
      (path : Text) (b : Bool) → Keeps F prepared_of (if b then size_of F path else return 0)
  size_of_plain-Keeps path b =
      if-Keeps F prepared_of b _ _ (keeps (λ w. refl)) (return-Keeps F prepared_of 0)

  pub prepare_file-Keeps :
      (id client_ip : List ℕ) (request : FileRequest) (path : Text)
      → Keeps F prepared_of (prepare_file F id client_ip request path)
  unfolding prepare_file
  prepare_file-Keeps id client_ip request path =
      then-Keeps F prepared_of _ _ (current-Keeps F prepared_of) (λ w.
        then-Keeps F prepared_of _ _ (set_disk-Keeps F prepared_of (λ d. made_directory F path w))
          (λ made.
            then-Keeps F prepared_of _ _
              (if-Keeps F prepared_of
                (w.handler.current_truncate_on_zero && not w.handler.current_is_symlink) _ _
                (truncate_file-Keeps path) (return-Keeps F prepared_of tt))
              (λ emptied. then-Keeps F prepared_of _ _ (current-Keeps F prepared_of) (λ v.
                then-Keeps F prepared_of _ _
                  (size_of_plain-Keeps path (
                    not v.handler.current_is_symlink
                    && (F.exists path v.disk && F.is_regular_file path v.disk)))
                  (λ size.
                    then-Keeps F prepared_of _ _
                      (set_handler-Keeps F prepared_of
                        (λ h. record h {
                          current_session = some (
                              create_session id request.source_path request.destination_path
                                h.authenticated_user client_ip request.file_size);
                        })
                        (λ h. refl))
                      (λ created. return-Keeps F prepared_of size))))))
