-- ===== src/Server/Confined/Downloads.antt =====
-- The answer to a download request leaves the file of an upload as it is.
use net_copy.Common.{
  ℕ, ◌≡◌, refl, sym, ap, List, ◌||◌, Bool-cases, inl, inr, if◌then◌else◌, Result, ok, throw,
  ok-injective,
}
use net_copy.Protocol.DownloadRequest.{DownloadRequest}
use net_copy.Protocol.DownloadResponse.{DownloadResponse}
use net_copy.Files.Path.{Text, convert_to_native_path, normalize_path}
use net_copy.Files.Safe.{is_path_allowed}
use net_copy.Files.Disk.{FileSystem}
use net_copy.Server.State.{size_or_throw, World}
use net_copy.Server.Queries.{last_write_time}
use net_copy.Server.Download.Answer.{describe, download_answer}
use net_copy.Server.Confined.{target_of}

module _ (F : FileSystem) (denied not_found : Text → List ℕ) (id client_ip : List ℕ) where
  answered_same :
      (s r : DownloadResponse) (w v : World F)
      → ◌≡◌ {A = Result (DownloadResponse × World F)} (ok (s, w)) (ok (r, v))
      → target_of v.handler ≡ target_of w.handler
  answered_same s r w v h =
      sym (ap (λ (x : DownloadResponse × World F). target_of x.1.handler) (ok-injective h))

  describe_same :
      (request : DownloadRequest) (path : Text) (w v : World F) (r : DownloadResponse)
      (size time : Result ℕ)
      → (if F.is_symlink path w.disk || F.is_directory path w.disk
          then ok 0
          else size_or_throw F (F.file_size path w.disk))
        ≡ size
      → (if F.is_directory path w.disk || F.is_symlink path w.disk
          then ok 0
          else last_write_time F path w.disk)
        ≡ time
      → describe F denied not_found id client_ip request path w ≡ ok (r, v)
      → target_of v.handler ≡ target_of w.handler
  unfolding describe
  describe_same request path w v r (ok n) (ok t) s e h =
      let f = rw (s, e) at h in
      sym (ap (λ (x : DownloadResponse × World F). target_of x.1.handler) (ok-injective f))
  describe_same request path w v r (throw x) time s e h = absurd (let f = rw s at h in cc)
  describe_same request path w v r (ok n) (throw x) s e h = absurd (let f = rw (s, e) at h in cc)

  pub download_answer_same :
      (request : DownloadRequest) (w v : World F) (r : DownloadResponse)
      → download_answer F denied not_found id client_ip request w ≡ ok (r, v)
      → target_of v.handler ≡ target_of w.handler
  unfolding download_answer
  download_answer_same request w v r h =
      let resolved = normalize_path (convert_to_native_path request.remote_path) in
      elim (Bool-cases (
        is_path_allowed (F.weakly_canonical w.disk) w.handler.config.allowed_paths
          request.remote_path)) [
            | inr n ↦ answered_same _ r w v (rw n at h)
            | inl a ↦ elim (Bool-cases (F.exists resolved w.disk)) [
              | inr n ↦ answered_same _ r w v (rw (a, n) at h)
              | inl y ↦ describe_same request resolved w v r _ _ refl refl (rw (a, y) at h)
            ]
          ]
