-- ===== src/Server/Confined/Reached.antt =====
-- The file that a connection writes to, over all the messages that it receives.
use net_copy.Common.{
  ℕ, ◌≡◌, ◌⊎◌, refl, ap, ◌∙◌, List, [], true, false, none, inl, inr, Option, Result, ok, throw,
  NetCopyException,
}
use net_copy.Protocol.FileRequest.{FileRequest}
use net_copy.Protocol.FileData.{FileData}
use net_copy.Protocol.FileVerifyRequest.{FileVerifyRequest}
use net_copy.Protocol.BlockHashesRequest.{BlockHashesRequest}
use net_copy.Files.Path.{Text, convert_to_native_path, normalize_path}
use net_copy.Files.Disk.{FileSystem}
use net_copy.Server.State.{ConnectionHandler, World, KnownHash, Session}
use net_copy.Server.Request.{
  is_granted, in_directory, choose_file, prepare_file, after_choice, after_prepare,
  handle_file_request,
}
use net_copy.Server.Confined.Prepares.{Prepared, prepared_of, prepare_file-Keeps}
use net_copy.Server.Request.Accepted.{choose_file_cases}
use net_copy.Server.Upload.{handle_file_data}
use net_copy.Server.Verify.{handle_file_verify_request, handle_block_hashes_request}
use net_copy.Protocol.DownloadRequest.{DownloadRequest}
use net_copy.Protocol.DownloadResponse.{DownloadResponse}
use net_copy.Server.Download.Answer.{download_answer}
use net_copy.Server.Confined.Downloads.{download_answer_same}
use net_copy.Server.Confined.{Target, target_of, same}
use net_copy.Server.Confined.Writes.{Kept, handle_file_data_same}
use net_copy.Server.Confined.Grants.{
  handle_file_verify_request_same, handle_block_hashes_request_same,
}

module _ (F : FileSystem) (xxhash64 : List ℕ → List ℕ) (what : NetCopyException → List ℕ)
    (unset : ℕ) (lz4 : List ℕ → ℕ → Option (List ℕ)) (mismatch : List ℕ) where
  -- A message that is handled, of those that change the state, the end of a download, or another program
  -- that changes the disk.
  pub data Step : World F → World F → Type 0 where
    file_request :
        {w : World F} (id client_ip : List ℕ) (request : FileRequest)
        → Step w (handle_file_request F what unset id client_ip request w).1
    file_data : {w : World F} (m : FileData) → Step w (handle_file_data F what unset lz4 m w).1
    file_verify_request :
        {w : World F} (request : FileVerifyRequest)
        → Step w (handle_file_verify_request F xxhash64 what mismatch request w).1
    block_hashes_request :
        {w : World F} (request : BlockHashesRequest)
        → Step w (handle_block_hashes_request F xxhash64 what request w).1
    download_request :
        {w v : World F} (denied not_found : Text → List ℕ) (id client_ip : List ℕ)
        (request : DownloadRequest) (answer : DownloadResponse)
        → download_answer F denied not_found id client_ip request w ≡ ok (answer, v)
        → Step w v
    download_sent :
        {w : World F} (k : KnownHash) (s : Option Session)
        → Step w (record {
          handler = record w.handler { last_sent_file_hash = k; current_session = s };
          disk = w.disk;
        })
    elsewhere : {w : World F} (d : F.Disk) → Step w (record w { disk = d })

  pub data Reaches (start : World F) : World F → Type 0 where
    at_start : Reaches start start
    then_step : {v w : World F} → Step v w → Reaches start v → Reaches start w

  -- An earlier request of the connection, with the state in which it came. Both tests of its destination
  -- passed in that state, and the file that is written to is the one that was found from it then.
  pub record Grant (start w : World F) : Type 0 where
    pub before : World F
    pub earlier : Reaches start before
    pub id : List ℕ
    pub client_ip : List ℕ
    pub request : FileRequest
    pub later : Reaches (handle_file_request F what unset id client_ip request before).1 w
    pub granted : is_granted F request before ≡ true
    pub path_is :
        w.handler.current_file_path
        ≡ in_directory F
            (normalize_path (convert_to_native_path request.destination_path))
            request.source_path
            before.disk

  abbrev Confined : World F → World F → Type 0
  Confined start w = (w.handler.current_file_path ≡ []) ⊎ Grant start w

  -- A step that keeps the file keeps where it comes from.
  moved :
      (start v w : World F)
      → Step v w
      → w.handler.current_file_path ≡ v.handler.current_file_path
      → Confined start v
      → Confined start w
  moved start v w s e (inl none_yet) = inl (e ∙ none_yet)
  moved start v w s e (inr g) = inr (record {
    before = g.before;
    earlier = g.earlier;
    id = g.id;
    client_ip = g.client_ip;
    request = g.request;
    later = then_step s g.later;
    granted = g.granted;
    path_is = e ∙ g.path_is;
  })

  path_same :
      (h k : ConnectionHandler)
      → target_of k ≡ target_of h
      → k.current_file_path ≡ h.current_file_path
  path_same h k e = ap (λ (t : Target). t.path) e

  prepared_same :
      (id : List ℕ) (offset : ℕ) (r : Result ℕ × World F)
      → (after_prepare F what unset id offset r).1 ≡ r.1
  prepared_same id offset (ok n, w) = refl
  prepared_same id offset (throw e, w) = refl

  -- What follows the choice of the file leaves which it is.
  after_choice_same :
      (id client_ip : List ℕ) (request : FileRequest) (r : Result (Text × ℕ) × World F)
      → (after_choice F what unset id client_ip request r).1.handler.current_file_path
        ≡ r.1.handler.current_file_path
  after_choice_same id client_ip request (throw x, v) = refl
  after_choice_same id client_ip request (ok (q, n), v) =
      ap (λ (x : World F). x.handler.current_file_path)
        (prepared_same id n (prepare_file F id client_ip request q v))
      ∙ ap (λ (k : Prepared). k.target.path)
          (same F prepared_of (prepare_file-Keeps F id client_ip request q) v)

  file_request-Confined :
      (start v : World F) (id client_ip : List ℕ) (request : FileRequest)
      → Reaches start v
      → Confined start v
      → Confined start (handle_file_request F what unset id client_ip request v).1
  unfolding handle_file_request
  file_request-Confined start v id client_ip request earlier before =
      let opened : World F = record {
        handler = record v.handler { current_transfer_completed = false; stream = none };
        disk = v.disk;
      } in
      let w = (handle_file_request F what unset id client_ip request v).1 in
      let kept = after_choice_same id client_ip request (choose_file F request opened) in
      elim (choose_file_cases F request opened) [
        | inl (e, refused) ↦
            moved start v w (file_request id client_ip request)
              (kept
                ∙ ap (λ (x : Result (Text × ℕ) × World F). x.1.handler.current_file_path) refused)
              before
        | inr (path, c, same_file) ↦ inr (record {
          before = v;
          earlier = earlier;
          id = id;
          client_ip = client_ip;
          request = request;
          later = at_start;
          granted = c.granted;
          path_is = kept ∙ ap (λ (x : World F). x.handler.current_file_path) c.begun ∙ c.path_is;
        })
      ]

  Step-Confined :
      (start v w : World F) → Step v w → Reaches start v → Confined start v → Confined start w
  Step-Confined start v w (file_request id client_ip request) earlier before =
      file_request-Confined start v id client_ip request earlier before
  Step-Confined start v w (file_data m) earlier before =
      moved start v w (file_data m)
        (path_same v.handler w.handler
          (ap (λ (k : Kept). k.target) (handle_file_data_same F what unset lz4 m v)))
        before
  Step-Confined start v w (file_verify_request request) earlier before =
      moved start v w (file_verify_request request)
        (path_same v.handler w.handler
          (handle_file_verify_request_same F xxhash64 what mismatch request v))
        before
  Step-Confined start v w (block_hashes_request request) earlier before =
      moved start v w (block_hashes_request request)
        (path_same v.handler w.handler (handle_block_hashes_request_same F xxhash64 what request v))
        before
  Step-Confined start v w (download_request denied not_found id client_ip request answer e) earlier
        before =
      moved start v w (download_request denied not_found id client_ip request answer e)
        (path_same v.handler w.handler
          (download_answer_same F denied not_found id client_ip request v w answer e))
        before
  Step-Confined start v w (download_sent k s) earlier before =
      moved start v w (download_sent k s) refl before
  Step-Confined start v w (elsewhere d) earlier before = moved start v w (elsewhere d) refl before

  -- On a connection that begins without a file, after any messages with requests, data, checks and
  -- downloads, in any order, and whatever other programs do to the disk in between: the file that is
  -- written to is none, or there is an earlier request of this connection, since which the present state
  -- was reached, that passed both tests in the state in which it came, and the file is the destination
  -- of this request in normal form, or the name of its source in it if that ends in a separator or was a
  -- directory then. The tests are of the destination as the request writes it, not of the file.
  pub current_file_confined :
      (start w : World F)
      → start.handler.current_file_path ≡ []
      → Reaches start w
      → (w.handler.current_file_path ≡ []) ⊎ Grant start w
  current_file_confined start w empty at_start = inl empty
  current_file_confined start w empty (then_step {v = v} s before) =
      Step-Confined start v w s before (current_file_confined start v empty before)
