-- ===== src/Server/Request/Accepted.antt =====
-- Which requests are refused, and what an accepted one leaves.
use net_copy.Common.{
  ltb, ◌⊎◌, ℕ, ◌≡◌, refl, sym, ap, ◌∙◌, subst, List, [], Bool, true, false, Bool-cases, inl, inr,
  none, Result, ok, throw, ok-injective, NetCopyException,
}
use net_copy.Protocol.FileRequest.{FileRequest}
use net_copy.Files.Path.{Text, convert_to_native_path, is_absolute_path, normalize_path}
use net_copy.Files.Safe.{is_path_allowed}
use net_copy.Files.Disk.{FileSystem, IsPosix}
use net_copy.Server.State.{ConnectionHandler, World}
use net_copy.Server.Chunks.{is_open_at}
use net_copy.Server.Chunks.Hashing.{IsHashing, SameHash, same_IsHashing}
use net_copy.Server.Chunks.Content.{Wrote}
use net_copy.Server.Run.{pass, return}
use net_copy.Server.Confined.{same}
use net_copy.Server.Confined.Prepares.{Prepared, prepared_of, prepare_file-Keeps}
use net_copy.Server.Request.{
  partial_size, resume_offset_of, is_denied_to_user, is_streamed, begin_file, is_granted,
  resolve_path, in_directory, choose_file, prepare_file, after_choice, after_prepare,
  handle_file_request,
}

module _ (F : FileSystem) where
  -- What choosing the file found.
  pub record Chosen (request : FileRequest) (w : World F) (path : Text) : Type 0 where
    pub granted : is_granted F request w ≡ true
    pub path_is :
        path
        ≡ in_directory F
            (normalize_path (convert_to_native_path request.destination_path))
            request.source_path
            w.disk
    pub begun :
        (choose_file F request w).1
        ≡ record { handler = begin_file request path w.handler; disk = w.disk }

  exists_size_same :
      (path : Text) (w : World F) (b : Bool)
      → F.exists path w.disk ≡ b
      → (partial_size F path w).1 ≡ w
  exists_size_same path w true e = rw e refl
  exists_size_same path w false e = rw e refl

  resume_offset_same :
      (request : FileRequest) (path : Text) (w : World F)
      → (resume_offset_of F request path w).1 ≡ w
  resume_offset_same request path w = elim (Bool-cases (ltb 0 request.resume_offset)) [
    | inl y ↦ rw y (exists_size_same path w _ refl)
    | inr n ↦ rw n refl
  ]

  -- The file that was found stands beside its offset.
  abbrev beside : Text → Result ℕ × World F → Result (Text × ℕ) × World F
  beside path r = pass {B = Text × ℕ} r (λ offset. return (path, offset))

  offset_state : (path : Text) (r : Result ℕ × World F) → (beside path r).1 ≡ r.1
  offset_state path (ok n, w) = refl
  offset_state path (throw e, w) = refl

  offset_path :
      (path q : Text) (offset : ℕ) (r : Result ℕ × World F)
      → (beside path r).0 ≡ ok (q, offset)
      → q ≡ path
  offset_path path q offset (ok n, w) h = sym (ap (λ (x : Text × ℕ). x.0) (ok-injective h))
  offset_path path q offset (throw e, w) h = absurd (cc)

  -- A request is refused by a test, or has found its file, also where its size is an error.
  pub choose_file_cases :
      (request : FileRequest) (w : World F)
      → ((e : NetCopyException) × (choose_file F request w ≡ (throw e, w)))
        ⊎ ((path : Text) × Chosen request w path
            × ((q : Text) (offset : ℕ) → (choose_file F request w).0 ≡ ok (q, offset) → q ≡ path))
  unfolding choose_file resolve_path
  choose_file_cases request w =
      let allowed =
        is_path_allowed (F.weakly_canonical w.disk) w.handler.config.allowed_paths
          request.destination_path in
      let denied = is_denied_to_user w.handler request.destination_path in
      let native = convert_to_native_path request.destination_path in
      let found = in_directory F (normalize_path native) request.source_path w.disk in
      let begun : World F = record {
        handler = begin_file request found w.handler;
        disk = w.disk;
      } in
      elim (Bool-cases allowed) [
        | inr n ↦ inl (rw n (_, refl))
        | inl a ↦ elim (Bool-cases denied) [
          | inl y ↦ inl (rw (a, y) (_, refl))
          | inr g ↦ elim (Bool-cases (is_absolute_path native)) [
            | inr n ↦ inl (rw (a, g, n) (_, refl))
            | inl y ↦
                let r = resume_offset_of F request found begun in
                let known : choose_file F request w ≡ beside found r = rw (a, g, y) refl in
                inr (
                  found,
                  record {
                    granted = rw (a, g) refl;
                    path_is = refl;
                    begun =
                        ap (λ (x : Result (Text × ℕ) × World F). x.1) known
                        ∙ offset_state found r
                        ∙ resume_offset_same request found begun;
                  },
                  λ q offset done.
                      offset_path found q offset r
                        (ap (λ (x : Result (Text × ℕ) × World F). x.0) (sym known) ∙ done),
                )
          ]
        ]
      ]

  pub choose_file-Chosen :
      (request : FileRequest) (w : World F) (path : Text) (offset : ℕ)
      → (choose_file F request w).0 ≡ ok (path, offset)
      → Chosen request w path
  choose_file-Chosen request w path offset done = elim (choose_file_cases request w) [
    | inl (e, refused) ↦
        absurd (let f = ap (λ (x : Result (Text × ℕ) × World F). x.0) (sym refused) ∙ done in cc)
    | inr (found, c, same) ↦ subst (Chosen request w) (sym (same path offset done)) c
  ]

  choose_file_denied :
      (request : FileRequest) (w : World F)
      → is_granted F request w ≡ false
      → (e : NetCopyException) × (choose_file F request w ≡ (throw e, w))
  unfolding choose_file
  choose_file_denied request w h =
      let allowed =
        is_path_allowed (F.weakly_canonical w.disk) w.handler.config.allowed_paths
          request.destination_path in
      elim (Bool-cases allowed) [
        | inr n ↦ rw n (_, refl)
        | inl a ↦ elim (Bool-cases (is_denied_to_user w.handler request.destination_path)) [
          | inl y ↦ rw (a, y) (_, refl)
          | inr g ↦ absurd (let f = rw (a, g) at h in cc)
        ]
      ]

  -- The preparation leaves which file it is, its size, its kind, the stream and the hash.
  abbrev Keeps : ConnectionHandler → ConnectionHandler → Type 0
  Keeps h k =
      (k.current_file_path ≡ h.current_file_path)
      × (k.current_expected_file_size ≡ h.current_expected_file_size)
      × (k.current_is_symlink ≡ h.current_is_symlink)
      × (k.stream ≡ h.stream)
      × SameHash h k

  prepared_of-Keeps : (h k : ConnectionHandler) → prepared_of k ≡ prepared_of h → Keeps h k
  prepared_of-Keeps h k e = (
    ap (λ (x : Prepared). x.target.path) e,
    ap (λ (x : Prepared). x.expected_size) e,
    ap (λ (x : Prepared). x.is_symlink) e,
    ap (λ (x : Prepared). x.stream) e,
    (
      ap (λ (x : Prepared). x.hasher) e,
      ap (λ (x : Prepared). x.next_offset) e,
      ap (λ (x : Prepared). x.hash_valid) e,
    ),
  )

module _ (F : FileSystem) (P : IsPosix F) (what : NetCopyException → List ℕ) (unset : ℕ) where
  -- A request whose destination fails one of the tests is refused, and neither the disk nor the file
  -- of the transfer changes.
  pub handle_file_request_denied :
      (id client_ip : List ℕ) (request : FileRequest) (w : World F)
      → is_granted F request w ≡ false
      → let after = handle_file_request F what unset id client_ip request w in
        (after.0.success ≡ false)
        × (after.1.disk ≡ w.disk)
        × (after.1.handler.current_file_path ≡ w.handler.current_file_path)
  unfolding handle_file_request
  handle_file_request_denied id client_ip request w h =
      let start : World F = record {
        handler = record w.handler { current_transfer_completed = false; stream = none };
        disk = w.disk;
      } in
      let (e, refused) = choose_file_denied F request start h in rw refused (refl, refl, refl)

  -- What an accepted request found out and left: the file is a granted one, of the size and kind that
  -- were announced, nothing is received yet, and it is hashed as it comes if that is configured and
  -- the transfer starts at the beginning.
  pub record Accepted (request : FileRequest) (w after : World F) : Type 0 where
    pub granted : is_granted F request w ≡ true
    pub path_is :
        after.handler.current_file_path
        ≡ in_directory F
            (normalize_path (convert_to_native_path request.destination_path))
            request.source_path
            w.disk
    pub started :
        Wrote F P after.handler.current_file_path request.file_size
          (is_streamed request w.handler.config)
          []
          after

  prepared_success :
      (id : List ℕ) (offset : ℕ) (r : Result ℕ × World F)
      → (after_prepare F what unset id offset r).0.success ≡ true
      → (n : ℕ) × (r.0 ≡ ok n) × ((after_prepare F what unset id offset r).1 ≡ r.1)
  prepared_success id offset (ok n, w) h = (n, refl, refl)
  prepared_success id offset (throw e, w) h = cc

  chosen_success :
      (id client_ip : List ℕ) (request : FileRequest) (r : Result (Text × ℕ) × World F)
      → (after_choice F what unset id client_ip request r).0.success ≡ true
      → (path : Text) × (offset : ℕ) × (n : ℕ) × (r.0 ≡ ok (path, offset))
        × ((prepare_file F id client_ip request path r.1).0 ≡ ok n)
        × ((after_choice F what unset id client_ip request r).1
            ≡ (prepare_file F id client_ip request path r.1).1)
  chosen_success id client_ip request (ok (path, offset), w) h =
      let (n, prepared, same) =
        prepared_success id offset (prepare_file F id client_ip request path w) h in
      (path, offset, n, refl, prepared, same)
  chosen_success id client_ip request (throw e, w) h = cc

  begun_hash :
      (request : FileRequest) (path : Text) (h : ConnectionHandler) (b : Bool)
      → is_streamed request h.config ≡ b
      → IsHashing b [] (begin_file request path h)
  begun_hash request path h true e = record {
    parts = [];
    hasher = rw e refl;
    taken = refl;
    next = refl;
    valid = e;
  }
  begun_hash request path h false e = rw e refl

  pub handle_file_request-Accepted :
      (id client_ip : List ℕ) (request : FileRequest) (w : World F)
      → request.is_symlink ≡ false
      → let after = handle_file_request F what unset id client_ip request w in
        after.0.success ≡ true → Accepted request w after.1
  unfolding handle_file_request
  handle_file_request-Accepted id client_ip request w plain done =
      let start : World F = record {
        handler = record w.handler { current_transfer_completed = false; stream = none };
        disk = w.disk;
      } in
      let (path, offset, n, chosen, prepared, end) =
        chosen_success id client_ip request (choose_file F request start) done in
      let c = choose_file-Chosen F request start path offset chosen in
      let v = (choose_file F request start).1 in
      let after = (prepare_file F id client_ip request path v).1 in
      let h = begin_file request path start.handler in
      let (at, expects, kind, stream, hash) =
        subst (λ (x : World F). Keeps F x.handler after.handler) c.begun
          (prepared_of-Keeps F v.handler after.handler
            (same F prepared_of (prepare_file-Keeps F id client_ip request path) v)) in
      subst (Accepted request w) (sym end) (record {
        granted = c.granted;
        path_is = at ∙ c.path_is;
        started = record {
          receiving = record {
            at = refl;
            expects = expects;
            plain = kind ∙ plain;
            begins = refl;
            truncated = inr (refl, ap (λ s. is_open_at s after.handler.current_file_path) stream);
          };
          hashing =
              same_IsHashing (is_streamed request w.handler.config) [] h after.handler hash
                (begun_hash request path start.handler (is_streamed request w.handler.config) refl);
        };
      })
