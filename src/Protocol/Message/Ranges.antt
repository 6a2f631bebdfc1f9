-- ===== src/Protocol/Message/Ranges.antt =====
-- What `deserialize` returns on any buffer of bytes.
use net_copy.Common.{
  ℕ, ◌+◌, ◌≤◌, ◌≡◌, refl, List, [], ◌∷◌, length, take, drop, All, All-take, All-drop, Result, ok,
  throw, protocol_exception, arith, ltb, ltb-false→le, ◌==◌, inl, inr, Bool-cases, if◌then◌else◌,
  ok-injective, subst,
}
use net_copy.Protocol.Reader.{Reader, Yields, run, run-Yields}
use net_copy.Common.{IsByte}
use net_copy.Protocol.MessageHeader
use net_copy.Protocol.MessageHeader.{MessageHeader, header_size}
use net_copy.Protocol.HandshakeRequest
use net_copy.Protocol.HandshakeRequest.{HandshakeRequest}
use net_copy.Protocol.HandshakeResponse
use net_copy.Protocol.HandshakeResponse.{HandshakeResponse}
use net_copy.Protocol.FileRequest
use net_copy.Protocol.FileRequest.{FileRequest}
use net_copy.Protocol.FileResponse
use net_copy.Protocol.FileResponse.{FileResponse}
use net_copy.Protocol.FileData
use net_copy.Protocol.FileData.{FileData}
use net_copy.Protocol.FileAck
use net_copy.Protocol.FileAck.{FileAck}
use net_copy.Protocol.ErrorMessage
use net_copy.Protocol.ErrorMessage.{ErrorMessage}
use net_copy.Protocol.AuthChallenge
use net_copy.Protocol.AuthChallenge.{AuthChallenge}
use net_copy.Protocol.AuthResponse
use net_copy.Protocol.AuthResponse.{AuthResponse}
use net_copy.Protocol.AuthResult
use net_copy.Protocol.AuthResult.{AuthResult}
use net_copy.Protocol.DownloadRequest
use net_copy.Protocol.DownloadRequest.{DownloadRequest}
use net_copy.Protocol.DownloadResponse
use net_copy.Protocol.DownloadResponse.{DownloadResponse}
use net_copy.Protocol.ListRequest
use net_copy.Protocol.ListRequest.{ListRequest}
use net_copy.Protocol.ListResponse
use net_copy.Protocol.ListResponse.{ListResponse}
use net_copy.Protocol.Disconnect
use net_copy.Protocol.Disconnect.{Disconnect}
use net_copy.Protocol.FileVerifyRequest
use net_copy.Protocol.FileVerifyRequest.{FileVerifyRequest}
use net_copy.Protocol.FileVerifyResponse
use net_copy.Protocol.FileVerifyResponse.{FileVerifyResponse}
use net_copy.Protocol.BlockHashesRequest
use net_copy.Protocol.BlockHashesRequest.{BlockHashesRequest}
use net_copy.Protocol.BlockHashesResponse
use net_copy.Protocol.BlockHashesResponse.{BlockHashesResponse}
use net_copy.Protocol.TransferStatusRequest
use net_copy.Protocol.TransferStatusRequest.{TransferStatusRequest}
use net_copy.Protocol.TransferStatusResponse
use net_copy.Protocol.TransferStatusResponse.{TransferStatusResponse}
use net_copy.Protocol.FileData.RoundTrip
use net_copy.Protocol.Message.{
  Message, Body, Handler, type_of, as_body, handlers, select, with_header, deserialize,
  handshake_request, handshake_response, file_request, file_response, file_data, file_ack,
  error_message, auth_challenge, auth_response, auth_result, download_request, download_response,
  list_request, list_response, disconnect, file_verify_request, file_verify_response,
  block_hashes_request, block_hashes_response, transfer_status_request, transfer_status_response,
}
use net_copy.Protocol.Message.Bodies.{IsValid}

-- What a handler for the type `code` returns: the subclass of that type, its fields in range.
abbrev Keeps : ℕ → Handler → Type 0
Keeps code h = (p : List ℕ) (b : Body) → All IsByte p → h p ≡ ok b → IsValid b × (type_of b ≡ code)

abbrev AllKeep : List (ℕ × Handler) → Type 0
AllKeep [] = Unit {0}
AllKeep ((code, h) ∷ rest) = Keeps code h × AllKeep rest

as_body-Keeps {ℓ κ} :
    {A : Type ℓ} (V : A → Type κ) (f : A → Body) (code : ℕ) (r : List ℕ → Result A)
    → ((p : List ℕ) (a : A) → All IsByte p → r p ≡ ok a → V a)
    → ((a : A) → V a → IsValid (f a))
    → ((a : A) → type_of (f a) ≡ code)
    → Keeps code (λ p. as_body f (r p))
as_body-Keeps {A = A} V f code r hr hv ht p b hp e = go (r p) refl e
  where
    go : (x : Result A) → r p ≡ x → as_body f x ≡ ok b → IsValid b × (type_of b ≡ code)
    go (ok a) q e' =
        subst (λ c. IsValid c × (type_of c ≡ code)) (ok-injective e') (hv a (hr p a hp q), ht a)
    go (throw x) q e' = absurd (cc)

-- The same for a reader of the whole payload.
run-Keeps {ℓ} :
    {A : Type ℓ} (V : A → Type 0) (f : A → Body) (code : ℕ) (m : Reader A)
    → Yields V m
    → ((a : A) → V a → IsValid (f a))
    → ((a : A) → type_of (f a) ≡ code)
    → Keeps code (λ p. as_body f (run m p))
run-Keeps V f code m y = as_body-Keeps V f code (run m) (λ p a hp e. run-Yields V m p a y hp e)

handlers-AllKeep : AllKeep handlers
unfolding type_of
handlers-AllKeep = (
  run-Keeps HandshakeRequest.IsValid handshake_request 1 _
      (HandshakeRequest.payload-Yields HandshakeRequest.init (omega arith)) (λ a v. v) (λ a. refl),
  (
    run-Keeps HandshakeResponse.IsValid handshake_response 2 _
        (HandshakeResponse.payload-Yields HandshakeResponse.init (omega arith)) (λ a v. v)
        (λ a. refl),
    (
      run-Keeps FileRequest.IsValid file_request 3 _
          (FileRequest.payload-Yields FileRequest.init (omega arith)) (λ a v. v) (λ a. refl),
      (
        run-Keeps FileResponse.IsValid file_response 4 _ FileResponse.payload-Yields (λ a v. v)
            (λ a. refl),
        (
          as_body-Keeps FileData.RoundTrip.IsValid file_data 5 _
              FileData.RoundTrip.deserialize-IsValid (λ a v. v) (λ a. refl),
          (
            run-Keeps FileAck.IsValid file_ack 6 _ FileAck.payload-Yields (λ a v. v) (λ a. refl),
            (
              run-Keeps ErrorMessage.IsValid error_message 12 _ ErrorMessage.payload-Yields
                  (λ a v. v) (λ a. refl),
              (
                run-Keeps AuthChallenge.IsValid auth_challenge 13 _ AuthChallenge.payload-Yields
                    (λ a v. v) (λ a. refl),
                (
                  run-Keeps AuthResponse.IsValid auth_response 14 _ AuthResponse.payload-Yields
                      (λ a v. v) (λ a. refl),
                  (
                    run-Keeps AuthResult.IsValid auth_result 15 _
                        (AuthResult.payload-Yields AuthResult.init (omega arith)) (λ a v. v)
                        (λ a. refl),
                    (
                      run-Keeps DownloadRequest.IsValid download_request 16 _
                          DownloadRequest.payload-Yields (λ a v. v) (λ a. refl),
                      (
                        run-Keeps DownloadResponse.IsValid download_response 17 _
                            DownloadResponse.payload-Yields (λ a v. v) (λ a. refl),
                        (
                          run-Keeps ListRequest.IsValid list_request 18 _ ListRequest.payload-Yields
                              (λ a v. v) (λ a. refl),
                          (
                            run-Keeps ListResponse.IsValid list_response 19 _
                                ListResponse.payload-Yields (λ a v. v) (λ a. refl),
                            (
                              run-Keeps (λ a. Unit {0}) disconnect 22 _ Disconnect.payload-Yields
                                  (λ a v. v) (λ a. refl),
                              (
                                run-Keeps FileVerifyRequest.IsValid file_verify_request 20 _
                                    FileVerifyRequest.payload-Yields (λ a v. v) (λ a. refl),
                                (
                                  run-Keeps FileVerifyResponse.IsValid file_verify_response 21 _
                                      FileVerifyResponse.payload-Yields (λ a v. v) (λ a. refl),
                                  (
                                    run-Keeps BlockHashesRequest.IsValid block_hashes_request 23 _
                                        BlockHashesRequest.payload-Yields (λ a v. v) (λ a. refl),
                                    (
                                      run-Keeps BlockHashesResponse.IsValid block_hashes_response 24
                                          _ BlockHashesResponse.payload-Yields (λ a v. v)
                                          (λ a. refl),
                                      (
                                        run-Keeps TransferStatusRequest.IsValid
                                            transfer_status_request 25 _
                                            TransferStatusRequest.payload-Yields (λ a v. v)
                                            (λ a. refl),
                                        (
                                          run-Keeps TransferStatusResponse.IsValid
                                              transfer_status_response 26 _
                                              TransferStatusResponse.payload-Yields (λ a v. v)
                                              (λ a. refl),
                                          tt,
                                        ),
                                      ),
                                    ),
                                  ),
                                ),
                              ),
                            ),
                          ),
                        ),
                      ),
                    ),
                  ),
                ),
              ),
            ),
          ),
        ),
      ),
    ),
  ),
)

select-Keeps : (hs : List (ℕ × Handler)) → AllKeep hs → (t : ℕ) → Keeps t (select hs t)
unfolding select
select-Keeps [] hk t p b hp e = absurd (cc)
select-Keeps ((code, h) ∷ rest) hk t p b hp e = elim (Bool-cases (code == t)) [
  | inl y ↦ let c : code ≡ t = ground arith in rw (← c) (hk.0 p b hp (rw y at e))
  | inr n ↦ select-Keeps rest hk.1 t p b hp (rw n at e)
]

-- A buffer holds a header in range and the whole payload of `m`; the subclass of `m` is that of the
-- header's type; every field is in range.
pub record IsReceived (bytes : List ℕ) (m : Message) : Type 0 where
  pub header : MessageHeader.IsValid m.header
  pub complete : header_size + m.header.payload_length ≤ length bytes
  pub message_type : type_of m.body ≡ m.header.message_type
  pub body : IsValid m.body

with_header-IsReceived :
    (bytes : List ℕ) (h : MessageHeader) (r : Result Body) (m : Message)
    → MessageHeader.IsValid h
    → header_size + h.payload_length ≤ length bytes
    → ((b : Body) → r ≡ ok b → IsValid b × (type_of b ≡ h.message_type))
    → with_header h r ≡ ok m
    → IsReceived bytes m
with_header-IsReceived bytes h (throw x) m vh c hr e = absurd (cc)
with_header-IsReceived bytes h (ok b) m vh c hr e =
    subst (IsReceived bytes) (ok-injective e)
      (record { header = vh; complete = c; message_type = (hr b refl).1; body = (hr b refl).0 })

-- Whatever bytes arrive: if `deserialize` returns a message, the buffer held a header in range and
-- the whole payload, the subclass is that of the header's type, and every field is in range.
pub deserialize-IsReceived :
    (bytes : List ℕ) (m : Message)
    → All IsByte bytes
    → deserialize bytes ≡ ok m
    → IsReceived bytes m
unfolding deserialize
deserialize-IsReceived bytes m hb e = elim (Bool-cases (ltb (length bytes) header_size)) [
  | inl short ↦ absurd (cc (rw short at e))
  | inr long ↦ with_result (MessageHeader.deserialize bytes) refl (rw long at e)
]
  where
    payload : MessageHeader → List ℕ
    payload h = take h.payload_length (drop header_size bytes)

    with_result :
        (r : Result MessageHeader)
        → MessageHeader.deserialize bytes ≡ r
        → (elim r [
          | throw x ↦ throw x
          | ok h ↦
              if ltb (length bytes) (header_size + h.payload_length)
              then throw (protocol_exception "Incomplete message")
              else with_header h (select handlers h.message_type (payload h))
        ])
          ≡ ok m
        → IsReceived bytes m
    with_result (throw x) p q = absurd (cc)
    with_result (ok h) p q =
        elim (Bool-cases (ltb (length bytes) (header_size + h.payload_length))) [
          | inl cut ↦ absurd (cc (rw cut at q))
          | inr full ↦
              with_header-IsReceived bytes h (select handlers h.message_type (payload h)) m
                (MessageHeader.deserialize-IsValid bytes h hb p) (ltb-false→le _ _ full)
                (λ b. select-Keeps handlers handlers-AllKeep h.message_type (payload h) b (
                  All-take IsByte h.payload_length (drop header_size bytes)
                    (All-drop IsByte header_size bytes hb)))
                (rw full at q)
        ]
