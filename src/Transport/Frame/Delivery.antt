-- ===== src/Transport/Frame/Delivery.antt =====
-- What one side sends the other receives.
use net_copy.Common.{
  ℕ, false, ◌^◌, ◌<◌, ◌≡◌, refl, sym, ap, ◌∙◌, List, [], ◌++◌, length, length-append, take,
  append_assoc, append-nil, take-append_exact, drop-append_exact, drop, ltb, ltb-false→le, String,
  guard_false, Option, none, some, Result, ok, arith, subst,
}
use net_copy.Protocol.Message.{Message, serialize, deserialize}
use net_copy.Protocol.Message.Bodies.{canonical}
use net_copy.Protocol.Message.RoundTrip.{IsSendable, sent_header, deserialize-serialize}
use net_copy.Transport.Engine.{CryptoEngine, IsLawful}
use net_copy.Transport.Socket.{Socket, IsStream, receive_all}
use net_copy.Transport.Socket.Laws.{receive_all-Gets}
use net_copy.Transport.Frame.{
  max_frame_size, htonl, ntohl, encrypt_message, decrypt_message, send_message, Received,
  open_frame, receive_frame, receive_message,
}

ntohl-htonl : (n : ℕ) → n < 2 ^ 32 → ntohl (htonl n) ≡ n
unfolding htonl ntohl
ntohl-htonl n h = omega arith

length-htonl : (n : ℕ) → length (htonl n) ≡ 4
unfolding htonl
length-htonl n = refl

-- The next bytes of a row that begins with them.
append_cancel :
    {A : Type 0} (xs ys us vs : List A)
    → length xs ≡ length us
    → xs ++ ys ≡ us ++ vs
    → (xs ≡ us) × (ys ≡ vs)
append_cancel xs ys us vs h e = (
  sym (take-append_exact (length xs) xs ys refl)
      ∙ ap (take (length xs)) e
      ∙ take-append_exact (length xs) us vs (sym h),
  sym (drop-append_exact (length xs) xs ys refl)
      ∙ ap (drop (length xs)) e
      ∙ drop-append_exact (length xs) us vs (sym h),
)

module _ (S : Socket) (L : IsStream S) where
  -- A socket whose next bytes are known gives them, and is behind them.
  pub record Got (bytes more : List ℕ) (r : Result (List ℕ × S.State)) : Type 0 where
    pub after : S.State
    pub returned : r ≡ ok (bytes, after)
    pub left : L.pending after ≡ more

  receive_known :
      (closed : String) (n : ℕ) (s : S.State) (bytes more : List ℕ)
      → length bytes ≡ n
      → L.pending s ≡ bytes ++ more
      → Got bytes more (receive_all S closed n n s)
  receive_known closed n s bytes more h e =
      let g =
        receive_all-Gets S L closed n n s (omega arith)
          (omega (arith, ap length e, length-append bytes more)) in
      let (same, left) =
        append_cancel g.bytes (L.pending g.after) bytes more (g.count ∙ sym h) (sym g.order ∙ e) in
      record {
        after = g.after;
        returned = g.returned ∙ ap (λ l. ok (l, g.after)) same;
        left = left;
      }

  module _ (E : CryptoEngine) (W : IsLawful E) where
    -- Both sides encrypt, with engines that understand each other, or neither does.
    abbrev pub ArePaired : Option E.State → Option E.State → Type 0
    ArePaired none none = Unit
    ArePaired (some s) (some r) = W.Paired s r
    ArePaired none (some r) = ⊥
    ArePaired (some s) none = ⊥

    opened_again :
        (random : List ℕ) (s r : Option E.State) (bytes : List ℕ)
        → W.IsRandom random
        → ArePaired s r
        → let sent = encrypt_message E random s bytes in
          ((decrypt_message E r sent.0).0 ≡ ok bytes)
          × ArePaired sent.1 (decrypt_message E r sent.0).1
    opened_again random none none bytes h p = (refl, tt)
    opened_again random (some s) (some r) bytes h p =
        (W.opened random s r bytes h p, W.stay_paired random s r bytes h p)
    opened_again random none (some r) bytes h p = elim p [ ]
    opened_again random (some s) none bytes h p = elim p [ ]

    -- A message that was received, with the rest of the stream and the engines as they are then.
    pub record Arrives (m : Message) (more : List ℕ) (sender : Option E.State)
        (r : Result (Received E S)) : Type 0 where
      pub socket : S.State
      pub engine : Option E.State
      pub returned :
          r
          ≡ ok (record {
            message = record { header = sent_header m; body = canonical m.body };
            socket = socket;
            engine = engine;
          })
      pub left : L.pending socket ≡ more
      pub paired : ArePaired sender engine

    -- Decryption and deserialization of a frame.
    open_frame-Arrives :
        (random : List ℕ) (sender receiver : Option E.State) (m : Message) (more : List ℕ)
        (s : S.State)
        → W.IsRandom random
        → ArePaired sender receiver
        → IsSendable m
        → L.pending s ≡ more
        → let p = encrypt_message E random sender (serialize m) in
          Arrives m more p.1 (open_frame E S receiver (p.0, s))
    unfolding open_frame
    open_frame-Arrives random sender receiver m more s hr paired sendable left =
        let p = encrypt_message E random sender (serialize m) in
        let (opened, again) = opened_again random sender receiver (serialize m) hr paired in
        let whole =
          ap deserialize (sym (append-nil (serialize m))) ∙ deserialize-serialize m [] sendable in
        record {
          socket = s;
          engine = (decrypt_message E receiver p.0).1;
          returned = rw (opened, whole) refl;
          left = left;
          paired = again;
        }

    -- The length, the frame, and what is in it.
    parts-Arrive :
        (random : List ℕ) (sender receiver : Option E.State) (m : Message) (more : List ℕ)
        (s : S.State)
        → W.IsRandom random
        → ArePaired sender receiver
        → IsSendable m
        → let p = encrypt_message E random sender (serialize m) in
          ltb max_frame_size (length p.0) ≡ false
          → L.pending s ≡ (htonl (length p.0) ++ p.0) ++ more
          → Arrives m more p.1 (receive_message E S receiver s)
    unfolding receive_message receive_frame
    parts-Arrive random sender receiver m more s hr paired sendable fits pending =
        let p = encrypt_message E random sender (serialize m) in
        let size = length p.0 in
        let small = ltb-false→le max_frame_size size fits in
        let prefix =
          receive_known "Connection closed while receiving message length" 4 s (htonl size)
            (p.0 ++ more) (length-htonl size) (pending ∙ append_assoc (htonl size) p.0 more) in
        let frame =
          receive_known "Connection closed while receiving message data" size prefix.after p.0 more
            refl prefix.left in
        rw (prefix.returned, ntohl-htonl size (omega arith), fits, frame.returned)
          (open_frame-Arrives random sender receiver m more frame.after hr paired sendable
            frame.left)

    -- Whatever pieces the socket delivers the stream in: if one side sends a message, the other
    -- receives it, with its fields, and leaves what follows in the stream. The engines of the two
    -- sides then understand each other again, so this holds of any row of messages.
    pub receive_message-send_message :
        (random : List ℕ) (sender receiver after : Option E.State) (m : Message)
        (sent more : List ℕ) (s : S.State)
        → W.IsRandom random
        → ArePaired sender receiver
        → IsSendable m
        → send_message E random sender m ≡ ok (sent, after)
        → L.pending s ≡ sent ++ more
        → Arrives m more after (receive_message E S receiver s)
    unfolding send_message
    receive_message-send_message random sender receiver after m sent more s hr paired sendable e
          pending =
        let p = encrypt_message E random sender (serialize m) in
        let (fits, same) =
          guard_false (ltb max_frame_size (length p.0)) (htonl (length p.0) ++ p.0, p.1)
            (sent, after) _ e in
        subst (λ a. Arrives m more a (receive_message E S receiver s)) (ap (λ q. q.1) same)
          (parts-Arrive random sender receiver m more s hr paired sendable fits
            (pending ∙ ap (λ q. q.0 ++ more) (sym same)))
