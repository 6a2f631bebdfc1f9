-- ===== src/Protocol/Message/Prefix.antt =====
-- Buffers that `deserialize` refuses: a message cut short, and a type that no subclass has.
use net_copy.Common.{
  ℕ, ◌<◌, ◌≤◌, ◌≡◌, refl, ap, sym, ◌∙◌, List, [], ◌∷◌, ◌++◌, length, length-append, drop, throw,
  protocol_exception, arith, ltb, if◌then◌else◌, ◌⊎◌, inl, inr, Bool-cases, false, ltb-false→le,
}
use net_copy.Protocol.MessageHeader
use net_copy.Protocol.MessageHeader.{MessageHeader, header_size}
use net_copy.Protocol.Message.{
  Message, serialize_body, serialize, handlers, select, with_header, deserialize,
}
use net_copy.Protocol.Message.RoundTrip.{
  IsSendable, sent_header, serialize_parts, sent_header-IsValid, deserialize_parts,
}

-- Of two ways to cut a list, the later cut holds all that stands before the earlier one.
split_longer {ℓ} :
    {A : Type ℓ} (xs ys zs ws : List A)
    → xs ++ ys ≡ zs ++ ws
    → length zs ≤ length xs
    → (xs ≡ zs ++ drop (length zs) xs)
split_longer xs ys [] ws e le = refl
split_longer [] ys (z ∷ zs) ws e le = absurd (omega arith)
split_longer (x ∷ xs) ys (z ∷ zs) ws e le =
    cc (split_longer xs ys zs ws (cons_tail e) (omega arith))
  where
    cons_tail : x ∷ xs ++ ys ≡ z ∷ zs ++ ws → xs ++ ys ≡ zs ++ ws
    cons_tail p = cc

-- A buffer with a whole header and less than its payload.
deserialize_cut :
    (h : MessageHeader) (part : List ℕ)
    → MessageHeader.IsValid h
    → length part < h.payload_length
    → deserialize (MessageHeader.serialize h ++ part)
      ≡ throw (protocol_exception "Incomplete message")
unfolding deserialize
deserialize_cut h part v short = ground (
  arith,
  MessageHeader.deserialize-serialize h part v,
  length-append (MessageHeader.serialize h) part,
  MessageHeader.length-serialize h,
)

deserialize_short :
    (bytes : List ℕ)
    → length bytes < header_size
    → deserialize bytes ≡ throw (protocol_exception "Message too short")
unfolding deserialize
deserialize_short bytes h = ground arith

-- A proper prefix of a sendable message is refused: as too short below sixteen bytes, and as
-- incomplete from there on.
pub deserialize_prefix :
    (m : Message) (front back : List ℕ) (x : ℕ)
    → IsSendable m
    → serialize m ≡ front ++ (x ∷ back)
    → deserialize front ≡ (
        if ltb (length front) header_size
        then throw (protocol_exception "Message too short")
        else throw (protocol_exception "Incomplete message"))
deserialize_prefix m front back x v e = elim (Bool-cases (ltb (length front) header_size)) [
  | inl short ↦ rw short (deserialize_short front (ground arith))
  | inr long ↦ rw long (
      ap deserialize (parts long)
      ∙ deserialize_cut (sent_header m) _ (sent_header-IsValid m v) (cut long))
]
  where
    head : List ℕ
    head = MessageHeader.serialize (sent_header m)

    parts : ltb (length front) header_size ≡ false → front ≡ head ++ drop (length head) front
    parts long =
        split_longer front (x ∷ back) head (serialize_body m.body) (sym e ∙ serialize_parts m v)
          (omega (arith, MessageHeader.length-serialize (sent_header m), ltb-false→le _ _ long))

    cut :
        ltb (length front) header_size ≡ false
        → length (drop (length head) front) < length (serialize_body m.body)
    cut long = omega (
      arith,
      ap length (parts long),
      length-append head (drop (length head) front),
      ap length (sym e ∙ serialize_parts m v),
      length-append front (x ∷ back),
      length-append head (serialize_body m.body),
    )

-- The numbers of MessageType that the switch has no case for, and those beyond the enumeration.
abbrev pub IsUnknown : ℕ → Type 0
IsUnknown t = (t ≡ 0) ⊎ ((7 ≤ t) × (t ≤ 11)) ⊎ (27 ≤ t)

select_unknown :
    (t : ℕ) (payload : List ℕ)
    → IsUnknown t
    → select handlers t payload ≡ throw (protocol_exception "Unknown message type")
unfolding select
select_unknown t payload u = ground arith

-- A buffer with a header in range and its whole payload is refused as of unknown type, if the type is
-- 0, 7 to 11, or above 26, whatever the payload is and whatever follows.
pub deserialize_unknown :
    (h : MessageHeader) (payload rest : List ℕ)
    → MessageHeader.IsValid h
    → h.payload_length ≡ length payload
    → IsUnknown h.message_type
    → deserialize (MessageHeader.serialize h ++ (payload ++ rest))
      ≡ throw (protocol_exception "Unknown message type")
deserialize_unknown h payload rest v e u =
    deserialize_parts h payload rest v e
    ∙ ap (with_header h) (select_unknown h.message_type payload u)
