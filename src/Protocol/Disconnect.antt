-- ===== src/Protocol/Disconnect.antt =====
-- Disconnect of include/protocol/message.h and src/protocol/message.cpp: no payload.
use net_copy.Common.{ℕ, List, []}
use net_copy.Protocol.Reader.{Reader, Reads, Yields, return, return-Reads, return-Yields}

pub data Disconnect : Type 0 where
  disconnect : Disconnect

unfoldable pub serialize_payload : Disconnect → List ℕ
serialize_payload disconnect = []

-- Whatever the payload holds is left unread.
unfoldable pub read_payload : Reader Disconnect
read_payload = return disconnect

pub payload-Reads : (m : Disconnect) → Reads read_payload (serialize_payload m) m
unfolding serialize_payload read_payload
payload-Reads disconnect = return-Reads disconnect

pub payload-Yields : Yields (λ (m : Disconnect). Unit {0}) read_payload
unfolding read_payload
payload-Yields = return-Yields _ disconnect tt
