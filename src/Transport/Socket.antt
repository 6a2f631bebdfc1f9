-- ===== src/Transport/Socket.antt =====
-- The socket that src/server/server.cpp receives from: `receive` is an interface here, and `receive_all`
-- is the loop around it.
pub mod Laws
use net_copy.Common.{
  NetCopyException, ℕ, zero, suc, ◌+◌, ◌-◌, ◌≤◌, ◌<◌, ◌≡◌, List, [], ◌∷◌, ◌++◌, length, take, drop,
  ltb, Result, ok, throw, and_then, network_exception, String, if◌then◌else◌,
}

-- `receive` gives bytes, at most as many as were asked for, or throws, as when the peer has closed.
pub record Socket : Type 1 where
  pub State : Type 0
  pub receive : ℕ → State → Result (List ℕ × State)

-- What a stream socket does, TCP with or without TLS: the bytes that the peer sent come in order, some at
-- a time as long as there are any, and then it throws.
pub record IsStream (S : Socket) : Type 0 where
  pub pending : S.State → List ℕ
  pub in_order :
      (n : ℕ) (s : S.State) (bytes : List ℕ) (after : S.State)
      → S.receive n s ≡ ok (bytes, after)
      → pending s ≡ bytes ++ pending after
  pub at_most :
      (n : ℕ) (s : S.State) (bytes : List ℕ) (after : S.State)
      → S.receive n s ≡ ok (bytes, after)
      → length bytes ≤ n
  pub some_bytes :
      (n : ℕ) (s : S.State)
      → 0 < n
      → 0 < length (pending s)
      → (b : ℕ) × (bs : List ℕ) × (after : S.State) × (S.receive n s ≡ ok (b ∷ bs, after))
  pub ended :
      (n : ℕ) (s : S.State)
      → 0 < n
      → length (pending s) ≡ 0
      → (e : NetCopyException) × (S.receive n s ≡ throw e)

module _ (S : Socket) where
  abbrev pub Received : Type 0
  Received = List ℕ × S.State

  -- A round of the loop, with what follows it.
  abbrev pub after_receive :
      String → Result Received → (List ℕ → S.State → Result Received) → Result Received
  after_receive closed (throw e) more = throw e
  after_receive closed (ok ([], after)) more = throw (network_exception closed)
  after_receive closed (ok (b ∷ bs, after)) more =
      and_then (more (b ∷ bs) after) (λ r. ok ((b ∷ bs) ++ r.0, r.1))

  -- The loop of `receive_message` with `n` bytes to go. Each round but the last gets a byte, so a
  -- fuel of `n` is enough.
  unfoldable pub receive_all : String → ℕ → ℕ → S.State → Result Received
  receive_all closed fuel zero s = ok ([], s)
  receive_all closed zero (suc n) s = ok ([], s)
  receive_all closed (suc fuel) (suc n) s =
      after_receive closed (S.receive (suc n) s)
        (λ got after. receive_all closed fuel (suc n - length got) after)
