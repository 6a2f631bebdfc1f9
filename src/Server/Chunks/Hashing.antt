-- ===== src/Server/Chunks/Hashing.antt =====
-- What the hasher has taken of the data that came in order.
use net_copy.Common.{
  ℕ, ◌+◌, ◌^◌, ◌<◌, ◌≡◌, refl, sym, ap, ◌∙◌, subst, List, [], ◌∷◌, ◌++◌, append_assoc, append-nil,
  length, length-append, Bool, true, false, eq→eqb, lt→ltb, none, some, arith,
}
use net_copy.Crypto.Sha3.{Sha3Hasher, new_hasher, update}
use net_copy.Crypto.Sha3.Streaming.{update_all, joined}
use net_copy.Server.State.{ConnectionHandler}
use net_copy.Server.Chunks.{hash_chunk, hash_with}

-- The hasher has taken what was received, or there is none.
pub record Hashed (received : List ℕ) (h : ConnectionHandler) : Type 0 where
  pub parts : List (List ℕ)
  pub hasher : h.current_upload_hasher ≡ some (update_all new_hasher parts)
  pub taken : joined parts ≡ received
  pub next : h.current_upload_hash_next_offset ≡ length received
  pub valid : h.current_upload_hash_valid ≡ true

abbrev pub IsHashing : Bool → List ℕ → ConnectionHandler → Type 0
IsHashing true received h = Hashed received h
IsHashing false received h = h.current_upload_hasher ≡ none

update_all-append :
    (h : Sha3Hasher) (parts : List (List ℕ)) (part : List ℕ)
    → update_all h (parts ++ (part ∷ [])) ≡ update (update_all h parts) part
update_all-append h [] part = refl
update_all-append h (p ∷ ps) part = update_all-append (update h p) ps part

joined-append :
    (parts : List (List ℕ)) (part : List ℕ) → joined (parts ++ (part ∷ [])) ≡ joined parts ++ part
joined-append [] part = append-nil part
joined-append (p ∷ ps) part =
    ap (λ l. p ++ l) (joined-append ps part) ∙ sym (append_assoc p (joined ps) part)

-- A chunk that continues the data goes into the hasher.
hash_chunk-Hashed :
    (received payload : List ℕ) (h : ConnectionHandler)
    → length received + length payload < 2 ^ 64
    → Hashed received h
    → Hashed (received ++ payload) (hash_chunk (length received) payload h)
hash_chunk-Hashed received [] h bound k =
    subst (λ o. Hashed (received ++ []) (hash_with o (length received) [] h)) (sym k.hasher)
      (subst (λ r. Hashed r h) (sym (append-nil received)) k)
hash_chunk-Hashed received (b ∷ bs) h bound k =
    rw
      (
        k.hasher,
        k.valid,
        lt→ltb 0 (length (b ∷ bs)) (omega arith),
        eq→eqb (length received) h.current_upload_hash_next_offset (sym k.next),
      )
      (record {
        parts = k.parts ++ ((b ∷ bs) ∷ []);
        hasher = ap some (sym (update_all-append new_hasher k.parts (b ∷ bs)));
        taken = joined-append k.parts (b ∷ bs) ∙ ap (λ l. l ++ (b ∷ bs)) k.taken;
        next = omega (arith, k.next, length-append received (b ∷ bs));
        valid = refl;
      })

pub hash_chunk-IsHashing :
    (streams : Bool) (received payload : List ℕ) (h : ConnectionHandler)
    → length received + length payload < 2 ^ 64
    → IsHashing streams received h
    → IsHashing streams (received ++ payload) (hash_chunk (length received) payload h)
hash_chunk-IsHashing true received payload h bound k = hash_chunk-Hashed received payload h bound k
hash_chunk-IsHashing false received payload h bound k =
    subst (λ o. (hash_with o (length received) payload h).current_upload_hasher ≡ none) (sym k) k

-- Some code leaves what the hasher has taken.
abbrev pub SameHash : ConnectionHandler → ConnectionHandler → Type 0
SameHash h k =
    (k.current_upload_hasher ≡ h.current_upload_hasher)
    × (k.current_upload_hash_next_offset ≡ h.current_upload_hash_next_offset)
    × (k.current_upload_hash_valid ≡ h.current_upload_hash_valid)

pub same_IsHashing :
    (streams : Bool) (received : List ℕ) (h k : ConnectionHandler)
    → SameHash h k
    → IsHashing streams received h
    → IsHashing streams received k
same_IsHashing true received h k (a, b, c) g = record {
  parts = g.parts;
  hasher = a ∙ g.hasher;
  taken = g.taken;
  next = b ∙ g.next;
  valid = c ∙ g.valid;
}
same_IsHashing false received h k (a, b, c) g = a ∙ g
