-- ===== src/Server/Queries/Owned.antt =====
-- Who learns of a session.
use net_copy.Common.{
  ℕ, ◌≡◌, ◌≢◌, ◌⊎◌, ◌↔◌, refl, sym, List, [], ◌∷◌, Bool, true, not, ◌&&◌, if◌then◌else◌, same_bytes,
  same_bytes→eq, same_bytes_self, Bool-cases, inl, inr, Option, none, some,
}
use net_copy.Protocol.TransferStatusRequest.{TransferStatusRequest}
use net_copy.Files.Path.{Text}
use net_copy.Server.State.{Session, is_empty}
use net_copy.Server.Queries.{
  get_ip_only, is_owner, get_session, status_of, handle_transfer_status_request,
}

-- The session is the user's, or no user's and the client, who is none either, has its address.
abbrev pub Owns : List ℕ → Text → Session → Type 0
Owns user address s =
    ((s.owner_user ≡ user) × (user ≢ []))
    ⊎ ((s.owner_user ≡ []) × (user ≡ []) × (get_ip_only address ≡ get_ip_only s.owner_ip))

abbrev owned : List ℕ → List ℕ → Text → Text → Bool
owned owner user ip owner_ip =
    if not (is_empty owner) then same_bytes owner user else is_empty user && same_bytes ip owner_ip

owned_sound :
    (owner user ip owner_ip : List ℕ)
    → owned owner user ip owner_ip ≡ true
    → ((owner ≡ user) × (user ≢ [])) ⊎ ((owner ≡ []) × (user ≡ []) × (ip ≡ owner_ip))
owned_sound [] [] ip owner_ip h = inr (refl, refl, same_bytes→eq ip owner_ip h)
owned_sound [] (u ∷ us) ip owner_ip h = absurd (cc)
owned_sound (o ∷ os) user ip owner_ip h =
    let e = same_bytes→eq (o ∷ os) user h in inl (e, λ n. absurd (cc))

owned_complete :
    (owner user ip owner_ip : List ℕ)
    → ((owner ≡ user) × (user ≢ [])) ⊎ ((owner ≡ []) × (user ≡ []) × (ip ≡ owner_ip))
    → owned owner user ip owner_ip ≡ true
owned_complete [] user ip owner_ip (inl (e, n)) = absurd (n (sym e))
owned_complete (o ∷ os) user ip owner_ip (inl (e, n)) = rw (sym e) (same_bytes_self (o ∷ os))
owned_complete owner user ip owner_ip (inr (e, n, same)) = rw (e, n, sym same) (same_bytes_self ip)

module _ (not_found denied : List ℕ → List ℕ) (unset : ℕ) (unset_flag : Bool)
    (logs : Session → List ℕ) where
  told :
      (user : List ℕ) (address : Text) (id : List ℕ) (found : Option Session)
      → (status_of not_found denied unset unset_flag logs user address id found).success ≡ true
      → (s : Session) × (found ≡ some s) × Owns user address s
  unfolding is_owner
  told user address id none h = absurd (cc)
  told user address id (some s) h = elim (Bool-cases (is_owner s user address)) [
    | inl y ↦
        (s, refl, owned_sound s.owner_user user (get_ip_only address) (get_ip_only s.owner_ip) y)
    | inr n ↦ absurd (let f = rw n at h in cc)
  ]

  may_be_told :
      (user : List ℕ) (address : Text) (id : List ℕ) (s : Session)
      → Owns user address s
      → (status_of not_found denied unset unset_flag logs user address id (some s)).success ≡ true
  unfolding is_owner
  may_be_told user address id s o =
      rw (owned_complete s.owner_user user (get_ip_only address) (get_ip_only s.owner_ip) o) refl

  -- A question for the status of a session is answered exactly if the registry has the session and the
  -- client owns it: as its user, or, for a session of no user, as no user from the same address.
  pub handle_transfer_status_request_lem :
      (registry : List Session) (user : List ℕ) (address : Text) (request : TransferStatusRequest)
      → ((handle_transfer_status_request not_found denied unset unset_flag logs registry user
            address request).success
          ≡ true)
        ↔ ((s : Session) × (get_session registry request.session_id ≡ some s) × Owns user address s)
  unfolding handle_transfer_status_request
  handle_transfer_status_request_lem registry user address request = (
    told user address request.session_id (get_session registry request.session_id),
    λ (s, found, o). rw found (may_be_told user address request.session_id s o),
  )
