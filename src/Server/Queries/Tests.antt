-- ===== src/Server/Queries/Tests.antt =====
-- A session of no user, asked for from another port of the same address.
use net_copy.Common.{same_bytes, ◌≡◌, ◌↔◌, refl, List, [], ◌∷◌, true, false, some}
use net_copy.Protocol.TransferStatusRequest.{TransferStatusRequest}
use net_copy.Files.Path.{Text}
use net_copy.Server.State.{Session, create_session}
use net_copy.Server.Queries.{is_owner, get_ip_only, get_session, handle_transfer_status_request}
use net_copy.Server.Queries.Owned.{Owns, handle_transfer_status_request_lem}

-- `[::1]:1` and `[::1]:22`
abbrev first_port : Text
first_port = 91 ∷ 58 ∷ 58 ∷ 49 ∷ 93 ∷ 58 ∷ 49 ∷ []

abbrev other_port : Text
other_port = 91 ∷ 58 ∷ 58 ∷ 49 ∷ 93 ∷ 58 ∷ 50 ∷ 50 ∷ []

abbrev registry : List Session
registry = create_session (7 ∷ []) [] [] [] first_port 9 ∷ []

abbrev question : TransferStatusRequest
question = record { session_id = 7 ∷ [] }

answered :
    (handle_transfer_status_request
      (λ id. id)
      (λ id. id)
      0
      false
      (λ s. [])
      registry
      []
      other_port
      question).success
    ≡ true
unfolding handle_transfer_status_request is_owner get_ip_only get_session same_bytes
answered = refl

handle_transfer_status_request_lem_example :
    ((handle_transfer_status_request
        (λ id. id)
        (λ id. id)
        0
        false
        (λ s. [])
        registry
        []
        other_port
        question).success
      ≡ true)
    ↔ ((s : Session) × (get_session registry (7 ∷ []) ≡ some s) × Owns [] other_port s)
handle_transfer_status_request_lem_example =
    handle_transfer_status_request_lem (λ id. id) (λ id. id) 0 false (λ s. []) registry []
      other_port question
