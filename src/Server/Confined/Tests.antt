-- ===== src/Server/Confined/Tests.antt =====
-- A connection that gets a file, its data, and a request for a file that it may not write.
use net_copy.Common.{◌≡◌, ◌⊎◌, refl, [], ◌∷◌, true}
use net_copy.Files.Memory.{memory}
use net_copy.Server.State.{World}
use net_copy.Server.Tests.{no_text, no_lz4, some_hash, start, request_to, message, etc, srv_a}
use net_copy.Server.Request.{handle_file_request}
use net_copy.Server.Upload.{handle_file_data}
use net_copy.Server.Confined.Reached.{
  file_request, file_data, at_start, then_step, Grant, current_file_confined,
}

abbrev requested : World memory
requested = (handle_file_request memory no_text 9 [] [] (request_to srv_a) start).1

abbrev written : World memory
written = (handle_file_data memory no_text 9 no_lz4 (message 0 (1 ∷ 2 ∷ []) true) requested).1

abbrev refused : World memory
refused = (handle_file_request memory no_text 9 [] [] (request_to etc) written).1

current_file_confined_example :
    (refused.handler.current_file_path ≡ [])
    ⊎ Grant memory some_hash no_text 9 no_lz4 [] start refused
current_file_confined_example =
    current_file_confined memory some_hash no_text 9 no_lz4 [] start refused refl (
      then_step (file_request [] [] (request_to etc)) (
        then_step (file_data (message 0 (1 ∷ 2 ∷ []) true))
          (then_step (file_request [] [] (request_to srv_a)) at_start)))
