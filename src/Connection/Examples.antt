-- ===== src/Connection/Examples.antt =====
-- Tests of a connection.
use thchaos_backend.Prelude.{none, [], ◌∷◌, List, ◌++◌, arith}
use thchaos_backend.Protocol.Payloads.{ClientRole, Payload}
use thchaos_backend.Connection.{Client, new_link}
use thchaos_backend.Connection.Sending.{
  LinkStep, sending, framing, passing, shutting, link_steps, link_steps-IsWithin, IsWithin,
}
use thchaos_backend.Connection.Order.{
  Subsequence, frame_content, item_content, all_taken, link_steps-Subsequence,
}

abbrev ping : LinkStep
ping = sending (Payload.heartbeat_ping (record { nonce = "n" })) none none

abbrev small_client : Client
small_client = record {
  id = 0;
  role = ClientRole.bot;
  room_id = "main";
  client_id = "b";
  game_instance_id = none;
  session_id = "s";
  queue_limit = 2;
  send_timeout = 2000;
}

abbrev busy : List LinkStep
busy = ping ∷ ping ∷ framing ∷ ping ∷ passing ∷ framing ∷ ping ∷ shutting ∷ []

link_steps-IsWithin_example : IsWithin small_client (link_steps small_client busy (new_link 1)).1
link_steps-IsWithin_example =
    link_steps-IsWithin small_client busy (new_link 1) (omega arith) (omega arith)

link_steps-Subsequence_example :
    Subsequence
      (frame_content (link_steps small_client busy (new_link 1)).0)
      (item_content [] ++ all_taken small_client busy (new_link 1))
link_steps-Subsequence_example = link_steps-Subsequence small_client busy (new_link 1)
