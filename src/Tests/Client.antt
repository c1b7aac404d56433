-- ===== src/Tests/Client.antt =====
-- Runs of the node client.
use keryx_api_shim.Base.{
  ℕ, ◌++◌, ◌+◌, ◌^◌, ◌<◌, ◌≡◌, refl, true, none, some, List, [], ◌∷◌, ascii, length, arith,
}
use keryx_api_shim.Base.Words.{add64}
use keryx_api_shim.Node.Serve.{
  Conn, connected, received, block_added_notification, Event, command, message, stream_end,
  response, broken, put, take_out, forward, fail_all, route_reply, route, serve_step, serve_loop,
  connect,
}
use keryx_api_shim.Node.Serve.Sourced.{AllSourced, serve_loop_replies}
use keryx_api_shim.Node.Serve.Answered.{answered, asked, consumed, answered-serve_loop}
use keryx_api_shim.Node.Actor.{Attempt, refused, opened, new_client, actor_step, actor}
use keryx_api_shim.Node.Actor.Callers.{asked_of_all, answered-actor}
-- Two callers; the first is answered, and then the stream ends.
use keryx_api_shim.Node.Serve.Queue.{Within, both, none_left, sent, serve_loop-Within}

abbrev events : List (Event ℕ ℕ ℕ ℕ)
events = command 5 1 true ∷ command 6 2 true ∷ message 1 (some (response 9)) ∷ stream_end ∷ []

abbrev attempts : List (Attempt ℕ ℕ ℕ ℕ)
attempts = refused (ascii "down") (1 ∷ []) ∷ opened events ∷ []

events_short : length events + 1 < 2 ^ 64
events_short = omega arith

events_broken : (serve_loop events (connect 1 none)).0 ≡ broken
unfolding serve_loop serve_step connect route route_reply take_out put fail_all forward add64
events_broken = refl

serve_loop_replies_example :
    AllSourced events
      (serve_loop events (connect 1 none)).1.requests
      (serve_loop events (connect 1 none)).1.replies
serve_loop_replies_example = serve_loop_replies 1 none events events_short

answered-serve_loop_example :
    answered 2 (serve_loop events (connect 1 none)).1.replies ≡ asked 2 (consumed events)
answered-serve_loop_example = answered-serve_loop 2 1 none events events_short events_broken

attempts_broken : (actor attempts (new_client none)).phase ≡ broken
unfolding actor actor_step new_client serve_loop serve_step connect route route_reply take_out put
    fail_all forward add64
attempts_broken = refl

answered-actor_example :
    answered 1 (actor attempts (new_client none)).replies ≡ asked_of_all 1 attempts
answered-actor_example = answered-actor 1 attempts none (tt, (events_short, tt)) attempts_broken

-- A connection that takes two blocks in, and of which the indexer takes one notification.
abbrev fed : Conn ℕ ℕ ℕ ℕ
fed = connect 1 (some [])

abbrev feed : List (Event ℕ ℕ ℕ ℕ)
feed =
    message 0 (some (block_added_notification (some 3)))
    ∷ received
    ∷ message 0 (some (block_added_notification (some 4)))
    ∷ []

fed-Within : Within (connected 1 ∷ []) fed.notifications
unfolding connect forward
fed-Within = (both (connected 1) (none_left []), omega arith)

serve_loop-Within_example :
    Within ((connected 1 ∷ []) ++ sent feed) (serve_loop feed fed).1.notifications
serve_loop-Within_example = serve_loop-Within feed fed (connected 1 ∷ []) fed-Within
