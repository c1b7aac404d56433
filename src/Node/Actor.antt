-- ===== src/Node/Actor.antt =====
-- `actor` of `src/node.rs`: connect, serve, and connect again.
pub mod Backoff
pub mod Callers
use keryx_api_shim.Base.{
  ℕ, ◌*◌, min, Bool, true, false, Option, none, some, List, [], ◌∷◌, ◌++◌, map, ascii, Bytes,
}
use keryx_api_shim.Base.Results.{Result, err}
use keryx_api_shim.Base.Words.{add64}
use keryx_api_shim.Node.{NodeError, unreachable}
use keryx_api_shim.Node.Serve.{
  Notification, Payload, Event, Exit, serving, stopped, broken, serve_loop, connect,
}

abbrev pub reconnect_max : ℕ
reconnect_max = 15

-- What an attempt to connect meets: no connection, with the reason and the callers that are queued;
-- a connection without a message stream; a connection and its events.
pub data Attempt (Req Resp Block Chain : Type 0) : Type 0 where
  refused : Bytes → List ℕ → Attempt Req Resp Block Chain
  unopened : Attempt Req Resp Block Chain
  opened : List (Event Req Resp Block Chain) → Attempt Req Resp Block Chain

-- The actor's variables, the delays it slept for (in seconds) and the replies it sent. It connects
-- while `phase` is `broken`; `serving` is a connection that is up, `stopped` the end of the actor.
pub record Client (Resp Block Chain : Type 0) : Type 0 where
  pub phase : Exit
  pub backoff : ℕ
  pub generation : ℕ
  pub delays : List ℕ
  pub notifications : Option (List (Notification Block Chain))
  pub replies : List (ℕ × Result NodeError (Payload Resp Block Chain))

module _ {Resp Block Chain : Type 0} where
  unfoldable pub new_client : Option (List (Notification Block Chain)) → Client Resp Block Chain
  new_client notifications = record {
    phase = broken;
    backoff = 1;
    generation = 0;
    delays = [];
    notifications = notifications;
    replies = [];
  }

module _ {Req Resp Block Chain : Type 0} where
  -- One round of the actor's loop.
  unfoldable pub actor_step :
      Attempt Req Resp Block Chain → Client Resp Block Chain → Client Resp Block Chain
  actor_step (refused e queued) a = record a {
    backoff = min (a.backoff * 2) reconnect_max;
    delays = a.delays ++ a.backoff ∷ [];
    replies =
        a.replies
        ++ map (λ c. (c, err (unreachable (ascii "cannot reach keryx node: " ++ e)))) queued;
  }
  actor_step unopened a = record a { backoff = 1; generation = add64 a.generation 1 }
  actor_step (opened es) a =
      let generation = add64 a.generation 1 in
      let r = serve_loop es (connect generation a.notifications) in
      record a {
        phase = r.0;
        backoff = 1;
        generation = generation;
        notifications = r.1.notifications;
        replies = a.replies ++ r.1.replies;
      }

  unfoldable pub actor :
      List (Attempt Req Resp Block Chain) → Client Resp Block Chain → Client Resp Block Chain
  actor [] a = a
  actor (t ∷ ts) a =
      let rest = actor ts (actor_step t a) in
      elim a.phase [ broken ↦ rest | serving ↦ a | stopped ↦ a ]
