-- ===== src/Node/Serve.antt =====
-- `serve`, `route`, `forward` and `fail_all` of `src/node.rs`: one live connection, driven by the
-- commands of the callers and the messages of the node. A caller is the number of its reply
-- channel. `Req` and `Resp` are the payloads of requests and of replies, `Block` and `Chain` those
-- of the two notifications.
pub mod Pending
pub mod Paired
pub mod Sourced
pub mod Answered
pub mod Queue
use mathlib.Core.Option
use keryx_api_shim.Base.{
  ℕ, zero, Bool, true, false, Option, none, some, List, [], ◌∷◌, ◌++◌, map, ltb, ◌==◌,
  if◌then◌else◌, length, ascii,
}
use keryx_api_shim.Base.Results.{Result, ok, err}
use keryx_api_shim.Base.Words.{add64}
use keryx_api_shim.Node.{NodeError, unreachable, protocol}

abbrev pub notif_queue : ℕ
notif_queue = 4096

pub data Notification (Block Chain : Type 0) : Type 0 where
  connected : ℕ → Notification Block Chain
  block_added : Block → Notification Block Chain
  virtual_chain_changed : Chain → Notification Block Chain

pub data Payload (Resp Block Chain : Type 0) : Type 0 where
  block_added_notification : Option Block → Payload Resp Block Chain
  virtual_chain_changed_notification : Chain → Payload Resp Block Chain
  response : Resp → Payload Resp Block Chain

-- What the loop's `select!` hands out: a command, with whether the stream took its request; the end
-- of the command channel; a message; an error of the stream; the end of the stream. Between the
-- rounds the indexer takes a notification off the queue.
pub data Event (Req Resp Block Chain : Type 0) : Type 0 where
  command : Req → ℕ → Bool → Event Req Resp Block Chain
  shutdown : Event Req Resp Block Chain
  message : ℕ → Option (Payload Resp Block Chain) → Event Req Resp Block Chain
  stream_error : Event Req Resp Block Chain
  stream_end : Event Req Resp Block Chain
  received : Event Req Resp Block Chain

-- `stopped` is `None` of the source, `broken` is `Some(())`.
pub data Exit : Type 0 where
  serving : Exit
  stopped : Exit
  broken : Exit

-- The state of the loop, with the requests written to the stream and the replies sent to callers.
pub record Conn (Req Resp Block Chain : Type 0) : Type 0 where
  pub pending : List (ℕ × ℕ)
  pub next_id : ℕ
  pub requests : List (ℕ × Req × ℕ)
  pub replies : List (ℕ × Result NodeError (Payload Resp Block Chain))
  pub notifications : Option (List (Notification Block Chain))

-- `pending.insert(id, reply)`
unfoldable pub put : ℕ → ℕ → List (ℕ × ℕ) → List (ℕ × ℕ)
put id caller [] = (id, caller) ∷ []
put id caller ((i, c) ∷ l) = if i == id then (id, caller) ∷ l else (i, c) ∷ put id caller l

-- `pending.remove(&id)`: the value and what is left.
unfoldable pub take_out : ℕ → List (ℕ × ℕ) → Option ℕ × List (ℕ × ℕ)
take_out id [] = (none, [])
take_out id ((i, c) ∷ l) =
    let rest = take_out id l in if i == id then (some c, l) else (rest.0, (i, c) ∷ rest.1)

abbrev pub tail {ℓ} : {A : Type ℓ} → List A → List A
tail [] = []
tail (x ∷ l) = l

module _ {Block Chain : Type 0} where
  -- `forward`: a full queue drops the notification, and without a consumer there is no queue.
  unfoldable pub forward :
      Notification Block Chain
      → Option (List (Notification Block Chain))
      → Option (List (Notification Block Chain))
  forward n none = none
  forward n (some queue) =
      if ltb (length queue) notif_queue then some (queue ++ n ∷ []) else some queue

module _ {Req Resp Block Chain : Type 0} where
  unfoldable pub fail_all : Conn Req Resp Block Chain → Conn Req Resp Block Chain
  fail_all c = record c {
    pending = [];
    replies =
        c.replies
        ++ map (λ p. (p.1, err (unreachable (ascii "connection to node lost")))) c.pending;
  }

  -- The last arm of `route`.
  unfoldable pub route_reply :
      Result NodeError (Payload Resp Block Chain)
      → ℕ
      → Conn Req Resp Block Chain
      → Conn Req Resp Block Chain
  route_reply result id c =
      let taken = take_out id c.pending in
      elim taken.0 [
        | none ↦ c
        | some caller ↦ record c { pending = taken.1; replies = c.replies ++ (caller, result) ∷ [] }
      ]

  unfoldable pub route :
      Option (Payload Resp Block Chain) → ℕ → Conn Req Resp Block Chain → Conn Req Resp Block Chain
  route (some (block_added_notification none)) id c = c
  route (some (block_added_notification (some block))) id c = record c {
    notifications = forward (block_added block) c.notifications;
  }
  route (some (virtual_chain_changed_notification n)) id c = record c {
    notifications = forward (virtual_chain_changed n) c.notifications;
  }
  route (some (response r)) id c = route_reply (ok (response r)) id c
  route none id c = route_reply (err (protocol (ascii "node sent an empty response payload"))) id c

  -- A caller whose request the stream did not take.
  unfoldable pub refuse : ℕ → Conn Req Resp Block Chain → Conn Req Resp Block Chain
  refuse caller c = record c {
    replies = c.replies ++ (caller, err (unreachable (ascii "node stream closed"))) ∷ [];
  }

  -- One round of the loop.
  unfoldable pub serve_step :
      Event Req Resp Block Chain → Conn Req Resp Block Chain → Exit × Conn Req Resp Block Chain
  serve_step (command payload caller true) c = (
    serving,
    record c {
      pending = put c.next_id caller c.pending;
      next_id = add64 c.next_id 1;
      requests = c.requests ++ (c.next_id, payload, caller) ∷ [];
    },
  )
  serve_step (command payload caller false) c =
      (broken, fail_all (refuse caller (record c { next_id = add64 c.next_id 1 })))
  serve_step shutdown c = (stopped, c)
  serve_step (message id payload) c = (serving, route payload id c)
  serve_step stream_error c = (broken, fail_all c)
  serve_step stream_end c = (broken, fail_all c)
  serve_step received c = (serving, record c { notifications = Option.map tail c.notifications })

  -- The loop over the events of a connection: how it left, its state, and what was not consumed.
  unfoldable pub serve_loop :
      List (Event Req Resp Block Chain)
      → Conn Req Resp Block Chain
      → Exit × Conn Req Resp Block Chain × List (Event Req Resp Block Chain)
  serve_loop [] c = (serving, c, [])
  serve_loop (e ∷ es) c =
      let r = serve_step e c in
      let rest = serve_loop es r.1 in
      elim r.0 [ serving ↦ rest | stopped ↦ (stopped, r.1, es) | broken ↦ (broken, r.1, es) ]

  -- A connection on which the message stream could be opened.
  unfoldable pub connect : ℕ → Option (List (Notification Block Chain)) → Conn Req Resp Block Chain
  connect generation notifications = record {
    pending = [];
    next_id = 1;
    requests = [];
    replies = [];
    notifications = forward (connected generation) notifications;
  }
