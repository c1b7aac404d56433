-- ===== src/Node.antt =====
-- `src/node.rs`: the errors of the client, the notifications and what a caller gets.
pub mod Serve
pub mod Actor
pub mod Client
use keryx_api_shim.Base.{ℕ, Option, none, some, Bytes, ascii, ◌++◌, length, ◌==◌, if◌then◌else◌}
use keryx_api_shim.Base.Results.{Result, ok, err}

pub data NodeError : Type 0 where
  unreachable : Bytes → NodeError
  timeout : NodeError
  rpc : Bytes → NodeError
  protocol : Bytes → NodeError

-- How the wait for a reply ends: the time is up, the sender was dropped, or a reply came.
pub data Wait (P : Type 0) : Type 0 where
  elapsed : Wait P
  dropped : Wait P
  replied : Result NodeError P → Wait P

-- `call`; `sent` tells whether the actor's queue took the command.
unfoldable pub call : {P : Type 0} → Option (Wait P) → Result NodeError P
call none = err (unreachable (ascii "node client task is gone"))
call (some elapsed) = err timeout
call (some dropped) = err (unreachable (ascii "connection to node lost"))
call (some (replied result)) = result

-- `rpc_method!`: `variant` picks the payload of the response's kind, and `error_of` the message of
-- its `error`, if it has one.
unfoldable pub rpc_method :
    {P R : Type 0}
    → Bytes
    → (P → Option R)
    → (R → Option Bytes)
    → Option (Wait P)
    → Result NodeError R
unfolding call
rpc_method name variant error_of wait = elim (call wait) [
  | err e ↦ err e
  | ok payload ↦ elim (variant payload) [
    | none ↦ err (protocol (ascii "unexpected node response for " ++ name))
    | some resp ↦ elim (error_of resp) [
      | none ↦ ok resp
      | some message ↦ if length message == 0 then ok resp else err (rpc message)
    ]
  ]
]
