-- ===== src/Node/Serve/Sourced.antt =====
-- Where the answers to the callers come from.
use mathlib.Core.List.{Mem, mem-cons_of_mem, mem-cons_self}
use keryx_api_shim.Base.{
  ℕ, ◌+◌, ◌<◌, ◌≡◌, true, false, Option, none, some, List, [], ◌∷◌, ◌++◌, arith, length, map, inl,
  inr, Option-cases,
}
use keryx_api_shim.Base.Results.{Result, ok, err}
use keryx_api_shim.Base.Words.{u64_mod}
use keryx_api_shim.Node.{NodeError}
use keryx_api_shim.Node.Serve.{
  Notification, Payload, Event, Conn, fail_all, route_reply, route, refuse, serve_step, serve_loop,
  connect, command, shutdown, message, stream_error, stream_end, received, block_added_notification,
  virtual_chain_changed_notification, response,
}
use keryx_api_shim.Node.Serve.Pending.{waiter}
use keryx_api_shim.Node.Serve.Paired.{
  requester, requester-append, IsPaired, connect-IsPaired, serve_step-IsPaired, serve_step_next_id,
  serve_loop_induct,
}

module _ {Req Resp Block Chain : Type 0} where
  abbrev pub IsSourced :
      List (Event Req Resp Block Chain)
      → List (ℕ × Req × ℕ)
      → ℕ
      → Result NodeError (Payload Resp Block Chain)
      → Type 0
  IsSourced seen requests k (err e) = Unit
  IsSourced seen requests k (ok payload) =
      (i : ℕ) × Mem (message i (some payload)) seen × (requester i requests ≡ some k)

  -- Each payload handed to a caller came in a message under the id of a request of this caller.
  abbrev pub AllSourced :
      List (Event Req Resp Block Chain)
      → List (ℕ × Req × ℕ)
      → List (ℕ × Result NodeError (Payload Resp Block Chain))
      → Type 0
  AllSourced seen requests [] = Unit
  AllSourced seen requests ((k, result) ∷ l) =
      IsSourced seen requests k result × AllSourced seen requests l

  AllSourced-append :
      (seen : List (Event Req Resp Block Chain)) (requests : List (ℕ × Req × ℕ))
      (xs ys : List (ℕ × Result NodeError (Payload Resp Block Chain)))
      → AllSourced seen requests xs
      → AllSourced seen requests ys
      → AllSourced seen requests (xs ++ ys)
  AllSourced-append seen requests [] ys h k = k
  AllSourced-append seen requests ((c, ok p) ∷ xs) ys h k =
      (h.0, AllSourced-append seen requests xs ys h.1 k)
  AllSourced-append seen requests ((c, err e) ∷ xs) ys h k =
      (tt, AllSourced-append seen requests xs ys h.1 k)

  -- A further request leaves the sources as they are.
  AllSourced-requests :
      (seen : List (Event Req Resp Block Chain)) (requests : List (ℕ × Req × ℕ)) (id caller : ℕ)
      (payload : Req) (xs : List (ℕ × Result NodeError (Payload Resp Block Chain)))
      → AllSourced seen requests xs
      → AllSourced seen (requests ++ (id, payload, caller) ∷ []) xs
  AllSourced-requests seen requests id caller payload [] h = tt
  AllSourced-requests seen requests id caller payload ((c, ok p) ∷ xs) h =
      let (i, m, e) = h.0 in
      (
        (i, m, ground (arith, requester-append i id caller payload requests, e)),
        AllSourced-requests seen requests id caller payload xs h.1,
      )
  AllSourced-requests seen requests id caller payload ((c, err e) ∷ xs) h =
      (tt, AllSourced-requests seen requests id caller payload xs h.1)

  AllSourced-map :
      (seen : List (Event Req Resp Block Chain)) (requests : List (ℕ × Req × ℕ)) (e : NodeError)
      (pending : List (ℕ × ℕ))
      → AllSourced seen requests (map (λ p. (p.1, err e)) pending)
  AllSourced-map seen requests e [] = tt
  AllSourced-map seen requests e (p ∷ l) = (tt, AllSourced-map seen requests e l)

  route_reply_sourced :
      (seen : List (Event Req Resp Block Chain))
      (result : Result NodeError (Payload Resp Block Chain)) (id : ℕ)
      (c : Conn Req Resp Block Chain)
      → ((k : ℕ) → requester id c.requests ≡ some k → IsSourced seen c.requests k result)
      → IsPaired c
      → AllSourced seen c.requests c.replies
      → AllSourced seen (route_reply result id c).requests (route_reply result id c).replies
  unfolding route_reply
  route_reply_sourced seen result id c source h a = elim (Option-cases (waiter id c.pending)) [
    | inl e ↦ rw (e, route_reply) a
    | inr (k, e) ↦
        rw (e, route_reply)
          (AllSourced-append seen c.requests c.replies ((k, result) ∷ []) a
            (source k (h.held id k e), tt))
  ]

  serve_step_sourced :
      (seen : List (Event Req Resp Block Chain)) (e : Event Req Resp Block Chain)
      (c : Conn Req Resp Block Chain)
      → Mem e seen
      → IsPaired c
      → AllSourced seen c.requests c.replies
      → AllSourced seen (serve_step e c).1.requests (serve_step e c).1.replies
  unfolding serve_step route fail_all refuse
  serve_step_sourced seen (command payload caller true) c m h a =
      AllSourced-requests seen c.requests c.next_id caller payload c.replies a
  serve_step_sourced seen (command payload caller false) c m h a =
      AllSourced-append seen c.requests _ _
        (AllSourced-append seen c.requests c.replies _ a (tt, tt))
        (AllSourced-map seen c.requests _ c.pending)
  serve_step_sourced seen shutdown c m h a = a
  serve_step_sourced seen (message id none) c m h a =
      route_reply_sourced seen _ id c (λ k e. tt) h a
  serve_step_sourced seen (message id (some (block_added_notification none))) c m h a = a
  serve_step_sourced seen (message id (some (block_added_notification (some b)))) c m h a = a
  serve_step_sourced seen (message id (some (virtual_chain_changed_notification n))) c m h a = a
  serve_step_sourced seen (message id (some (response r))) c m h a =
      route_reply_sourced seen _ id c (λ k e. (id, m, e)) h a
  serve_step_sourced seen stream_error c m h a =
      AllSourced-append seen c.requests _ _ a (AllSourced-map seen c.requests _ c.pending)
  serve_step_sourced seen stream_end c m h a =
      AllSourced-append seen c.requests _ _ a (AllSourced-map seen c.requests _ c.pending)
  serve_step_sourced seen received c m h a = a

  -- What the loop keeps: ids that do not run out, the pairing, and the sources of the replies.
  record IsRouted (seen es : List (Event Req Resp Block Chain)) (c : Conn Req Resp Block Chain)
      : Type 0 where
    within : (e : Event Req Resp Block Chain) → Mem e es → Mem e seen
    bound : c.next_id + length es < u64_mod
    paired : IsPaired c
    sourced : AllSourced seen c.requests c.replies

  serve_step-IsRouted :
      (seen : List (Event Req Resp Block Chain)) (e : Event Req Resp Block Chain)
      (es : List (Event Req Resp Block Chain)) (c : Conn Req Resp Block Chain)
      → IsRouted seen (e ∷ es) c
      → IsRouted seen es (serve_step e c).1
  serve_step-IsRouted seen e es c h =
      let small : c.next_id + 1 < u64_mod = omega (arith, h.bound) in
      record {
        within = λ f m. h.within f (mem-cons_of_mem e m);
        bound = omega (arith, h.bound, serve_step_next_id e c small);
        paired = serve_step-IsPaired e c small h.paired;
        sourced = serve_step_sourced seen e c (h.within e mem-cons_self) h.paired h.sourced;
      }

  -- On a connection whose events are too few for the ids to wrap, every payload that a caller is
  -- handed came in a message of the node under the id of a request of this caller.
  pub serve_loop_replies :
      (generation : ℕ) (notifications : Option (List (Notification Block Chain)))
      (es : List (Event Req Resp Block Chain))
      → length es + 1 < u64_mod
      → AllSourced es
          (serve_loop es (connect generation notifications)).1.requests
          (serve_loop es (connect generation notifications)).1.replies
  unfolding connect
  serve_loop_replies generation notifications es b =
      let routed =
        serve_loop_induct (IsRouted es) (serve_step-IsRouted es) es
          (connect generation notifications)
          (record {
            within = λ e m. m;
            bound = omega arith;
            paired = connect-IsPaired generation notifications;
            sourced = tt;
          }) in
      routed.sourced
