-- ===== src/Node/Serve/Queue.antt =====
-- The queue of notifications over the events of a connection.
use mathlib.Core.Option
use keryx_api_shim.Base.{
  ℕ, ◌≤◌, ◌≡◌, refl, true, false, Option, none, some, List, [], ◌∷◌, ◌++◌, append_assoc, length,
  length-append, ltb, arith, ascii, Bool-cases, Option-cases, inl, inr,
}
use keryx_api_shim.Base.Results.{Result, ok, err}
use keryx_api_shim.Node.{NodeError, protocol}
use keryx_api_shim.Node.Serve.{
  notif_queue, Notification, block_added, virtual_chain_changed, Payload, block_added_notification,
  virtual_chain_changed_notification, response, Event, command, shutdown, message, stream_error,
  stream_end, received, Conn, take_out, tail, forward, fail_all, route_reply, route, refuse,
  serve_step, serve_loop,
}

-- The first list is the second with elements left out.
pub data IsPart {A : Type 0} : List A → List A → Type 0 where
  none_left : (ys : List A) → IsPart [] ys
  both : (x : A) {xs ys : List A} → IsPart xs ys → IsPart (x ∷ xs) (x ∷ ys)
  drop_one : (y : A) {xs ys : List A} → IsPart xs ys → IsPart xs (y ∷ ys)

module _ {A : Type 0} where
  IsPart-behind : (xs ys : List A) → IsPart ys ys → IsPart ys (xs ++ ys)
  IsPart-behind [] ys h = h
  IsPart-behind (x ∷ xs) ys h = drop_one x (IsPart-behind xs ys h)

  IsPart-more : {xs ys : List A} (z : A) → IsPart xs ys → IsPart (xs ++ z ∷ []) (ys ++ z ∷ [])
  IsPart-more z (none_left ys) = IsPart-behind ys (z ∷ []) (both z (none_left []))
  IsPart-more z (both x p) = both x (IsPart-more z p)
  IsPart-more z (drop_one y p) = drop_one y (IsPart-more z p)

  IsPart-wider : {xs ys : List A} (zs : List A) → IsPart xs ys → IsPart xs (ys ++ zs)
  IsPart-wider zs (none_left ys) = none_left (ys ++ zs)
  IsPart-wider zs (both x p) = both x (IsPart-wider zs p)
  IsPart-wider zs (drop_one y p) = drop_one y (IsPart-wider zs p)

  IsPart-tail : {xs ys : List A} → IsPart xs ys → IsPart (tail xs) ys
  IsPart-tail (none_left ys) = none_left ys
  IsPart-tail (both x p) = drop_one x p
  IsPart-tail (drop_one y p) = drop_one y (IsPart-tail p)

  length-tail : (xs : List A) → length (tail xs) ≤ length xs
  length-tail [] = omega arith
  length-tail (x ∷ xs) = omega arith

-- A queue, if there is one, is a part of what was sent, in its order, and within its capacity.
abbrev pub Within : {A : Type 0} → List A → Option (List A) → Type 0
Within all none = Unit
Within all (some queue) = IsPart queue all × (length queue ≤ notif_queue)

module _ {A : Type 0} where
  tail-Within : (all : List A) (q : Option (List A)) → Within all q → Within all (Option.map tail q)
  tail-Within all none h = tt
  tail-Within all (some q) h = (IsPart-tail h.0, omega (arith, length-tail q, h.1))

  wider-Within : (all more : List A) (q : Option (List A)) → Within all q → Within (all ++ more) q
  wider-Within all more none h = tt
  wider-Within all more (some q) h = (IsPart-wider more h.0, h.1)

module _ {Block Chain : Type 0} where
  forward-Within :
      (n : Notification Block Chain) (all : List (Notification Block Chain))
      (q : Option (List (Notification Block Chain)))
      → Within all q
      → Within (all ++ n ∷ []) (forward n q)
  unfolding forward
  forward-Within n all none h = tt
  forward-Within n all (some q) h = elim (Bool-cases (ltb (length q) notif_queue)) [
    | inl e ↦ rw (e, forward) (IsPart-more n h.0, ground (arith, length-append {0} q (n ∷ [])))
    | inr e ↦ rw (e, forward) (IsPart-wider (n ∷ []) h.0, h.1)
  ]

module _ {Resp Block Chain : Type 0} where
  -- The notification in a message.
  unfoldable pub carried : Option (Payload Resp Block Chain) → List (Notification Block Chain)
  carried (some (block_added_notification (some b))) = block_added b ∷ []
  carried (some (block_added_notification none)) = []
  carried (some (virtual_chain_changed_notification n)) = virtual_chain_changed n ∷ []
  carried (some (response r)) = []
  carried none = []

module _ {Req Resp Block Chain : Type 0} where
  -- The notifications that the node sends in the events, in their order.
  unfoldable pub sent : List (Event Req Resp Block Chain) → List (Notification Block Chain)
  sent [] = []
  sent (command p c b ∷ es) = sent es
  sent (shutdown ∷ es) = sent es
  sent (message id payload ∷ es) = carried payload ++ sent es
  sent (stream_error ∷ es) = sent es
  sent (stream_end ∷ es) = sent es
  sent (received ∷ es) = sent es

  notifications-route_reply :
      (r : Result NodeError (Payload Resp Block Chain)) (id : ℕ) (c : Conn Req Resp Block Chain)
      → (route_reply r id c).notifications ≡ c.notifications
  unfolding route_reply
  notifications-route_reply r id c = elim (Option-cases (take_out id c.pending).0) [
    | inl e ↦ rw (e, route_reply) refl
    | inr (caller, e) ↦ rw (e, route_reply) refl
  ]

  route-Within :
      (p : Option (Payload Resp Block Chain)) (id : ℕ) (c : Conn Req Resp Block Chain)
      (all : List (Notification Block Chain))
      → Within all c.notifications
      → Within (all ++ carried p) (route p id c).notifications
  unfolding route carried
  route-Within (some (block_added_notification (some b))) id c all h =
      forward-Within (block_added b) all c.notifications h
  route-Within (some (block_added_notification none)) id c all h =
      wider-Within all [] c.notifications h
  route-Within (some (virtual_chain_changed_notification n)) id c all h =
      forward-Within (virtual_chain_changed n) all c.notifications h
  route-Within (some (response r)) id c all h =
      rw (notifications-route_reply (ok (response r)) id c) (wider-Within all [] c.notifications h)
  route-Within none id c all h =
      rw
        (notifications-route_reply (err (protocol (ascii "node sent an empty response payload"))) id
          c)
        (wider-Within all [] c.notifications h)

  -- Over the events of a connection the queue holds no more than 4096 notifications, and they are
  -- a part, in the order in which the node sent them, of what the queue held before and the node
  -- sent: none is made up, doubled or moved before another.
  pub serve_loop-Within :
      (es : List (Event Req Resp Block Chain)) (c : Conn Req Resp Block Chain)
      (all : List (Notification Block Chain))
      → Within all c.notifications
      → Within (all ++ sent es) (serve_loop es c).1.notifications
  unfolding serve_loop serve_step sent fail_all refuse
  serve_loop-Within [] c all h = wider-Within all [] c.notifications h
  serve_loop-Within (command p k true ∷ es) c all h =
      serve_loop-Within es (serve_step (command p k true) c).1 all h
  serve_loop-Within (command p k false ∷ es) c all h = wider-Within all (sent es) c.notifications h
  serve_loop-Within (shutdown ∷ es) c all h = wider-Within all (sent es) c.notifications h
  serve_loop-Within (message id p ∷ es) c all h =
      rw⁻¹ (append_assoc all (carried p) (sent es))
        (serve_loop-Within es (route p id c) (all ++ carried p) (route-Within p id c all h))
  serve_loop-Within (stream_error ∷ es) c all h = wider-Within all (sent es) c.notifications h
  serve_loop-Within (stream_end ∷ es) c all h = wider-Within all (sent es) c.notifications h
  serve_loop-Within (received ∷ es) c all h =
      serve_loop-Within es (serve_step received c).1 all (tail-Within all c.notifications h)
