-- ===== src/Node/Serve/Answered.antt =====
-- The number of answers to each caller of a connection.
use keryx_api_shim.Base.{
  ℕ, ◌+◌, ◌<◌, ◌≡◌, refl, true, false, Option, none, some, List, [], ◌∷◌, ◌++◌, arith, length, map,
  ap, ◌∙◌, inl, inr, Option-cases, ascii,
}
use keryx_api_shim.Base.Results.{Result, ok, err}
use keryx_api_shim.Base.Words.{add64, u64_mod}
use keryx_api_shim.Node.{NodeError, unreachable}
use keryx_api_shim.Node.Serve.{
  Notification, Payload, Event, Conn, fail_all, route_reply, route, refuse, serve_step, serve_loop,
  connect, command, shutdown, message, stream_error, stream_end, received, block_added_notification,
  virtual_chain_changed_notification, response, broken,
}
use keryx_api_shim.Node.Serve.Pending.{tally, waiting, waiter, waiting-put, waiting-take_out}
use keryx_api_shim.Node.Serve.Paired.{
  IsPaired, connect-IsPaired, serve_step-IsPaired, serve_step_next_id, serve_loop_induct,
  Exit-cases,
}

-- How often a caller was answered.
unfoldable pub answered : {R : Type 0} → ℕ → List (ℕ × R) → ℕ
unfolding tally
answered k [] = 0
answered k ((c, r) ∷ l) = tally c k + answered k l

module _ {R : Type 0} where
  pub answered-append :
      (k : ℕ) (xs ys : List (ℕ × R)) → answered k (xs ++ ys) ≡ answered k xs + answered k ys
  unfolding answered
  answered-append k [] ys = omega arith
  answered-append k ((c, r) ∷ xs) ys = omega (arith, answered-append k xs ys)

  answered_one :
      (k c : ℕ) (r : R) (xs : List (ℕ × R))
      → answered k (xs ++ (c, r) ∷ []) ≡ answered k xs + tally c k
  unfolding answered
  answered_one k c r xs = omega (arith, answered-append k xs ((c, r) ∷ []))

  answered_lost :
      (k : ℕ) (r : R) (l : List (ℕ × ℕ)) → answered k (map (λ p. (p.1, r)) l) ≡ waiting k l
  unfolding answered waiting
  answered_lost k r [] = refl
  answered_lost k r ((i, c) ∷ l) = omega (arith, answered_lost k r l)

-- How often a caller sends a command.
unfoldable pub asked : {Req Resp Block Chain : Type 0} → ℕ → List (Event Req Resp Block Chain) → ℕ
unfolding tally
asked k [] = 0
asked k (command payload caller sent ∷ es) = tally caller k + asked k es
asked k (shutdown ∷ es) = asked k es
asked k (message id payload ∷ es) = asked k es
asked k (stream_error ∷ es) = asked k es
asked k (stream_end ∷ es) = asked k es
asked k (received ∷ es) = asked k es

-- The events up to the one that ends the connection.
unfoldable pub consumed :
    {Req Resp Block Chain : Type 0}
    → List (Event Req Resp Block Chain)
    → List (Event Req Resp Block Chain)
consumed [] = []
consumed (command payload caller true ∷ es) = command payload caller true ∷ consumed es
consumed (command payload caller false ∷ es) = command payload caller false ∷ []
consumed (shutdown ∷ es) = shutdown ∷ []
consumed (message id payload ∷ es) = message id payload ∷ consumed es
consumed (stream_error ∷ es) = stream_error ∷ []
consumed (stream_end ∷ es) = stream_end ∷ []
consumed (received ∷ es) = received ∷ consumed es

module _ {Req Resp Block Chain : Type 0} where
  -- The answers to a caller and its commands in flight.
  abbrev pub settled : ℕ → Conn Req Resp Block Chain → ℕ
  settled k c = answered k c.replies + waiting k c.pending

  settled-route_reply :
      (k : ℕ) (result : Result NodeError (Payload Resp Block Chain)) (id : ℕ)
      (c : Conn Req Resp Block Chain)
      → settled k (route_reply result id c) ≡ settled k c
  unfolding route_reply
  settled-route_reply k result id c = elim (Option-cases (waiter id c.pending)) [
    | inl e ↦ rw (e, route_reply) refl
    | inr (j, e) ↦
        rw (e, route_reply)
          (omega (arith, answered_one k j result c.replies, waiting-take_out k id j c.pending e))
  ]

  settled-fail_all : (k : ℕ) (c : Conn Req Resp Block Chain) → settled k (fail_all c) ≡ settled k c
  unfolding fail_all waiting
  settled-fail_all k c =
      let failed : answered k (fail_all c).replies ≡ answered k c.replies + waiting k c.pending =
        answered-append k c.replies _
        ∙ ap (λ n. answered k c.replies + n) (answered_lost k _ c.pending) in
      omega (arith, failed)

  -- A round settles its command, and no other caller's.
  settled-serve_step :
      (k : ℕ) (e : Event Req Resp Block Chain) (es : List (Event Req Resp Block Chain))
      (c : Conn Req Resp Block Chain)
      → IsPaired c
      → settled k (serve_step e c).1 + asked k es ≡ settled k c + asked k (e ∷ es)
  unfolding serve_step route asked refuse
  settled-serve_step k (command payload caller true) es c h =
      omega (arith, waiting-put k c.next_id caller c.pending (h.unused c.next_id (omega arith)))
  settled-serve_step k (command payload caller false) es c h = omega (
    arith,
    settled-fail_all k (refuse caller (record c { next_id = add64 c.next_id 1 })),
    answered_one k caller (err (unreachable (ascii "node stream closed"))) c.replies,
  )
  settled-serve_step k shutdown es c h = refl
  settled-serve_step k (message id none) es c h = omega (arith, settled-route_reply k _ id c)
  settled-serve_step k (message id (some (block_added_notification none))) es c h = refl
  settled-serve_step k (message id (some (block_added_notification (some n)))) es c h = refl
  settled-serve_step k (message id (some (virtual_chain_changed_notification n))) es c h = refl
  settled-serve_step k (message id (some (response r))) es c h =
      omega (arith, settled-route_reply k (ok (response r)) id c)
  settled-serve_step k stream_error es c h = omega (arith, settled-fail_all k c)
  settled-serve_step k stream_end es c h = omega (arith, settled-fail_all k c)
  settled-serve_step k received es c h = refl

  record IsAccounted (k total : ℕ) (es : List (Event Req Resp Block Chain))
      (c : Conn Req Resp Block Chain) : Type 0 where
    bound : c.next_id + length es < u64_mod
    paired : IsPaired c
    account : settled k c + asked k es ≡ total

  serve_step-IsAccounted :
      (k total : ℕ) (e : Event Req Resp Block Chain) (es : List (Event Req Resp Block Chain))
      (c : Conn Req Resp Block Chain)
      → IsAccounted k total (e ∷ es) c
      → IsAccounted k total es (serve_step e c).1
  serve_step-IsAccounted k total e es c h =
      let small : c.next_id + 1 < u64_mod = omega (arith, h.bound) in
      record {
        bound = omega (arith, h.bound, serve_step_next_id e c small);
        paired = serve_step-IsPaired e c small h.paired;
        account = omega (arith, settled-serve_step k e es c h.paired, h.account);
      }

  -- On a connection whose events are too few for the ids to wrap, the answers to a caller, its
  -- commands in flight and its commands that the loop has not taken are together as many as its
  -- commands.
  pub settled-serve_loop :
      (k generation : ℕ) (notifications : Option (List (Notification Block Chain)))
      (es : List (Event Req Resp Block Chain))
      → length es + 1 < u64_mod
      → settled k (serve_loop es (connect generation notifications)).1
          + asked k (serve_loop es (connect generation notifications)).2
        ≡ asked k es
  unfolding connect answered waiting
  settled-serve_loop k generation notifications es b =
      let accounted =
        serve_loop_induct (IsAccounted k (asked k es)) (serve_step-IsAccounted k _) es
          (connect generation notifications)
          (record {
            bound = omega arith;
            paired = connect-IsPaired generation notifications;
            account = omega arith;
          }) in
      accounted.account

  step_broken :
      (e : Event Req Resp Block Chain) (c : Conn Req Resp Block Chain)
      → (serve_step e c).0 ≡ broken
      → (serve_step e c).1.pending ≡ []
  unfolding serve_step fail_all
  step_broken (command payload caller true) c h = absurd (ground arith)
  step_broken (command payload caller false) c h = refl
  step_broken shutdown c h = absurd (ground arith)
  step_broken (message id p) c h = absurd (ground arith)
  step_broken stream_error c h = refl
  step_broken stream_end c h = refl
  step_broken received c h = absurd (ground arith)

  loop_broken :
      (es : List (Event Req Resp Block Chain)) (c : Conn Req Resp Block Chain)
      → (serve_loop es c).0 ≡ broken
      → (serve_loop es c).1.pending ≡ []
  unfolding serve_loop
  loop_broken [] c h = absurd (ground arith)
  loop_broken (e ∷ es) c h =
      let go : (serve_loop (e ∷ es) c).0 ≡ broken → (serve_loop (e ∷ es) c).1.pending ≡ [] =
        elim (Exit-cases (serve_step e c).0) [
          | inl x ↦ rw (x, serve_loop) (λ h. loop_broken es (serve_step e c).1 h)
          | inr (inl x) ↦ rw (x, serve_loop) (λ h. absurd (ground arith))
          | inr (inr x) ↦ rw (x, serve_loop) (λ h. step_broken e c x)
        ] in
      go h

  -- The loop leaves what comes after the event that ends it.
  loop_rest :
      (k : ℕ) (es : List (Event Req Resp Block Chain)) (c : Conn Req Resp Block Chain)
      → asked k (consumed es) + asked k (serve_loop es c).2 ≡ asked k es
  unfolding consumed serve_loop serve_step asked
  loop_rest k [] c = refl
  loop_rest k (command p caller true ∷ es) c =
      omega (arith, loop_rest k es (serve_step (command p caller true) c).1)
  loop_rest k (command p caller false ∷ es) c = omega arith
  loop_rest k (shutdown ∷ es) c = omega arith
  loop_rest k (message id p ∷ es) c = omega (arith, loop_rest k es (serve_step (message id p) c).1)
  loop_rest k (stream_error ∷ es) c = omega arith
  loop_rest k (stream_end ∷ es) c = omega arith
  loop_rest k (received ∷ es) c = omega (arith, loop_rest k es (serve_step received c).1)

  -- When a connection breaks, whose events are too few for the ids to wrap, every caller has been
  -- answered exactly as often as it sent a command that the loop took.
  pub answered-serve_loop :
      (k generation : ℕ) (notifications : Option (List (Notification Block Chain)))
      (es : List (Event Req Resp Block Chain))
      → length es + 1 < u64_mod
      → (serve_loop es (connect generation notifications)).0 ≡ broken
      → answered k (serve_loop es (connect generation notifications)).1.replies
        ≡ asked k (consumed es)
  unfolding waiting
  answered-serve_loop k generation notifications es b h =
      let all = settled-serve_loop k generation notifications es b in
      let none_left = ap (waiting k) (loop_broken es (connect generation notifications) h) in
      omega (arith, all, none_left, loop_rest k es (connect generation notifications))
