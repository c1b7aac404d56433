-- ===== src/Node/Serve/Paired.antt =====
-- The waiting callers and the requests that they sent.
use keryx_api_shim.Base.{
  ℕ, ◌+◌, ◌≤◌, ◌<◌, ◌≡◌, ◌⊎◌, refl, true, false, Option, none, some, List, [], ◌∷◌, ◌++◌, arith,
  ◌==◌, if◌then◌else◌, or_else, inl, inr, Option-cases,
}
use keryx_api_shim.Base.Results.{Result, ok}
use keryx_api_shim.Base.Words.{add64, add64_lem, u64_mod}
use keryx_api_shim.Node.{NodeError}
use keryx_api_shim.Node.Serve.{
  Payload, Event, Conn, Exit, take_out, fail_all, route_reply, route, refuse, serve_step,
  serve_loop, connect, command, shutdown, message, stream_error, stream_end, received,
  block_added_notification, virtual_chain_changed_notification, response, serving, stopped, broken,
}
use keryx_api_shim.Node.Serve.Pending.{
  waiter, Distinct, waiter-put, waiter-take_out, Distinct-put, Distinct-take_out,
}

-- The caller of the request with an id.
unfoldable pub requester : {Req : Type 0} → ℕ → List (ℕ × Req × ℕ) → Option ℕ
requester i [] = none
requester i ((j, payload, caller) ∷ l) =
    let rest = requester i l in if j == i then some caller else rest

pub Exit-cases : (x : Exit) → (x ≡ serving) ⊎ (x ≡ stopped) ⊎ (x ≡ broken)
Exit-cases serving = inl refl
Exit-cases stopped = inr (inl refl)
Exit-cases broken = inr (inr refl)

module _ {Req : Type 0} where
  pub requester-append :
      (i id k : ℕ) (payload : Req) (l : List (ℕ × Req × ℕ))
      → requester i (l ++ (id, payload, k) ∷ [])
        ≡ or_else (requester i l) (if id == i then some k else none)
  unfolding requester
  requester-append i id k payload [] = ground arith
  requester-append i id k payload ((j, p, c) ∷ l) =
      ground (arith, requester-append i id k payload l)

module _ {Req Resp Block Chain : Type 0} where
  -- A caller waits under the id of its own request, and the next id is new.
  pub record IsPaired (c : Conn Req Resp Block Chain) : Type 0 where
    pub held : (i k : ℕ) → waiter i c.pending ≡ some k → requester i c.requests ≡ some k
    pub unused : (i : ℕ) → c.next_id ≤ i → waiter i c.pending ≡ none
    pub unasked : (i : ℕ) → c.next_id ≤ i → requester i c.requests ≡ none
    pub once : Distinct c.pending

  pub connect-IsPaired : (generation : ℕ) (q : _) → IsPaired (connect generation q)
  unfolding connect requester take_out
  connect-IsPaired generation q = record {
    held = λ i k e. absurd (ground arith);
    unused = λ i h. refl;
    unasked = λ i h. refl;
    once = tt;
  }

  pub route_reply-IsPaired :
      (result : Result NodeError (Payload Resp Block Chain)) (id : ℕ)
      (c : Conn Req Resp Block Chain)
      → IsPaired c
      → IsPaired (route_reply result id c)
  unfolding route_reply
  route_reply-IsPaired result id c h = elim (Option-cases (waiter id c.pending)) [
    | inl e ↦ rw (e, route_reply) h
    | inr (k, e) ↦
        rw (e, route_reply)
          (record {
            held = λ i j f. ground (arith, h.held i j, waiter-take_out i id c.pending h.once);
            unused = λ i f. ground (arith, h.unused i f, waiter-take_out i id c.pending h.once);
            unasked = h.unasked;
            once = Distinct-take_out id c.pending h.once;
          })
  ]

  pub fail_all-IsPaired : (c : Conn Req Resp Block Chain) → IsPaired c → IsPaired (fail_all c)
  unfolding fail_all take_out
  fail_all-IsPaired c h = record {
    held = λ i k e. absurd (ground arith);
    unused = λ i f. refl;
    unasked = h.unasked;
    once = tt;
  }

  -- The bookkeeping of a request that was written to the stream.
  command-IsPaired :
      (payload : Req) (caller : ℕ) (c : Conn Req Resp Block Chain)
      → c.next_id + 1 < u64_mod
      → IsPaired c
      → IsPaired (serve_step (command payload caller true) c).1
  unfolding serve_step
  command-IsPaired payload caller c b h = rw (add64_lem c.next_id 1 b) (record {
    held = λ i k e. ground (
      arith,
      e,
      h.held i k,
      h.unasked i,
      waiter-put i c.next_id caller c.pending,
      requester-append i c.next_id caller payload c.requests,
    );
    unused =
        λ i f. ground (arith, h.unused i (omega arith), waiter-put i c.next_id caller c.pending);
    unasked = λ i f.
        ground (
          arith,
          h.unasked i (omega arith),
          requester-append i c.next_id caller payload c.requests,
        );
    once = Distinct-put c.next_id caller c.pending h.once;
  })

  route-IsPaired :
      (payload : Option (Payload Resp Block Chain)) (id : ℕ) (c : Conn Req Resp Block Chain)
      → IsPaired c
      → IsPaired (route payload id c)
  unfolding route
  route-IsPaired none id c h = route_reply-IsPaired _ id c h
  route-IsPaired (some (block_added_notification none)) id c h = h
  route-IsPaired (some (block_added_notification (some b))) id c h = record {
    held = h.held;
    unused = h.unused;
    unasked = h.unasked;
    once = h.once;
  }
  route-IsPaired (some (virtual_chain_changed_notification n)) id c h = record {
    held = h.held;
    unused = h.unused;
    unasked = h.unasked;
    once = h.once;
  }
  route-IsPaired (some (response r)) id c h = route_reply-IsPaired _ id c h

  refuse-IsPaired :
      (caller : ℕ) (c : Conn Req Resp Block Chain)
      → c.next_id + 1 < u64_mod
      → IsPaired c
      → IsPaired (refuse caller (record c { next_id = add64 c.next_id 1 }))
  unfolding refuse
  refuse-IsPaired caller c b h = rw (add64_lem c.next_id 1 b) (record {
    held = h.held;
    unused = λ i f. h.unused i (omega arith);
    unasked = λ i f. h.unasked i (omega arith);
    once = h.once;
  })

  pub serve_step-IsPaired :
      (e : Event Req Resp Block Chain) (c : Conn Req Resp Block Chain)
      → c.next_id + 1 < u64_mod
      → IsPaired c
      → IsPaired (serve_step e c).1
  unfolding serve_step
  serve_step-IsPaired (command payload caller true) c b h = command-IsPaired payload caller c b h
  serve_step-IsPaired (command payload caller false) c b h =
      fail_all-IsPaired _ (refuse-IsPaired caller c b h)
  serve_step-IsPaired shutdown c b h = h
  serve_step-IsPaired (message id payload) c b h = route-IsPaired payload id c h
  serve_step-IsPaired stream_error c b h = fail_all-IsPaired c h
  serve_step-IsPaired stream_end c b h = fail_all-IsPaired c h
  serve_step-IsPaired received c b h = record {
    held = h.held;
    unused = h.unused;
    unasked = h.unasked;
    once = h.once;
  }

  next_id-route_reply :
      (result : Result NodeError (Payload Resp Block Chain)) (id : ℕ)
      (c : Conn Req Resp Block Chain)
      → (route_reply result id c).next_id ≡ c.next_id
  unfolding route_reply
  next_id-route_reply result id c = elim (Option-cases (waiter id c.pending)) [
    | inl e ↦ rw (e, route_reply) refl
    | inr (k, e) ↦ rw (e, route_reply) refl
  ]

  -- A round hands out one id at most.
  pub serve_step_next_id :
      (e : Event Req Resp Block Chain) (c : Conn Req Resp Block Chain)
      → c.next_id + 1 < u64_mod
      → (serve_step e c).1.next_id ≤ c.next_id + 1
  unfolding serve_step route fail_all refuse
  serve_step_next_id (command payload caller true) c b = omega (arith, add64_lem c.next_id 1 b)
  serve_step_next_id (command payload caller false) c b = omega (arith, add64_lem c.next_id 1 b)
  serve_step_next_id shutdown c b = omega arith
  serve_step_next_id (message id none) c b = omega (arith, next_id-route_reply _ id c)
  serve_step_next_id (message id (some (block_added_notification none))) c b = omega arith
  serve_step_next_id (message id (some (block_added_notification (some n)))) c b = omega arith
  serve_step_next_id (message id (some (virtual_chain_changed_notification n))) c b = omega arith
  serve_step_next_id (message id (some (response r))) c b =
      omega (arith, next_id-route_reply (ok (response r)) id c)
  serve_step_next_id stream_error c b = omega arith
  serve_step_next_id stream_end c b = omega arith
  serve_step_next_id received c b = omega arith

  -- What every round keeps holds where the loop ends, of the events that are left.
  pub serve_loop_induct :
      (P : List (Event Req Resp Block Chain) → Conn Req Resp Block Chain → Type 0)
      → ((e : Event Req Resp Block Chain) (es : List (Event Req Resp Block Chain))
            (c : Conn Req Resp Block Chain)
          → P (e ∷ es) c
          → P es (serve_step e c).1)
      → (es : List (Event Req Resp Block Chain)) → (c : Conn Req Resp Block Chain) → P es c
      → P (serve_loop es c).2 (serve_loop es c).1
  unfolding serve_loop
  serve_loop_induct P step [] c h = h
  serve_loop_induct P step (e ∷ es) c h = elim (Exit-cases (serve_step e c).0) [
    | inl x ↦ rw (x, serve_loop) (serve_loop_induct P step es (serve_step e c).1 (step e es c h))
    | inr (inl x) ↦ rw (x, serve_loop) (step e es c h)
    | inr (inr x) ↦ rw (x, serve_loop) (step e es c h)
  ]
