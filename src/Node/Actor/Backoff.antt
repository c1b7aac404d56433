-- ===== src/Node/Actor/Backoff.antt =====
-- The delays between the attempts to connect.
use keryx_api_shim.Base.{
  ℕ, zero, suc, ◌*◌, ◌^◌, ◌≤◌, ◌≡◌, refl, min, Option, List, [], ◌∷◌, ◌++◌, Bytes, length, arith,
  All, All-append, inl, inr, ap, sym, ◌∙◌, append_assoc, append-nil,
}
use keryx_api_shim.Node.Serve.{Notification, broken}
use keryx_api_shim.Node.Serve.Paired.{Exit-cases}
use keryx_api_shim.Node.Actor.{
  reconnect_max, Attempt, Client, new_client, actor_step, actor, refused, unopened, opened,
}

-- A delay that `actor` may sleep for.
abbrev pub IsDelay : ℕ → Type 0
IsDelay d = (1 ≤ d) × (d ≤ reconnect_max)

-- The delays of `n` failures in a row, from the one numbered `i`.
unfoldable pub schedule : ℕ → ℕ → List ℕ
schedule i zero = []
schedule i (suc n) = min (2 ^ i) reconnect_max ∷ schedule (suc i) n

module _ {Resp Block Chain : Type 0} where
  record IsPaced (a : Client Resp Block Chain) : Type 0 where
    backoff_bound : IsDelay a.backoff
    delay_bounds : All IsDelay a.delays

module _ {Req Resp Block Chain : Type 0} where
  actor_step-IsPaced :
      (t : Attempt Req Resp Block Chain) (a : Client Resp Block Chain)
      → IsPaced a
      → IsPaced (actor_step t a)
  unfolding actor_step
  actor_step-IsPaced (refused e queued) a h = record {
    backoff_bound = (omega (arith, h.backoff_bound), omega arith);
    delay_bounds =
        All-append IsDelay a.delays (a.backoff ∷ []) h.delay_bounds (h.backoff_bound, tt);
  }
  actor_step-IsPaced unopened a h = record {
    backoff_bound = (omega arith, omega arith);
    delay_bounds = h.delay_bounds;
  }
  actor_step-IsPaced (opened es) a h = record {
    backoff_bound = (omega arith, omega arith);
    delay_bounds = h.delay_bounds;
  }

  actor-IsPaced :
      (ts : List (Attempt Req Resp Block Chain)) (a : Client Resp Block Chain)
      → IsPaced a
      → IsPaced (actor ts a)
  unfolding actor
  actor-IsPaced [] a h = h
  actor-IsPaced (t ∷ ts) a h = elim (Exit-cases a.phase) [
    | inl x ↦ rw (x, actor) h
    | inr (inl x) ↦ rw (x, actor) h
    | inr (inr x) ↦ rw (x, actor) (actor-IsPaced ts (actor_step t a) (actor_step-IsPaced t a h))
  ]

  -- Every delay between two attempts is between one second and `reconnect_max`.
  pub actor_delays :
      (ts : List (Attempt Req Resp Block Chain)) (q : Option (List (Notification Block Chain)))
      → All IsDelay (actor ts (new_client q)).delays
  unfolding new_client
  actor_delays ts q =
      let paced =
        actor-IsPaced ts (new_client q)
          (record { backoff_bound = (omega arith, omega arith); delay_bounds = tt }) in
      paced.delay_bounds

module _ (Req Resp Block Chain : Type 0) where
  -- Attempts that meet no connection.
  abbrev pub refusals : List (Bytes × List ℕ) → List (Attempt Req Resp Block Chain)
  refusals [] = []
  refusals (r ∷ l) = refused r.0 r.1 ∷ refusals l

  refusals_delays :
      (l : List (Bytes × List ℕ)) (i : ℕ) (a : Client Resp Block Chain)
      → a.phase ≡ broken
      → a.backoff ≡ min (2 ^ i) reconnect_max
      → (actor (refusals l) a).delays ≡ a.delays ++ schedule i (length l)
  unfolding actor actor_step schedule
  refusals_delays [] i a p b = sym (append-nil a.delays)
  refusals_delays (r ∷ l) i a p b =
      let doubled : min (a.backoff * 2) reconnect_max ≡ min (2 ^ suc i) reconnect_max =
        omega arith in
      rw (p, actor)
        (refusals_delays l (suc i) (actor_step {Req = Req} (refused r.0 r.1) a) p doubled
          ∙ append_assoc a.delays (a.backoff ∷ []) (schedule (suc i) (length l))
          ∙ ap (λ d. a.delays ++ d ∷ schedule (suc i) (length l)) b)

  -- The delays after failures in a row double from one second on, up to `reconnect_max`.
  pub actor-refusals :
      (l : List (Bytes × List ℕ)) (q : Option (List (Notification Block Chain)))
      → (actor (refusals l) (new_client q)).delays ≡ schedule 0 (length l)
  unfolding new_client
  actor-refusals l q = refusals_delays l 0 (new_client q) refl (omega arith)
