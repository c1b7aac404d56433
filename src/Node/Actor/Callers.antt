-- ===== src/Node/Actor/Callers.antt =====
-- The number of answers to each caller over the reconnections.
use keryx_api_shim.Base.{
  ℕ, ◌+◌, ◌<◌, ◌≡◌, refl, Option, List, [], ◌∷◌, map, length, arith, inl, inr, All, ap, ◌∙◌,
}
use keryx_api_shim.Base.Words.{u64_mod}
use keryx_api_shim.Node.Serve.{Notification, broken}
use keryx_api_shim.Node.Serve.Pending.{tally}
use keryx_api_shim.Node.Serve.Paired.{Exit-cases}
use keryx_api_shim.Node.Serve.Answered.{
  answered, asked, consumed, answered-append, answered-serve_loop,
}
use keryx_api_shim.Node.Actor.{
  Attempt, Client, new_client, actor_step, actor, refused, unopened, opened,
}

unfoldable pub occurrences : ℕ → List ℕ → ℕ
unfolding tally
occurrences k [] = 0
occurrences k (c ∷ l) = tally c k + occurrences k l

module _ {R : Type 0} where
  answered_refused :
      (k : ℕ) (r : R) (l : List ℕ) → answered k (map (λ c. (c, r)) l) ≡ occurrences k l
  unfolding answered occurrences
  answered_refused k r [] = refl
  answered_refused k r (c ∷ l) = omega (arith, answered_refused k r l)

module _ {Req Resp Block Chain : Type 0} where
  -- The commands of a caller that an attempt deals with.
  unfoldable pub asked_of : ℕ → Attempt Req Resp Block Chain → ℕ
  unfolding asked consumed occurrences
  asked_of k (refused e queued) = occurrences k queued
  asked_of k unopened = 0
  asked_of k (opened es) = asked k (consumed es)

  unfoldable pub asked_of_all : ℕ → List (Attempt Req Resp Block Chain) → ℕ
  unfolding asked_of
  asked_of_all k [] = 0
  asked_of_all k (t ∷ ts) = asked_of k t + asked_of_all k ts

  -- A connection on which the ids of the requests do not run out.
  abbrev pub IsShort : Attempt Req Resp Block Chain → Type 0
  IsShort (refused e queued) = Unit
  IsShort unopened = Unit
  IsShort (opened es) = length es + 1 < u64_mod

  answered-actor_step :
      (k : ℕ) (t : Attempt Req Resp Block Chain) (a : Client Resp Block Chain)
      → IsShort t
      → (actor_step t a).phase ≡ broken
      → answered k (actor_step t a).replies ≡ answered k a.replies + asked_of k t
  unfolding actor_step asked_of
  answered-actor_step k (refused e queued) a s h =
      answered-append k a.replies _
      ∙ ap (λ n. answered k a.replies + n) (answered_refused k _ queued)
  answered-actor_step k unopened a s h = omega arith
  answered-actor_step k (opened es) a s h =
      answered-append k a.replies _
      ∙ ap (λ n. answered k a.replies + n) (answered-serve_loop k _ a.notifications es s h)

  -- An actor that is serving or stopped makes no attempt.
  actor_stays :
      (ts : List (Attempt Req Resp Block Chain)) (a : Client Resp Block Chain)
      → (actor ts a).phase ≡ broken
      → a.phase ≡ broken
  unfolding actor
  actor_stays [] a h = h
  actor_stays (t ∷ ts) a h =
      let go : (actor (t ∷ ts) a).phase ≡ broken → a.phase ≡ broken = elim (Exit-cases a.phase) [
        | inl x ↦ rw (x, actor) (λ h. absurd (ground arith))
        | inr (inl x) ↦ rw (x, actor) (λ h. absurd (ground arith))
        | inr (inr x) ↦ λ h. x
      ] in
      go h

  actor_account :
      (k : ℕ) (ts : List (Attempt Req Resp Block Chain)) (a : Client Resp Block Chain)
      → All IsShort ts
      → (actor ts a).phase ≡ broken
      → answered k (actor ts a).replies ≡ answered k a.replies + asked_of_all k ts
  unfolding actor asked_of_all
  actor_account k [] a s h = omega arith
  actor_account k (t ∷ ts) a s h =
      let x = actor_stays (t ∷ ts) a h in
      let go : (actor (t ∷ ts) a).phase ≡ broken
          → answered k (actor (t ∷ ts) a).replies ≡ answered k a.replies + asked_of_all k (t ∷ ts) =
        rw (x, actor)
          (λ h. omega (
            arith,
            actor_account k ts (actor_step t a) s.1 h,
            answered-actor_step k t a s.0 (actor_stays ts (actor_step t a) h),
          )) in
      go h

  -- When the actor is about to connect again, after attempts whose connections have too few events
  -- for the ids to wrap, every caller has been answered exactly as often as it sent a command that
  -- was taken, by a failed attempt or by a connection.
  pub answered-actor :
      (k : ℕ) (ts : List (Attempt Req Resp Block Chain))
      (q : Option (List (Notification Block Chain)))
      → All IsShort ts
      → (actor ts (new_client q)).phase ≡ broken
      → answered k (actor ts (new_client q)).replies ≡ asked_of_all k ts
  unfolding new_client answered
  answered-actor k ts q s h = omega (arith, actor_account k ts (new_client q) s h)
