-- ===== src/Cache/Freshness.antt =====
-- What concurrent callers of one cell are served, at any interleaving of their steps.
use mathlib.Core.List.{Mem, mem-cons_of_mem, mem-cons_self}
use keryx_api_shim.Base.{
  ℕ, ◌+◌, ◌-◌, ◌≤◌, ◌<◌, ◌≡◌, refl, subst, inl, inr, Option, none, some, List, [], ◌∷◌, ◌++◌, ltb,
  All, arith, Bool-cases,
}
use keryx_api_shim.Cache.{TtlCell, new_cell, fresh, store_at}

-- The clock, the cell, the callers whose `init` is running, those whose `init` succeeded and who
-- wait for the lock, with the instant that they took and the value, and the logs: the successful ends
-- of an `init`, the values that callers were served from the cell, and those that callers returned
-- of their own, each with its time, the last one first.
pub record World (T : Type 0) : Type 0 where
  pub now : ℕ
  pub cell : TtlCell T
  pub running : ℕ
  pub waiting : List (ℕ × T)
  pub inits : List (ℕ × T)
  pub served : List (ℕ × T)
  pub returned : List (ℕ × T)

-- One step of the clock or of a caller. In `store` the instant is taken before the wait for the
-- lock, so that the write comes later, in any order among those who wait.
pub data Step {T : Type 0} (w u : World T) : Type 0 where
  tick : (n : ℕ) → u ≡ record w { now = w.now + n } → Step w u
  hit :
      (value : T)
      → fresh w.now w.cell ≡ some value
      → u ≡ record w { served = (w.now, value) ∷ w.served }
      → Step w u
  miss : fresh w.now w.cell ≡ none → u ≡ record w { running = w.running + 1 } → Step w u
  init_ok :
      (value : T)
      → 0 < w.running
      → u ≡ record w {
        running = w.running - 1;
        waiting = (w.now, value) ∷ w.waiting;
        inits = (w.now, value) ∷ w.inits;
      }
      → Step w u
  write :
      (before after : List (ℕ × T)) (at : ℕ) (value : T)
      → w.waiting ≡ before ++ (at, value) ∷ after
      → u ≡ record w {
        cell = store_at at value w.cell;
        waiting = before ++ after;
        returned = (w.now, value) ∷ w.returned;
      }
      → Step w u
  init_err : 0 < w.running → u ≡ record w { running = w.running - 1 } → Step w u

pub data Reach {T : Type 0} (s : World T) : World T → Type 0 where
  here : Reach s s
  next : {w u : World T} → Reach s w → Step w u → Reach s u

unfoldable pub start : {T : Type 0} → ℕ → ℕ → World T
start now ttl = record {
  now = now;
  cell = new_cell ttl;
  running = 0;
  waiting = [];
  inits = [];
  served = [];
  returned = [];
}

-- A value came from an `init` that succeeded at the time `at`, or before the time `t`.
abbrev pub IsMade : {T : Type 0} → List (ℕ × T) → ℕ → ℕ × T → Type 0
IsMade inits t e = Mem e inits × (e.0 ≤ t)

-- A value that is served at the time `t` was made less than `ttl` before it.
pub record IsFresh {T : Type 0} (ttl : ℕ) (inits : List (ℕ × T)) (e : ℕ × T) : Type 0 where
  pub at : ℕ
  pub made : IsMade inits e.0 (at, e.1)
  pub young : e.0 - at < ttl

-- A value that a caller returns of its own was made before.
pub record IsOwn {T : Type 0} (inits : List (ℕ × T)) (e : ℕ × T) : Type 0 where
  pub at : ℕ
  pub made : IsMade inits e.0 (at, e.1)

All-map :
    {T : Type 0} (P Q : ℕ × T → Type 0) (l : List (ℕ × T))
    → ((e : ℕ × T) → P e → Q e)
    → All P l
    → All Q l
All-map P Q [] f h = tt
All-map P Q (e ∷ l) f h = (f e h.0, All-map P Q l f h.1)

All-drop_one :
    {T : Type 0} (P : ℕ × T → Type 0) (before after : List (ℕ × T)) (e : ℕ × T)
    → All P (before ++ e ∷ after)
    → P e × All P (before ++ after)
All-drop_one P [] after e h = h
All-drop_one P (x ∷ before) after e h =
    let rest = All-drop_one P before after e h.1 in (rest.0, (h.0, rest.1))

module _ {T : Type 0} where
  -- The slot and those who wait have values that an `init` made.
  pub record IsSound (ttl : ℕ) (w : World T) : Type 0 where
    pub same_ttl : w.cell.ttl ≡ ttl
    pub slot_made :
        (at : ℕ) (value : T) → w.cell.slot ≡ some (at, value) → IsMade w.inits w.now (at, value)
    pub waiting_made : All (IsMade w.inits w.now) w.waiting
    pub served_fresh : All (IsFresh ttl w.inits) w.served
    pub returned_own : All (IsOwn w.inits) w.returned

  fresh_slot :
      (now ttl : ℕ) (slot : Option (ℕ × T)) (value : T)
      → fresh now (record { ttl = ttl; slot = slot }) ≡ some value
      → (at : ℕ) × (slot ≡ some (at, value)) × (now - at < ttl)
  unfolding fresh
  fresh_slot now ttl none value h = absurd (ground arith)
  fresh_slot now ttl (some (at, v)) value h = elim (Bool-cases (ltb (now - at) ttl)) [
    | inl e ↦ (at, ground (arith, e), ground arith)
    | inr e ↦ absurd (ground (arith, e))
  ]

  start-IsSound : (now ttl : ℕ) → IsSound ttl (start now ttl)
  unfolding start new_cell
  start-IsSound now ttl = record {
    same_ttl = refl;
    slot_made = λ at value e. absurd (ground arith);
    waiting_made = tt;
    served_fresh = tt;
    returned_own = tt;
  }

  later :
      (inits : List (ℕ × T)) (now n : ℕ) (e : ℕ × T) → IsMade inits now e → IsMade inits (now + n) e
  later inits now n e h = (h.0, omega (arith, h.1))

  one_more :
      (inits : List (ℕ × T)) (now : ℕ) (x e : ℕ × T) → IsMade inits now e → IsMade (x ∷ inits) now e
  one_more inits now x e h = (mem-cons_of_mem x h.0, h.1)

  Step-IsSound : (ttl : ℕ) (w u : World T) → IsSound ttl w → Step w u → IsSound ttl u
  unfolding store_at
  Step-IsSound ttl w u h (tick n e) = rw e (record {
    same_ttl = h.same_ttl;
    slot_made = λ at value s. later w.inits w.now n (at, value) (h.slot_made at value s);
    waiting_made = All-map _ _ w.waiting (later w.inits w.now n) h.waiting_made;
    served_fresh = h.served_fresh;
    returned_own = h.returned_own;
  })
  Step-IsSound ttl w u h (hit value f e) =
      let (at, s, young) = fresh_slot w.now w.cell.ttl w.cell.slot value f in
      rw e (record {
        same_ttl = h.same_ttl;
        slot_made = h.slot_made;
        waiting_made = h.waiting_made;
        served_fresh = (
          record {
            at = at;
            made = h.slot_made at value s;
            young = omega (arith, young, h.same_ttl);
          },
          h.served_fresh,
        );
        returned_own = h.returned_own;
      })
  Step-IsSound ttl w u h (miss f e) = rw e (record {
    same_ttl = h.same_ttl;
    slot_made = h.slot_made;
    waiting_made = h.waiting_made;
    served_fresh = h.served_fresh;
    returned_own = h.returned_own;
  })
  Step-IsSound ttl w u h (init_ok value r e) =
      let x : ℕ × T = (w.now, value) in
      rw e (record {
        same_ttl = h.same_ttl;
        slot_made = λ at v s. one_more w.inits w.now x (at, v) (h.slot_made at v s);
        waiting_made = (
          (mem-cons_self, omega arith),
          All-map _ _ w.waiting (one_more w.inits w.now x) h.waiting_made,
        );
        served_fresh =
            All-map (IsFresh ttl w.inits) (IsFresh ttl (x ∷ w.inits)) w.served
              (λ p k. record {
                at = k.at;
                made = one_more w.inits p.0 x (k.at, p.1) k.made;
                young = k.young;
              })
              h.served_fresh;
        returned_own =
            All-map (IsOwn w.inits) (IsOwn (x ∷ w.inits)) w.returned
              (λ p k. record { at = k.at; made = one_more w.inits p.0 x (k.at, p.1) k.made })
              h.returned_own;
      })
  Step-IsSound ttl w u h (write before after at value s e) =
      let out =
        All-drop_one (IsMade w.inits w.now) before after (at, value)
          (subst (All (IsMade w.inits w.now)) s h.waiting_made) in
      rw e (record {
        same_ttl = h.same_ttl;
        slot_made = λ a v k.
            let same : ◌≡◌ {A = ℕ × T} (at, value) (a, v) = cc in
            subst (IsMade w.inits w.now) same out.0;
        waiting_made = out.1;
        served_fresh = h.served_fresh;
        returned_own = (record { at = at; made = out.0 }, h.returned_own);
      })
  Step-IsSound ttl w u h (init_err r e) = rw e (record {
    same_ttl = h.same_ttl;
    slot_made = h.slot_made;
    waiting_made = h.waiting_made;
    served_fresh = h.served_fresh;
    returned_own = h.returned_own;
  })

  Reach-IsSound : (ttl : ℕ) {s w : World T} → IsSound ttl s → Reach s w → IsSound ttl w
  Reach-IsSound ttl h here = h
  Reach-IsSound ttl h (next {w} {u} r st) = Step-IsSound ttl w u (Reach-IsSound ttl h r) st

  -- At any interleaving of callers, of their waits for the lock and of the clock, from an empty
  -- cell on, every value that a caller is served from the cell was made by an `init` that
  -- succeeded less than the cell's time to live before, and every value that a caller returns of
  -- its own was made by an `init` that succeeded before.
  pub served_fresh_lem :
      (now ttl : ℕ) (w : World T)
      → Reach (start now ttl) w
      → All (IsFresh ttl w.inits) w.served × All (IsOwn w.inits) w.returned
  served_fresh_lem now ttl w r =
      let sound = Reach-IsSound ttl (start-IsSound now ttl) r in
      (sound.served_fresh, sound.returned_own)
