-- ===== src/Node/Serve/Pending.antt =====
-- The callers that wait, by the ids of their requests.
use keryx_api_shim.Base.{
  ℕ, ◌+◌, ◌≡◌, refl, Option, none, some, List, [], ◌∷◌, arith, ◌==◌, if◌then◌else◌, ap, sym, ◌∙◌,
  ==_iff, Bool-cases, inl, inr,
}
use keryx_api_shim.Node.Serve.{put, take_out}

-- The caller that waits under an id.
abbrev pub waiter : ℕ → List (ℕ × ℕ) → Option ℕ
waiter i l = (take_out i l).0

-- How often a caller is in a list.
unfoldable pub tally : ℕ → ℕ → ℕ
tally caller k = if caller == k then 1 else 0

unfoldable pub waiting : ℕ → List (ℕ × ℕ) → ℕ
unfolding tally
waiting k [] = 0
waiting k ((i, c) ∷ l) = tally c k + waiting k l

-- No id is there twice.
abbrev pub Distinct : List (ℕ × ℕ) → Type 0
Distinct [] = Unit
Distinct ((i, c) ∷ l) = (waiter i l ≡ none) × Distinct l

pub waiter-put :
    (i id k : ℕ) (l : List (ℕ × ℕ))
    → waiter i (put id k l) ≡ (if id == i then some k else waiter i l)
unfolding put take_out
waiter-put i id k [] = ground arith
waiter-put i id k ((j, c) ∷ l) = ground (arith, waiter-put i id k l)

pub waiter-take_out :
    (i id : ℕ) (l : List (ℕ × ℕ))
    → Distinct l
    → waiter i (take_out id l).1 ≡ (if id == i then none else waiter i l)
unfolding take_out
waiter-take_out i id [] h = ground arith
waiter-take_out i id ((j, c) ∷ l) h = ground (arith, waiter-take_out i id l h.1, h.0)

pub Distinct-put : (id k : ℕ) (l : List (ℕ × ℕ)) → Distinct l → Distinct (put id k l)
unfolding put take_out
Distinct-put id k [] h = (refl, tt)
Distinct-put id k ((j, c) ∷ l) h = elim (Bool-cases (j == id)) [
  | inl e ↦ rw e (ap (λ i. waiter i l) (sym ((==_iff j id).0 e)) ∙ h.0, h.1)
  | inr e ↦ rw e (ground (arith, waiter-put j id k l, h.0), Distinct-put id k l h.1)
]

pub Distinct-take_out : (id : ℕ) (l : List (ℕ × ℕ)) → Distinct l → Distinct (take_out id l).1
unfolding take_out
Distinct-take_out id [] h = tt
Distinct-take_out id ((j, c) ∷ l) h = elim (Bool-cases (j == id)) [
  | inl e ↦ rw e h.1
  | inr e ↦ rw e (ground (arith, waiter-take_out j id l h.1, h.0), Distinct-take_out id l h.1)
]

pub waiting-put :
    (k id c : ℕ) (l : List (ℕ × ℕ))
    → waiter id l ≡ none
    → waiting k (put id c l) ≡ waiting k l + tally c k
unfolding put take_out waiting tally
waiting-put k id c [] h = omega arith
waiting-put k id c ((j, d) ∷ l) h = ground (arith, waiting-put k id c l)

pub waiting-take_out :
    (k id c : ℕ) (l : List (ℕ × ℕ))
    → waiter id l ≡ some c
    → waiting k l ≡ waiting k (take_out id l).1 + tally c k
unfolding take_out waiting tally
waiting-take_out k id c [] h = absurd (ground arith)
waiting-take_out k id c ((j, d) ∷ l) h = ground (arith, waiting-take_out k id c l)
