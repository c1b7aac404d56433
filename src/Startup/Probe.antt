-- ===== src/Startup/Probe.antt =====
-- `startup_probe` of `src/api/mod.rs`: the node is asked until it answers, a bounded number of times.
use keryx_api_shim.Base.{
  ℕ, zero, suc, ◌+◌, ◌*◌, ◌<◌, ◌≤◌, ◌≡◌, refl, subst, List, [], ◌∷◌, ◌++◌, if◌then◌else◌, arith,
  inl, inr, ◌⊎◌,
}
use keryx_api_shim.Base.Results.{Result, ok, err, Result-cases}
use keryx_api_shim.Node.{NodeError}
use keryx_api_shim.Api.Health.{ServerInfo}

abbrev pub probe_tries : ℕ
probe_tries = 12

-- In seconds.
abbrev pub probe_pause : ℕ
probe_pause = 5

-- What the probe writes to the log.
pub data LogLine : Type 0 where
  no_utxo_index : LogLine
  not_synced : LogLine
  reachable : ServerInfo → LogLine
  not_reached : LogLine

-- The log, the number of calls, and the seconds slept.
pub record Probe : Type 0 where
  pub log : List LogLine
  pub calls : ℕ
  pub slept : ℕ

unfoldable pub probe_report : ServerInfo → List LogLine
probe_report si =
    (if si.has_utxo_index then [] else no_utxo_index ∷ [])
    ++ (if si.is_synced then [] else not_synced ∷ [])
    ++ reachable si ∷ []

-- `ask n` is the answer to the call number `n`; the first argument counts the rounds left.
unfoldable pub probe_loop : ℕ → (ℕ → Result NodeError ServerInfo) → ℕ → ℕ → Probe
probe_loop zero ask calls slept = record { log = not_reached ∷ []; calls = calls; slept = slept }
probe_loop (suc left) ask calls slept = elim (ask calls) [
  | ok si ↦ record { log = probe_report si; calls = calls + 1; slept = slept }
  | err _ ↦ probe_loop left ask (calls + 1) (slept + probe_pause)
]

unfoldable pub startup_probe : (ℕ → Result NodeError ServerInfo) → Probe
startup_probe ask = probe_loop probe_tries ask 0 0

-- The calls from `first` up to `last`, without it, fail.
abbrev pub AllFail : (ℕ → Result NodeError ServerInfo) → ℕ → ℕ → Type 0
AllFail ask first last = (n : ℕ) → first ≤ n → n < last → (e : NodeError) × (ask n ≡ err e)

-- How a probe ends that starts with the call `first`: the call `n` is the first that the node
-- answers, and the answer is reported; or no call is answered.
pub data Ends (ask : ℕ → Result NodeError ServerInfo) (first left slept : ℕ) (p : Probe)
    : Type 0 where
  answered :
      (n : ℕ) (si : ServerInfo)
      → AllFail ask first n
      → first ≤ n
      → n < first + left
      → ask n ≡ ok si
      → p.log ≡ probe_report si
      → p.calls ≡ n + 1
      → p.slept + probe_pause * first ≡ slept + probe_pause * n
      → Ends ask first left slept p
  silent :
      AllFail ask first (first + left)
      → p.log ≡ not_reached ∷ []
      → p.calls ≡ first + left
      → p.slept ≡ slept + probe_pause * left
      → Ends ask first left slept p

here_or_later : (a b : ℕ) → a ≤ b → (a ≡ b) ⊎ (a + 1 ≤ b)
here_or_later a b h = ground arith

fail_more :
    (ask : ℕ → Result NodeError ServerInfo) (first last : ℕ) (e : NodeError)
    → ask first ≡ err e
    → AllFail ask (first + 1) last
    → AllFail ask first last
fail_more ask first last e f rest n lo hi = elim (here_or_later first n lo) [
  | inl same ↦ (e, subst (λ k. ask k ≡ err e) same f)
  | inr more ↦ rest n more hi
]

probe_loop-Ends :
    (left : ℕ) (ask : ℕ → Result NodeError ServerInfo) (first slept : ℕ)
    → Ends ask first left slept (probe_loop left ask first slept)
unfolding probe_loop
probe_loop-Ends zero ask first slept =
    silent (λ n lo hi. absurd (omega arith)) refl (omega arith) (omega arith)
probe_loop-Ends (suc left) ask first slept = elim (Result-cases (ask first)) [
  | inl (si, f) ↦
      rw (f, probe_loop)
        (answered first si (λ n lo hi. absurd (omega arith)) (omega arith) (omega arith) f refl refl
          refl)
  | inr (e, f) ↦ rw (f, probe_loop) (shift f (probe_loop-Ends left ask (first + 1) (slept + 5)))
]
  where
    shift :
        {p : Probe} {e : NodeError}
        → ask first ≡ err e
        → Ends ask (first + 1) left (slept + 5) p
        → Ends ask first (suc left) slept p
    shift {p} {e} f (answered n si fails lo hi a log calls slept') =
        answered n si (fail_more ask first n e f fails) (omega arith) (omega arith) a log calls
          (omega arith)
    shift {p} {e} f (silent fails log calls slept') =
        silent (λ n lo hi. fail_more ask first (first + 1 + left) e f fails n lo (omega arith)) log
          (omega arith) (omega arith)

-- The probe ends: with the report of the first answer of the node if one of the first twelve
-- calls is answered, after one call more than failed and five seconds for each that failed, and
-- otherwise after twelve calls and sixty seconds, with the warning that the node was not reached.
pub startup_probe-Ends :
    (ask : ℕ → Result NodeError ServerInfo) → Ends ask 0 12 0 (startup_probe ask)
unfolding startup_probe
startup_probe-Ends ask = probe_loop-Ends 12 ask 0 0
