-- ===== src/Store/Ledger/Addresses.antt =====
-- A transaction's ledger names each address once.
use mathlib.Core.HLevel.{⊥_prop}
use mathlib.Core.List.Perm
use mathlib.Core.List.{
  Mem, Nodup, Nodup-nil, Nodup-cons, not-mem-nil, mem-cons_self, mem-cons_of_mem,
  eq-or-mem_of_mem-cons,
}
use mathlib.Core.Logic.Or
use keryx_api_shim.Base.{
  ℕ, ◌≢◌, Option, none, some, List, [], ◌∷◌, map, Bytes, All, bytes_eq, bytes_eq_iff, Bool-cases,
  Option-cases, inl, inr,
}
use keryx_api_shim.Address.{script_to_address}
use keryx_api_shim.Store.Types.{RawIn, RawOut, RawTx, LedgerEntry, StoredOut}
use keryx_api_shim.Store.Tables.{Deps, LedgerTables}
use keryx_api_shim.Store.Ledger.{
  Amounts, entry_or_default, add_credit, add_debit, attribute, credit_outputs, funding_output,
  debit_inputs, amounts, ledger_entry, compute_ledger,
}
use keryx_api_shim.Store.Ledger.Totals.{Distinct}

abbrev Avoids : Bytes → Amounts → Type 0
Avoids a acc = All (λ p. a ≢ p.0) acc

abbrev DistinctKeys : Amounts → Type 0
DistinctKeys [] = Unit {0}
DistinctKeys (p ∷ acc) = Avoids p.0 acc × DistinctKeys acc

Avoids-entry_or_default :
    (a addr : Bytes) (f : ℕ × ℕ → ℕ × ℕ) (acc : Amounts)
    → a ≢ addr
    → Avoids a acc
    → Avoids a (entry_or_default addr f acc)
unfolding entry_or_default
Avoids-entry_or_default a addr f [] h k = (h, tt)
Avoids-entry_or_default a addr f ((b, p) ∷ acc) h k = elim (Bool-cases (bytes_eq b addr)) [
  | inl e ↦ rw e k
  | inr e ↦ rw e (k.0, Avoids-entry_or_default a addr f acc h k.1)
]

DistinctKeys-entry_or_default :
    (addr : Bytes) (f : ℕ × ℕ → ℕ × ℕ) (acc : Amounts)
    → DistinctKeys acc
    → DistinctKeys (entry_or_default addr f acc)
unfolding entry_or_default
DistinctKeys-entry_or_default addr f [] h = (tt, tt)
DistinctKeys-entry_or_default addr f ((b, p) ∷ acc) h = elim (Bool-cases (bytes_eq b addr)) [
  | inl e ↦ rw e h
  | inr e ↦
      let other : b ≢ addr = λ q. cc ((bytes_eq_iff b addr).1 q, e) in
      rw e (
        Avoids-entry_or_default b addr f acc other h.0,
        DistinctKeys-entry_or_default addr f acc h.1,
      )
]

DistinctKeys-attribute :
    (add : ℕ → ℕ × ℕ → ℕ × ℕ) (prefix script : Bytes) (amount : ℕ) (acc : Amounts)
    → DistinctKeys acc
    → DistinctKeys (attribute add prefix script amount acc)
unfolding attribute
DistinctKeys-attribute add prefix script amount acc h =
    elim (Option-cases (script_to_address script prefix)) [
      | inl e ↦ rw (e, attribute) h
      | inr (addr, e) ↦ rw (e, attribute) (DistinctKeys-entry_or_default addr (add amount) acc h)
    ]

DistinctKeys-credit_outputs :
    (prefix : Bytes) (outs : List RawOut) (acc : Amounts)
    → DistinctKeys acc
    → DistinctKeys (credit_outputs prefix outs acc)
unfolding credit_outputs
DistinctKeys-credit_outputs prefix [] acc h = h
DistinctKeys-credit_outputs prefix (o ∷ outs) acc h =
    DistinctKeys-credit_outputs prefix outs
      (attribute add_credit prefix o.script_public_key o.amount acc)
      (DistinctKeys-attribute add_credit prefix o.script_public_key o.amount acc h)

-- The step of `debit_inputs` for one input.
abbrev debit_one : Bytes → Option StoredOut → Amounts → Amounts
debit_one prefix none acc = acc
debit_one prefix (some o) acc = attribute add_debit prefix o.script_public_key o.amount acc

module _ (d : Deps) where
  DistinctKeys-debit_one :
      (prefix : Bytes) (o : Option StoredOut) (acc : Amounts)
      → DistinctKeys acc
      → DistinctKeys (debit_one prefix o acc)
  DistinctKeys-debit_one prefix none acc h = h
  DistinctKeys-debit_one prefix (some o) acc h =
      DistinctKeys-attribute add_debit prefix o.script_public_key o.amount acc h

  DistinctKeys-debit_inputs :
      (t : LedgerTables d) (prefix : Bytes) (inps : List RawIn) (acc : Amounts)
      → DistinctKeys acc
      → DistinctKeys (debit_inputs d t prefix inps acc)
  unfolding debit_inputs
  DistinctKeys-debit_inputs t prefix [] acc h = h
  DistinctKeys-debit_inputs t prefix (inp ∷ inps) acc h =
      elim (Option-cases (funding_output d t inp)) [
        | inl e ↦ rw (e, debit_inputs) (DistinctKeys-debit_inputs t prefix inps acc h)
        | inr (o, e) ↦
            rw (e, debit_inputs)
              (DistinctKeys-debit_inputs t prefix inps
                (attribute add_debit prefix o.script_public_key o.amount acc)
                (DistinctKeys-debit_one prefix (some o) acc h))
      ]

  DistinctKeys-amounts :
      (t : LedgerTables d) (prefix : Bytes) (raw : RawTx) → DistinctKeys (amounts d t prefix raw)
  unfolding amounts
  DistinctKeys-amounts t prefix raw =
      let credited = DistinctKeys-credit_outputs prefix raw.outputs [] tt in
      elim (Bool-cases raw.is_coinbase) [
        | inl e ↦ rw e credited
        | inr e ↦ rw e (DistinctKeys-debit_inputs t prefix raw.inputs _ credited)
      ]

keys : Amounts → List Bytes
keys = map (λ p. p.0)

not-mem_of_Avoids : (a : Bytes) (acc : Amounts) → Avoids a acc → ¬ Mem a (keys acc)
unfolding keys
not-mem_of_Avoids a [] h = not-mem-nil
not-mem_of_Avoids a (p ∷ acc) h =
    λ m. Or.elim ⊥_prop (eq-or-mem_of_mem-cons m) h.0 (not-mem_of_Avoids a acc h.1)

Avoids-of_absent : (a : Bytes) (acc : Amounts) → ¬ Mem a (keys acc) → Avoids a acc
unfolding keys
Avoids-of_absent a [] h = tt
Avoids-of_absent a (p ∷ acc) h =
    (λ e. h (rw e mem-cons_self), Avoids-of_absent a acc (λ m. h (mem-cons_of_mem p.0 m)))

Nodup-keys : (acc : Amounts) → DistinctKeys acc → Nodup (keys acc)
unfolding keys
Nodup-keys [] h = Nodup-nil
Nodup-keys (p ∷ acc) h = Nodup-cons.1 (not-mem_of_Avoids p.0 acc h.0, Nodup-keys acc h.1)

DistinctKeys-keys : (acc : Amounts) → Nodup (keys acc) → DistinctKeys acc
unfolding keys
DistinctKeys-keys [] h = tt
DistinctKeys-keys (p ∷ acc) h =
    let parts = Nodup-cons.0 h in (Avoids-of_absent p.0 acc parts.0, DistinctKeys-keys acc parts.1)

module _ (d : Deps) where
  All-ledger_entry :
      (a : Bytes) (acc : Amounts)
      → Avoids a acc
      → All (λ (f : LedgerEntry). a ≢ f.address) (map (ledger_entry d) acc)
  unfolding ledger_entry
  All-ledger_entry a [] h = tt
  All-ledger_entry a (p ∷ acc) h = (h.0, All-ledger_entry a acc h.1)

  Distinct-ledger_entry : (acc : Amounts) → DistinctKeys acc → Distinct (map (ledger_entry d) acc)
  unfolding ledger_entry
  Distinct-ledger_entry [] h = tt
  Distinct-ledger_entry (p ∷ acc) h = (All-ledger_entry p.0 acc h.0, Distinct-ledger_entry acc h.1)

  -- Whatever order the map hands its entries out in, no address has two ledger entries.
  pub compute_ledger-Distinct :
      (t : LedgerTables d) (prefix : Bytes) (raw : RawTx) → Distinct (compute_ledger d t prefix raw)
  unfolding compute_ledger keys
  compute_ledger-Distinct t prefix raw =
      let acc = amounts d t prefix raw in
      Distinct-ledger_entry (d.arrange acc) (
        DistinctKeys-keys (d.arrange acc) (
          Perm.nodup (Perm.symm (Perm.map (λ p. p.0) (d.arrange_perm acc)))
            (Nodup-keys acc (DistinctKeys-amounts d t prefix raw))))
