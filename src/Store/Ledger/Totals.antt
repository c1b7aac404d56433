-- ===== src/Store/Ledger/Totals.antt =====
-- Adding a transaction's amounts to the totals and taking them off again.
use keryx_api_shim.Base.{
  ℕ, ◌+◌, ◌-◌, ◌<◌, ◌≡◌, refl, sym, ap, ap₂, ◌∙◌, ◌≢◌, ◌&&◌, some, List, [], ◌∷◌, Bytes, ◌==◌,
  if◌then◌else◌, All, or_default, arith, bytes_eq_iff, Option-cases, inl, inr,
}
use keryx_api_shim.Base.Words.{add64, add64_lem, u64_mod}
use keryx_api_shim.Redb.Laws
use keryx_api_shim.Store.Types.{LedgerEntry}
use keryx_api_shim.Store.Tables.{Deps, TextTable}
use keryx_api_shim.Store.Ledger.{read_totals, add_total, add_totals}
use keryx_api_shim.Store.Unwind.{sub_total, sub_totals}

-- No two entries have one address.
abbrev pub Distinct : List LedgerEntry → Type 0
Distinct [] = Unit {0}
Distinct (e ∷ es) = All (λ (f : LedgerEntry). e.address ≢ f.address) es × Distinct es

module _ (d : Deps) where
  open d.db use {texts}

  abbrev Totals : Type 0
  Totals = TextTable d (ℕ × ℕ)

  -- The entry can be added without overflow, and its address has no empty row.
  pub record HasRoom (t : Totals) (e : LedgerEntry) : Type 0 where
    pub received : (read_totals d t e.address).0 + e.credit < u64_mod
    pub counted : (read_totals d t e.address).1 + 1 < u64_mod
    pub not_empty : texts.get t e.address ≢ some (0, 0)

  abbrev pub AllRoom : List LedgerEntry → Totals → Type 0
  AllRoom es t = All (HasRoom t) es

  insert-insert_ne :
      {V : Type 0} (t : TextTable d V) (k j : Bytes) (v w : V)
      → k ≢ j
      → texts.insert (texts.insert t k v) j w ≡ texts.insert (texts.insert t j w) k v
  insert-insert_ne t k j v w h = texts.extensional _ _ λ i. ground (
    arith,
    texts.get-insert (texts.insert t k v) j w i,
    texts.get-insert t k v i,
    texts.get-insert (texts.insert t j w) k v i,
    texts.get-insert t j w i,
    bytes_eq_iff k i,
    bytes_eq_iff j i,
  )

  read_totals-insert_ne :
      (t : Totals) (k j : Bytes) (p : ℕ × ℕ)
      → k ≢ j
      → read_totals d (texts.insert t k p) j ≡ read_totals d t j
  unfolding read_totals
  read_totals-insert_ne t k j p h =
      ap (λ o. or_default o (0, 0)) (Laws.get-insert_ne texts t k p j h)

  read_totals-insert_self :
      (t : Totals) (k : Bytes) (p : ℕ × ℕ) → read_totals d (texts.insert t k p) k ≡ p
  unfolding read_totals
  read_totals-insert_self t k p = ap (λ o. or_default o (0, 0)) (Laws.get-insert_self texts t k p)

  get-remove_ne :
      (t : Totals) (k j : Bytes) → k ≢ j → texts.get (texts.remove t k) j ≡ texts.get t j
  get-remove_ne t k j h = ground (arith, texts.get-remove t k j, bytes_eq_iff k j)

  read_totals-remove_ne :
      (t : Totals) (k j : Bytes) → k ≢ j → read_totals d (texts.remove t k) j ≡ read_totals d t j
  unfolding read_totals
  read_totals-remove_ne t k j h = ap (λ o. or_default o (0, 0)) (get-remove_ne t k j h)

  -- Taking an entry off commutes with adding one for another address.
  sub_total-add_total_ne :
      (e f : LedgerEntry) (t : Totals)
      → e.address ≢ f.address
      → sub_total d e (add_total d f t) ≡ add_total d f (sub_total d e t)
  unfolding sub_total add_total
  sub_total-add_total_ne e f t h =
      let back : f.address ≢ e.address = λ p. h (sym p) in
      ground (
        arith,
        read_totals-insert_ne t f.address e.address
            (add64 (read_totals d t f.address).0 f.credit, add64 (read_totals d t f.address).1 1)
            back,
        read_totals-insert_ne t e.address f.address
            ((read_totals d t e.address).0 - e.credit, (read_totals d t e.address).1 - 1) h,
        read_totals-remove_ne t e.address f.address h,
        Laws.remove-insert_ne texts t f.address e.address
            (add64 (read_totals d t f.address).0 f.credit, add64 (read_totals d t f.address).1 1)
            back,
        insert-insert_ne t f.address e.address
            (add64 (read_totals d t f.address).0 f.credit, add64 (read_totals d t f.address).1 1)
            ((read_totals d t e.address).0 - e.credit, (read_totals d t e.address).1 - 1) back,
      )

  sub_total-add_totals :
      (e : LedgerEntry) (es : List LedgerEntry) (t : Totals)
      → All (λ (f : LedgerEntry). e.address ≢ f.address) es
      → sub_total d e (add_totals d es t) ≡ add_totals d es (sub_total d e t)
  unfolding add_totals
  sub_total-add_totals e [] t h = refl
  sub_total-add_totals e (f ∷ es) t h =
      sub_total-add_totals e es (add_total d f t) h.1
      ∙ ap (add_totals d es) (sub_total-add_total_ne e f t h.0)

  restore_row :
      (t : Totals) (a : Bytes)
      → texts.get t a ≢ some (0, 0)
      → (w : ℕ × ℕ)
      → (if (read_totals d t a).0 == 0 && (read_totals d t a).1 == 0
          then texts.remove (texts.insert t a w) a
          else texts.insert (texts.insert t a w) a (read_totals d t a))
        ≡ t
  unfolding read_totals
  restore_row t a h w = elim (Option-cases (texts.get t a)) [
    | inl e ↦ rw e (Laws.remove-insert texts t a w e)
    | inr ((r, c), e) ↦ ground (
      arith,
      e,
      Laws.insert-insert_self texts t a w (r, c),
      Laws.insert_present texts t a (r, c) e,
    )
  ]

  add_total_lem :
      (e : LedgerEntry) (t : Totals)
      → HasRoom t e
      → add_total d e t
        ≡ texts.insert t e.address
            ((read_totals d t e.address).0 + e.credit, (read_totals d t e.address).1 + 1)
  unfolding add_total
  add_total_lem e t h =
      let p = read_totals d t e.address in
      ap₂ (λ recv cnt. texts.insert t e.address (recv, cnt)) (add64_lem p.0 e.credit h.received)
        (add64_lem p.1 1 h.counted)

  sub_total-insert :
      (e : LedgerEntry) (t : Totals) (p w : ℕ × ℕ)
      → w.0 - e.credit ≡ p.0
      → w.1 - 1 ≡ p.1
      → sub_total d e (texts.insert t e.address w) ≡ (
          if p.0 == 0 && p.1 == 0
          then texts.remove (texts.insert t e.address w) e.address
          else texts.insert (texts.insert t e.address w) e.address p)
  unfolding sub_total
  sub_total-insert e t p w h k = ground (arith, read_totals-insert_self t e.address w)

  -- An entry that was added and is taken off leaves the totals as they were.
  sub_total-add_total :
      (e : LedgerEntry) (t : Totals) → HasRoom t e → sub_total d e (add_total d e t) ≡ t
  sub_total-add_total e t h =
      let p = read_totals d t e.address in
      ap (sub_total d e) (add_total_lem e t h)
      ∙ sub_total-insert e t p (p.0 + e.credit, p.1 + 1) (omega arith) (omega arith)
      ∙ restore_row t e.address h.not_empty (p.0 + e.credit, p.1 + 1)

  -- Subtracting the entries of a ledger from the totals gives back the totals that they were added
  -- to, when no address is in two entries and each entry could be added without overflow to a row
  -- that is not an empty one.
  pub sub_totals-add_totals :
      (es : List LedgerEntry) (t : Totals)
      → Distinct es
      → AllRoom es t
      → sub_totals d es (add_totals d es t) ≡ t
  unfolding sub_totals add_totals
  sub_totals-add_totals [] t h room = refl
  sub_totals-add_totals (e ∷ es) t h room =
      ap (sub_totals d es) (
        sub_total-add_totals e es (add_total d e t) h.0
        ∙ ap (add_totals d es) (sub_total-add_total e t room.0))
      ∙ sub_totals-add_totals es t h.1 room.1
