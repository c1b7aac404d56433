-- ===== src/Store/Tables.antt =====
-- The tables of the index, grouped by what maintains them, and what the store takes from outside.
use mathlib.Core.List.{Perm}
use keryx_api_shim.Base.{ℕ, none, some, List, Bytes, ascii, or_default}
use keryx_api_shim.Redb.Defs.{Redb}
use keryx_api_shim.Store.Types.{
  IndexedTx, HistRow, AiRequestRec, AiRequestRecV1, AiResponseRec, AiResponseRecV1, AiChallengeRec,
  Compat,
}

-- What is not in this repository: the database, the digests, and the order in which a `HashMap`
-- hands out its entries.
pub record Deps : Type 1 where
  pub db : Redb
  pub blake2b : Bytes → Bytes
  pub base58 : Bytes → Bytes
  pub arrange : {A : Type 0} → List A → List A
  pub arrange_perm : {A : Type 0} (l : List A) → Perm (arrange l) l

module _ (d : Deps) where
  abbrev pub NumTable : Type 0 → Type 0
  NumTable V = d.db.nums.Table V

  abbrev pub TextTable : Type 0 → Type 0
  TextTable V = d.db.texts.Table V

-- The rows of the transactions.
pub record LedgerTables (d : Deps) : Type 0 where
  pub tx : NumTable d IndexedTx
  pub tx_by_id : TextTable d ℕ
  pub addr_history : TextTable d HistRow
  pub addr_totals : TextTable d (ℕ × ℕ)
  pub outpoint_spend : TextTable d ℕ

-- The rows of the chain blocks.
pub record BlockTables (d : Deps) : Type 0 where
  pub applied : TextTable d ℕ
  pub chain_by_daa : TextTable d Bytes
  pub accepted_by : TextTable d (List ℕ)

-- The rows of the AI inference subsystem.
pub record AiTables (d : Deps) : Type 0 where
  pub ai_req : NumTable d (Compat AiRequestRec AiRequestRecV1)
  pub ai_req_by_hash : TextTable d ℕ
  pub ai_resp : TextTable d (Compat AiResponseRec AiResponseRecV1)
  pub ai_resp_list : TextTable d (Unit {0})
  pub ai_resp_hash : TextTable d Bytes
  pub ai_chal : NumTable d AiChallengeRec
  pub ai_caps : TextTable d ℕ

pub record Tables (d : Deps) : Type 0 where
  pub ledger : LedgerTables d
  pub blocks : BlockTables d
  pub ai : AiTables d
  pub meta : TextTable d ℕ
  pub meta_str : TextTable d Bytes

-- A store: the committed tables, and the address prefix of its network.
pub record Store (d : Deps) : Type 0 where
  pub tables : Tables d
  pub prefix : Bytes

abbrev pub schema_version : ℕ
schema_version = 1

module _ (d : Deps) where
  open d.db use {nums, texts}

  -- The tables of a file that was just created.
  unfoldable pub no_tables : Tables d
  no_tables = record {
    ledger = record {
      tx = nums.create IndexedTx;
      tx_by_id = texts.create ℕ;
      addr_history = texts.create HistRow;
      addr_totals = texts.create (ℕ × ℕ);
      outpoint_spend = texts.create ℕ;
    };
    blocks = record {
      applied = texts.create ℕ;
      chain_by_daa = texts.create Bytes;
      accepted_by = texts.create (List ℕ);
    };
    ai = record {
      ai_req = nums.create (Compat AiRequestRec AiRequestRecV1);
      ai_req_by_hash = texts.create ℕ;
      ai_resp = texts.create (Compat AiResponseRec AiResponseRecV1);
      ai_resp_list = texts.create (Unit {0});
      ai_resp_hash = texts.create Bytes;
      ai_chal = nums.create AiChallengeRec;
      ai_caps = texts.create ℕ;
    };
    meta = texts.create ℕ;
    meta_str = texts.create Bytes;
  }

  -- `Store::open` on the tables that the file holds (`no_tables` for a new file): the schema
  -- version is stamped unless it is there.
  unfoldable pub open_store : Tables d → Bytes → Store d
  open_store t network_prefix = elim (texts.get t.meta (ascii "schema")) [
    | none ↦ record {
      tables = record t { meta = texts.insert t.meta (ascii "schema") schema_version };
      prefix = network_prefix;
    }
    | some _ ↦ record { tables = t; prefix = network_prefix }
  ]

  -- `meta.get(key)?.map(|g| g.value()).unwrap_or(0)`
  unfoldable pub meta_or_zero : Tables d → Bytes → ℕ
  meta_or_zero t key = or_default (texts.get t.meta key) 0
