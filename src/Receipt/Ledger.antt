-- ===== src/Receipt/Ledger.antt =====
-- The ledger of an arm, one entry for each receipt: crates/lictor-receipt/src/ledger.rs. The digest
-- of an entry with an empty `hash` is a parameter. Reading and writing the file is not modelled.
pub mod Grown
use Prim.Native.String.{String}
use lictor.Prelude.{
  ℕ, suc, ◌+◌, ◌%◌, ◌^◌, Bool, true, false, not, ◌&&◌, ◌||◌, Option, none, some, List, [], ◌∷◌,
  ◌++◌, length, if◌then◌else◌, ltb, ◌==◌, same_text,
}
use lictor.Receipt.Tick.{Links, zero_hash, break_from}
use lictor.Receipt.Body.{ReceiptBody}
use lictor.Receipt.Signed.{Signed}

pub record LedgerEntry : Type 0 where
  pub seq : ℕ
  pub run_id : String
  pub arm_id : String
  pub episode_index : ℕ
  pub seed : ℕ
  pub init_state_digest : String
  pub receipt_digest : String
  pub verdict_chain_head : String
  pub success : Bool
  pub fuse_ok : Bool
  pub tripped : Bool
  pub stopped : Bool
  pub escalated : Bool
  pub prev : String
  pub hash : String

pub record LedgerReport : Type 0 where
  pub chain_ok : Bool
  pub break_at : Option ℕ
  pub episodes : ℕ
  pub successes : ℕ
  pub trips : ℕ
  pub stops : ℕ
  pub escalations : ℕ
  pub head : String

-- What the loop over the entries counts.
pub record LedgerSums : Type 0 where
  pub successes : ℕ
  pub trips : ℕ
  pub stops : ℕ
  pub escalations : ℕ

abbrev pub no_sums : LedgerSums
no_sums = record { successes = 0; trips = 0; stops = 0; escalations = 0 }

-- `n += u32::from(b)`, as a release build adds.
abbrev pub add_flag : ℕ → Bool → ℕ
add_flag n b = if b then (n + 1) % 2 ^ 32 else n

abbrev pub is_set {ℓ} : {A : Type ℓ} → Option A → Bool
is_set none = false
is_set (some a) = true

abbrev pub is_unbroken : Option ℕ → Bool
is_unbroken none = true
is_unbroken (some b) = false

unfoldable pub count_entry : LedgerSums → LedgerEntry → LedgerSums
count_entry n e = record {
  successes = add_flag n.successes e.success;
  trips = add_flag n.trips e.tripped;
  stops = add_flag n.stops e.stopped;
  escalations = add_flag n.escalations e.escalated;
}

module _ (digest_of : LedgerEntry → String) where
  unfoldable pub ledger_recompute_hash : LedgerEntry → String
  ledger_recompute_hash e = digest_of (record e { hash = "" })

  unfoldable pub ledger_entry : {F : Type 0} → String → ℕ → Signed (ReceiptBody F) → LedgerEntry
  ledger_entry prev seq sr =
      let b = sr.body in
      let e : LedgerEntry = record {
        seq = seq;
        run_id = b.run.run_id;
        arm_id = b.run.arm_id;
        episode_index = b.run.episode_index;
        seed = b.run.seed;
        init_state_digest = b.run.init_state_digest;
        receipt_digest = sr.body_digest;
        verdict_chain_head = b.verdict_chain_head;
        success = b.outcome.success;
        fuse_ok = b.fuse_ok;
        tripped = is_set b.counts.first_trip_tick;
        stopped = is_set b.counts.first_stop_tick;
        escalated = ltb 0 b.counts.escalations || is_set b.counts.handoff_tick;
        prev = prev;
        hash = "";
      } in
      record e { hash = digest_of e }

  -- What the loop compares of an entry.
  unfoldable pub ledger_links : Links LedgerEntry
  ledger_links = record {
    seq_of = λ e. e.seq;
    prev_of = λ e. e.prev;
    hash_of = λ e. e.hash;
    recompute = ledger_recompute_hash;
  }

  -- The loop from entry i on. An entry that does not continue the chain is reported as an event is.
  unfoldable pub ledger_loop :
      ℕ → List LedgerEntry → String → Option ℕ → LedgerSums → String × Option ℕ × LedgerSums
  ledger_loop i [] prev break_at sums = (prev, break_at, sums)
  ledger_loop i (e ∷ es) prev break_at sums =
      ledger_loop (suc i) es e.hash (break_from ledger_links (i % 2 ^ 32) prev e break_at)
        (count_entry sums e)

  unfoldable pub verify_ledger : List LedgerEntry → LedgerReport
  unfolding count_entry
  verify_ledger entries =
      let (prev, break_at, sums) = ledger_loop 0 entries zero_hash none no_sums in
      record {
        chain_ok = is_unbroken break_at;
        break_at = break_at;
        episodes = length entries % 2 ^ 32;
        successes = sums.successes;
        trips = sums.trips;
        stops = sums.stops;
        escalations = sums.escalations;
        head = prev;
      }

  -- The hash of the last entry, or the genesis.
  unfoldable pub ledger_head : List LedgerEntry → String
  ledger_head [] = zero_hash
  ledger_head (e ∷ []) = e.hash
  ledger_head (e ∷ (d ∷ ds)) = ledger_head (d ∷ ds)

  -- The entries after a receipt is appended.
  unfoldable pub append_ledger :
      {F : Type 0} → List LedgerEntry → Signed (ReceiptBody F) → List LedgerEntry
  append_ledger existing sr =
      existing ++ (ledger_entry (ledger_head existing) (length existing % 2 ^ 32) sr ∷ [])
