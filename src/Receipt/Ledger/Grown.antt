-- ===== src/Receipt/Ledger/Grown.antt =====
-- A ledger that grows by receipts verifies: `append_ledger`, `ledger_entry` and `verify_ledger` of
-- crates/lictor-receipt/src/ledger.rs.
use Prim.Native.String.{String}
use lictor.Prelude.{
  ℕ, suc, ◌+◌, ◌%◌, ◌^◌, ◌≡◌, ◌↔◌, refl, sym, ap, ◌∙◌, true, Option, none, some, List, [], ◌∷◌,
  ◌++◌, length, length-append, arith,
}
use mathlib.Core.Path.{subst}
use lictor.Receipt.Tick.{zero_hash, break_from, walk_from}
use lictor.Receipt.Tick.Chain.{IsChained, walk_from_iff}
use lictor.Receipt.Tick.Built.{append-IsChained}
use lictor.Receipt.Body.{ReceiptBody}
use lictor.Receipt.Signed.{Signed}
use lictor.Receipt.Ledger.{
  LedgerEntry, LedgerReport, LedgerSums, no_sums, add_flag, is_unbroken, count_entry, ledger_entry,
  ledger_links, ledger_loop, verify_ledger, ledger_head, append_ledger, ledger_recompute_hash,
}

module _ (digest_of : LedgerEntry → String) where
  -- The loop walks the chain, and adds up.
  loop_walks :
      (i : ℕ) (es : List LedgerEntry) (prev : String) (b : Option ℕ) (n : LedgerSums)
      → let (head, found, sums) = ledger_loop digest_of i es prev b n in
        (head ≡ (walk_from (ledger_links digest_of) 0 i es prev b).0)
        × (found ≡ (walk_from (ledger_links digest_of) 0 i es prev b).1)
  unfolding ledger_loop walk_from ledger_links
  loop_walks i [] prev b n = (refl, refl)
  loop_walks i (e ∷ es) prev b n =
      let position : i % 2 ^ 32 ≡ (0 + i) % 2 ^ 32 = omega arith in
      let (heads, breaks) =
        loop_walks (suc i) es e.hash (break_from (ledger_links digest_of) (i % 2 ^ 32) prev e b)
          (count_entry n e) in
      let moved =
        ap
          (λ k.
            walk_from (ledger_links digest_of) 0 (suc i) es e.hash
              (break_from (ledger_links digest_of) k prev e b))
          position in
      (heads ∙ ap (λ r. r.0) moved, breaks ∙ ap (λ r. r.1) moved)

  -- A ledger is a chain of entries from number 0.
  abbrev pub IsLedger : List LedgerEntry → String → Type 0
  IsLedger es head = IsChained (ledger_links digest_of) 0 0 zero_hash es head

  unbroken_iff : (o : Option ℕ) → (is_unbroken o ≡ true) ↔ (o ≡ none)
  unbroken_iff none = (λ h. refl, λ h. refl)
  unbroken_iff (some b) = (λ h. cc, λ h. cc)

  -- A ledger is accepted exactly when its entries are numbered from 0, link one to the next from the
  -- genesis and carry their own hashes; its head is then the last hash.
  pub verify_ledger_iff :
      (es : List LedgerEntry) (head : String)
      → (((verify_ledger digest_of es).chain_ok ≡ true)
          × ((verify_ledger digest_of es).head ≡ head))
        ↔ IsLedger es head
  unfolding verify_ledger
  verify_ledger_iff es head =
      let (heads, breaks) = loop_walks 0 es zero_hash none no_sums in
      let walked = walk_from_iff (ledger_links digest_of) 0 0 es zero_hash head in
      (
        λ (good, same). walked.0 (sym breaks ∙ (unbroken_iff _).0 good, sym heads ∙ same),
        λ h.
            let (unbroken, same) = walked.1 h in
            ((unbroken_iff _).1 (breaks ∙ unbroken), heads ∙ same),
      )

  last_hash :
      (first i : ℕ) (prev : String) (e : LedgerEntry) (es : List LedgerEntry) (head : String)
      → IsChained (ledger_links digest_of) first i prev (e ∷ es) head
      → ledger_head digest_of (e ∷ es) ≡ head
  unfolding ledger_head ledger_links
  last_hash first i prev e [] head (a, h) = h
  last_hash first i prev e (d ∷ ds) head (a, h) = last_hash first (suc i) e.hash d ds head h

  ledger_head-chain :
      (es : List LedgerEntry) (head : String) → IsLedger es head → ledger_head digest_of es ≡ head
  unfolding ledger_head
  ledger_head-chain [] head h = h
  ledger_head-chain (e ∷ es) head h = last_hash 0 0 zero_hash e es head h

  loop-append :
      (i : ℕ) (es : List LedgerEntry) (e : LedgerEntry) (prev : String) (b : Option ℕ)
      (n : LedgerSums)
      → (ledger_loop digest_of i (es ++ (e ∷ [])) prev b n).2
        ≡ count_entry (ledger_loop digest_of i es prev b n).2 e
  unfolding ledger_loop
  loop-append i [] e prev b n = refl
  loop-append i (d ∷ ds) e prev b n = loop-append (suc i) ds e d.hash _ (count_entry n d)

  module _ {F : Type 0} (es : List LedgerEntry) (sr : Signed (ReceiptBody F)) where
    -- The entry that a receipt adds.
    abbrev pub added : LedgerEntry
    added = ledger_entry digest_of (verify_ledger digest_of es).head (length es % 2 ^ 32) sr

    -- The report on the grown ledger, by that on the ledger before.
    pub record Grows (old new : LedgerReport) : Type 0 where
      pub chain_ok : new.chain_ok ≡ true
      pub head : new.head ≡ added.hash
      pub bound : added.receipt_digest ≡ sr.body_digest
      pub episodes : new.episodes ≡ (length es + 1) % 2 ^ 32
      pub successes : new.successes ≡ add_flag old.successes sr.body.outcome.success
      pub trips : new.trips ≡ add_flag old.trips added.tripped
      pub stops : new.stops ≡ add_flag old.stops added.stopped
      pub escalations : new.escalations ≡ add_flag old.escalations added.escalated

    grown_chain :
        (verify_ledger digest_of es).chain_ok ≡ true
        → IsLedger (es ++ (added ∷ [])) added.hash
          × (append_ledger digest_of es sr ≡ es ++ (added ∷ []))
    unfolding ledger_entry ledger_links ledger_recompute_hash append_ledger
    grown_chain h =
        let report = verify_ledger digest_of es in
        let chain = (verify_ledger_iff es report.head).0 (h, refl) in
        (
          append-IsChained (ledger_links digest_of) 0 0 zero_hash es report.head added chain
              (record { number = omega arith; link = refl; content = refl }),
          ap (λ p. es ++ (ledger_entry digest_of p (length es % 2 ^ 32) sr ∷ []))
              (ledger_head-chain es report.head chain),
        )

    -- A ledger that verifies still does after a receipt is appended: its new head is the hash of the
    -- entry, which binds the digest of the receipt, and the sums count its outcome.
    pub append_ledger-Grows :
        (verify_ledger digest_of es).chain_ok ≡ true
        → Grows
            (verify_ledger digest_of es)
            (verify_ledger digest_of (append_ledger digest_of es sr))
    unfolding verify_ledger count_entry ledger_entry
    append_ledger-Grows h =
        let (chain, same) = grown_chain h in
        let (good, head) = (verify_ledger_iff (es ++ (added ∷ [])) added.hash).1 chain in
        let counted = loop-append 0 es added zero_hash none no_sums in
        let size : length (es ++ (added ∷ [])) ≡ length es + 1 = length-append es (added ∷ []) in
        subst (λ l. Grows (verify_ledger digest_of es) (verify_ledger digest_of l)) (sym same)
          (record {
            chain_ok = good;
            head = head;
            bound = refl;
            episodes = ap (λ k. k % 2 ^ 32) size;
            successes = ap (λ (n : LedgerSums). n.successes) counted;
            trips = ap (λ (n : LedgerSums). n.trips) counted;
            stops = ap (λ (n : LedgerSums). n.stops) counted;
            escalations = ap (λ (n : LedgerSums). n.escalations) counted;
          })
