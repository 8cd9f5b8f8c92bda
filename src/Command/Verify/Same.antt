-- ===== src/Command/Verify/Same.antt =====
-- A ticks file that is accepted is the one that was recorded: `check_ticks` of
-- crates/lictor-cli/src/cmd/verify.rs with the chain of crates/lictor-receipt/src/tick.rs.
use Prim.Native.String.{String}
use lictor.Prelude.{
  ℕ, ◌%◌, ◌^◌, ◌<◌, ◌≡◌, refl, sym, ◌∙◌, true, some, List, [], length, arith, ok, same_text_iff,
}
use lictor.Receipt.Tick.{TickEvent, ChainReport, zero_hash, walk, verify_tick_chain}
use lictor.Receipt.Tick.Tamper.{NoCollision, verify_tick_chain_same}
use lictor.Receipt.Body.{ReceiptBody}
use lictor.Receipt.Signed.{Signed}
use lictor.Receipt.Verify.{Verifier}
use lictor.Command.Verify.Companions.{
  FileHeader, ticks_schema, check_header, check_report, check_ticks,
}

-- What an accepted chain report says.
report_parts :
    (rep : ChainReport) (n : ℕ) (head : String)
    → check_report rep n head ≡ ok tt
    → (rep.ok ≡ true) × (rep.n ≡ n) × (rep.head ≡ head)
unfolding check_report
report_parts rep n head h =
    (ground arith, ground arith, (same_text_iff rep.head head).0 (ground arith))

module _ {F : Type 0} where
  -- A header that names the receipt's run, arm and episode.
  pub record Names (header : FileHeader) (sr : Signed (ReceiptBody F)) : Type 0 where
    pub schema : header.schema ≡ ticks_schema
    pub run : header.run_id ≡ sr.body.run.run_id
    pub arm : header.arm_id ≡ sr.body.run.arm_id
    pub episode : header.episode_index ≡ some sr.body.run.episode_index
    pub genesis : header.genesis ≡ zero_hash

  header_parts :
      (header : FileHeader) (sr : Signed (ReceiptBody F))
      → check_header header sr ≡ []
      → Names header sr
  unfolding check_header
  header_parts header sr h = record {
    schema = (same_text_iff header.schema ticks_schema).0 (ground arith);
    run = (same_text_iff header.run_id sr.body.run.run_id).0 (ground arith);
    arm = (same_text_iff header.arm_id sr.body.run.arm_id).0 (ground arith);
    episode = ground arith;
    genesis = (same_text_iff header.genesis zero_hash).0 (ground arith);
  }

  ticks_parts :
      (v : Verifier F) (sr : Signed (ReceiptBody F)) (header : FileHeader)
      (ticks : List (TickEvent F))
      → check_ticks v sr (some (header, ticks)) ≡ ok tt
      → (check_header header sr ≡ [])
        × (check_report
              (verify_tick_chain v.tick_digest ticks zero_hash)
              sr.body.verdict_events
              sr.body.verdict_chain_head
            ≡ ok tt)
  unfolding check_ticks
  ticks_parts v sr header ticks h = (ground arith, ground arith)

  report-n :
      (digest_of : TickEvent F → String) (es : List (TickEvent F))
      → (verify_tick_chain digest_of es zero_hash).n ≡ length es % 2 ^ 32
  unfolding verify_tick_chain walk
  report-n digest_of es = refl

  -- A ticks file that is accepted for a receipt names its run, arm and episode, and holds exactly the
  -- events of any recorded chain with the head and the number of events that the receipt binds, when
  -- the digest tells apart the events at the same place and their number fits a u32.
  pub check_ticks_same :
      (v : Verifier F) (sr : Signed (ReceiptBody F)) (header : FileHeader)
      (ticks recorded : List (TickEvent F))
      → check_ticks v sr (some (header, ticks)) ≡ ok tt
      → (verify_tick_chain v.tick_digest recorded zero_hash).ok ≡ true
      → (verify_tick_chain v.tick_digest recorded zero_hash).head ≡ sr.body.verdict_chain_head
      → length recorded ≡ sr.body.verdict_events
      → length ticks < 2 ^ 32
      → NoCollision v.tick_digest ticks recorded
      → Names header sr × (ticks ≡ recorded)
  check_ticks_same v sr header ticks recorded h good head count fits apart =
      let (named, reported) = ticks_parts v sr header ticks h in
      let (chained, n, same) =
        report_parts (verify_tick_chain v.tick_digest ticks zero_hash) sr.body.verdict_events
          sr.body.verdict_chain_head reported in
      let counted = report-n v.tick_digest ticks in
      (
        header_parts header sr named,
        verify_tick_chain_same v.tick_digest ticks recorded zero_hash zero_hash
            (omega (arith, counted, n, count)) apart chained good (same ∙ sym head),
      )
