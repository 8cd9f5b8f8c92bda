-- ===== src/Runtime/Session/Chains.antt =====
-- The chains of an episode: crates/lictor-runtime/src/session.rs with crates/lictor-receipt/src/tick.rs.
use Prim.Native.String.{String}
use lictor.Prelude.{
  ℕ, suc, ◌^◌, ◌≤◌, ◌≡◌, refl, sym, ap, ◌∙◌, inl, inr, Option, none, some, List, [], ◌∷◌, ◌++◌,
  length, min, arith, u32_max, saturating_suc, length-append, Option-cases,
}
use mathlib.Core.Path.{subst}
use lictor.Float.{Float}
use lictor.Core.Verdict.{SafetyVerdict}
use lictor.Fuse.Runtime.{FuseRt}
use lictor.Receipt.Tick.{
  zero_hash, TickEvent, Links, tick_event, timing_event, tick_links, timing_links,
}
use lictor.Receipt.Tick.Chain.{IsLinked, IsChained}
use lictor.Receipt.Tick.Built.{append-IsChained, tick_event-IsLinked, timing_event-IsLinked}
use lictor.Receipt.Handoff.{AckToken}
use lictor.Runtime.Session.{Session, Host, Episode, PendingTiming}
use lictor.Runtime.Session.Tick.{chain_tick, resolve_pending, open_handoff, fold_episode}

-- The timing that is pending is that of the last tick.
abbrev pub IsPending : Option PendingTiming → ℕ → ℕ → Type 0
IsPending none timed ticked = timed ≡ ticked
IsPending (some p) timed ticked = (suc timed ≡ ticked) × (p.seq ≡ min timed u32_max)

-- A chain from number 0 goes on with an event that has the next number.
next-IsChained :
    {T : Type 0} (l : Links T) (es : List T) (head : String) (e : T) (seq : ℕ)
    → seq ≡ min (length es) u32_max
    → IsLinked l seq head e
    → (length es ≤ 2 ^ 32 → IsChained l 0 0 zero_hash es head)
    → length (es ++ (e ∷ [])) ≤ 2 ^ 32
    → IsChained l 0 0 zero_hash (es ++ (e ∷ [])) (l.hash_of e)
next-IsChained l es head e seq number linked chained fits =
    let size = length-append es (e ∷ []) in
    append-IsChained l 0 0 zero_hash es head e (chained (omega (arith, size)))
      (subst (λ n. IsLinked l n head e) (omega (arith, size, number)) linked)

module _ {F : Type 0} where
  -- What an episode's chains are, apart from the handoffs.
  pub record SameChains (a b : Episode F) : Type 0 where
    ticks : a.ticks ≡ b.ticks
    verdict_head : a.verdict_head ≡ b.verdict_head
    timing : a.timing ≡ b.timing
    timing_head : a.timing_head ≡ b.timing_head
    pending : a.pending_timing ≡ b.pending_timing

  pub resolve-same :
      (v : SafetyVerdict F) (ack : Option AckToken) (ep : Episode F)
      → SameChains (resolve_pending v ack ep) ep
  unfolding resolve_pending
  resolve-same v ack ep = ground arith

module _ {F H : Type 0} ⦃fl : Float F⦄ where
  -- What the chains of an episode hold, up to the capacity of the sequence numbers.
  pub record IsRecorded (host : Host F H) (rt : FuseRt F) (ep : Episode F) : Type 0 where
    pub numbered : rt.seq ≡ min (length ep.ticks) u32_max
    pub counted : rt.tally.ticks ≡ min (length ep.ticks) u32_max
    pub ticks :
        length ep.ticks ≤ 2 ^ 32
        → IsChained (tick_links host.tick_digest) 0 0 zero_hash ep.ticks ep.verdict_head
    pub timing :
        length ep.timing ≤ 2 ^ 32
        → IsChained (timing_links host.timing_digest) 0 0 zero_hash ep.timing ep.timing_head
    pub pending : IsPending ep.pending_timing (length ep.timing) (length ep.ticks)

  pub fold-none : (host : Host F H) (ep : Episode F) → (fold_episode host ep).pending_timing ≡ none
  unfolding fold_episode
  fold-none host ep = ground arith

  fold-some :
      (host : Host F H) (ep : Episode F) (p : PendingTiming)
      → ep.pending_timing ≡ some p
      → fold_episode host ep ≡ (
          let e = timing_event host.timing_digest ep.timing_head p.seq p.decide_ns p.io_ns in
          record ep { pending_timing = none; timing_head = e.hash; timing = ep.timing ++ (e ∷ []) })
  unfolding fold_episode
  fold-some host ep p h = rw h refl

  fold-same :
      (host : Host F H) (ep : Episode F) → ep.pending_timing ≡ none → fold_episode host ep ≡ ep
  unfolding fold_episode
  fold-same host ep h = rw h refl

  -- An event that carries the next number goes to the end of its chain.
  pub fold-IsRecorded :
      (host : Host F H) (rt : FuseRt F) (ep : Episode F)
      → IsRecorded host rt ep
      → IsRecorded host rt (fold_episode host ep)
  unfolding timing_links timing_event
  fold-IsRecorded host rt ep k = elim (Option-cases ep.pending_timing) [
    | inl h ↦ rw (fold-same host ep h) k
    | inr (p, h) ↦
        let e = timing_event host.timing_digest ep.timing_head p.seq p.decide_ns p.io_ns in
        let size = length-append ep.timing (e ∷ []) in
        let (last, number) =
          subst (λ o. IsPending o (length ep.timing) (length ep.ticks)) h k.pending in
        rw (fold-some host ep p h) (record {
          numbered = k.numbered;
          counted = k.counted;
          ticks = k.ticks;
          timing =
              next-IsChained (timing_links host.timing_digest) ep.timing ep.timing_head e p.seq
                number
                (timing_event-IsLinked host.timing_digest ep.timing_head p.seq p.decide_ns p.io_ns)
                k.timing;
          pending = omega (arith, size, last);
        })
  ]

  pub tick-IsRecorded :
      (host : Host F H) (rt rt' : FuseRt F) (ep : Episode F) (v : SafetyVerdict F) (ns : ℕ)
      → v.seq ≡ rt.seq
      → rt'.seq ≡ saturating_suc u32_max rt.seq
      → rt'.tally.ticks ≡ saturating_suc u32_max rt.tally.ticks
      → ep.pending_timing ≡ none
      → IsRecorded host rt ep
      → IsRecorded host rt' (chain_tick host ep v ns)
  unfolding chain_tick tick_links
  tick-IsRecorded host rt rt' ep v ns same next once none_pending k =
      let e = tick_event host.tick_digest ep.verdict_head v in
      let size = length-append ep.ticks (e ∷ []) in
      let timed : length ep.timing ≡ length ep.ticks =
        subst (λ o. IsPending o (length ep.timing) (length ep.ticks)) none_pending k.pending in
      record {
        numbered = omega (arith, size, next, k.numbered);
        counted = omega (arith, size, once, k.counted);
        ticks =
            next-IsChained (tick_links host.tick_digest) ep.ticks ep.verdict_head e v.seq
              (same ∙ k.numbered) (tick_event-IsLinked host.tick_digest ep.verdict_head v) k.ticks;
        timing = k.timing;
        pending = (omega (arith, size, timed), omega (arith, same, k.numbered, timed));
      }

  pub open_handoff-same :
      (host : Host F H) (s : Session F H) (ep : Episode F) (v : SafetyVerdict F)
      → SameChains (open_handoff host s ep v).0 ep
  unfolding open_handoff
  open_handoff-same host s ep v = ground arith

  pub same-IsRecorded :
      (host : Host F H) (rt : FuseRt F) (a b : Episode F)
      → SameChains a b
      → IsRecorded host rt b
      → IsRecorded host rt a
  same-IsRecorded host rt a b same k = record {
    numbered =
        k.numbered ∙ ap (λ (l : List (TickEvent F)). min (length l) u32_max) (sym same.ticks);
    counted = k.counted ∙ ap (λ (l : List (TickEvent F)). min (length l) u32_max) (sym same.ticks);
    ticks = rw (same.ticks, same.verdict_head) k.ticks;
    timing = rw (same.timing, same.timing_head) k.timing;
    pending = rw (same.pending, same.timing, same.ticks) k.pending;
  }
