-- ===== src/Receipt/Tick/Built.antt =====
-- The chain that the session builds, one event after the other: `tick_event` and `timing_event` of
-- crates/lictor-receipt/src/tick.rs.
use Prim.Native.String.{String}
use lictor.Prelude.{ℕ, suc, ◌+◌, ◌%◌, ◌^◌, refl, sym, ap, ◌∙◌, List, [], ◌∷◌, ◌++◌, length, arith}
use mathlib.Core.Path.{subst}
use lictor.Core.Verdict.{SafetyVerdict}
use lictor.Receipt.Tick.{
  Links, TickEvent, tick_event, tick_links, tick_recompute_hash, TimingEvent, timing_event,
  timing_links, timing_recompute_hash,
}
use lictor.Receipt.Tick.Chain.{IsLinked, IsChained}

module _ {T : Type 0} (l : Links T) where
  -- A chain goes on with an event that links to its head.
  pub append-IsChained :
      (first i : ℕ) (prev : String) (es : List T) (head : String) (e : T)
      → IsChained l first i prev es head
      → IsLinked l ((first + (i + length es)) % 2 ^ 32) head e
      → IsChained l first i prev (es ++ (e ∷ [])) (l.hash_of e)
  append-IsChained first i prev [] head e h k = (
    record {
      number = k.number ∙ ap (λ j. (first + j) % 2 ^ 32) (omega arith);
      link = k.link ∙ sym h;
      content = k.content;
    },
    refl,
  )
  append-IsChained first i prev (d ∷ es) head e (a, h) k = (
    a,
    append-IsChained first (suc i) (l.hash_of d) es head e h
        (subst (λ j. IsLinked l ((first + j) % 2 ^ 32) head e) (omega arith) k),
  )

module _ {F : Type 0} (digest_of : TickEvent F → String) where
  pub tick_event-IsLinked :
      (prev : String) (v : SafetyVerdict F)
      → IsLinked (tick_links digest_of) v.seq prev (tick_event digest_of prev v)
  unfolding tick_links tick_event tick_recompute_hash
  tick_event-IsLinked prev v = record { number = refl; link = refl; content = refl }

module _ (digest_of : TimingEvent → String) where
  pub timing_event-IsLinked :
      (prev : String) (seq decide_ns io_ns : ℕ)
      → IsLinked (timing_links digest_of) seq prev (timing_event digest_of prev seq decide_ns io_ns)
  unfolding timing_links timing_event timing_recompute_hash
  timing_event-IsLinked prev seq decide_ns io_ns = record {
    number = refl;
    link = refl;
    content = refl;
  }
