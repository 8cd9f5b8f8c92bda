-- ===== src/Runtime/Session/Embeds.antt =====
-- What a receipt embeds of its verdict chain: `episode_end` of crates/lictor-runtime/src/session.rs
-- with `check_embedded_ticks` of crates/lictor-receipt/src/sign.rs.
use Prim.Native.String.{String}
use lictor.Prelude.{
  ◌-◌, ◌<◌, ◌^◌, ◌≡◌, ◌⊎◌, inl, inr, refl, sym, ap, ◌∙◌, List, [], ◌∷◌, length, drop, arith,
  length-drop,
}
use mathlib.Core.Path.{subst}
use lictor.Receipt.Tick.{TickEvent, zero_hash, tick_links, first_seq}
use lictor.Receipt.Tick.Chain.{IsChained, chained-first}
use lictor.Receipt.Tick.Tails.{front, tail-IsChained}
use lictor.Receipt.Body.{ReceiptBody}
use lictor.Receipt.Verify.Embedded.{IsEmbedded, first_prev}
use lictor.Runtime.Session.Closing.{embedded_ticks}

-- The policies that a receipt may name.
abbrev pub IsPolicy : String → Type 0
IsPolicy p = (p ≡ "all") ⊎ (p ≡ "tail32") ⊎ (p ≡ "none")

module _ {F : Type 0} (digest_of : TickEvent F → String) where
  first_prev-front :
      (es : List (TickEvent F)) (head : String)
      → (length es ≡ 0 → zero_hash ≡ head)
      → front (tick_links digest_of) es head ≡ first_prev es
  unfolding tick_links
  first_prev-front [] head h = sym (h refl)
  first_prev-front (e ∷ es) head h = refl

  no_events-head :
      (es : List (TickEvent F)) (head : String)
      → length es ≡ 0
      → IsChained (tick_links digest_of) 0 0 zero_hash es head
      → zero_hash ≡ head
  no_events-head [] head z h = h
  no_events-head (e ∷ es) head z h = absurd (omega arith)

  -- The ticks that a policy embeds of a whole chain are what the verification asks for.
  pub embedded_ticks-IsEmbedded :
      (body : ReceiptBody F) (ticks : List (TickEvent F))
      → IsPolicy body.ticks_policy
      → body.ticks ≡ embedded_ticks body.ticks_policy ticks
      → body.verdict_events ≡ length ticks
      → length ticks < 2 ^ 32
      → IsChained (tick_links digest_of) 0 0 zero_hash ticks body.verdict_chain_head
      → IsEmbedded digest_of body
  unfolding embedded_ticks
  embedded_ticks-IsEmbedded body ticks (inl p) same n fits h =
      let all : body.ticks ≡ ticks = same ∙ ap (λ q. embedded_ticks q ticks) p in
      let first = chained-first (tick_links digest_of) ticks zero_hash body.verdict_chain_head h in
      inl (
        p,
        ap length all ∙ sym n,
        subst
            (λ es.
              IsChained (tick_links digest_of) (first_seq (tick_links digest_of) es) 0 zero_hash es
                body.verdict_chain_head)
            (sym all)
            (subst
              (λ k. IsChained (tick_links digest_of) k 0 zero_hash ticks body.verdict_chain_head)
              (sym first) h),
      )
  embedded_ticks-IsEmbedded body ticks (inr (inl p)) same n fits h =
      let k = length ticks - 32 in
      let head = body.verdict_chain_head in
      let tail : body.ticks ≡ drop k ticks = same ∙ ap (λ q. embedded_ticks q ticks) p in
      let size : length body.ticks ≡ length ticks - k = ap length tail ∙ length-drop k ticks in
      let (number, chained) =
        tail-IsChained (tick_links digest_of) k zero_hash ticks head (omega arith)
          (λ e. omega arith) h in
      let genesis =
        first_prev-front (drop k ticks) head
          (λ e. no_events-head ticks head (omega (arith, length-drop k ticks)) h) in
      inr (
        inl (
          p,
          omega (arith, size, n),
          ap (first_seq (tick_links digest_of)) tail ∙ number ∙ omega (arith, size, n),
          subst
              (λ es.
                IsChained (tick_links digest_of) (first_seq (tick_links digest_of) es) 0
                  (first_prev es) es head)
              (sym tail)
              (subst
                (λ g.
                  IsChained (tick_links digest_of) (first_seq (tick_links digest_of) (drop k ticks))
                    0 g (drop k ticks) head)
                genesis chained),
        ))
  embedded_ticks-IsEmbedded body ticks (inr (inr p)) same n fits h = inr (
      inr (
        p,
        same ∙ ap (λ q. embedded_ticks q ticks) p,
        λ z. sym (no_events-head ticks body.verdict_chain_head (omega (arith, n)) h),
      ))
