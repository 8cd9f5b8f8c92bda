-- ===== src/Receipt/Verify/Embedded.antt =====
-- When the embedded ticks of a receipt are accepted: `check_embedded_ticks` of
-- crates/lictor-receipt/src/sign.rs.
use Prim.Native.String.{String}
use lictor.Prelude.{
  ◌==◌, ℕ, ◌-◌, ◌≡◌, ◌≢◌, ◌↔◌, ◌⊎◌, inl, inr, refl, sym, ap, true, false, some, List, [], ◌∷◌,
  length, min, arith, Bool-cases, ok, same_text, same_text_iff,
}
use mathlib.Core.Path.{subst}
use lictor.Receipt.Tick.{TickEvent, zero_hash, tick_links, verify_tick_chain, first_seq}
use lictor.Receipt.Tick.Chain.{IsChained, walk_iff}
use lictor.Receipt.Body.{ReceiptBody}
use lictor.Receipt.Verify.{check_embedded_ticks, check_listed, expected_len}

no_length : {A : Type 0} (xs : List A) → length xs ≡ 0 → xs ≡ []
no_length [] h = refl
no_length (x ∷ xs) h = absurd (omega arith)

-- A text is one of two different ones at most.
other_policy :
    (p a b : String) → same_text p a ≡ true → same_text a b ≡ false → same_text p b ≡ false
other_policy p a b h k = subst (λ s. same_text s b ≡ false) (sym ((same_text_iff p a).0 h)) k

module _ {F : Type 0} where
  -- The hash before the first of some events.
  abbrev pub first_prev : List (TickEvent F) → String
  first_prev [] = zero_hash
  first_prev (e ∷ es) = e.prev

  module _ (digest_of : TickEvent F → String) where
    -- The ticks that a body embeds chain up from a hash to the head that it binds.
    abbrev pub ChainsFrom : String → List (TickEvent F) → String → Type 0
    ChainsFrom genesis ticks head =
        IsChained (tick_links digest_of) (first_seq (tick_links digest_of) ticks) 0 genesis ticks
          head

    -- What each policy asks of the embedded ticks.
    abbrev pub IsEmbedded : ReceiptBody F → Type 0
    IsEmbedded body =
        ((body.ticks_policy ≡ "all")
          × (length body.ticks ≡ body.verdict_events)
          × ChainsFrom zero_hash body.ticks body.verdict_chain_head)
        ⊎ ((body.ticks_policy ≡ "tail32")
            × (length body.ticks ≡ min body.verdict_events 32)
            × (first_seq (tick_links digest_of) body.ticks
                ≡ body.verdict_events - length body.ticks)
            × ChainsFrom (first_prev body.ticks) body.ticks body.verdict_chain_head)
        ⊎ ((body.ticks_policy ≡ "none")
            × (body.ticks ≡ [])
            × (body.verdict_events ≡ 0 → body.verdict_chain_head ≡ zero_hash))

    verify_iff :
        (es : List (TickEvent F)) (genesis head : String)
        → (((verify_tick_chain digest_of es genesis).ok ≡ true)
            × ((verify_tick_chain digest_of es genesis).head ≡ head))
          ↔ IsChained (tick_links digest_of) (first_seq (tick_links digest_of) es) 0 genesis es head
    unfolding verify_tick_chain
    verify_iff es genesis head = walk_iff (tick_links digest_of) es genesis head

    listed_all :
        (body : ReceiptBody F) (ticks : List (TickEvent F))
        → same_text body.ticks_policy "all" ≡ true
        → same_text body.ticks_policy "tail32" ≡ false
        → length ticks ≡ body.verdict_events
        → (check_listed digest_of body ticks ≡ ok tt)
          ↔ ChainsFrom zero_hash ticks body.verdict_chain_head
    unfolding check_listed
    listed_all body [] all tail size = (
      λ h. ground (arith, (same_text_iff body.verdict_chain_head zero_hash).0),
      λ h. ground (arith, (same_text_iff body.verdict_chain_head zero_hash).1 (sym h)),
    )
    listed_all body (first ∷ rest) all tail size =
        let report = verify_tick_chain digest_of (first ∷ rest) zero_hash in
        let heads = same_text_iff report.head body.verdict_chain_head in
        let walked = verify_iff (first ∷ rest) zero_hash body.verdict_chain_head in
        (
          λ h. walked.0 (ground arith, heads.0 (ground arith)),
          λ h. let (good, same) = walked.1 h in let equal = heads.1 same in ground arith,
        )

    listed_tail :
        (body : ReceiptBody F) (ticks : List (TickEvent F))
        → same_text body.ticks_policy "all" ≡ false
        → same_text body.ticks_policy "tail32" ≡ true
        → length ticks ≡ min body.verdict_events 32
        → (check_listed digest_of body ticks ≡ ok tt) ↔ (
            (first_seq (tick_links digest_of) ticks ≡ body.verdict_events - length ticks)
            × ChainsFrom (first_prev ticks) ticks body.verdict_chain_head)
    unfolding check_listed tick_links
    listed_tail body [] all tail size = (
      λ h. (omega arith, ground (arith, (same_text_iff body.verdict_chain_head zero_hash).0)),
      λ (_, h). ground (arith, (same_text_iff body.verdict_chain_head zero_hash).1 (sym h)),
    )
    listed_tail body (first ∷ rest) all tail size =
        let report = verify_tick_chain digest_of (first ∷ rest) first.prev in
        let heads = same_text_iff report.head body.verdict_chain_head in
        let walked = verify_iff (first ∷ rest) first.prev body.verdict_chain_head in
        (
          λ h. (ground arith, walked.0 (ground arith, heads.0 (ground arith))),
          λ (number, h). let (good, same) = walked.1 h in let equal = heads.1 same in ground arith,
        )

    listed_none :
        (body : ReceiptBody F)
        → (check_listed digest_of body [] ≡ ok tt)
          ↔ (body.verdict_events ≡ 0 → body.verdict_chain_head ≡ zero_hash)
    unfolding check_listed
    listed_none body = (
      λ h z. ground (arith, (same_text_iff body.verdict_chain_head zero_hash).0),
      λ h. elim (Bool-cases (body.verdict_events == 0)) [
        | inl z ↦
            ground (arith, (same_text_iff body.verdict_chain_head zero_hash).1 (h (ground arith)))
        | inr z ↦ ground arith
      ],
    )

    counted :
        (body : ReceiptBody F) (n : ℕ)
        → expected_len body.ticks_policy body.verdict_events ≡ some n
        → (check_embedded_ticks digest_of body ≡ ok tt)
          ↔ ((length body.ticks ≡ n) × (check_listed digest_of body body.ticks ≡ ok tt))
    unfolding check_embedded_ticks
    counted body n h = (λ k. (ground arith, ground arith), λ k. ground arith)

    all_to :
        (body : ReceiptBody F)
        → same_text body.ticks_policy "all" ≡ true
        → (check_embedded_ticks digest_of body ≡ ok tt) ↔ (
            (length body.ticks ≡ body.verdict_events)
            × ChainsFrom zero_hash body.ticks body.verdict_chain_head)
    unfolding expected_len
    all_to body all =
        let counts = counted body body.verdict_events (ground arith) in
        let tail = other_policy body.ticks_policy "all" "tail32" all refl in
        (
          λ h. let (size, k) = counts.0 h in (size, (listed_all body body.ticks all tail size).0 k),
          λ (size, k). counts.1 (size, (listed_all body body.ticks all tail size).1 k),
        )

    tail_to :
        (body : ReceiptBody F)
        → same_text body.ticks_policy "tail32" ≡ true
        → (check_embedded_ticks digest_of body ≡ ok tt) ↔ (
            (length body.ticks ≡ min body.verdict_events 32)
            × (first_seq (tick_links digest_of) body.ticks
                ≡ body.verdict_events - length body.ticks)
            × ChainsFrom (first_prev body.ticks) body.ticks body.verdict_chain_head)
    unfolding expected_len
    tail_to body tail =
        let all = other_policy body.ticks_policy "tail32" "all" tail refl in
        let counts = counted body (min body.verdict_events 32) (ground arith) in
        (
          λ h.
              let (size, k) = counts.0 h in
              let (number, chained) = (listed_tail body body.ticks all tail size).0 k in
              (size, number, chained),
          λ (size, number, k).
              counts.1 (size, (listed_tail body body.ticks all tail size).1 (number, k)),
        )

    none_to :
        (body : ReceiptBody F)
        → same_text body.ticks_policy "none" ≡ true
        → (check_embedded_ticks digest_of body ≡ ok tt)
          ↔ ((body.ticks ≡ []) × (body.verdict_events ≡ 0 → body.verdict_chain_head ≡ zero_hash))
    unfolding expected_len
    none_to body h =
        let all = other_policy body.ticks_policy "none" "all" h refl in
        let tail = other_policy body.ticks_policy "none" "tail32" h refl in
        let counts = counted body 0 (ground arith) in
        (
          λ k.
              let (size, listed) = counts.0 k in
              let empty = no_length body.ticks size in
              (
                empty,
                (listed_none body).0
                    (subst (λ es. check_listed digest_of body es ≡ ok tt) empty listed),
              ),
          λ (empty, k). counts.1 (
            ap length empty,
            subst (λ es. check_listed digest_of body es ≡ ok tt) (sym empty)
                ((listed_none body).1 k),
          ),
        )

    no_policy :
        (body : ReceiptBody F)
        → same_text body.ticks_policy "all" ≡ false
        → same_text body.ticks_policy "tail32" ≡ false
        → same_text body.ticks_policy "none" ≡ false
        → check_embedded_ticks digest_of body ≢ ok tt
    unfolding check_embedded_ticks expected_len
    no_policy body a b c h = ground arith

    -- The embedded ticks are accepted exactly when they are what the policy asks: the whole chain from
    -- the zero hash, the last 32 events under their numbers, or nothing, up to the head that the
    -- body binds.
    pub check_embedded_iff :
        (body : ReceiptBody F) → (check_embedded_ticks digest_of body ≡ ok tt) ↔ IsEmbedded body
    check_embedded_iff body = (
      λ h. elim (Bool-cases (same_text body.ticks_policy "all")) [
        | inl a ↦
            let (size, k) = (all_to body a).0 h in
            inl ((same_text_iff body.ticks_policy "all").0 a, size, k)
        | inr a ↦ elim (Bool-cases (same_text body.ticks_policy "tail32")) [
          | inl b ↦
              let (size, number, k) = (tail_to body b).0 h in
              inr (inl ((same_text_iff body.ticks_policy "tail32").0 b, size, number, k))
          | inr b ↦ elim (Bool-cases (same_text body.ticks_policy "none")) [
            | inl c ↦
                let (empty, k) = (none_to body c).0 h in
                inr (inr ((same_text_iff body.ticks_policy "none").0 c, empty, k))
            | inr c ↦ absurd (no_policy body a b c h)
          ]
        ]
      ],
      λ k. elim k [
        | inl (p, size, k) ↦ (all_to body ((same_text_iff body.ticks_policy "all").1 p)).1 (size, k)
        | inr (inl (p, size, number, k)) ↦
            (tail_to body ((same_text_iff body.ticks_policy "tail32").1 p)).1 (size, number, k)
        | inr (inr (p, empty, k)) ↦
            (none_to body ((same_text_iff body.ticks_policy "none").1 p)).1 (empty, k)
      ],
    )
