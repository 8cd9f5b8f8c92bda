-- ===== src/Command/Replay/Deterministic.antt =====
-- Replays of a trace agree: crates/lictor-cli/src/cmd/replay.rs.
use lictor.Prelude.{
  ℕ, ◌++◌, wrapping_suc_u32, zero, suc, ◌+◌, ◌-◌, ◌<◌, ◌^◌, ◌≡◌, refl, sym, ap, ◌∙◌, true, none,
  some, List, [], ◌∷◌, arith, ok, ◌>>=◌, ltb, ◌==◌, length, ◌%◌, max, option, same_texts_refl,
  same_text_refl, ◌&&◌,
}
use lictor.Float.{Float}
use lictor.Runtime.Wire.{Request, Response}
use lictor.Runtime.Session.{Session, Host, start}
use lictor.Runtime.Session.Handle.{handle}
use lictor.Runtime.Session.Clock.{timeless}
use lictor.Runtime.Session.Bodies.{SignsAlike, SummaryFits}
use lictor.Runtime.Session.Marks.{Mark, mark, Works}
use lictor.Runtime.Session.Replayed.{rerun_same}
use lictor.Command.Replay.{
  ReplayInput, World, Link, Pass, ReplayOutcome, note_response, new_pass, reading, replay_host,
  replay_config, feed, one_pass, same_links, compare_pass, compare_passes, first_outcome, replay,
  count_state,
}

-- What a pass keeps of a mark.
note_mark : Pass → Mark → Pass
note_mark p (Mark.verdict status t seq chain) = record p {
  states = count_state p.states status;
  chains = p.chains ++ ((t, seq, chain) ∷ []);
}
note_mark p (Mark.head h) = record p { heads = p.heads ++ (h ∷ []) }
note_mark p (Mark.failed e) = record p {
  errors = wrapping_suc_u32 p.errors;
  first_error = some (option p.first_error e (λ f. f));
}
note_mark p Mark.other = p

note_response-mark :
    {F : Type 0} (p : Pass) (a : Response F) → note_response p a ≡ note_mark p (mark a)
unfolding note_response note_mark mark
note_response-mark p (Response.verdict v) = refl
note_response-mark p (Response.episode_receipt m) = refl
note_response-mark p (Response.error e) = refl
note_response-mark p (Response.hello_ok m) = refl
note_response-mark p (Response.episode_ok id state seq) = refl
note_response-mark p (Response.bye_ok id) = refl

same_links_refl : (links : List Link) → same_links links links ≡ true
same_links_refl [] = refl
same_links_refl ((t, seq, chain) ∷ links) =
    let k = same_text_refl chain in let r = same_links_refl links in ground (arith, k, r)

compare_pass_same :
    (k : ℕ) (first : Pass) (out : ReplayOutcome)
    → out.identical + 1 < 2 ^ 32
    → compare_pass k first out first ≡ record out { identical = out.identical + 1 }
unfolding compare_pass
compare_pass_same k first out fits =
    rw (same_links_refl first.chains, same_texts_refl first.heads)
      (ap (λ i. record out { identical = i }) (omega (arith, fits)))

-- The clock's dates are integers that the canonical form carries.
abbrev Dated : World → Type 0
Dated w = (i : ℕ) → (w.clock i).1 < 2 ^ 53

module _ {F H : Type 0} ⦃fl : Float F⦄ (host : Host F H) (alike : SignsAlike host)
    (fits : SummaryFits host) where
  reading-Works : (w : World) (i : ℕ) → Dated w → Works (reading w i)
  reading-Works w i dated = record {
    entry = none;
    read = refl;
    appended = (0, "");
    wrote = refl;
    dated = dated i;
  }

  -- What a pass keeps does not depend on the key or on the clock.
  feed_same :
      (w u : World) (i : ℕ) (s r : Session F H) (lines : List (Request F)) (p : Pass)
      → Dated w
      → Dated u
      → timeless host s ≡ timeless host r
      → feed host w i s lines p ≡ feed host u i r lines p
  unfolding feed
  feed_same w u i s r [] p dw du same = refl
  feed_same w u i s r (req ∷ lines) p dw du same =
      let (after, marks) =
        rerun_same host (reading w i) (reading u i) s r req alike fits (reading-Works w i dw)
          (reading-Works u i du) same in
      let noted : note_response p (handle host (reading w i) s req).1
          ≡ note_response p (handle host (reading u i) r req).1 =
        note_response-mark p (handle host (reading w i) s req).1
        ∙ ap (λ m. note_mark p m) marks
        ∙ sym (note_response-mark p (handle host (reading u i) r req).1) in
      feed_same w u (i + 1) (handle host (reading w i) s req).0 (handle host (reading u i) r req).0
        lines (note_response p (handle host (reading w i) s req).1) dw du after
      ∙ ap (λ q. feed host u (i + 1) (handle host (reading u i) r req).0 lines q) noted

module _ {F H : Type 0} ⦃fl : Float F⦄ (host : Host F H) (inp : ReplayInput F)
    (alike : SignsAlike host) (fits : SummaryFits host) where
  one_pass_same : (w u : World) → Dated w → Dated u → one_pass host inp w ≡ one_pass host inp u
  unfolding one_pass
  one_pass_same w u dw du =
      ap (λ f. start (replay_host host) (replay_config inp) >>= f)
        (λ i s. ok (
          feed_same (replay_host host) alike fits w u 0 (record s { pubkey = w.pubkey })
            (record s { pubkey = u.pubkey }) inp.lines new_pass dw du refl i))

  module _ (worlds : ℕ → World) (dated : (k : ℕ) → Dated (worlds k)) {first : Pass}
      (passes : one_pass host inp (worlds 0) ≡ ok first) where
    compare_passes_same :
        (k n : ℕ) (out : ReplayOutcome)
        → out.identical + n < 2 ^ 32
        → compare_passes host inp worlds k n first out
          ≡ ok (record out { identical = out.identical + n })
    unfolding compare_passes compare_pass
    compare_passes_same k zero out fits = ap (λ i. ok (record out { identical = i })) (omega arith)
    compare_passes_same k (suc n) out fits =
        let same = one_pass_same (worlds k) (worlds 0) (dated k) (dated 0) ∙ passes in
        rw (same, compare_pass_same k first out (omega (arith, fits)))
          (compare_passes_same (k + 1) n (record out { identical = out.identical + 1 })
              (omega (arith, fits))
            ∙ ap (λ i. ok (record out { identical = i })) (omega arith))

    -- When the first pass starts its session, the number asked for fits a u32, and the dates and the
    -- summaries of the latencies stay below 2^53, every replay of the trace agrees with the first,
    -- whatever the clocks and the generated keys of the passes are: all the repeats, at least one, are
    -- identical, no divergence is reported, and the trace is called deterministic exactly if the number
    -- of its verdicts, as a u32, is not zero. The bodies of receipts may be refused by the signature;
    -- of it only this is asked: that a body's date, durations and place in the ledger, when their
    -- numbers are below 2^53, do not change whether it can be signed.
    pub replay_deterministic :
        (asked : ℕ)
        → asked < 2 ^ 32
        → replay host inp worlds asked
          ≡ ok (record (first_outcome (max asked 1) first) {
            identical = max asked 1;
            deterministic = ltb 0 (length first.chains % 2 ^ 32);
          })
    unfolding replay first_outcome
    replay_deterministic asked fits =
        let repeat = max asked 1 in
        let same =
          compare_passes_same 1 (repeat - 1) (first_outcome repeat first) (ground (arith, fits)) in
        let reached : (repeat == repeat) ≡ true = ground arith in
        rw (passes, same)
          (ap
              (λ (i : ℕ). ok (record (first_outcome repeat first) {
                identical = i;
                deterministic = (i == repeat) && ltb 0 (length first.chains % 2 ^ 32);
              }))
              (ground arith)
            ∙ ap
                (λ b. ok (record (first_outcome repeat first) {
                  identical = repeat;
                  deterministic = b && ltb 0 (length first.chains % 2 ^ 32);
                }))
                reached)
