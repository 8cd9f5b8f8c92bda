-- ===== src/Runtime/Session/Nonces.antt =====
-- No token serves twice, in this episode or a later one: crates/lictor-runtime/src/session.rs with
-- crates/lictor-receipt/src/handoff.rs.
use Prim.Native.String.{String}
use lictor.Prelude.{
  ℕ, ◌≤◌, ◌<◌, ◌≡◌, refl, sym, ap, ◌∙◌, inl, inr, Option, none, some, List, [], ◌∷◌, arith, get_or,
  get_or-map, Bool-cases, Option-cases, leb, option, lookup, insert, lookup-insert_self,
  lookup-insert_other, same_text, same_text_iff, Result, ok, err,
}
use mathlib.Core.Path.{subst}
use lictor.Float.{Float}
use lictor.Core.State.{VerifiedAck}
use lictor.Receipt.Handoff.{AckToken, AckError, verify_ack}
use lictor.Receipt.Handoff.Accepted.{verify_ack-Genuine, position_from-some}
use lictor.Runtime.Wire.{Request, Response, TickReq}
use lictor.Runtime.Session.{Session, Host, Reading, Episode}
use lictor.Runtime.Session.Tick.{
  tick, open_tick, fold_pending_timing, keep_nonce, check_ack, nonce_slots, pending_of, answer_of,
}
use lictor.Runtime.Session.Greeting.{fail}
use lictor.Runtime.Session.Handle.{
  Event, id_of, dispatch, handle, handle_bad_line, note_io_ns, step, serve,
}
use lictor.Runtime.Session.Steps.{
  numbered, handle_stale, handle_fresh, tick_open, tick_none, hello_nonces, begin_nonces,
  end_nonces, phantom_nonces,
}

-- The last nonce that is kept of an operator.
abbrev pub nonce_of : List (String × ℕ) → String → ℕ
nonce_of m op = option (lookup m op) 0 (λ n. n)

nonce_of-insert_le :
    (m : List (String × ℕ)) (key op : String) (new : ℕ)
    → nonce_of m key ≤ new
    → nonce_of m op ≤ nonce_of (insert m key new) op
nonce_of-insert_le m key op new h = elim (Bool-cases (same_text key op)) [
  | inl e ↦
      subst (λ k. nonce_of m k ≤ nonce_of (insert m key new) k) ((same_text_iff key op).0 e)
        (rw (lookup-insert_self m key new) h)
  | inr e ↦ rw (lookup-insert_other m key op new e) (omega arith)
]

kept_nonces : {m n : List (String × ℕ)} → m ≡ n → (op : String) → nonce_of m op ≡ nonce_of n op
kept_nonces h op = ap (λ m. nonce_of m op) h

keep-no_token :
    (m : List (String × ℕ)) (o : Option AckToken) (p : Option VerifiedAck)
    → o ≡ none
    → keep_nonce m o p ≡ m
unfolding keep_nonce
keep-no_token m o p h = rw h refl

keep-no_ack :
    (m : List (String × ℕ)) (o : Option AckToken) (p : Option VerifiedAck)
    → p ≡ none
    → keep_nonce m o p ≡ m
unfolding keep_nonce
keep-no_ack m none p h = refl
keep-no_ack m (some tok) p h = rw h refl

keep-accepted :
    (m : List (String × ℕ)) (o : Option AckToken) (p : Option VerifiedAck) (tok : AckToken)
    (a : VerifiedAck)
    → o ≡ some tok
    → p ≡ some a
    → keep_nonce m o p ≡ insert m tok.operator a.nonce
unfolding keep_nonce
keep-accepted m o p tok a h e = rw (h, e) refl

accepted_result :
    (r : Result AckError VerifiedAck) (a : VerifiedAck) → (answer_of r).0 ≡ some a → r ≡ ok a
accepted_result (ok v) a h = ground arith
accepted_result (err e) a h = absurd (ground arith)

module _ {F H : Type 0} ⦃fl : Float F⦄ where
  token_answer :
      (host : Host F H) (s : Session F H) (t : TickReq F) (tok : AckToken)
      → t.ack ≡ some tok
      → check_ack host s t
        ≡ answer_of (
            verify_ack host.verifies tok s.cfg.envelope.operators
              (pending_of s.ep).0
              (pending_of s.ep).1
              (nonce_slots s))
  unfolding check_ack
  token_answer host s t tok h = rw h refl

  -- A token that is accepted has a nonce above the last one of its operator.
  accepted_above :
      (host : Host F H) (s : Session F H) (t : TickReq F) (tok : AckToken) (a : VerifiedAck)
      → t.ack ≡ some tok
      → (check_ack host s t).0 ≡ some a
      → (nonce_of s.last_nonce tok.operator < tok.nonce) × (a.nonce ≡ tok.nonce)
  accepted_above host s t tok a h e =
      let (digest, seq) = pending_of s.ep in
      let ops = s.cfg.envelope.operators in
      let accepted = accepted_result _ a (sym (ap (λ x. x.0) (token_answer host s t tok h)) ∙ e) in
      let (g, same) =
        (verify_ack-Genuine host.verifies tok ops digest seq (nonce_slots s) a).0 accepted in
      let (low, high, found) = position_from-some 0 ops tok.operator a.operator_slot g.listed in
      let slot : get_or (nonce_slots s) a.operator_slot 0 ≡ nonce_of s.last_nonce tok.operator =
        get_or-map (λ o. nonce_of s.last_nonce o) ops a.operator_slot "" 0 (omega (arith, high))
        ∙ ap (λ o. nonce_of s.last_nonce o)
            (subst (λ k. get_or ops k "" ≡ tok.operator) (omega arith) found) in
      (omega (arith, slot, g.unused), ap (λ (x : VerifiedAck). x.nonce) same)

  tick_nonces_mono :
      (host : Host F H) (s : Session F H) (t : TickReq F) (op : String)
      → nonce_of s.last_nonce op
        ≤ nonce_of (keep_nonce s.last_nonce t.ack (check_ack host s t).0) op
  tick_nonces_mono host s t op =
      let m = s.last_nonce in
      let ack = (check_ack host s t).0 in
      elim (Option-cases t.ack) [
        | inl h ↦ omega (arith, kept_nonces (keep-no_token m t.ack ack h) op)
        | inr (tok, h) ↦ elim (Option-cases ack) [
          | inl e ↦ omega (arith, kept_nonces (keep-no_ack m t.ack ack e) op)
          | inr (a, e) ↦
              let (above, same) = accepted_above host s t tok a h e in
              omega (
                arith,
                kept_nonces (keep-accepted m t.ack ack tok a h e) op,
                nonce_of-insert_le m tok.operator op a.nonce (omega (arith, above, same)),
              )
        ]
      ]

  -- The nonces that a session keeps, of every operator, do not go down.
  abbrev Grows : List (String × ℕ) → Session F H → Type 0
  Grows m s = (op : String) → nonce_of m op ≤ nonce_of s.last_nonce op

  dispatch-Grows :
      (host : Host F H) (now : Reading) (s : Session F H) (req : Request F)
      → Grows s.last_nonce (dispatch host now s req).0
  unfolding dispatch open_tick
  dispatch-Grows host now s (Request.hello h) op = omega (arith, kept_nonces (hello_nonces s h) op)
  dispatch-Grows host now s (Request.episode_begin b) op =
      omega (arith, kept_nonces (begin_nonces host s b) op)
  dispatch-Grows host now s (Request.tick t) op = elim (Option-cases s.ep) [
    | inl h ↦
        rw (tick_none host now s t h) (omega (arith, kept_nonces (phantom_nonces host s t) op))
    | inr (ep, h) ↦ rw (tick_open host now s ep t h) (tick_nonces_mono host s t op)
  ]
  dispatch-Grows host now s (Request.episode_end e) op =
      omega (arith, kept_nonces (end_nonces host now s e) op)
  dispatch-Grows host now s (Request.bye id) op = omega arith

  handle-Grows :
      (host : Host F H) (now : Reading) (s : Session F H) (req : Request F)
      → Grows s.last_nonce (handle host now s req).0
  unfolding fail fold_pending_timing
  handle-Grows host now s req op = elim (Bool-cases (leb (id_of req) s.last_id)) [
    | inl h ↦ rw (handle_stale host now s req h) (omega arith)
    | inr h ↦
        rw (handle_fresh host now s req h) (dispatch-Grows host now (numbered host s req) req op)
  ]

  step-Grows :
      (host : Host F H) (s : Session F H) (e : Event F) → Grows s.last_nonce (step host s e)
  unfolding step handle_bad_line note_io_ns fail fold_pending_timing
  step-Grows host s (Event.request now req) op = handle-Grows host now s req op
  step-Grows host s (Event.bad_line id) op = omega arith
  step-Grows host s (Event.flushed seq ns) op = omega arith

  serve-Grows :
      (host : Host F H) (s : Session F H) (es : List (Event F))
      → Grows s.last_nonce (serve host s es)
  unfolding serve
  serve-Grows host s [] op = omega arith
  serve-Grows host s (e ∷ es) op =
      omega (arith, step-Grows host s e op, serve-Grows host (step host s e) es op)

  open_tick_nonces :
      (host : Host F H) (now : Reading) (s : Session F H) (ep : Episode F) (t : TickReq F)
      → (open_tick host now s ep t).0.last_nonce
        ≡ keep_nonce s.last_nonce t.ack (check_ack host s t).0
  unfolding open_tick
  open_tick_nonces host now s ep t = refl

  spent :
      (host : Host F H) (now : Reading) (s : Session F H) (ep : Episode F) (t : TickReq F)
      (tok : AckToken) (a : VerifiedAck)
      → s.ep ≡ some ep
      → t.ack ≡ some tok
      → (check_ack host s t).0 ≡ some a
      → tok.nonce ≤ nonce_of (tick host now s t).0.last_nonce tok.operator
  spent host now s ep t tok a is_open h e =
      let (above, same) = accepted_above host s t tok a h e in
      let after : (tick host now s t).0.last_nonce ≡ insert s.last_nonce tok.operator a.nonce =
        ap (λ (x : Session F H × Response F). x.0.last_nonce) (tick_open host now s ep t is_open)
        ∙ open_tick_nonces host now s ep t
        ∙ keep-accepted s.last_nonce t.ack (check_ack host s t).0 tok a h e in
      rw (after, lookup-insert_self s.last_nonce tok.operator a.nonce) (omega (arith, same))

  -- A token that a tick of an open episode accepted is accepted by no later tick, whatever requests and
  -- broken lines come between, the ends and the starts of episodes included.
  pub token_single_use :
      (host : Host F H) (now : Reading) (s : Session F H) (ep : Episode F) (t : TickReq F)
      (tok : AckToken) (a : VerifiedAck) (es : List (Event F)) (again : TickReq F)
      → s.ep ≡ some ep
      → t.ack ≡ some tok
      → (check_ack host s t).0 ≡ some a
      → again.ack ≡ some tok
      → (check_ack host (serve host (tick host now s t).0 es) again).0 ≡ none
  token_single_use host now s ep t tok a es again is_open h e h' =
      let after = (tick host now s t).0 in
      let last = serve host after es in
      elim (Option-cases (check_ack host last again).0) [
        | inl refused ↦ refused
        | inr (b, accepted) ↦
            let (above, same) = accepted_above host last again tok b h' accepted in
            absurd (
              omega (
                arith,
                above,
                spent host now s ep t tok a is_open h e,
                serve-Grows host after es tok.operator,
              ))
      ]
