-- ===== src/Receipt/Tick/Tails.antt =====
-- The last events of a chain, which a receipt embeds: crates/lictor-receipt/src/tick.rs.
use Prim.Native.String.{String}
use lictor.Prelude.{
  ℕ, zero, suc, ◌+◌, ◌≤◌, ◌<◌, ◌%◌, ◌^◌, ◌≡◌, refl, sym, ap, ◌∙◌, List, [], ◌∷◌, length, drop,
  arith, length-drop,
}
use mathlib.Core.Path.{subst}
use lictor.Receipt.Tick.{Links, first_seq}
use lictor.Receipt.Tick.Chain.{IsChained}

module _ {T : Type 0} (l : Links T) where
  -- The hash before some events that end in a head.
  abbrev pub front : List T → String → String
  front [] head = head
  front (e ∷ es) head = l.prev_of e

  restart :
      (first i : ℕ) (prev : String) (es : List T) (head : String)
      → IsChained l first i prev es head
      → IsChained l first i (front es head) es head
  restart first i prev [] head h = refl
  restart first i prev (e ∷ es) head (a, h) =
      (record { number = a.number; link = refl; content = a.content }, h)

  drop-IsChained :
      (k first i : ℕ) (prev : String) (es : List T) (head : String)
      → IsChained l first i prev es head
      → IsChained l first (i + k) (front (drop k es) head) (drop k es) head
  drop-IsChained zero first i prev es head h =
      subst (λ j. IsChained l first j (front es head) es head) (omega arith)
        (restart first i prev es head h)
  drop-IsChained (suc k) first i prev [] head h = refl
  drop-IsChained (suc k) first i prev (e ∷ es) head (a, h) =
      subst (λ j. IsChained l first j (front (drop k es) head) (drop k es) head) (omega arith)
        (drop-IsChained k first (suc i) (l.hash_of e) es head h)

  -- Numbers count from the first event, or from an earlier one.
  shift :
      (first j i : ℕ) (prev : String) (es : List T) (head : String)
      → IsChained l first (j + i) prev es head
      → IsChained l (first + j) i prev es head
  shift first j i prev [] head h = h
  shift first j i prev (e ∷ es) head (a, h) = (
    record {
      number = a.number ∙ ap (λ n. n % 2 ^ 32) (omega arith);
      link = a.link;
      content = a.content;
    },
    shift first j (suc i) (l.hash_of e) es head
        (subst (λ n. IsChained l first n (l.hash_of e) es head) (omega arith) h),
  )

  starts_at :
      (k : ℕ) (prev : String) (es : List T) (head : String)
      → k < 2 ^ 32
      → (length es ≡ 0 → k ≡ 0)
      → IsChained l k 0 prev es head
      → first_seq l es ≡ k
  starts_at k prev [] head fits empty h = sym (empty refl)
  starts_at k prev (e ∷ es) head fits empty (a, h) = omega (arith, a.number)

  -- The events of a chain from number k on are a chain from number k.
  pub tail-IsChained :
      (k : ℕ) (prev : String) (es : List T) (head : String)
      → k < 2 ^ 32
      → (length es ≤ k → k ≡ 0)
      → IsChained l 0 0 prev es head
      → (first_seq l (drop k es) ≡ k)
        × IsChained l (first_seq l (drop k es)) 0 (front (drop k es) head) (drop k es) head
  tail-IsChained k prev es head fits some_left h =
      let moved : IsChained l k 0 (front (drop k es) head) (drop k es) head =
        subst (λ n. IsChained l n 0 (front (drop k es) head) (drop k es) head) (omega arith)
          (shift 0 k 0 (front (drop k es) head) (drop k es) head (
            subst (λ n. IsChained l 0 n (front (drop k es) head) (drop k es) head) (omega arith)
              (drop-IsChained k 0 0 prev es head h))) in
      let number : first_seq l (drop k es) ≡ k =
        starts_at k (front (drop k es) head) (drop k es) head fits
          (λ e. some_left (omega (arith, length-drop k es))) moved in
      (
        number,
        subst (λ n. IsChained l n 0 (front (drop k es) head) (drop k es) head) (sym number) moved,
      )
