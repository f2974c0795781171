-- ===== src/Generator/Stream.antt =====
-- What a list of generated orders is, with no mention of how it is drawn: the new ids count upwards, and a
-- cancel names an earlier limit order that no cancel before it named.
use mathlib.Core.Path.{subst}
use astra_exchange.Base.{
  ℕ, suc, ◌+◌, ◌≤◌, ◌<◌, ◌≡◌, ◌≢◌, refl, ap, ◌∙◌, inl, inr, String, Bool, List, [], ◌∷◌, ◌++◌,
  arith, length, sum_by, sum_by-append, ◌==◌, ◌&&◌, str_eq, eq_iff, if◌then◌else◌, Bool-cases,
  &&-eq-true, ==_iff,
}
use astra_exchange.RiskValidator.{is_limit}
use astra_exchange.Types.{cancel, Order, pending}

-- The symbol and the id of an order.
abbrev pub Entry : Type 0
Entry = String × ℕ

-- A new order, with the time of its round, of at most 500 units.
pub record Made (ts : ℕ) (o : Order) : Type 0 where
  pub unfilled : o.filled_qty ≡ 0
  pub unanswered : o.status ≡ pending
  pub dated : o.timestamp ≡ ts
  pub small : o.quantity ≤ 500

abbrev pub enlist : Order → List Entry → List Entry
enlist o live = if is_limit o.type then (o.symbol, o.id) ∷ live else live

-- `live` are the limit orders that no cancel has named, `k` is the last id given.
pub data Sent (o : Order) (live : List Entry) (k : ℕ) : List Entry → ℕ → Type 0 where
  issued : o.type ≢ cancel → o.id ≡ suc k → Sent o live k (enlist o live) (suc k)
  cancels :
      (before after : List Entry)
      → o.type ≡ cancel
      → live ≡ before ++ (o.symbol, o.id) ∷ after
      → Sent o live k (before ++ after) k

-- The orders of the rounds from `i` on.
pub data Stream : List Entry → ℕ → ℕ → List Order → List Entry → ℕ → Type 0 where
  done : {live : List Entry} {k i : ℕ} → Stream live k i [] live k
  more :
      {live live' live'' : List Entry} {k k' k'' i : ℕ} (o : Order) (os : List Order)
      → Made i o
      → Sent o live k live' k'
      → Stream live' k' (suc i) os live'' k''
      → Stream live k i (o ∷ os) live'' k''

pub Stream-append :
    {a b c : List Entry} {k l m : ℕ} (i j : ℕ) (xs ys : List Order)
    → Stream a k i xs b l
    → j ≡ i + length xs
    → Stream b l j ys c m
    → Stream a k i (xs ++ ys) c m
Stream-append {b = b} {c = c} {l = l} {m = m} i j [] ys done e t =
    subst (λ n. Stream b l n ys c m) (e ∙ omega arith) t
Stream-append i j (x ∷ xs) ys (more o os d s r) e t =
    more x (xs ++ ys) d s (Stream-append (suc i) j xs ys r (omega (arith, e)) t)

-- Each entry stands in the second list at least as often as in the first.
abbrev pub Within : List Entry → List Entry → Type 0
Within xs ys = (f : Entry → ℕ) → sum_by f xs ≤ sum_by f ys

abbrev one : Bool → ℕ
one b = if b then 1 else 0

abbrev mark : Entry → Entry → ℕ
mark x y = one (str_eq y.0 x.0 && (y.1 == x.1))

mark_same : (x y : Entry) → 0 < mark x y → y ≡ x
mark_same x y h = elim (Bool-cases (str_eq y.0 x.0 && (y.1 == x.1))) [
  | inl t ↦
      let (a, b) = &&-eq-true (str_eq y.0 x.0) (y.1 == x.1) t in
      let c : y.0 ≡ x.0 = (eq_iff y.0 x.0).0 a in
      let d : y.1 ≡ x.1 = (==_iff y.1 x.1).0 b in ap (λ s. (s, y.1)) c ∙ ap (λ n. (x.0, n)) d
  | inr n ↦ absurd (omega (arith, h, ap one n))
]

mark_self : (x : Entry) → mark x x ≡ 1
mark_self x = rw ((eq_iff x.0 x.0).1 refl, (==_iff x.1 x.1).1 refl) refl

-- An entry that is counted in a list divides it.
found :
    (x : Entry) (ys : List Entry)
    → 0 < sum_by (mark x) ys
    → (before : List Entry) × (after : List Entry) × (ys ≡ before ++ x ∷ after)
found x [] h = absurd (omega (arith, h))
found x (y ∷ ys) h = elim (Bool-cases (str_eq y.0 x.0 && (y.1 == x.1))) [
  | inl t ↦ ([], ys, ap (λ z. z ∷ ys) (mark_same x y (omega (arith, ap one t))))
  | inr n ↦
      let (before, after, e) = found x ys (omega (arith, h, ap one n)) in
      (y ∷ before, after, ap (λ l. y ∷ l) e)
]

-- Where an entry of the first list goes, it goes from the second too.
pub Within-removal :
    (x : Entry) (xs xs' ys : List Entry)
    → Within xs ys
    → ((f : Entry → ℕ) → sum_by f xs' + f x ≡ sum_by f xs)
    → (before : List Entry) × (after : List Entry) × (ys ≡ before ++ x ∷ after)
      × Within xs' (before ++ after)
Within-removal x xs xs' ys w r =
    let (before, after, e) = found x ys (omega (arith, w (mark x), r (mark x), mark_self x)) in
    (
      before,
      after,
      e,
      λ f. omega (
        arith,
        w f,
        r f,
        ap (sum_by f) e,
        sum_by-append f before (x ∷ after),
        sum_by-append f before after,
      ),
    )
