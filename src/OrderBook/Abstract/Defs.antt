-- ===== src/OrderBook/Abstract/Defs.antt =====
-- A book without the order of its index: the quotient, and the operations on it.
use mathlib.Core.Path.{subst}
use mathlib.Core.Quot
use mathlib.Core.Quot.{Quot, Quot-set}
use astra_exchange.Base.{ℕ, sym}
use astra_exchange.Types.{Order}
use astra_exchange.OrderBook.Defs.{OrderBook}
use astra_exchange.OrderBook.Match.{add_order, cancel_order}
use astra_exchange.OrderBook.Abstract.Same.{SameBook}
use astra_exchange.OrderBook.Abstract.Enter.{add_order-SameOutcome, cancel_order-SameBook}

abbrev pub AbstractBook : Type 0
AbstractBook = Quot SameBook

abbrev pub abstract : OrderBook → AbstractBook
abstract b = Quot.mk b

pub add_order-SameBook :
    (now : ℕ → ℕ) (o : Order) (b d : OrderBook)
    → SameBook b d
    → SameBook (add_order now b o).book (add_order now d o).book
add_order-SameBook now o b d (e, h) =
    subst (λ d. SameBook (add_order now b o).book (add_order now d o).book) (sym e)
      (add_order-SameOutcome b d.index h now o).3

pub cancelled-SameBook :
    (id : ℕ) (b d : OrderBook) → SameBook b d → SameBook (cancel_order b id).1 (cancel_order d id).1
cancelled-SameBook id b d (e, h) =
    subst (λ d. SameBook (cancel_order b id).1 (cancel_order d id).1) (sym e)
      (cancel_order-SameBook b d.index id h).1

-- The book after `addOrder`.
unfoldable pub add_abstract : (ℕ → ℕ) → Order → AbstractBook → AbstractBook
add_abstract now o =
    Quot.lift Quot-set (λ b. Quot.mk (add_order now b o).book)
      (λ b d h. Quot.sound (add_order-SameBook now o b d h))

-- The book after `cancelOrder`.
unfoldable pub cancel_abstract : ℕ → AbstractBook → AbstractBook
cancel_abstract id =
    Quot.lift Quot-set (λ b. Quot.mk (cancel_order b id).1)
      (λ b d h. Quot.sound (cancelled-SameBook id b d h))
