-- ===== src/MatchingEngine/Register.antt =====
-- The engine as it is constructed, and `registerSymbol`.
use astra_exchange.Base.{
  ℕ, ◌≡◌, refl, inl, inr, String, true, List, arith, eq_iff, All, Option-cases,
}
use astra_exchange.PriceMap
use astra_exchange.PriceMap.{is_some}
use astra_exchange.Index
use astra_exchange.RiskValidator.{has_symbol, register_symbol, has_symbol-register_symbol}
use astra_exchange.OrderBook.Defs.{OrderBook, new_book}
use astra_exchange.OrderBook.Query.{has_order}
use astra_exchange.OrderBook.Valid.{BookValid}
use astra_exchange.MatchingEngine.Defs.{
  MatchingEngine, Books, new_engine, find_book, emplace_book, register,
}
use astra_exchange.MatchingEngine.Valid.{EngineValid, BookKnown}

pub new_book-BookValid : (s : String) → BookValid (new_book s)
unfolding new_book PriceMap.has_key PriceMap.find Index.find
new_book-BookValid s = record {
  bids_valid = tt;
  asks_valid = tt;
  bids_in_word = omega arith;
  asks_in_word = omega arith;
  uncrossed = λ p q h k. cc;
  bids_indexed = λ id p. refl;
  asks_indexed = λ id p. refl;
  index_once = tt;
}

-- A new engine is valid.
pub new_engine-EngineValid : EngineValid new_engine
unfolding new_engine has_symbol
new_engine-EngineValid = record { books_valid = tt; known = tt; paired = λ s h. cc }

emplace_book-paired :
    (s t : String) (e : MatchingEngine)
    → EngineValid e
    → has_symbol t (register_symbol s e.validator).symbols ≡ true
    → is_some (find_book t (emplace_book s e.books)) ≡ true
unfolding emplace_book find_book
emplace_book-paired s t e v h =
    ground (arith, has_symbol-register_symbol s t e.validator, eq_iff s t, v.paired t)

pub emplace_book-All :
    (P : OrderBook → Type 0) (s : String) (bs : Books)
    → P (new_book s)
    → All (λ x. P x.1) bs
    → All (λ x. P x.1) (emplace_book s bs)
unfolding emplace_book
emplace_book-All P s bs h a = elim (Option-cases (find_book s bs)) [
  | inl n ↦ rw (n, emplace_book, All) (h, a)
  | inr (b, f) ↦ rw (f, emplace_book) a
]

new_book-Known : (used : List ℕ) (s : String) → BookKnown used (new_book s)
unfolding new_book has_order Index.find
new_book-Known used s id h = cc

-- Registering a symbol, new or known, keeps the engine valid.
pub register-EngineValid :
    (s : String) (e : MatchingEngine) → EngineValid e → EngineValid (register s e)
unfolding register register_symbol
register-EngineValid s e v = record {
  books_valid = emplace_book-All BookValid s e.books (new_book-BookValid s) v.books_valid;
  known =
      emplace_book-All (BookKnown e.validator.used_ids) s e.books
        (new_book-Known e.validator.used_ids s) v.known;
  paired = λ t h. emplace_book-paired s t e v h;
}
