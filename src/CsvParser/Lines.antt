-- ===== src/CsvParser/Lines.antt =====
-- Lines split and parsed.
use Prim.Native.Char.{Char, code}
use Prim.Native.String.append
use Prim.Native.String.{◌++◌ as str_append}
use astra_exchange.Base.{
  ℕ, ◌<◌, u64_mod, ◌≡◌, ◌≢◌, refl, bind_some, ◌==◌, ==_iff, String, false, Option, some, List, [],
  ◌∷◌, All, arith,
}
use astra_exchange.Base.Int.{ℤ}
use astra_exchange.Types.{Side, OrderType, Order, new_order}
use astra_exchange.CsvParser.Defs.{split, side_of, type_of, parse_fields, parse_line}

-- A text in which a character does not occur.
abbrev pub Free : Char → String → Type 0
Free d String.[] = Unit {0}
Free d (String.◌∷◌ c s) = ((code c == code d) ≡ false) × Free d s

-- The fields with the delimiter between them.
abbrev pub join : Char → List String → String
join d [] = ""
join d (f ∷ []) = f
join d (f ∷ g ∷ fs) = str_append f (String.◌∷◌ d (join d (g ∷ fs)))

-- The last field is not empty.
abbrev pub Closes : List String → Type 0
Closes [] = Unit {0}
Closes (f ∷ []) = f ≢ ""
Closes (f ∷ g ∷ fs) = Closes (g ∷ fs)

pub split-field :
    (d : Char) (f s : String) → Free d f → split (str_append f (String.◌∷◌ d s)) d ≡ f ∷ split s d
unfolding split
split-field d String.[] s h =
    rw (append.nil (String.◌∷◌ d s), split, (==_iff (code d) (code d)).1 refl) refl
split-field d (String.◌∷◌ c f) s h =
    rw (append.cons c f (String.◌∷◌ d s), split, split-field d f s h.1, h.0) refl

split-last : (d : Char) (f : String) → Free d f → f ≢ "" → split f d ≡ f ∷ []
unfolding split
split-last d String.[] h n = absurd (n refl)
split-last d (String.◌∷◌ c String.[]) h n = rw h.0 refl
split-last d (String.◌∷◌ c (String.◌∷◌ b f)) h n =
    rw (split-last d (String.◌∷◌ b f) h.1 (λ e. cc), h.0) refl

-- Fields without the delimiter, the last of them not empty, are what their line splits into.
pub split-join :
    (d : Char) (fs : List String) → All (λ f. Free d f) fs → Closes fs → split (join d fs) d ≡ fs
unfolding split
split-join d [] h c = refl
split-join d (f ∷ []) h c = split-last d f h.0 c
split-join d (f ∷ g ∷ fs) h c =
    rw (split-field d f (join d (g ∷ fs)) h.0, split-join d (g ∷ fs) h.1 c) refl

-- A line of seven fields or more, printed with its delimiters, parses to the order that its first seven
-- fields name. No field has a comma in it, the last field is not empty, the side and the type are among those
-- that the parser knows, and the standard library's conversions accept the numbers.
pub parse_line-join :
    (stoull : String → Option ℕ) (fixed_price : String → Option ℤ)
    (f0 f1 symbol f3 f4 f5 f6 : String) (more : List String) (ts id qty : ℕ) (side : Side)
    (type : OrderType) (price : ℤ)
    → All (λ f. Free "," f) (f0 ∷ f1 ∷ symbol ∷ f3 ∷ f4 ∷ f5 ∷ f6 ∷ more)
    → Closes (f6 ∷ more)
    → stoull f0 ≡ some ts
    → stoull f1 ≡ some id
    → side_of f3 ≡ some side
    → type_of f4 ≡ some type
    → fixed_price f5 ≡ some price
    → stoull f6 ≡ some qty
    → parse_line stoull fixed_price (join "," (f0 ∷ f1 ∷ symbol ∷ f3 ∷ f4 ∷ f5 ∷ f6 ∷ more))
      ≡ some (new_order id symbol side type price qty ts)
unfolding parse_line parse_fields
parse_line-join stoull fixed_price f0 f1 symbol f3 f4 f5 f6 more ts id qty side type price h n a b c
      d e g =
    rw (split-join "," (f0 ∷ f1 ∷ symbol ∷ f3 ∷ f4 ∷ f5 ∷ f6 ∷ more) h n, a, b, c, d, e, g) refl

module _ (stoull : String → Option ℕ) (fixed_price : String → Option ℤ) where
  fields-unfilled :
      (fs : List String) (o : Order)
      → ((s : String) (n : ℕ) → stoull s ≡ some n → n < u64_mod)
      → parse_fields stoull fixed_price fs ≡ some o
      → (o.filled_qty ≡ 0) × (o.quantity < u64_mod)
  unfolding parse_fields new_order
  fields-unfilled [] o bound e = cc
  fields-unfilled (f0 ∷ []) o bound e = cc
  fields-unfilled (f0 ∷ f1 ∷ []) o bound e = cc
  fields-unfilled (f0 ∷ f1 ∷ f2 ∷ []) o bound e = cc
  fields-unfilled (f0 ∷ f1 ∷ f2 ∷ f3 ∷ []) o bound e = cc
  fields-unfilled (f0 ∷ f1 ∷ f2 ∷ f3 ∷ f4 ∷ []) o bound e = cc
  fields-unfilled (f0 ∷ f1 ∷ f2 ∷ f3 ∷ f4 ∷ f5 ∷ []) o bound e = cc
  fields-unfilled (f0 ∷ f1 ∷ f2 ∷ f3 ∷ f4 ∷ f5 ∷ f6 ∷ fs) o bound e =
      let (ts, _, e1) = bind_some (stoull f0) _ o e in
      let (id, _, e2) = bind_some (stoull f1) _ o e1 in
      let (side, _, e3) = bind_some (side_of f3) _ o e2 in
      let (type, _, e4) = bind_some (type_of f4) _ o e3 in
      let (price, _, e5) = bind_some (fixed_price f5) _ o e4 in
      let (qty, h, e6) = bind_some (stoull f6) _ o e5 in
      let q = bound f6 qty h in ground (arith, q, e6)

-- An order that a line gives is unfilled, and its quantity is what `stoull` answers for some text.
pub parse_line-unfilled :
    (stoull : String → Option ℕ) (fixed_price : String → Option ℤ) (line : String) (o : Order)
    → ((s : String) (n : ℕ) → stoull s ≡ some n → n < u64_mod)
    → parse_line stoull fixed_price line ≡ some o
    → (o.filled_qty ≡ 0) × (o.quantity < u64_mod)
unfolding parse_line
parse_line-unfilled stoull fixed_price line o bound e =
    fields-unfilled stoull fixed_price (split line ",") o bound e
