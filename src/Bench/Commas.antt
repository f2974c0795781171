-- ===== src/Bench/Commas.antt =====
-- The parts between commas.
use Prim.Native.Char.{code}
use Prim.Native.String.append
use Prim.Native.String.{◌++◌ as str_append}
use astra_exchange.Base.{
  ◌≡◌, refl, ap, ◌∙◌, ◌==◌, String, true, List, [], ◌∷◌, All, Bool-cases, inl, inr,
}
use astra_exchange.CsvParser.Lines.{Free, join}
use astra_exchange.Bench.Defs.{split_comma, has_comma}

split_comma-part :
    (f s : String) → Free "," f → split_comma (str_append f (String.◌∷◌ "," s)) ≡ f ∷ split_comma s
unfolding split_comma
split_comma-part String.[] s h = rw (append.nil (String.◌∷◌ "," s), split_comma) refl
split_comma-part (String.◌∷◌ c f) s h =
    rw (append.cons c f (String.◌∷◌ "," s), split_comma, split_comma-part f s h.1, h.0) refl

split_comma-last : (f : String) → Free "," f → split_comma f ≡ f ∷ []
unfolding split_comma
split_comma-last String.[] h = refl
split_comma-last (String.◌∷◌ c f) h = rw (split_comma-last f h.1, h.0) refl

-- Parts without commas, at least one, are what their text splits into.
pub split_comma-join :
    (f : String) (fs : List String)
    → All (λ f. Free "," f) (f ∷ fs)
    → split_comma (join "," (f ∷ fs)) ≡ f ∷ fs
split_comma-join f [] h = split_comma-last f h.0
split_comma-join f (g ∷ fs) h =
    split_comma-part f (join "," (g ∷ fs)) h.0 ∙ ap (λ l. f ∷ l) (split_comma-join g fs h.1)

pub has_comma-join : (f s : String) → has_comma (str_append f (String.◌∷◌ "," s)) ≡ true
unfolding has_comma
has_comma-join String.[] s = rw (append.nil (String.◌∷◌ "," s), has_comma) refl
has_comma-join (String.◌∷◌ c f) s = elim (Bool-cases (code c == code ",")) [
  | inl y ↦ rw (append.cons c f (String.◌∷◌ "," s), has_comma, y) refl
  | inr n ↦ rw (append.cons c f (String.◌∷◌ "," s), has_comma, n) (has_comma-join f s)
]
