-- ===== src/Benchmark/Table/Groups.antt =====
-- The groups of three digits that `fmt` makes.
use Prim.Native.Char.{Char}
use Prim.Native.String.{count}
use Prim.Native.String.append
use Prim.Native.String.{◌++◌ as str_append}
use text.Mathlib.TextLemmas.{append_assoc, append-nil, length-append, length-cons}
use mathlib.Core.Path.{subst}
use astra_exchange.Base.{
  ℕ, zero, suc, ◌-◌, ◌≤◌, ◌<◌, ◌≡◌, refl, ap, sym, ◌∙◌, String, true, List, [], ◌∷◌, ◌++◌, All,
  All-append, arith, ltb, dec_lt,
}
use astra_exchange.CsvParser.Lines.{join}
use astra_exchange.Feed.EventLog.{concat}
use astra_exchange.Benchmark.Table.Defs.{insert_at, insert_commas, fmt}

-- A text cut after so many characters.
pub cut : (n : ℕ) (s : String) → n ≤ count s → (a b : String) × (s ≡ str_append a b) × (count a ≡ n)
cut zero s h = ("", s, sym (append.nil s), refl)
cut (suc n) String.[] h = absurd (omega arith)
cut (suc n) (String.◌∷◌ c s) h =
    let (a, b, e, l) = cut n s (omega (arith, h, length-cons c s)) in
    (
      String.◌∷◌ c a,
      b,
      ap (λ t. String.◌∷◌ c t) e ∙ sym (append.cons c a b),
      length-cons c a ∙ omega (arith, l),
    )

insert_at-append :
    (d : Char) (a b : String)
    → insert_at (count a) d (str_append a b) ≡ str_append a (String.◌∷◌ d b)
unfolding insert_at
insert_at-append d String.[] b = rw (append.nil b, append.nil (String.◌∷◌ d b)) refl
insert_at-append d (String.◌∷◌ c a) b =
    rw (append.cons c a b, append.cons c a (String.◌∷◌ d b), length-cons c a)
      (ap (λ t. String.◌∷◌ c t) (insert_at-append d a b))

-- The parts between the commas, the first of at most three characters, the others of three.
pub record Grouped (s t : String) : Type 0 where
  pub first : String
  pub rest : List String
  pub joined : t ≡ join "," (first ∷ rest)
  pub whole : concat (first ∷ rest) ≡ s
  pub short : (0 < count first) × (count first ≤ 3)
  pub threes : All (λ g. count g ≡ 3) rest

join-snoc :
    (f : String) (fs : List String) (g : String)
    → join "," (f ∷ (fs ++ g ∷ [])) ≡ str_append (join "," (f ∷ fs)) (String.◌∷◌ "," g)
join-snoc f [] g = refl
join-snoc f (h ∷ fs) g = rw (join-snoc h fs g) (
    sym (
      append_assoc f (String.◌∷◌ "," (join "," (h ∷ fs))) (String.◌∷◌ "," g)
      ∙ ap (str_append f) (append.cons "," (join "," (h ∷ fs)) (String.◌∷◌ "," g))))

concat-snoc : (fs : List String) (g : String) → concat (fs ++ g ∷ []) ≡ str_append (concat fs) g
concat-snoc [] g = append-nil g ∙ sym (append.nil g)
concat-snoc (f ∷ fs) g = ap (str_append f) (concat-snoc fs g) ∙ sym (append_assoc f (concat fs) g)

-- The loop has put commas into what stands before it, and leaves the rest.
insert_commas-Grouped :
    (rounds : ℕ) (a r : String)
    → 0 < count a
    → count a ≤ rounds
    → (t : String) × Grouped a t
      × (insert_commas rounds (count a - 3) (str_append a r) ≡ str_append t r)
unfolding insert_commas
insert_commas-Grouped zero a r z l = absurd (omega (arith, z, l))
insert_commas-Grouped (suc rounds) a r z l = elim (dec_lt 3 (count a)) [
  | no n ↦
      let q : count a - 3 ≡ 0 = omega (arith, n) in
      (
        a,
        record {
          first = a;
          rest = [];
          joined = refl;
          whole = append-nil a;
          short = (z, omega (arith, n));
          threes = tt;
        },
        rw q refl,
      )
  | yes n ↦
      let (b, c, e, m) = cut (count a - 3) a (omega arith) in
      let s = String.◌∷◌ "," (str_append c r) in
      let (t, g, h) =
        insert_commas-Grouped rounds b s (omega (arith, m, n)) (omega (arith, m, l)) in
      let p : ltb 0 (count a - 3) ≡ true = ground (arith, n) in
      let k : insert_at (count a - 3) "," (str_append a r) ≡ str_append b s =
        ap (λ i. insert_at i "," (str_append a r)) (sym m)
        ∙ ap (λ w. insert_at (count b) "," (str_append w r)) e
        ∙ ap (insert_at (count b) ",") (append_assoc b c r)
        ∙ insert_at-append "," b (str_append c r) in
      (
        str_append t (String.◌∷◌ "," c),
        record {
          first = g.first;
          rest = g.rest ++ c ∷ [];
          joined =
              ap (λ w. str_append w (String.◌∷◌ "," c)) g.joined ∙ sym (join-snoc g.first g.rest c);
          whole = concat-snoc (g.first ∷ g.rest) c ∙ ap (λ w. str_append w c) g.whole ∙ sym e;
          short = g.short;
          threes =
              All-append (λ g. count g ≡ 3) g.rest (c ∷ []) g.threes
                (omega (arith, ap count e, length-append b c, m, n), tt);
        },
        rw (p, k)
            (ap (λ i. insert_commas rounds (i - 3) (str_append b s)) (sym m)
              ∙ h
              ∙ sym
                  (append_assoc t (String.◌∷◌ "," c) r ∙ ap (str_append t) (append.cons "," c r))),
      )
]

-- The text of a number is cut into groups of three characters from its end, with a comma between them; the
-- first has one to three.
pub fmt-Grouped : (s : String) → 0 < count s → Grouped s (fmt s)
unfolding fmt
fmt-Grouped s z =
    let (t, g, h) = insert_commas-Grouped (count s) s "" z (omega arith) in
    let e : fmt s ≡ t =
      ap (insert_commas (count s) (count s - 3)) (sym (append-nil s)) ∙ h ∙ append-nil t in
    subst (Grouped s) (sym e) g
