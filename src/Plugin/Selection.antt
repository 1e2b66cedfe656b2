-- ===== src/Plugin/Selection.antt =====
-- Which tests a marker sequence selects, and in which order.
use mathlib.Core.Path.{subst}
use pytest_hardware_template.Prelude.{
  String, Bool, true, false, Option, none, some, List, [], ◌∷◌, ◌++◌, ◌&&◌, not, ◌==◌, ◌≡◌, ◌≢◌,
  ◌⊎◌, inl, inr, if◌then◌else◌, elem, refl, sym, ◌∙◌, ap, eq_iff, ok, chain-ok, ok-injective, arith,
  Option-cases, Bool-cases,
}
use pytest_hardware_template.Plugin.{
  Item, has, matching_markers, Groups, append, group, empty_marker, in_order, ordered,
  apply_marker_sequence,
}
use mathlib.Core.List.{append_assoc, append-nil}

-- The tests that pass a test, in their order.
abbrev pub filtered : (Item → Bool) → List Item → List Item
filtered p [] = []
filtered p (i ∷ is) = if p i then i ∷ filtered p is else filtered p is

-- The tests of each step, step by step.
abbrev pub by_step : List String → List Item → List Item
by_step [] items = []
by_step (m ∷ ms) items = filtered (λ i. has i m) items ++ by_step ms items

abbrev pub has_none : List String → Item → Bool
has_none [] i = true
has_none (m ∷ ms) i = not (has i m) && has_none ms i

matching-elem :
    (i : Item) (m : String) (ms : List String)
    → elem m (matching_markers i ms) ≡ (elem m ms && has i m)
unfolding matching_markers
matching-elem i m [] = refl
matching-elem i m (n ∷ ms) = ground (arith, eq_iff m n, matching-elem i m ms)

-- What a list of texts is: nothing, one text, or more.
List-cases :
    (l : List String)
    → (l ≡ [])
      ⊎ ((m : String) × (l ≡ m ∷ []))
      ⊎ ((m : String) × (n : String) × (ms : List String) × (l ≡ m ∷ n ∷ ms))
List-cases [] = inl refl
List-cases (m ∷ []) = inr (inl (m, refl))
List-cases (m ∷ n ∷ ms) = inr (inr (m, n, ms, refl))

matching-none : (i : Item) (ms : List String) → has_none ms i ≡ true → matching_markers i ms ≡ []
unfolding matching_markers
matching-none i [] h = refl
matching-none i (m ∷ ms) h = ground (arith, matching-none i ms)

matching-some : (i : Item) (ms : List String) → has_none ms i ≡ false → matching_markers i ms ≢ []
unfolding matching_markers
matching-some i [] h = cc
matching-some i (m ∷ ms) h = λ e. ground (arith, matching-some i ms)

-- What the loop over the items has grouped at its end.
abbrev pub Grouped : List String → List Item → Groups → List Item → Groups × List Item → Type 0
Grouped sequence items g d r =
    ((m : String) → elem m sequence ≡ true → r.0 m ≡ g m ++ filtered (λ i. has i m) items)
    × (r.1 ≡ d ++ filtered (has_none sequence) items)

step-none :
    (sequence : List String) (i : Item) (is : List Item) (g : Groups) (d : List Item)
    (r : Groups × List Item)
    → matching_markers i sequence ≡ []
    → Grouped sequence is g (d ++ i ∷ []) r
    → Grouped sequence (i ∷ is) g d r
step-none sequence i is g d r e (p, q) = (
  λ m s.
      let f : has i m ≡ false = ground (arith, matching-elem i m sequence) in
      p m s
      ∙ ap (λ b. g m ++ (if b then i ∷ filtered (λ j. has j m) is else filtered (λ j. has j m) is))
          (sym f),
  elim (Bool-cases (has_none sequence i)) [
    | inl t ↦
        q
        ∙ append_assoc d (i ∷ []) _
        ∙ ap
            (λ b.
              d
              ++ (if b
                  then i ∷ filtered (has_none sequence) is
                  else filtered (has_none sequence) is))
            (sym t)
    | inr f ↦ absurd (matching-some i sequence f e)
  ],
)

added :
    (b : Bool) (x : List Item) (i : Item) (rest : List Item)
    → (if b then x ++ i ∷ [] else x) ++ rest ≡ x ++ (if b then i ∷ rest else rest)
added true x i rest = append_assoc x (i ∷ []) rest
added false x i rest = refl

step-one :
    (sequence : List String) (i : Item) (is : List Item) (g : Groups) (d : List Item)
    (r : Groups × List Item) (k : String)
    → matching_markers i sequence ≡ k ∷ []
    → Grouped sequence is (append k i g) d r
    → Grouped sequence (i ∷ is) g d r
step-one sequence i is g d r k e (p, q) = (
  λ m s.
      let f : has i m ≡ (m == k) = ground (arith, matching-elem i m sequence) in
      p m s
      ∙ added (m == k) (g m) i _
      ∙ ap (λ b. g m ++ (if b then i ∷ filtered (λ j. has j m) is else filtered (λ j. has j m) is))
          (sym f),
  elim (Bool-cases (has_none sequence i)) [
    | inl t ↦ absurd (ground (arith, matching-none i sequence t))
    | inr f ↦
        q
        ∙ ap
            (λ b.
              d
              ++ (if b
                  then i ∷ filtered (has_none sequence) is
                  else filtered (has_none sequence) is))
            (sym f)
  ],
)

group-Grouped :
    (sequence : List String) (items : List Item) (g : Groups) (d : List Item)
    (r : Groups × List Item)
    → group sequence items g d ≡ ok r
    → Grouped sequence items g d r
unfolding group
group-Grouped sequence [] g d r h =
    subst (Grouped sequence [] g d) (ok-injective h)
      (λ m s. sym (append-nil (g m)), sym (append-nil d))
group-Grouped sequence (i ∷ is) g d r h = elim (List-cases (matching_markers i sequence)) [
  | inl e ↦
      step-none sequence i is g d r e (group-Grouped sequence is g (d ++ i ∷ []) r (ground arith))
  | inr (inl (k, e)) ↦
      step-one sequence i is g d r k e (group-Grouped sequence is (append k i g) d r (ground arith))
  | inr (inr (m, n, ms, e)) ↦ absurd (ground arith)
]

-- The groups agree with the tests of each step.
abbrev pub Agree : List String → List Item → Groups → Type 0
Agree [] items g = Unit
Agree (m ∷ ms) items g = (g m ≡ filtered (λ i. has i m) items) × Agree ms items g

Agree-all :
    (ms sequence : List String) (items : List Item) (g : Groups)
    → ((m : String) → elem m ms ≡ true → elem m sequence ≡ true)
    → ((m : String) → elem m sequence ≡ true → g m ≡ filtered (λ i. has i m) items)
    → Agree ms items g
Agree-all [] sequence items g s h = tt
Agree-all (m ∷ ms) sequence items g s h = (
  h m (s m (ground (arith, eq_iff m m))),
  Agree-all ms sequence items g (λ n e. s n (ground arith)) h,
)

in_order-by_step :
    (ms : List String) (items : List Item) (g : Groups)
    → Agree ms items g
    → in_order ms g ≡ by_step ms items
unfolding in_order
in_order-by_step [] items g h = refl
in_order-by_step (m ∷ ms) items g (a, h) =
    ap (λ l. l ++ in_order ms g) a
    ∙ ap (λ l. filtered (λ i. has i m) items ++ l) (in_order-by_step ms items g h)

-- Each step has a test.
abbrev pub NoneEmpty : List String → List Item → Type 0
NoneEmpty [] items = Unit
NoneEmpty (m ∷ ms) items = (filtered (λ i. has i m) items ≢ []) × NoneEmpty ms items

not_empty :
    (l : List Item) (m : String) (rest : Option String)
    → elim l [ [] ↦ some m | i ∷ is ↦ rest ] ≡ none
    → (l ≢ []) × (rest ≡ none)
not_empty [] m rest h = cc
not_empty (i ∷ is) m rest h = (λ e. cc, h)

empty_marker-NoneEmpty :
    (ms : List String) (items : List Item) (g : Groups)
    → Agree ms items g
    → empty_marker ms g ≡ none
    → NoneEmpty ms items
unfolding empty_marker
empty_marker-NoneEmpty [] items g a h = tt
empty_marker-NoneEmpty (m ∷ ms) items g (e, a) h =
    let (n, r) = not_empty (g m) m (empty_marker ms g) h in
    (λ f. n (e ∙ f), empty_marker-NoneEmpty ms items g a r)

ordered-ok :
    (sequence : List String) (r : Groups × List Item) (s d : List Item)
    → ordered sequence r ≡ ok (s, d)
    → (empty_marker sequence r.0 ≡ none) × (s ≡ in_order sequence r.0) × (d ≡ r.1)
ordered-ok sequence (g, l) s d h = elim (Option-cases (empty_marker sequence g)) [
  | inl e ↦ (e, ground arith, ground arith)
  | inr (m, e) ↦ absurd (ground arith)
]

-- A sequence that is applied selects, step by step in the order of the sequence, the tests with the
-- step's marker, in the order in which they were collected; it deselects the tests with no marker of
-- the sequence, in their order; and every step has a test.
pub apply_marker_sequence-by_step :
    (sequence : List String) (items selected deselected : List Item)
    → apply_marker_sequence sequence items ≡ ok (selected, deselected)
    → (selected ≡ by_step sequence items)
      × (deselected ≡ filtered (has_none sequence) items)
      × NoneEmpty sequence items
unfolding apply_marker_sequence
apply_marker_sequence-by_step sequence items selected deselected h =
    let (r, a, k) = chain-ok (group sequence items (λ m. []) []) _ h in
    let (p, q) = group-Grouped sequence items (λ m. []) [] r a in
    let g = Agree-all sequence sequence items r.0 (λ m e. e) p in
    let (e, s, d) = ordered-ok sequence r selected deselected k in
    (
      s ∙ in_order-by_step sequence items r.0 g,
      d ∙ q,
      empty_marker-NoneEmpty sequence items r.0 g e,
    )
