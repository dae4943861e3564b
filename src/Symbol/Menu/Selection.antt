-- ===== src/Symbol/Menu/Selection.antt =====
-- What a selection in the menu of engine/src/symbol/symbol_menu.cpp chooses.
use ime_fcitx.Prelude.{
  All, zero, All-get_elem?, ℕ, suc, Bool, true, false, not, ◌||◌, none, some, List, [], ◌∷◌, map,
  length, get_elem?, leb, ◌==◌, ◌≡◌, ◌≢◌, refl, ap, sym, ◌∙◌, Bool-cases, Option-cases, inl, inr,
  arith,
}
use ime_fcitx.Symbol.Categories.{SymbolCategory, categories}
use ime_fcitx.Symbol.Menu.{
  SymbolMenuState, menu_items, select, single, label_of, first_symbol, front,
}
use ime_fcitx.Symbol.Menu.Epochs.{IsShown, expected_menu}

-- The label of a category without symbols is one symbol.
abbrev is_labelled : SymbolCategory → Bool
is_labelled c = not (length c.symbols == 0) || length c.label == 1

abbrev IsLabelled : SymbolCategory → Type 0
IsLabelled c = is_labelled c ≡ true

categories-IsLabelled : All IsLabelled categories
categories-IsLabelled = (
  refl,
  (
    refl,
    (refl, (refl, (refl, (refl, (refl, (refl, (refl, (refl, (refl, (refl, (refl, tt))))))))))),
  ),
)

labels_single :
    (n : ℕ) {c : SymbolCategory}
    → get_elem? categories n ≡ some c
    → length c.symbols ≡ 0
    → length c.label ≡ 1
labels_single n f direct =
    let labelled = All-get_elem? IsLabelled categories n categories-IsLabelled f in ground arith

one_symbol : (label : List ℕ) → length label ≡ 1 → label ≡ front label ∷ []
unfolding front
one_symbol [] h = ground arith
one_symbol (c ∷ []) h = refl
one_symbol (c ∷ d ∷ label) h = ground arith

get_elem?-map :
    {A B : Type 0} (f : A → B) (n : ℕ) (xs : List A) (x : A)
    → get_elem? xs n ≡ some x
    → get_elem? (map f xs) n ≡ some (f x)
get_elem?-map f n [] x e = absurd (cc)
get_elem?-map f zero (y ∷ xs) x e = let same : y ≡ x = cc in ap (λ z. some (f z)) same
get_elem?-map f (suc n) (y ∷ xs) x e = get_elem?-map f n xs x e

singles :
    (n : ℕ) (symbols : List ℕ) {item : List ℕ}
    → get_elem? (map single symbols) n ≡ some item
    → item ≡ front item ∷ []
unfolding front
singles n [] e = ground arith
singles zero (c ∷ symbols) e = ground arith
singles (suc n) (c ∷ symbols) e = singles n symbols e

select_outside :
    (n : ℕ) (s : SymbolMenuState)
    → (not s.active || leb (length s.menu) n) ≡ true
    → (select n s).1 ≡ none
unfolding select
select_outside n s g = rw g refl

select_top :
    (n : ℕ) (s : SymbolMenuState) {symbol : ℕ}
    → (not s.active || leb (length s.menu) n) ≡ false
    → s.category ≡ none
    → (select n s).1 ≡ some symbol
    → (c : SymbolCategory) × (get_elem? categories n ≡ some c)
      × (length c.symbols ≡ 0)
      × (front c.label ≡ symbol)
      × ((select n s).0 ≡ s)
unfolding select
select_top n s {symbol} g k e = elim (Option-cases (get_elem? categories n)) [
  | inl f ↦ absurd (let result : (select n s).1 ≡ none = simp (g, k, f) refl in cc)
  | inr (c, f) ↦ elim (Bool-cases (length c.symbols == 0)) [
    | inl direct ↦
        let result : select n s ≡ (s, some (front c.label)) = simp (g, k, f, direct) refl in
        let chosen : some (front c.label) ≡ some symbol = ap (λ p. p.1) (sym result) ∙ e in
        (c, f, ground arith, cc, ap (λ p. p.0) result)
    | inr more ↦ absurd (let result : (select n s).1 ≡ none = simp (g, k, f, more) refl in cc)
  ]
]

nothing_chosen : {symbol : ℕ} → none ≢ some symbol
nothing_chosen e = cc

nothing_shown : {item : List ℕ} → none ≢ some item
nothing_shown e = cc

select_inside :
    (n : ℕ) (s : SymbolMenuState) {chosen symbol : ℕ}
    → (not s.active || leb (length s.menu) n) ≡ false
    → s.category ≡ some chosen
    → (select n s).1 ≡ some symbol
    → (item : List ℕ) × (get_elem? s.menu n ≡ some item)
      × (front item ≡ symbol)
      × ((select n s).0 ≡ s)
unfolding select
select_inside n s {chosen} {symbol} g k e =
    let result : select n s ≡ (s, first_symbol (get_elem? s.menu n)) = simp (g, k) refl in
    elim (Option-cases (get_elem? s.menu n)) [
      | inl f ↦ absurd (nothing_chosen (sym (ap (λ p. p.1) result ∙ ap first_symbol f) ∙ e))
      | inr (item, f) ↦
          let found : some (front item) ≡ some symbol =
            sym (ap (λ p. p.1) result ∙ ap first_symbol f) ∙ e in
          (item, f, cc, ap (λ p. p.0) result)
    ]

shown_top :
    (s : SymbolMenuState)
    → IsShown s
    → s.active ≡ true
    → s.category ≡ none
    → s.menu ≡ map label_of categories
unfolding expected_menu menu_items
shown_top s h a k = let m = h.menu_shown in simp (a, k) at m

category_single :
    (chosen n : ℕ) {item : List ℕ}
    → get_elem? (menu_items (some chosen)) n ≡ some item
    → item ≡ front item ∷ []
unfolding menu_items
category_single chosen n e = elim (Option-cases (get_elem? categories chosen)) [
  | inl f ↦ absurd (nothing_shown (simp f at e))
  | inr (c, f) ↦ singles n c.symbols (simp f at e)
]

shown_inside :
    (s : SymbolMenuState) (chosen : ℕ) {item : List ℕ} (n : ℕ)
    → IsShown s
    → s.active ≡ true
    → s.category ≡ some chosen
    → get_elem? s.menu n ≡ some item
    → item ≡ front item ∷ []
unfolding expected_menu menu_items
shown_inside s chosen {item} n h a k f =
    let m : s.menu ≡ menu_items (some chosen) = h.menu_shown ∙ simp (a, k) refl in
    category_single chosen n {item = item} (ap (λ xs. get_elem? xs n) (sym m) ∙ f)

-- Where the menu shows the level it is in, a chosen symbol is the item that is shown at the chosen place, and choosing it leaves the menu as it is.
pub select_shown :
    (n : ℕ) (s : SymbolMenuState) {symbol : ℕ}
    → IsShown s
    → (select n s).1 ≡ some symbol
    → (get_elem? s.menu n ≡ some (symbol ∷ [])) × ((select n s).0 ≡ s) × (s.active ≡ true)
select_shown n s h e = elim (Bool-cases (not s.active || leb (length s.menu) n)) [
  | inl g ↦ absurd (let result = select_outside n s g in cc)
  | inr g ↦
      let active : s.active ≡ true = ground arith in
      elim (Option-cases s.category) [
        | inl k ↦
            let (c, f, direct, same, kept) = select_top n s g k e in
            let label = one_symbol c.label (labels_single n f direct) in
            (
              ap (λ m. get_elem? m n) (shown_top s h active k)
                  ∙ get_elem?-map label_of n categories c f
                  ∙ ap some (label ∙ ap single same),
              kept,
              active,
            )
        | inr (chosen, k) ↦
            let (item, f, same, kept) = select_inside n s g k e in
            (f ∙ ap some (shown_inside s chosen n h active k f ∙ ap single same), kept, active)
      ]
]
