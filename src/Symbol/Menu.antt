-- ===== src/Symbol/Menu.antt =====
-- `SymbolMenuState`, engine/src/symbol/symbol_menu.cpp: the first level of the menu lists the categories,
-- the second the symbols of one.
pub mod Epochs
pub mod Selection
use ime_fcitx.Prelude.{
  ℕ, ◌+◌, ◌^◌, ◌%◌, Bool, true, false, not, ◌&&◌, ◌||◌, Option, none, some, List, [], ◌∷◌, map,
  length, get_elem?, leb, ◌==◌, if◌then◌else◌,
}
use ime_fcitx.Symbol.Categories.{SymbolCategory, categories}

-- `category` is none for the first level.
pub record SymbolMenuState : Type 0 where
  pub active : Bool
  pub epoch : ℕ
  pub category : Option ℕ
  pub menu : List (List ℕ)

abbrev pub new : SymbolMenuState
new = record { active = false; epoch = 0; category = none; menu = [] }

unfoldable pub matches : ℕ → SymbolMenuState → Bool
matches epoch s = s.active && s.epoch == epoch

abbrev pub single : ℕ → List ℕ
single symbol = symbol ∷ []

abbrev pub label_of : SymbolCategory → List ℕ
label_of c = c.label

-- The items of a level; the code reads no category past the end.
unfoldable pub menu_items : Option ℕ → List (List ℕ)
menu_items none = map label_of categories
menu_items (some n) = elim (get_elem? categories n) [ none ↦ [] | some c ↦ map single c.symbols ]

unfoldable pub rebuild_menu : SymbolMenuState → SymbolMenuState
rebuild_menu s = record s { menu = menu_items s.category }

-- The epoch is a 64-bit counter.
abbrev pub next_epoch : ℕ → ℕ
next_epoch epoch = (epoch + 1) % 2 ^ 64

unfoldable pub open_menu : SymbolMenuState → SymbolMenuState
open_menu s = rebuild_menu (record s { active = true; epoch = next_epoch s.epoch; category = none })

unfoldable pub close_menu : SymbolMenuState → SymbolMenuState
close_menu s =
    if not s.active
    then s
    else record s { active = false; epoch = next_epoch s.epoch; category = none; menu = [] }

unfoldable pub in_category : SymbolMenuState → Bool
in_category s = elim s.category [ none ↦ false | some n ↦ true ]

unfoldable pub back : SymbolMenuState → SymbolMenuState
back s = if not (in_category s) then s else rebuild_menu (record s { category = none })

-- The first code point of an item, 0 if it has none.
unfoldable pub front : List ℕ → ℕ
front [] = 0
front (symbol ∷ symbols) = symbol

abbrev pub first_symbol : Option (List ℕ) → Option ℕ
first_symbol none = none
first_symbol (some item) = some (front item)

-- The state after the selection, and the symbol when one was chosen.
unfoldable pub select : ℕ → SymbolMenuState → SymbolMenuState × Option ℕ
select n s = if not s.active || leb (length s.menu) n then (s, none) else elim s.category [
  | none ↦ elim (get_elem? categories n) [
    | none ↦ (s, none)
    | some c ↦
        if not (length c.symbols == 0)
        then (rebuild_menu (record s { category = some n }), none)
        else (s, some (front c.label))
  ]
  | some chosen ↦ (s, first_symbol (get_elem? s.menu n))
]
