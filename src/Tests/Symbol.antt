-- ===== src/Tests/Symbol.antt =====
-- Runs of the theorems on the symbol menu.
use ime_fcitx.Prelude.{true, false, some, [], ◌∷◌, ◌≡◌, refl, get_elem?, codes, arith}
use ime_fcitx.Symbol.Menu.{
  SymbolMenuState, new, matches, menu_items, rebuild_menu, open_menu, close_menu, select, front,
}
use ime_fcitx.Symbol.Menu.Epochs.{
  opened, backed, selected, operate, operate_all, IsShown, new-IsShown, operate_all-IsShown,
  matches_stale,
}
use ime_fcitx.Symbol.Menu.Selection.{select_shown}

-- The menu open at the common symbols.
abbrev common : SymbolMenuState
common = operate_all (opened ∷ selected 2 ∷ []) new

common-IsShown : IsShown common
common-IsShown = operate_all-IsShown (opened ∷ selected 2 ∷ []) new-IsShown

matches_stale_example :
    (matches 1 (operate_all (opened ∷ backed ∷ []) (close_menu (open_menu new))) ≡ false)
    × (matches 1 (operate_all (opened ∷ backed ∷ []) (open_menu (open_menu new))) ≡ false)
unfolding open_menu matches rebuild_menu
matches_stale_example = matches_stale 1 (opened ∷ backed ∷ []) (open_menu new) refl (omega arith)

select_shown_example :
    (get_elem? common.menu 1 ≡ some (codes "、"))
    × ((select 1 common).0 ≡ common)
    × (common.active ≡ true)
unfolding operate_all operate open_menu rebuild_menu menu_items select front
select_shown_example = select_shown 1 common common-IsShown refl
