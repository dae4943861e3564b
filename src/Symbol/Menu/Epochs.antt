-- ===== src/Symbol/Menu/Epochs.antt =====
-- The menu on the screen stays the one of its epoch, engine/src/symbol/symbol_menu.cpp.
use ime_fcitx.Prelude.{
  ℕ, ◌+◌, ◌^◌, ◌≤◌, ◌<◌, true, false, not, ◌||◌, List, [], ◌∷◌, length, ◌==◌, ◌≡◌, refl, arith,
  if◌then◌else◌,
}
use ime_fcitx.Symbol.Menu.{
  SymbolMenuState, new, matches, menu_items, rebuild_menu, open_menu, close_menu, in_category, back,
  select,
}

pub data Operation : Type 0 where
  opened closed backed : Operation
  selected : ℕ → Operation

unfoldable pub operate : Operation → SymbolMenuState → SymbolMenuState
operate opened s = open_menu s
operate closed s = close_menu s
operate backed s = back s
operate (selected n) s = (select n s).0

unfoldable pub operate_all : List Operation → SymbolMenuState → SymbolMenuState
operate_all [] s = s
operate_all (o ∷ os) s = operate_all os (operate o s)

-- What is shown is the level that the state is in, and nothing when the menu is closed.
unfoldable pub expected_menu : SymbolMenuState → List (List ℕ)
expected_menu s = if s.active then menu_items s.category else []

pub record IsShown (s : SymbolMenuState) : Type 0 where
  pub menu_shown : s.menu ≡ expected_menu s
  pub closed_at_top : (s.active || not (in_category s)) ≡ true

pub new-IsShown : IsShown new
unfolding expected_menu in_category
new-IsShown = record { menu_shown = refl; closed_at_top = refl }

operate-IsShown : (o : Operation) (s : SymbolMenuState) → IsShown s → IsShown (operate o s)
unfolding operate open_menu close_menu back select rebuild_menu expected_menu in_category
operate-IsShown opened s h = record { menu_shown = refl; closed_at_top = refl }
operate-IsShown closed s h =
    let m = h.menu_shown in
    let c = h.closed_at_top in record { menu_shown = ground arith; closed_at_top = ground arith }
operate-IsShown backed s h =
    let m = h.menu_shown in
    let c = h.closed_at_top in record { menu_shown = ground arith; closed_at_top = ground arith }
operate-IsShown (selected n) s h =
    let m = h.menu_shown in
    let c = h.closed_at_top in record { menu_shown = ground arith; closed_at_top = ground arith }

-- A menu that shows the level it is in, and nothing when it is closed, does so after any operations.
pub operate_all-IsShown :
    (os : List Operation) {s : SymbolMenuState} → IsShown s → IsShown (operate_all os s)
unfolding operate_all
operate_all-IsShown [] h = h
operate_all-IsShown (o ∷ os) {s} h = operate_all-IsShown os (operate-IsShown o s h)

epoch_operate :
    (o : Operation) (s : SymbolMenuState)
    → s.epoch + 1 < 2 ^ 64
    → (s.epoch ≤ (operate o s).epoch) × ((operate o s).epoch ≤ s.epoch + 1)
unfolding operate open_menu close_menu back select rebuild_menu in_category
epoch_operate opened s h = ground arith
epoch_operate closed s h = ground arith
epoch_operate backed s h = ground arith
epoch_operate (selected n) s h = ground arith

epoch_operate_all :
    (os : List Operation) (s : SymbolMenuState)
    → s.epoch + length os < 2 ^ 64
    → s.epoch ≤ (operate_all os s).epoch
unfolding operate_all
epoch_operate_all [] s h = omega arith
epoch_operate_all (o ∷ os) s h =
    let (low, high) = epoch_operate o s (omega arith) in
    omega (arith, epoch_operate_all os (operate o s))

changed_epoch :
    (s : SymbolMenuState)
    → s.active ≡ true
    → s.epoch + 1 < 2 ^ 64
    → ((close_menu s).epoch ≡ s.epoch + 1) × ((open_menu s).epoch ≡ s.epoch + 1)
unfolding close_menu open_menu rebuild_menu
changed_epoch s a h = ground arith

-- Once the menu has been closed or opened anew, its former epoch matches no more, whatever happens to
-- it later, until the counter wraps.
pub matches_stale :
    (epoch : ℕ) (os : List Operation) (s : SymbolMenuState)
    → matches epoch s ≡ true
    → s.epoch + length os + 1 < 2 ^ 64
    → (matches epoch (operate_all os (close_menu s)) ≡ false)
      × (matches epoch (operate_all os (open_menu s)) ≡ false)
unfolding matches
matches_stale epoch os s m h =
    let active : s.active ≡ true = ground arith in
    let same : s.epoch ≡ epoch = ground arith in
    let (closed_next, open_next) = changed_epoch s active (omega arith) in
    let later_closed = epoch_operate_all os (close_menu s) (omega arith) in
    let later_open = epoch_operate_all os (open_menu s) (omega arith) in
    let past_closed : ((operate_all os (close_menu s)).epoch == epoch) ≡ false = ground arith in
    let past_open : ((operate_all os (open_menu s)).epoch == epoch) ≡ false = ground arith in
    (ground arith, ground arith)
