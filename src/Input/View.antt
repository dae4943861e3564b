-- ===== src/Input/View.antt =====
-- `CandidateView`, engine/src/input/candidate_view.hpp: the page and the row of a candidate list. Page,
-- row, page size and count are far below 2 ^ 31, and page and row never become negative.
pub mod Paging
use ime_fcitx.Prelude.{
  ℕ, ◌+◌, ◌-◌, ◌*◌, ◌/◌, ◌%◌, min, Bool, true, false, not, ◌&&◌, ◌||◌, Option, none, some, ◌==◌,
  ltb, leb, if◌then◌else◌, ℤ, pos, negsuc, shifted, is_below, clamped, magnitude,
}

pub record View : Type 0 where
  pub page : ℕ
  pub cursor : ℕ
  pub expanded : Bool

-- `reset`
abbrev pub new : View
new = record { page = 0; cursor = 0; expanded = false }

unfoldable pub page_size : ℕ → ℕ → View → ℕ
page_size configured count v = if v.expanded && not (count == 0) then count else configured

unfoldable pub page_offset : ℕ → ℕ → View → ℕ
page_offset configured count v = v.page * page_size configured count v

-- The row to go to, inside the rows [begin, end).
abbrev pub wrapped : ℤ → ℕ → ℕ → ℕ
wrapped next begin end =
    let low = if is_below next begin then end - 1 else magnitude next in
    if leb end low then begin else low

unfoldable pub move_cursor : ℤ → ℕ → ℕ → View → View × Bool
move_cursor delta configured count v =
    let size = page_size configured count v in
    let begin = page_offset configured count v in
    let end = min (begin + size) count in
    let next = wrapped (shifted v.cursor delta) begin end in
    if count == 0 || size == 0 || leb end begin || next == v.cursor
    then (v, false)
    else (record v { cursor = next }, true)

-- `none` is the division by a page size of 0, which the code does not guard against.
unfoldable pub page_by : ℤ → Bool → ℕ → ℕ → View → Option (View × Bool)
page_by delta preserve configured count v =
    let size = page_size configured count v in
    let page_count = (count + size - 1) / size in
    let next = clamped (shifted v.page delta) (page_count - 1) in
    let turned = record v { page = next } in
    let row = min (page_offset configured count turned + v.cursor % size) (count - 1) in
    if count == 0
    then some (v, false)
    else if size == 0
    then none
    else if next == v.page
    then some (v, false)
    else if preserve
    then some (record turned { cursor = row }, true)
    else some (turned, true)

unfoldable pub clamp : ℕ → ℕ → View → View
clamp configured count v =
    let row = min v.cursor (count - 1) in
    let size = page_size configured count v in
    if count == 0
    then record v { cursor = 0; page = 0 }
    else if size == 0
    then record v { cursor = row }
    else record v { cursor = row; page = row / size }

unfoldable pub set_cursor : ℤ → ℕ → ℕ → View → View × Bool
set_cursor index configured count v =
    let next = clamped index (count - 1) in
    if count == 0 || next == v.cursor
    then (v, false)
    else (clamp configured count (record v { cursor = next }), true)
