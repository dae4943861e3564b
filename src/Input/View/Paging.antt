-- ===== src/Input/View/Paging.antt =====
-- The row stays on the page (`CandidateView`, engine/src/input/candidate_view.hpp).
use ime_fcitx.Prelude.{
  ℕ, ◌+◌, ◌-◌, ◌*◌, ◌/◌, ◌%◌, ◌≤◌, ◌<◌, ◌≡◌, ◌≢◌, refl, ap, min, Bool, true, false, Option, none,
  some, ◌==◌, if◌then◌else◌, ℤ, pos, negsuc, shifted, clamped, arith, Bool-cases, inl, inr,
}
use native.Mathlib.Nat.{div-add-mod, div-add-mod', div-mul-le_self, mod-lt}
use ime_fcitx.Input.View.{
  View, page_size, page_offset, wrapped, move_cursor, page_by, clamp, set_cursor,
}

-- The row lies on the page and in the list.
pub record IsOnPage (configured count : ℕ) (v : View) : Type 0 where
  pub from_begin : page_offset configured count v ≤ v.cursor
  pub to_end : v.cursor < page_offset configured count v + page_size configured count v
  pub in_list : v.cursor < count

module _ (configured count : ℕ) where
  pub page_size-pos : (v : View) → 0 < configured → 0 < page_size configured count v
  unfolding page_size
  page_size-pos v h = ground arith

  wrapped_bounds :
      (z : ℤ) (begin end : ℕ)
      → begin < end
      → (begin ≤ wrapped z begin end) × (wrapped z begin end < end)
  wrapped_bounds (pos k) begin end h = ground arith
  wrapped_bounds (negsuc k) begin end h = ground arith

  -- From a row on its page, moving by any number of rows stays on the page.
  pub move_cursor-IsOnPage :
      (delta : ℤ) (v : View)
      → IsOnPage configured count v
      → IsOnPage configured count (move_cursor delta configured count v).0
  unfolding move_cursor page_offset page_size
  move_cursor-IsOnPage delta v o = ground (
    arith,
    wrapped_bounds (shifted v.cursor delta) (page_offset configured count v)
        (min (page_offset configured count v + page_size configured count v) count),
  )

  clamp_lem :
      (v : View)
      → 0 < configured
      → 0 < count
      → clamp configured count v ≡ record v {
        cursor = min v.cursor (count - 1);
        page = min v.cursor (count - 1) / page_size configured count v;
      }
  unfolding clamp
  clamp_lem v h k = ground (arith, page_size-pos v h)

  -- A row of the list, with the page that it lies on.
  row-IsOnPage :
      (v : View) (row : ℕ)
      → 0 < configured
      → row < count
      → IsOnPage configured count
          (record v { cursor = row; page = row / page_size configured count v })
  unfolding page_offset page_size
  row-IsOnPage v row h k =
      let size = page_size configured count v in
      let pos' : 0 < size = page_size-pos v h in
      record {
        from_begin = div-mul-le_self row size;
        to_end = omega (arith, div-add-mod' row size, mod-lt row {m = size} pos');
        in_list = k;
      }

  -- With a page size above 0, clamping brings any row of a list that is not empty onto its page.
  pub clamp-IsOnPage :
      (v : View) → 0 < configured → 0 < count → IsOnPage configured count (clamp configured count v)
  clamp-IsOnPage v h k =
      rw (clamp_lem v h k) (row-IsOnPage v (min v.cursor (count - 1)) h (omega arith))

  -- With a page size above 0, setting the row, from a row on its page, goes to the page of the new row.
  pub set_cursor-IsOnPage :
      (index : ℤ) (v : View)
      → 0 < configured
      → IsOnPage configured count v
      → IsOnPage configured count (set_cursor index configured count v).0
  unfolding set_cursor
  set_cursor-IsOnPage index v h o =
      ground (arith, o.in_list, clamp-IsOnPage (record v { cursor = clamped index (count - 1) }) h)

  page_begin-lt :
      (n size : ℕ) → 0 < size → 0 < count → n ≤ (count + size - 1) / size - 1 → n * size < count
  page_begin-lt n size h k le = grind (arith, div-add-mod (count + size - 1) size)

  clamped-le : (z : ℤ) (hi : ℕ) → clamped z hi ≤ hi
  clamped-le (pos k) hi = ground arith
  clamped-le (negsuc k) hi = omega arith

-- The view after turning the page, if the page size is not 0.
abbrev pub turned : Option (View × Bool) → View → View
turned none v = v
turned (some (v', _)) v = v'

module _ (configured count : ℕ) where
  turned_row :
      (v : View) (next : ℕ)
      → 0 < configured
      → 0 < count
      → next ≤ (count + page_size configured count v - 1) / page_size configured count v - 1
      → IsOnPage configured count (record v {
        page = next;
        cursor =
            min
              (next * page_size configured count v + v.cursor % page_size configured count v)
              (count - 1);
      })
  unfolding page_offset page_size
  turned_row v next h k le =
      let size = page_size configured count v in
      let pos' : 0 < size = page_size-pos configured count v h in
      let first = page_begin-lt configured count next size pos' k le in
      record {
        from_begin = omega (arith, first);
        to_end = omega (arith, mod-lt v.cursor {m = size} pos');
        in_list = omega arith;
      }

  page_size-turned :
      (v : View) (n : ℕ)
      → page_size configured count (record v { page = n }) ≡ page_size configured count v
  unfolding page_size
  page_size-turned v n = refl

  -- With a page size above 0, turning the page with the row kept, from a row on its page, divides by no 0
  -- and stays on the page.
  pub page_by-IsOnPage :
      (delta : ℤ) (v : View)
      → 0 < configured
      → IsOnPage configured count v
      → (page_by delta true configured count v ≢ none)
        × IsOnPage configured count (turned (page_by delta true configured count v) v)
  unfolding page_by page_offset
  page_by-IsOnPage delta v h o =
      let size = page_size configured count v in
      let last = (count + size - 1) / size - 1 in
      let next = clamped (shifted v.page delta) last in
      let o' =
        turned_row v next h (omega (arith, o.in_list))
          (clamped-le configured count (shifted v.page delta) last) in
      let pos' : 0 < size = page_size-pos configured count v h in
      let filled : (count == 0) ≡ false = ground (arith, o.in_list) in
      let sized : (size == 0) ≡ false = ground arith in
      elim (Bool-cases (next == v.page)) [
        | inl e ↦ rw (filled, sized, e) (λ n. cc, o)
        | inr e ↦ rw (filled, sized, e, page_size-turned v next) (λ n. cc, o')
      ]

-- Moving on a page [begin, end) of two rows or more.
module _ (configured count : ℕ) (v : View) (o : IsOnPage configured count v) where
  abbrev first_row : ℕ
  first_row = page_offset configured count v

  abbrev end_row : ℕ
  end_row = min (first_row + page_size configured count v) count

  abbrev at_row : ℕ → View
  at_row n = record v { cursor = n }

  row_down :
      first_row + 1 < end_row
      → move_cursor (pos 1) configured count v
        ≡ (at_row (if v.cursor + 1 == end_row then first_row else v.cursor + 1), true)
  unfolding move_cursor
  row_down two = ground (arith, o.from_begin, o.to_end, o.in_list)

  row_up :
      first_row + 1 < end_row
      → move_cursor (negsuc 0) configured count v
        ≡ (at_row (if v.cursor == first_row then end_row - 1 else v.cursor - 1), true)
  unfolding move_cursor
  row_up two = ground (arith, o.from_begin, o.to_end, o.in_list)

there_and_back :
    (c first end : ℕ)
    → first ≤ c
    → c < end
    → first + 1 < end
    → (if (if c + 1 == end then first else c + 1) == first
        then end - 1
        else (if c + 1 == end then first else c + 1) - 1)
      ≡ c
there_and_back c first end h k two = ground arith

-- From a row on its page one row down and one row up come back, around the ends as well, where the page has two
-- rows or more.
move_cursor_back :
    (configured count : ℕ) (v : View)
    → IsOnPage configured count v
    → page_offset configured count v + 1
      < min (page_offset configured count v + page_size configured count v) count
    → move_cursor (negsuc 0) configured count (move_cursor (pos 1) configured count v).0 ≡ (v, true)
unfolding page_offset page_size
move_cursor_back configured count v o two =
    let down = row_down configured count v o two in
    let o' = move_cursor-IsOnPage configured count (pos 1) v o in
    let n =
      if v.cursor + 1 == end_row configured count v o
      then first_row configured count v o
      else v.cursor + 1 in
    let up = row_up configured count (at_row configured count v o n) (rw down at o') two in
    let showing : ℕ → View × Bool = λ m. (record v { cursor = m }, true) in
    rw (down, up)
      (ap showing (
        there_and_back v.cursor (first_row configured count v o) (end_row configured count v o)
          o.from_begin (omega (arith, o.to_end, o.in_list)) two))
