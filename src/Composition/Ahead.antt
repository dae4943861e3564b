-- ===== src/Composition/Ahead.antt =====
-- Typing behind segments that stay as they are, for `add_bopomofo_keys` of
-- engine/src/buffer/composition_buffer.cpp.
use ime_fcitx.Prelude.{
  ℕ, ◌-◌, ◌≤◌, ◌<◌, ◌≡◌, ◌∙◌, ◌⊎◌, inl, inr, Bool, true, false, not, ◌&&◌, Option, none, some, List,
  [], ◌∷◌, length, arith, Bool-cases, Option-cases, take, length-modify, length-insert_idx,
  take-insert_idx, take-modify,
}
use ime_fcitx.Bopomofo.Syllable.{Syllable}
use ime_fcitx.Bopomofo.Hsu.{KeyResult}
use ime_fcitx.Bopomofo.Keymap.{KeyboardLayout}
use ime_fcitx.Composition.Segment.{Segment, retype}
use ime_fcitx.Composition.Buffer.{Buffer, unmark, segment_before}
use ime_fcitx.Composition.Typing.{
  insert_segment, retype_segment, active_segment, enter_key, add_bopomofo_key, key_answer,
  add_bopomofo_key_cases, feed_keys, is_being_typed,
}

-- The first `n` segments are `gs`, and typing goes on behind them.
pub record IsAhead (n : ℕ) (gs : List Segment) (b : Buffer) : Type 0 where
  pub kept : take n b.segments ≡ gs
  pub past_them : n ≤ b.caret
  pub within : b.caret ≤ length b.segments
  pub closed : (n < b.caret) ⊎ (is_being_typed (segment_before b) ≡ false)

active_segment_open :
    (b : Buffer) {g : Segment}
    → active_segment b ≡ some g
    → is_being_typed (segment_before b) ≡ true
unfolding active_segment
active_segment_open b h = ground arith

module _ {n : ℕ} {gs : List Segment} where
  unmark-IsAhead : {b : Buffer} → IsAhead n gs b → IsAhead n gs (unmark b)
  unmark-IsAhead a = record {
    kept = a.kept;
    past_them = a.past_them;
    within = a.within;
    closed = a.closed;
  }

  insert_segment-IsAhead :
      (g : Segment) {b : Buffer} → IsAhead n gs b → IsAhead n gs (insert_segment g b)
  unfolding insert_segment
  insert_segment-IsAhead g {b} a = record {
    kept = take-insert_idx n b.caret g b.segments a.past_them a.within ∙ a.kept;
    past_them = omega arith;
    within = omega (arith, length-insert_idx b.caret g b.segments);
    closed = inl (omega arith);
  }

  retype_segment-IsAhead :
      (s : Syllable) (done : Bool) (alternatives : List (List ℕ)) {b : Buffer}
      → n < b.caret
      → IsAhead n gs b
      → IsAhead n gs (retype_segment s done alternatives b)
  unfolding retype_segment
  retype_segment-IsAhead s done alternatives {b} lt a = record {
    kept =
        take-modify n (b.caret - 1) (retype s done alternatives) b.segments (omega arith) ∙ a.kept;
    past_them = a.past_them;
    within =
        omega
          (arith, a.within, length-modify (b.caret - 1) (retype s done alternatives) b.segments);
    closed = inl lt;
  }

  enter_key-IsAhead :
      (layout : KeyboardLayout) (key : ℕ) (upper : Bool) (o : Option Segment) (s : Syllable)
      (r : KeyResult) {b : Buffer}
      → (o ≡ none) ⊎ (n < b.caret)
      → IsAhead n gs b
      → IsAhead n gs (enter_key layout key upper o s r b).0
  unfolding enter_key
  enter_key-IsAhead layout key upper (some g) s r h a =
      retype_segment-IsAhead s _ _ (ground arith) a
  enter_key-IsAhead layout key upper none s r h a = insert_segment-IsAhead _ a

  active_or_ahead : (b : Buffer) → IsAhead n gs b → (active_segment b ≡ none) ⊎ (n < b.caret)
  active_or_ahead b a = elim (Option-cases (active_segment b)) [
    | inl e ↦ inl e
    | inr (g, e) ↦ inr (ground (arith, a.closed, active_segment_open b e))
  ]

  pub add_bopomofo_key-IsAhead :
      (layout : KeyboardLayout) (key : ℕ) {b : Buffer}
      → IsAhead n gs b
      → IsAhead n gs (add_bopomofo_key key layout true b).0
  add_bopomofo_key-IsAhead layout key {b} a = elim (add_bopomofo_key_cases key layout true b) [
    | inl (_, e) ↦ rw e (unmark-IsAhead a)
    | inr (_, e) ↦
        let p = key_answer key layout true b in
        rw e (
          enter_key-IsAhead layout key true (active_segment b) p.0 p.1 {b = unmark b}
            (active_or_ahead b a) (unmark-IsAhead a))
  ]

  pub feed_keys-IsAhead :
      (layout : KeyboardLayout) (strict : Bool) (keys : List ℕ) {b : Buffer}
      → IsAhead n gs b
      → IsAhead n gs (feed_keys layout strict keys b).0
  unfolding feed_keys
  feed_keys-IsAhead layout strict [] a = a
  feed_keys-IsAhead layout strict (key ∷ keys) {b} a =
      let a' = add_bopomofo_key-IsAhead layout key a in
      let after = feed_keys-IsAhead layout strict keys a' in
      elim (Option-cases (add_bopomofo_key key layout true b).1) [
        | inl e ↦ rw (e, feed_keys) a'
        | inr (r, e) ↦
            rw (e, feed_keys)
              (elim (Bool-cases (strict && not r.natural_extension)) [
                | inl s ↦ rw s a'
                | inr s ↦ rw s after
              ])
      ]
