-- ===== src/Composition/RollBack.antt =====
-- `add_bopomofo_keys` is atomic: where it refuses, the segments and the caret are as before
-- (engine/src/buffer/composition_buffer.cpp).
use ime_fcitx.Prelude.{
  ℕ, ◌≤◌, ◌≡◌, refl, inl, inr, Bool, true, false, not, ◌&&◌, ◌||◌, Option, none, some, List, [],
  ◌∷◌, ◌==◌, length, arith, Bool-cases, Option-cases, take-length,
}
use ime_fcitx.Bopomofo.Syllable.{Syllable}
use ime_fcitx.Bopomofo.Hsu.{KeyResult}
use ime_fcitx.Bopomofo.Keymap.{KeyboardLayout}
use ime_fcitx.Composition.Segment.{Segment}
use ime_fcitx.Composition.Buffer.{Buffer, unmark, segment_before}
use ime_fcitx.Composition.Typing.{
  insert_segment, retype_segment, active_segment, enter_key, InputResult, add_bopomofo_key,
  key_answer, add_bopomofo_key_cases, feed_keys, roll_back, finish_keys, is_being_typed,
  add_bopomofo_keys,
}
use ime_fcitx.Composition.Validity.{IsValidBuffer, position}
use ime_fcitx.Composition.Validity.Typing.{add_bopomofo_key-IsValidBuffer, feed_keys-IsValidBuffer}
use ime_fcitx.Composition.Ahead.{IsAhead, add_bopomofo_key-IsAhead, feed_keys-IsAhead}

module _ (b : Buffer) (h : b.caret ≡ length b.segments) where
  start-IsAhead :
      is_being_typed (segment_before b) ≡ false → IsAhead (length b.segments) b.segments b
  start-IsAhead c = record {
    kept = take-length b.segments;
    past_them = omega arith;
    within = omega arith;
    closed = inr c;
  }

  -- What a roll back from such a state restores.
  roll_back_ahead :
      (b' : Buffer)
      → IsAhead (length b.segments) b.segments b'
      → ((roll_back (length b.segments) b.caret b').segments ≡ b.segments)
        × ((roll_back (length b.segments) b.caret b').caret ≡ b.caret)
  unfolding roll_back
  roll_back_ahead b' a = (a.kept, refl)

abbrev pub SameText : Buffer → Buffer → Type 0
SameText b b' = (b'.segments ≡ b.segments) × (b'.caret ≡ b.caret)

finish_keys-atomic :
    (b b' : Buffer) (r : Option InputResult)
    → b.caret ≡ length b.segments
    → IsAhead (length b.segments) b.segments b'
    → (finish_keys (length b.segments) b.caret b' r).1 ≡ none
    → SameText b (finish_keys (length b.segments) b.caret b' r).0
unfolding finish_keys
finish_keys-atomic b b' none h a k = roll_back_ahead b h b' a
finish_keys-atomic b b' (some x) h a k = elim (Bool-cases x.completed) [
  | inl c ↦ absurd (cc)
  | inr c ↦ rw c (roll_back_ahead b h b' a)
]

-- Where `add_bopomofo_keys` answers that it refused the keys, the segments and the caret are the ones
-- from before.
pub add_bopomofo_keys-atomic :
    (keys : List ℕ) (tone_key : ℕ) (layout : KeyboardLayout) (strict : Bool) (b : Buffer)
    → (add_bopomofo_keys keys tone_key layout strict b).1 ≡ none
    → SameText b (add_bopomofo_keys keys tone_key layout strict b).0
unfolding add_bopomofo_keys
add_bopomofo_keys-atomic keys tone_key layout strict b k =
    let refuse = not (b.caret == length b.segments) || is_being_typed (segment_before b) in
    let fed = feed_keys layout strict keys b in
    elim (Bool-cases refuse) [
      | inl e ↦ rw (e, add_bopomofo_keys) (refl, refl)
      | inr e ↦
          let h : b.caret ≡ length b.segments = ground arith in
          let c : is_being_typed (segment_before b) ≡ false = ground arith in
          let a = feed_keys-IsAhead layout strict keys (start-IsAhead b h c) in
          elim (Bool-cases fed.1) [
            | inl f ↦
                let t = add_bopomofo_key tone_key layout true fed.0 in
                rw (e, add_bopomofo_keys)
                  (rw f (
                    finish_keys-atomic b t.0 t.1 h (add_bopomofo_key-IsAhead layout tone_key a)
                      (rw f at (rw (e, add_bopomofo_keys) at k))))
            | inr f ↦ rw (e, add_bopomofo_keys) (rw f (roll_back_ahead b h fed.0 a))
          ]
    ]

roll_back-IsValidBuffer :
    (b b' : Buffer)
    → b.caret ≡ length b.segments
    → IsAhead (length b.segments) b.segments b'
    → IsValidBuffer b
    → position b'.selection_anchor ≤ length b.segments
    → IsValidBuffer (roll_back (length b.segments) b.caret b')
unfolding roll_back
roll_back-IsValidBuffer b b' h a v u = record {
  caret_bound = rw a.kept (omega arith);
  anchor_bound = rw a.kept u;
  edited_bound = omega arith;
  each = rw a.kept v.each;
}

finish_keys-IsValidBuffer :
    (b b' : Buffer) (r : Option InputResult)
    → b.caret ≡ length b.segments
    → IsAhead (length b.segments) b.segments b'
    → IsValidBuffer b
    → IsValidBuffer b'
    → position b'.selection_anchor ≤ length b.segments
    → IsValidBuffer (finish_keys (length b.segments) b.caret b' r).0
unfolding finish_keys
finish_keys-IsValidBuffer b b' none h a v w u = roll_back-IsValidBuffer b b' h a v u
finish_keys-IsValidBuffer b b' (some x) h a v w u = elim (Bool-cases x.completed) [
  | inl c ↦ rw c w
  | inr c ↦ rw c (roll_back-IsValidBuffer b b' h a v u)
]

-- The keys drop the mark.
enter_key-anchor :
    (layout : KeyboardLayout) (key : ℕ) (upper : Bool) (o : Option Segment) (s : Syllable)
    (r : KeyResult) (b : Buffer)
    → (enter_key layout key upper o s r b).0.selection_anchor ≡ b.selection_anchor
unfolding enter_key retype_segment insert_segment
enter_key-anchor layout key upper (some g) s r b = refl
enter_key-anchor layout key upper none s r b = refl

add_bopomofo_key-anchor :
    (layout : KeyboardLayout) (key : ℕ) (b : Buffer)
    → (add_bopomofo_key key layout true b).0.selection_anchor ≡ none
add_bopomofo_key-anchor layout key b = elim (add_bopomofo_key_cases key layout true b) [
  | inl (_, e) ↦ rw e refl
  | inr (_, e) ↦
      let p = key_answer key layout true b in
      rw e (enter_key-anchor layout key true (active_segment b) p.0 p.1 (unmark b))
]

feed_keys-anchor :
    (layout : KeyboardLayout) (strict : Bool) (keys : List ℕ) (b : Buffer)
    → position (feed_keys layout strict keys b).0.selection_anchor ≤ position b.selection_anchor
unfolding feed_keys
feed_keys-anchor layout strict [] b = omega arith
feed_keys-anchor layout strict (key ∷ keys) b =
    let t = add_bopomofo_key key layout true b in
    let dropped : position t.0.selection_anchor ≤ position b.selection_anchor =
      rw (add_bopomofo_key-anchor layout key b) (omega arith) in
    let after : position (feed_keys layout strict keys t.0).0.selection_anchor
        ≤ position b.selection_anchor =
      omega (arith, feed_keys-anchor layout strict keys t.0, dropped) in
    elim (Option-cases t.1) [
      | inl e ↦ rw (e, feed_keys) dropped
      | inr (r, e) ↦
          rw (e, feed_keys)
            (elim (Bool-cases (strict && not r.natural_extension)) [
              | inl s ↦ rw s dropped
              | inr s ↦ rw s after
            ])
    ]

module _ (keys : List ℕ) (tone_key : ℕ) (layout : KeyboardLayout) (strict : Bool) {b : Buffer}
    (v : IsValidBuffer b) where
  pub add_bopomofo_keys-IsValidBuffer :
      IsValidBuffer (add_bopomofo_keys keys tone_key layout strict b).0
  unfolding add_bopomofo_keys
  add_bopomofo_keys-IsValidBuffer =
      let refuse = not (b.caret == length b.segments) || is_being_typed (segment_before b) in
      let fed = feed_keys layout strict keys b in
      elim (Bool-cases refuse) [
        | inl e ↦ rw (e, add_bopomofo_keys) v
        | inr e ↦
            let h : b.caret ≡ length b.segments = ground arith in
            let c : is_being_typed (segment_before b) ≡ false = ground arith in
            let a = feed_keys-IsAhead layout strict keys (start-IsAhead b h c) in
            elim (Bool-cases fed.1) [
              | inl f ↦
                  let t = add_bopomofo_key tone_key layout true fed.0 in
                  rw (e, add_bopomofo_keys)
                    (rw f (
                      finish_keys-IsValidBuffer b t.0 t.1 h
                        (add_bopomofo_key-IsAhead layout tone_key a) v
                        (add_bopomofo_key-IsValidBuffer layout tone_key true
                          (feed_keys-IsValidBuffer layout strict keys v))
                        (rw (add_bopomofo_key-anchor layout tone_key fed.0) (omega arith))))
              | inr f ↦
                  rw (e, add_bopomofo_keys)
                    (rw f (
                      roll_back-IsValidBuffer b fed.0 h a v
                        (omega (arith, feed_keys-anchor layout strict keys b, v.anchor_bound))))
            ]
      ]
