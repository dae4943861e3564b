-- ===== src/Composition/Session/Staleness.antt =====
-- Equal revisions mean equal text, over any session (`revision`, engine/src/buffer/composition_buffer.cpp).
use ime_fcitx.Prelude.{
  ℕ, ◌+◌, ◌%◌, ◌^◌, ◌≡◌, ◌≤◌, ◌<◌, refl, ◌∙◌, inl, inr, Bool, true, not, ◌||◌, ◌&&◌, ◌==◌, length,
  Option, none, some, List, [], ◌∷◌, Bool-cases, Option-cases, arith,
}
use ime_fcitx.Bopomofo.Keymap.{KeyboardLayout}
use ime_fcitx.Composition.Buffer.{Buffer, next_revision, segment_before}
use ime_fcitx.Composition.Typing.{
  InputResult, add_bopomofo_key, feed_keys, roll_back, finish_keys, is_being_typed,
  add_bopomofo_keys,
}
use ime_fcitx.Composition.RollBack.{SameText}
use ime_fcitx.Composition.Validity.{IsValidBuffer}
use ime_fcitx.Composition.Session
use ime_fcitx.Composition.Session.{
  Action, act, run, act-IsValidBuffer, bopomofo, literal, key, keys, back, forward, left, right,
  wipe, wipe_unfinished, extend, remove, cancel, set_candidates, refresh, override, override_all,
  clear_override, select,
}
use ime_fcitx.Composition.Session.Revision.{
  Touches, add_bopomofo-Touches, add_literal-Touches, remove_segment-Touches,
  delete_forward-Touches, move_cursor_left-Touches, move_cursor_right-Touches,
  extend_selection-Touches, clear_selection-Touches, clear-Touches,
  clear_unfinished_reading-Touches, set_segment_candidates-Touches,
  refresh_segment_candidates-Touches, select_candidate-Touches, cancel_candidate_selection-Touches,
  apply_phrase_override-Touches, apply_phrase_override_all-Touches,
  clear_phrase_override_choices-Touches, add_bopomofo_key-Touches, backspace-Touches,
}

-- At most `n` touches, and none only where the text and the caret are the same.
record Advance (n : ℕ) (b b' : Buffer) : Type 0 where
  touches : ℕ
  bound : touches ≤ n
  counted : b'.revision ≡ (b.revision + touches) % 2 ^ 64
  untouched : touches ≡ 0 → SameText b b'

Touches→Advance : (b b' : Buffer) → b.revision < 2 ^ 64 → Touches b b' → Advance 1 b b'
unfolding next_revision
Touches→Advance b b' w (inl e) = record {
  touches = 1;
  bound = omega arith;
  counted = e;
  untouched = λ h. absurd (omega arith);
}
Touches→Advance b b' w (inr (e, s, c)) = record {
  touches = 0;
  bound = omega arith;
  counted = omega arith;
  untouched = λ h. (s, c);
}

module _ {n : ℕ} {b b' : Buffer} (a : Advance n b b') where
  Advance-counter : b'.revision < 2 ^ 64
  Advance-counter = omega (arith, a.counted)

  Advance-trans : {m : ℕ} {b'' : Buffer} → Advance m b' b'' → Advance (n + m) b b''
  Advance-trans c = record {
    touches = a.touches + c.touches;
    bound = omega (arith, a.bound);
    counted = omega (arith, a.counted);
    untouched = λ h.
        let (p, q) = a.untouched (omega arith) in
        let (p', q') = c.untouched (omega arith) in (p' ∙ p, q' ∙ q);
  }

  Advance-le : {m : ℕ} → n ≤ m → Advance m b b'
  Advance-le h = record {
    touches = a.touches;
    bound = omega (arith, a.bound);
    counted = a.counted;
    untouched = a.untouched;
  }

module _ (layout : KeyboardLayout) where
  add_bopomofo_key-Advance :
      (k : ℕ) (b : Buffer) → b.revision < 2 ^ 64 → Advance 1 b (add_bopomofo_key k layout true b).0
  add_bopomofo_key-Advance k b w = Touches→Advance b _ w (add_bopomofo_key-Touches k layout true b)

  feed_keys-Advance :
      (strict : Bool) (ks : List ℕ) (b : Buffer)
      → b.revision < 2 ^ 64
      → Advance (length ks) b (feed_keys layout strict ks b).0
  unfolding feed_keys
  feed_keys-Advance strict [] b w = record {
    touches = 0;
    bound = omega arith;
    counted = omega arith;
    untouched = λ h. (refl, refl);
  }
  feed_keys-Advance strict (k ∷ ks) b w =
      let a = add_bopomofo_key-Advance k b w in
      let all = Advance-trans a (feed_keys-Advance strict ks _ (Advance-counter a)) in
      elim (Option-cases (add_bopomofo_key k layout true b).1) [
        | inl e ↦ rw (e, feed_keys) (Advance-le a (omega arith))
        | inr (r, e) ↦
            rw (e, feed_keys)
              (elim (Bool-cases (strict && not r.natural_extension)) [
                | inl s ↦ rw s (Advance-le a (omega arith))
                | inr s ↦ rw s (Advance-le all (omega arith))
              ])
      ]

roll_back-Advance : (n c : ℕ) (b : Buffer) → b.revision < 2 ^ 64 → Advance 1 b (roll_back n c b)
unfolding roll_back
roll_back-Advance n c b w = Touches→Advance b _ w (inl refl)

finish_keys-Advance :
    (n c : ℕ) (b : Buffer) (r : Option InputResult)
    → b.revision < 2 ^ 64
    → Advance 1 b (finish_keys n c b r).0
unfolding finish_keys
finish_keys-Advance n c b none w = roll_back-Advance n c b w
finish_keys-Advance n c b (some r) w = elim (Bool-cases r.completed) [
  | inl e ↦ rw e (Touches→Advance b b w (inr (refl, refl, refl)))
  | inr e ↦ rw e (roll_back-Advance n c b w)
]

add_bopomofo_keys-Advance :
    (ks : List ℕ) (tone : ℕ) (layout : KeyboardLayout) (strict : Bool) (b : Buffer)
    → b.revision < 2 ^ 64
    → Advance (length ks + 2) b (add_bopomofo_keys ks tone layout strict b).0
unfolding add_bopomofo_keys
add_bopomofo_keys-Advance ks tone layout strict b w =
    let refuse = not (b.caret == length b.segments) || is_being_typed (segment_before b) in
    let fed = feed_keys layout strict ks b in
    let a = feed_keys-Advance layout strict ks b w in
    let t = add_bopomofo_key-Advance layout tone fed.0 (Advance-counter a) in
    elim (Bool-cases refuse) [
      | inl e ↦
          rw (e, add_bopomofo_keys)
            (Advance-le (Touches→Advance b b w (inr (refl, refl, refl))) (omega arith))
      | inr e ↦
          rw (e, add_bopomofo_keys)
            (elim (Bool-cases fed.1) [
              | inl f ↦ rw f (
                  Advance-le
                    (Advance-trans (Advance-trans a t)
                      (finish_keys-Advance (length b.segments) b.caret _ _ (Advance-counter t)))
                    (omega arith))
              | inr f ↦ rw f (
                  Advance-le
                    (Advance-trans a
                      (roll_back-Advance (length b.segments) b.caret _ (Advance-counter a)))
                    (omega arith))
            ])
    ]

-- How often an operation touches the buffer, at most.
abbrev pub cost : Action → ℕ
cost (keys ks tone layout strict) = length ks + 2
cost _ = 1

abbrev pub total_cost : List Action → ℕ
total_cost [] = 0
total_cost (a ∷ rest) = cost a + total_cost rest

act-Advance :
    (a : Action) {b : Buffer} → IsValidBuffer b → b.revision < 2 ^ 64 → Advance (cost a) b (act a b)
unfolding act
act-Advance (bopomofo c) {b} v w = Touches→Advance b _ w (add_bopomofo-Touches b c)
act-Advance (literal c) {b} v w = Touches→Advance b _ w (add_literal-Touches b c)
act-Advance (key k layout upper) {b} v w =
    Touches→Advance b _ w (add_bopomofo_key-Touches k layout upper b)
act-Advance (keys ks tone layout strict) {b} v w =
    add_bopomofo_keys-Advance ks tone layout strict b w
act-Advance back {b} v w = Touches→Advance b _ w (backspace-Touches v)
act-Advance forward {b} v w = Touches→Advance b _ w (delete_forward-Touches b)
act-Advance left {b} v w = Touches→Advance b _ w (move_cursor_left-Touches b)
act-Advance right {b} v w = Touches→Advance b _ w (move_cursor_right-Touches b)
act-Advance Session.unmark {b} v w = Touches→Advance b _ w (clear_selection-Touches b)
act-Advance wipe {b} v w = Touches→Advance b _ w (clear-Touches b)
act-Advance wipe_unfinished {b} v w = Touches→Advance b _ w (clear_unfinished_reading-Touches b)
act-Advance (extend delta) {b} v w = Touches→Advance b _ w (extend_selection-Touches b delta)
act-Advance (remove i) {b} v w = Touches→Advance b _ w (remove_segment-Touches b i)
act-Advance (cancel i) {b} v w = Touches→Advance b _ w (cancel_candidate_selection-Touches b i)
act-Advance (set_candidates i cs keep) {b} v w =
    Touches→Advance b _ w (set_segment_candidates-Touches b i cs keep)
act-Advance (refresh i cs) {b} v w =
    Touches→Advance b _ w (refresh_segment_candidates-Touches b i cs)
act-Advance (override offset phrase) {b} v w =
    Touches→Advance b _ w (apply_phrase_override-Touches b offset phrase)
act-Advance (override_all phrase) {b} v w =
    Touches→Advance b _ w (apply_phrase_override_all-Touches b phrase)
act-Advance (clear_override offset count) {b} v w =
    Touches→Advance b _ w (clear_phrase_override_choices-Touches b offset count)
act-Advance (select i c move) {b} v w = Touches→Advance b _ w (select_candidate-Touches b i c move)

run-Advance :
    (actions : List Action) {b : Buffer}
    → IsValidBuffer b
    → b.revision < 2 ^ 64
    → Advance (total_cost actions) b (run actions b)
unfolding run
run-Advance [] v w = record {
  touches = 0;
  bound = omega arith;
  counted = omega arith;
  untouched = λ h. (refl, refl);
}
run-Advance (a ∷ rest) v w =
    let first = act-Advance a v w in
    Advance-trans first (run-Advance rest (act-IsValidBuffer a v) (Advance-counter first))

-- After any session on a valid buffer that is short of 2 ^ 64 touches, a revision that is the one from
-- before means that every segment and the caret are the ones from before.
pub revision-run :
    (actions : List Action) {b : Buffer}
    → IsValidBuffer b
    → b.revision < 2 ^ 64
    → total_cost actions < 2 ^ 64
    → (run actions b).revision ≡ b.revision
    → SameText b (run actions b)
revision-run actions {b} v w short same =
    let a = run-Advance actions v w in a.untouched (omega (arith, a.counted, a.bound))
