-- ===== src/Composition/Typing.antt =====
-- The operations of `CompositionBuffer` that enter text: add_bopomofo, add_bopomofo_key,
-- add_bopomofo_keys and add_literal (engine/src/buffer/composition_buffer.cpp).
use ime_fcitx.Prelude.{
  ℕ, ◌+◌, ◌-◌, ◌≡◌, ◌≢◌, ◌⊎◌, inl, inr, refl, Bool, true, false, not, ◌&&◌, ◌||◌, Option, none,
  some, List, [], ◌∷◌, ◌==◌, ltb, if◌then◌else◌, length, take, insert_idx, modify,
}
use ime_fcitx.Bopomofo.Symbols.{is_bopomofo_tone}
use ime_fcitx.Bopomofo.Syllable
use ime_fcitx.Bopomofo.Syllable.{Syllable}
use ime_fcitx.Bopomofo.Standard.{lookup_bopomofo_key}
use ime_fcitx.Bopomofo.Hsu.{KeyStatus, rejected, composing, completed, KeyResult}
use ime_fcitx.Bopomofo.Keymap.{
  KeyboardLayout, standard, hsu, accept_or_overwrite, apply_bopomofo_key,
}
use ime_fcitx.Composition.Segment
use ime_fcitx.Composition.Segment.{Segment, blank, visible_candidate, retype}
use ime_fcitx.Composition.Buffer.{Buffer, touch, unmark, segment_before}

-- A new segment at the caret, which moves behind it.
unfoldable pub insert_segment : Segment → Buffer → Buffer
insert_segment next b = touch (record b {
  segments = insert_idx b.caret next b.segments;
  caret = b.caret + 1;
  last_edited_segment = some b.caret;
})

-- The segment before the caret, changed by typing.
unfoldable pub retype_segment : Syllable → Bool → List (List ℕ) → Buffer → Buffer
retype_segment s finalized alternatives b = touch (record b {
  segments = modify (b.caret - 1) (retype s finalized alternatives) b.segments;
  last_edited_segment = some (b.caret - 1);
})

unfoldable pub add_new_bopomofo : ℕ → Buffer → Buffer × Bool
add_new_bopomofo symbol b =
    let (s, fine) = Syllable.accept Syllable.new symbol in
    if fine
    then (
      insert_segment
          (record blank {
            syllable = s;
            reading_finalized = is_bopomofo_tone symbol && Syllable.complete s;
          })
          b,
      true,
    )
    else (b, false)

unfoldable pub add_bopomofo : ℕ → Buffer → Buffer × Bool
add_bopomofo symbol b =
    let b' = unmark b in
    elim (segment_before b) [
      | none ↦ add_new_bopomofo symbol b'
      | some g ↦
          let (s, fine) = accept_or_overwrite g.syllable symbol in
          if not (visible_candidate g) && not g.reading_finalized && fine
          then (retype_segment s (is_bopomofo_tone symbol && Syllable.complete s) [] b', true)
          else add_new_bopomofo symbol b'
    ]

pub record InputResult : Type 0 where
  pub segment_index : ℕ
  pub completed : Bool
  pub natural_extension : Bool

-- The segment before the caret, if a key can extend it.
unfoldable pub active_segment : Buffer → Option Segment
active_segment b = elim (segment_before b) [
  | none ↦ none
  | some g ↦
      if not (visible_candidate g) && not g.reading_finalized && not (Segment.empty g)
      then some g
      else none
]

abbrev pub is_completed : KeyStatus → Bool
is_completed completed = true
is_completed _ = false

abbrev pub extends : KeyboardLayout → Syllable → ℕ → Bool → Syllable → Bool
extends standard before key accept_uppercase active =
    elim (lookup_bopomofo_key key accept_uppercase) [
      | none ↦ false
      | some symbol ↦ (Syllable.accept before symbol).1
    ]
extends hsu before key accept_uppercase active =
    ltb (length (Syllable.text before)) (length (Syllable.text active))

-- The readings are kept only for a completed syllable.
abbrev pub kept_alternatives : KeyResult → List (List ℕ)
kept_alternatives r = if is_completed r.status then r.alternative_readings else []

-- The outcome of a key that `apply_bopomofo_key` took.
unfoldable pub enter_key :
    KeyboardLayout
    → ℕ
    → Bool
    → Option Segment
    → Syllable
    → KeyResult
    → Buffer
    → Buffer × InputResult
enter_key layout key accept_uppercase (some g) s r b = (
  retype_segment s (is_completed r.status) (kept_alternatives r) b,
  record {
    segment_index = b.caret - 1;
    completed = is_completed r.status;
    natural_extension = extends layout g.syllable key accept_uppercase s;
  },
)
enter_key layout key accept_uppercase none s r b = (
  insert_segment
      (record blank {
        syllable = s;
        reading_finalized = is_completed r.status;
        alternative_readings = kept_alternatives r;
      })
      b,
  record {
    segment_index = b.caret;
    completed = is_completed r.status;
    natural_extension = extends layout Syllable.new key accept_uppercase s;
  },
)

abbrev pub active_syllable : Option Segment → Syllable
active_syllable none = Syllable.new
active_syllable (some g) = g.syllable

unfoldable pub add_bopomofo_key : ℕ → KeyboardLayout → Bool → Buffer → Buffer × Option InputResult
unfolding active_segment
add_bopomofo_key key layout accept_uppercase b =
    let b' = unmark b in
    let active = active_segment b in
    let (s, r) = apply_bopomofo_key (active_syllable active) layout key accept_uppercase in
    let (b'', result) = enter_key layout key accept_uppercase active s r b' in
    elim r.status [ rejected ↦ (b', none) | _ ↦ (b'', some result) ]

-- The loop over the keys; false once a key is refused or, under `strict`, does not extend the syllable.
unfoldable pub feed_keys : KeyboardLayout → Bool → List ℕ → Buffer → Buffer × Bool
feed_keys layout strict [] b = (b, true)
feed_keys layout strict (key ∷ keys) b =
    let (b', result) = add_bopomofo_key key layout true b in
    let rest = feed_keys layout strict keys b' in
    elim result [
      | none ↦ (b', false)
      | some r ↦ if strict && not r.natural_extension then (b', false) else rest
    ]

-- Back to the segments and the caret from before the keys.
unfoldable pub roll_back : ℕ → ℕ → Buffer → Buffer
roll_back original_size original_caret b = touch (record b {
  segments = take original_size b.segments;
  caret = original_caret;
  last_edited_segment = none;
})

-- Whether the segment before the caret is still being typed.
abbrev pub is_being_typed : Option Segment → Bool
is_being_typed none = false
is_being_typed (some g) = not (visible_candidate g) && not g.reading_finalized

-- The answer to the tone key decides whether the syllable stays.
unfoldable pub finish_keys : ℕ → ℕ → Buffer → Option InputResult → Buffer × Option InputResult
finish_keys original_size original_caret b none = (roll_back original_size original_caret b, none)
finish_keys original_size original_caret b (some r) =
    if r.completed then (b, some r) else (roll_back original_size original_caret b, none)

unfoldable pub add_bopomofo_keys :
    List ℕ → ℕ → KeyboardLayout → Bool → Buffer → Buffer × Option InputResult
add_bopomofo_keys keys tone_key layout strict b =
    if not (b.caret == length b.segments) || is_being_typed (segment_before b)
    then (b, none)
    else (let (b', fed) = feed_keys layout strict keys b in
        let (b'', result) = add_bopomofo_key tone_key layout true b' in
        if fed
        then finish_keys (length b.segments) b.caret b'' result
        else (roll_back (length b.segments) b.caret b', none))

unfoldable pub add_literal : ℕ → Buffer → Buffer × Bool
add_literal symbol b = if symbol == 0 then (unmark b, false) else (
  record (insert_segment (record blank { literal = symbol }) (unmark b)) {
    last_edited_segment = none;
  },
  true,
)

-- `add_bopomofo_key` by the answer of `apply_bopomofo_key`.
module _ (key : ℕ) (layout : KeyboardLayout) (upper : Bool) (b : Buffer) where
  abbrev pub key_answer : Syllable × KeyResult
  key_answer = apply_bopomofo_key (active_syllable (active_segment b)) layout key upper

  abbrev pub entered : Buffer × InputResult
  entered = enter_key layout key upper (active_segment b) key_answer.0 key_answer.1 (unmark b)

  pub add_bopomofo_key_cases :
      (key_answer.1.status ≡ rejected) × (add_bopomofo_key key layout upper b ≡ (unmark b, none))
      ⊎ (key_answer.1.status ≢ rejected)
        × (add_bopomofo_key key layout upper b ≡ (entered.0, some entered.1))
  unfolding add_bopomofo_key
  add_bopomofo_key_cases = by_status key_answer.1.status refl
    where
      by_status :
          (st : KeyStatus)
          → key_answer.1.status ≡ st
          → (key_answer.1.status ≡ rejected)
              × (add_bopomofo_key key layout upper b ≡ (unmark b, none))
            ⊎ (key_answer.1.status ≢ rejected)
              × (add_bopomofo_key key layout upper b ≡ (entered.0, some entered.1))
      by_status rejected e = inl (e, rw (e, add_bopomofo_key) refl)
      by_status composing e = inr (λ h. cc, rw (e, add_bopomofo_key) refl)
      by_status completed e = inr (λ h. cc, rw (e, add_bopomofo_key) refl)
