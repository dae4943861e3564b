-- ===== src/Composition/Validity/Typing.antt =====
-- The operations that enter text keep a buffer valid (engine/src/buffer/composition_buffer.cpp).
use ime_fcitx.Prelude.{
  ℕ, ◌-◌, ◌<◌, ◌≡◌, refl, ◌≢◌, inl, inr, Bool, true, false, not, ◌&&◌, Option, none, some, List, [],
  ◌∷◌, ◌==◌, length, arith, Bool-cases, Option-cases, length-modify,
}
use ime_fcitx.Bopomofo.Symbols.{is_bopomofo_tone}
use ime_fcitx.Bopomofo.Syllable
use ime_fcitx.Bopomofo.Syllable.{Syllable}
use ime_fcitx.Bopomofo.Syllable.Slots.{
  IsWellFormed, new-IsWellFormed, accept-IsWellFormed, accept-empty,
}
use ime_fcitx.Bopomofo.Hsu.{KeyStatus, rejected, composing, completed, KeyResult}
use ime_fcitx.Bopomofo.Keymap.{KeyboardLayout, accept_or_overwrite}
use ime_fcitx.Bopomofo.Keymap.Dispatch.{
  KeyOutcome, accept_or_overwrite-keeps, apply_bopomofo_key_outcome,
}
use ime_fcitx.Composition.Segment.{Segment, blank, retype, visible_candidate}
use ime_fcitx.Composition.Buffer.{Buffer, unmark, segment_before}
use ime_fcitx.Composition.Typing.{
  retype_segment, add_new_bopomofo, add_bopomofo, active_segment, active_syllable, is_completed,
  enter_key, add_bopomofo_key, feed_keys, add_literal, add_bopomofo_key_cases, key_answer,
}
use ime_fcitx.Composition.Validity.{
  IsValidSegment, IsValidBuffer, unmark-IsValidBuffer, segment_before-IsValid, segment_before-lt,
  insert_segment-IsValidBuffer, modify-IsValidBuffer, retype-IsValidSegment,
}

-- A segment made for a syllable.
fresh-IsValidSegment :
    (s : Syllable) (done : Bool) (alternatives : List (List ℕ))
    → IsWellFormed s
    → Syllable.empty s ≡ false
    → (done ≡ true → Syllable.complete s ≡ true)
    → IsValidSegment (record blank {
      syllable = s;
      reading_finalized = done;
      alternative_readings = alternatives;
    })
fresh-IsValidSegment s done alternatives w e c =
    retype-IsValidSegment s done alternatives blank w e c

retype_segment-IsValidBuffer :
    (s : Syllable) (done : Bool) (alternatives : List (List ℕ)) {b : Buffer}
    → IsWellFormed s
    → Syllable.empty s ≡ false
    → (done ≡ true → Syllable.complete s ≡ true)
    → b.caret - 1 < length b.segments
    → IsValidBuffer b
    → IsValidBuffer (retype_segment s done alternatives b)
unfolding retype_segment
retype_segment-IsValidBuffer s done alternatives {b} w e c lt v =
    let m =
      modify-IsValidBuffer (b.caret - 1) (retype s done alternatives) v
        (λ g _ _. retype-IsValidSegment s done alternatives g w e c) in
    record {
      caret_bound = m.caret_bound;
      anchor_bound = m.anchor_bound;
      edited_bound =
          omega (arith, length-modify (b.caret - 1) (retype s done alternatives) b.segments);
      each = m.each;
    }

and_right : (a c : Bool) → (a && c) ≡ true → c ≡ true
and_right a c h = ground arith

module _ (symbol : ℕ) {b : Buffer} (v : IsValidBuffer b) where
  add_new_bopomofo-IsValidBuffer : IsValidBuffer (add_new_bopomofo symbol b).0
  unfolding add_new_bopomofo
  add_new_bopomofo-IsValidBuffer = elim (Bool-cases (Syllable.accept Syllable.new symbol).1) [
    | inl e ↦ rw e (
        insert_segment-IsValidBuffer _
          (fresh-IsValidSegment _ _ [] (accept-IsWellFormed symbol new-IsWellFormed)
            (accept-empty Syllable.new symbol e) (and_right (is_bopomofo_tone symbol) _))
          v)
    | inr e ↦ rw e v
  ]

-- What a key that was taken says of the syllable that it made.
abbrev Composed : Syllable → KeyResult → Type 0
Composed s r =
    IsWellFormed s
    × (Syllable.empty s ≡ false)
    × (is_completed r.status ≡ true → Syllable.complete s ≡ true)

complete-ne-empty : (s : Syllable) → Syllable.complete s ≡ true → Syllable.empty s ≡ false
unfolding Syllable.complete Syllable.empty
complete-ne-empty s h = ground arith

enter_key-IsValidBuffer :
    (layout : KeyboardLayout) (key : ℕ) (upper : Bool) (o : Option Segment) (s : Syllable)
    (r : KeyResult) {b : Buffer}
    → Composed s r
    → (o ≢ none → b.caret - 1 < length b.segments)
    → IsValidBuffer b
    → IsValidBuffer (enter_key layout key upper o s r b).0
unfolding enter_key
enter_key-IsValidBuffer layout key upper (some g) s r (w, e, c) lt v =
    retype_segment-IsValidBuffer s _ _ w e c (lt (λ h. cc)) v
enter_key-IsValidBuffer layout key upper none s r (w, e, c) lt v =
    insert_segment-IsValidBuffer _ (fresh-IsValidSegment s _ _ w e c) v

forget_edited :
    {b : Buffer} → IsValidBuffer b → IsValidBuffer (record b { last_edited_segment = none })
forget_edited v = ground arith

literal-IsValidSegment :
    {symbol : ℕ} → (symbol == 0) ≡ false → IsValidSegment (record blank { literal = symbol })
literal-IsValidSegment {symbol} h = record {
  well_formed = new-IsWellFormed;
  not_blank = inl (ground arith);
  selection = inl refl;
  finalized = λ e. cc;
  pinned = λ e. cc;
}

module _ (symbol : ℕ) {b : Buffer} (v : IsValidBuffer b) where
  retyped_by_symbol :
      (g : Segment)
      → segment_before b ≡ some g
      → (accept_or_overwrite g.syllable symbol).1 ≡ true
      → IsValidBuffer (
          retype_segment
            (accept_or_overwrite g.syllable symbol).0
            (is_bopomofo_tone symbol && Syllable.complete (accept_or_overwrite g.syllable symbol).0)
            []
            (unmark b))
  retyped_by_symbol g h fine =
      let (w, e) =
        accept_or_overwrite-keeps g.syllable (segment_before-IsValid v h).well_formed symbol in
      retype_segment-IsValidBuffer _ _ [] {b = unmark b} w (e fine)
        (and_right (is_bopomofo_tone symbol) _) (segment_before-lt b h).1 (unmark-IsValidBuffer v)

  pub add_bopomofo-IsValidBuffer : IsValidBuffer (add_bopomofo symbol b).0
  unfolding add_bopomofo
  add_bopomofo-IsValidBuffer = elim (Option-cases (segment_before b)) [
    | inl h ↦ rw (h, add_bopomofo) (add_new_bopomofo-IsValidBuffer symbol (unmark-IsValidBuffer v))
    | inr (g, h) ↦
        let typed = not (visible_candidate g) && not g.reading_finalized in
        let again = accept_or_overwrite g.syllable symbol in
        rw (h, add_bopomofo)
          (elim (Bool-cases (typed && again.1)) [
            | inl e ↦ rw e (retyped_by_symbol g h (and_right typed again.1 e))
            | inr e ↦ rw e (add_new_bopomofo-IsValidBuffer symbol (unmark-IsValidBuffer v))
          ])
  ]

  pub add_literal-IsValidBuffer : IsValidBuffer (add_literal symbol b).0
  unfolding add_literal
  add_literal-IsValidBuffer = elim (Bool-cases (symbol == 0)) [
    | inl e ↦ rw e (unmark-IsValidBuffer v)
    | inr e ↦ rw e (
        forget_edited
          (insert_segment-IsValidBuffer _ (literal-IsValidSegment e) (unmark-IsValidBuffer v)))
  ]

module _ {b : Buffer} (v : IsValidBuffer b) where
  active_segment-before : {g : Segment} → active_segment b ≡ some g → segment_before b ≡ some g
  unfolding active_segment
  active_segment-before h = ground arith

  active_syllable-IsWellFormed :
      (o : Option Segment) → active_segment b ≡ o → IsWellFormed (active_syllable o)
  active_syllable-IsWellFormed none h = new-IsWellFormed
  active_syllable-IsWellFormed (some g) h =
      (segment_before-IsValid v (active_segment-before h)).well_formed

  active_segment-lt :
      (o : Option Segment) → active_segment b ≡ o → o ≢ none → b.caret - 1 < length b.segments
  active_segment-lt none h k = absurd (k refl)
  active_segment-lt (some g) h k = (segment_before-lt b (active_segment-before h)).1

composed :
    (s : Syllable) (p : Syllable × KeyResult)
    → KeyOutcome s p
    → p.1.status ≢ rejected
    → Composed p.0 p.1
composed s (s', r) k n = go r.status refl
  where
    go : (st : KeyStatus) → r.status ≡ st → Composed s' r
    go rejected e = absurd (n e)
    go composing e =
        let (w, ne) : IsWellFormed s' × (Syllable.empty s' ≡ false) = rw e at k in (w, ne, λ h. cc)
    go completed e =
        let (w, c) : IsWellFormed s' × (Syllable.complete s' ≡ true) = rw e at k in
        (w, complete-ne-empty s' c, λ _. c)

module _ (layout : KeyboardLayout) where
  pub add_bopomofo_key-IsValidBuffer :
      (key : ℕ) (upper : Bool) {b : Buffer}
      → IsValidBuffer b
      → IsValidBuffer (add_bopomofo_key key layout upper b).0
  add_bopomofo_key-IsValidBuffer key upper {b} v =
      elim (add_bopomofo_key_cases key layout upper b) [
        | inl (_, e) ↦ rw e (unmark-IsValidBuffer v)
        | inr (taken, e) ↦
            let p = key_answer key layout upper b in
            rw e (
              enter_key-IsValidBuffer layout key upper (active_segment b) p.0 p.1 {b = unmark b}
                (composed _ p
                  (apply_bopomofo_key_outcome _ (active_syllable-IsWellFormed v _ refl) layout key
                    upper)
                  taken)
                (active_segment-lt v _ refl) (unmark-IsValidBuffer v))
      ]

  pub feed_keys-IsValidBuffer :
      (strict : Bool) (keys : List ℕ) {b : Buffer}
      → IsValidBuffer b
      → IsValidBuffer (feed_keys layout strict keys b).0
  unfolding feed_keys
  feed_keys-IsValidBuffer strict [] v = v
  feed_keys-IsValidBuffer strict (key ∷ keys) {b} v =
      let v' = add_bopomofo_key-IsValidBuffer key true v in
      let after = feed_keys-IsValidBuffer strict keys v' in
      elim (Option-cases (add_bopomofo_key key layout true b).1) [
        | inl e ↦ rw (e, feed_keys) v'
        | inr (r, e) ↦
            rw (e, feed_keys)
              (elim (Bool-cases (strict && not r.natural_extension)) [
                | inl s ↦ rw s v'
                | inr s ↦ rw s after
              ])
      ]
