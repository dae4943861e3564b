-- ===== src/Wire/Results.antt =====
-- What holds of everything that a reader of engine/src/protocol/protocol.cpp gives.
use ime_fcitx.Prelude.{
  ℕ, zero, suc, Bool, true, false, Option-cases, none, some, List, [], ◌∷◌, ◌≡◌, refl, sym, ap, ◌∙◌,
  inl, inr, All, length, if◌then◌else◌,
}
use mathlib.Core.Path.{subst}
use ime_fcitx.Wire.Reading.{Reader, ◌>>=◌, ◌>>◌, return, refuse, require, read_each, bind_some}
use ime_fcitx.Wire.Fields.{done}

-- Whatever the reader gives has the property.
abbrev pub Gives : {A : Type 0} → (A → Type 0) → Reader A → Type 0
Gives P r = (bytes rest : List ℕ) (a : _) → r bytes ≡ some (a, rest) → P a

pub bind_inv :
    {A B : Type 0} (r : Reader A) (f : A → Reader B) (bytes rest : List ℕ) (b : B)
    → (r >>= f) bytes ≡ some (b, rest)
    → (a : A) × (later : List ℕ) × (r bytes ≡ some (a, later)) × (f a later ≡ some (b, rest))
bind_inv r f bytes rest b e = elim (Option-cases (r bytes)) [
  | inl none_e ↦ let refused : (r >>= f) bytes ≡ none = rw (◌>>=◌, none_e) refl in absurd (cc)
  | inr ((a, later), some_e) ↦ (a, later, some_e, sym (bind_some r f some_e) ∙ e)
]

module _ {A B : Type 0} (P : A → Type 0) (Q : B → Type 0) where
  pub >>=-Gives :
      (r : Reader A) (f : A → Reader B)
      → Gives P r
      → ((a : A) → P a → Gives Q (f a))
      → Gives Q (r >>= f)
  >>=-Gives r f h k bytes rest b e =
      let (a, later, ea, eb) = bind_inv r f bytes rest b e in
      k a (h bytes later a ea) later rest b eb

module _ {B : Type 0} (Q : B → Type 0) where
  pub any-Gives :
      {A : Type 0} (r : Reader A) (f : A → Reader B) → ((a : A) → Gives Q (f a)) → Gives Q (r >>= f)
  any-Gives r f h bytes rest b e =
      let (a, later, ea, eb) = bind_inv r f bytes rest b e in h a later rest b eb

  pub require-Gives : (c : Bool) (r : Reader B) → (c ≡ true → Gives Q r) → Gives Q (require c >> r)
  require-Gives true r h bytes rest b e = h refl bytes rest b e
  require-Gives false r h bytes rest b e = absurd (cc)

  pub if-Gives :
      (c : Bool) (r s : Reader B)
      → (c ≡ true → Gives Q r)
      → (c ≡ false → Gives Q s)
      → Gives Q (if c then r else s)
  if-Gives true r s h k = h refl
  if-Gives false r s h k = k refl

  pub refuse-Gives : Gives Q refuse
  refuse-Gives bytes rest b e = absurd (cc)

  pub return-Gives : (b : B) → Q b → Gives Q (return b)
  return-Gives b h bytes rest c e = let same : b ≡ c = cc in subst Q same h

  pub done-Gives : (b : B) → Q b → Gives Q (done b)
  unfolding done
  done-Gives b h [] rest c e = let same : b ≡ c = cc in subst Q same h
  done-Gives b h (byte ∷ bytes) rest c e = absurd (cc)

pub read_each-Gives :
    {A : Type 0} (P : A → Type 0) (r : Reader A)
    → Gives P r
    → (n : ℕ) → Gives (λ items. All P items × (length items ≡ n)) (read_each n r)
unfolding read_each
read_each-Gives P r h zero = return-Gives _ [] (tt, refl)
read_each-Gives P r h (suc n) = >>=-Gives P _ r _ h (λ item p.
    >>=-Gives (λ items. All P items × (length items ≡ n)) _ (read_each n r) _
      (read_each-Gives P r h n)
      (λ items later.
        let (all, size) = later in return-Gives _ (item ∷ items) ((p, all), ap suc size)))
