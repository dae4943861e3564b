-- ===== src/Wire/Reading.antt =====
-- Readers of bytes, writers that may refuse, and when a reader reads back what a writer wrote. A reader
-- is the class `Reader` of engine/src/protocol/protocol.cpp: its state is what is left of the frame.
use ime_fcitx.Prelude.{
  ℕ, zero, suc, Bool, true, false, Option, none, some, List, [], ◌∷◌, ◌++◌, append_assoc, ◌≡◌, refl,
  sym, ap, ◌∙◌,
}

-- `none` is a `ProtocolError`.
abbrev pub Reader : Type 0 → Type 0
Reader A = List ℕ → Option (A × List ℕ)

infixl 5 ◌>>=◌ ◌>>◌
abbrev pub ◌>>=◌ : {A B : Type 0} → Reader A → (A → Reader B) → Reader B
◌>>=◌ m f bytes = elim (m bytes) [ none ↦ none | some (a, rest) ↦ f a rest ]

abbrev pub ◌>>◌ : {A B : Type 0} → Reader A → Reader B → Reader B
m >> k = m >>= λ _. k

abbrev pub return : {A : Type 0} → A → Reader A
return a bytes = some (a, bytes)

abbrev pub refuse : {A : Type 0} → Reader A
refuse bytes = none

-- Goes on where the test holds.
abbrev pub require : Bool → Reader (Unit {0})
require true bytes = some (tt, bytes)
require false bytes = none

abbrev pub Writer : Type 0
Writer = Option (List ℕ)

-- A reader so many times, the items in order.
unfoldable pub read_each : {A : Type 0} → ℕ → Reader A → Reader (List A)
read_each zero r = return []
read_each (suc n) r = do item ← r; items ← read_each n r; return (item ∷ items)

-- One writer after the other.
infixr 6 ◌<+>◌
abbrev pub ◌<+>◌ : Writer → Writer → Writer
none <+> v = none
some xs <+> none = none
some xs <+> some ys = some (xs ++ ys)

-- The writer of each item, in order.
unfoldable pub write_each : {A : Type 0} → (A → Writer) → List A → Writer
write_each w [] = some []
write_each w (item ∷ items) = w item <+> write_each w items

-- Refuses unless the test holds.
abbrev pub provided : Bool → Writer → Writer
provided true w = w
provided false w = none

module _ {A : Type 0} where
  -- The reader takes these bytes, whatever follows them.
  abbrev pub Reads : Reader A → List ℕ → A → Type 0
  Reads r bytes a = (rest : List ℕ) → r (bytes ++ rest) ≡ some (a, rest)

  -- The reader takes these bytes when nothing follows them.
  abbrev pub ReadsAll : Reader A → List ℕ → A → Type 0
  ReadsAll r bytes a = r bytes ≡ some (a, [])

  -- What the writer writes, the reader reads back.
  abbrev pub ReadsBack : Writer → Reader A → A → Type 0
  ReadsBack w r a = (bytes : List ℕ) → w ≡ some bytes → Reads r bytes a

  abbrev pub ReadsBackAll : Writer → Reader A → A → Type 0
  ReadsBackAll w r a = (bytes : List ℕ) → w ≡ some bytes → ReadsAll r bytes a

pub bind_some :
    {A B : Type 0} (r : Reader A) (f : A → Reader B) {bytes rest : List ℕ} {a : A}
    → r bytes ≡ some (a, rest)
    → (r >>= f) bytes ≡ f a rest
bind_some r f e = rw (◌>>=◌, e) refl

pub <+>-some :
    (w v : Writer) {bytes : List ℕ}
    → (w <+> v) ≡ some bytes
    → (xs : List ℕ) × (ys : List ℕ) × (w ≡ some xs) × (v ≡ some ys) × (bytes ≡ xs ++ ys)
<+>-some none v e = absurd (cc)
<+>-some (some xs) none e = absurd (cc)
<+>-some (some xs) (some ys) e = (xs, ys, refl, refl, cc)

module _ {A B : Type 0} where
  -- A reader after a reader reads back a writer after a writer.
  pub >>=-ReadsBack :
      (w v : Writer) (r : Reader A) (f : A → Reader B) (a : A) (b : B)
      → ReadsBack w r a
      → ReadsBack v (f a) b
      → ReadsBack (w <+> v) (r >>= f) b
  >>=-ReadsBack w v r f a b h k bytes e rest =
      let (xs, ys, ew, ev, same) = <+>-some w v e in
      let whole : bytes ++ rest ≡ xs ++ (ys ++ rest) =
        ap (λ zs. zs ++ rest) same ∙ append_assoc xs ys rest in
      ap (r >>= f) whole ∙ bind_some r f (h xs ew (ys ++ rest)) ∙ k ys ev rest

  pub >>=-ReadsBackAll :
      (w v : Writer) (r : Reader A) (f : A → Reader B) (a : A) (b : B)
      → ReadsBack w r a
      → ReadsBackAll v (f a) b
      → ReadsBackAll (w <+> v) (r >>= f) b
  >>=-ReadsBackAll w v r f a b h k bytes e =
      let (xs, ys, ew, ev, same) = <+>-some w v e in
      ap (r >>= f) same ∙ bind_some r f (h xs ew ys) ∙ k ys ev

module _ {B : Type 0} where
  -- A test that holds is passed.
  pub require-ReadsBack :
      (c : Bool) (w : Writer) (r : Reader B) (b : B)
      → c ≡ true
      → ReadsBack w r b
      → ReadsBack w (require c >> r) b
  require-ReadsBack c w r b e h bytes k rest = rw e (h bytes k rest)

  pub require-ReadsBackAll :
      (c : Bool) (w : Writer) (r : Reader B) (b : B)
      → c ≡ true
      → ReadsBackAll w r b
      → ReadsBackAll w (require c >> r) b
  require-ReadsBackAll c w r b e h bytes k = rw e (h bytes k)

  -- A writer that may refuse has passed its test when it has written.
  pub provided-ReadsBack :
      (c : Bool) (w : Writer) (r : Reader B) (b : B)
      → (c ≡ true → ReadsBack w r b)
      → ReadsBack (provided c w) r b
  provided-ReadsBack true w r b h bytes e rest = h refl bytes e rest
  provided-ReadsBack false w r b h bytes e rest = cc

  pub provided-ReadsBackAll :
      (c : Bool) (w : Writer) (r : Reader B) (b : B)
      → (c ≡ true → ReadsBackAll w r b)
      → ReadsBackAll (provided c w) r b
  provided-ReadsBackAll true w r b h bytes e = h refl bytes e
  provided-ReadsBackAll false w r b h bytes e = cc

pub return-ReadsBack : {A : Type 0} (a : A) → ReadsBack (some []) (return a) a
return-ReadsBack a bytes e rest =
    let same : [] ≡ bytes = cc in ap (λ xs. return a (xs ++ rest)) (sym same)
