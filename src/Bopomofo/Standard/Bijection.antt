-- ===== src/Bopomofo/Standard/Bijection.antt =====
-- The Standard layout pairs its keys with the bopomofo symbols one to one
-- (engine/src/bopomofo/keymap.cpp).
use ime_fcitx.Prelude.{
  ℕ, ◌≡◌, refl, Bool, true, false, ◌||◌, ◌&&◌, contains, none, some, List, [], ◌∷◌, arith,
}
use ime_fcitx.Prelude.{codes, ◌==◌}
use ime_fcitx.Bopomofo.Symbols.{initials, medials, finals, tones}
use ime_fcitx.Bopomofo.Symbols.{
  is_bopomofo_initial, is_bopomofo_medial, is_bopomofo_final, is_bopomofo_tone,
}
use ime_fcitx.Bopomofo.Standard.{Pairs, pair_up, find, bopomofo_keys, lookup_bopomofo_key}

abbrev pub is_bopomofo : ℕ → Bool
is_bopomofo c =
    is_bopomofo_initial c || is_bopomofo_medial c || is_bopomofo_final c || is_bopomofo_tone c

-- The key of a symbol, in the table read backwards.
abbrev symbol_keys : Pairs
symbol_keys =
    pair_up (codes "ㄅㄉㄓㄚㄞㄢㄦㄆㄊㄍㄐㄔㄗㄧㄛㄟㄣㄇㄋㄎㄑㄕㄘㄨㄜㄠㄤㄈㄌㄏㄒㄖㄙㄩㄝㄡㄥ ˊˇˋ˙")
      (codes "125890-qwertyuiopasdfghjkl;zxcvbnm,./ 6347")

maps_to : Pairs → ℕ → ℕ → Bool
unfolding find
maps_to m c k = elim (find m c) [ none ↦ false | some j ↦ j == k ]

-- Every pair of the first table stands in the second one turned round.
inverts : Pairs → Pairs → Bool
unfolding maps_to
inverts n [] = true
inverts n ((k, v) ∷ m) = maps_to n v k && inverts n m

maps_to_lem : (n : Pairs) (c k : ℕ) → maps_to n c k ≡ true → find n c ≡ some k
unfolding maps_to
maps_to_lem n c k h = unfold maps_to in ground arith

inverts-find : (n m : Pairs) (k v : ℕ) → inverts n m ≡ true → find m k ≡ some v → find n v ≡ some k
unfolding find inverts
inverts-find n [] k v h e = cc
inverts-find n ((j, w) ∷ m) k v h e = ground (arith, maps_to_lem n w j, inverts-find n m k v)

key_of_symbol : (k c : ℕ) → find bopomofo_keys k ≡ some c → find symbol_keys c ≡ some k
key_of_symbol k c = inverts-find symbol_keys bopomofo_keys k c (unfold inverts in refl)

symbol_of_key : (c k : ℕ) → find symbol_keys c ≡ some k → find bopomofo_keys k ≡ some c
symbol_of_key c k = inverts-find bopomofo_keys symbol_keys c k (unfold inverts in refl)

-- A test that holds throughout a table of symbols holds of each symbol found in it.
module _ (p : ℕ → Bool) where
  all_values : Pairs → Bool
  all_values [] = true
  all_values ((k, v) ∷ m) = p v && all_values m

  all_of : List ℕ → Bool
  all_of [] = true
  all_of (c ∷ cs) = p c && all_of cs

  all_values-find : (m : Pairs) (k v : ℕ) → all_values m ≡ true → find m k ≡ some v → p v ≡ true
  unfolding find all_values
  all_values-find [] k v h e = cc
  all_values-find ((j, w) ∷ m) k v h e = ground (arith, all_values-find m k v)

  all_of-contains : (cs : List ℕ) (c : ℕ) → contains cs c ≡ true → all_of cs ≡ true → p c ≡ true
  unfolding contains all_of
  all_of-contains [] c h e = cc
  all_of-contains (d ∷ cs) c h e = ground (arith, all_of-contains cs c)

has_key : ℕ → Bool
unfolding find
has_key c = elim (find symbol_keys c) [ none ↦ false | some _ ↦ true ]

module _ (c : ℕ) where
  initial-has_key : is_bopomofo_initial c ≡ true → has_key c ≡ true
  unfolding is_bopomofo_initial
  initial-has_key h = all_of-contains has_key initials c h (unfold all_of has_key in refl)

  medial-has_key : is_bopomofo_medial c ≡ true → has_key c ≡ true
  unfolding is_bopomofo_medial
  medial-has_key h = all_of-contains has_key medials c h (unfold all_of has_key in refl)

  final-has_key : is_bopomofo_final c ≡ true → has_key c ≡ true
  unfolding is_bopomofo_final
  final-has_key h = all_of-contains has_key finals c h (unfold all_of has_key in refl)

  tone-has_key : is_bopomofo_tone c ≡ true → has_key c ≡ true
  unfolding is_bopomofo_tone
  tone-has_key h = all_of-contains has_key tones c h (unfold all_of has_key in refl)

  is_bopomofo-has_key : is_bopomofo c ≡ true → has_key c ≡ true
  is_bopomofo-has_key h =
      ground (arith, initial-has_key, medial-has_key, final-has_key, tone-has_key)

has_key_lem : (c : ℕ) → has_key c ≡ true → (k : ℕ) × (find symbol_keys c ≡ some k)
unfolding has_key
has_key_lem c h = ground arith

keys_give_bopomofo : all_values is_bopomofo bopomofo_keys ≡ true
unfolding all_values is_bopomofo_initial is_bopomofo_medial is_bopomofo_final is_bopomofo_tone
    contains
keys_give_bopomofo = refl

-- On the Standard layout, with no folding of letters, a key enters a bopomofo symbol, and no other key
-- enters the same one.
pub lookup_bopomofo_key-injective :
    (j k c : ℕ)
    → lookup_bopomofo_key j false ≡ some c
    → lookup_bopomofo_key k false ≡ some c
    → (j ≡ k) × (is_bopomofo c ≡ true)
unfolding lookup_bopomofo_key
lookup_bopomofo_key-injective j k c h h' = (
  cc (key_of_symbol j c h, key_of_symbol k c h'),
  all_values-find is_bopomofo bopomofo_keys k c keys_give_bopomofo h',
)

-- Every bopomofo symbol is entered by a key of the Standard layout.
pub lookup_bopomofo_key-surjective :
    (c : ℕ) → is_bopomofo c ≡ true → (k : ℕ) × (lookup_bopomofo_key k false ≡ some c)
unfolding lookup_bopomofo_key
lookup_bopomofo_key-surjective c h =
    let (k, e) = has_key_lem c (is_bopomofo-has_key c h) in (k, symbol_of_key c k e)
