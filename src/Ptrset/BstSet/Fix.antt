-- ===== src/Ptrset/BstSet/Fix.antt =====
-- Adding a kid between the root and its only kid.
use mepl.Prelude.{
  ℕ, zero, suc, ◌<◌, ◌≤◌, ◌≡◌, refl, true, false, Option, none, some, List, [], ◌∷◌, arith, ltb,
  inr, Outcome, ok, fault, ◌>>=◌,
}
use mepl.Ptrset.KidTree.{
  Kid, red, black, kid_fix, red_parent, fix_round, fix_left, kid_rotate_left, kid_rotate_right,
  set_parent_of, hang_left, hang_right, set_left, set_right, set_parent, set_color, is_red_kid,
}
use mepl.Ptrset.BstSet.{BstSet, kid_get_or_set, kids_of, right_of, new_kid, find_slot, set_slot}

-- A set with one node.
abbrev pub one_node : ℕ → Option ℕ → List Kid → BstSet
one_node bytes root kids = record {
  ps_bytes = bytes;
  root = some 0;
  nodes = root ∷ [];
  kids = kids;
}

-- The root alone, and with a left kid.
abbrev root_kid : ℕ → Option ℕ → Kid
root_kid a left = record {
  edge = none;
  parent = none;
  left = left;
  right = none;
  v = a;
  color = black;
}

abbrev left_kid : ℕ → Kid
left_kid b = record { edge = none; parent = some 0; left = none; right = none; v = b; color = red }

module _ (fuel bytes a : ℕ) where
  first_kid :
      kid_get_or_set (suc fuel) (one_node bytes none []) 0 a
      ≡ ok (0, one_node bytes (some 0) (root_kid a none ∷ []))
  unfolding kid_get_or_set find_slot set_slot kid_fix red_parent set_color
  first_kid = refl

  second_kid :
      (b : ℕ)
      → ltb b a ≡ true
      → kid_get_or_set (suc (suc fuel)) (one_node bytes (some 0) (root_kid a none ∷ [])) 0 b
        ≡ ok (1, one_node bytes (some 0) (root_kid a (some 1) ∷ left_kid b ∷ []))
  unfolding kid_get_or_set find_slot set_slot kid_fix red_parent set_left set_color
  second_kid b ba = rw ba

  third_find :
      (b c : ℕ) (ks : List Kid)
      → ltb c a ≡ true
      → ltb c b ≡ false
      → ltb b c ≡ true
      → find_slot
          (suc (suc (suc fuel)))
          (root_kid a (some 1) ∷ left_kid b ∷ [])
          kids_of
          (some 0)
          none
          c
        ≡ ok (inr (right_of 1, some 1))
  unfolding find_slot
  third_find b c ks ca cb bc = rw (ca, cb, bc)

  third_fix :
      (b c : ℕ)
      → kid_fix
          (suc (suc (suc fuel)))
          (root_kid a (some 1) ∷ record (left_kid b) { right = some 2 } ∷ new_kid (some 1) c ∷ [])
          (some 0)
          2
        ≡ fault
  unfolding kid_fix red_parent fix_round fix_left set_parent_of hang_left hang_right kid_rotate_left
      kid_rotate_right set_left set_right set_parent set_color is_red_kid
  third_fix b c = refl

  third_kid :
      (b c : ℕ)
      → ltb c a ≡ true
      → ltb c b ≡ false
      → ltb b c ≡ true
      → kid_get_or_set
          (suc (suc (suc fuel)))
          (one_node bytes (some 0) (root_kid a (some 1) ∷ left_kid b ∷ []))
          0
          c
        ≡ fault
  unfolding kid_get_or_set set_slot set_right
  third_kid b c ca cb bc = rw (third_find b c [] ca cb bc, ◌>>=◌, third_fix b c)

-- Three chunks, one after the other, in the first node.
abbrev pub three_kids : ℕ → BstSet → ℕ → ℕ → ℕ → Outcome (ℕ × BstSet)
three_kids fuel s a b c = do
  (k1, s1) ← kid_get_or_set fuel s 0 a
  (k2, s2) ← kid_get_or_set fuel s1 0 b
  kid_get_or_set fuel s2 0 c

-- In a node without kids, adding a chunk, then a smaller one, then one between the two, ends with an
-- access through NULL, with any fuel from 3 on.
pub three_kids-fault :
    (fuel bytes a b c : ℕ)
    → b < c
    → c < a
    → 3 ≤ fuel
    → three_kids fuel (one_node bytes none []) a b c ≡ fault
three_kids-fault zero bytes a b c h k f = absurd (omega (arith, f))
three_kids-fault (suc zero) bytes a b c h k f = absurd (omega (arith, f))
three_kids-fault (suc (suc zero)) bytes a b c h k f = absurd (omega (arith, f))
three_kids-fault (suc (suc (suc fuel))) bytes a b c h k f =
    let smaller : ltb b a ≡ true = ground (arith, h, k) in
    let below : ltb c a ≡ true = ground (arith, k) in
    let not_below : ltb c b ≡ false = ground (arith, h) in
    let above : ltb b c ≡ true = ground (arith, h) in
    rw (first_kid (suc (suc fuel)) bytes a, ◌>>=◌, second_kid (suc fuel) bytes a b smaller, ◌>>=◌)
      (third_kid fuel bytes a b c below not_below above)
