-- ===== src/Free/Bitset.antt =====
-- ideas/free/bitset.h: BITSET_DEF(LINKAGE, NAME, SIZE), with SIZE as the argument `size`. The words
-- have 64 bits.
pub mod Slots
pub mod First
pub mod Used
use mepl.Prelude.{
  ℕ, zero, suc, ◌+◌, ◌-◌, ◌*◌, ◌/◌, ◌%◌, ◌^◌, true, false, Option, none, some, List, ltb, ◌==◌,
  if◌then◌else◌, get_elem?, set, replicate, Outcome, ok, ◌>>=◌,
}
use Prim.Native.Nat.{bit_and, bit_or}
use mepl.Memory.{deref}

pub record Bitset : Type 0 where
  pub words : List ℕ
  pub last : ℕ

-- ~w
abbrev pub inverted : ℕ → ℕ
inverted w = 2 ^ 64 - 1 - w

abbrev pub word_idx : ℕ → ℕ
word_idx i = i / 2 ^ 6

abbrev pub bit_idx : ℕ → ℕ
bit_idx i = bit_and i 63

abbrev pub bitset_size : ℕ → ℕ
bitset_size size = size / 2 ^ 6

-- __builtin_ctzll(): the zeros below the lowest one of `n` digits.
abbrev pub ctz : ℕ → ℕ → ℕ
ctz zero w = 0
ctz (suc n) w = let rest = ctz n (w / 2) in if w % 2 == 1 then 0 else suc rest

-- -1 is none.
unfoldable pub word_first_zero : ℕ → Option ℕ
word_first_zero w = if inverted w == 0 then none else some (ctz 64 (inverted w))

unfoldable pub bitset_init : ℕ → Bitset
bitset_init size = record { words = replicate (bitset_size size) 0; last = 0 }

unfoldable pub bitset_free : ℕ → Bitset → Bitset
bitset_free size b = bitset_init size

-- The loop, with `rounds` words to go from the one with the index `i` on.
unfoldable pub first_zero_from : ℕ → ℕ → Bitset → ℕ → Outcome (ℕ × Bitset)
first_zero_from size zero b i = ok (2 ^ 64 - 1, b)
first_zero_from size (suc rounds) b i = do
  w ← deref (get_elem? b.words i)
  elim (word_first_zero w) [
    | none ↦ first_zero_from size rounds b (i + 1)
    | some bit ↦
        let idx = (i * 2 ^ 6 + bit) % 2 ^ 64 in
        elim (ltb idx size) [
          | true ↦ ok (idx, record b { last = i })
          | false ↦ first_zero_from size rounds b (i + 1)
        ]
  ]

unfoldable pub bitset_first_zero : ℕ → Bitset → Outcome (ℕ × Bitset)
bitset_first_zero size b = first_zero_from size (bitset_size size - b.last) b b.last

unfoldable pub bitset_set : Bitset → ℕ → Outcome Bitset
bitset_set b n = do
  w ← deref (get_elem? b.words (word_idx n))
  ok (record b { words = set b.words (word_idx n) (bit_or w (2 ^ bit_idx n)) })

unfoldable pub bitset_clear : Bitset → ℕ → Outcome Bitset
bitset_clear b n = do
  w ← deref (get_elem? b.words (word_idx n))
  let words = set b.words (word_idx n) (bit_and w (inverted (2 ^ bit_idx n)))
  ok (record { words = words; last = word_idx n })
