-- ===== src/Ptrset/Hash.antt =====
-- ideas/ptrset/hash.c: a set of pointers as a table of chains. A pointer is its number, and a chain
-- the list of its links. ZALLOC() does not fail, and freed memory is not modelled. `size_t` wraps at
-- 2 ^ 64; `fuel` bounds the rounds of the loops that look for primes.
pub mod Prime
pub mod Chains
pub mod Table
pub mod Member
pub mod Ends
use mepl.Prelude.{
  ℕ, zero, suc, ◌+◌, ◌-◌, ◌*◌, ◌/◌, ◌%◌, ◌^◌, Bool, true, false, ◌||◌, List, [], ◌∷◌, ◌++◌, ltb,
  leb, ◌==◌, if◌then◌else◌, length, get_elem?, set, replicate, map, Outcome, ok, fault, spin, ◌>>=◌,
}
use Prim.Native.Nat.{bit_xor}
use mepl.Memory.{deref}

pub record Hlink : Type 0 where
  pub hash : ℕ
  pub ptr : ℕ

pub record Hash : Type 0 where
  pub tab : List (List Hlink)
  pub cap : ℕ
  pub len : ℕ
  pub seed : ℕ

abbrev word : ℕ → ℕ
word n = n % 2 ^ 64

unfoldable pub hashfn : ℕ → ℕ → ℕ
hashfn seed ptr =
    let h0 = bit_xor ptr seed in
    let h1 = word (2 ^ 64 - 1 - h0 + word (h0 * 2 ^ 21)) in
    let h2 = bit_xor h1 (h1 / 2 ^ 24) in
    let h3 = word (word (h2 + word (h2 * 2 ^ 3)) + word (h2 * 2 ^ 8)) in
    let h4 = bit_xor h3 (h3 / 2 ^ 14) in
    let h5 = word (word (h4 + word (h4 * 2 ^ 2)) + word (h4 * 2 ^ 4)) in
    let h6 = bit_xor h5 (h5 / 2 ^ 28) in word (h6 + word (h6 * 2 ^ 31))

-- The loop of is_prime(), from `m` on.
unfoldable pub no_factor : ℕ → ℕ → ℕ → Outcome Bool
no_factor zero n m = spin
no_factor (suc fuel) n m = elim (leb (m * m % 2 ^ 64) n) [
  | true ↦ elim (n % m == 0) [ true ↦ ok false | false ↦ no_factor fuel n (m + 1) ]
  | false ↦ ok true
]

unfoldable pub is_prime : ℕ → ℕ → Outcome Bool
is_prime fuel n = if leb n 1 then ok false else no_factor fuel n 2

unfoldable pub next_prime : ℕ → ℕ → ℕ → Outcome ℕ
next_prime fuel zero n = spin
next_prime fuel (suc rounds) n = do
  found ← is_prime fuel n
  elim found [ true ↦ ok n | false ↦ next_prime fuel rounds (n + 1) ]

-- `seed` is what time() returns.
unfoldable pub hash_new : ℕ → ℕ → Outcome Hash
hash_new fuel seed = do
  cap ← next_prime fuel fuel 0
  ok (record { tab = replicate cap []; cap = cap; len = 0; seed = seed })

-- HASH_FOR_EACH_SAFE over the buckets that are left: the links, in the order of the loop.
unfoldable pub visited : List (List Hlink) → ℕ → ℕ → Outcome (List Hlink)
visited [] count len = if ltb count len then fault else ok []
visited (c ∷ cs) count len = elim (ltb count len) [
  | true ↦ do rest ← visited cs (count + length c) len; ok (c ++ rest)
  | false ↦ ok []
]

-- The pointers that `dtor` is called with.
unfoldable pub hash_free : Hash → Outcome (List ℕ)
hash_free h = do links ← visited h.tab 0 h.len; ok (map (λ l. l.ptr) links)

abbrev pub in_chain : ℕ → List Hlink → Bool
in_chain ptr [] = false
in_chain ptr (l ∷ c) = l.ptr == ptr || in_chain ptr c

-- A link becomes the first of its chain in the table with `cap` chains.
unfoldable pub link_in : ℕ → Hlink → List (List Hlink) → Outcome (List (List Hlink))
link_in cap l tab = do c ← deref (get_elem? tab (l.hash % cap)); ok (set tab (l.hash % cap) (l ∷ c))

unfoldable pub link_all : ℕ → List Hlink → List (List Hlink) → Outcome (List (List Hlink))
link_all cap [] tab = ok tab
link_all cap (l ∷ links) tab = do tab' ← link_in cap l tab; link_all cap links tab'

unfoldable pub hash_grow : ℕ → Hash → Outcome Hash
hash_grow fuel h = do
  cap ← next_prime fuel fuel (h.cap * 2 % 2 ^ 64)
  links ← visited h.tab 0 h.len
  tab ← link_all cap links (replicate cap [])
  ok (record h { tab = tab; cap = cap })

-- `hp->len > (HASH_LOAD_FACTOR * hp->cap)`; a `double` holds both sides below 2 ^ 53.
abbrev pub is_loaded : Hash → Bool
is_loaded h = ltb (3 * h.cap) (4 * h.len)

-- hash_set() from its second `if` on; `% 0` is not reached, as a chain was read before.
unfoldable pub hash_add : ℕ → Hash → ℕ → Outcome Hash
hash_add fuel h ptr = do
  h' ← if is_loaded h then hash_grow fuel h else ok h
  tab ← link_in h'.cap (record { hash = hashfn h.seed ptr; ptr = ptr }) h'.tab
  ok (record h' { tab = tab; len = (h'.len + 1) % 2 ^ 64 })

unfoldable pub hash_has : Hash → ℕ → Outcome Bool
hash_has h ptr = do c ← deref (get_elem? h.tab (hashfn h.seed ptr % h.cap)); ok (in_chain ptr c)

unfoldable pub hash_set : ℕ → Hash → ℕ → Outcome Hash
hash_set fuel h ptr = do
  c ← deref (get_elem? h.tab (hashfn h.seed ptr % h.cap))
  if in_chain ptr c then ok h else hash_add fuel h ptr
