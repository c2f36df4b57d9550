-- ===== src/Bitset/Laws.antt =====
-- The three bit operations of ccronexpr.c on an array of bytes, as operations on a set.
use native.Mathlib.Decide.{ℕ_discrete}
use smart_device_svr.Base.{
  ℕ, ◌*◌, ◌/◌, ◌%◌, ◌≤◌, ◌<◌, ◌≡◌, ◌∙◌, ◌≢◌, refl, sym, Bool, true, false, not, ◌&&◌, ◌||◌, some,
  Bytes, arith, ltb, ltb→lt, lt→ltb, ◌==◌, if◌then◌else◌, every_below, every_below-at, length,
  get_or, set, length-set, get_elem?-get_or, get_or-set_self, get_or-set_ne, All, All-set,
  All-get_or, Returns,
}
use smart_device_svr.Bitset.{
  or_bit, and_not_bit, test_bit, cron_set_bit, cron_del_bit, cron_get_bit, member, load, store,
}

-- An array of `n` bytes.
pub record IsArray (n : ℕ) (rbyte : Bytes) : Type 0 where
  pub size : length rbyte ≡ n
  pub bytes : All (λ b. b < 256) rbyte

xnor : Bool → Bool → Bool
xnor true b = b
xnor false b = not b

xnor-eq : (a b : Bool) → xnor a b ≡ true → a ≡ b
unfolding xnor
xnor-eq true b h = sym h
xnor-eq false b h = ground arith

-- The laws of a byte, checked at every byte and bit.
set_law : ℕ → ℕ → ℕ → Bool
set_law b k l = xnor (test_bit (or_bit b k) l) ((k == l) || test_bit b l) && ltb (or_bit b k) 256

del_law : ℕ → ℕ → ℕ → Bool
del_law b k l =
    xnor (test_bit (and_not_bit b k) l) (not (k == l) && test_bit b l) && ltb (and_not_bit b k) 256

byte_table : (ℕ → ℕ → ℕ → Bool) → Bool
byte_table law = every_below 256 (λ b. every_below 8 (λ k. every_below 8 (λ l. law b k l)))

set_table : byte_table set_law ≡ true
unfolding byte_table every_below set_law xnor
set_table = refl

del_table : byte_table del_law ≡ true
unfolding byte_table every_below del_law xnor
del_table = refl

byte_table_sound :
    (law : ℕ → ℕ → ℕ → Bool) (b k l : ℕ)
    → byte_table law ≡ true
    → b < 256
    → k < 8
    → l < 8
    → law b k l ≡ true
unfolding byte_table
byte_table_sound law b k l t hb hk hl =
    every_below-at 8 _ l (every_below-at 8 _ k (every_below-at 256 _ b t hb) hk) hl

xnor-split : (a b : Bool) (c : Bool) → (xnor a b && c) ≡ true → (a ≡ b) × (c ≡ true)
unfolding xnor
xnor-split true b c h = ground arith
xnor-split false b c h = ground arith

test_bit-or_bit :
    (b k l : ℕ)
    → b < 256
    → k < 8
    → l < 8
    → (test_bit (or_bit b k) l ≡ ((k == l) || test_bit b l)) × (or_bit b k < 256)
unfolding set_law
test_bit-or_bit b k l hb hk hl =
    let (same, small) =
      xnor-split (test_bit (or_bit b k) l) ((k == l) || test_bit b l) (ltb (or_bit b k) 256)
        (byte_table_sound set_law b k l set_table hb hk hl) in
    (same, ltb→lt _ _ small)

test_bit-and_not_bit :
    (b k l : ℕ)
    → b < 256
    → k < 8
    → l < 8
    → (test_bit (and_not_bit b k) l ≡ (not (k == l) && test_bit b l)) × (and_not_bit b k < 256)
unfolding del_law
test_bit-and_not_bit b k l hb hk hl =
    let (same, small) =
      xnor-split (test_bit (and_not_bit b k) l) (not (k == l) && test_bit b l)
        (ltb (and_not_bit b k) 256) (byte_table_sound del_law b k l del_table hb hk hl) in
    (same, ltb→lt _ _ small)

-- Two bits are the same one if their bytes and their places in the byte are.
same_bit : (i j : ℕ) → i / 8 ≡ j / 8 → (i % 8 == j % 8) ≡ (i == j)
same_bit i j h = ground arith

other_byte : (i j : ℕ) → i / 8 ≢ j / 8 → (i == j) ≡ false
other_byte i j h = ground arith

place_in : {n : ℕ} (a : Bytes) (i : ℕ) → IsArray n a → i < 8 * n → i / 8 < length a
place_in a i v hi = omega (arith, v.size)

-- The casts to `uint8_t` lose nothing below 2048.
cast_byte : {n : ℕ} (i : ℕ) → n ≤ 256 → i < 8 * n → i / 8 % 256 ≡ i / 8
cast_byte i hn hi = omega arith

cast_bit : (i : ℕ) → i % 8 % 256 ≡ i % 8
cast_bit i = omega arith

Bool-if : (b : Bool) → (if b then true else false) ≡ b
Bool-if true = refl
Bool-if false = refl

byte_small : {n : ℕ} (a : Bytes) (i : ℕ) → IsArray n a → get_or a i 0 < 256
byte_small a i v = All-get_or (λ b. b < 256) a i 0 (omega arith) v.bytes

module _ {n : ℕ} (a : Bytes) (i : ℕ) (v : IsArray n a) (hn : n ≤ 256) (hi : i < 8 * n) where
  -- A read inside the array gives the bit.
  pub cron_get_bit-member : cron_get_bit a i ≡ some (member a i)
  unfolding cron_get_bit member
  cron_get_bit-member =
      rw (cast_byte i hn hi, cast_bit i, get_elem?-get_or a (i / 8) 0 (place_in a i v hi), Bool-if)
        refl

  stored : ℕ → Bytes
  stored w = set a (i / 8) w

  store_byte : (w : ℕ) → store a (i / 8) w ≡ some (stored w)
  unfolding stored
  store_byte w = rw (lt→ltb _ _ (place_in a i v hi)) refl

  stored-IsArray : (w : ℕ) → w < 256 → IsArray n (stored w)
  unfolding stored
  stored-IsArray w hw = record {
    size = length-set a (i / 8) w ∙ v.size;
    bytes = All-set (λ b. b < 256) a (i / 8) w hw v.bytes;
  }

  member-stored_here : (w j : ℕ) → i / 8 ≡ j / 8 → member (stored w) j ≡ test_bit w (j % 8)
  unfolding stored member
  member-stored_here w j e = rw (← e, get_or-set_self a (i / 8) w 0 (place_in a i v hi)) refl

  member-stored_other : (w j : ℕ) → i / 8 ≢ j / 8 → member (stored w) j ≡ member a j
  unfolding stored member
  member-stored_other w j e = rw (get_or-set_ne a (i / 8) (j / 8) w 0 e) refl

  old_byte : ℕ
  old_byte = get_or a (i / 8) 0

  old_byte_small : old_byte < 256
  unfolding old_byte
  old_byte_small = byte_small a (i / 8) v

  -- What holds of each bit of the byte written holds of the whole array.
  member-stored :
      (w : ℕ) (g : Bool → Bool → Bool)
      → ((x : Bool) → g false x ≡ x)
      → ((l : ℕ) → l < 8 → test_bit w l ≡ g (i % 8 == l) (test_bit old_byte l))
      → (j : ℕ) → member (stored w) j ≡ g (i == j) (member a j)
  unfolding member old_byte
  member-stored w g skip law j = elim (ℕ_discrete (i / 8) (j / 8)) [
    | yes e ↦ member-stored_here w j e ∙ law (j % 8) (omega arith) ∙ rw (same_bit i j e, e) refl
    | no e ↦ rw (member-stored_other w j e, other_byte i j e, skip) refl
  ]

  old_byte_read : load a (i / 8) ≡ some old_byte
  unfolding old_byte
  old_byte_read = get_elem?-get_or a (i / 8) 0 (place_in a i v hi)

  -- On an array of `n` bytes, `n` at most 256, and for a bit below `8 * n`: `cron_set_bit`
  -- leaves an array of `n` bytes, adds the bit to the set, and changes no other.
  pub cron_set_bit-member :
      Returns
        (cron_set_bit a i)
        (λ a'. IsArray n a' × ((j : ℕ) → member a' j ≡ ((i == j) || member a j)))
  unfolding cron_set_bit
  cron_set_bit-member = (
    stored (or_bit old_byte (i % 8)),
    rw (cast_byte i hn hi, cast_bit i, old_byte_read) (store_byte _),
    (
      stored-IsArray _
          (test_bit-or_bit old_byte (i % 8) 0 old_byte_small (omega arith) (omega arith)).1,
      member-stored _ (λ x y. x || y) (λ x. refl)
          λ l hl. (test_bit-or_bit old_byte (i % 8) l old_byte_small (omega arith) hl).0,
    ),
  )

  -- On an array of `n` bytes, `n` at most 256, and for a bit below `8 * n`: `cron_del_bit`
  -- leaves an array of `n` bytes, takes the bit out of the set, and changes no other.
  pub cron_del_bit-member :
      Returns
        (cron_del_bit a i)
        (λ a'. IsArray n a' × ((j : ℕ) → member a' j ≡ (not (i == j) && member a j)))
  unfolding cron_del_bit
  cron_del_bit-member = (
    stored (and_not_bit old_byte (i % 8)),
    rw (cast_byte i hn hi, cast_bit i, old_byte_read) (store_byte _),
    (
      stored-IsArray _
          (test_bit-and_not_bit old_byte (i % 8) 0 old_byte_small (omega arith) (omega arith)).1,
      member-stored _ (λ x y. not x && y) (λ x. refl)
          λ l hl. (test_bit-and_not_bit old_byte (i % 8) l old_byte_small (omega arith) hl).0,
    ),
  )
