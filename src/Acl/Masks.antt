-- ===== src/Acl/Masks.antt =====
-- What the bit masks of system_acl mean: a privilege is held when its bit is set.
use Prim.Native.Nat.{bit_and, bit_or}
use go_tableland.Prelude.{
  ℕ, zero, suc, ◌<◌, Bool, true, false, ◌||◌, ◌&&◌, not, ◌≡◌, ◌≢◌, refl, arith, ltb,
}
use go_tableland.Acl.{
  Privilege, priv_insert, priv_update, priv_delete, priv_zero, bitfield, eq_privilege,
  has_privilege, privileges_of_mask, and_not,
}

-- The mask has the privilege's bit.
unfoldable pub holds : Privilege → ℕ → Bool
unfolding has_privilege privileges_of_mask
holds p m = has_privilege p (privileges_of_mask m)

abbrev eq_bool : Bool → Bool → Bool
eq_bool true b = b
eq_bool false b = not b

eq_bool_sound : (a b : Bool) → eq_bool a b ≡ true → a ≡ b
eq_bool_sound a b h = ground arith

all_below : ℕ → (ℕ → Bool) → Bool
all_below zero f = true
all_below (suc n) f = f n && all_below n f

all_below_sound : (n : ℕ) (f : ℕ → Bool) (x : ℕ) → all_below n f ≡ true → x < n → f x ≡ true
unfolding all_below
all_below_sound zero f x h lt = absurd (omega arith)
all_below_sound (suc n) f x h lt = ground (arith, all_below_sound n f x)

-- The laws of one privilege's bit at two masks, as a test.
check_bits : Privilege → ℕ → ℕ → Bool
unfolding holds and_not
check_bits p m n =
    eq_bool (holds p (bit_or m n)) (holds p m || holds p n)
    && eq_bool (holds p (bit_and m n)) (holds p m && holds p n)
    && eq_bool (holds p (and_not m n)) (holds p m && not (holds p n))

check_range : ℕ → ℕ → Bool
unfolding and_not
check_range m n = ltb (bit_or m n) 8 && ltb (bit_and m n) 8 && ltb (and_not m n) 8

bits_table : (p : Privilege) → all_below 8 (λ m. all_below 8 (λ n. check_bits p m n)) ≡ true
unfolding all_below check_bits
bits_table priv_insert = refl
bits_table priv_update = refl
bits_table priv_delete = refl
bits_table priv_zero = refl

range_table : all_below 8 (λ m. all_below 8 (λ n. check_range m n)) ≡ true
unfolding all_below check_range
range_table = refl

bits_checked : (p : Privilege) (m n : ℕ) → m < 8 → n < 8 → check_bits p m n ≡ true
bits_checked p m n hm hn =
    all_below_sound 8 (λ k. check_bits p m k) n
      (all_below_sound 8 (λ j. all_below 8 (λ k. check_bits p j k)) m (bits_table p) hm) hn

range_checked : (m n : ℕ) → m < 8 → n < 8 → check_range m n ≡ true
range_checked m n hm hn =
    all_below_sound 8 (λ k. check_range m k) n
      (all_below_sound 8 (λ j. all_below 8 (λ k. check_range j k)) m range_table hm) hn

module _ (p : Privilege) (m n : ℕ) (hm : m < 8) (hn : n < 8) where
  pub holds-bit_or : holds p (bit_or m n) ≡ (holds p m || holds p n)
  unfolding check_bits
  holds-bit_or = eq_bool_sound _ _ (ground (arith, bits_checked p m n hm hn))

  pub holds-bit_and : holds p (bit_and m n) ≡ (holds p m && holds p n)
  unfolding check_bits
  holds-bit_and = eq_bool_sound _ _ (ground (arith, bits_checked p m n hm hn))

  pub holds-and_not : holds p (and_not m n) ≡ (holds p m && not (holds p n))
  unfolding check_bits
  holds-and_not = eq_bool_sound _ _ (ground (arith, bits_checked p m n hm hn))

module _ (m n : ℕ) (hm : m < 8) (hn : n < 8) where
  pub bit_or-lt : bit_or m n < 8
  unfolding check_range
  bit_or-lt = ground (arith, range_checked m n hm hn)

  pub bit_and-lt : bit_and m n < 8
  unfolding check_range
  bit_and-lt = ground (arith, range_checked m n hm hn)

  pub and_not-lt : and_not m n < 8
  unfolding check_range
  and_not-lt = ground (arith, range_checked m n hm hn)

pub bitfield-lt : (p : Privilege) → bitfield p < 8
unfolding bitfield
bitfield-lt priv_insert = omega arith
bitfield-lt priv_update = omega arith
bitfield-lt priv_delete = omega arith
bitfield-lt priv_zero = omega arith

-- A privilege's own bit is the one that is set.
pub holds-bitfield : (p q : Privilege) → p ≢ priv_zero → holds p (bitfield q) ≡ eq_privilege q p
unfolding holds bitfield eq_privilege
holds-bitfield priv_insert priv_insert h = refl
holds-bitfield priv_insert priv_update h = refl
holds-bitfield priv_insert priv_delete h = refl
holds-bitfield priv_insert priv_zero h = refl
holds-bitfield priv_update priv_insert h = refl
holds-bitfield priv_update priv_update h = refl
holds-bitfield priv_update priv_delete h = refl
holds-bitfield priv_update priv_zero h = refl
holds-bitfield priv_delete priv_insert h = refl
holds-bitfield priv_delete priv_update h = refl
holds-bitfield priv_delete priv_delete h = refl
holds-bitfield priv_delete priv_zero h = refl
holds-bitfield priv_zero q h = absurd (h refl)
