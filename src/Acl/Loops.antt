-- ===== src/Acl/Loops.antt =====
-- The loops that build the masks of a grant and of a revoke.
use Prim.Native.Nat.{bit_or}
use go_tableland.Prelude.{ℕ, ◌<◌, ◌≡◌, refl, ◌≢◌, true, not, ◌&&◌, ◌||◌, some, List, [], ◌∷◌, arith}
use go_tableland.Acl.{
  Privilege, priv_insert, priv_update, priv_delete, priv_zero, bitfield, has_privilege, and_not,
  all_privileges, privileges_of_mask, grant_mask_from, grant_mask, revoke_mask_from, revoke_mask,
}
use go_tableland.Acl.Masks.{
  holds, holds-bit_or, holds-and_not, bit_or-lt, and_not-lt, bitfield-lt, holds-bitfield,
}

holds-all : (q : Privilege) → q ≢ priv_zero → holds q all_privileges ≡ true
unfolding holds
holds-all priv_insert h = refl
holds-all priv_update h = refl
holds-all priv_delete h = refl
holds-all priv_zero h = absurd (h refl)

module _ (p : Privilege) (real : p ≢ priv_zero) where
  or_step :
      (q : Privilege) (ps : List Privilege) (m k : ℕ)
      → m < 8
      → (k < 8) × (holds p k ≡ (holds p (bit_or m (bitfield q)) || has_privilege p ps))
      → (k < 8) × (holds p k ≡ (holds p m || has_privilege p (q ∷ ps)))
  unfolding has_privilege
  or_step q ps m k h r =
      ground (arith, holds-bit_or p m (bitfield q) h (bitfield-lt q), holds-bitfield p q real)

  grant_mask_from_lem :
      (ps : List Privilege) (m k : ℕ)
      → m < 8
      → grant_mask_from m ps ≡ some k
      → (k < 8) × (holds p k ≡ (holds p m || has_privilege p ps))
  unfolding grant_mask_from has_privilege
  grant_mask_from_lem [] m k h e = ground arith
  grant_mask_from_lem (priv_zero ∷ ps) m k h e = cc
  grant_mask_from_lem (priv_insert ∷ ps) m k h e = or_step priv_insert ps m k h (
      grant_mask_from_lem ps (bit_or m (bitfield priv_insert)) k
        (bit_or-lt m (bitfield priv_insert) h (bitfield-lt priv_insert)) e)
  grant_mask_from_lem (priv_update ∷ ps) m k h e = or_step priv_update ps m k h (
      grant_mask_from_lem ps (bit_or m (bitfield priv_update)) k
        (bit_or-lt m (bitfield priv_update) h (bitfield-lt priv_update)) e)
  grant_mask_from_lem (priv_delete ∷ ps) m k h e = or_step priv_delete ps m k h (
      grant_mask_from_lem ps (bit_or m (bitfield priv_delete)) k
        (bit_or-lt m (bitfield priv_delete) h (bitfield-lt priv_delete)) e)

  not_step :
      (q : Privilege) (ps : List Privilege) (m k : ℕ)
      → m < 8
      → (k < 8) × (holds p k ≡ (holds p (and_not m (bitfield q)) && not (has_privilege p ps)))
      → (k < 8) × (holds p k ≡ (holds p m && not (has_privilege p (q ∷ ps))))
  unfolding has_privilege
  not_step q ps m k h r =
      ground (arith, holds-and_not p m (bitfield q) h (bitfield-lt q), holds-bitfield p q real)

  revoke_mask_from_lem :
      (ps : List Privilege) (m k : ℕ)
      → m < 8
      → revoke_mask_from m ps ≡ some k
      → (k < 8) × (holds p k ≡ (holds p m && not (has_privilege p ps)))
  unfolding revoke_mask_from has_privilege
  revoke_mask_from_lem [] m k h e = ground arith
  revoke_mask_from_lem (priv_zero ∷ ps) m k h e = cc
  revoke_mask_from_lem (priv_insert ∷ ps) m k h e = not_step priv_insert ps m k h (
      revoke_mask_from_lem ps (and_not m (bitfield priv_insert)) k
        (and_not-lt m (bitfield priv_insert) h (bitfield-lt priv_insert)) e)
  revoke_mask_from_lem (priv_update ∷ ps) m k h e = not_step priv_update ps m k h (
      revoke_mask_from_lem ps (and_not m (bitfield priv_update)) k
        (and_not-lt m (bitfield priv_update) h (bitfield-lt priv_update)) e)
  revoke_mask_from_lem (priv_delete ∷ ps) m k h e = not_step priv_delete ps m k h (
      revoke_mask_from_lem ps (and_not m (bitfield priv_delete)) k
        (and_not-lt m (bitfield priv_delete) h (bitfield-lt priv_delete)) e)

  -- A grant's mask sets exactly the bits of the listed privileges.
  pub grant_mask_lem :
      (ps : List Privilege) (k : ℕ)
      → grant_mask ps ≡ some k
      → (k < 8) × (holds p k ≡ has_privilege p ps)
  unfolding grant_mask holds privileges_of_mask has_privilege
  grant_mask_lem ps k e = let r = grant_mask_from_lem ps 0 k (omega arith) e in ground (arith, r)

  -- A revoke's mask keeps exactly the bits of the privileges that are not listed.
  pub revoke_mask_lem :
      (ps : List Privilege) (k : ℕ)
      → revoke_mask ps ≡ some k
      → (k < 8) × (holds p k ≡ not (has_privilege p ps))
  unfolding revoke_mask
  revoke_mask_lem ps k e =
      ground (arith, revoke_mask_from_lem ps all_privileges k (omega arith) e, holds-all p real)
