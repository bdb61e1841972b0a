-- ===== src/Vmm/Perm.antt =====
-- `prot_to_type` of kernel/vmm.c and the fields of the entries that `map_pages` writes.
use mypkecode.Base.{
  ℕ, zero, suc, ◌+◌, ◌*◌, ◌/◌, ◌^◌, ◌<◌, ◌≡◌, refl, Bool, true, false, ◌||◌, arith, ◌==◌,
}
use mypkecode.Base.Words.{has_bit, bit_or-one, bit_or-field}
use mypkecode.Phys.{pgsize}
use mypkecode.Vmm.{pte_v, pte_r, pte_w, pte_x, pte_u, pte2pa, leaf_pte, prot_to_type}

pub leaf_pte_eq :
    (pa perm : ℕ) → perm < 1024 → leaf_pte pa perm ≡ (pa / 4096 * 1024 + perm) / 2 * 2 + 1
unfolding leaf_pte
leaf_pte_eq pa perm h = rw (bit_or-field 10 (pa / 4096) perm h) (bit_or-one _)

-- The entry for `pa` and `perm` is valid, points to the page of `pa`, and has the flags of `perm`.
pub leaf_pte_fields :
    (pa perm : ℕ)
    → perm < 1024
    → pa < 2 ^ 63
    → (has_bit (leaf_pte pa perm) pte_v ≡ true)
      × (pte2pa (leaf_pte pa perm) ≡ pa / pgsize * pgsize)
      × (has_bit (leaf_pte pa perm) pte_r ≡ has_bit perm pte_r)
      × (has_bit (leaf_pte pa perm) pte_w ≡ has_bit perm pte_w)
      × (has_bit (leaf_pte pa perm) pte_x ≡ has_bit perm pte_x)
      × (has_bit (leaf_pte pa perm) pte_u ≡ has_bit perm pte_u)
leaf_pte_fields pa perm h k =
    rw (leaf_pte_eq pa perm h)
      (ground arith, omega arith, ground arith, ground arith, ground arith, ground arith)

-- What the flags of a permission say.
abbrev pub Grants : (prot perm : ℕ) (user : Bool) → Type 0
Grants prot perm user =
    (perm < 1024)
    × (has_bit perm pte_r ≡ (has_bit prot 0 || (prot == 0)))
    × (has_bit perm pte_w ≡ has_bit prot 1)
    × (has_bit perm pte_x ≡ has_bit prot 2)
    × (has_bit perm pte_u ≡ user)
    × (has_bit perm pte_v ≡ false)

-- `prot_to_type` gives, for every value of `enum VMPermision` and either value of `user`, a permission of
-- flags alone: readable if reading was asked for or nothing was, writable and executable just if that
-- was asked for, open to user mode just if `user` is set, and without the valid bit.
pub prot_to_type-Grants :
    (prot : ℕ) (user : Bool) → prot < 8 → Grants prot (prot_to_type prot user) user
unfolding prot_to_type
prot_to_type-Grants zero true h = (omega arith, refl, refl, refl, refl, refl)
prot_to_type-Grants zero false h = (omega arith, refl, refl, refl, refl, refl)
prot_to_type-Grants (suc zero) true h = (omega arith, refl, refl, refl, refl, refl)
prot_to_type-Grants (suc zero) false h = (omega arith, refl, refl, refl, refl, refl)
prot_to_type-Grants (suc (suc zero)) true h = (omega arith, refl, refl, refl, refl, refl)
prot_to_type-Grants (suc (suc zero)) false h = (omega arith, refl, refl, refl, refl, refl)
prot_to_type-Grants (suc (suc (suc zero))) true h = (omega arith, refl, refl, refl, refl, refl)
prot_to_type-Grants (suc (suc (suc zero))) false h = (omega arith, refl, refl, refl, refl, refl)
prot_to_type-Grants (suc (suc (suc (suc zero)))) true h =
    (omega arith, refl, refl, refl, refl, refl)
prot_to_type-Grants (suc (suc (suc (suc zero)))) false h =
    (omega arith, refl, refl, refl, refl, refl)
prot_to_type-Grants (suc (suc (suc (suc (suc zero))))) true h =
    (omega arith, refl, refl, refl, refl, refl)
prot_to_type-Grants (suc (suc (suc (suc (suc zero))))) false h =
    (omega arith, refl, refl, refl, refl, refl)
prot_to_type-Grants (suc (suc (suc (suc (suc (suc zero)))))) true h =
    (omega arith, refl, refl, refl, refl, refl)
prot_to_type-Grants (suc (suc (suc (suc (suc (suc zero)))))) false h =
    (omega arith, refl, refl, refl, refl, refl)
prot_to_type-Grants (suc (suc (suc (suc (suc (suc (suc zero))))))) true h =
    (omega arith, refl, refl, refl, refl, refl)
prot_to_type-Grants (suc (suc (suc (suc (suc (suc (suc zero))))))) false h =
    (omega arith, refl, refl, refl, refl, refl)
prot_to_type-Grants (suc (suc (suc (suc (suc (suc (suc (suc n)))))))) user h = absurd (omega arith)
