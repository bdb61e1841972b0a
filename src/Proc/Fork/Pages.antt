-- ===== src/Proc/Fork/Pages.antt =====
-- What `do_fork` (kernel/process.c) makes of single pages of the parent, and that later steps leave it.
use mypkecode.Base.{
  ℕ, ◌+◌, ◌*◌, ◌/◌, ◌%◌, ◌<◌, ◌≡◌, ◌≢◌, ◌∙◌, ap, Bool, true, false, List, has, ◌==◌, arith, bit_or,
  Bool-cases, inl, inr,
}
use mypkecode.Base.Words.{has_bit}
use mypkecode.Phys.{pgsize}
use mypkecode.Vmm.{pte_v, leaf_pte, prot_read, prot_exec, prot_to_type}
use mypkecode.Vmm.Lookup.{pa_of}
use mypkecode.Proc.Mappings.{stack_perm}
use mypkecode.Proc.Fork.State.{Forking, Step}

abbrev pub code_perm : ℕ
code_perm = prot_to_type (bit_or prot_exec prot_read) true

module _ (roots : ℕ → Bool) (p c ppt pinfo pt info : ℕ) where
  -- The page of the child at `va` is a new one with what the parent's page held.
  pub record Copied (s t : Forking) (va : ℕ) : Type 0 where
    pub pa : ℕ
    pub entry : t.f pt va ≡ leaf_pte pa stack_perm
    pub taken : has pa t.own ≡ true
    pub unused : has pa s.own ≡ false
    pub same : (o : ℕ) → o < pgsize → t.k.phys.mem (pa + o) ≡ s.k.phys.mem (pa_of (s.f ppt va) + o)

  -- The child has the parent's page at `va`, to read and execute.
  abbrev pub Shared : (s t : Forking) (va : ℕ) → Type 0
  Shared s t va = t.f pt va ≡ leaf_pte (pa_of (s.f ppt va)) code_perm

  -- The parent's page at `va` can be copied.
  pub record Source (s : Forking) (va : ℕ) : Type 0 where
    pub held : has (pa_of (s.f ppt va)) s.own ≡ true
    pub not_table : pa_of (s.f ppt va) ≢ info

  -- Where the parent's page is as it was before.
  pub Copied-from :
      {s t u : Forking} {va : ℕ}
      → ((q : ℕ) → has q s.own ≡ true → has q t.own ≡ true)
      → t.f ppt va ≡ s.f ppt va
      → ((a : ℕ) → a / pgsize * pgsize ≡ pa_of (s.f ppt va) → t.k.phys.mem a ≡ s.k.phys.mem a)
      → pa_of (s.f ppt va) % pgsize ≡ 0
      → Copied t u va
      → Copied s u va
  Copied-from {s} {t} {u} {va} grows e kept al h = record {
    pa = h.pa;
    entry = h.entry;
    taken = h.taken;
    unused = elim (Bool-cases (has h.pa s.own)) [
      | inl y ↦ absurd (cc (grows h.pa y, h.unused))
      | inr n ↦ n
    ];
    same = λ o lt.
        h.same o lt
        ∙ ap (λ x. t.k.phys.mem (pa_of x + o)) e
        ∙ kept (pa_of (s.f ppt va) + o) (omega (arith, al, lt));
  }

  module _ {s t : Forking} {cov : ℕ → Bool} {rs : List (ℕ × ℕ × ℕ)} {total need : ℕ}
      (st : Step roots p c ppt pinfo pt info s t cov rs total need) where
    pub parent_entry : ppt ≢ pt → (va : ℕ) → t.f ppt va ≡ s.f ppt va
    parent_entry apart va =
        let e : (ppt == pt) ≡ false = ground (arith, apart) in st.entries ppt va (ground (arith, e))

    pub child_entry : (va : ℕ) → cov (va / pgsize) ≡ false → t.f pt va ≡ s.f pt va
    child_entry va out = st.entries pt va (ground (arith, out))

    pub still_fresh :
        (va : ℕ)
        → cov (va / pgsize) ≡ false
        → has_bit (s.f pt va) pte_v ≡ false
        → has_bit (t.f pt va) pte_v ≡ false
    still_fresh va out h = let e = child_entry va out in rw e h

    pub Source-later : ppt ≢ pt → {va : ℕ} → Source s va → Source t va
    Source-later apart {va} h =
        let e = parent_entry apart va in
        record { held = rw e (st.grows (pa_of (s.f ppt va)) h.held); not_table = rw e h.not_table }

    -- A step before.
    pub Copied-before :
        {u : Forking} {va : ℕ}
        → ppt ≢ pt
        → pa_of (s.f ppt va) % pgsize ≡ 0
        → Source s va
        → Copied t u va
        → Copied s u va
    Copied-before {u} {va} apart al src h =
        Copied-from st.grows (parent_entry apart va)
          (λ a page. st.kept a (rw page src.held) (rw page src.not_table)) al h

    -- A step behind.
    pub Copied-later :
        {s0 : Forking} {va : ℕ}
        → has info s0.own ≡ true
        → cov (va / pgsize) ≡ false
        → ((q : ℕ) → has q s.own ≡ true → q % pgsize ≡ 0)
        → Copied s0 s va
        → Copied s0 t va
    Copied-later {s0} {va} mine out al h =
        let differs : h.pa ≢ info = λ e. absurd (cc (ap (λ q. has q s0.own) e, h.unused, mine)) in
        record {
          pa = h.pa;
          entry = child_entry va out ∙ h.entry;
          taken = st.grows h.pa h.taken;
          unused = h.unused;
          same = λ o lt.
              let page : (h.pa + o) / pgsize * pgsize ≡ h.pa = omega (arith, al h.pa h.taken, lt) in
              st.kept (h.pa + o) (rw page h.taken) (rw page differs) ∙ h.same o lt;
        }
