-- ===== src/Proc/Stages.antt =====
-- The pages that `alloc_process` (kernel/process.c) takes, up to the first mapping of the new space.
use mypkecode.Base.{
  ℕ, ◌+◌, ◌*◌, ◌/◌, ◌≤◌, ◌<◌, ◌≡◌, ◌≢◌, ◌∙◌, ◌%◌, Bool, true, List, ◌∷◌, has, arith, if◌then◌else◌,
  ◌==◌,
}
use mypkecode.Phys.{pgsize, Phys, write, clear}
use mypkecode.Phys.Laws.{clear_in, clear_apart, write_ne}
use mypkecode.Pmm.Pages.{taken}
use mypkecode.Vmm.Space.{Labels}
use mypkecode.Vmm.Spared.{with_memory}
use mypkecode.Vmm.Built.{
  Built, empty_over, add_root, add_dir, taken-Built, changed-Built, new_dir-Built,
}
use mypkecode.Kernel.{Kernel}
use mypkecode.Trapframe.{off_sp, trapframe_size}
use mypkecode.Proc.{user_stack_top}

module _ (k : Kernel) (i : ℕ) {lab : Labels} {own : List ℕ} {roots : ℕ → Bool} {f : ℕ → ℕ → ℕ}
    (tf pt ks us info : ℕ) (xs : List ℕ)
    (b : Built k.phys lab (tf ∷ pt ∷ ks ∷ us ∷ info ∷ xs) own roots f) where
  -- Memory up to the first mapping.
  abbrev pub frame_cleared : Phys
  frame_cleared = with_memory (taken k.phys) (clear k.phys.mem tf trapframe_size)

  first-Built : Built (taken k.phys) lab (pt ∷ ks ∷ us ∷ info ∷ xs) (tf ∷ own) roots f
  first-Built = taken-Built b

  pub frame-Built : Built frame_cleared lab (pt ∷ ks ∷ us ∷ info ∷ xs) (tf ∷ own) roots f
  unfolding clear
  frame-Built =
      let o = first-Built.owned tf (ground arith) in
      changed-Built (clear k.phys.mem tf trapframe_size) tf first-Built (ground arith)
        λ a h. ground (arith, o.2)

  abbrev pub dir_cleared : Phys
  dir_cleared = with_memory (taken frame_cleared) (clear frame_cleared.mem pt pgsize)

  cleared-Built : Built dir_cleared lab (ks ∷ us ∷ info ∷ xs) (pt ∷ tf ∷ own) roots f
  unfolding clear
  cleared-Built =
      let t = taken-Built frame-Built in
      let o = t.owned pt (ground arith) in
      changed-Built (clear frame_cleared.mem pt pgsize) pt t (ground arith)
        λ a h. ground (arith, o.2)

  pub dir-Built :
      Built dir_cleared
        (add_dir lab pt)
        (ks ∷ us ∷ info ∷ xs)
        (tf ∷ own)
        (add_root roots pt)
        (empty_over f pt)
  dir-Built =
      let o = cleared-Built.owned pt (ground arith) in
      new_dir-Built pt cleared-Built (ground (arith, b.space.pool.chain.4, b.owned pt))
        λ a h. clear_in frame_cleared.mem pt pgsize a (omega (arith, h)) (omega (arith, h))

  abbrev pub stacked : Phys
  stacked =
      with_memory (taken (taken dir_cleared)) (write dir_cleared.mem (tf + off_sp) user_stack_top)

  pub stack-Built :
      Built stacked
        (add_dir lab pt)
        (info ∷ xs)
        (us ∷ ks ∷ tf ∷ own)
        (add_root roots pt)
        (empty_over f pt)
  unfolding write
  stack-Built =
      let t = taken-Built (taken-Built dir-Built) in
      let o = t.owned tf (ground arith) in
      changed-Built (write dir_cleared.mem (tf + off_sp) user_stack_top) tf t (ground arith)
        λ a h. ground (arith, o.2)

  abbrev pub table_cleared : Phys
  table_cleared = with_memory (taken stacked) (clear stacked.mem info pgsize)

  pub table-Built :
      Built table_cleared
        (add_dir lab pt)
        xs
        (info ∷ us ∷ ks ∷ tf ∷ own)
        (add_root roots pt)
        (empty_over f pt)
  unfolding clear
  table-Built =
      let t = taken-Built stack-Built in
      let o = t.owned info (ground arith) in
      changed-Built (clear stacked.mem info pgsize) info t (ground arith) λ a h. ground (arith, o.2)

  -- What is left in the pages of `own`, and what the new pages hold.
  pub pages_apart : (q : ℕ) → has q own ≡ true → (q ≢ tf) × (q ≢ pt) × (q ≢ info)
  pages_apart q h =
      let o = (b.owned q h).1 in (ground (arith, o), ground (arith, o), ground (arith, o))

  spared :
      (a : ℕ)
      → a / pgsize * pgsize ≢ tf
      → a / pgsize * pgsize ≢ pt
      → a / pgsize * pgsize ≢ info
      → table_cleared.mem a ≡ k.phys.mem a
  spared a h h' h'' =
      let c = b.space.pool.chain in
      clear_apart stacked.mem info pgsize a c.5.5.5.5.1 (omega arith) h''
      ∙ write_ne dir_cleared.mem (tf + off_sp) user_stack_top a (λ e. h (omega (arith, e, c.1)))
      ∙ clear_apart frame_cleared.mem pt pgsize a c.5.1 (omega arith) h'
      ∙ clear_apart k.phys.mem tf trapframe_size a c.1 (omega arith) h

  pub table_cleared-own :
      (a : ℕ) → has (a / pgsize * pgsize) own ≡ true → table_cleared.mem a ≡ k.phys.mem a
  table_cleared-own a h = let (x, y, z) = pages_apart (a / pgsize * pgsize) h in spared a x y z

  pub table_cleared-info : (a : ℕ) → a / pgsize * pgsize ≡ info → table_cleared.mem a ≡ 0
  unfolding clear
  table_cleared-info a h = ground (arith, h)

  pub frames_apart :
      (tf ≢ pt) × (tf ≢ info) × (tf % pgsize ≡ 0) × (pt % pgsize ≡ 0) × (info % pgsize ≡ 0)
  frames_apart =
      let c = b.space.pool.chain in
      (ground (arith, c.4), ground (arith, c.4), c.1, c.5.1, c.5.5.5.5.1)

  pub table_cleared-frame :
      (a : ℕ)
      → tf ≤ a
      → a < tf + trapframe_size
      → table_cleared.mem a ≡ (if a == tf + off_sp then user_stack_top else 0)
  unfolding write
  table_cleared-frame a ge lt =
      let (x, y, al, al', al'') = frames_apart in
      let page : a / pgsize * pgsize ≡ tf = omega (arith, al) in
      let zero_there : dir_cleared.mem a ≡ 0 =
        clear_apart frame_cleared.mem pt pgsize a al' (omega arith)
          (λ e. x (omega (arith, page, e)))
        ∙ clear_in k.phys.mem tf trapframe_size a ge lt in
      clear_apart stacked.mem info pgsize a al'' (omega arith) (λ e. y (omega (arith, page, e)))
      ∙ ground (arith, zero_there)
