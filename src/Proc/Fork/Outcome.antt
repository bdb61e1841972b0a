-- ===== src/Proc/Fork/Outcome.antt =====
-- The parts of `do_fork` (kernel/process.c) put together: what holds of the parent and the child at its end.
use mypkecode.Base.{
  ℕ, ◌+◌, ◌-◌, ◌*◌, ◌/◌, ◌%◌, ◌^◌, ◌≤◌, ◌<◌, ◌≡◌, ◌≢◌, refl, ◌∙◌, ap, sym, Bool, true, none, some,
  List, [], ◌∷◌, ◌++◌, has, length, ◌==◌, arith, if◌then◌else◌, Bool-cases, inl, inr,
}
use mypkecode.Phys.{pgsize, Phys}
use mypkecode.Phys.Laws.{write_ne, write_self}
use mypkecode.Trapframe.{trapframe_size, off_a0}
use mypkecode.Vmm.{leaf_pte}
use mypkecode.Vmm.Lookup.{pa_of}
use mypkecode.Vmm.Space.{Labels}
use mypkecode.Vmm.Built.{Built, add_root}
use mypkecode.Kernel.{Process, Kernel}
use mypkecode.Kernel.Status.{ready}
use mypkecode.Sched.Queue.{IsQueue}
use mypkecode.Sched.Insert.{Inserts}
use mypkecode.Proc.{user_stack_top}
use mypkecode.Proc.Mappings.{new_space, given}
use mypkecode.Proc.Created.{
  HoldsRegions, HoldsRegions-same, HoldsRegions-append, Created, first_regions,
}
use mypkecode.Proc.Fork.State.{Forking, Step}
use mypkecode.Proc.Fork.Pages.{Copied, Copied-from, code_perm}
use mypkecode.Proc.Fork.Regions.{
  Segment, code_at, data_at, noted_of_all, covers_any, Forked, AllForked,
}
use mypkecode.Proc.Fork.Parent.{IsParent, Loaded, AllLoaded, new_space-other}
use mypkecode.Proc.Fork.Start.{
  with_copies, old_pages, pages_differ, directories_differ, word_before, info_word, stack_word,
  frame_word,
}
use mypkecode.Proc.Fork.Child.{Child}
use mypkecode.Proc.Fork.Finish.{marked, marked_self, marked_other}

length-noted_of_all : (gs : List Segment) → length (noted_of_all gs) ≤ length gs
length-noted_of_all [] = omega arith
length-noted_of_all (code_at va n ∷ gs) = omega (arith, length-noted_of_all gs)
length-noted_of_all (data_at va n ∷ gs) = omega (arith, length-noted_of_all gs)

module _ (k k1 : Kernel) (p c : ℕ) {lab lab1 : Labels} {own : List ℕ} {roots : ℕ → Bool}
    {f : ℕ → ℕ → ℕ} (tf pt ks us info : ℕ) (xs xs1 : List ℕ) (gs : List Segment)
    (b : Built k.phys lab (tf ∷ pt ∷ ks ∷ us ∷ info ∷ xs) own roots f)
    (b1 : Built k1.phys lab1 xs1
      (info ∷ us ∷ ks ∷ tf ∷ own)
      (add_root roots pt)
      (new_space f pt us tf k.trap_sec_start))
    (cr : Created k k1 c tf pt ks info own) (par : IsParent k p own roots f gs) (apart : p ≢ c)
    (tf_ge : user_stack_top ≤ tf) (trap_ge : user_stack_top ≤ k.trap_sec_start)
    (low : k.phys.free_mem_end_addr ≤ 2 ^ 61) where
  abbrev ppt : ℕ
  ppt = (k.procs p).pagetable

  abbrev pinfo : ℕ
  pinfo = (k.procs p).mapped_info

  abbrev s0 : Forking
  s0 = record {
    k = with_copies k1 us (pa_of (f ppt (user_stack_top - pgsize))) tf (k.procs p).trapframe;
    lab = lab1;
    xs = xs1;
    own = info ∷ us ∷ ks ∷ tf ∷ own;
    f = new_space f pt us tf k.trap_sec_start;
  }

  -- The state before the call.
  abbrev pub before : Forking
  before = record { k = k; lab = lab; xs = tf ∷ pt ∷ ks ∷ us ∷ info ∷ xs; own = own; f = f }

  module _ (t : Forking) (need : ℕ)
      (st : Step
        (add_root roots pt)
        p
        c
        ppt
        pinfo
        pt
        info
        s0
        t
        (covers_any gs)
        (noted_of_all gs)
        3
        need) where
    -- The child as the loop leaves it.
    child_left : t.k.procs c ≡ record (given (k.procs c) tf pt ks info) {
      total_mapped_region = 3 + length (noted_of_all gs);
    }
    child_left = st.child ∙ rw cr.self refl

    pub left_frame : (t.k.procs c).trapframe ≡ tf
    left_frame = ap (λ (q : Process). q.trapframe) child_left

  module _ (t : Forking) (need : ℕ)
      (st : Step
        (add_root roots pt)
        p
        c
        ppt
        pinfo
        pt
        info
        s0
        t
        (covers_any gs)
        (noted_of_all gs)
        3
        need)
      (k' : Kernel) (queue : List ℕ) (queued : IsQueue k' (queue ++ c ∷ []))
      (ins : Inserts (marked t.k p c) k' c) where
    -- The state at the end.
    abbrev pub at_end : Forking
    at_end = record t { k = k' }

    end_phys : k'.phys ≡ (marked t.k p c).phys
    end_phys = ap (λ (k : Kernel). k.phys) ins.rest

    end_memory : (a : ℕ) → a ≢ tf + off_a0 → k'.phys.mem a ≡ t.k.phys.mem a
    end_memory a h =
        ap (λ (s : Phys). s.mem a) end_phys
        ∙ write_ne t.k.phys.mem ((t.k.procs c).trapframe + off_a0) 0 a
            (λ e. h (sym e ∙ ap (λ (n : ℕ). n + off_a0) (left_frame t need st)))

    end_a0 : k'.phys.mem (tf + off_a0) ≡ 0
    end_a0 =
        ap (λ (s : Phys). s.mem (tf + off_a0)) end_phys
        ∙ (rw (left_frame t need st) (write_self t.k.phys.mem (tf + off_a0) 0))

    -- Words in the pages of the state before the loop.
    fits : (q : ℕ) → has q s0.own ≡ true → q % pgsize ≡ 0
    fits q h = (b1.owned q h).2

    tf_aligned : tf % pgsize ≡ 0
    tf_aligned = fits tf (ground arith)

    word_end :
        (a : ℕ)
        → has (a / pgsize * pgsize) s0.own ≡ true
        → a / pgsize * pgsize ≢ info
        → a ≢ tf + off_a0
        → k'.phys.mem a ≡ s0.k.phys.mem a
    word_end a h out other = end_memory a other ∙ st.kept a h out

    end_stack :
        (o : ℕ)
        → o < pgsize
        → k'.phys.mem (us + o) ≡ k.phys.mem (pa_of (f ppt (user_stack_top - pgsize)) + o)
    end_stack o lt =
        let (x, y, z) =
          pages_differ k k1 p c tf pt ks us info xs xs1 gs b b1 cr par apart tf_ge trap_ge low in
        let al = fits us (ground arith) in
        let page : (us + o) / pgsize * pgsize ≡ us = omega (arith, al, lt) in
        word_end (us + o) (ground (arith, page)) (rw page z)
          (λ e. x (omega (arith, e, tf_aligned, al, lt)))
        ∙ stack_word k k1 p c tf pt ks us info xs xs1 gs b b1 cr par apart tf_ge trap_ge low o lt

    end_frame :
        (o : ℕ)
        → o < trapframe_size
        → k'.phys.mem (tf + o) ≡ (if o == off_a0 then 0 else k.phys.mem ((k.procs p).trapframe + o))
    end_frame o lt =
        let (x, y, z) =
          pages_differ k k1 p c tf pt ks us info xs xs1 gs b b1 cr par apart tf_ge trap_ge low in
        let page : (tf + o) / pgsize * pgsize ≡ tf = omega (arith, tf_aligned, lt) in
        elim (Bool-cases (o == off_a0)) [
          | inl e ↦ let here : o ≡ off_a0 = ground (arith, e) in rw here end_a0
          | inr e ↦ rw e (
              word_end (tf + o) (ground (arith, page)) (rw page y) (ground (arith, e))
              ∙ frame_word k k1 p c tf pt ks us info xs xs1 gs b b1 cr par apart tf_ge trap_ge low o
                  lt)
        ]

    end_spared : (a : ℕ) → has (a / pgsize * pgsize) own ≡ true → k'.phys.mem a ≡ k.phys.mem a
    end_spared a h =
        let (x, y, z) =
          old_pages k k1 p c tf pt ks us info xs xs1 gs b b1 cr par apart tf_ge trap_ge low
            (a / pgsize * pgsize) h in
        word_end a (ground (arith, h)) z (λ e. x (omega (arith, e, tf_aligned)))
        ∙ word_before k k1 p c tf pt ks us info xs xs1 gs b b1 cr par apart tf_ge trap_ge low a h

    in_table : (a : ℕ) → info ≤ a → a < info + pgsize → k'.phys.mem a ≡ t.k.phys.mem a
    in_table a ge lt =
        let (x, y, z) =
          pages_differ k k1 p c tf pt ks us info xs xs1 gs b b1 cr par apart tf_ge trap_ge low in
        let al = fits info (ground arith) in
        end_memory a (λ e. y (omega (arith, e, ge, lt, tf_aligned, al)))

    first_words : (a : ℕ) → info ≤ a → a < info + 16 * 3 → k'.phys.mem a ≡ k1.phys.mem a
    first_words a ge lt =
        in_table a ge (omega (arith, lt))
        ∙ st.earlier a ge lt
        ∙ info_word k k1 p c tf pt ks us info xs xs1 gs b b1 cr par apart tf_ge trap_ge low a
            (omega (arith, ge, lt, fits info (ground arith)))

    end_table :
        HoldsRegions k'.phys.mem info 0 (first_regions tf k.trap_sec_start ++ noted_of_all gs)
    end_table =
        HoldsRegions-append k'.phys.mem info 0 (first_regions tf k.trap_sec_start) (noted_of_all gs)
          (HoldsRegions-same k1.phys.mem k'.phys.mem info 0 (first_regions tf k.trap_sec_start)
            (λ a ge lt. first_words a (omega (arith, ge)) (omega (arith, lt))) cr.table)
          (HoldsRegions-same t.k.phys.mem k'.phys.mem info 3 (noted_of_all gs)
            (λ a ge lt.
              in_table a (omega (arith, ge)) (omega (arith, lt, par.room, length-noted_of_all gs)))
            st.table)

    pub at_end-Child : Child k k' p c tf pt ks us info own f t.f gs queue
    at_end-Child =
        let queued_as : Process → Process = λ q. record q { status = ready; queue_next = none } in
        let parented : Process → Process = λ q. record q { status = ready; parent = some p } in
        let over : Kernel → Kernel = λ x. record x {
          phys = k'.phys;
          procs = k'.procs;
          ready_queue_head = k'.ready_queue_head;
        } in
        record {
          self = ins.self ∙ ap queued_as (marked_self t.k p c ∙ ap parented (child_left t need st));
          others = λ q h.
              let linked : Process → Process =
                λ x. record x { queue_next = (k'.procs q).queue_next } in
              ins.others q h ∙ ap linked (marked_other t.k p c q h ∙ st.others q h ∙ cr.others q h);
          rest = ap over (ins.rest) ∙ ap over st.rest ∙ ap over cr.rest;
          queued = queued;
          stack = end_stack;
          frame = end_frame;
          table = end_table;
          spared = end_spared;
          entries = st.entries;
        }

    tf_owned : has tf s0.own ≡ true
    tf_owned = ground arith

    end_Copied :
        (va : ℕ)
        → has (pa_of (f ppt va)) own ≡ true
        → Copied (add_root roots pt) p c ppt pinfo pt info s0 t va
        → Copied (add_root roots pt) p c ppt pinfo pt info before at_end va
    end_Copied va mine h =
        let al = (st.built.owned h.pa h.taken).2 in
        let differs : h.pa ≢ tf = λ e. absurd (cc (ap (λ q. has q s0.own) e, h.unused, tf_owned)) in
        let far =
          directories_differ k k1 p c tf pt ks us info xs xs1 gs b b1 cr par apart tf_ge trap_ge
            low in
        Copied-from (add_root roots pt) p c ppt pinfo pt info {s = before} {t = s0} {u = at_end}
          {va = va} (λ q i. ground (arith, i))
          (new_space-other f pt us tf k.trap_sec_start ppt va far)
          (λ a page.
            word_before k k1 p c tf pt ks us info xs xs1 gs b b1 cr par apart tf_ge trap_ge low a
              (rw page mine))
          (b.owned (pa_of (f ppt va)) mine).2
          (record {
            pa = h.pa;
            entry = h.entry;
            taken = h.taken;
            unused = h.unused;
            same = λ o lt.
                end_memory (h.pa + o) (λ e. differs (omega (arith, e, al, tf_aligned, lt)))
                ∙ h.same o lt;
          })

    end_Forked :
        (g : Segment)
        → Loaded own (f ppt) g
        → Forked (add_root roots pt) p c ppt pinfo pt info s0 t g
        → Forked (add_root roots pt) p c ppt pinfo pt info before at_end g
    end_Forked (code_at va n) h d =
        let far =
          directories_differ k k1 p c tf pt ks us info xs xs1 gs b b1 cr par apart tf_ge trap_ge
            low in
        d
        ∙ ap (λ (e : ℕ). leaf_pte (pa_of e) code_perm)
            (new_space-other f pt us tf k.trap_sec_start ppt va far)
    end_Forked (data_at va n) h d = λ x lt. end_Copied (va + pgsize * x) (h.2 x lt) (d x lt)

    pub end_AllForked :
        (hs : List Segment)
        → AllLoaded own (f ppt) hs
        → AllForked (add_root roots pt) p c ppt pinfo pt info s0 t hs
        → AllForked (add_root roots pt) p c ppt pinfo pt info before at_end hs
    end_AllForked [] h d = tt
    end_AllForked (g ∷ hs) h d = (end_Forked g h.0 d.0, end_AllForked hs h.1 d.1)
