-- ===== src/Interp/Atomic/Reservation.antt =====
-- Load-reserved and store-conditional.
use dromajo.Prelude.{
  ℕ, zero, suc, ◌+◌, ◌-◌, ◌%◌, ◌^◌, ◌<◌, ◌≤◌, ◌≡◌, refl, ap, sym, ◌∙◌, Bool, true, false, ◌==◌, not,
  arith, some, get_elem?, if◌then◌else◌,
}
use dromajo.Cpu.Mmu.{PhysRead, loaded, failed, crashed}
use dromajo.Memory.{
  Hart, DeviceIo, write_range_at, tlb_store, count_store, fill_write, target_read, target_write,
  misaligned, pend, cause_misaligned_store,
}
use dromajo.Memory.Hit.{aligned-mod}
use dromajo.Iomem.{PhysMemoryRange, get_phys_mem_range}
use dromajo.Interp.{Flow, next, exception, illegal_insn, read_reg}
use dromajo.Interp.Fields.{rd_of, rs1_of, rs2_of}
use dromajo.Interp.Transfer.{and_then, write_loaded}
use dromajo.Interp.Atomic.{exec_lr, exec_sc, reserved, to_int}

module _ {D : Type 0} (io : DeviceIo D) where
  -- The reservation that a load leaves.
  left_by_load :
      (r : PhysRead × Hart D) (t : Hart D) (addr rd k n : ℕ)
      → and_then r (λ rval u.
        write_loaded
          (record u { load_res = addr; load_res_memseqno = u.memseqno })
          rd
          (to_int k rval)
          4)
        ≡ (t, next n)
      → (t.load_res ≡ addr) × (t.load_res_memseqno ≡ t.memseqno)
  unfolding and_then write_loaded
  left_by_load (loaded v, u) t addr rd k n e = (
    ap (λ (r : Hart D × Flow). r.0.load_res) (sym e),
    ap (λ (r : Hart D × Flow). r.0.load_res_memseqno) (sym e)
        ∙ ap (λ (r : Hart D × Flow). r.0.memseqno) e,
  )
  left_by_load (failed, u) t addr rd k n e = absurd (cc (ap (λ (r : Hart D × Flow). r.1) e))
  left_by_load (crashed, u) t addr rd k n e = absurd (cc (ap (λ (r : Hart D × Flow). r.1) e))

  -- A step that goes on to the next instruction did not leave on the first branch.
  stayed :
      (c : Bool) (x y : Hart D × Flow) (t : Hart D) (n : ℕ)
      → ((x ≡ (t, next n)) → ⊥)
      → (if c then x else y) ≡ (t, next n)
      → (c ≡ false) × (y ≡ (t, next n))
  stayed true x y t n other e = absurd (other e)
  stayed false x y t n other e = (refl, e)

  after_lr :
      (h t : Hart D) (k insn n : ℕ)
      → exec_lr io h k insn ≡ (t, next n)
      → (t.load_res ≡ read_reg h.cpu (rs1_of insn)) × (t.load_res_memseqno ≡ t.memseqno)
  unfolding exec_lr
  after_lr h t k insn n e =
      let addr = read_reg h.cpu (rs1_of insn) in
      left_by_load (target_read io h k addr) t addr (rd_of insn) k n
        (stayed (not (rs2_of insn == 0)) (h, illegal_insn) _ t n
          (λ z. cc (ap (λ (r : Hart D × Flow). r.1) z)) e).1

  -- What a store to a RAM range counts.
  store_counts :
      (u : Hart D) (k vaddr paddr v i : ℕ) (pr : PhysMemoryRange)
      → get_phys_mem_range u.mem_map paddr ≡ some i
      → get_elem? u.mem_map i ≡ some pr
      → pr.is_ram ≡ true
      → let w = write_range_at io u k vaddr paddr v in
        (w.memseqno ≡ (u.memseqno + 1) % 2 ^ 64)
        × (w.load_res_memseqno ≡ (u.load_res_memseqno + 1) % 2 ^ 64)
        × (w.load_res ≡ u.load_res)
  unfolding write_range_at count_store fill_write
  store_counts u k vaddr paddr v i pr found here ram = (
    ground (arith, found, here, ram),
    ground (arith, found, here, ram),
    ground (arith, found, here, ram),
  )

  hit_counts :
      (u : Hart D) (k vaddr v : ℕ)
      → let w = tlb_store u k vaddr v in
        (w.memseqno ≡ (u.memseqno + 1) % 2 ^ 64)
        × (w.load_res_memseqno ≡ (u.load_res_memseqno + 1) % 2 ^ 64)
        × (w.load_res ≡ u.load_res)
  unfolding tlb_store count_store
  hit_counts u k vaddr v = (refl, refl, refl)

  -- After a load-reserved that succeeds, its address is reserved. A store to any address of RAM by
  -- another hart of the machine, with a TLB hit or without, ends the reservation; one by the hart itself
  -- does not. The other hart shares the memory and the sequence number, which is less than 2 ^ 64.
  pub exec_lr-reserved :
      (h t u : Hart D) (k insn k2 vaddr paddr v i : ℕ) (pr : PhysMemoryRange)
      → exec_lr io h k insn ≡ (t, next 4)
      → t.memseqno < 2 ^ 64
      → u.memseqno ≡ t.memseqno
      → u.mem_map ≡ t.mem_map
      → get_phys_mem_range t.mem_map paddr ≡ some i
      → get_elem? t.mem_map i ≡ some pr
      → pr.is_ram ≡ true
      → let addr = read_reg h.cpu (rs1_of insn) in
        let miss = write_range_at io u k2 vaddr paddr v in
        let hit = tlb_store u k2 vaddr v in
        (reserved io t addr ≡ true)
        × (reserved io (record t { memseqno = miss.memseqno }) addr ≡ false)
        × (reserved io (record t { memseqno = hit.memseqno }) addr ≡ false)
        × (reserved io (write_range_at io t k2 vaddr paddr v) addr ≡ true)
        × (reserved io (tlb_store t k2 vaddr v) addr ≡ true)
  unfolding reserved
  exec_lr-reserved h t u k insn k2 vaddr paddr v i pr e w seq map found here ram =
      let a = after_lr h t k insn 4 e in
      let there : get_phys_mem_range u.mem_map paddr ≡ some i = rw map found in
      let place : get_elem? u.mem_map i ≡ some pr = rw map here in
      let missed = store_counts u k2 vaddr paddr v i pr there place ram in
      let hit = hit_counts u k2 vaddr v in
      let own = store_counts t k2 vaddr paddr v i pr found here ram in
      let own_hit = hit_counts t k2 vaddr v in
      (
        ground (arith, a.0, a.1),
        ground (arith, a.0, a.1, missed.0, seq),
        ground (arith, a.0, a.1, hit.0, seq),
        ground (arith, a.0, a.1, own.0, own.1, own.2),
        ground (arith, a.0, a.1, own_hit.0, own_hit.1, own_hit.2),
      )

  left_by_store :
      (r : PhysRead × Hart D) (t : Hart D) (rd n : ℕ)
      → and_then r
          (λ _ u. write_loaded (record u { load_res = 2 ^ 64 - 1; load_res_memseqno = 0 }) rd 0 4)
        ≡ (t, next n)
      → t.load_res ≡ 2 ^ 64 - 1
  unfolding and_then write_loaded
  left_by_store (loaded v, u) t rd n e = ap (λ (r : Hart D × Flow). r.0.load_res) (sym e)
  left_by_store (failed, u) t rd n e = absurd (cc (ap (λ (r : Hart D × Flow). r.1) e))
  left_by_store (crashed, u) t rd n e = absurd (cc (ap (λ (r : Hart D × Flow). r.1) e))

  -- A store-conditional that did nothing leaves what made it do nothing.
  refused :
      (h t : Hart D) (rd n addr : ℕ)
      → write_loaded h rd 1 4 ≡ (t, next n)
      → reserved io t addr ≡ reserved io h addr
  unfolding write_loaded reserved
  refused h t rd n addr e = ap (λ (r : Hart D × Flow). reserved io r.0 addr) (sym e)

  word_aligned : (k addr : ℕ) → 2 ≤ k → k ≤ 3 → misaligned k addr ≡ false → addr % 4 ≡ 0
  word_aligned zero addr two three al = absurd (omega arith)
  word_aligned (suc zero) addr two three al = absurd (omega arith)
  word_aligned (suc (suc zero)) addr two three al = omega (arith, aligned-mod 2 addr al)
  word_aligned (suc (suc (suc zero))) addr two three al = omega (arith, aligned-mod 3 addr al)
  word_aligned (suc (suc (suc (suc k)))) addr two three al = absurd (omega arith)

  lost :
      (t : Hart D) (k addr : ℕ)
      → 2 ≤ k
      → k ≤ 3
      → misaligned k addr ≡ false
      → t.load_res ≡ 2 ^ 64 - 1
      → reserved io t addr ≡ false
  unfolding reserved
  lost t k addr two three al e =
      let ne : (t.load_res == addr) ≡ false = ground (arith, e, word_aligned k addr two three al) in
      ground (arith, ne)

  skip : (c : Bool) (x y r : Hart D × Flow) → c ≡ false → (if c then x else y) ≡ r → y ≡ r
  skip true x y r h e = absurd (cc h)
  skip false x y r h e = e

  choose :
      (c : Bool) (h t : Hart D) (k insn : ℕ)
      → 2 ≤ k
      → k ≤ 3
      → misaligned k (read_reg h.cpu (rs1_of insn)) ≡ false
      → reserved io h (read_reg h.cpu (rs1_of insn)) ≡ c
      → (if c
          then and_then
              (target_write io h k (read_reg h.cpu (rs1_of insn)) (read_reg h.cpu (rs2_of insn)))
              (λ _ v.
                write_loaded
                  (record v { load_res = 2 ^ 64 - 1; load_res_memseqno = 0 })
                  (rd_of insn)
                  0
                  4)
          else write_loaded h (rd_of insn) 1 4)
        ≡ (t, next 4)
      → reserved io t (read_reg h.cpu (rs1_of insn)) ≡ false
  choose true h t k insn two three al r e =
      let addr = read_reg h.cpu (rs1_of insn) in
      lost t k addr two three al
        (left_by_store (target_write io h k addr (read_reg h.cpu (rs2_of insn))) t (rd_of insn) 4 e)
  choose false h t k insn two three al r e =
      let addr = read_reg h.cpu (rs1_of insn) in refused h t (rd_of insn) 4 addr e ∙ r

  spent :
      (h t : Hart D) (k insn : ℕ)
      → 2 ≤ k
      → k ≤ 3
      → exec_sc io h k insn ≡ (t, next 4)
      → reserved io t (read_reg h.cpu (rs1_of insn)) ≡ false
  unfolding exec_sc
  spent h t k insn two three e =
      let addr = read_reg h.cpu (rs1_of insn) in
      let s =
        stayed (misaligned k addr) (pend h cause_misaligned_store addr, exception) _ t 4
          (λ z. cc (ap (λ (r : Hart D × Flow). r.1) z)) e in
      choose (reserved io h addr) h t k insn two three s.0 refl s.1

  retried :
      (t u : Hart D) (j insn : ℕ)
      → reserved io t (read_reg t.cpu (rs1_of insn)) ≡ false
      → exec_sc io t j insn ≡ (u, next 4)
      → write_loaded t (rd_of insn) 1 4 ≡ (u, next 4)
  unfolding exec_sc
  retried t u j insn free e =
      let addr = read_reg t.cpu (rs1_of insn) in
      let s =
        stayed (misaligned j addr) (pend t cause_misaligned_store addr, exception) _ u 4
          (λ z. cc (ap (λ (r : Hart D × Flow). r.1) z)) e in
      skip (reserved io t addr) _ _ (u, next 4) free s.1

  -- After a store-conditional that goes on to the next instruction, whether it stored or not, its
  -- address is not reserved: another store-conditional to it, of either size, that goes on, stores
  -- nothing and puts 1 in its rd. The sizes are 4 and 8 bytes.
  pub exec_sc-exec_sc :
      (h t u : Hart D) (k insn j insn2 : ℕ)
      → 2 ≤ k
      → k ≤ 3
      → exec_sc io h k insn ≡ (t, next 4)
      → read_reg t.cpu (rs1_of insn2) ≡ read_reg h.cpu (rs1_of insn)
      → exec_sc io t j insn2 ≡ (u, next 4)
      → (u, next 4) ≡ write_loaded t (rd_of insn2) 1 4
  exec_sc-exec_sc h t u k insn j insn2 two three e same f =
      let addr = read_reg h.cpu (rs1_of insn) in
      let free = spent h t k insn two three e in
      let second : reserved io t (read_reg t.cpu (rs1_of insn2)) ≡ false = rw same free in
      sym (retried t u j insn2 second f)
