-- ===== src/Lib.antt =====
-- A model of Dromajo, a RISC-V simulator (RV64GC with user, supervisor and machine modes).
--
-- The program. A hart (`RISCVCPUState`, include/riscv_cpu.h) holds the registers and the control
-- state. Its accesses to memory go through address translation and physical memory protection
-- (src/riscv_cpu.cpp) to the physical memory map (src/iomem.cpp), which answers with RAM or with a
-- device. Two of the devices of the machine (src/riscv_machine.cpp) write to the harts: the CLINT
-- sets timers and software interrupts, and the PLIC drives the external interrupt bits of mip; a
-- UART drives a line of the PLIC. The VirtIO devices (src/virtio.cpp) take requests from rings in
-- the guest's RAM, which they read and write past the harts, and raise an interrupt. At the start
-- of a block of instructions the hart takes a pending interrupt, which traps as an exception does.
-- The interpreter (include/dromajo_template.h) decodes an instruction, works on the integer
-- registers, loads and stores through the TLBs, reads and writes the control and status registers
-- and returns from traps. For a snapshot the program writes a boot ROM, a RISC-V program that
-- brings the registers back (src/riscv_cpu.cpp). In a cosimulation (src/dromajo_cosim.cpp) a design
-- under test reports each instruction that it has run, and the hart runs one and compares; what
-- cannot be simulated is taken over from the design.
--
-- The files.
--   Prelude            shared names: numbers, tests, lists, and the bits of a word
--   Cpu/Constants      the constants of include/riscv.h
--   Cpu/State          `RISCVCPUState` as a record; a TLB is a function from an index to a tag
--   Cpu/Mstatus        get_mstatus, set_mstatus, set_priv, tlb_flush_all
--   Cpu/Trap           raise_exception2, handle_sret, handle_mret, handle_dret
--   Cpu/Interrupt      get_pending_irq_mask, get_irq_num, raise_interrupt, riscv_cpu_set_mip
--   Cpu/Csr            csr_read and csr_write; the switch is cut into ranges of register numbers
--   Cpu/Pmp            riscv_cpu_pmp_access_ok and unpack_pmpaddrs
--   Cpu/Mmu            riscv_cpu_get_phys_addr, with the reads of page-table entries that it makes
--   Memory             target_read, target_write, riscv_cpu_read_memory, riscv_cpu_write_memory and
--                      check_triggers of src/riscv_cpu.cpp; the hart with what its accesses reach;
--                      Fetch has target_read_insn_slow and the fetch at the start of a block
--   Alu                signed division and the carry-less products of include/dromajo_template.h
--   Interp             the switch of riscv_cpu_interp64 in include/dromajo_template.h: Fields decodes,
--                      Word has the helpers in front of the switch; Arith, Immediate, Jump, Transfer,
--                      Atomic, System and Compressed have a group of opcodes each, Exec the switch and what
--                      follows it, and Loop the loop of the function around the switch
--   Cosim              dromajo_cosim_step, its overrides and dromajo_cosim_raise_trap of
--                      src/dromajo_cosim.cpp, and what they call of src/riscv_cpu.cpp
--   Recovery           the encoders of the boot ROM, create_auipc to create_hang_nonzero_hart
--   Iomem              the ranges of src/iomem.cpp and the dirty bits of include/iomem.h
--   Devices            RISCVMachine, the CLINT, the PLIC and the SiFive UART of src/riscv_machine.cpp, and
--                      the UART of src/dw_apb_uart.cpp
--   Virtio             the VirtIO devices of src/virtio.cpp: the state of a device and its copies to and
--                      from RAM; Queue has the descriptor chains and the rings, Config the configuration
--                      space, Mmio and Pci the registers of the two transports, and Block, Net, Console and
--                      Input a device each
--   Examples           the theorems at concrete machines
-- The modules below each of these hold what is proved about it.
--
-- How the code is read. A word is a natural number and its wrap is written out. A function that
-- changes the state takes it and returns the new one. A failed assertion and a null pointer that is
-- followed are values: `none`, or `crash` for a translation. The loops of the source have fixed
-- bounds (the levels of the page table, 16 PMP entries, 32 or 64 bits) and are recursions on the
-- number of steps left, started at that bound; none runs out early. The hooks of the machine on
-- register accesses are parameters, as are the callbacks of the devices behind the memory map, the
-- character device and the line of the UART, the extensions that the ISA string turns on, and the
-- two facts that riscv_cpu_set_mip takes from the machine's configuration. The bit counts call the
-- compiler's __builtin_ctz, whose value at zero is the parameter `ctz_of_zero`. An instruction is
-- run from its word; `delta` is the number of instructions of the call before it, which the source
-- takes from insn_counter. A way out of the switch is a `Flow`. The loop around the switch is a
-- recursion on n_cycles, which bounds it in the source; `code_ptr` is the pc, and `code_end` comes
-- from the page that a TLB hit has opened. In Cosim the loop until an instruction has run is on
-- fuel, a parameter of its theorems: a trap handler whose first instruction faults again never
-- leaves it. `uninit_insn` and `uninit_pa` are what the local variables hold after a fetch or a
-- translation that failed. A pointer into a RAM range is the range's index with an offset. In
-- Virtio an `int` is a 32-bit word and `none` is a call that does not return or leaves its buffer.
-- A chain of descriptors is in the guest's hands and may be a circle: `chain` is the number of
-- descriptors that are followed, a parameter of every theorem. `uninit` is what a local variable
-- holds before it is written. The copies to and from RAM have the number of bytes as fuel, and a
-- notification 2 ^ 16, the number of entries that can be waiting. The interrupt line of a device is
-- the level driven last; `config_write`, the handler `device_recv`, the disk, the network and the
-- character device are parameters.
--
-- Not modelled. The floating-point and vector instructions, for which the switch gives `none`, and
-- their state; the 9p file system and the wiring of VirtIO devices to their buses; PCI; HTIF; of the
-- cosimulation dromajo_cosim_override_mem, the start of a run, the log and the checks compiled
-- under GOLDMEM_INORDER; the boot ROM as a whole. insn_counter itself, the traces of accesses and
-- of instructions, and the fields that only the traces read are left out. Configuration, file
-- formats and host input and output are outside the model, and so are the vendored libraries and
-- softfp. Message output is left out of every function.
pub mod Alu
pub mod Cosim
pub mod Cpu
pub mod Devices
pub mod Examples
pub mod Interp
pub mod Iomem
pub mod Memory
pub mod Prelude
pub mod Recovery
pub mod Virtio
