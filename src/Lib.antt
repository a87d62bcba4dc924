-- ===== src/Lib.antt =====
-- A model of the NachOS kernel under nachos64/code, in its second course project: user programs run on a
-- simulated machine with four frames of memory, and the kernel pages them in from their executable and
-- from a swap area.
--
-- Parts, from the bottom up:
--   Base      the shared names, integers, the outcomes of a C++ call, and the bits of a word.
--   BitMap    userprog/bitmap.cc. The map keeps its words of 32 bits; a mark is an `or` with a power of
--             two. `BitMap.Abstract` reads the words as a set of numbers, `BitMap.Bits` and
--             `BitMap.Search` are about Mark, Clear, Test, Find, NumClear and the constructor.
--   Tables    userprog/nachostabla.cc (`Tables.OpenFiles`) and userprog/NachosSems.cc (`Tables.Sems`):
--             an array with a bit map of its used slots, seen as a partial map.
--   Vm        userprog/addrspace.cc. `Vm.State` has the page tables, the TLB, the inverted page table and
--             the globals of threads/system.cc; `Vm.Tlb` the replacement of TLB entries (getNextSCTLB,
--             useThisTLBIndex, saveVictimTLBInfo), `Vm.Swap` the swap area and the victim frame
--             (writeIntoSwap, readFromSwap, getNextSCSWAP, updateSwapVictimInfo), `Vm.Load` the page-fault
--             handler `load`. `Vm.Swap.RoundTrip` follows the bytes of a page. `Vm.Inv` states the
--             invariant that ties the bit map of frames, the inverted table, the page tables of every
--             address space, the TLB and the map of swap slots together; its children follow one step of
--             `load` each. `Vm.Space` has the two constructors of an address space, `Vm.Switch` SaveState
--             and RestoreState, `Vm.Boot` what Initialize (threads/system.cc) and the constructor of
--             Machine (machine/machine.cc) set.
--   Machine   machine/translate.cc in the configuration with a TLB: Translate, ReadMem, WriteMem, and
--             SafeReadMem and SafeWriteMem, which repeat an access until it does not fault; and the page
--             fault case of ExceptionHandler in userprog/exception.cc, which calls `load`. `Machine.Start`
--             puts start-up, a new address space and its accesses together.
--   Cpu       machine/mipssim.cc, machine/mipssim.h and RaiseException of machine/machine.cc. `Cpu.Word` has
--             the operators on an int of 32 bits, kept as its word; `Cpu.Registers` the special registers
--             and DelayedLoad; `Cpu.Decode` the tables and Decode; `Cpu.Mult` the multiplication;
--             `Cpu.Alu`, `Cpu.Branch` and `Cpu.Memory` the cases of the switch of OneInstruction, one
--             definition for a case, and `Cpu.Step` the switch and OneInstruction. `Cpu.Exact` and the
--             children Laws and Quotient compare the cases with exact numbers; `Cpu.Step.Sound` and
--             `Cpu.Step.Execute` are about what every case keeps, and `Cpu.Step.Fetch` puts the processor
--             and demand paging together. The handler takes a faulting address from ReadMem and not from
--             BadVAddrReg, which holds the same while the pending load is for a general register.
--             `Cpu.Context` has the registers of a user program across the kernel: SaveUserState and
--             RestoreUserState (threads/thread.cc), InitRegisters (userprog/addrspace.cc),
--             returnFromSystemCall (userprog/exception.cc), ReadRegister and WriteRegister.
--   Threads   threads/list.h: `Threads.LinkedList` has the list with its pointers, on a heap of elements;
--             `Cells` says which elements make up a list, `Insert`, `Refine` and `Take` are about the
--             operations, `Order` about lists in the order of their keys, `Run` about any calls, and
--             `Walk` about the loops over a whole list. `Threads.Kernel` has the objects of thread.h,
--             synch.h and scheduler.h, `Threads.Scheduler` the operations of scheduler.cc and thread.cc,
--             `Threads.Synch` those of synch.cc. A call that may wait leaves what remains of it in its
--             thread, which goes on with it when it has the processor again. `Threads.System` has the
--             steps of the kernel, `Threads.Inv` the invariant, with one child for the lists when one
--             thread changes (`Put`, `Place`), one for each group of operations, and `Steps` for all;
--             `Threads.Safety` is about the states that are reached, `Threads.Leak` about the deletion of
--             threads. The operations run with interrupts off, so each is one step, and a handler that
--             runs when they are on again is another.
--   FileSys   filesys/directory.cc (`FileSys.Directory`), filesys/filehdr.cc (`FileSys.FileHeader`) and
--             filesys/openfile.cc (`FileSys.OpenFile`), the last on a disk that is an array of sectors:
--             a request to filesys/synchdisk.cc is one step, with the assertion of machine/disk.cc.
--             `Directory.Names` is about the comparison of names, `Directory.Table` and `Directory.Laws`
--             about the table as a map; `FileHeader.Space` about the space of a file, `OpenFile.Loops`,
--             `Laws`, `Ends` and `Write` about the bytes of a file, `OpenFile.Fresh` about a file that
--             has just been allocated.
--   Interrupts
--             machine/interrupt.cc and the ticks of machine/stats.h: Schedule, CheckIfDue, OneTick,
--             SetLevel and Idle. The list of pending interrupts is the sequence that `Threads.LinkedList` is shown to
--             hold; the procedures of interrupts and `Thread::Yield` are parameters. `Interrupts.Due` is
--             about the interrupts that OneTick finds due.
--
-- Conventions. A call returns an `Outcome`: a value, `abort` for a failed ASSERT, `fault` for an
-- access that C++ leaves undefined, `timeout` where a loop of the model has run out of fuel. `for`
-- loops are recursion on the rounds left. The two second-chance loops have one round for each of the
-- four entries and one more, since a round clears a use bit; SafeReadMem needs two rounds, a loop over
-- a list one for each element, and the loop of OneTick one more than there are pending interrupts. A
-- pointer into a page table is the number of its address space and the page. Fixed C++ arrays are
-- functions where each index is tested against the bound first. DEBUG output and the state printed
-- before a failed assertion are left out. The UNIX files of the stub file system are parameters
-- (`Vm.Host`), and so are the bytes of an executable's header that a short read leaves unset.
--
-- Not modelled: locks and conditions are defined, but are not steps of `Threads.System`; the user
-- registers and the address space that Run saves and restores; the timer; the system calls but for
-- their return; the file system as a whole (filesys/filesys.cc) and what it keeps on disk; the loop Run of
-- the simulated processor and its printing; devices; and the rest of start-up. The simulated kernel
-- runs `load` to its end before another thread runs, so that it is one step here.

pub mod Base
pub mod BitMap
pub mod Tables
pub mod Vm
pub mod Machine
pub mod Cpu
pub mod Threads
pub mod FileSys
pub mod Interrupts
