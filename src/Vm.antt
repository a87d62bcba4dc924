-- ===== src/Vm.antt =====
-- Demand paging with a software TLB: userprog/addrspace.cc, machine/translate.cc and the globals of
-- threads/system.cc, as vm/Makefile builds them (-DVM -DUSE_TLB -DFILESYS_STUB).
pub mod State
pub mod Host
pub mod Tlb
pub mod Swap
pub mod Load
pub mod Switch
pub mod Space
pub mod Boot
pub mod Inv
pub mod Tests
