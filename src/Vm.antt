-- ===== src/Vm.antt =====
-- src/nc_runtime.c: the virtual machine.
pub mod State
pub mod Arith
pub mod Control
pub mod Arrays
pub mod Text
pub mod Strings
pub mod Printf
pub mod Opcode
pub mod Next
pub mod Step
pub mod Host
pub mod Budget
pub mod Calls
pub mod Loops
pub mod Params
pub mod Elements
mod Tests
