-- ===== src/Lib.antt =====
-- NanoC: a compiler for a small BASIC-like C and the virtual machine that runs its code, for
-- embedded hosts. This library models the compiler, the virtual machine with its heap, the
-- key-value store and the scanner, and proves what they promise.
--
-- The parts, with the files of the repository they model:
--   Kvstore   src/nc_kvstore.c. A store is a record (`Store`) with the array as a list of entries;
--             `kvs_set`, `kvs_get`, `kvs_exists`, `kvs_count`, `kvs_clear`, `kvs_delete` check the
--             pointer and call `put`, `get`, `exists`, `clear`, `delete`. Search is the binary
--             search, Shift the moves of entries, Valid the invariant, Map the binding of
--             a key, FiniteMap the contract, History sequences of calls.
--   Memory    src/nc_memory.c with cfg_STRING_SUPPORT: `init`, `alloc`, `free`, `realloc`,
--             `get_blocksize` and `get_free` are the functions nc_mem_ of that name. Layout reads
--             the heap as a sequence of free blocks and allocated runs; Scan, Alloc, Free, Realloc and
--             Count relate the functions to it, and Roundtrip composes them; Runs says
--             where the runs lie, History has calls in any order; Sample is a heap for tests.
--   Scanner   src/nc_scanner.c: `nc_scanner` and its character table; Progress is its theory.
--   Compiler  src/nc_compiler.c. State has the static variables and `comp_inst_t` as one record
--             (`Comp`) and the actions on it; Symbols the symbol table with `nc_init`; Lexer the reader of
--             lines and tokens; Emit what writes and patches code; Call, Factor and Expr the expressions, one
--             function for each level of precedence; Stmt the simple statements; Block loops and
--             branches, Function functions; Dispatch the jump tables; Program the `switch` over the statements and
--             `nc_compile`. Contract has the rules for what an action does to the state, Takes the
--             contract of a line, Whole that of a program, Still what leaves the pointers alone. The
--             modules of Taken show them for each function, in the order of the modules they are about.
--             OnVm is about what the VM does with the code of a number, Interning about
--             the symbol table, Patches about the jumps of break.
--   Vm        src/nc_runtime.c, with `t_VM` and the opcodes of src/nc_int.h. State has the machine
--             and the stack macros, Opcode the opcodes, Step the `switch` of `nc_run` and its loop.
--             The cases of the `switch` are the functions `exec_` in Arith, Control, Arrays, Strings
--             and Printf; Text has what they use of the C library; Host has the functions that a
--             host calls. The theorems are in Budget (runs), Calls, Next (the opcodes of a FOR loop), Loops
--             (whole loops), Elements (arrays in the heap) and Params (the parameter stack and the temporary
--             strings).
--   Base      helpers: Boolean tests, lists, outcomes, writes to lists, machine words.
--
-- The compiler calls the scanner for each token and writes code that the VM runs. The VM calls the heap
-- (`Memory`) for arrays and strings; the host calls `nc_run` again and again, each time with a budget
-- of cycles, and reads and writes the parameter stack in between. The key-value store stands alone.
--
-- Conventions. Numbers are native naturals; an `int32_t` is its bit pattern below 2 ^ 32, with the
-- wrap-around written out. Where C leaves an access undefined the model has a `fault` (`Run`). The
-- configuration is that of src/nc_cfg.h: 128 stack cells, 8 parameters, 256 variables, 16384 bytes of
-- code, 8192 bytes of heap, at most 512 bytes in an allocation, 256 symbols. The text output of
-- `nc_print` is a list of calls. `rand()` is a parameter: the random number of each round. The lines that
-- `nc_get_code_line` of the host returns are a list. A pointer into the current line is the text from
-- there on. `error` ends an action with the outcome `raised`, and the loop of `nc_compile` goes on with
-- the next line, as `longjmp` does.
--
-- Fuel. The binary search gets `count + 1` rounds, and each round shrinks its range; the theorems on
-- it say that it returns. The loops over the heap get the rounds of their `for`, which the address
-- of each block bounds. `nc_run` counts down its own budget. The digits of a number take at most ten
-- rounds, the loop over a `printf` format one for each byte of the rest of the code. An expression
-- stands on one line and gets 128 rounds, which is more than a line has bytes; the blocks and lines of a
-- program get what `nc_compile` gets, and the bytes of the program are enough.
--
-- Not modelled: the printouts nc_dump_code and nc_output_symbol_table, nc_create and nc_destroy, which
-- only allocate and free; the code under cfg_DEBUG_SUPPORT, cfg_TRACE_SUPPORT in the VM, and
-- cfg_LINE_NUMBERS; the test programs, and the tools in Python.
pub mod Base
pub mod Kvstore
pub mod Memory
pub mod Vm
pub mod Scanner
pub mod Compiler
