-- ===== src/Compiler/Emit.antt =====
-- The parts of src/nc_compiler.c that write code: numbers, forward declarations and jumps that are
-- patched later, and what stands behind the program.
use nanoc.Base.{
  ℕ, zero, suc, ◌+◌, ◌*◌, ◌/◌, ◌%◌, List, [], ◌∷◌, ◌++◌, ltb, leb, ◌==◌, if◌then◌else◌, length,
  take, drop,
}
use nanoc.Base.Word.{u8}
use nanoc.Vm.Opcode.{Opcode}
use nanoc.Compiler.State.{
  Forward, M, ◌>>=◌, ◌>>◌, gets, modify, raise, symbol, skip, when, emit, emit_op, patch16,
  too_many_forward_declarations, label_not_found, declaration_not_resolved, code_size_exceeded,
}
use nanoc.Compiler.Tokens.{tok_label}

-- cfg_MAX_CODE_SIZE, cfg_MAX_FW_DECL
abbrev pub max_code_size : ℕ
max_code_size = 16384

abbrev pub max_fw_decl : ℕ
max_fw_decl = 32

-- A number as an operand of four bytes.
unfoldable pub emit32 : ℕ → M (Unit {0})
emit32 v = do emit v; emit (v / 256); emit (v / 65536); emit (v / 16777216)

-- The shorter push instruction for a number below 256.
unfoldable pub push_number : ℕ → M (Unit {0})
push_number v =
    if ltb v 256
    then (do emit_op Opcode.push_num2; emit v)
    else (do emit_op Opcode.push_num5; emit32 v)

unfoldable pub add_default_params : ℕ → M (Unit {0})
add_default_params zero = skip
add_default_params (suc n) = do
  emit_op Opcode.push_num2
  emit 0
  emit_op Opcode.push_param
  add_default_params n

unfoldable pub forward_declaration : ℕ → ℕ → M (Unit {0})
forward_declaration idx pos = do
  room ← gets λ c. ltb (length c.forward_decl) max_fw_decl
  if room
      then (modify λ c. record c {
        forward_decl = c.forward_decl ++ (record { idx = u8 idx; pos = pos } ∷ []);
      })
      else raise too_many_forward_declarations

unfoldable pub resolve_one : Forward → M (Unit {0})
resolve_one f = do
  s ← symbol f.idx
  if s.type == tok_label
      then (if ltb 0 (s.value % 65536)
          then patch16 f.pos (s.value % 65536)
          else raise label_not_found)
      else raise declaration_not_resolved

unfoldable pub resolve_all : List Forward → M (Unit {0})
resolve_all [] = modify λ c. record c { forward_decl = [] }
resolve_all (f ∷ rest) = do resolve_one f; resolve_all rest

unfoldable pub resolve_forward_declarations : M (Unit {0})
resolve_forward_declarations = do decls ← gets (λ c. c.forward_decl); resolve_all decls

unfoldable pub append_constants : List ℕ → M (Unit {0})
append_constants [] = skip
append_constants (v ∷ rest) = do emit32 v; append_constants rest

-- The end tag and the constants of the data section.
unfoldable pub append_data_to_code : M (Unit {0})
append_data_to_code = do
  emit 255
  full ← gets λ c. leb max_code_size (c.pc + length c.constants * 4)
  when full (raise code_size_exceeded)
  constants ← gets λ c. c.constants
  append_constants constants

unfoldable pub patch_all : ℕ → List ℕ → M (Unit {0})
patch_all target [] = skip
patch_all target (p ∷ rest) = do patch16 p target; patch_all target rest

-- The breaks of the loop that ends here jump to this position.
unfoldable pub patch_breaks : ℕ → M (Unit {0})
patch_breaks first_break = do
  pc ← gets λ c. c.pc
  pending ← gets λ c. drop first_break c.breaks
  patch_all pc pending
  modify λ c. record c { breaks = take first_break c.breaks }

unfoldable pub compile_end : M (Unit {0})
compile_end = emit_op Opcode.op_end

-- `ACS16(p_code[pos]) = pc`
abbrev pub patch_here : ℕ → M (Unit {0})
patch_here pos = do pc ← gets (λ c. c.pc); patch16 pos pc
