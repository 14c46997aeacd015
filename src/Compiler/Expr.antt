-- ===== src/Compiler/Expr.antt =====
-- The expression compiler of src/nc_compiler.c: one function for each level of precedence. A level
-- takes the compiler of a whole expression as an argument, and fuel for its loop: each round takes
-- a token off the line.
use nanoc.Base.{ℕ, zero, suc, Bool, not, ◌&&◌, ◌||◌, ◌==◌, if◌then◌else◌}
use nanoc.Vm.Opcode.{Opcode}
use nanoc.Compiler.State.{
  M, ◌>>=◌, ◌>>◌, pure, exhausted, raise, emit_op, type_mismatch, array_or_string_expected, when,
}
use nanoc.Compiler.Tokens.{
  tok_and, tok_or, tok_not, tok_mod, tok_eq, tok_nq, tok_le, tok_lq, tok_gr, tok_gq, tok_shl,
  tok_shr, e_num, e_str, e_any, e_ref, e_ref_str,
}
use nanoc.Compiler.Lexer.{lookahead, match}
use nanoc.Compiler.Factor.{compile_factor}

-- The loop of a level: as long as an operator of the level is ahead, the operator, an operand, and
-- what `finish` makes of both types and the operator.
unfoldable pub binary_loop : (ℕ → Bool) → M ℕ → (ℕ → ℕ → ℕ → M ℕ) → ℕ → ℕ → M ℕ
binary_loop is_op operand finish zero type = exhausted
binary_loop is_op operand finish (suc fuel) type =
    let more = λ (op : ℕ). (do
      match op
      type₂ ← operand
      type' ← finish op type type₂
      binary_loop is_op operand finish fuel type') in
    do op ← lookahead; if is_op op then more op else pure type

unfoldable pub level : (ℕ → Bool) → (ℕ → ℕ → ℕ → M ℕ) → ℕ → M ℕ → M ℕ
level is_op finish fuel operand = do type ← operand; binary_loop is_op operand finish fuel type

-- Both operands are numbers, and so is the result.
unfoldable pub on_numbers : Opcode → ℕ → ℕ → M ℕ
on_numbers o type type₂ = do
  when (not (type == e_num) || not (type₂ == e_num)) (raise type_mismatch)
  emit_op o
  pure type

abbrev pub is_mul_op : ℕ → Bool
is_mul_op op = op == b'*' || op == b'/' || op == tok_mod || op == b'%'

abbrev pub mul_opcode : ℕ → Opcode
mul_opcode op =
    if op == b'*'
    then Opcode.mul
    else if op == tok_mod || op == b'%'
    then Opcode.op_mod
    else Opcode.div

abbrev pub is_add_op : ℕ → Bool
is_add_op op = op == b'+' || op == b'-'

unfoldable pub finish_add : ℕ → ℕ → ℕ → M ℕ
finish_add op type type₂ = do
  when (not (type == type₂)) (raise type_mismatch)
  if op == b'+'
      then emit_op (if type == e_num then Opcode.add else Opcode.add_str)
      else (if type == e_num then emit_op Opcode.sub else raise type_mismatch)
  pure type

abbrev pub is_shift_op : ℕ → Bool
is_shift_op op = op == tok_shl || op == tok_shr

abbrev pub is_comp_op : ℕ → Bool
is_comp_op op =
    op == tok_eq || op == tok_nq || op == tok_le || op == tok_lq || op == tok_gr || op == tok_gq

abbrev pub comp_opcode : ℕ → Opcode
comp_opcode op =
    if op == tok_eq
    then Opcode.equal
    else if op == tok_nq
    then Opcode.not_equal
    else if op == tok_le
    then Opcode.less
    else if op == tok_lq
    then Opcode.less_equ
    else if op == tok_gr
    then Opcode.greater
    else Opcode.greater_equ

abbrev pub str_comp_opcode : ℕ → Opcode
str_comp_opcode op =
    if op == tok_eq
    then Opcode.str_equal
    else if op == tok_nq
    then Opcode.str_not_equ
    else if op == tok_le
    then Opcode.str_less
    else if op == tok_lq
    then Opcode.str_less_equ
    else if op == tok_gr
    then Opcode.str_greater
    else Opcode.str_greater_equ

-- A comparison yields a number, also of strings.
unfoldable pub finish_comp : ℕ → ℕ → ℕ → M ℕ
finish_comp op type type₂ = do
  when (not (type == type₂)) (raise type_mismatch)
  emit_op (if type == e_str then str_comp_opcode op else comp_opcode op)
  pure e_num

-- The type that the context wants.
unfoldable pub check_type : ℕ → ℕ → M (Unit {0})
check_type wanted type =
    if wanted == e_ref_str
    then when (not (type == e_ref) && not (type == e_str)) (raise array_or_string_expected)
    else when (not (wanted == e_any) && not (type == wanted)) (raise type_mismatch)

module _ (expr : ℕ → M ℕ) (fuel : ℕ) where
  unfoldable pub compile_neg_factor : M ℕ
  compile_neg_factor = do
    tok ← lookahead
    if tok == b'-'
        then (do match b'-'; type ← compile_factor expr fuel; emit_op Opcode.neg; pure type)
        else compile_factor expr fuel

  unfoldable pub compile_term : M ℕ
  compile_term = level is_mul_op (λ op. on_numbers (mul_opcode op)) fuel compile_neg_factor

  unfoldable pub compile_add_expr : M ℕ
  compile_add_expr = level is_add_op finish_add fuel compile_term

  unfoldable pub compile_shift_expr : M ℕ
  compile_shift_expr =
      level is_shift_op (λ op. on_numbers (if op == tok_shl then Opcode.shl else Opcode.shr)) fuel
        compile_add_expr

  unfoldable pub compile_bin_and_expr : M ℕ
  compile_bin_and_expr =
      level (λ op. op == b'&') (λ op. on_numbers Opcode.band) fuel compile_shift_expr

  unfoldable pub compile_bin_xor_expr : M ℕ
  compile_bin_xor_expr =
      level (λ op. op == b'^') (λ op. on_numbers Opcode.bxor) fuel compile_bin_and_expr

  unfoldable pub compile_bin_or_expr : M ℕ
  compile_bin_or_expr =
      level (λ op. op == b'|') (λ op. on_numbers Opcode.bor) fuel compile_bin_xor_expr

  unfoldable pub compile_comp_expr : M ℕ
  compile_comp_expr = level is_comp_op finish_comp fuel compile_bin_or_expr

  unfoldable pub compile_not_expr : M ℕ
  compile_not_expr = do
    op ← lookahead
    if op == tok_not
        then (do
          match tok_not
          type ← compile_comp_expr
          when (not (type == e_num)) (raise type_mismatch)
          emit_op Opcode.op_not
          pure type)
        else compile_comp_expr

  unfoldable pub compile_and_expr : M ℕ
  compile_and_expr =
      level (λ op. op == tok_and) (λ op. on_numbers Opcode.op_and) fuel compile_not_expr

  unfoldable pub compile_or_expr : M ℕ
  compile_or_expr = level (λ op. op == tok_or) (λ op. on_numbers Opcode.op_or) fuel compile_and_expr

-- `compile_expression`: an expression inside another one runs on less fuel.
unfoldable pub compile_expression : ℕ → ℕ → M ℕ
compile_expression zero wanted = exhausted
compile_expression (suc fuel) wanted = do
  type ← compile_or_expr (compile_expression fuel) (suc fuel)
  check_type wanted type
  pure type
