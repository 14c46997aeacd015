-- ===== src/Compiler/Tokens.antt =====
-- The token types of src/nc_int.h that src/nc_compiler.c uses, and its expression types. A token of one
-- character is that character.
use nanoc.Base.{ℕ}

abbrev pub tok_nc_int32 : ℕ
tok_nc_int32 = 128

abbrev pub tok_for : ℕ
tok_for = 130

abbrev pub tok_to : ℕ
tok_to = 131

abbrev pub tok_step : ℕ
tok_step = 132

abbrev pub tok_next : ℕ
tok_next = 133

abbrev pub tok_if : ℕ
tok_if = 134

abbrev pub tok_goto : ℕ
tok_goto = 137

abbrev pub tok_end : ℕ
tok_end = 140

abbrev pub tok_and : ℕ
tok_and = 142

abbrev pub tok_or : ℕ
tok_or = 143

abbrev pub tok_not : ℕ
tok_not = 144

abbrev pub tok_mod : ℕ
tok_mod = 145

abbrev pub tok_num : ℕ
tok_num = 146

abbrev pub tok_str : ℕ
tok_str = 147

abbrev pub tok_id : ℕ
tok_id = 148

abbrev pub tok_strid : ℕ
tok_strid = 149

abbrev pub tok_eq : ℕ
tok_eq = 150

abbrev pub tok_nq : ℕ
tok_nq = 151

abbrev pub tok_le : ℕ
tok_le = 152

abbrev pub tok_lq : ℕ
tok_lq = 153

abbrev pub tok_gr : ℕ
tok_gr = 154

abbrev pub tok_gq : ℕ
tok_gq = 155

abbrev pub tok_xfunc : ℕ
tok_xfunc = 156

abbrev pub tok_arr : ℕ
tok_arr = 157

abbrev pub tok_break : ℕ
tok_break = 158

abbrev pub tok_label : ℕ
tok_label = 159

abbrev pub tok_lefts : ℕ
tok_lefts = 166

abbrev pub tok_rights : ℕ
tok_rights = 167

abbrev pub tok_mids : ℕ
tok_mids = 168

abbrev pub tok_len : ℕ
tok_len = 169

abbrev pub tok_val : ℕ
tok_val = 170

abbrev pub tok_strs : ℕ
tok_strs = 171

abbrev pub tok_param : ℕ
tok_param = 173

abbrev pub tok_copy : ℕ
tok_copy = 174

abbrev pub tok_nc_const : ℕ
tok_nc_const = 175

abbrev pub tok_else : ℕ
tok_else = 177

abbrev pub tok_hexs : ℕ
tok_hexs = 178

abbrev pub tok_nil : ℕ
tok_nil = 179

abbrev pub tok_instr : ℕ
tok_instr = 180

abbrev pub tok_free : ℕ
tok_free = 184

abbrev pub tok_rnd : ℕ
tok_rnd = 185

abbrev pub tok_params : ℕ
tok_params = 186

abbrev pub tok_strings : ℕ
tok_strings = 187

abbrev pub tok_while : ℕ
tok_while = 188

abbrev pub tok_ref : ℕ
tok_ref = 194

abbrev pub tok_reti : ℕ
tok_reti = 195

abbrev pub tok_semicolon : ℕ
tok_semicolon = 197

abbrev pub tok_lbrace : ℕ
tok_lbrace = 198

abbrev pub tok_rbrace : ℕ
tok_rbrace = 199

abbrev pub tok_printf : ℕ
tok_printf = 200

abbrev pub tok_str8 : ℕ
tok_str8 = 201

abbrev pub tok_lbracket : ℕ
tok_lbracket = 202

abbrev pub tok_rbracket : ℕ
tok_rbracket = 203

abbrev pub tok_u8 : ℕ
tok_u8 = 206

abbrev pub tok_u16 : ℕ
tok_u16 = 207

abbrev pub tok_u32 : ℕ
tok_u32 = 208

abbrev pub tok_inc : ℕ
tok_inc = 209

abbrev pub tok_dec : ℕ
tok_dec = 210

abbrev pub tok_local : ℕ
tok_local = 211

abbrev pub tok_func : ℕ
tok_func = 212

abbrev pub tok_ret : ℕ
tok_ret = 213

abbrev pub tok_dispatch : ℕ
tok_dispatch = 214

abbrev pub tok_shl : ℕ
tok_shl = 215

abbrev pub tok_shr : ℕ
tok_shr = 216

abbrev pub tok_abs : ℕ
tok_abs = 217

abbrev pub tok_breakpoint : ℕ
tok_breakpoint = 218

abbrev pub tok_str2arr : ℕ
tok_str2arr = 219

abbrev pub tok_arr2strs : ℕ
tok_arr2strs = 220

-- `e_CNST` follows `e_ANY` in its enumeration, so it is 5, as `e_REF` is.
abbrev pub tok_cnst : ℕ
tok_cnst = 5

abbrev pub e_none : ℕ
e_none = 0

abbrev pub e_num : ℕ
e_num = 1

abbrev pub e_str : ℕ
e_str = 2

abbrev pub e_any : ℕ
e_any = 4

abbrev pub e_ref : ℕ
e_ref = 5

abbrev pub e_ref_str : ℕ
e_ref_str = 6
