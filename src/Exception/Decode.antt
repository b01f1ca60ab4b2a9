-- ===== src/Exception/Decode.antt =====
-- src/arch/aarch64/exception.rs: the decoded fault and class say all of the bits they come from.
use zheos.Common.{ℕ, ◌+◌, ◌/◌, ◌%◌, ◌^◌, ◌<◌, ◌≡◌, Bool, true, ltb, ◌&&◌, ◌/=◌, arith, ◌>>>◌}
use zheos.Common.Bits.{bit_and-mask}
use zheos.Exception.{
  EsrClass, unknown, data_abort_current_el, instr_abort_current_el, brk, other_class, class_from,
}
use zheos.Exception.{
  FaultStatus, address_size, translation, access_flag, permission, external, alignment,
  tlb_conflict, other_status, whole_code, new,
}

-- The status codes of the architecture: a level in the two low bits, or a whole code.
abbrev pub fault_code : FaultStatus → ℕ
fault_code (address_size level) = level
fault_code (translation level) = 4 + level
fault_code (access_flag level) = 8 + level
fault_code (permission level) = 12 + level
fault_code external = 16
fault_code alignment = 33
fault_code tlb_conflict = 48
fault_code (other_status code) = code

abbrev pub class_code : EsrClass → ℕ
class_code unknown = 0
class_code data_abort_current_el = 37
class_code instr_abort_current_el = 33
class_code brk = 60
class_code (other_class code) = code

fault_code-whole : (code : ℕ) → code < 64 → fault_code (whole_code code) ≡ code
unfolding whole_code
fault_code-whole code h = ground arith

-- The fault is named by the most exact name of its code: a level is one of four, and a code that has
-- a name of its own is not reported as another one.
abbrev pub is_exact : FaultStatus → Bool
is_exact (address_size level) = ltb level 4
is_exact (translation level) = ltb level 4
is_exact (access_flag level) = ltb level 4
is_exact (permission level) = ltb level 4
is_exact (other_status code) = ltb 16 code && code /= 33 && code /= 48
is_exact _ = true

-- The class that the handler reports has the code in bits 31 to 26 of the register.
pub class_code-new : (v : ℕ) → class_code (new v).class ≡ v / 2 ^ 26 % 64
unfolding new class_from
class_code-new v = ground (arith, bit_and-mask 6 (v >>> 26))
