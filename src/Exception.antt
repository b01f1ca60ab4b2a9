-- ===== src/Exception.antt =====
-- src/arch/aarch64/exception.rs: the report of an exception. What goes to the console is a list,
-- with one constructor for each format that is printed.
pub mod Decode
pub mod Tests
use zheos.Common.{
  ℕ, zero, suc, ◌+◌, ◌/◌, Bool, true, false, List, [], ◌∷◌, ◌++◌, ◌==◌, ◌/=◌, if◌then◌else◌,
  bit_and, ◌<<<◌, ◌>>>◌, u8,
}

pub data EsrClass : Type 0 where
  unknown : EsrClass
  data_abort_current_el : EsrClass
  instr_abort_current_el : EsrClass
  brk : EsrClass
  other_class : ℕ → EsrClass

abbrev pub has_fault_address : EsrClass → Bool
has_fault_address data_abort_current_el = true
has_fault_address instr_abort_current_el = true
has_fault_address _ = false

unfoldable pub class_from : ℕ → EsrClass
class_from val =
    if val == 0x00
    then unknown
    else (if val == 0x25
        then data_abort_current_el
        else (if val == 0x21
            then instr_abort_current_el
            else (if val == 0x3c then brk else other_class (u8 val))))

pub data FaultStatus : Type 0 where
  address_size : ℕ → FaultStatus
  translation : ℕ → FaultStatus
  access_flag : ℕ → FaultStatus
  permission : ℕ → FaultStatus
  external : FaultStatus
  alignment : FaultStatus
  tlb_conflict : FaultStatus
  other_status : ℕ → FaultStatus

-- The codes that carry no level.
unfoldable pub whole_code : ℕ → FaultStatus
whole_code code =
    if code == 0x10
    then external
    else (if code == 0x21
        then alignment
        else (if code == 0x30 then tlb_conflict else other_status (u8 code)))

unfoldable pub from_syndrome : ℕ → FaultStatus
unfolding whole_code
from_syndrome syndrome =
    let code = bit_and syndrome 0x3f in
    let level = u8 (bit_and code 3) in
    let high = code >>> 2 in
    if high == 0
    then address_size level
    else (if high == 1
        then translation level
        else (if high == 2
            then access_flag level
            else (if high == 3 then permission level else whole_code code)))

pub record Esr : Type 0 where
  pub class : EsrClass
  pub syndrome : ℕ

unfoldable pub new : ℕ → Esr
unfolding class_from
new val = record {
  class = class_from (bit_and (val >>> 26) 0x3f);
  syndrome = bit_and val 0x1ffffff;
}

pub data Report : Type 0 where
  double_fault : Report
  kind_line : (unexpected_slot : Bool) → Report
  esr_line : ℕ → Report
  class_line : EsrClass → Report
  syndrome_line : ℕ → Report
  fault_line : FaultStatus → Report
  access_line : (write : Bool) → Report
  fault_address_line : ℕ → Report
  link_line : ℕ → Report
  register_line : ℕ → ℕ → Report

-- The registers of the frame, from number `i` on.
unfoldable pub registers_from : ℕ → List ℕ → List Report
registers_from i [] = []
registers_from i (value ∷ values) = register_line i value ∷ registers_from (i + 1) values

abbrev pub access_report : Esr → List Report
access_report esr = elim esr.class [
  | data_abort_current_el ↦ access_line (bit_and esr.syndrome (1 <<< 6) /= 0) ∷ []
  | _ ↦ []
]

abbrev pub fault_report : Esr → ℕ → List Report
fault_report esr far_el1 =
    if has_fault_address esr.class
    then (fault_line (from_syndrome esr.syndrome) ∷ [])
      ++ access_report esr
      ++ (fault_address_line far_el1 ∷ [])
    else []

-- `handle_exception` up to the loop it ends in: `ALREADY_FAULTED` afterwards, and the report.
unfoldable pub handle_exception : Bool → ℕ → ℕ → ℕ → ℕ → List ℕ → Bool × List Report
unfolding new from_syndrome registers_from
handle_exception already_faulted esr_el1 far_el1 elr_el1 kind frame =
    if already_faulted then (true, double_fault ∷ []) else (
      true,
      (kind_line (kind == 1)
            ∷ esr_line esr_el1
            ∷ class_line (new esr_el1).class
            ∷ syndrome_line (new esr_el1).syndrome
            ∷ [])
          ++ fault_report (new esr_el1) far_el1
          ++ (link_line elr_el1 ∷ [])
          ++ registers_from 0 frame,
    )
