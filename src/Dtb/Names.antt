-- ===== src/Dtb/Names.antt =====
-- The names and values that src/platform looks for in the device tree.
use zheos.Common.{ℕ, List, [], ◌∷◌}

abbrev pub device_type : List ℕ
device_type = b'd' ∷ b'e' ∷ b'v' ∷ b'i' ∷ b'c' ∷ b'e' ∷ b'_' ∷ b't' ∷ b'y' ∷ b'p' ∷ b'e' ∷ []

abbrev pub memory_value : List ℕ
memory_value = b'm' ∷ b'e' ∷ b'm' ∷ b'o' ∷ b'r' ∷ b'y' ∷ 0 ∷ []

abbrev pub compatible_name : List ℕ
compatible_name = b'c' ∷ b'o' ∷ b'm' ∷ b'p' ∷ b'a' ∷ b't' ∷ b'i' ∷ b'b' ∷ b'l' ∷ b'e' ∷ []

abbrev pub reg_name : List ℕ
reg_name = b'r' ∷ b'e' ∷ b'g' ∷ []

abbrev pub interrupts_name : List ℕ
interrupts_name = b'i' ∷ b'n' ∷ b't' ∷ b'e' ∷ b'r' ∷ b'r' ∷ b'u' ∷ b'p' ∷ b't' ∷ b's' ∷ []

abbrev pub address_cells_name : List ℕ
address_cells_name =
    b'#' ∷ b'a' ∷ b'd' ∷ b'd' ∷ b'r' ∷ b'e' ∷ b's' ∷ b's' ∷ b'-' ∷ b'c' ∷ b'e' ∷ b'l' ∷ b'l' ∷ b's'
    ∷ []

abbrev pub size_cells_name : List ℕ
size_cells_name = b'#' ∷ b's' ∷ b'i' ∷ b'z' ∷ b'e' ∷ b'-' ∷ b'c' ∷ b'e' ∷ b'l' ∷ b'l' ∷ b's' ∷ []

abbrev pub uart_name : List ℕ
uart_name = b'a' ∷ b'r' ∷ b'm' ∷ b',' ∷ b'p' ∷ b'l' ∷ b'0' ∷ b'1' ∷ b'1' ∷ []

abbrev pub gic_name : List ℕ
gic_name =
    b'a' ∷ b'r' ∷ b'm' ∷ b',' ∷ b'c' ∷ b'o' ∷ b'r' ∷ b't' ∷ b'e' ∷ b'x' ∷ b'-' ∷ b'a' ∷ b'1' ∷ b'5'
    ∷ b'-' ∷ b'g' ∷ b'i' ∷ b'c' ∷ []

abbrev pub timer_name : List ℕ
timer_name =
    b'a' ∷ b'r' ∷ b'm' ∷ b',' ∷ b'a' ∷ b'r' ∷ b'm' ∷ b'v' ∷ b'8' ∷ b'-' ∷ b't' ∷ b'i' ∷ b'm' ∷ b'e'
    ∷ b'r' ∷ []

abbrev pub psci_name : List ℕ
psci_name = b'a' ∷ b'r' ∷ b'm' ∷ b',' ∷ b'p' ∷ b's' ∷ b'c' ∷ b'i' ∷ b'-' ∷ b'0' ∷ b'.' ∷ b'2' ∷ []

abbrev pub method_name : List ℕ
method_name = b'm' ∷ b'e' ∷ b't' ∷ b'h' ∷ b'o' ∷ b'd' ∷ []

abbrev pub hvc_value : List ℕ
hvc_value = b'h' ∷ b'v' ∷ b'c' ∷ 0 ∷ []

abbrev pub smc_value : List ℕ
smc_value = b's' ∷ b'm' ∷ b'c' ∷ 0 ∷ []
