-- ===== src/Exception/Tests.antt =====
-- src/arch/aarch64/exception.rs: registers of faults, and the theorems at them.
use zheos.Common.{◌≡◌, refl}
use zheos.Exception.{from_syndrome, translation}

-- A translation fault at level 3.
level_three : from_syndrome 0x47 ≡ translation 3
unfolding from_syndrome
level_three = refl
