-- ===== src/Interface.antt =====
-- `AllocatorInterface` and `ThreadPolicy` of src/AllocatorInterface.h. The virtual operations are the
-- functions of the allocators' own modules.
use memory_allocators.Base.{ℕ}

pub record AllocatorInterface : Type 0 where
  pub total_size : ℕ
  pub used : ℕ

-- AllocatorInterface(totalSize)
abbrev pub interface_of : ℕ → AllocatorInterface
interface_of total = record { total_size = total; used = 0 }

-- AllocatorInterface(const AllocatorInterface&)
abbrev pub copy_interface : AllocatorInterface → AllocatorInterface
copy_interface a = record { total_size = a.total_size; used = a.used }

-- ~AllocatorInterface()
abbrev pub destroy_interface : AllocatorInterface → AllocatorInterface
destroy_interface a = record a { total_size = 0 }

abbrev pub get_total_size : AllocatorInterface → ℕ
get_total_size a = a.total_size

abbrev pub get_used_size : AllocatorInterface → ℕ
get_used_size a = a.used

pub data ThreadPolicy : Type 0 where
  none enable_spin_lock : ThreadPolicy
