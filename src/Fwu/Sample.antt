-- ===== src/Fwu/Sample.antt =====
-- Concrete data for the tests of the firmware update: a checksum with the laws that the model relies
-- on (a sum of bytes), a slot, layers that work, and the state at boot.
use kfsw_services.Common.{ℕ, ◌+◌, ◌≡◌, refl, false, List, [], ◌∷◌, ◌++◌}
use kfsw_services.Fwu.{State, Slot, Answers, Crc, idle, no_swap, test_swap}

abbrev pub sum_from : ℕ → List ℕ → ℕ
sum_from c [] = c
sum_from c (x ∷ xs) = sum_from (c + x) xs

pub sum_from-append : (c : ℕ) (a b : List ℕ) → sum_from c (a ++ b) ≡ sum_from (sum_from c a) b
sum_from-append c [] b = refl
sum_from-append c (x ∷ a) b = sum_from-append (c + x) a b

abbrev pub sum_crc : Crc
sum_crc = record { update = sum_from; update-append = sum_from-append; update-nil = λ c. refl }

abbrev pub slot : Slot
slot = record { partition_size = 4096; offset_sectors = 1; sector_size = 512 }

abbrev pub works : Answers
works = record {
  erase_open = 0;
  erase_flatten = 0;
  open_area = 0;
  init = 0;
  write = 0;
  flush = 0;
  request_upgrade = 0;
  swap_before = no_swap;
  swap_after = test_swap;
}

abbrev pub fresh : State
fresh = record {
  phase = idle;
  total_size = 0;
  received = 0;
  expected_crc32 = 0;
  actual_crc32 = 0;
  started = 0;
  completed = 0;
  failures = 0;
  swap_scheduled = false;
  secondary_readers = 0;
  area_open = false;
  stream_open = false;
  written = [];
}
