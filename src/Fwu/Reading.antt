-- ===== src/Fwu/Reading.antt =====
-- The secondary slot under a reader.
use kfsw_services.Common.{◌≡◌, ◌≢◌, List, [], ◌∷◌}
use kfsw_services.Fwu.{State, Slot, Crc}
use kfsw_services.Fwu.Invariant.{Call, step}

-- What a reader relies on: the contents of the slot, the state of the transfer and the swap.
pub record SameSlot (s t : State) : Type 0 where
  pub written : t.written ≡ s.written
  pub phase : t.phase ≡ s.phase
  pub area_open : t.area_open ≡ s.area_open
  pub stream_open : t.stream_open ≡ s.stream_open
  pub swap_scheduled : t.swap_scheduled ≡ s.swap_scheduled

module _ (crc : Crc) (p : Slot) where
  -- A reader is open before every call of the sequence.
  abbrev pub StaysRead : State → List Call → Type 0
  StaysRead s [] = Unit
  StaysRead s (c ∷ cs) = (s.secondary_readers ≢ 0) × StaysRead (step crc p s c) cs
