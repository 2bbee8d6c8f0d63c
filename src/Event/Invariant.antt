-- ===== src/Event/Invariant.antt =====
-- The invariant of the static variables of event.c, and that no index leaves the array.
use kfsw_services.Common.{ℕ, ◌≤◌, ◌<◌, ◌≡◌, arith, length-set, length-replicate}
use kfsw_services.Event.{
  State, Emission, zero_record, depth, write_index, filled_slot, store, emit, clear, boot,
}

-- `uint16_t` indices reach every slot: the Kconfig range of the depth is 8 to 256.
pub record IsValid (s : State) : Type 0 where
  pub some_depth : 0 < depth s
  pub small : depth s < 0x1_0000
  pub held_in : s.held_count ≤ depth s
  pub oldest_in : s.oldest_index < depth s

pub boot-IsValid : (n : ℕ) → 0 < n → n < 0x1_0000 → IsValid (boot n)
unfolding boot
boot-IsValid n p q = omega (arith, length-replicate n zero_record)

pub store-IsValid : {s : State} (e : Emission) (now : ℕ) → IsValid s → IsValid (store s e now)
unfolding store
store-IsValid {s} e now v =
    ground (arith, length-set s.ring (write_index s) (filled_slot s.next_sequence e now))

-- Every emission, accepted or refused, keeps the ring's indices inside the array.
pub emit-IsValid : {s : State} (e : Emission) (now : ℕ) → IsValid s → IsValid (emit s e now).0
unfolding emit
emit-IsValid {s} e now v =
    ground (arith, length-set s.ring (write_index s) (filled_slot s.next_sequence e now))

pub depth-store : (s : State) (e : Emission) (now : ℕ) → depth (store s e now) ≡ depth s
unfolding store
depth-store s e now =
    ground (arith, length-set s.ring (write_index s) (filled_slot s.next_sequence e now))

pub clear-IsValid : {s : State} → IsValid s → IsValid (clear s)
unfolding clear
clear-IsValid v = omega arith
