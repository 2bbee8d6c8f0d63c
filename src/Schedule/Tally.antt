-- ===== src/Schedule/Tally.antt =====
-- The counts in fbo_schedule.c's report.
use kfsw_services.Common.{
  ℕ, suc, ◌+◌, ◌≤◌, ◌<◌, ◌≡◌, refl, sym, true, List, [], ◌∷◌, arith, length, inl, inr, Bool-cases,
}
use kfsw_services.Common.Words.{u16}
use kfsw_services.Common.Codes.{ok}
use kfsw_services.Schedule.{EntryStatus, Slot, State, Clock}
use kfsw_services.Schedule.Report.{
  Summary, count_scheduled, count_status, count_slots, empty_summary, get_status,
}

-- The entries that a report counts by their status.
abbrev pub total : Summary → ℕ
total t = t.scheduled + t.running + t.completed + t.failed + t.overdue + t.cancelled

-- Every entry so far is counted once, and at most `n` of them.
pub record Counts (n : ℕ) (t : Summary) : Type 0 where
  pub each : total t ≡ t.entries
  pub bound : t.entries ≤ n

count_scheduled-total :
    (clock : Clock) (sl : Slot) (t : Summary)
    → total t < 65535
    → let r = count_scheduled clock sl t in (total r ≡ total t + 1) × (r.entries ≡ t.entries)
unfolding count_scheduled
count_scheduled-total clock sl t h = ground (arith, h)

count_status-total :
    (clock : Clock) (sl : Slot) (st : EntryStatus) (t : Summary)
    → total t < 65535
    → let r = count_status clock sl st t in (total r ≡ total t + 1) × (r.entries ≡ t.entries)
unfolding count_status
count_status-total clock sl st t h =
    let one = count_scheduled-total clock sl t h in ground (arith, h, one)

count_slots-Counts :
    (clock : Clock) (slots : List Slot) (n : ℕ) (t : Summary)
    → Counts n t
    → n + length slots ≤ 65535
    → Counts (n + length slots) (count_slots clock slots t)
unfolding count_slots
count_slots-Counts clock [] n t c h = record { each = c.each; bound = omega (arith, c.bound) }
count_slots-Counts clock (sl ∷ sls) n t c h = elim (Bool-cases sl.used) [
  | inr unused ↦
      let one : Counts (suc n) t = record { each = c.each; bound = omega (arith, c.bound) } in
      let all = count_slots-Counts clock sls (suc n) t one (omega (arith, h)) in
      simp unused (record { each = all.each; bound = omega (arith, all.bound) })
  | inl used ↦
      let t1 = record t { entries = u16 (t.entries + 1) } in
      let t2 = count_status clock sl sl.entry.status t1 in
      let small : total t1 < 65535 = omega (arith, c.each, c.bound, h) in
      let (grown, kept) = count_status-total clock sl sl.entry.status t1 small in
      let one : Counts (suc n) t2 = record {
        each = omega (arith, grown, kept, c.each, c.bound, h);
        bound = omega (arith, kept, c.bound);
      } in
      let all = count_slots-Counts clock sls (suc n) t2 one (omega (arith, h)) in
      simp used (record { each = all.each; bound = omega (arith, all.bound) })
]

-- The report counts every used slot once: with at most 65535 slots, the counts of the six states add
-- up to the entries, and those are at most the slots.
pub get_status-total :
    (crc_update : ℕ → List ℕ → ℕ) (clock : Clock) (s : State) (t : Summary)
    → length s.slots ≤ 65535
    → get_status crc_update true clock s ≡ ok t
    → (total t ≡ t.entries) × (t.entries ≤ length s.slots)
unfolding get_status
get_status-total crc_update clock s t h e =
    let start = empty_summary crc_update clock s in
    let made : count_slots clock s.slots start ≡ t = cc in
    let none_yet : Counts 0 start = record { each = refl; bound = omega arith } in
    let c = count_slots-Counts clock s.slots 0 start none_yet (omega (arith, h)) in
    rw (sym made) (c.each, omega (arith, c.bound))
