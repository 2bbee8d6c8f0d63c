-- ===== src/Limits/Disabled.antt =====
-- What a sweep of limits.c does while the service is disabled.
use kfsw_services.Common.{
  ℕ, zero, suc, ◌≤◌, ◌<◌, ◌≡◌, refl, sym, ◌∙◌, false, List, [], ◌∷◌, All, arith, length, leb, some,
  map, get_elem?,
}
use kfsw_services.Common.Codes.{err, eacces}
use kfsw_services.Limits.{Floats, Rule, Status, Surroundings, sweep, without_streak}
use kfsw_services.Limits.Firing.{Crosses, run, run-Crosses, unlatched}

streak-without_streak :
    (rules : List Rule) (i : ℕ) (rule : Rule)
    → get_elem? (map without_streak rules) i ≡ some rule
    → rule.streak ≡ 0
streak-without_streak [] i rule h = ground arith
streak-without_streak (r ∷ rules) zero rule h = ground arith
streak-without_streak (r ∷ rules) (suc i) rule h = streak-without_streak rules i rule h

-- A sweep while the service is disabled breaks every run: it answers -EACCES and changes no counter,
-- and whatever streak a rule had, with a dwell of 1 to 255 and unlatched it does not fire before its
-- dwell is reached again, over readings that all cross, while the scheduler takes the action.
pub disabled_sweep_restarts :
    (floats : Floats) (env : Rule → Surroundings) (st : Status) (rules : List Rule) (i : ℕ)
    (rule : Rule) (envs : List Surroundings)
    → get_elem? (sweep floats false env st rules).0 i ≡ some rule
    → rule.latched ≡ false
    → 0 < rule.dwell
    → rule.dwell ≤ 255
    → All (Crosses floats rule) envs
    → length envs < rule.dwell
    → ((sweep floats false env st rules).1 ≡ st)
      × ((sweep floats false env st rules).2 ≡ err eacces)
      × ((run floats envs st rule).releases ≡ 0)
unfolding sweep
disabled_sweep_restarts floats env st rules i rule envs here unlatched_now low high cs short =
    let none_yet = streak-without_streak rules i rule here in
    let below : leb rule.dwell rule.streak ≡ false = ground (arith, none_yet, low) in
    let (streak, latched, count) =
      run-Crosses floats envs st rule cs (omega (arith, none_yet)) low high
        (unlatched_now ∙ sym below) in
    let after = (run floats envs st rule).rule in
    let reached : leb rule.dwell after.streak ≡ false = ground (arith, streak, none_yet, short) in
    let still : unlatched floats after ≡ 1 = rw (latched, reached) refl in
    let was : unlatched floats rule ≡ 1 = rw unlatched_now refl in
    (refl, refl, omega (arith, count, still, was))
