-- ===== src/Hlc/Order.antt =====
-- Packed stamps and the order of successive stamps (internal/common/time.go).
use p2ptogether.Prelude.{ℕ, ◌^◌, ◌≤◌, ◌<◌, ◌≡◌, arith}
use p2ptogether.Hlc.{Clock, pack_hlc, unpack_hlc, stamp, get_current_hlc, update_hlc}

-- The counters stand within their fields of the packed stamp.
pub record Fits (c : Clock) : Type 0 where
  pub time_fits : c.time < 2 ^ 47
  pub logical_fits : c.logical < 2 ^ 16

-- Packing and unpacking restores the time and the counter when both fit their fields.
pub unpack-pack :
    (physical logical : ℕ)
    → physical < 2 ^ 47
    → logical < 2 ^ 16
    → unpack_hlc (pack_hlc physical logical) ≡ (physical, logical)
unfolding pack_hlc unpack_hlc
unpack-pack physical logical h k = ground arith

-- A local event's stamp is later than the clock's last one, if the counters fit before and after;
-- whatever the wall clock reads, also when it goes back.
pub lt-get_current_hlc :
    (c : Clock) → Fits c → Fits (get_current_hlc c).1 → stamp c < (get_current_hlc c).0
unfolding get_current_hlc
lt-get_current_hlc c f f' = ground arith

-- On receipt the new stamp is later than the clock's last one and than the remote stamp, if the
-- counters fit before and after.
pub lt-update_hlc :
    (remote : ℕ) (c : Clock)
    → remote < 2 ^ 63
    → Fits c
    → Fits (update_hlc remote c).1
    → (stamp c < (update_hlc remote c).0) × (remote < (update_hlc remote c).0)
unfolding update_hlc
lt-update_hlc remote c h f f' = ground arith

-- When the counter has reached 65535 and the wall clock has not passed the clock's time, the next
-- local stamp is earlier than the last one.
pub get_current_hlc-overflow :
    (c : Clock)
    → c.time < 2 ^ 47
    → c.logical ≡ 65535
    → c.wall c.reads ≤ c.time
    → (get_current_hlc c).0 < stamp c
unfolding get_current_hlc
get_current_hlc-overflow c h e w = ground arith
