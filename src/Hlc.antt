-- ===== src/Hlc.antt =====
-- peer_service/internal/common/time.go: the hybrid logical clock of a peer.
--
-- The package's variables `hlcTime` and `hlcLogical` are the fields `time` and `logical`.
-- `time.Now().UnixMilli()` is the next value of `wall`, an arbitrary sequence of readings: nothing
-- is assumed of the order of these. Every caller passes a positive `int64`, so that times and
-- stamps are natural numbers; sums and shifts wrap at 2 ^ 64.
pub mod Order
pub mod Trace
use p2ptogether.Prelude.{ℕ, ◌+◌, ◌*◌, ◌/◌, ◌%◌, ◌^◌, ◌&&◌, ltb, ◌==◌, nat_eq, if◌then◌else◌}

pub record Clock : Type 0 where
  pub wall : ℕ → ℕ
  pub reads : ℕ
  pub time : ℕ
  pub logical : ℕ

-- 48 bits of milliseconds, then 16 bits of the counter.
unfoldable pub pack_hlc : ℕ → ℕ → ℕ
pack_hlc physical logical = (physical * 2 ^ 16 + logical % 2 ^ 16) % 2 ^ 64

unfoldable pub unpack_hlc : ℕ → ℕ × ℕ
unpack_hlc hlc = (hlc / 2 ^ 16, hlc % 2 ^ 16)

abbrev pub inc64 : ℕ → ℕ
inc64 n = (n + 1) % 2 ^ 64

-- The stamp that the clock shows.
abbrev pub stamp : Clock → ℕ
stamp c = pack_hlc c.time c.logical

tick : Clock → Clock
tick c =
    let now = c.wall c.reads in
    if ltb c.time now
    then record c { reads = c.reads + 1; time = now; logical = 0 }
    else record c { reads = c.reads + 1; logical = inc64 c.logical }

unfoldable pub get_current_hlc : Clock → ℕ × Clock
unfolding tick pack_hlc
get_current_hlc c = let c' = tick c in (stamp c', c')

max_time : ℕ → ℕ → ℕ → ℕ
max_time now remote_time old_time =
    let m = if ltb now remote_time then remote_time else now in
    if ltb m old_time then old_time else m

next_logical : ℕ → ℕ → ℕ → ℕ → ℕ → ℕ
next_logical new_time old_time remote_time remote_logical logical =
    if (new_time == old_time) && (new_time == remote_time)
    then (if ltb logical remote_logical then inc64 remote_logical else inc64 logical)
    else if new_time == old_time
    then inc64 logical
    else if new_time == remote_time
    then inc64 remote_logical
    else 0

unfoldable pub update_hlc : ℕ → Clock → ℕ × Clock
unfolding max_time next_logical pack_hlc unpack_hlc
update_hlc remote c =
    let (remote_time, remote_logical) = unpack_hlc remote in
    let new_time = max_time (c.wall c.reads) remote_time c.time in
    let c' = record c {
      reads = c.reads + 1;
      time = new_time;
      logical = next_logical new_time c.time remote_time remote_logical c.logical;
    } in
    (stamp c', c')
