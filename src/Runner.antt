-- ===== src/Runner.antt =====
-- peer_service/internal/media/encode_runner.go: the encoder runner, which several goroutines of
-- `Start` share.
--
-- A step of a goroutine is what it does between two points where another one can come in between:
-- the sections under the mutex, and the run of ffmpeg. A command is known by its number. What the
-- outside decides comes with the event: whether the context is cancelled, whether the command was
-- compiled, how ffmpeg ended, and the monitor that was made. The commands that were killed are listed.
pub mod Live
pub mod Cancellation
use p2ptogether.Prelude.{
  ℕ, ◌+◌, Bool, true, false, not, ◌&&◌, Option, none, some, List, [], ◌∷◌, ◌++◌, ◌==◌, nat_eq,
  list_eq, if◌then◌else◌, get_elem?, set,
}
use p2ptogether.Names.{Text}
use p2ptogether.Ring.{Float64}
use p2ptogether.Hls.Monitor.{Monitor, get_segment_duration}

pub record EncoderRunner : Type 0 where
  pub is_running : Bool
  pub current_path : Text
  pub current_seq_base : ℕ
  pub cmd : Option ℕ
  pub m3u8_monitor : Option Monitor
  pub commands : ℕ
  pub killed : List ℕ

pub data Outcome : Type 0 where
  eof cancelled superseded : Outcome

-- Where a goroutine is: at the top of the loop, before it stores its command, in `Run`, in the wait
-- before a retry, before the deferred function, and behind it.
pub data Stage : Type 0 where
  looping waiting : Stage
  registering running : ℕ → Stage
  returning finished : Outcome → Stage

pub record Routine : Type 0 where
  pub file_path : Text
  pub seq_base : ℕ
  pub stage : Stage

pub data Event : Type 0 where
  round : Bool → Bool → Event
  store_cmd : Option Monitor → Event
  exit : Bool → Bool → Event
  wait_over : Bool → Event
  clean_up : Event

unfoldable pub new_encoder_runner : EncoderRunner
new_encoder_runner = record {
  is_running = false;
  current_path = [];
  current_seq_base = 0;
  cmd = none;
  m3u8_monitor = none;
  commands = 0;
  killed = [];
}

-- The first section of `Start`; a task that runs already is returned from at once.
unfoldable pub begin : Text → ℕ → EncoderRunner → EncoderRunner × Routine
begin file seq r =
    if r.is_running && (r.current_path == file) && (r.current_seq_base == seq)
    then (r, record { file_path = file; seq_base = seq; stage = finished eof })
    else (
      record r { current_path = file; current_seq_base = seq; is_running = true },
      record { file_path = file; seq_base = seq; stage = looping },
    )

kill : Option ℕ → List ℕ → List ℕ
kill none killed = killed
kill (some c) killed = killed ++ c ∷ []

-- One round of the loop up to the lock: with a cancelled context the runner's command is killed.
unfoldable pub start_round : Bool → Bool → EncoderRunner → EncoderRunner × Stage
unfolding kill
start_round done compiled r =
    if done
    then (record r { killed = kill r.cmd r.killed }, returning cancelled)
    else if not compiled
    then (r, waiting)
    else (record r { commands = r.commands + 1 }, registering r.commands)

unfoldable pub store : ℕ → Option Monitor → Routine → EncoderRunner → EncoderRunner × Stage
store c monitor g r =
    if not ((r.current_path == g.file_path) && (r.current_seq_base == g.seq_base))
    then (r, returning superseded)
    else (record r { cmd = some c; m3u8_monitor = monitor }, running c)

is_active : Option ℕ → ℕ → Bool
is_active none c = false
is_active (some d) c = d == c

-- After `Run`.
unfoldable pub finish_run : Bool → Bool → ℕ → EncoderRunner → Stage
unfolding is_active
finish_run done succeeded c r =
    if not (is_active r.cmd c)
    then (if done then returning cancelled else returning superseded)
    else if done
    then returning cancelled
    else if succeeded
    then returning eof
    else waiting

-- The deferred function.
unfoldable pub deferred : EncoderRunner → EncoderRunner
deferred r = record r { is_running = false; m3u8_monitor = none }

-- An event that does not fit the stage does nothing.
unfoldable pub step : Event → Stage → Routine → EncoderRunner → EncoderRunner × Stage
unfolding start_round store finish_run deferred
step (round done compiled) looping g r = start_round done compiled r
step (store_cmd monitor) (registering c) g r = store c monitor g r
step (exit done succeeded) (running c) g r = (r, finish_run done succeeded c r)
step (wait_over done) waiting g r = (r, if done then returning cancelled else looping)
step clean_up (returning outcome) g r = (deferred r, finished outcome)
step e stage g r = (r, stage)

-- The runner with its goroutines, oldest first.
pub record World : Type 0 where
  pub runner : EncoderRunner
  pub routines : List Routine

unfoldable pub start : Text → ℕ → World → World
unfolding begin
start file seq w =
    let (r, g) = begin file seq w.runner in record { runner = r; routines = w.routines ++ g ∷ [] }

acted : Event → ℕ → Option Routine → World → World
unfolding step
acted e i none w = w
acted e i (some g) w =
    let (r, stage) = step e g.stage g w.runner in
    record { runner = r; routines = set w.routines i (record g { stage = stage }) }

unfoldable pub act : Event → ℕ → World → World
unfolding acted
act e i w = acted e i (get_elem? w.routines i) w

-- `GetActualSegmentDuration`
monitored : ℕ → Option Monitor → Option Float64
monitored seq none = none
monitored seq (some m) = get_segment_duration seq m

unfoldable pub get_actual_segment_duration : ℕ → EncoderRunner → Option Float64
unfolding monitored
get_actual_segment_duration seq r = monitored seq r.m3u8_monitor
