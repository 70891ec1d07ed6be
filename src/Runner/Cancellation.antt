-- ===== src/Runner/Cancellation.antt =====
-- A goroutine of the runner whose context is cancelled (encode_runner.go).
use p2ptogether.Prelude.{
  ℕ, suc, ◌-◌, ◌≤◌, ◌≡◌, ◌≢◌, refl, sym, ap, ◌∙◌, arith, Bool, true, Option, none, some, get_elem?,
  get_elem?-set_self, get_elem?-set_ne, get_elem?-lt, get_elem?-append_lt,
}
use p2ptogether.Names.{Text}
use p2ptogether.Hls.Monitor.{Monitor}
use p2ptogether.Runner.{
  EncoderRunner, Outcome, Stage, looping, waiting, registering, running, returning, finished,
  Routine, Event, round, store_cmd, exit, wait_over, clean_up, start_round, store, finish_run,
  deferred, step, World, start, acted, act,
}

-- What the outside decides in a step besides the cancelled context.
pub record Choice : Type 0 where
  pub compiled : Bool
  pub monitor : Option Monitor
  pub succeeded : Bool

-- The event that takes a goroutine with a cancelled context on from its stage.
abbrev pub due : Choice → Stage → Event
due c looping = round true c.compiled
due c (registering n) = store_cmd c.monitor
due c (running n) = exit true c.succeeded
due c waiting = wait_over true
due c (returning outcome) = clean_up
due c (finished outcome) = clean_up

abbrev pub due_at : Choice → Option Routine → Event
due_at c none = clean_up
due_at c (some g) = due c g.stage

-- The runner's history from a state on in which the context of the i-th goroutine is cancelled: the
-- number counts the steps of this goroutine; the others do anything, and calls of `Start` come.
pub data Cancelled (i : ℕ) (from : World) : ℕ → World → Type 0 where
  here : Cancelled i from 0 from
  own :
      (c : Choice) {n : ℕ} {w : World}
      → Cancelled i from n w
      → Cancelled i from (suc n) (act (due_at c (get_elem? w.routines i)) i w)
  other :
      (e : Event) (j : ℕ) {n : ℕ} {w : World}
      → i ≢ j
      → Cancelled i from n w
      → Cancelled i from n (act e j w)
  starts :
      (file : Text) (seq : ℕ) {n : ℕ} {w : World}
      → Cancelled i from n w
      → Cancelled i from n (start file seq w)

-- The steps of its own that a cancelled goroutine may still take.
abbrev pub steps_left : Stage → ℕ
steps_left looping = 2
steps_left (registering n) = 3
steps_left (running n) = 2
steps_left waiting = 2
steps_left (returning outcome) = 1
steps_left (finished outcome) = 0

step-steps_left :
    (c : Choice) (stage : Stage) (g : Routine) (r : EncoderRunner)
    → steps_left (step (due c stage) stage g r).1 ≤ steps_left stage - 1
unfolding step start_round store finish_run deferred
step-steps_left c looping g r = omega arith
step-steps_left c (registering n) g r = ground arith
step-steps_left c (running n) g r = ground arith
step-steps_left c waiting g r = omega arith
step-steps_left c (returning outcome) g r = omega arith
step-steps_left c (finished outcome) g r = omega arith

-- The goroutine is there, with at most so many steps before it.
record Within (i left : ℕ) (w : World) : Type 0 where
  routine : Routine
  there : get_elem? w.routines i ≡ some routine
  near : steps_left routine.stage ≤ left

own-Within :
    (c : Choice) (i left : ℕ) (w : World)
    → Within i left w
    → Within i (left - 1) (act (due_at c (get_elem? w.routines i)) i w)
unfolding act acted
own-Within c i left w v =
    let g = v.routine in
    let e = due c g.stage in
    let (r, stage) = step e g.stage g w.runner in
    let moved : Routine = record g { stage = stage } in
    record {
      routine = moved;
      there =
          ap (λ o. get_elem? (acted (due_at c o) i o w).routines i) v.there
          ∙ get_elem?-set_self w.routines i moved (get_elem?-lt w.routines i v.there);
      near = omega (arith, step-steps_left c g.stage g w.runner, v.near);
    }

other-Within :
    (e : Event) (i j left : ℕ) (w : World) → i ≢ j → Within i left w → Within i left (act e j w)
unfolding act
other-Within e i j left w h v = record {
  routine = v.routine;
  there = beside (get_elem? w.routines j) ∙ v.there;
  near = v.near;
}
  where
    beside : (o : Option Routine) → get_elem? (acted e j o w).routines i ≡ get_elem? w.routines i
    beside none = refl
    beside (some g) = get_elem?-set_ne w.routines j i _ (λ q. h (sym q))

start-Within :
    (file : Text) (seq i left : ℕ) (w : World) → Within i left w → Within i left (start file seq w)
unfolding start
start-Within file seq i left w v = record {
  routine = v.routine;
  there = get_elem?-append_lt w.routines _ i (get_elem?-lt w.routines i v.there) ∙ v.there;
  near = v.near;
}

Cancelled-Within :
    {i left : ℕ} {from : World} {n : ℕ} {w : World}
    → Within i left from
    → Cancelled i from n w
    → Within i (left - n) w
Cancelled-Within v here = record { routine = v.routine; there = v.there; near = omega arith }
Cancelled-Within {i} {left = left} v (own c {n} {w} h) =
    let before = own-Within c i (left - n) w (Cancelled-Within v h) in
    record { routine = before.routine; there = before.there; near = omega arith }
Cancelled-Within {i} {left = left} v (other e j {n} {w} apart h) =
    other-Within e i j (left - n) w apart (Cancelled-Within v h)
Cancelled-Within {i} {left = left} v (starts file seq {n} {w} h) =
    start-Within file seq i (left - n) w (Cancelled-Within v h)

none_left :
    (stage : Stage) → steps_left stage ≤ 0 → (outcome : Outcome) × (stage ≡ finished outcome)
none_left looping h = absurd (omega arith)
none_left (registering n) h = absurd (omega arith)
none_left (running n) h = absurd (omega arith)
none_left waiting h = absurd (omega arith)
none_left (returning outcome) h = absurd (omega arith)
none_left (finished outcome) h = (outcome, refl)

-- A goroutine of the runner whose context is cancelled returns after at most as many steps of its
-- own as its stage leaves: three if it has built its command and not yet stored it, two at the top of
-- its loop, in ffmpeg's run or in the wait before a retry, one before its deferred function; whatever
-- the other goroutines and new calls of `Start` do in between.
pub Cancelled-finished :
    (i n : ℕ) (g : Routine) (from w : World)
    → get_elem? from.routines i ≡ some g
    → Cancelled i from n w
    → steps_left g.stage ≤ n
    → (after : Routine) × (outcome : Outcome) × (get_elem? w.routines i ≡ some after)
      × (after.stage ≡ finished outcome)
Cancelled-finished i n g from w there h enough =
    let first : Within i (steps_left g.stage) from = record {
      routine = g;
      there = there;
      near = omega arith;
    } in
    let last = Cancelled-Within first h in
    let (outcome, done) = none_left last.routine.stage (omega (arith, last.near)) in
    (last.routine, outcome, last.there, done)
