-- ===== src/Runner/Live.antt =====
-- What holds of the runner in every interleaving of its goroutines (encode_runner.go).
use p2ptogether.Prelude.{
  ℕ, ◌≡◌, ◌≢◌, refl, arith, Bool, true, false, some, [], get_elem?, length, ◌==◌, nat_eq, list_eq,
  Option-cases, Bool-cases, inl, inr, ◌⊎◌, sym, ◌∙◌, ap, subst, ◌&&◌, get_elem?-set_self,
  get_elem?-set_ne, get_elem?-lt, get_elem?-append_lt, get_elem?-append_self,
}
use p2ptogether.Names.{Text}
use p2ptogether.Runner.{
  EncoderRunner, Stage, looping, waiting, registering, running, returning, finished, Routine, Event,
  new_encoder_runner, begin, start_round, store, finish_run, deferred, step, World, start, acted,
  act,
}

-- What can happen: a call of `Start`, and a step of a goroutine.
pub data Reached : World → Type 0 where
  fresh : Reached (record { runner = new_encoder_runner; routines = [] })
  starts : (file : Text) (seq : ℕ) {w : World} → Reached w → Reached (start file seq w)
  acts : (e : Event) (i : ℕ) {w : World} → Reached w → Reached (act e i w)

abbrev pub is_live : Stage → Bool
is_live (finished outcome) = false
is_live looping = true
is_live waiting = true
is_live (registering c) = true
is_live (running c) = true
is_live (returning outcome) = true

-- A goroutine that has not returned, of the runner's task.
pub record Owner (w : World) : Type 0 where
  pub index : ℕ
  pub routine : Routine
  pub there : get_elem? w.routines index ≡ some routine
  pub live : is_live routine.stage ≡ true
  pub same_path : routine.file_path ≡ w.runner.current_path
  pub same_base : routine.seq_base ≡ w.runner.current_seq_base

-- What a step leaves of the runner and of its goroutine.
record Mild (g : Routine) (stage : Stage) (r after : EncoderRunner) : Type 0 where
  path : after.current_path ≡ r.current_path
  base : after.current_seq_base ≡ r.current_seq_base
  flag :
      after.is_running ≡ true
      → (r.is_running ≡ true) × (is_live g.stage ≡ true → is_live stage ≡ true)

step-Mild :
    (e : Event) (stage : Stage) (g : Routine) (r : EncoderRunner)
    → g.stage ≡ stage
    → Mild g (step e stage g r).1 r (step e stage g r).0
unfolding step start_round store finish_run deferred
step-Mild e stage g r h = ground arith

acted-Owner :
    (e : Event) (i : ℕ) (g : Routine) (w : World)
    → get_elem? w.routines i ≡ some g
    → (w.runner.is_running ≡ true → Owner w)
    → (acted e i (some g) w).runner.is_running ≡ true
    → Owner (acted e i (some g) w)
unfolding acted
acted-Owner e i g w here owned on =
    let (r, stage) = step e g.stage g w.runner in
    let mild = step-Mild e g.stage g w.runner refl in
    let (was_on, stays) = mild.flag on in
    let o = owned was_on in
    let g' : Routine = record g { stage = stage } in
    elim (same_or_not o.index i) [
      | inl same ↦
          (let own : some o.routine ≡ some g =
              sym o.there ∙ ap (get_elem? w.routines) same ∙ here in
            let mine : o.routine ≡ g = ground (arith, own) in
            record {
              index = i;
              routine = g';
              there = get_elem?-set_self w.routines i g' (get_elem?-lt w.routines i here);
              live = stays (ap (λ r. is_live r.stage) (sym mine) ∙ o.live);
              same_path = ap (λ r. r.file_path) (sym mine) ∙ o.same_path ∙ sym mild.path;
              same_base = ap (λ r. r.seq_base) (sym mine) ∙ o.same_base ∙ sym mild.base;
            })
      | inr other ↦ record {
        index = o.index;
        routine = o.routine;
        there = get_elem?-set_ne w.routines i o.index g' (λ e. other (sym e)) ∙ o.there;
        live = o.live;
        same_path = o.same_path ∙ sym mild.path;
        same_base = o.same_base ∙ sym mild.base;
      }
    ]
  where
    same_or_not : (m n : ℕ) → (m ≡ n) ⊎ (m ≢ n)
    same_or_not m n = ground (arith, nat_eq.same_iff m n)

start-Owner :
    (file : Text) (seq : ℕ) (w : World)
    → (w.runner.is_running ≡ true → Owner w)
    → Owner (start file seq w)
unfolding start begin
start-Owner file seq w owned =
    elim (Bool-cases (
      w.runner.is_running
      && (w.runner.current_path == file)
      && (w.runner.current_seq_base == seq))) [
        | inl same ↦
            (let o = owned (ground (arith, same)) in
              rw same (record {
                index = o.index;
                routine = o.routine;
                there =
                    get_elem?-append_lt w.routines _ o.index
                      (get_elem?-lt w.routines o.index o.there)
                    ∙ o.there;
                live = o.live;
                same_path = o.same_path;
                same_base = o.same_base;
              }))
        | inr new ↦ rw new (record {
          index = length w.routines;
          routine = record { file_path = file; seq_base = seq; stage = looping };
          there = get_elem?-append_self w.routines _;
          live = refl;
          same_path = refl;
          same_base = refl;
        })
      ]

act-Owner :
    (e : Event) (i : ℕ) (w : World)
    → (w.runner.is_running ≡ true → Owner w)
    → (act e i w).runner.is_running ≡ true
    → Owner (act e i w)
unfolding act
act-Owner e i w owned on = elim (Option-cases (get_elem? w.routines i)) [
  | inl absent ↦
      subst Owner (sym (ap (λ o. acted e i o w) absent))
        (owned (subst (λ o. (acted e i o w).runner.is_running ≡ true) absent on))
  | inr (g, here) ↦ subst Owner (sym (ap (λ o. acted e i o w) here)) (
      acted-Owner e i g w here owned
        (subst (λ o. (acted e i o w).runner.is_running ≡ true) here on))
]

-- In every interleaving of the goroutines, while the runner says that it runs, there is a goroutine
-- that has not returned and whose file and base are those of the runner.
pub Reached-Owner : {w : World} → Reached w → w.runner.is_running ≡ true → Owner w
Reached-Owner fresh on = unfold new_encoder_runner in absurd (ground arith)
Reached-Owner (starts file seq {w} h) on = start-Owner file seq w (Reached-Owner h)
Reached-Owner (acts e i {w} h) on = act-Owner e i w (Reached-Owner h) on
