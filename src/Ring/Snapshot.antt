-- ===== src/Ring/Snapshot.antt =====
-- Snapshots of the ring buffer (internal/media/ring_buffer.go).
use p2ptogether.Prelude.{
  ℕ, zero, suc, ◌+◌, ◌-◌, ◌≤◌, ◌<◌, ◌≡◌, refl, none, some, List, [], ◌∷◌, arith, length, get_elem?,
  Option-cases, inl, inr, ap, sym, ◌∙◌, ◌⊎◌, subst,
}
use p2ptogether.Ring.{Segment, RingBuffer, find, run, scan, snapshot}
use p2ptogether.Ring.Window.{IsValid}
use p2ptogether.Ring.Lookup.{find_outside}

lt_or_le : (m n : ℕ) → (m < n) ⊎ (n ≤ m)
lt_or_le m n = ground arith

-- The list from a number on, up to and without the first gap.
abbrev pub IsRun : ℕ → List Segment → RingBuffer → Type 0
IsRun seq segs rb = (i : ℕ) → i ≤ length segs → get_elem? segs i ≡ find (seq + i) rb

IsRun-[] : (seq : ℕ) (rb : RingBuffer) → find seq rb ≡ none → IsRun seq [] rb
IsRun-[] seq rb e zero h = sym e ∙ ap (λ k. find k rb) (omega arith)
IsRun-[] seq rb e (suc i) h = absurd (omega arith)

IsRun-∷ :
    (seq : ℕ) (s : Segment) (segs : List Segment) (rb : RingBuffer)
    → find seq rb ≡ some s
    → IsRun (seq + 1) segs rb
    → IsRun seq (s ∷ segs) rb
IsRun-∷ seq s segs rb e r zero h = sym e ∙ ap (λ k. find k rb) (omega arith)
IsRun-∷ seq s segs rb e r (suc i) h = r i (omega arith) ∙ ap (λ k. find k rb) (omega arith)

run-none : (n seq : ℕ) (rb : RingBuffer) → find seq rb ≡ none → run (suc n) seq rb ≡ []
unfolding run
run-none n seq rb e = rw (e, run) refl

run-some :
    (n seq : ℕ) (rb : RingBuffer) {s : Segment}
    → find seq rb ≡ some s
    → run (suc n) seq rb ≡ s ∷ run n (seq + 1) rb
unfolding run
run-some n seq rb e = rw (e, run) refl

scan-none :
    (n seq : ℕ) (rb : RingBuffer) → find seq rb ≡ none → scan (suc n) seq rb ≡ scan n (seq + 1) rb
unfolding scan
scan-none n seq rb e = rw (e, scan) refl

scan-some :
    (n seq : ℕ) (rb : RingBuffer) {s : Segment}
    → find seq rb ≡ some s
    → scan (suc n) seq rb ≡ (seq, s ∷ run n (seq + 1) rb)
unfolding scan
scan-some n seq rb e = rw (e, scan) refl

run-IsRun : (n seq : ℕ) (rb : RingBuffer) → seq + n ≡ rb.next_seq → IsRun seq (run n seq rb) rb
unfolding run
run-IsRun zero seq rb h = IsRun-[] seq rb (find_outside seq rb (inr (omega arith)))
run-IsRun (suc n) seq rb h = elim (Option-cases (find seq rb)) [
  | inl e ↦ subst (λ segs. IsRun seq segs rb) (sym (run-none n seq rb e)) (IsRun-[] seq rb e)
  | inr (s, e) ↦
      subst (λ segs. IsRun seq segs rb) (sym (run-some n seq rb e))
        (IsRun-∷ seq s (run n (seq + 1) rb) rb e (run-IsRun n (seq + 1) rb (omega arith)))
]

-- What a snapshot promises: no stored number below its base, then a run; if it is empty, nothing is
-- stored.
pub record FirstRun (rb : RingBuffer) (base : ℕ) (segs : List Segment) : Type 0 where
  pub none_before : (j : ℕ) → j < base → find j rb ≡ none
  pub is_run : IsRun base segs rb
  pub empty_none : segs ≡ [] → (j : ℕ) → find j rb ≡ none

scan-FirstRun :
    (n seq : ℕ) (rb : RingBuffer)
    → IsValid rb
    → seq + n ≡ rb.next_seq
    → ((j : ℕ) → j < seq → find j rb ≡ none)
    → FirstRun rb (scan n seq rb).0 (scan n seq rb).1
unfolding scan
scan-FirstRun zero seq rb v h before =
    let nothing : (j : ℕ) → find j rb ≡ none = λ j. elim (lt_or_le j seq) [
      | inl low ↦ before j low
      | inr high ↦ find_outside j rb (inr (omega arith))
    ] in
    record {
      none_before = λ j k. nothing j;
      is_run = IsRun-[] rb.base_seq rb (nothing rb.base_seq);
      empty_none = λ e. nothing;
    }
scan-FirstRun (suc n) seq rb v h before = elim (Option-cases (find seq rb)) [
  | inl e ↦
      subst (λ r. FirstRun rb r.0 r.1) (sym (scan-none n seq rb e))
        (scan-FirstRun n (seq + 1) rb v (omega arith) (λ j k. elim (lt_or_le j seq) [
          | inl low ↦ before j low
          | inr high ↦ subst (λ i. find i rb ≡ none) (omega arith) e
        ]))
  | inr (s, e) ↦
      subst (λ r. FirstRun rb r.0 r.1) (sym (scan-some n seq rb e))
        (record {
          none_before = before;
          is_run = IsRun-∷ seq s (run n (seq + 1) rb) rb e (run-IsRun n (seq + 1) rb (omega arith));
          empty_none = λ e'. cc;
        })
]

-- A snapshot is the first run of consecutive stored numbers: nothing is stored below its base, its
-- i-th segment is the one of number base + i, it ends at a number that is not stored, and it is empty
-- only if nothing is stored.
pub snapshot-FirstRun : (rb : RingBuffer) → IsValid rb → FirstRun rb (snapshot rb).0 (snapshot rb).1
unfolding snapshot
snapshot-FirstRun rb v =
    scan-FirstRun (rb.next_seq - rb.base_seq) rb.base_seq rb v (omega (arith, v.ordered))
      (λ j k. find_outside j rb (inl k))
