-- ===== src/Report/Reported.antt =====
-- crates/tryke/src/execution.rs: what the loops report and buffer is what they have received.
use mathlib.Core.List.{Perm, perm_middle}
use mathlib.Core.List as List
use mathlib.Core.List.Perm
use tryke.Prelude.{
  ℕ, ◌≡◌, refl, sym, ap, ◌∙◌, subst, inl, inr, List, [], ◌∷◌, ◌++◌, map, append_assoc, append-nil,
  Option, none, some, Text, Bool-cases,
}
use tryke.Prelude.Sort.{sort_by, sort_by-perm}
use tryke.Prelude.Dict.{Dict}
use tryke.Types.Outcome.{TestResult}
use tryke.Schedule.Units.{FileKey, file_key}
use tryke.Report.Buffers.{
  Buffer, BufferMap, take_out, contents, or_none, push-perm, take_out-perm, files_of,
  take_out-listed,
}
use tryke.Prelude.{filter}
use tryke.Types.{TestItem}
use tryke.Report.{
  run_cycle, index_from, expected_for, short_result, is_short, initial, min_index, by_first,
  remaining_files, Cycle, by_index, report, flush_buffer, receive, receive_all, index_of,
  is_complete, absorb, consume, reaches, flush_files, flush_remaining,
}

-- The results that are in buffers.
abbrev pub results : BufferMap → List TestResult
results bufs = map (λ e. e.1) (contents bufs)

-- The cycle has reported or buffers just these results.
abbrev pub Holds : Cycle → List TestResult → Type 0
Holds cycle rs = Perm (cycle.reported ++ results cycle.buffers) rs

receive-Holds :
    (order : Dict Text ℕ) (r : TestResult) (cycle : Cycle) (rs : List TestResult)
    → Holds cycle rs
    → Holds (receive order r cycle) (r ∷ rs)
receive-Holds order r cycle rs h =
    Perm.trans
      (Perm.append_left cycle.reported (
        Perm.map (λ (e : ℕ × TestResult). e.1)
          (push-perm (file_key r.test) (index_of order r.test, r) cycle.buffers)))
      (Perm.trans (perm_middle cycle.reported (results cycle.buffers)) (Perm.cons r h))

report-Holds :
    (buf : Option Buffer) (rest : BufferMap) (cycle : Cycle) (rs : List TestResult)
    → Perm (cycle.reported ++ map (λ e. e.1) (or_none buf ++ contents rest)) rs
    → Holds (report buf (record cycle { buffers = rest })) rs
report-Holds none rest cycle rs h = h
report-Holds (some buf) rest cycle rs h =
    let sorted = sort_by by_index buf in
    let whole =
      Perm.trans
        (Perm.append_left cycle.reported (
          Perm.map (λ (e : ℕ × TestResult). e.1)
            (Perm.append_right (contents rest) (sort_by-perm by_index buf))))
        h in
    subst (λ l. Perm l rs)
      (ap (λ l. cycle.reported ++ l) (List.map-append (λ e. e.1) sorted (contents rest))
        ∙ sym (append_assoc cycle.reported (map (λ e. e.1) sorted) (results rest)))
      whole

flush_buffer-Holds :
    (file : FileKey) (cycle : Cycle) (rs : List TestResult)
    → Holds cycle rs
    → Holds (flush_buffer file cycle) rs
unfolding flush_buffer
flush_buffer-Holds file cycle rs h =
    let (buf, rest) = take_out file cycle.buffers in
    report-Holds buf rest cycle rs (
      Perm.trans
        (Perm.append_left cycle.reported
          (Perm.map (λ (e : ℕ × TestResult). e.1) (Perm.symm (take_out-perm file cycle.buffers))))
        h)

absorb-Holds :
    (order : Dict Text ℕ) (expected : FileKey → Option ℕ) (r : TestResult) (cycle : Cycle)
    → (rs : List TestResult) → Holds cycle rs
    → Holds (absorb order expected r cycle) (r ∷ rs)
unfolding absorb
absorb-Holds order expected r cycle rs h =
    let next = receive order r cycle in
    let held = receive-Holds order r cycle rs h in
    elim (Bool-cases (is_complete expected (file_key r.test) next)) [
      | inl e ↦ rw e (flush_buffer-Holds (file_key r.test) next (r ∷ rs) held)
      | inr e ↦ rw e held
    ]

receive_all-Holds :
    (order : Dict Text ℕ) (new : List TestResult) (cycle : Cycle) (rs : List TestResult)
    → Holds cycle rs
    → Holds (receive_all order new cycle) (new ++ rs)
unfolding receive_all
receive_all-Holds order [] cycle rs h = h
receive_all-Holds order (r ∷ new) cycle rs h =
    Perm.trans
      (receive_all-Holds order new (receive order r cycle) (r ∷ rs)
        (receive-Holds order r cycle rs h))
      (perm_middle new rs)

flush_files-Holds :
    (files : List FileKey) (cycle : Cycle) (rs : List TestResult)
    → Holds cycle rs
    → Holds (flush_files files cycle) rs
unfolding flush_files
flush_files-Holds [] cycle rs h = h
flush_files-Holds (file ∷ files) cycle rs h =
    flush_files-Holds files (flush_buffer file cycle) rs (flush_buffer-Holds file cycle rs h)

flush_remaining-Holds :
    (cycle : Cycle) (rs : List TestResult) → Holds cycle rs → Holds (flush_remaining cycle) rs
unfolding flush_remaining
flush_remaining-Holds cycle = flush_files-Holds (remaining_files cycle.buffers) cycle

-- What the loop has read of the stream: all of it, where no number of failures stops it.
abbrev pub Read : Option ℕ → List TestResult → (List TestResult → Type 0) → Type 0
Read maxfail stream P =
    (read : List TestResult) × (rest : List TestResult) × (stream ≡ read ++ rest)
    × (maxfail ≡ none → rest ≡ [])
    × P read

consume-Holds :
    (order : Dict Text ℕ) (expected : FileKey → Option ℕ) (maxfail : Option ℕ)
    (stream : List TestResult)
    → (cycle : Cycle) (rs : List TestResult) → Holds cycle rs
    → Read maxfail stream (λ read. Holds (consume order expected maxfail stream cycle) (read ++ rs))
unfolding consume
consume-Holds order expected maxfail [] cycle rs h = ([], [], refl, (λ _. refl), h)
consume-Holds order expected maxfail (r ∷ stream) cycle rs h =
    let next = absorb order expected r cycle in
    let held = absorb-Holds order expected r cycle rs h in
    elim (Bool-cases (reaches maxfail next.counts.failed)) [
      | inl e ↦ rw e (
        r ∷ [],
        stream,
        refl,
        (λ unbounded. absurd (cc (ap (λ m. reaches m next.counts.failed) unbounded, e))),
        held,
      )
      | inr e ↦
          let (read, rest, split, all_read, holds) =
            consume-Holds order expected maxfail stream next (r ∷ rs) held in
          rw e (
            r ∷ read,
            rest,
            ap (λ l. r ∷ l) split,
            all_read,
            Perm.trans holds (perm_middle read rs),
          )
    ]

report-buffers : (buf : Option Buffer) (cycle : Cycle) → (report buf cycle).buffers ≡ cycle.buffers
report-buffers none cycle = refl
report-buffers (some buf) cycle = refl

flush_buffer-buffers :
    (file : FileKey) (cycle : Cycle)
    → (flush_buffer file cycle).buffers ≡ (take_out file cycle.buffers).1
unfolding flush_buffer
flush_buffer-buffers file cycle =
    report-buffers (take_out file cycle.buffers).0
      (record cycle { buffers = (take_out file cycle.buffers).1 })

flush_files-empties :
    (files : List FileKey) (cycle : Cycle)
    → Perm (files_of cycle.buffers) files
    → (flush_files files cycle).buffers ≡ []
unfolding flush_files
flush_files-empties [] cycle h = nothing_of cycle.buffers (Perm.nil-eq (Perm.symm h))
  where
    nothing_of : (bufs : BufferMap) → [] ≡ files_of bufs → bufs ≡ []
    nothing_of [] e = refl
    nothing_of (b ∷ bufs) e = cc
flush_files-empties (file ∷ files) cycle h = flush_files-empties files (flush_buffer file cycle) (
    subst (λ bufs. Perm (files_of bufs) files) (sym (flush_buffer-buffers file cycle))
      (take_out-listed file files cycle.buffers h))

flush_remaining-empties : (cycle : Cycle) → (flush_remaining cycle).buffers ≡ []
unfolding flush_remaining
flush_remaining-empties cycle = flush_files-empties (remaining_files cycle.buffers) cycle (
    Perm.symm (
      subst (Perm (remaining_files cycle.buffers)) (keyed cycle.buffers) (
        Perm.map (λ (r : ℕ × FileKey). r.1)
          (sort_by-perm by_first (map (λ b. (min_index b.1, b.0)) cycle.buffers)))))
  where
    keyed :
        (bufs : BufferMap)
        → map (λ (r : ℕ × FileKey). r.1) (map (λ b. (min_index b.1, b.0)) bufs) ≡ files_of bufs
    keyed [] = refl
    keyed (b ∷ bufs) = ap (λ l. b.0 ∷ l) (keyed bufs)

-- At the end of a run nothing is left in a buffer, and the reporter has been told each result once:
-- those of the tests that are not run, and those that were read of the stream, which is all of it
-- unless a number of failures is set at which to stop.
pub run_cycle-reports :
    (tests : List TestItem) (maxfail : Option ℕ) (stream : List TestResult)
    → ((run_cycle tests maxfail stream).buffers ≡ [])
      × ((read : List TestResult) × (rest : List TestResult) × (stream ≡ read ++ rest)
          × (maxfail ≡ none → rest ≡ [])
          × Perm
              (run_cycle tests maxfail stream).reported
              (read ++ map short_result (filter is_short tests)))
unfolding run_cycle
run_cycle-reports tests maxfail stream =
    let order = index_from 0 tests [] in
    let short = map short_result (filter is_short tests) in
    let begun = receive_all order short initial in
    let consumed = consume order (expected_for tests) maxfail stream begun in
    let begun_holds : Holds begun short =
      subst (Holds begun) (append-nil short) (receive_all-Holds order short initial [] Perm.rfl) in
    let (read, rest, split, all_read, held) =
      consume-Holds order (expected_for tests) maxfail stream begun short begun_holds in
    let empty = flush_remaining-empties consumed in
    let ends = flush_remaining-Holds consumed (read ++ short) held in
    (
      empty,
      (
        read,
        rest,
        split,
        all_read,
        subst (λ l. Perm l (read ++ short))
            (ap (λ bufs. (flush_remaining consumed).reported ++ results bufs) empty
              ∙ append-nil (flush_remaining consumed).reported)
            ends,
      ),
    )
