-- ===== src/Capture/Queue.antt =====
-- The capture as a bounded queue: nothing that was stored is lost, repeated or reordered.
use zero_force_controller.Common.{
  ℕ, zero, suc, ◌+◌, ◌-◌, ◌%◌, ◌^◌, ◌≤◌, ◌<◌, ◌≡◌, ap, sym, ◌∙◌, Bool, ◌&&◌, List, [], ◌∷◌, ◌++◌,
  arith, length, get_or, set, length-set, ltb, if◌then◌else◌,
}
use mathlib.Core.List.{append-nil, append_assoc}
use zero_force_controller.Capture.{
  Capture, CaptureRecord, Call, begins, appends, finishes, pops, completes, begin, append, finish,
  pop, completion, step, next_record, blank_record,
}
use zero_force_controller.Capture.Ring.{window, window-set, length-window}

module _ {S : Type 0} (capacity : ℕ) (blank : S) where
  -- the records that the consumer has not taken, oldest first
  abbrev pub contents : Capture S → List (CaptureRecord S)
  contents c = window capacity (blank_record blank) c.records c.read (c.write - c.read)

  pub record IsValid (c : Capture S) : Type 0 where
    pub storage : capacity ≤ length c.records
    pub positive : 0 < capacity
    pub small : capacity < 2 ^ 63
    pub order : c.read ≤ c.write
    pub fits : c.write ≤ c.read + capacity

  -- what a call stores, by the specification: an appended record, if a trial runs and the queue has
  -- room for it
  abbrev pub stored : Capture S → Call S → List (CaptureRecord S)
  stored c (appends s) =
      if c.running && ltb (length (contents c)) capacity then next_record c s ∷ [] else []
  stored c _ = []

  begin_lem :
      (c : Capture S) (trial : ℕ)
      → IsValid c
      → let c' = (begin blank c trial).1 in
        IsValid c' × (c'.write ≡ c.write) × (contents c' ≡ contents c)
  unfolding begin
  begin_lem c trial v = ground arith

  finish_lem :
      (c : Capture S) (completed : Bool)
      → IsValid c
      → let c' = finish c completed in
        IsValid c' × (c'.write ≡ c.write) × (contents c' ≡ contents c)
  unfolding finish
  finish_lem c completed v = ground arith

  completion_lem :
      (c : Capture S)
      → IsValid c
      → let c' = (completion c).1 in IsValid c' × (c'.write ≡ c.write) × (contents c' ≡ contents c)
  unfolding completion
  completion_lem c v = ground arith

  -- what the ring holds after a write at its end
  written :
      (c : Capture S) (r : CaptureRecord S)
      → IsValid c
      → c.write - c.read < capacity
      → window capacity
          (blank_record blank)
          (set c.records (c.write % capacity) r)
          c.read
          (c.write + 1 - c.read)
        ≡ contents c ++ (r ∷ [])
  written c r v h =
      let n = c.write - c.read in
      let e : c.write ≡ c.read + n = omega arith in
      let k : c.write + 1 - c.read ≡ suc n = omega arith in
      let at : c.write % capacity ≡ (c.read + n) % capacity = ap (λ (t : ℕ). t % capacity) e in
      rw k (window-set capacity (blank_record blank) c.records r n c.read _ v.storage h at)

  append_lem :
      (c : Capture S) (s : S)
      → IsValid c
      → c.write + 1 < 2 ^ 64
      → let c' = append capacity c s in
        IsValid c' × (c'.write ≤ c.write + 1) × (contents c' ≡ contents c ++ stored c (appends s))
  unfolding append
  append_lem c s v w = ground (
    arith,
    length-window capacity (blank_record blank) c.records c.read (c.write - c.read),
    length-set c.records (c.write % capacity) (next_record c s),
    written c (next_record c s) v,
    append-nil (contents c),
  )

  -- the oldest record of a queue that is not empty
  window_of_pos :
      (xs : List (CaptureRecord S)) (k n : ℕ)
      → 0 < n
      → window capacity (blank_record blank) xs k n
        ≡ get_or xs (k % capacity) (blank_record blank)
          ∷ window capacity (blank_record blank) xs (k + 1) (n - 1)
  window_of_pos xs k zero h = absurd (omega arith)
  window_of_pos xs k (suc n) h =
      ap (λ (t : ℕ). window capacity (blank_record blank) xs k (suc t)) (omega arith)

  pop_lem :
      (c : Capture S)
      → IsValid c
      → c.write + 1 < 2 ^ 64
      → let (out, c') = step capacity blank c pops in
        IsValid c' × (c'.write ≡ c.write) × (out ++ contents c' ≡ contents c)
  unfolding step pop
  pop_lem c v w =
      let e : c.write - (c.read + 1) ≡ c.write - c.read - 1 = omega arith in
      ground (
        arith,
        window_of_pos c.records c.read (c.write - c.read),
        ap (window capacity (blank_record blank) c.records (c.read + 1)) e,
      )

  -- What a call does to the queue: the records taken out and those that stay are those that were
  -- there and the one that is stored.
  pub step_lem :
      (c : Capture S) (call : Call S)
      → IsValid c
      → c.write + 1 < 2 ^ 64
      → let (out, c') = step capacity blank c call in
        IsValid c' × (c'.write ≤ c.write + 1) × (out ++ contents c' ≡ contents c ++ stored c call)
  unfolding step
  step_lem c (begins trial) v w = ground (arith, begin_lem c trial v, append-nil (contents c))
  step_lem c (appends s) v w = append_lem c s v w
  step_lem c (finishes completed) v w =
      ground (arith, finish_lem c completed v, append-nil (contents c))
  step_lem c pops v w = ground (arith, pop_lem c v w, append-nil (contents c))
  step_lem c completes v w = ground (arith, completion_lem c v, append-nil (contents c))

  -- the records that a sequence of calls takes out, and those that it stores
  unfoldable pub run : Capture S → List (Call S) → List (CaptureRecord S) × Capture S
  run c [] = ([], c)
  run c (call ∷ calls) =
      let (out, c') = step capacity blank c call in
      let (outs, end) = run c' calls in (out ++ outs, end)

  unfoldable pub all_stored : Capture S → List (Call S) → List (CaptureRecord S)
  all_stored c [] = []
  all_stored c (call ∷ calls) = stored c call ++ all_stored (step capacity blank c call).1 calls

  -- In every interleaving of producer and consumer calls that stays below 2 ^ 64 records, the
  -- records taken out, followed by those still held, are those held at first, followed by exactly
  -- the appended records for which a trial ran and the queue had room, in order.
  pub run_lem :
      (c : Capture S) (calls : List (Call S))
      → IsValid c
      → c.write + length calls < 2 ^ 64
      → let (out, c') = run c calls in
        IsValid c' × (out ++ contents c' ≡ contents c ++ all_stored c calls)
  unfolding run all_stored
  run_lem c [] v w = (v, sym (append-nil (contents c)))
  run_lem c (call ∷ calls) v w =
      let (v1, w1, e1) = step_lem c call v (omega arith) in
      let (v2, e2) = run_lem (step capacity blank c call).1 calls v1 (omega arith) in
      (
        v2,
        append_assoc (step capacity blank c call).0 _ _
            ∙ ap (◌++◌ (step capacity blank c call).0) e2
            ∙ sym (append_assoc (step capacity blank c call).0 _ _)
            ∙ ap (λ t. t ++ all_stored (step capacity blank c call).1 calls) e1
            ∙ append_assoc (contents c) _ _,
      )
