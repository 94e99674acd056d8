-- ===== src/Telemetry/Passage.antt =====
-- A step of the pipeline loses no sample, repeats none, and keeps their order.
use mathlib.Core.List.{append-nil, append_assoc, map-append}
use zero_force_controller.Common.{
  ℕ, ◌+◌, ◌^◌, ◌≤◌, ◌<◌, ◌≡◌, refl, ap, sym, ◌∙◌, Bool, [], ◌++◌, map, arith,
}
use zero_force_controller.Double.{Double}
use zero_force_controller.Control.{Snapshot, fresh_snapshot}
use zero_force_controller.Capture
use zero_force_controller.Capture.{Capture, Call, append, pop, completion, taken}
use zero_force_controller.Capture.Queue.{IsValid, contents, stored, step_lem}
use zero_force_controller.Telemetry.{
  Pipeline, Event, begins, sampled, finishes, ticks, Place, waiting, looping, filling, publishing,
  completing, reporting, capacity, begin, sample, finish, fill, publish, complete, report, advance,
  step,
}
use zero_force_controller.Telemetry.Message.{to_sample}
use zero_force_controller.Telemetry.Log.{handed, queued, outstanding, stored_by, IsPiped}

module _ {D : Type 0} ⦃d : Double D⦄ where
  -- what an access to the ring keeps
  abbrev Keeps : Pipeline D → Pipeline D → Type 0
  Keeps p q = IsPiped q × (q.capture.write ≤ p.capture.write + 1) × (outstanding q ≡ outstanding p)

  pub popped :
      (c : Capture.Capture (Snapshot D))
      → IsValid capacity fresh_snapshot c
      → c.write + 1 < 2 ^ 64
      → let (out, c') = pop capacity fresh_snapshot c in
        IsValid capacity fresh_snapshot c'
        × (c'.write ≤ c.write + 1)
        × (map to_sample (taken out) ++ map to_sample (contents capacity fresh_snapshot c')
            ≡ map to_sample (contents capacity fresh_snapshot c))
  unfolding Capture.step
  popped c v w =
      let (v', w', e) = step_lem capacity fresh_snapshot c Call.pops v w in
      (
        v',
        w',
        sym (map-append to_sample (taken (pop capacity fresh_snapshot c).0) _)
            ∙ ap (map to_sample) (e ∙ append-nil (contents capacity fresh_snapshot c)),
      )

  fill_lem :
      (p : Pipeline D)
      → p.place ≡ filling
      → IsPiped p
      → p.capture.write + 1 < 2 ^ 64
      → Keeps p (fill p)
  unfolding fill
  fill_lem p at v w =
      let out = (pop capacity fresh_snapshot p.capture).0 in
      let c = (pop capacity fresh_snapshot p.capture).1 in
      let t = map to_sample (contents capacity fresh_snapshot c) in
      ground (arith, popped p.capture v, append_assoc p.samples (map to_sample (taken out)) t)

  publish_lem :
      (taken : Bool) (p : Pipeline D)
      → p.place ≡ publishing
      → (outstanding (publish taken p) ≡ outstanding p) × ((publish taken p).capture ≡ p.capture)
  unfolding publish
  publish_lem taken p at = ground (arith, append_assoc (handed p.log) p.samples (queued p))

  -- an access to the ring that neither stores nor takes out
  pub silent :
      (c : Capture.Capture (Snapshot D)) (call : Call (Snapshot D))
      → IsValid capacity fresh_snapshot c
      → c.write + 1 < 2 ^ 64
      → let (out, c') = Capture.step capacity fresh_snapshot c call in
        out ≡ []
        → stored capacity fresh_snapshot c call ≡ []
        → IsValid capacity fresh_snapshot c'
          × (c'.write ≤ c.write + 1)
          × (contents capacity fresh_snapshot c' ≡ contents capacity fresh_snapshot c)
  silent c call v w none_out none_in =
      let (v', w', e) = step_lem capacity fresh_snapshot c call v w in
      (
        v',
        w',
        ap
              (λ o.
                o
                ++ contents capacity fresh_snapshot (Capture.step capacity fresh_snapshot c call).1)
              (sym none_out)
            ∙ e
            ∙ ap (◌++◌ (contents capacity fresh_snapshot c)) none_in
            ∙ append-nil (contents capacity fresh_snapshot c),
      )

  complete_lem :
      (p : Pipeline D)
      → p.place ≡ completing
      → IsPiped p
      → p.capture.write + 1 < 2 ^ 64
      → Keeps p (complete p)
  unfolding complete Capture.step
  complete_lem p at v w =
      let (v', w', e) = silent p.capture Call.completes v w refl refl in
      ground (arith, ap (map to_sample) e)

  advance_lem :
      (at : Place) (taken : Bool) (p : Pipeline D)
      → p.place ≡ at
      → IsPiped p
      → p.capture.write + 1 < 2 ^ 64
      → Keeps p (advance at taken p)
  unfolding advance
  advance_lem waiting taken p e v w = ground arith
  advance_lem looping taken p e v w = ground arith
  advance_lem filling taken p e v w = fill_lem p e v w
  advance_lem publishing taken p e v w = ground (arith, publish_lem taken p e)
  advance_lem completing taken p e v w = complete_lem p e v w
  advance_lem reporting taken p e v w = unfold report in ground arith

  begin_lem :
      (p : Pipeline D) (id : ℕ) → IsPiped p → p.capture.write + 1 < 2 ^ 64 → Keeps p (begin id p).1
  unfolding begin Capture.step
  begin_lem p id v w =
      let (v', w', e) = silent p.capture (Call.begins id) v w refl refl in
      ground (arith, ap (map to_sample) e)

  finish_lem :
      (p : Pipeline D) (completed : Bool)
      → IsPiped p
      → p.capture.write + 1 < 2 ^ 64
      → Keeps p (finish completed p)
  unfolding finish Capture.step
  finish_lem p completed v w =
      let (v', w', e) = silent p.capture (Call.finishes completed) v w refl refl in
      ground (arith, ap (map to_sample) e)

  pub queued-sample :
      (p : Pipeline D) (s : Snapshot D)
      → IsPiped p
      → p.capture.write + 1 < 2 ^ 64
      → queued (sample s p) ≡ queued p ++ stored_by p (sampled s)
  unfolding sample Capture.step
  queued-sample p s v w =
      let c = p.capture in
      let (_, _, e) = step_lem capacity fresh_snapshot c (Call.appends s) v w in
      ap (map to_sample) e
      ∙ map-append to_sample (contents capacity fresh_snapshot c)
          (stored capacity fresh_snapshot c (Call.appends s))

  sample_lem :
      (p : Pipeline D) (s : Snapshot D)
      → IsPiped p
      → p.capture.write + 1 < 2 ^ 64
      → let q = sample s p in
        IsPiped q
        × (q.capture.write ≤ p.capture.write + 1)
        × (outstanding q ≡ outstanding p ++ stored_by p (sampled s))
  unfolding sample Capture.step
  sample_lem p s v w =
      let (v', w', _) = step_lem capacity fresh_snapshot p.capture (Call.appends s) v w in
      (v', w', rw (queued-sample p s v w) (simp append_assoc))

  pub step_delivers :
      (p : Pipeline D) (e : Event D)
      → IsPiped p
      → p.capture.write + 1 < 2 ^ 64
      → let q = step p e in
        IsPiped q
        × (q.capture.write ≤ p.capture.write + 1)
        × (outstanding q ≡ outstanding p ++ stored_by p e)
  unfolding step
  step_delivers p (begins id) v w = ground (arith, begin_lem p id v w, append-nil (outstanding p))
  step_delivers p (sampled s) v w = sample_lem p s v w
  step_delivers p (finishes c) v w = ground (arith, finish_lem p c v w, append-nil (outstanding p))
  step_delivers p (ticks taken) v w =
      ground (arith, advance_lem p.place taken p refl v w, append-nil (outstanding p))
