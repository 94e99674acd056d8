-- ===== src/Controller/Session.antt =====
-- A controller over its life: activations, cycles and deactivations, interleaved with the steps of
-- the publisher's drain. What the controller does to the pipeline is a sequence of its events.
use zero_force_controller.Common.{
  ℕ, ◌+◌, ◌*◌, ◌^◌, ◌≤◌, ◌<◌, ◌≡◌, refl, sym, ap, ◌∙◌, Bool-cases, inl, inr, Bool, false, not, ◌&&◌,
  ◌||◌, ◌==◌, leb, List, [], ◌∷◌, ◌++◌, arith, length, length-append, if◌then◌else◌,
}
use zero_force_controller.Double.{Double}
use zero_force_controller.Control.{Inputs, increment}
use zero_force_controller.Telemetry
use zero_force_controller.Telemetry.{
  Pipeline, Event, begins, sampled, finishes, ticks, Entry, begun, batch, status, run, step,
  advance,
}
use zero_force_controller.Telemetry.Log.{IsFresh}
use zero_force_controller.Telemetry.Handshake.{Alternates, fresh-IsOrderly, run-IsOrderly}
use zero_force_controller.Telemetry.Accounts.{Accurate, Rising, trial_of}
use zero_force_controller.Telemetry.Status.{run-Accurate}
use zero_force_controller.Controller.{
  Controller, write_command, refuse, on_activate, on_deactivate, update, closing, is_complete,
}
use zero_force_controller.Controller.Activation.{on_activate-IsActivation}
use zero_force_controller.Controller.Interface.{Law}

-- what happens to a controller and its publisher
pub data Move (D S : Type 0) : Type 0 where
  activates : S → ℕ → Inputs D → Move D S
  cycles : Inputs D → Move D S
  deactivates : Inputs D → Move D S
  drains : Bool → Move D S

module _ {D S L : Type 0} ⦃d : Double D⦄ (law : Law D S L) where
  unfoldable pub act : Controller D L → Move D S → Controller D L
  act c (activates p n i) = (on_activate law p n i c).1
  act c (cycles i) = (update law i c).1
  act c (deactivates i) = on_deactivate law i c
  act c (drains taken) = record c { telemetry = step c.telemetry (ticks taken) }

  unfoldable pub acts : Controller D L → List (Move D S) → Controller D L
  acts c [] = c
  acts c (m ∷ ms) = acts (act c m) ms

  -- A controller step, as at most two events of the pipeline.
  record Extends (t t' : Pipeline D) : Type 0 where
    events : List (Event D)
    few : length events ≤ 2
    reached : t' ≡ run t events

  telemetry-write_command :
      (requested measured : D) (c : Controller D L)
      → (write_command law requested measured c).telemetry ≡ c.telemetry
  unfolding write_command
  telemetry-write_command requested measured c = refl

  update-Extends :
      (i : Inputs D) (c : Controller D L) → Extends c.telemetry (update law i c).1.telemetry
  unfolding update closing write_command run step
  update-Extends i c =
      let s = law.state (law.update i c.logic) in
      elim (Bool-cases (not s.valid || is_complete s.phase)) [
        | inl over ↦ record {
          events = sampled s ∷ finishes (is_complete s.phase && s.valid) ∷ [];
          few = omega arith;
          reached = rw over;
        }
        | inr on ↦ record { events = sampled s ∷ []; few = omega arith; reached = rw on }
      ]

  deactivate-Extends :
      (i : Inputs D) (c : Controller D L) → Extends c.telemetry (on_deactivate law i c).telemetry
  unfolding on_deactivate write_command run step
  deactivate-Extends i c = record {
    events = finishes false ∷ [];
    few = omega arith;
    reached = refl;
  }

  activate-Extends :
      (p : S) (n : ℕ) (i : Inputs D) (c : Controller D L)
      → Extends c.telemetry (on_activate law p n i c).1.telemetry
  unfolding on_activate refuse write_command run step
  activate-Extends p n i c =
      let (accepted, l) = law.activate p i c.logic in
      let trial = if n == 0 then increment c.last_trial else n in
      let (ok, t) = Telemetry.begin trial c.telemetry in
      elim (Bool-cases (not accepted || leb trial c.last_trial)) [
        | inl b ↦ record { events = []; few = omega arith; reached = rw b }
        | inr b ↦ elim (Bool-cases ok) [
          | inl begins_now ↦ record {
            events = begins trial ∷ sampled (law.state l) ∷ [];
            few = omega arith;
            reached = rw (b, begins_now);
          }
          | inr no_begin ↦ record {
            events = begins trial ∷ [];
            few = omega arith;
            reached = rw (b, no_begin);
          }
        ]
      ]

  act-Extends : (m : Move D S) (c : Controller D L) → Extends c.telemetry (act c m).telemetry
  unfolding act run
  act-Extends (activates p n i) c = activate-Extends p n i c
  act-Extends (cycles i) c = update-Extends i c
  act-Extends (deactivates i) c = deactivate-Extends i c
  act-Extends (drains taken) c = record {
    events = ticks taken ∷ [];
    few = omega arith;
    reached = refl;
  }

  run-append : (t : Pipeline D) (es fs : List (Event D)) → run t (es ++ fs) ≡ run (run t es) fs
  unfolding run
  run-append t [] fs = refl
  run-append t (e ∷ es) fs = run-append (step t e) es fs

  record Reaches (t t' : Pipeline D) (n : ℕ) : Type 0 where
    events : List (Event D)
    few : length events ≤ 2 * n
    reached : t' ≡ run t events

  acts-Reaches :
      (c : Controller D L) (ms : List (Move D S))
      → Reaches c.telemetry (acts c ms).telemetry (length ms)
  unfolding acts run
  acts-Reaches c [] = record { events = []; few = omega arith; reached = refl }
  acts-Reaches c (m ∷ ms) =
      let a = act-Extends m c in
      let r = acts-Reaches (act c m) ms in
      record {
        events = a.events ++ r.events;
        few = omega (arith, length-append a.events r.events, a.few, r.few);
        reached =
            r.reached
            ∙ ap (λ t. run t r.events) a.reached
            ∙ sym (run-append c.telemetry a.events r.events);
      }

  abbrev IsNumbered : ℕ → List (Entry D) → Type 0
  IsNumbered last l = (trial_of l ≤ last) × Rising l

  activate-IsNumbered :
      (p : S) (n : ℕ) (i : Inputs D) (c : Controller D L)
      → IsNumbered c.last_trial c.telemetry.log
      → let c' = (on_activate law p n i c).1 in IsNumbered c'.last_trial c'.telemetry.log
  activate-IsNumbered p n i c h =
      let (ok, c') = on_activate law p n i c in
      let a = on_activate-IsActivation law p n i c in
      elim (Bool-cases ok) [
        | inl started ↦
            let started_now = a.started started in
            rw started_now.3 (omega arith, (omega arith, h.1))
        | inr refused ↦ let kept = a.refused refused in rw (kept.0, kept.2.2) h
      ]

  advance-IsNumbered :
      (at : Telemetry.Place) (taken : Bool) (n : ℕ) (t : Pipeline D)
      → IsNumbered n t.log
      → IsNumbered n (advance at taken t).log
  unfolding advance Telemetry.fill Telemetry.publish Telemetry.complete Telemetry.report
  advance-IsNumbered Telemetry.waiting taken n t h = h
  advance-IsNumbered Telemetry.looping taken n t h = ground arith
  advance-IsNumbered Telemetry.filling taken n t h = ground arith
  advance-IsNumbered Telemetry.publishing taken n t h = ground arith
  advance-IsNumbered Telemetry.completing taken n t h = ground arith
  advance-IsNumbered Telemetry.reporting taken n t h = ground arith

  act-IsNumbered :
      (m : Move D S) (c : Controller D L)
      → IsNumbered c.last_trial c.telemetry.log
      → IsNumbered (act c m).last_trial (act c m).telemetry.log
  unfolding act
  act-IsNumbered (activates p n i) c h = activate-IsNumbered p n i c h
  act-IsNumbered (cycles i) c h =
      unfold update closing write_command Telemetry.sample Telemetry.finish in ground arith
  act-IsNumbered (deactivates i) c h =
      unfold on_deactivate write_command Telemetry.finish in ground arith
  act-IsNumbered (drains taken) c h =
      unfold step in advance-IsNumbered c.telemetry.place taken c.last_trial c.telemetry h

  acts-IsNumbered :
      (c : Controller D L) (ms : List (Move D S))
      → IsNumbered c.last_trial c.telemetry.log
      → IsNumbered (acts c ms).last_trial (acts c ms).telemetry.log
  unfolding acts
  acts-IsNumbered c [] h = h
  acts-IsNumbered c (m ∷ ms) h = acts-IsNumbered (act c m) ms (act-IsNumbered m c h)

  -- In any life of a controller whose publisher starts fresh, with activations, cycles, deactivations
  -- and steps of the drain in any order, in fewer than leave the counters below 2 ^ 64: the topics see
  -- a sequence of trials with rising identifiers, each begun behind the status of the last and ended by
  -- at most one status; and each status accounts for every sample of its trial and says that the
  -- capture is complete only if the topic took all of them.
  pub acts_lem :
      (c : Controller D L) (ms : List (Move D S))
      → IsFresh c.telemetry
      → c.telemetry.capture.write + 2 * length ms < 2 ^ 64
      → let log = (acts c ms).telemetry.log in Alternates log × Rising log × Accurate log
  acts_lem c ms f w =
      let r = acts-Reaches c ms in
      let numbered = acts-IsNumbered c ms (rw f.silent (omega arith, tt)) in
      (
        rw r.reached
            (run-IsOrderly c.telemetry r.events (fresh-IsOrderly c.telemetry f)).alternates,
        numbered.1,
        rw r.reached (run-Accurate c.telemetry r.events f (omega (arith, r.few))),
      )
