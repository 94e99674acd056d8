-- ===== src/Hardware/Declared.antt =====
-- The descriptions that `on_init` accepts.
use Prim.Native.String.{String, ◌++◌ as str_append}
use text.Mathlib.Text.{◌==◌ as str_eq}
use text.Mathlib.TextEquality.{eq_iff}
use mathlib.Core.List.{Perm, append-nil, append_assoc}
use mathlib.Core.List.Perm
use zero_force_controller.Common.{
  ℕ, ◌+◌, ◌≡◌, refl, sym, ap, ◌∙◌, Bool, true, false, ◌&&◌, Option, none, some, List, [], ◌∷◌, ◌++◌,
  arith, Bool-cases, Option-cases, inl, inr,
}
use zero_force_controller.Hardware.Init.{
  Component, HardwareInfo, interfaces, claim, check_states, check_commands, check, check_all,
  all_found, complete, nothing_found, command_name,
}

-- the interfaces that are not yet found
abbrev remaining : List (String × String) → List Bool → List (String × String)
remaining [] fs = []
remaining (i ∷ is) [] = []
remaining (i ∷ is) (true ∷ fs) = remaining is fs
remaining (i ∷ is) (false ∷ fs) = i ∷ remaining is fs

keep_front :
    (i a : String × String) (f : Bool) (is : List (String × String)) (fs gs : List Bool)
    → Perm (remaining is fs) (a ∷ remaining is gs)
    → Perm (remaining (i ∷ is) (f ∷ fs)) (a ∷ remaining (i ∷ is) (f ∷ gs))
keep_front i a true is fs gs p = p
keep_front i a false is fs gs p = Perm.trans (Perm.cons i p) (Perm.swap a i (remaining is gs))

-- A claim takes its interface out of those that remain.
claim_lem :
    (is : List (String × String)) (fs gs : List Bool) (r n : String)
    → claim is fs r n ≡ some gs
    → Perm (remaining is fs) ((r, n) ∷ remaining is gs)
unfolding claim
claim_lem [] fs gs r n h = cc
claim_lem (i ∷ is) [] gs r n h = cc
claim_lem ((a, b) ∷ is) (true ∷ fs) gs r n h = elim (Option-cases (claim is fs r n)) [
  | inl e ↦ let bad : ⊥ = ground arith in absurd bad
  | inr (ks, e) ↦
      let same : gs ≡ true ∷ ks = ground arith in
      rw same (keep_front (a, b) (r, n) true is fs ks (claim_lem is fs ks r n e))
]
claim_lem ((a, b) ∷ is) (false ∷ fs) gs r n h = elim (Bool-cases (str_eq r a && str_eq n b)) [
  | inl hit ↦
      let (found, at, named) : (gs ≡ true ∷ fs) × (r ≡ a) × (n ≡ b) =
        ground (arith, eq_iff r a, eq_iff n b) in
      rw (found, at, named) (Perm.refl _)
  | inr miss ↦ elim (Option-cases (claim is fs r n)) [
    | inl e ↦ let bad : ⊥ = ground arith in absurd bad
    | inr (ks, e) ↦
        let same : gs ≡ false ∷ ks = ground arith in
        rw same (keep_front (a, b) (r, n) false is fs ks (claim_lem is fs ks r n e))
  ]
]

-- the state interfaces of a description, in its order
abbrev pub named : String → List String → List (String × String)
named r [] = []
named r (n ∷ ns) = (r, n) ∷ named r ns

abbrev pub declared : List Component → List (String × String)
declared [] = []
declared (c ∷ cs) = named c.name c.state_interfaces ++ declared cs

check_states_lem :
    (fs gs : List Bool) (r : String) (ns : List String)
    → check_states fs r ns ≡ some gs
    → Perm (remaining interfaces fs) (named r ns ++ remaining interfaces gs)
unfolding check_states
check_states_lem fs gs r [] h = let same : fs ≡ gs = ground arith in rw same (Perm.refl _)
check_states_lem fs gs r (n ∷ ns) h = elim (Option-cases (claim interfaces fs r n)) [
  | inl e ↦ let bad : ⊥ = ground arith in absurd bad
  | inr (ks, e) ↦
      let h' : check_states ks r ns ≡ some gs = ground arith in
      Perm.trans (claim_lem interfaces fs ks r n e)
        (Perm.cons (r, n) (check_states_lem ks gs r ns h'))
]

-- the full names of the command interfaces
abbrev pub full_names : String → List String → List String
full_names r [] = []
full_names r (n ∷ ns) = str_append (str_append r "/") n ∷ full_names r ns

abbrev pub commanded : List Component → List String
commanded [] = []
commanded (c ∷ cs) = full_names c.name c.command_interfaces ++ commanded cs

-- From `k` commands to `m`: none, or the one that is allowed.
data Counted (k m : ℕ) (names : List String) : Type 0 where
  none_more : names ≡ [] → m ≡ k → Counted k m names
  the_one : names ≡ command_name ∷ [] → k ≡ 0 → m ≡ 1 → Counted k m names

Counted-append :
    (k m n : ℕ) (xs ys : List String) → Counted k m xs → Counted m n ys → Counted k n (xs ++ ys)
Counted-append k m n xs ys (none_more e p) (none_more f q) = none_more (rw (e, f)) (q ∙ p)
Counted-append k m n xs ys (none_more e p) (the_one f q r) = the_one (rw (e, f)) (sym p ∙ q) r
Counted-append k m n xs ys (the_one e p q) (none_more f r) = the_one (rw (e, f)) p (r ∙ q)
Counted-append k m n xs ys (the_one e p q) (the_one f r s) = absurd (omega arith)

check_commands_lem :
    (k m : ℕ) (r : String) (ns : List String)
    → check_commands k r ns ≡ some m
    → Counted k m (full_names r ns)
unfolding check_commands
check_commands_lem k m r [] h = none_more refl (ground arith)
check_commands_lem k m r (n ∷ ns) h =
    let full = str_append (str_append r "/") n in
    let (more, first, is_command) : (check_commands (k + 1) r ns ≡ some m)
        × (k ≡ 0)
        × (full ≡ command_name) =
      ground (arith, eq_iff full command_name) in
    let rest = check_commands_lem (k + 1) m r ns more in
    Counted-append k (k + 1) m (full ∷ []) (full_names r ns)
      (the_one (ap (λ f. f ∷ []) is_command) first (omega arith)) rest

check_lem :
    (fs gs : List Bool) (k m : ℕ) (cs : List Component)
    → check fs k cs ≡ some (gs, m)
    → Perm (remaining interfaces fs) (declared cs ++ remaining interfaces gs)
      × Counted k m (commanded cs)
unfolding check
check_lem fs gs k m [] h =
    let (same, count) : (fs ≡ gs) × (m ≡ k) = ground arith in
    (rw same (Perm.refl _), none_more refl count)
check_lem fs gs k m (c ∷ cs) h = elim (Option-cases (check_states fs c.name c.state_interfaces)) [
  | inl e ↦ let bad : ⊥ = ground arith in absurd bad
  | inr (ks, e) ↦ elim (Option-cases (check_commands k c.name c.command_interfaces)) [
    | inl e' ↦ let bad : ⊥ = ground arith in absurd bad
    | inr (j, e') ↦
        let h' : check ks j cs ≡ some (gs, m) = ground arith in
        let (p, n) = check_lem ks gs j m cs h' in
        let q = check_states_lem fs ks c.name c.state_interfaces e in
        let names = named c.name c.state_interfaces in
        (
          rw (append_assoc names (declared cs) (remaining interfaces gs))
              (Perm.trans q (Perm.append_left names p)),
          Counted-append k j m _ _ (check_commands_lem k j c.name c.command_interfaces e') n,
        )
  ]
]

check-append :
    (fs : List Bool) (k : ℕ) (cs bs : List Component)
    → check fs k (cs ++ bs) ≡ (elim (check fs k cs) as (λ _. Option (List Bool × ℕ)) [
      | none ↦ none
      | some (f, c) ↦ check f c bs
    ])
unfolding check
check-append fs k [] bs = refl
check-append fs k (c ∷ cs) bs = elim (Option-cases (check_states fs c.name c.state_interfaces)) [
  | inl e ↦ ground arith
  | inr (ks, e) ↦ elim (Option-cases (check_commands k c.name c.command_interfaces)) [
    | inl e' ↦ ground arith
    | inr (j, e') ↦ ground (arith, check-append ks j cs bs)
  ]
]

none_remain :
    (is : List (String × String)) (gs : List Bool) → all_found gs ≡ true → remaining is gs ≡ []
none_remain [] gs h = refl
none_remain (i ∷ is) [] h = refl
none_remain (i ∷ is) (true ∷ gs) h = none_remain is gs h
none_remain (i ∷ is) (false ∷ gs) h = cc

abbrev pub resources : HardwareInfo → List Component
resources info = info.joints ++ (info.sensors ++ info.gpios)

only_one : (m : ℕ) (names : List String) → m ≡ 1 → Counted 0 m names → names ≡ command_name ∷ []
only_one m names one (none_more e p) = absurd (omega arith)
only_one m names one (the_one e p q) = e

pub complete_lem :
    (cs : List Component)
    → complete (check nothing_found 0 cs) ≡ true
    → Perm interfaces (declared cs) × (commanded cs ≡ command_name ∷ [])
complete_lem cs h = elim (Option-cases (check nothing_found 0 cs)) [
  | inl e ↦ let bad : ⊥ = ground arith in absurd bad
  | inr ((gs, m), e) ↦
      let (one, all) : (m ≡ 1) × (all_found gs ≡ true) = ground arith in
      let (p, n) = check_lem nothing_found gs 0 m cs e in
      let left = none_remain interfaces gs all in
      let q = rw (left, append-nil (declared cs)) at p in (q, only_one m (commanded cs) one n)
]

pub check_all_lem :
    (info : HardwareInfo) → check_all info ≡ complete (check nothing_found 0 (resources info))
unfolding check_all
check_all_lem info =
    let later = info.sensors ++ info.gpios in
    elim (Option-cases (check nothing_found 0 info.joints)) [
      | inl e ↦ ground (arith, check-append nothing_found 0 info.joints later)
      | inr ((f, c), e) ↦ ground (
        arith,
        check-append nothing_found 0 info.joints later,
        check-append f c info.sensors info.gpios,
      )
    ]
