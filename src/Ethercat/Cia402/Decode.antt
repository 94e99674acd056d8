-- ===== src/Ethercat/Cia402/Decode.antt =====
-- The decoding of the state word: which bits it reads, and that its two forms agree.
use zero_force_controller.Common.{
  ℕ, ◌%◌, ◌/◌, ◌↔◌, ◌≡◌, refl, sym, ap, ◌∙◌, Bool, true, false, ◌&&◌, ◌||◌, not, arith, ◌==◌,
  ==_iff,
}
use zero_force_controller.Common.Bits.{holds_below, holds_below_lem, bit_and-mod_128}
use zero_force_controller.Ethercat.Cia402.{
  State, operation_enabled, switch_on_disabled, ready_to_switch_on, switched_on, quick_stop_active,
  fault_reaction_active, fault, not_ready_to_switch_on, unknown, decode_statusword,
  is_operation_enabled,
}

-- Only the seven lowest bits of the state word are read.
decode-mod_128 : (sw : ℕ) → decode_statusword sw ≡ decode_statusword (sw % 128)
unfolding decode_statusword
decode-mod_128 sw = rw (bit_and-mod_128 sw 0x4f refl, bit_and-mod_128 sw 0x6f refl)

enabled-mod_128 : (sw : ℕ) → is_operation_enabled sw ≡ is_operation_enabled (sw % 128)
unfolding is_operation_enabled
enabled-mod_128 sw = rw (bit_and-mod_128 sw 0x6f refl)

abbrev pub enabled_state : State → Bool
enabled_state operation_enabled = true
enabled_state _ = false

abbrev same : Bool → Bool → Bool
same true b = b
same false b = not b

same_eq : (a b : Bool) → same a b ≡ true → a ≡ b
same_eq a b h = ground arith

table :
    holds_below 128 (λ x. same (enabled_state (decode_statusword x)) (is_operation_enabled x))
    ≡ true
unfolding holds_below decode_statusword is_operation_enabled
table = refl

-- The state is Operation Enabled exactly when `IsOperationEnabled` holds.
pub decode-is_operation_enabled :
    (sw : ℕ) → enabled_state (decode_statusword sw) ≡ is_operation_enabled sw
decode-is_operation_enabled sw =
    rw (decode-mod_128 sw, enabled-mod_128 sw)
      (same_eq _ _ (holds_below_lem 128 _ table (sw % 128) (omega arith)))

-- The bit patterns of CiA 402, over bits 0 to 3, 5 and 6 of the state word, whatever the other
-- bits are. No pattern fits an unknown state.
abbrev pub known_pattern : State → ℕ → Bool
known_pattern not_ready_to_switch_on x = (x % 16 == 0) && (x / 64 % 2 == 0)
known_pattern switch_on_disabled x = (x % 16 == 0) && (x / 64 % 2 == 1)
known_pattern ready_to_switch_on x = (x % 16 == 1) && (x / 32 % 4 == 1)
known_pattern switched_on x = (x % 16 == 3) && (x / 32 % 4 == 1)
known_pattern operation_enabled x = (x % 16 == 7) && (x / 32 % 4 == 1)
known_pattern quick_stop_active x = (x % 16 == 7) && (x / 32 % 4 == 0)
known_pattern fault_reaction_active x = (x % 16 == 15) && (x / 64 % 2 == 0)
known_pattern fault x = (x % 16 == 8) && (x / 64 % 2 == 0)
known_pattern unknown x = false

abbrev pub fits_none : ℕ → Bool
fits_none x = not (
    known_pattern not_ready_to_switch_on x
    || known_pattern switch_on_disabled x
    || known_pattern ready_to_switch_on x
    || known_pattern switched_on x
    || known_pattern operation_enabled x
    || known_pattern quick_stop_active x
    || known_pattern fault_reaction_active x
    || known_pattern fault x)

abbrev pub pattern_of : State → ℕ → Bool
pattern_of unknown x = fits_none x
pattern_of s x = known_pattern s x

abbrev index : State → ℕ
index not_ready_to_switch_on = 0
index switch_on_disabled = 1
index ready_to_switch_on = 2
index switched_on = 3
index operation_enabled = 4
index quick_stop_active = 5
index fault_reaction_active = 6
index fault = 7
index unknown = 8

index_inj : (s t : State) → index s ≡ index t → s ≡ t
index_inj s t h = ground arith

agrees : State → ℕ → Bool
agrees s x = same (index (decode_statusword x) == index s) (pattern_of s x)

agrees_below : (s : State) → holds_below 128 (agrees s) ≡ true
unfolding agrees holds_below decode_statusword
agrees_below not_ready_to_switch_on = refl
agrees_below _ = refl

low_digits :
    (x : ℕ)
    → (x % 128 % 16 ≡ x % 16) × (x % 128 / 64 % 2 ≡ x / 64 % 2) × (x % 128 / 32 % 4 ≡ x / 32 % 4)
low_digits x = omega arith

pattern-mod_128 : (s : State) (x : ℕ) → pattern_of s x ≡ pattern_of s (x % 128)
pattern-mod_128 not_ready_to_switch_on x = let (a, b, c) = low_digits x in rw (a, b)
pattern-mod_128 _ x = let (a, b, c) = low_digits x in simp (a, b, c)

decode_iff_at :
    (s : State) (x : ℕ) → agrees s x ≡ true → (decode_statusword x ≡ s) ↔ (pattern_of s x ≡ true)
unfolding agrees
decode_iff_at s x h =
    let e : (index (decode_statusword x) == index s) ≡ pattern_of s x = same_eq _ _ h in
    (λ p. sym e ∙ (==_iff _ _).1 (ap index p), λ p. index_inj _ _ ((==_iff _ _).0 (e ∙ p)))

-- `DecodeStatusword` returns a state exactly when the word has the bit pattern that CiA 402 gives
-- that state, and `Unknown` exactly when it has the pattern of none.
pub decode_iff : (sw : ℕ) (s : State) → (decode_statusword sw ≡ s) ↔ (pattern_of s sw ≡ true)
decode_iff sw s =
    rw (decode-mod_128 sw, pattern-mod_128 s sw)
      (decode_iff_at s (sw % 128)
        (holds_below_lem 128 (agrees s) (agrees_below s) (sw % 128) (omega arith)))
