-- ===== src/Source/Probe/Shape.antt =====
-- When a line is drift, and which of many reasons is reported.
use pulse_narrator.Prelude.{
  String, true, ◌≡◌, ◌≢◌, ◌⊎◌, ◌↔◌, refl, Option, none, some, arith, eq_iff, inl, inr, Option-cases,
  Bool-cases,
}
use pulse_narrator.Core.Source.{ProbeOutcome}
use pulse_narrator.Source.Probe.{Json, is_role_bearing, is_some_object, probe_line}
use mathlib.Core.Option

is_role_bearing_iff :
    (o : Option String)
    → (is_role_bearing (Option.get_or o "") ≡ true) ↔ ((o ≡ some "user") ⊎ (o ≡ some "assistant"))
unfolding is_role_bearing
is_role_bearing_iff none = (λ h. cc, λ p. ground arith)
is_role_bearing_iff (some s) = (
  λ h. ground (arith, eq_iff s "user", eq_iff s "assistant"),
  λ p. ground (arith, eq_iff s "user", eq_iff s "assistant"),
)

module _ (json : Json) where
  open json use {Value, get, as_str, is_object}

  -- The line says that a user or the assistant speaks.
  abbrev pub HasRole : Value → Type 0
  HasRole v =
      (t : Value) × (get "type" v ≡ some t)
      × ((as_str t ≡ some "user") ⊎ (as_str t ≡ some "assistant"))

  abbrev pub HasMessage : Value → Type 0
  HasMessage v = (m : Value) × (get "message" v ≡ some m) × (is_object m ≡ true)

  is_some_object_iff :
      (o : Option Value)
      → (is_some_object json o ≡ true) ↔ ((m : Value) × (o ≡ some m) × (is_object m ≡ true))
  unfolding is_some_object
  is_some_object_iff none = (λ h. cc, λ p. ground arith)
  is_some_object_iff (some m) = (λ h. (m, refl, h), λ (n, e, h). cc)

  -- A line passes exactly if it has a `type`, and a `message` object where a role is claimed; any
  -- other type, known or not, passes.
  pub probe_line_iff :
      (v : Value)
      → (probe_line json v ≡ ProbeOutcome.ok) ↔ ((get "type" v ≢ none) × (HasRole v → HasMessage v))
  unfolding probe_line
  probe_line_iff v = (
    λ h. (
      λ missing. ground arith,
      λ (t, e, role).
          (is_some_object_iff (get "message" v)).0
            (ground (arith, (is_role_bearing_iff (as_str t)).1 role)),
    ),
    λ (present, fits). elim (Option-cases (get "type" v)) [
      | inl missing ↦ absurd (present missing)
      | inr (t, e) ↦ elim (Bool-cases (is_role_bearing (Option.get_or (as_str t) ""))) [
        | inl role ↦
            let object : is_some_object json (get "message" v) ≡ true =
              (is_some_object_iff (get "message" v)).1
                (fits (t, e, (is_role_bearing_iff (as_str t)).0 role)) in
            ground arith
        | inr other ↦ ground arith
      ]
    ],
  )
