-- ===== src/Harness/Tools/Paths.antt =====
-- `reject_escape` of crates/rollout-harness-tool/src/sandbox/capfs.rs, over the components of a Unix
-- path. A path is its bytes.
use rollout.Prelude.{
  ℕ, ◌==◌, ◌≡◌, ◌↔◌, refl, Bool, true, false, ◌||◌, List, [], ◌∷◌, ◌++◌, if◌then◌else◌, All,
  bytes_eq, codes, Bool-cases, bytes_eq→eq, inl, inr,
}
use rollout.Core.Ids.{Bytes}
use rollout.Core.Errors.{Result, ok, err, fatal, config_invalid}

pub data Component : Type 0 where
  root_dir : Component
  cur_dir : Component
  parent_dir : Component
  normal : Bytes → Component

abbrev onto_first : ℕ → List Bytes → List Bytes
onto_first b [] = (b ∷ []) ∷ []
onto_first b (segment ∷ more) = (b ∷ segment) ∷ more

-- What stands between the slashes.
abbrev pub segments : Bytes → List Bytes
segments [] = [] ∷ []
segments (b ∷ bs) = if b == 47 then [] ∷ segments bs else onto_first b (segments bs)

abbrev pub is_absolute : Bytes → Bool
is_absolute [] = false
is_absolute (b ∷ bs) = b == 47

abbrev pub is_parent : Bytes → Bool
is_parent segment = bytes_eq segment (codes "..")

-- A dot and an empty segment are no component.
abbrev pub component : Bytes → List Component
component segment =
    if is_parent segment
    then parent_dir ∷ []
    else if bytes_eq segment (codes ".") || bytes_eq segment []
    then []
    else normal segment ∷ []

abbrev pub components_of : List Bytes → List Component
components_of [] = []
components_of (segment ∷ more) = component segment ++ components_of more

-- But for a dot at the very start.
abbrev pub first_components : List Bytes → List Component
first_components [] = []
first_components (segment ∷ more) =
    (if bytes_eq segment (codes ".") then cur_dir ∷ [] else component segment) ++ components_of more

abbrev pub components : Bytes → List Component
components path =
    if is_absolute path
    then root_dir ∷ components_of (segments path)
    else first_components (segments path)

abbrev pub escapes : List Component → Bool
escapes [] = false
escapes (root_dir ∷ more) = true
escapes (parent_dir ∷ more) = true
escapes (cur_dir ∷ more) = escapes more
escapes (normal segment ∷ more) = escapes more

unfoldable pub reject_escape : Bytes → Result (Unit {0})
reject_escape path =
    if is_absolute path
    then err (fatal (config_invalid "absolute path rejected: "))
    else if escapes (components path)
    then err (fatal (config_invalid "path escape rejected: "))
    else ok tt

-- A path that stays below the directory that it is taken from.
abbrev pub IsInside : Bytes → Type 0
IsInside path =
    (is_absolute path ≡ false) × All (λ segment. is_parent segment ≡ false) (segments path)

escapes-component :
    (segment : Bytes) (more : List Component)
    → is_parent segment ≡ false
    → escapes (component segment ++ more) ≡ escapes more
escapes-component segment more h =
    elim (Bool-cases (bytes_eq segment (codes ".") || bytes_eq segment [])) [
      | inl e ↦ rw (h, e) refl
      | inr e ↦ rw (h, e) refl
    ]

component-escapes :
    (segment : Bytes) (more : List Component)
    → is_parent segment ≡ true
    → escapes (component segment ++ more) ≡ true
component-escapes segment more h = rw h refl

abbrev Down : List Bytes → Type 0
Down parts = All (λ segment. is_parent segment ≡ false) parts

components_of_iff : (parts : List Bytes) → (escapes (components_of parts) ≡ false) ↔ Down parts
components_of_iff [] = (λ h. tt, λ h. refl)
components_of_iff (segment ∷ more) = elim (Bool-cases (is_parent segment)) [
  | inl up ↦
      let out : _ = component-escapes segment (components_of more) up in
      (λ h. absurd (cc (h, out)), λ h. absurd (cc (up, h.0)))
  | inr down ↦
      rw (escapes-component segment (components_of more) down)
        (λ h. (down, (components_of_iff more).0 h), λ h. (components_of_iff more).1 h.1)
]

first_components_iff :
    (parts : List Bytes) → (escapes (first_components parts) ≡ false) ↔ Down parts
first_components_iff [] = (λ h. tt, λ h. refl)
first_components_iff (segment ∷ more) = elim (Bool-cases (bytes_eq segment (codes "."))) [
  | inr other ↦ rw other (rw other at (components_of_iff (segment ∷ more)))
  | inl dot ↦
      let down : is_parent segment ≡ false = rw (bytes_eq→eq segment (codes ".") dot) refl in
      rw dot (λ h. (down, (components_of_iff more).0 h), λ h. (components_of_iff more).1 h.1)
]

-- Accepted are just the paths that stay inside.
pub reject_escape_iff : (path : Bytes) → (reject_escape path ≡ ok tt) ↔ IsInside path
unfolding reject_escape
reject_escape_iff path = elim (Bool-cases (is_absolute path)) [
  | inl abs ↦ (λ h. absurd (cc (rw abs at h)), λ h. absurd (cc (abs, h.0)))
  | inr rel ↦ elim (Bool-cases (escapes (first_components (segments path)))) [
    | inl out ↦ (
      λ h. absurd (cc (rw (rel, out) at h)),
      λ h. absurd (cc (out, (first_components_iff (segments path)).1 h.1)),
    )
    | inr in_root ↦
        (λ h. (rel, (first_components_iff (segments path)).0 in_root), λ h. rw (rel, in_root) refl)
  ]
]
