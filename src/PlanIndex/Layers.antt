-- ===== src/PlanIndex/Layers.antt =====
-- The wave layering of `mergePlanFragments` of lib/plan-merge.mjs (step 3), over nodes in any order in
-- which dependencies come first. The list of placed nodes has the newest first.
use masterplan.Common.{
  ℕ, zero, suc, Bool, ◌&&◌, List, [], ◌∷◌, Option, none, some, Text, eqb, ltb, length,
  if◌then◌else◌, ◌==◌, text_eq_instance, any, includes,
}
use masterplan.PlanIndex.Validation.{CodexValue}

pub record Node : Type 0 where
  pub id : ℕ
  pub key : Text
  pub description : Text
  pub files : List Text
  pub verify_commands : List Text
  pub codex : CodexValue
  pub deps : List Text
  pub sensitive : Bool
  pub conversational : Bool
  pub spec_refs : Option (List Text)

pub record Placed : Type 0 where
  pub node : Node
  pub wave : ℕ

abbrev pub larger : ℕ → ℕ → ℕ
larger a b = if ltb a b then b else a

-- The early return for an empty list changes nothing.
unfoldable pub share_file : List Text → List Text → Bool
share_file a b = any (includes a) b

-- `byKey.get(d).wave`
unfoldable pub wave_of : Text → List Placed → Option ℕ
wave_of d [] = none
wave_of d (p ∷ ps) = let rest = wave_of d ps in if p.node.key == d then some p.wave else rest

-- The first wave after all dependencies; `none` where one is not placed.
unfoldable pub first_wave : List Placed → List Text → Option ℕ
unfolding wave_of
first_wave placed [] = some 0
first_wave placed (d ∷ ds) = elim (wave_of d placed) [
  | none ↦ none
  | some w ↦ elim (first_wave placed ds) [ none ↦ none | some v ↦ some (larger v (suc w)) ]
]

unfoldable pub clashes : ℕ → List Text → List Placed → Bool
unfolding share_file
clashes w files placed = any (λ (s : Placed). eqb s.wave w && share_file s.node.files files) placed

-- The bumping loop on fuel.
unfoldable pub bump : ℕ → ℕ → List Text → List Placed → Option ℕ
unfolding clashes
bump zero w files placed = none
bump (suc n) w files placed =
    let rest = bump n (suc w) files placed in if clashes w files placed then rest else some w

-- There are no more clashes than nodes placed.
unfoldable pub place_node : List Placed → Node → Option Placed
unfolding first_wave bump
place_node placed n = elim (first_wave placed n.deps) [
  | none ↦ none
  | some w ↦ elim (bump (suc (length placed)) w n.files placed) [
    | none ↦ none
    | some v ↦ some (record { node = n; wave = v })
  ]
]

unfoldable pub place_all : List Placed → List Node → Option (List Placed)
unfolding place_node
place_all placed [] = some placed
place_all placed (n ∷ ns) = elim (place_node placed n) [
  | none ↦ none
  | some p ↦ place_all (p ∷ placed) ns
]
