-- ===== src/PlanIndex/Layered.antt =====
-- What the wave layering of lib/plan-merge.mjs guarantees.
use masterplan.Common.{
  true_not_false, ℕ, zero, suc, ◌≡◌, ◌≤◌, ◌<◌, refl, sym, ap, ◌∙◌, inl, inr, Bool, true, false,
  ◌&&◌, List, [], ◌∷◌, map, some, Text, eqb, leb, eqb_iff, length, ==_cases, text_eq_instance,
  any_cases, includes, includes_iff, filter, In, All, All-of_In, arith, Bool-cases, subst,
  length-filter-le, any-true,
}
use masterplan.PlanIndex.Layers.{
  Node, Placed, larger, share_file, wave_of, first_wave, clashes, bump, place_node, place_all,
}

abbrev keys : List Placed → List Text
keys = map (λ (p : Placed). p.node.key)

-- The nodes placed in wave `w` or later.
count_from : ℕ → List Placed → ℕ
count_from w ps = length (filter (λ (p : Placed). leb w p.wave) ps)

count_from-le : (w : ℕ) (ps : List Placed) → count_from (suc w) ps ≤ count_from w ps
unfolding count_from filter
count_from-le w [] = omega arith
count_from-le w (p ∷ ps) = ground (arith, count_from-le w ps)

count_from-lt :
    (w : ℕ) (ps : List Placed) (s : Placed)
    → In s ps
    → s.wave ≡ w
    → count_from (suc w) ps < count_from w ps
unfolding count_from filter
count_from-lt w [] s i e = elim i [ ]
count_from-lt w (p ∷ ps) s (inl q) e =
    let here : p.wave ≡ w = ap (λ (x : Placed). x.wave) (sym q) ∙ e in
    ground (arith, count_from-le w ps)
count_from-lt w (p ∷ ps) s (inr i) e = ground (arith, count_from-lt w ps s i e)

-- A wave after `w` in which nothing clashes.
abbrev IsFree : ℕ → List Text → List Placed → ℕ → Type 0
IsFree w files placed v = (w ≤ v) × (clashes v files placed ≡ false)

clash_In :
    (w : ℕ) (files : List Text) (placed : List Placed)
    → clashes w files placed ≡ true
    → (s : Placed) × In s placed × (s.wave ≡ w)
unfolding clashes
clash_In w files placed h =
    elim (any_cases (λ (s : Placed). eqb s.wave w && share_file s.node.files files) placed) [
      | inl (_, (s, i, q)) ↦ (s, i, left s.wave (share_file s.node.files files) q)
      | inr (f, _) ↦ absurd (true_not_false h f)
    ]
  where
    left : (v : ℕ) (b : Bool) → eqb v w && b ≡ true → v ≡ w
    left v b q = ground arith

bump-IsFree :
    (fuel w : ℕ) (files : List Text) (placed : List Placed)
    → count_from w placed < fuel
    → (v : ℕ) × (bump fuel w files placed ≡ some v) × IsFree w files placed v
unfolding bump
bump-IsFree zero w files placed h = absurd (omega arith)
bump-IsFree (suc n) w files placed h = elim (Bool-cases (clashes w files placed)) [
  | inr f ↦ (w, rw (f, bump) refl, (omega arith, f))
  | inl t ↦
      let (s, i, e) = clash_In w files placed t in
      let less = count_from-lt w placed s i e in
      let (v, q, (le, f)) = bump-IsFree n (suc w) files placed (omega arith) in
      (v, rw (t, bump) q, (omega arith, f))
]

-- Every dependency is placed before wave `w`.
abbrev pub IsAfter : List Placed → List Text → ℕ → Type 0
IsAfter placed deps w =
    (d : Text) → In d deps → (q : Placed) × In q placed × (q.node.key ≡ d) × (q.wave < w)

pub wave_of-In :
    (d : Text) (ps : List Placed)
    → In d (keys ps)
    → (w : ℕ) × (wave_of d ps ≡ some w) × ((q : Placed) × In q ps × (q.node.key ≡ d) × (q.wave ≡ w))
unfolding wave_of
wave_of-In d [] i = elim i [ ]
wave_of-In d (p ∷ ps) i = elim (==_cases p.node.key d) [
  | inl (h, e) ↦ (p.wave, rw (h, wave_of) refl, (p, inl refl, e, refl))
  | inr (h, ne) ↦ elim i [
    | inl q ↦ absurd (ne (sym q))
    | inr j ↦
        let (w, r, (q, k, e, f)) = wave_of-In d ps j in (w, rw (h, wave_of) r, (q, inr k, e, f))
  ]
]

first_wave-IsAfter :
    (placed : List Placed) (deps : List Text)
    → ((d : Text) → In d deps → In d (keys placed))
    → (w : ℕ) × (first_wave placed deps ≡ some w) × IsAfter placed deps w
unfolding first_wave
first_wave-IsAfter placed [] h = (0, refl, λ d i. elim i [ ])
first_wave-IsAfter placed (d ∷ ds) h =
    let (w, r, (q, i, e, f)) = wave_of-In d placed (h d (inl refl)) in
    let (v, r', after) = first_wave-IsAfter placed ds (λ c j. h c (inr j)) in
    (
      larger v (suc w),
      rw (r, first_wave, r') refl,
      λ c. elim [
        | inl s ↦ (q, i, e ∙ sym s, above q.wave v w f)
        | inr j ↦ let (p, k, g, lt) = after c j in (p, k, g, over p.wave v w lt)
      ],
    )
  where
    above : (x v w : ℕ) → x ≡ w → x < larger v (suc w)
    above x v w f = ground arith

    over : (x v w : ℕ) → x < v → x < larger v (suc w)
    over x v w lt = ground arith

-- Two nodes of one wave share no file.
abbrev pub AreDisjoint : Placed → Placed → Type 0
AreDisjoint p s = s.wave ≡ p.wave → (f : Text) → In f s.node.files → ¬ In f p.node.files

abbrev pub AllDisjoint : List Placed → Type 0
AllDisjoint [] = Unit
AllDisjoint (p ∷ ps) = All (AreDisjoint p) ps × AllDisjoint ps

-- No two nodes of one wave share a file, and every node is in a later wave than its dependencies.
pub record IsLayered (ps : List Placed) : Type 0 where
  pub disjoint : AllDisjoint ps
  pub after : (p : Placed) → In p ps → IsAfter ps p.node.deps p.wave

free-AreDisjoint :
    (placed : List Placed) (p : Placed)
    → clashes p.wave p.node.files placed ≡ false
    → All (AreDisjoint p) placed
unfolding clashes share_file
free-AreDisjoint placed p h =
    elim (any_cases (λ (s : Placed). eqb s.wave p.wave && share_file s.node.files p.node.files)
      placed) [
        | inl (t, _) ↦ absurd (true_not_false t h)
        | inr (_, none_clash) ↦ All-of_In (AreDisjoint p) placed (λ s i e f j k.
            true_not_false
              (both ((eqb_iff s.wave p.wave).1 e) (
                any-true (includes s.node.files) p.node.files f k
                  ((includes_iff s.node.files f).1 j)))
              (none_clash s i))
      ]
  where
    both : {a b : Bool} → a ≡ true → b ≡ true → a && b ≡ true
    both x y = ground arith

place_node-lem :
    (placed : List Placed) (n : Node)
    → ((d : Text) → In d n.deps → In d (keys placed))
    → (p : Placed) × (place_node placed n ≡ some p)
      × (p.node ≡ n)
      × IsAfter placed p.node.deps p.wave
      × All (AreDisjoint p) placed
unfolding place_node count_from
place_node-lem placed n h =
    let (w, q, after) = first_wave-IsAfter placed n.deps h in
    let few : count_from w placed < suc (length placed) = fewer w in
    let (v, r, (le, f)) = bump-IsFree (suc (length placed)) w n.files placed few in
    let p : Placed = record { node = n; wave = v } in
    (
      p,
      rw (q, place_node, r) refl,
      refl,
      λ d i. let (s, j, e, lt) = after d i in (s, j, e, omega arith),
      free-AreDisjoint placed p f,
    )
  where
    fewer : (w : ℕ) → count_from w placed < suc (length placed)
    fewer w = omega (arith, length-filter-le (λ (s : Placed). leb w s.wave) placed)

-- The dependencies of each node come before it, or are among `seen`.
abbrev pub IsOrdered : List Text → List Node → Type 0
IsOrdered seen [] = Unit
IsOrdered seen (n ∷ ns) = ((d : Text) → In d n.deps → In d seen) × IsOrdered (n.key ∷ seen) ns

-- The nodes placed before and those of the list are the placed ones.
abbrev HasAll : List Placed → List Node → List Placed → Type 0
HasAll placed ns ps =
    ((p : Placed) → In p placed → In p ps)
    × ((n : Node) → In n ns → (p : Placed) × In p ps × (p.node ≡ n))

place_all-from :
    (placed : List Placed) (ns : List Node)
    → IsOrdered (keys placed) ns
    → IsLayered placed
    → (ps : List Placed) × (place_all placed ns ≡ some ps) × IsLayered ps × HasAll placed ns ps
unfolding place_all
place_all-from placed [] o l = (placed, refl, l, (λ p i. i, λ n i. elim i [ ]))
place_all-from placed (n ∷ ns) o l =
    let (p, q, same, after, disjoint) = place_node-lem placed n o.0 in
    let ordered : IsOrdered (keys (p ∷ placed)) ns =
      subst (λ k. IsOrdered (k ∷ keys placed) ns) (ap (λ (m : Node). m.key) (sym same)) o.1 in
    let layered : IsLayered (p ∷ placed) = record {
      disjoint = (disjoint, l.disjoint);
      after = λ r. elim [
        | inl e ↦
            subst (λ (x : Placed). IsAfter (p ∷ placed) x.node.deps x.wave) (sym e)
              (λ d i. let (s, j, k, lt) = after d i in (s, inr j, k, lt))
        | inr i ↦ λ d j. let (s, k, e, lt) = l.after r i d j in (s, inr k, e, lt)
      ];
    } in
    let (ps, r, result, (kept, added)) = place_all-from (p ∷ placed) ns ordered layered in
    (
      ps,
      rw (q, place_all) r,
      result,
      (
        λ s i. kept s (inr i),
        λ m. elim [ inl e ↦ (p, kept p (inl refl), same ∙ sym e) | inr i ↦ added m i ],
      ),
    )

-- If the dependencies of each node come before it, the layering ends with a wave for every node.
-- Then no two nodes of one wave share a file, and every node is in a later wave than each node that
-- it depends on.
pub place_all-IsLayered :
    (order : List Node)
    → IsOrdered [] order
    → (ps : List Placed) × (place_all [] order ≡ some ps)
      × IsLayered ps
      × ((n : Node) → In n order → (p : Placed) × In p ps × (p.node ≡ n))
place_all-IsLayered order o =
    let (ps, r, l, (_, added)) =
      place_all-from [] order o (record { disjoint = tt; after = λ p i. elim i [ ] }) in
    (ps, r, l, added)
