-- ===== src/Handoff/Encoding.antt =====
-- The handoff key of lib/fabric-idempotency.mjs tells its four parts apart.
use masterplan.Common.{
  true_not_false, ℕ, suc, ◌≡◌, ◌≢◌, refl, sym, ap, ap₂, subst, zero, ◌∙◌, inl, inr, Bool, true,
  false, [], ◌∷◌, ◌++◌, Text, text, eqb, eqb_iff, arith, Bool-cases, if◌then◌else◌, flat_map,
}
use masterplan.Handoff.Keys.{replace_all, encode, is_hex, joined, version}

-- What becomes of one code unit.
escape : ℕ → Text
escape c = if eqb c b'%' then text "%25" else if eqb c b':' then text "%3A" else c ∷ []

abbrev HasNoColon : Text → Type 0
HasNoColon [] = Unit
HasNoColon (c ∷ cs) = (c ≢ b':') × HasNoColon cs

encode-escape : (s : Text) → encode s ≡ flat_map escape s
unfolding encode replace_all flat_map escape
encode-escape [] = refl
encode-escape (c ∷ cs) = elim (Bool-cases (eqb c b'%')) [
  | inl h ↦ rw h (ap (λ zs. text "%25" ++ zs) (encode-escape cs))
  | inr h ↦ rw h (ap (λ zs. (if eqb c b':' then text "%3A" else c ∷ []) ++ zs) (encode-escape cs))
]

cons_inj : {x y : ℕ} {xs ys : Text} → Path Text (x ∷ xs) (y ∷ ys) → (x ≡ y) × (xs ≡ ys)
cons_inj e = (cc, cc)

cancel : (a : Text) {r q : Text} → a ++ r ≡ a ++ q → r ≡ q
cancel [] e = e
cancel (c ∷ a) e = cancel a (cons_inj e).1

split_colon :
    (a b : Text) {r q : Text}
    → HasNoColon a
    → HasNoColon b
    → a ++ b':' ∷ r ≡ b ++ b':' ∷ q
    → (a ≡ b) × (r ≡ q)
split_colon [] [] ha hb e = (refl, (cons_inj e).1)
split_colon [] (c ∷ b) ha hb e = absurd (hb.0 (sym (cons_inj e).0))
split_colon (c ∷ a) [] ha hb e = absurd (ha.0 (cons_inj e).0)
split_colon (c ∷ a) (d ∷ b) ha hb e =
    let (h, tail) = cons_inj e in
    let (p, q) = split_colon a b ha.1 hb.1 tail in (ap₂ (λ x xs. x ∷ xs) h p, q)

escapes-HasNoColon : (s : Text) → HasNoColon (flat_map escape s)
unfolding flat_map escape
escapes-HasNoColon [] = tt
escapes-HasNoColon (c ∷ cs) = elim (Bool-cases (eqb c b'%')) [
  | inl h ↦ rw h (λ e. omega arith, (λ e. omega arith, (λ e. omega arith, escapes-HasNoColon cs)))
  | inr h ↦ elim (Bool-cases (eqb c b':')) [
    | inl k ↦
        rw (h, k) (λ e. omega arith, (λ e. omega arith, (λ e. omega arith, escapes-HasNoColon cs)))
    | inr k ↦ rw (h, k) (λ e. true_not_false ((eqb_iff c b':').1 e) k, escapes-HasNoColon cs)
  ]
]

hex-HasNoColon : (s : Text) → is_hex s ≡ true → HasNoColon s
unfolding is_hex
hex-HasNoColon [] h = tt
hex-HasNoColon (c ∷ cs) h = (λ e. ground arith, hex-HasNoColon cs (ground arith))

-- Reads escapes back; the number is of code units to pass over.
decode : ℕ → Text → Text
decode n [] = []
decode (suc n) (c ∷ cs) = decode n cs
decode zero (c ∷ cs) = elim (eqb c b'%') [
  | true ↦ (if second cs then b'%' else b':') ∷ decode 2 cs
  | false ↦ c ∷ decode zero cs
]
  where
    second : Text → Bool
    second [] = false
    second (d ∷ ds) = eqb d b'2'

decode-escape : (s : Text) → decode zero (flat_map escape s) ≡ s
unfolding decode flat_map escape
decode-escape [] = refl
decode-escape (c ∷ cs) = elim (Bool-cases (eqb c b'%')) [
  | inl h ↦ rw h (ap₂ (λ x xs. x ∷ xs) (sym ((eqb_iff c b'%').0 h)) (decode-escape cs))
  | inr h ↦ elim (Bool-cases (eqb c b':')) [
    | inl k ↦ rw (h, k) (ap₂ (λ x xs. x ∷ xs) (sym ((eqb_iff c b':').0 k)) (decode-escape cs))
    | inr k ↦ rw (h, k) (rw (h, decode) (ap (λ xs. c ∷ xs) (decode-escape cs)))
  ]
]

encode_inj : (s t : Text) → encode s ≡ encode t → s ≡ t
encode_inj s t e =
    sym (decode-escape s)
    ∙ ap (decode zero) (sym (encode-escape s) ∙ e ∙ encode-escape t)
    ∙ decode-escape t

encode-HasNoColon : (s : Text) → HasNoColon (encode s)
encode-HasNoColon s = subst HasNoColon (sym (encode-escape s)) (escapes-HasNoColon s)

pub joined_inj :
    (run task hash print run' task' hash' print' : Text)
    → is_hex hash ≡ true
    → is_hex hash' ≡ true
    → joined run task hash print ≡ joined run' task' hash' print'
    → (run ≡ run') × (task ≡ task') × (hash ≡ hash') × (print ≡ print')
unfolding joined version
joined_inj run task hash print run' task' hash' print' h h' e =
    let rest = (cons_inj (cancel version e)).1 in
    let (a, e1) =
      split_colon (encode run) (encode run') (encode-HasNoColon run) (encode-HasNoColon run')
        rest in
    let (b, e2) =
      split_colon (encode task) (encode task') (encode-HasNoColon task) (encode-HasNoColon task')
        e1 in
    let (c, d) = split_colon hash hash' (hex-HasNoColon hash h) (hex-HasNoColon hash' h') e2 in
    (encode_inj run run' a, encode_inj task task' b, c, d)
