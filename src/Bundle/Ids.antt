-- ===== src/Bundle/Ids.antt =====
-- Task ids (lib/bundle.mjs). An id is a number or a string; plan.index.json often holds "1" where
-- state.yml holds 1, so the source compares `String(id)` and coerces numeric strings to numbers.
use masterplan.Common.{
  ℕ, zero, suc, ◌+◌, ◌-◌, ◌*◌, ◌/◌, ◌%◌, ◌≡◌, ◌<◌, ◌↔◌, Bool, true, false, ◌&&◌, [], ◌∷◌, Text,
  text_eq, text_eq_iff, Eq, eqb, ltb, leb, if◌then◌else◌, arith, Bool-cases, inl, inr, ap, ◌∙◌,
}

-- `negsuc n` is -(n + 1).
pub data ℤ : Type 0 where
  pos : ℕ → ℤ
  negsuc : ℕ → ℤ

pub data TaskId : Type 0 where
  number : ℤ → TaskId
  named : Text → TaskId

-- `a === b`
unfoldable pub id_eq : TaskId → TaskId → Bool
id_eq (number (pos m)) (number (pos n)) = eqb m n
id_eq (number (negsuc m)) (number (negsuc n)) = eqb m n
id_eq (named s) (named t) = text_eq s t
id_eq _ _ = false

pub id_eq_iff : (a b : TaskId) → (id_eq a b ≡ true) ↔ (a ≡ b)
unfolding id_eq
id_eq_iff (number (pos m)) (number (pos n)) = ground arith
id_eq_iff (number (pos m)) (number (negsuc n)) = ground arith
id_eq_iff (number (negsuc m)) (number (pos n)) = ground arith
id_eq_iff (number (negsuc m)) (number (negsuc n)) = ground arith
id_eq_iff (number m) (named t) = ground arith
id_eq_iff (named s) (number n) = ground arith
id_eq_iff (named s) (named t) = ground (arith, text_eq_iff s t)

instance abbrev pub id_eq_instance : Eq TaskId
id_eq_instance = record { same = id_eq; same_iff = id_eq_iff }

-- The decimal digits of `n` before `acc`, on fuel.
digits : ℕ → ℕ → Text → Text
digits zero n acc = acc
digits (suc fuel) n acc =
    let rest = digits fuel (n / 10) ((48 + n % 10) ∷ acc) in
    if ltb n 10 then (48 + n % 10) ∷ acc else rest

-- `n` has at most `n + 1` digits, so the fuel suffices (`read_digits-digits`).
unfoldable pub show_nat : ℕ → Text
unfolding digits
show_nat n = digits (suc n) n []

unfoldable pub show_int : ℤ → Text
unfolding show_nat
show_int (pos n) = show_nat n
show_int (negsuc n) = b'-' ∷ show_nat (suc n)

-- `String(id)`
unfoldable pub key : TaskId → Text
unfolding show_int
key (number z) = show_int z
key (named t) = t

unfoldable pub is_digit : ℕ → Bool
is_digit c = leb b'0' c && leb c b'9'

unfoldable pub all_digits : Text → Bool
all_digits [] = true
all_digits (c ∷ cs) = is_digit c && all_digits cs

-- `/^\d+$/` and `/^-?\d+$/`
unfoldable pub some_digits : Text → Bool
some_digits [] = false
some_digits (c ∷ cs) = all_digits (c ∷ cs)

is_integer_text : Text → Bool
is_integer_text [] = false
is_integer_text (c ∷ cs) = if eqb c b'-' then some_digits cs else some_digits (c ∷ cs)

unfoldable pub read_digits : ℕ → Text → ℕ
read_digits acc [] = acc
read_digits acc (c ∷ cs) = read_digits (acc * 10 + (c - 48)) cs

-- The negative of a number; -0 is 0.
negate : ℕ → ℤ
negate zero = pos zero
negate (suc n) = negsuc n

-- `Number(s)` of an integer text.
read_int : Text → ℤ
read_int [] = pos 0
read_int (c ∷ cs) = if eqb c b'-' then negate (read_digits 0 cs) else pos (read_digits 0 (c ∷ cs))

-- `/^-?\d+$/.test(String(rawId)) ? Number(rawId) : rawId`, on integers that keep all their digits.
unfoldable pub coerce_id : TaskId → TaskId
unfolding is_integer_text some_digits all_digits is_digit read_int read_digits negate
coerce_id (number z) = number z
coerce_id (named t) = if is_integer_text t then number (read_int t) else named t

some_digits-digits :
    (fuel n d : ℕ) (acc : Text)
    → all_digits (d ∷ acc) ≡ true
    → some_digits (digits fuel n (d ∷ acc)) ≡ true
unfolding digits some_digits all_digits is_digit
some_digits-digits zero n d acc h = h
some_digits-digits (suc fuel) n d acc h =
    ground (arith, some_digits-digits fuel (n / 10) (48 + n % 10) (d ∷ acc))

some_digits-show_nat : (n : ℕ) → some_digits (show_nat n) ≡ true
unfolding show_nat some_digits all_digits is_digit
some_digits-show_nat n = ground (arith, some_digits-digits n (n / 10) (48 + n % 10) [])

read_digits-digits :
    (fuel n : ℕ) (acc : Text) → n < fuel → read_digits 0 (digits fuel n acc) ≡ read_digits n acc
unfolding digits read_digits
read_digits-digits zero n acc h = elim h [ ]
read_digits-digits (suc fuel) n acc h = elim (Bool-cases (ltb n 10)) [
  | inl small ↦ rw small (ap (λ k. read_digits k acc) (ground arith))
  | inr large ↦ rw large (
      read_digits-digits fuel (n / 10) ((48 + n % 10) ∷ acc) (ground arith)
      ∙ ap (λ k. read_digits k acc) (ground arith))
]

read_digits-show_nat : (n : ℕ) → read_digits 0 (show_nat n) ≡ n
unfolding show_nat read_digits
read_digits-show_nat n = read_digits-digits (suc n) n [] (omega arith)

coerce_id-digits :
    (t : Text) → some_digits t ≡ true → coerce_id (named t) ≡ number (pos (read_digits 0 t))
unfolding coerce_id
coerce_id-digits [] h = cc
coerce_id-digits (c ∷ cs) h = ground arith

coerce_id-minus :
    (t : Text)
    → some_digits t ≡ true
    → coerce_id (named (b'-' ∷ t)) ≡ number (negate (read_digits 0 t))
unfolding coerce_id
coerce_id-minus t h = ground arith

-- A number's text is coerced back to the number, so that "1" in plan.index.json and 1 in state.yml
-- are one id.
coerce_id-key : (z : ℤ) → coerce_id (named (key (number z))) ≡ number z
unfolding key negate
coerce_id-key (pos n) =
    coerce_id-digits (show_nat n) (some_digits-show_nat n)
    ∙ ap (λ k. number (pos k)) (read_digits-show_nat n)
coerce_id-key (negsuc n) =
    coerce_id-minus (show_nat (suc n)) (some_digits-show_nat (suc n))
    ∙ ap (λ k. number (negate k)) (read_digits-show_nat (suc n))

-- Two numbers with one text are one number.
pub key-number_inj : (y z : ℤ) → key (number y) ≡ key (number z) → y ≡ z
key-number_inj y z h = cc (coerce_id-key y, coerce_id-key z)
