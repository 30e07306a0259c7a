-- ===== src/Engine/Anchor/Numbers.antt =====
-- signature_anchor.py: what `f"{w:g}"` writes, `_ANCHOR_RE` reads back.
use mathlib.Core.Path.{subst}
use frappe_dsc.Base.{
  ℕ, zero, suc, ◌+◌, ◌-◌, ◌*◌, ◌/◌, ◌%◌, ◌<◌, ◌≡◌, refl, sym, ap, ◌∙◌, true, false, Bool-cases, inl,
  inr, some, List, [], ◌∷◌, ◌++◌, Every, ltb, eqb, arith,
}
use frappe_dsc.Base.Queries.{Every-append}
use frappe_dsc.Engine.Anchor.{
  digits, general, ten_to, is_digit, take_digits, value, read_fraction, number_of, read_number,
}

abbrev pub IsDigit : ℕ → Type 0
IsDigit c = is_digit c ≡ true

digits-IsDigit : (k n : ℕ) → Every IsDigit (digits k n)
unfolding digits is_digit
digits-IsDigit zero n = tt
digits-IsDigit (suc k) n = elim (Bool-cases (ltb n 10)) [
  | inl small ↦ rw small (ground arith, tt)
  | inr large ↦
      rw large
        (Every-append IsDigit (digits k (n / 10)) _ (digits-IsDigit k (n / 10)) (ground arith, tt))
]

value-append : (n : ℕ) (xs : List ℕ) (c : ℕ) → value n (xs ++ c ∷ []) ≡ value n xs * 10 + (c - b'0')
unfolding value
value-append n [] c = refl
value-append n (x ∷ xs) c = value-append (n * 10 + (x - b'0')) xs c

value-digits : (k n : ℕ) → n < ten_to k → value 0 (digits k n) ≡ n
unfolding digits ten_to value
value-digits zero n h = omega arith
value-digits (suc k) n h = elim (Bool-cases (ltb n 10)) [
  | inl small ↦ rw small (ground arith)
  | inr large ↦
      rw
        (
          large,
          value-append 0 (digits k (n / 10)) (b'0' + n % 10),
          value-digits k (n / 10) (omega arith),
        )
        (omega arith)
]

take_digits-append :
    (ds rest : List ℕ)
    → Every IsDigit ds
    → take_digits rest ≡ ([], rest)
    → take_digits (ds ++ rest) ≡ (ds, rest)
unfolding take_digits
take_digits-append [] rest all h = h
take_digits-append (c ∷ ds) rest all h = rw (take_digits-append ds rest all.1 h, all.0) refl

-- The whole number before a character that is neither a digit nor a point.
abbrev pub IsStop : ℕ → Type 0
IsStop c = (is_digit c ≡ false) × (eqb c b'.' ≡ false)

digits_cons : (k n : ℕ) → (c : ℕ) × (cs : List ℕ) × (digits (suc k) n ≡ c ∷ cs)
unfolding digits
digits_cons k n = elim (Bool-cases (ltb n 10)) [
  | inl small ↦ (b'0' + n, [], rw small refl)
  | inr large ↦
      let (c, cs, e) = snoc_cons (digits k (n / 10)) (b'0' + n % 10) in (c, cs, rw large e)
]
  where
    snoc_cons : (xs : List ℕ) (x : ℕ) → (c : ℕ) × (cs : List ℕ) × (xs ++ x ∷ [] ≡ c ∷ cs)
    snoc_cons [] x = (x, [], refl)
    snoc_cons (y ∷ ys) x = (y, ys ++ x ∷ [], refl)

read_fraction-stop :
    (ds : List ℕ) (c : ℕ) (rest : List ℕ)
    → IsStop c
    → read_fraction ds (c ∷ rest) ≡ (value 0 ds * 1000, c ∷ rest)
unfolding read_fraction
read_fraction-stop ds c rest stop = rw stop.1 refl

take_digits-stop : (c : ℕ) (rest : List ℕ) → IsStop c → take_digits (c ∷ rest) ≡ ([], c ∷ rest)
unfolding take_digits
take_digits-stop c rest stop = rw stop.0 refl

general-digits : (w : ℕ) → w < 1000000 → general w ≡ digits 6 w
unfolding general
general-digits w h = let small : ltb w 1000000 ≡ true = ground arith in rw small refl

read_number-append :
    (d : ℕ) (ds : List ℕ) (c : ℕ) (rest : List ℕ)
    → Every IsDigit (d ∷ ds)
    → IsStop c
    → read_number ((d ∷ ds) ++ c ∷ rest) ≡ some (value 0 (d ∷ ds) * 1000, c ∷ rest)
unfolding read_number number_of
read_number-append d ds c rest all stop =
    ap number_of (take_digits-append (d ∷ ds) (c ∷ rest) all (take_digits-stop c rest stop))
    ∙ ap some (read_fraction-stop (d ∷ ds) c rest stop)

-- What `general` writes of a number below a million is read as the number.
pub read_number-general :
    (w c : ℕ) (rest : List ℕ)
    → w < 1000000
    → IsStop c
    → read_number (general w ++ c ∷ rest) ≡ some (w * 1000, c ∷ rest)
unfolding ten_to
read_number-general w c rest h stop =
    let (d, ds, e) = digits_cons 5 w in
    ap (λ t. read_number (t ++ c ∷ rest)) (general-digits w h ∙ e)
    ∙ read_number-append d ds c rest (subst (Every IsDigit) e (digits-IsDigit 6 w)) stop
    ∙ ap (λ t. some (value 0 t * 1000, c ∷ rest)) (sym e)
    ∙ ap (λ v. some (v * 1000, c ∷ rest)) (value-digits 6 w h)
