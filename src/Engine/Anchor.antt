-- ===== src/Engine/Anchor.antt =====
-- signature_anchor.py. Texts are lists of code points. The arguments of the Jinja helper are whole
-- numbers of PDF points, and the digits of a number are the ASCII ones. Lengths that are read back
-- are thousandths of a point, which further digits do not change.
pub mod Numbers
pub mod Locating
use frappe_dsc.Base.{
  ℕ, zero, suc, ◌+◌, ◌-◌, ◌*◌, ◌/◌, ◌%◌, String, Bool, true, false, ◌&&◌, ◌||◌, Option, none, some,
  List, [], ◌∷◌, ◌++◌, codes, eqb, leb, ltb, if◌then◌else◌,
}
use frappe_dsc.Base.Int.{ℤ}
use frappe_dsc.Site.{
  Result, ok, err, Action, pure, raise, try_except, ◌>>◌, Platform, TextLine, log_error,
}

-- What locate_signature_anchor returns, in thousandths of a PDF point.
pub record AnchorBox : Type 0 where
  pub page : ℕ
  pub x : ℤ
  pub top : ℤ
  pub width : ℕ
  pub height : ℕ

-- The digits of a number that has at most `k` of them.
unfoldable pub digits : ℕ → ℕ → List ℕ
digits zero n = []
digits (suc k) n =
    let before = digits k (n / 10) in
    if ltb n 10 then (b'0' + n) ∷ [] else before ++ (b'0' + n % 10) ∷ []

-- The power of ten below a number, by at most `k` steps.
unfoldable pub exponent : ℕ → ℕ → ℕ
exponent zero n = 0
exponent (suc k) n = let e = exponent k (n / 10) in if ltb n 10 then 0 else suc e

unfoldable pub ten_to : ℕ → ℕ
ten_to zero = 1
ten_to (suc e) = 10 * ten_to e

-- The nearest multiple of `q`, divided by it; of two that are as near the even one.
unfoldable pub nearest : ℕ → ℕ → ℕ
nearest n q =
    let m = n / q in
    let over = 2 * (n % q) in if ltb q over || eqb q over && eqb (m % 2) 1 then m + 1 else m

-- The digits without the zeros at the end.
unfoldable pub no_zeros : List ℕ → List ℕ
no_zeros [] = []
no_zeros (c ∷ rest) =
    let more = no_zeros rest in
    elim more [ [] ↦ if eqb c b'0' then [] else c ∷ [] | d ∷ ds ↦ c ∷ d ∷ ds ]

-- `d.ddddde+xx`
unfoldable pub scientific : List ℕ → ℕ → List ℕ
unfolding no_zeros
scientific [] e = []
scientific (c ∷ rest) e =
    let fraction = no_zeros rest in
    let power = codes "e+" ++ (if ltb e 10 then b'0' ∷ digits 1 e else digits 3 e) in
    c ∷ elim fraction [ [] ↦ power | d ∷ ds ↦ b'.' ∷ (d ∷ ds) ++ power ]

-- Six digits, which may round up to the next power of ten.
unfoldable pub six_digits : ℕ → ℕ → List ℕ
unfolding scientific digits
six_digits m e =
    if ltb m 1000000 then scientific (digits 6 m) e else scientific (digits 6 (m / 10)) (e + 1)

-- `f"{w:g}"` for a whole number below 10 ^ 300.
unfoldable pub general : ℕ → List ℕ
unfolding digits exponent ten_to nearest six_digits
general w =
    let e = exponent 300 w in
    if ltb w 1000000 then digits 6 w else six_digits (nearest w (ten_to (e - 5))) e

abbrev pub marker : ℕ → ℕ → List ℕ
marker width height =
    codes "@@DSC_SIG_ANCHOR:" ++ (general width ++ (codes ":" ++ (general height ++ codes "@@")))

abbrev pub dsc_signature_anchor : ℕ → ℕ → List ℕ
dsc_signature_anchor width height =
    codes "<div class=\"dsc-signature-anchor\" style=\"width:"
    ++ general width
    ++ codes "pt;height:"
    ++ general height
    ++ codes "pt;position:relative;overflow:hidden;\">"
    ++ codes "<span style=\"color:transparent;font-size:1pt;line-height:1pt;white-space:nowrap;\">"
    ++ marker width height
    ++ codes "</span></div>"

-- `_ANCHOR_RE`. Behind each `\d+` comes a character that is no digit, so what is longest is the only
-- way to match.
unfoldable pub is_digit : ℕ → Bool
is_digit c = leb b'0' c && leb c b'9'

unfoldable pub take_digits : List ℕ → List ℕ × List ℕ
unfolding is_digit
take_digits [] = ([], [])
take_digits (c ∷ rest) =
    let (ds, behind) = take_digits rest in if is_digit c then (c ∷ ds, behind) else ([], c ∷ rest)

unfoldable pub value : ℕ → List ℕ → ℕ
value n [] = n
value n (c ∷ rest) = value (n * 10 + (c - b'0')) rest

unfoldable pub thousandths : List ℕ → ℕ
unfolding value
thousandths [] = 0
thousandths (a ∷ []) = value 0 (a ∷ b'0' ∷ b'0' ∷ [])
thousandths (a ∷ b ∷ []) = value 0 (a ∷ b ∷ b'0' ∷ [])
thousandths (a ∷ b ∷ c ∷ rest) = value 0 (a ∷ b ∷ c ∷ [])

-- The group `\.\d+` behind the digits of a number, if it is there.
unfoldable pub read_fraction : List ℕ → List ℕ → ℕ × List ℕ
unfolding take_digits value thousandths
read_fraction whole [] = (value 0 whole * 1000, [])
read_fraction whole (c ∷ rest) =
    let (ds, behind) = take_digits rest in
    if eqb c b'.'
    then elim ds [
      | [] ↦ (value 0 whole * 1000, c ∷ rest)
      | d ∷ more ↦ (value 0 whole * 1000 + thousandths (d ∷ more), behind)
    ]
    else (value 0 whole * 1000, c ∷ rest)

unfoldable pub number_of : List ℕ × List ℕ → Option (ℕ × List ℕ)
unfolding read_fraction
number_of ([], behind) = none
number_of (d ∷ more, behind) = some (read_fraction (d ∷ more) behind)

unfoldable pub read_number : List ℕ → Option (ℕ × List ℕ)
unfolding take_digits number_of
read_number s = number_of (take_digits s)

unfoldable pub strip_prefix : List ℕ → List ℕ → Option (List ℕ)
strip_prefix [] s = some s
strip_prefix (p ∷ ps) [] = none
strip_prefix (p ∷ ps) (c ∷ s) = let rest = strip_prefix ps s in if eqb p c then rest else none

unfoldable pub then_read : {A B : Type 0} → Option A → (A → Option B) → Option B
then_read none f = none
then_read (some a) f = f a

unfoldable pub match_anchor : List ℕ → Option (ℕ × ℕ)
unfolding strip_prefix read_number
match_anchor s = then_read (strip_prefix (codes "@@DSC_SIG_ANCHOR:") s) λ s1.
    then_read (read_number s1) λ w. then_read (strip_prefix (codes ":") w.1) λ s3.
      then_read (read_number s3)
        λ h. then_read (strip_prefix (codes "@@") h.1) λ s5. some (w.0, h.0)

-- `_ANCHOR_RE.search`: the first place where the expression matches.
unfoldable pub or_later : Option (ℕ × ℕ) → Option (ℕ × ℕ) → Option (ℕ × ℕ)
or_later (some m) later = some m
or_later none later = later

unfoldable pub search : List ℕ → Option (ℕ × ℕ)
unfolding or_later match_anchor
search [] = none
search (c ∷ s) = or_later (match_anchor (c ∷ s)) (search s)

abbrev pub anchor_of : TextLine → Option (ℕ × ℕ) → Option AnchorBox
anchor_of line none = none
anchor_of line (some (width, height)) =
    some (record { page = line.page; x = line.x0; top = line.y1; width = width; height = height })

unfoldable pub anchor_in : TextLine → Option AnchorBox
unfolding search
anchor_in line = anchor_of line (search (codes line.text))

abbrev pub or_next : Option AnchorBox → Action (Option AnchorBox) → Action (Option AnchorBox)
or_next (some a) next = pure (some a)
or_next none next = next

-- The loops over the pages and their lines, of which pdfminer may raise at each.
unfoldable pub first_anchor : List (Result TextLine) → Action (Option AnchorBox)
unfolding anchor_in
first_anchor [] = pure none
first_anchor (err e ∷ rest) = raise e
first_anchor (ok line ∷ rest) = or_next (anchor_in line) (first_anchor rest)

module _ (P : Platform) where
  -- An error in the scan is logged, and counts as no anchor.
  unfoldable pub locate_signature_anchor : String → Action (Option AnchorBox)
  unfolding first_anchor
  locate_signature_anchor pdf =
      try_except (first_anchor (P.text_lines pdf))
        (λ e. log_error "DSC signature anchor scan failed" >> pure none)
