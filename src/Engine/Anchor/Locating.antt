-- ===== src/Engine/Anchor/Locating.antt =====
-- signature_anchor.py and signing_engine.py: a marker in the PDF is where the signature goes.
use mathlib.Core.List.{append_assoc}
use frappe_dsc.Base.{
  ℕ, ◌*◌, ◌<◌, String, ◌≡◌, refl, ap, ◌∙◌, false, Option, none, some, List, [], ◌∷◌, ◌++◌, map,
  codes, Every, eqb, arith,
}
use frappe_dsc.Base.Int.{pos, ◌+ℤ◌, ◌-ℤ◌}
use frappe_dsc.Site.{Site, Result, ok, Platform, TextLine, SignatureTemplate}
use frappe_dsc.Engine.Anchor.{
  AnchorBox, general, marker, strip_prefix, read_number, then_read, match_anchor, search, anchor_in,
  first_anchor, locate_signature_anchor, is_digit, or_later, anchor_of, or_next,
}
use frappe_dsc.Engine.Anchor.Numbers.{IsStop, read_number-general}
use frappe_dsc.Engine.Placing.{signature_spot}

strip_prefix-append : (p s : List ℕ) → strip_prefix p (p ++ s) ≡ some s
unfolding strip_prefix
strip_prefix-append [] s = refl
strip_prefix-append (c ∷ p) s = ground (arith, strip_prefix-append p s)

read_on :
    {A B : Type 0} {o : Option A} {a : A} (f : A → Option B) {b : B}
    → o ≡ some a
    → f a ≡ some b
    → then_read o f ≡ some b
unfolding then_read
read_on f e h = ap (λ x. then_read x f) e ∙ h

-- What stands behind the first number.
abbrev behind : ℕ → List ℕ → List ℕ
behind height rest = codes ":" ++ (general height ++ (codes "@@" ++ rest))

colon_stops : IsStop b':'
unfolding is_digit
colon_stops = (refl, refl)

at_stops : IsStop b'@'
unfolding is_digit
at_stops = (refl, refl)

reads_width :
    (width height : ℕ) (rest : List ℕ)
    → width < 1000000
    → read_number (general width ++ behind height rest) ≡ some (width * 1000, behind height rest)
reads_width width height rest h =
    read_number-general width b':' (general height ++ (codes "@@" ++ rest)) h colon_stops

reads_height :
    (height : ℕ) (rest : List ℕ)
    → height < 1000000
    → read_number (general height ++ (codes "@@" ++ rest))
      ≡ some (height * 1000, codes "@@" ++ rest)
reads_height height rest h = read_number-general height b'@' (b'@' ∷ rest) h at_stops

match_anchor-reads :
    (width height : ℕ) (rest : List ℕ)
    → width < 1000000
    → height < 1000000
    → match_anchor (codes "@@DSC_SIG_ANCHOR:" ++ (general width ++ behind height rest))
      ≡ some (width * 1000, height * 1000)
unfolding match_anchor
match_anchor-reads width height rest hw hh =
    read_on _
      (strip_prefix-append (codes "@@DSC_SIG_ANCHOR:") (general width ++ behind height rest))
      (read_on _ (reads_width width height rest hw) (
        read_on _ (strip_prefix-append (codes ":") (general height ++ (codes "@@" ++ rest))) (
          read_on _ (reads_height height rest hh)
            (read_on _ (strip_prefix-append (codes "@@") rest) refl))))

marker-append :
    (width height : ℕ) (rest : List ℕ)
    → marker width height ++ rest
      ≡ codes "@@DSC_SIG_ANCHOR:" ++ (general width ++ behind height rest)
marker-append width height rest =
    ap (λ z. codes "@@DSC_SIG_ANCHOR:" ++ z)
      (append_assoc (general width) (codes ":" ++ (general height ++ codes "@@")) rest
        ∙ ap (λ z. general width ++ (codes ":" ++ z))
            (append_assoc (general height) (codes "@@") rest))

-- Before the marker there is no `@`.
abbrev pub IsPlain : ℕ → Type 0
IsPlain c = eqb b'@' c ≡ false

no_match : (c : ℕ) (s : List ℕ) → IsPlain c → match_anchor (c ∷ s) ≡ none
unfolding match_anchor strip_prefix then_read
no_match c s plain = rw plain refl

search-plain : (plain s : List ℕ) → Every IsPlain plain → search (plain ++ s) ≡ search s
unfolding search
search-plain [] s all = refl
search-plain (c ∷ plain) s all =
    ap (λ m. or_later m (search (plain ++ s))) (no_match c (plain ++ s) all.0)
    ∙ search-plain plain s all.1

search-match :
    (c : ℕ) (s : List ℕ) {m : ℕ × ℕ} → match_anchor (c ∷ s) ≡ some m → search (c ∷ s) ≡ some m
unfolding search
search-match c s h = ap (λ m. or_later m (search s)) h

search-marker :
    (width height : ℕ) (plain rest : List ℕ)
    → width < 1000000
    → height < 1000000
    → Every IsPlain plain
    → search (plain ++ (marker width height ++ rest)) ≡ some (width * 1000, height * 1000)
search-marker width height plain rest hw hh all =
    search-plain plain (marker width height ++ rest) all
    ∙ ap search (marker-append width height rest)
    ∙ search-match b'@' (codes "@DSC_SIG_ANCHOR:" ++ (general width ++ behind height rest))
        (match_anchor-reads width height rest hw hh)

-- A line without a marker.
abbrev pub IsUnmarked : TextLine → Type 0
IsUnmarked line = search (codes line.text) ≡ none

abbrev anchor_at : TextLine → ℕ → ℕ → AnchorBox
anchor_at line width height = record {
  page = line.page;
  x = line.x0;
  top = line.y1;
  width = width * 1000;
  height = height * 1000;
}

anchor_in-unmarked : (line : TextLine) → IsUnmarked line → anchor_in line ≡ none
unfolding anchor_in
anchor_in-unmarked line h = ap (anchor_of line) h

anchor_in-marked :
    (line : TextLine) (width height : ℕ)
    → search (codes line.text) ≡ some (width * 1000, height * 1000)
    → anchor_in line ≡ some (anchor_at line width height)
unfolding anchor_in
anchor_in-marked line width height h = ap (anchor_of line) h

first_anchor-finds :
    (above : List TextLine) (line : TextLine) (below : List (Result TextLine)) {a : AnchorBox}
    (s : Site)
    → Every IsUnmarked above
    → anchor_in line ≡ some a
    → first_anchor (map ok above ++ (ok line ∷ below)) s ≡ (ok (some a), s)
unfolding first_anchor
first_anchor-finds [] line below s all h = ap (λ o. or_next o (first_anchor below) s) h
first_anchor-finds (l ∷ above) line below s all h =
    ap (λ o. or_next o (first_anchor (map ok above ++ (ok line ∷ below))) s)
      (anchor_in-unmarked l all.0)
    ∙ first_anchor-finds above line below s all.1 h

module _ (P : Platform) (pdf : String) (template : SignatureTemplate) (s : Site) where
  -- The signature goes where the print format wants it: if the first line of the PDF with a marker
  -- shows, behind a text without `@`, the marker that `dsc_signature_anchor` puts for a width and a
  -- height in whole points below a million, then the box has that width and height to the point, its
  -- upper left corner is that of the line, and it is on the line's page, whatever the template says
  -- and whatever pdfminer raises further down.
  pub anchor_places :
      (above : List TextLine) (line : TextLine) (below : List (Result TextLine)) (width height : ℕ)
      (plain rest : List ℕ)
      → width < 1000000
      → height < 1000000
      → P.text_lines pdf ≡ map ok above ++ (ok line ∷ below)
      → Every IsUnmarked above
      → codes line.text ≡ plain ++ (marker width height ++ rest)
      → Every IsPlain plain
      → signature_spot P pdf none template s ≡ (
        ok (record {
          page = pos line.page;
          box = some (record {
            left = line.x0;
            bottom = line.y1 -ℤ pos (height * 1000);
            right = line.x0 +ℤ pos (width * 1000);
            top = line.y1;
          });
        }),
        s,
      )
  unfolding signature_spot locate_signature_anchor
  anchor_places above line below width height plain rest hw hh lines unmarked marked all =
      let found =
        ap (λ l. first_anchor l s) lines
        ∙ first_anchor-finds above line below s unmarked (
            anchor_in-marked line width height
              (ap search marked ∙ search-marker width height plain rest hw hh all)) in
      rw found refl
