-- ===== src/Tests/Placing.antt =====
-- A PDF with a marker on the sample site.
use frappe_dsc.Base.{◌≡◌, refl, ◌*◌, none, some, [], ◌∷◌, codes, arith}
use frappe_dsc.Base.Int.{pos, ◌+ℤ◌, ◌-ℤ◌}
use frappe_dsc.Site.{Error, ok, err, Platform, TextLine}
use frappe_dsc.Engine.{signature_spot, search, general}
use frappe_dsc.Engine.Anchor.Locating.{anchor_places}
use frappe_dsc.Signing.Initiate.{default_template}
use frappe_dsc.Tests.Samples.{platform}
use frappe_dsc.Tests.Records.{site}

abbrev heading : TextLine
heading = record { page = 0; text = "Invoice"; x0 = pos 50000; y1 = pos 800000 }

abbrev marked_line : TextLine
marked_line = record {
  page = 1;
  text = "Sign: @@DSC_SIG_ANCHOR:220:90@@ ";
  x0 = pos 50000;
  y1 = pos 300000;
}

-- pdfminer raises behind the marker.
abbrev marking : Platform
marking = record platform {
  text_lines = λ pdf. ok heading ∷ ok marked_line ∷ err (Error.external "pdf") ∷ [];
}

anchor_places_example : signature_spot marking "%PDF" none default_template site ≡ (
  ok (record {
    page = pos 1;
    box = some (record {
      left = pos 50000;
      bottom = pos 300000 -ℤ pos (90 * 1000);
      right = pos 50000 +ℤ pos (220 * 1000);
      top = pos 300000;
    });
  }),
  site,
)
unfolding search frappe_dsc.Engine.then_read frappe_dsc.Engine.general
anchor_places_example =
    anchor_places marking "%PDF" default_template site (heading ∷ []) marked_line
      (err (Error.external "pdf") ∷ []) 220 90 (codes "Sign: ") (codes " ") (omega arith)
      (omega arith) refl (refl, tt) refl (refl, (refl, (refl, (refl, (refl, (refl, tt))))))

-- Python's `f"{w:g}"` of whole numbers.
general_small : general 220 ≡ codes "220"
unfolding general
general_small = refl

general_large : general 1234565 ≡ codes "1.23456e+06"
unfolding general
general_large = refl

general_round : general 9999995 ≡ codes "1e+07"
unfolding general
general_round = refl
