-- ===== src/Engine/Placing.antt =====
-- signing_engine.py, prepare_pdf_for_signing: where the signature goes. Lengths are thousandths of
-- a PDF point.
use frappe_dsc.Base.{
  ℕ, ◌+◌, ◌-◌, String, not, ◌&&◌, Option, none, some, List, [], ◌∷◌, eqb, or_num, if◌then◌else◌,
}
use frappe_dsc.Base.Int.{ℤ, pos, sub_ℕ, ◌+ℤ◌, ◌-ℤ◌}
use frappe_dsc.Site.{SignatureField, SignatureTemplate, Action, pure, ◌>>=◌, Platform, Box}
use frappe_dsc.Engine.Anchor.{AnchorBox, locate_signature_anchor}

-- The `placement` of an uploaded document.
pub record Placement : Type 0 where
  pub page : ℕ
  pub x : ℕ
  pub y : ℕ
  pub width : ℕ
  pub height : ℕ

-- The page, counted from 0, and the rectangle; without a box the signature is invisible.
pub record Spot : Type 0 where
  pub page : ℤ
  pub box : Option Box

abbrev pub default_width : ℕ
default_width = 200000

abbrev pub default_height : ℕ
default_height = 80000

abbrev pub box_at : ℕ → ℕ → ℕ → ℕ → Box
box_at x y width height = record {
  left = pos x;
  bottom = pos y;
  right = pos (x + or_num width default_width);
  top = pos (y + or_num height default_height);
}

-- `max(int(page or 1) - 1, 0)`
unfoldable pub placement_spot : Placement → Spot
placement_spot p = record {
  page = pos (or_num p.page 1 - 1);
  box = some (box_at p.x p.y p.width p.height);
}

unfoldable pub anchor_spot : AnchorBox → Spot
anchor_spot a = record {
  page = pos a.page;
  box = some (record {
    left = a.x;
    bottom = a.top -ℤ pos a.height;
    right = a.x +ℤ pos a.width;
    top = a.top;
  });
}

-- The first field of the template, of which a coordinate of 0 counts as not set.
unfoldable pub template_spot : List SignatureField → Spot
template_spot [] = record { page = pos 0; box = none }
template_spot (f ∷ rest) = record {
  page = sub_ℕ f.page_number 1;
  box = if not (eqb f.x 0) && not (eqb f.y 0) then some (box_at f.x f.y f.width f.height) else none;
}

anchor_or_template : SignatureTemplate → Option AnchorBox → Spot
unfolding anchor_spot template_spot
anchor_or_template template none = template_spot template.fields
anchor_or_template template (some a) = anchor_spot a

module _ (P : Platform) where
  -- The branches on `placement` and on the anchor.
  unfoldable pub signature_spot : String → Option Placement → SignatureTemplate → Action Spot
  unfolding placement_spot locate_signature_anchor anchor_or_template
  signature_spot pdf (some p) template = pure (placement_spot p)
  signature_spot pdf none template = do
    anchor ← locate_signature_anchor P pdf
    pure (anchor_or_template template anchor)
