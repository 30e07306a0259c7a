-- ===== src/Signing/Initiate/Formats.antt =====
-- api/signing.py, initiate: which print format is rendered.
use frappe_dsc.Base.{String, ◌≡◌, refl, List}
use frappe_dsc.Site.{Rule, Db}
use frappe_dsc.Signing.Initiate.{PendingRequest, get_column, choose_print_format}

-- The print format is the same whatever the rules say, since the column of the rule was not read.
pub rules_give_no_format :
    (doctype : String) (r : PendingRequest) (d : Db) (rules : List Rule)
    → choose_print_format doctype r (record d { rules = rules }) ≡ choose_print_format doctype r d
unfolding choose_print_format get_column
rules_give_no_format doctype r d rules = refl
