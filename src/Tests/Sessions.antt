-- ===== src/Tests/Sessions.antt =====
-- The cache of signing sessions on the sample site.
use frappe_dsc.Base.{◌≡◌, refl, List, [], ◌∷◌}
use frappe_dsc.Engine.Sessions.Refining.{
  SessionOp, stores, pops, looks, answers, promised, find_ticket, sessions_refine,
}
use frappe_dsc.Tests.Samples.{signer, signer_later}
use frappe_dsc.Tests.Records.{site, session}

-- A second session is stored, looked at after the first has lapsed, and popped twice.
abbrev session_ops : List SessionOp
session_ops =
    stores signer "S1" session
    ∷ looks signer_later "S0"
    ∷ pops signer_later "S1"
    ∷ pops signer_later "S1"
    ∷ []

sessions_refine_example :
    answers session_ops site ≡ promised session_ops (find_ticket site.sessions)
unfolding find_ticket
sessions_refine_example = sessions_refine session_ops site (refl, tt)
