-- ===== src/Agents/Codes.antt =====
-- e_sign/api/agent.py: what a pairing code is good for.
use frappe_dsc.Base.{
  String, ◌==◌, ◌≡◌, refl, sym, ap, ◌∙◌, true, false, none, some, List, [], ◌∷◌, ◌++◌, arith,
  first_where, eq_refl,
}
use frappe_dsc.Base.Queries.{first_where-last}
use frappe_dsc.Site.{Site, Pairing, Cached, Error, ok, err, Platform, Context, cached, or_raise}
use frappe_dsc.Site.Inversion.{went_through, or_raise-returns, pure-returns}
use frappe_dsc.Secrets.{get_or_create_hmac_secret}
use frappe_dsc.Agents.{
  PairingCall, PairingReply, pairing_key, delete_pairing, is_agent_for, registration_of,
  validate_pairing_code, touch_agent, verify_site_token,
}

cached-delete_pairing :
    (ctx : Context) (key : String) (rows : List (Cached Pairing))
    → cached ctx key (delete_pairing key rows) ≡ none
unfolding cached delete_pairing
cached-delete_pairing ctx key [] = refl
cached-delete_pairing ctx key (c ∷ rest) = ground (arith, cached-delete_pairing ctx key rest)

module _ (P : Platform) (ctx : Context) where
  secret-keeps :
      (s : Site) {k : String} {t : Site}
      → s.durable.agents ≡ s.db.agents
      → get_or_create_hmac_secret ctx s ≡ (ok k, t)
      → (t.pairings ≡ s.pairings) × (t.db.agents ≡ s.db.agents) × (t.durable.agents ≡ t.db.agents)
  unfolding get_or_create_hmac_secret
  secret-keeps s committed h = ground arith

  -- What a pairing that returned has done.
  abbrev Pairs : PairingCall → Site → PairingReply → Site → Type 0
  Pairs call s reply t =
      (pairing : Pairing) × (cached ctx (pairing_key call.pairing_code) s.pairings ≡ some pairing)
      × (reply.site_token ≡ ctx.site_token)
      × (t.pairings ≡ delete_pairing (pairing_key call.pairing_code) s.pairings)
      × (t.db.agents
          ≡ s.db.agents ++ registration_of P ctx reply.agent_registration pairing call ∷ [])
      × (t.durable.agents ≡ t.db.agents)

  pairs :
      (call : PairingCall) (s : Site) {reply : PairingReply} {t : Site}
      → validate_pairing_code P ctx call s ≡ (ok reply, t)
      → Pairs call s reply t
  unfolding validate_pairing_code
  pairs call s {reply} {t} h =
      went_through
        (or_raise (cached ctx (pairing_key call.pairing_code) s.pairings) Error.invalid_pairing_code
          s)
        h
        λ pairing s0 e0 h0. went_through (get_or_create_hmac_secret ctx _) h0 λ secret s1 e1 h1.
          let (live, same0) =
            or_raise-returns (cached ctx (pairing_key call.pairing_code) s.pairings) _ s e0 in
          let (codes, agents, durable) = secret-keeps _ refl e1 in
          let (answer, ended) = pure-returns _ s1 h1 in
          let key = pairing_key call.pairing_code in
          (
            pairing,
            live,
            sym (ap (λ r. r.site_token) answer),
            sym (ap (λ z. z.pairings) ended)
                ∙ codes
                ∙ ap (λ z. delete_pairing key z.pairings) same0,
            sym (ap (λ z. z.db.agents) ended)
                ∙ agents
                ∙ ap
                    (λ r.
                      s0.db.agents ++ registration_of P ctx r.agent_registration pairing call ∷ [])
                    answer
                ∙ ap
                    (λ z.
                      z.db.agents
                      ++ registration_of P ctx reply.agent_registration pairing call ∷ [])
                    same0,
            sym (ap (λ z. z.durable.agents) ended) ∙ durable ∙ ap (λ z. z.db.agents) ended,
          )

is_agent_for-registration_of :
    (P : Platform) (ctx : Context) (name : String) (pairing : Pairing) (call : PairingCall)
    → is_agent_for (P.sha256 ctx.site_token) none (registration_of P ctx name pairing call) ≡ true
unfolding is_agent_for registration_of
is_agent_for-registration_of P ctx name pairing call = rw (eq_refl (P.sha256 ctx.site_token))

module _ (P : Platform) (ctx later : Context) (call : PairingCall) (s : Site) {reply : PairingReply}
    {t : Site} (paired : validate_pairing_code P ctx call s ≡ (ok reply, t)) where
  -- A pairing code is good for one pairing: whoever uses it again, with whatever agent, at whatever
  -- time, is refused, and nothing changes.
  pub code_used_up :
      (again : PairingCall)
      → again.pairing_code ≡ call.pairing_code
      → validate_pairing_code P later again t ≡ (err Error.invalid_pairing_code, t)
  unfolding validate_pairing_code
  code_used_up again same =
      let (pairing, live, token, codes, agents, durable) = pairs P ctx call s paired in
      rw (same, codes, cached-delete_pairing later (pairing_key call.pairing_code) s.pairings)

  -- The token that a pairing gives out, which no active agent had before, is that of the agent that
  -- was registered, and the registration is committed.
  pub token_verifies :
      (ctx.site_token == "") ≡ false
      → first_where (is_agent_for (P.sha256 ctx.site_token) none) s.db.agents ≡ none
      → ((verify_site_token P later reply.site_token none t).0 ≡ ok (some reply.agent_registration))
        × (t.durable.agents ≡ t.db.agents)
  unfolding verify_site_token touch_agent registration_of
  token_verifies filled fresh =
      let (pairing, live, token, codes, agents, durable) = pairs P ctx call s paired in
      let mine : is_agent_for (P.sha256 ctx.site_token) none
            (registration_of P ctx reply.agent_registration pairing call)
          ≡ true =
        is_agent_for-registration_of P ctx reply.agent_registration pairing call in
      (
        rw (
          token,
          filled,
          agents,
          first_where-last (is_agent_for (P.sha256 ctx.site_token) none) s.db.agents _ fresh mine,
        ),
        durable,
      )
