-- ===== src/Geocoding/Caching.antt =====
-- geocoding.py: the answer that is cached.
use frappe_dsc.Base.{
  ◌+◌, ◌<◌, String, ◌≡◌, refl, sym, ap, ◌∙◌, Bool, true, false, Bool-cases, inl, inr, none, some,
  List, ◌∷◌, ltb, arith, eq_refl,
}
use frappe_dsc.Site.{
  Cached, Geocode, Site, Result, ok, err, pure, continue, handle, when, ◌>>◌, Platform, Context,
  log_error, cached,
}
use frappe_dsc.Geocoding.{
  geocode_ttl_seconds, cache_key, fallback, remember, ask_provider, or_ask, geocode_numbers,
  numbers_or_fallback, reverse_geocode,
}

module _ (P : Platform) (ctx : Context) (lat lng : String) where
  abbrev entry : Geocode → Cached Geocode
  entry g = record { key = cache_key P lat lng; value = g; expires = ctx.now + geocode_ttl_seconds }

  -- An answer, which stands at the head of the cache if it is an address.
  abbrev Answers : Result Geocode × Site → Type 0
  Answers p =
      (g : Geocode) × (t : Site) × (p ≡ (ok g, t))
      × (g.is_ok ≡ true → (rest : List (Cached Geocode)) × (t.geocodes ≡ entry g ∷ rest))

  remember-Answers :
      (g : Geocode) (s : Site)
      → Answers ((when g.is_ok (remember P ctx (cache_key P lat lng) g) >> pure g) s)
  remember-Answers g s = elim (Bool-cases g.is_ok) [
    | inl found ↦
        (g, (remember P ctx (cache_key P lat lng) g s).1, rw found refl, λ _. (s.geocodes, refl))
    | inr missing ↦ (g, s, rw missing refl, λ found. absurd (cc))
  ]

  ask_provider-Answers : (s : Site) → Answers (ask_provider P ctx lat lng s)
  unfolding ask_provider
  ask_provider-Answers s = asked _
    where
      asked :
          (p : Result Geocode × Site)
          → let q =
              handle
                (λ e.
                  log_error "DSC reverse_geocode failed" >> pure (fallback (some lat) (some lng)))
                p.0
                p.1 in
            Answers (
              continue q.0
                (λ g. when g.is_ok (remember P ctx (cache_key P lat lng) g) >> pure g)
                q.1)
      asked (ok g, u) = remember-Answers g u
      asked (err e, u) =
          remember-Answers (fallback (some lat) (some lng))
            (log_error "DSC reverse_geocode failed" u).1

  -- A live entry at the head of the cache is the answer.
  cached-head :
      (later : Context) (g : Geocode) (rest : List (Cached Geocode))
      → later.now < ctx.now + geocode_ttl_seconds
      → cached later (cache_key P lat lng) (entry g ∷ rest) ≡ some g
  unfolding cached
  cached-head later g rest h =
      let alive : ltb later.now (ctx.now + 86400) ≡ true = ground arith in
      rw (eq_refl (cache_key P lat lng), alive) refl

answer_ok : Result Geocode → Bool
answer_ok (ok g) = g.is_ok
answer_ok (err e) = false

ok_injective : {a b : Geocode} → ok a ≡ ok b → a ≡ b
ok_injective h = cc

module _ (P : Platform) (ctx : Context) (lat lng lat_f lng_f : String) (s : Site)
    (lat_number : P.to_float lat ≡ ok lat_f) (lng_number : P.to_float lng ≡ ok lng_f)
    (unknown : cached ctx (cache_key P lat_f lng_f) s.geocodes ≡ none) where
  reverse_geocode_lem :
      (c : Context) (t : Site)
      → reverse_geocode P c (some lat) (some lng) t
        ≡ or_ask P c lat_f lng_f (cached c (cache_key P lat_f lng_f) t.geocodes) t
  unfolding reverse_geocode numbers_or_fallback geocode_numbers
  reverse_geocode_lem c t = rw (lat_number, lng_number) refl

  -- An address that the geocoding service gave for coordinates that were not in the cache is the
  -- answer for them for the next 24 hours, without another question, and nothing changes then.
  pub geocode_cached :
      {g : Geocode} {t : Site}
      → reverse_geocode P ctx (some lat) (some lng) s ≡ (ok g, t)
      → g.is_ok ≡ true
      → (later : Context) → later.now < ctx.now + geocode_ttl_seconds
      → reverse_geocode P later (some lat) (some lng) t ≡ (ok g, t)
  unfolding or_ask answer_ok
  geocode_cached {g} {t} answered found later soon =
      let (g', t', answer, head) = ask_provider-Answers P ctx lat_f lng_f s in
      let same : (ok g', t') ≡ (ok g, t) =
        sym answer
        ∙ sym (ap (λ o. or_ask P ctx lat_f lng_f o s) unknown)
        ∙ sym (reverse_geocode_lem ctx s)
        ∙ answered in
      let (rest, top) = head (ap (λ p. answer_ok p.0) same ∙ found) in
      let first : t.geocodes ≡ entry P ctx lat_f lng_f g ∷ rest =
        sym (ap (λ p. p.1.geocodes) same)
        ∙ top
        ∙ ap (λ x. entry P ctx lat_f lng_f x ∷ rest) (ok_injective (ap (λ p. p.0) same)) in
      reverse_geocode_lem later t
      ∙ ap (λ o. or_ask P later lat_f lng_f o t)
          (ap (cached later (cache_key P lat_f lng_f)) first
            ∙ cached-head P ctx lat_f lng_f later g rest soon)
