-- ===== src/Engine/Sessions/Consuming.antt =====
-- signing_engine.py: a stored session is found until it is popped or expires.
use frappe_dsc.Base.{
  ◌+◌, ◌<◌, String, ◌≡◌, refl, List, [], ◌∷◌, arith, none, some, true, eq_refl, ltb,
}
use frappe_dsc.Site.{Site, Session, Cached, ok, Context, cached}
use frappe_dsc.Engine.Sessions.{
  session_key, session_ttl_seconds, get_session_info, store_session, pop_session, delete_value,
}

pub cached-delete_value :
    (ctx : Context) (key : String) (rows : List (Cached Session))
    → cached ctx key (delete_value key rows) ≡ none
unfolding cached delete_value
cached-delete_value ctx key [] = refl
cached-delete_value ctx key (c ∷ rest) = ground (arith, cached-delete_value ctx key rest)

-- A session can be popped once: it is what was stored, if the caller comes before the 600 seconds
-- are over, and then there is none.
pub pop-store :
    (ctx later : Context) (session_id : String) (session : Session) (s : Site)
    → later.now < ctx.now + session_ttl_seconds
    → let t = (store_session ctx session_id session s).1 in
      let (r, u) = pop_session later session_id t in
      (r ≡ ok (some session)) × (u.db ≡ s.db) × (get_session_info later session_id u ≡ (ok none, u))
unfolding cached pop_session delete_value
pop-store ctx later session_id session s h =
    let alive : ltb later.now (ctx.now + 600) ≡ true = ground arith in
    rw (eq_refl (session_key session_id), alive, eq_refl (session_key session_id))
      (
        refl,
        refl,
        rw (
            cached-delete_value later (session_key session_id)
              (delete_value (session_key session_id) s.sessions)),
      )
