-- ===== src/Engine/Sessions/Refining.antt =====
-- signing_engine.py: the session cache implements a store of one-time tickets.
use mathlib.Core.Path.{fun_ext}
use frappe_dsc.Base.{
  ℕ, ◌+◌, String, ◌==◌, ◌≡◌, refl, sym, ap, ◌∙◌, Bool, true, false, Option, none, some, is_some,
  List, [], ◌∷◌, ltb, arith, eq_iff, eq_refl, Bool-cases, inl, inr, if◌then◌else◌,
}
use frappe_dsc.Site.{Site, Session, Cached, ok, Result, Action, pure, ◌>>◌, Context, cached}
use frappe_dsc.Engine.Sessions.{
  session_key, session_ttl_seconds, get_session_info, store_session, drop_if_found, pop_session,
  delete_value, stored,
}

-- What a store of tickets promises: a ticket is its session and the time at which it lapses.
abbrev pub Tickets : Type 0
Tickets = String → Option (Session × ℕ)

abbrev pub valid_at : ℕ → Option (Session × ℕ) → Option Session
valid_at now none = none
valid_at now (some (session, lapses)) = if ltb now lapses then some session else none

abbrev pub issue : String → Session → ℕ → Tickets → Tickets
issue key session lapses f j = if key == j then some (session, lapses) else f j

-- A ticket that is valid is void once it was shown.
abbrev pub spend : ℕ → String → Tickets → Tickets
spend now key f j = if is_some (valid_at now (f key)) then (if key == j then none else f j) else f j

-- The calls of the cache, each by a request of its own.
pub data SessionOp : Type 0 where
  stores : Context → String → Session → SessionOp
  pops looks : Context → String → SessionOp

unfoldable pub observe : SessionOp → Action (Option Session)
observe (stores ctx session_id session) = store_session ctx session_id session >> pure none
observe (pops ctx session_id) = pop_session ctx session_id
observe (looks ctx session_id) = get_session_info ctx session_id

unfoldable pub answers : List SessionOp → Site → List (Result (Option Session))
answers [] s = []
answers (op ∷ ops) s = (observe op s).0 ∷ answers ops (observe op s).1

-- The same calls on the tickets.
unfoldable pub promised : List SessionOp → Tickets → List (Result (Option Session))
promised [] f = []
promised (stores ctx session_id session ∷ ops) f =
    ok none
    ∷ promised ops (issue (session_key session_id) session (ctx.now + session_ttl_seconds) f)
promised (pops ctx session_id ∷ ops) f =
    ok (valid_at ctx.now (f (session_key session_id)))
    ∷ promised ops (spend ctx.now (session_key session_id) f)
promised (looks ctx session_id ∷ ops) f =
    ok (valid_at ctx.now (f (session_key session_id))) ∷ promised ops f

-- The ticket of a key in the cache.
unfoldable pub find_ticket : List (Cached Session) → Tickets
find_ticket [] k = none
find_ticket (c ∷ rest) k = if c.key == k then some (c.value, c.expires) else find_ticket rest k

-- No key stands in the cache twice.
abbrev pub IsUnique : List (Cached Session) → Type 0
IsUnique [] = Unit
IsUnique (c ∷ rest) = (find_ticket rest c.key ≡ none) × IsUnique rest

find_ticket-delete :
    (k j : String) (rows : List (Cached Session))
    → find_ticket (delete_value k rows) j ≡ (if k == j then none else find_ticket rows j)
unfolding find_ticket delete_value
find_ticket-delete k j [] = ground arith
find_ticket-delete k j (c ∷ rest) =
    ground (arith, eq_iff c.key k, eq_iff c.key j, eq_iff k j, find_ticket-delete k j rest)

none_either : {A : Type 0} (c : Bool) (o : Option A) → o ≡ none → (if c then none else o) ≡ none
none_either true o h = refl
none_either false o h = h

delete-IsUnique :
    (k : String) (rows : List (Cached Session)) → IsUnique rows → IsUnique (delete_value k rows)
unfolding delete_value
delete-IsUnique k [] h = tt
delete-IsUnique k (c ∷ rest) h = elim (Bool-cases (c.key == k)) [
  | inl gone ↦ rw gone (delete-IsUnique k rest h.1)
  | inr stays ↦
      rw stays (
        find_ticket-delete k c.key rest ∙ none_either (k == c.key) _ h.0,
        delete-IsUnique k rest h.1,
      )
]

only_here :
    (x : Session) {o : Option Session} (fresh : Bool)
    → o ≡ none
    → (if fresh then some x else o) ≡ (if fresh then some x else none)
only_here x true h = refl
only_here x false h = h

-- In a cache without repeats the query finds the ticket, if it is valid.
cached-find_ticket :
    (ctx : Context) (k : String) (rows : List (Cached Session))
    → IsUnique rows
    → cached ctx k rows ≡ valid_at ctx.now (find_ticket rows k)
unfolding cached find_ticket
cached-find_ticket ctx k [] h = refl
cached-find_ticket ctx k (c ∷ rest) h = elim (Bool-cases (c.key == k)) [
  | inl here ↦
      let gone : find_ticket rest k ≡ none =
        ap (find_ticket rest) (sym ((eq_iff c.key k).0 here)) ∙ h.0 in
      rw here (
        only_here c.value (ltb ctx.now c.expires)
          (cached-find_ticket ctx k rest h.1 ∙ ap (valid_at ctx.now) gone))
  | inr other ↦ rw other (cached-find_ticket ctx k rest h.1)
]

dropped_sessions : Context → String → Option Session → List (Cached Session) → List (Cached Session)
dropped_sessions ctx key none rows = rows
dropped_sessions ctx key (some x) rows = delete_value key rows

pop_session-drops :
    (ctx : Context) (session_id : String) (found : Option Session) (s : Site)
    → (drop_if_found ctx session_id found >> pure found) s ≡ (
      ok found,
      record s { sessions = dropped_sessions ctx (session_key session_id) found s.sessions },
    )
unfolding drop_if_found dropped_sessions
pop_session-drops ctx session_id none s = refl
pop_session-drops ctx session_id (some x) s = refl

pop_session_lem :
    (ctx : Context) (session_id : String) (s : Site)
    → let found = cached ctx (session_key session_id) s.sessions in
      pop_session ctx session_id s ≡ (
        ok found,
        record s { sessions = dropped_sessions ctx (session_key session_id) found s.sessions },
      )
unfolding pop_session
pop_session_lem ctx session_id s =
    pop_session-drops ctx session_id (cached ctx (session_key session_id) s.sessions) s

dropped-IsUnique :
    (ctx : Context) (key : String) (found : Option Session) (rows : List (Cached Session))
    → IsUnique rows
    → IsUnique (dropped_sessions ctx key found rows)
unfolding dropped_sessions
dropped-IsUnique ctx key none rows h = h
dropped-IsUnique ctx key (some x) rows h = delete-IsUnique key rows h

find_ticket-dropped :
    (ctx : Context) (key : String) (rows : List (Cached Session)) (found : Option Session)
    (j : String)
    → find_ticket (dropped_sessions ctx key found rows) j ≡ (
        if is_some found
        then (if key == j then none else find_ticket rows j)
        else find_ticket rows j)
unfolding dropped_sessions
find_ticket-dropped ctx key rows none j = refl
find_ticket-dropped ctx key rows (some x) j = find_ticket-delete key j rows

find_ticket-stored :
    (ctx : Context) (session_id : String) (session : Session) (rows : List (Cached Session))
    (j : String)
    → find_ticket (stored ctx session_id session rows) j
      ≡ issue (session_key session_id) session (ctx.now + session_ttl_seconds) (find_ticket rows) j
unfolding find_ticket
find_ticket-stored ctx session_id session rows j =
    ground (arith, find_ticket-delete (session_key session_id) j rows)

stored-IsUnique :
    (ctx : Context) (session_id : String) (session : Session) (rows : List (Cached Session))
    → IsUnique rows
    → IsUnique (stored ctx session_id session rows)
stored-IsUnique ctx session_id session rows h =
    let key = session_key session_id in
    (
      find_ticket-delete key key rows
          ∙ ap (λ c. if c then none else find_ticket rows key) (eq_refl key),
      delete-IsUnique key rows h,
    )

-- The cache of signing sessions keeps the promise of a store of one-time tickets: whatever sessions
-- are stored, popped and looked at, in whatever order and at whatever times, each call answers as it
-- would on the tickets, where a session is there from when it is stored until it is popped or has
-- lapsed, as long as no key stands in the cache twice at the start.
pub sessions_refine :
    (ops : List SessionOp) (s : Site)
    → IsUnique s.sessions
    → answers ops s ≡ promised ops (find_ticket s.sessions)
unfolding answers promised observe
sessions_refine [] s h = refl
sessions_refine (stores ctx session_id session ∷ ops) s h =
    ap (λ z. ok none ∷ z)
      (sessions_refine ops (record s { sessions = stored ctx session_id session s.sessions })
          (stored-IsUnique ctx session_id session s.sessions h)
        ∙ ap (promised ops) (fun_ext (find_ticket-stored ctx session_id session s.sessions)))
sessions_refine (pops ctx session_id ∷ ops) s h =
    let key = session_key session_id in
    let found = valid_at ctx.now (find_ticket s.sessions key) in
    rw (pop_session_lem ctx session_id s, cached-find_ticket ctx key s.sessions h)
      (ap (λ z. ok found ∷ z)
        (sessions_refine ops (record s { sessions = dropped_sessions ctx key found s.sessions })
            (dropped-IsUnique ctx key found s.sessions h)
          ∙ ap (promised ops) (fun_ext (find_ticket-dropped ctx key s.sessions found))))
sessions_refine (looks ctx session_id ∷ ops) s h =
    rw (cached-find_ticket ctx (session_key session_id) s.sessions h) (
      ap (λ z. ok (valid_at ctx.now (find_ticket s.sessions (session_key session_id))) ∷ z)
        (sessions_refine ops s h))
