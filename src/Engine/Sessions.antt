-- ===== src/Engine/Sessions.antt =====
-- signing_engine.py: the signing sessions in the Redis cache. What `json.dumps` and base64 write,
-- `json.loads` and base64 read back, so a session is kept as the record that it is.
pub mod Consuming
pub mod Refining
use frappe_dsc.Base.{ℕ, ◌+◌, String, ◌<>◌, ◌==◌, Option, none, some, List, [], ◌∷◌, if◌then◌else◌}
use frappe_dsc.Site.{Session, Cached, ok, Action, Done, pure, ◌>>=◌, ◌>>◌, Context, cached}

abbrev pub session_ttl_seconds : ℕ
session_ttl_seconds = 600

abbrev pub session_key : String → String
session_key session_id = "e_sign:session:" <> session_id

-- `cache().delete_value(key)`
unfoldable pub delete_value : String → List (Cached Session) → List (Cached Session)
delete_value key [] = []
delete_value key (c ∷ rest) =
    if c.key == key then delete_value key rest else c ∷ delete_value key rest

module _ (ctx : Context) where
  abbrev pub stored : String → Session → List (Cached Session) → List (Cached Session)
  stored session_id session cache =
      record {
        key = session_key session_id;
        value = session;
        expires = ctx.now + session_ttl_seconds;
      }
      ∷ delete_value (session_key session_id) cache

  abbrev pub store_session : String → Session → Action Done
  store_session session_id session s =
      (ok tt, record s { sessions = stored session_id session s.sessions })

  -- `_load_session` without `pop`, which is `get_session_info` too.
  abbrev pub get_session_info : String → Action (Option Session)
  get_session_info session_id s = (ok (cached ctx (session_key session_id) s.sessions), s)

  abbrev pub drop_session : String → Action Done
  drop_session session_id s =
      (ok tt, record s { sessions = delete_value (session_key session_id) s.sessions })

  unfoldable pub drop_if_found : String → Option Session → Action Done
  drop_if_found session_id none = pure tt
  drop_if_found session_id (some session) = drop_session session_id

  -- `_load_session` with `pop=True`.
  unfoldable pub pop_session : String → Action (Option Session)
  unfolding drop_if_found
  pop_session session_id = do
    found ← get_session_info session_id
    drop_if_found session_id found
    pure found
