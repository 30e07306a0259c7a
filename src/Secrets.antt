-- ===== src/Secrets.antt =====
-- doctype/dsc_settings/dsc_settings.py: get_or_create_hmac_secret.
use frappe_dsc.Base.{String, some, truthy, get_or, if◌then◌else◌}
use frappe_dsc.Site.{Action, pure, gets, modify, commit, ◌>>=◌, ◌>>◌, Context}

module _ (ctx : Context) where
  -- The secret is committed before it is returned.
  unfoldable pub create_hmac_secret : Action String
  create_hmac_secret = do
    modify λ d. record d { settings = record d.settings { hmac_secret = some ctx.new_secret } }
    commit
    pure ctx.new_secret

  unfoldable pub get_or_create_hmac_secret : Action String
  unfolding create_hmac_secret
  get_or_create_hmac_secret = do
    settings ← gets (λ d. d.settings)
    if truthy settings.hmac_secret
        then pure (get_or settings.hmac_secret "")
        else create_hmac_secret
