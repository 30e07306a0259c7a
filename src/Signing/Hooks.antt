-- ===== src/Signing/Hooks.antt =====
-- api/signing.py, _run_dev_hooks.
pub mod Swallowing
use frappe_dsc.Base.{String, ◌<>◌, List, [], ◌∷◌}
use frappe_dsc.Site.{Action, Done, pure, try_except, ◌>>◌, Platform, HookCall, log_error}

-- The loop over the registered handlers: what one of them raises is logged and dropped.
unfoldable pub run_handlers :
    String → HookCall → List (String × (HookCall → Action Done)) → Action Done
run_handlers hook call [] = pure tt
run_handlers hook call ((name, handler) ∷ rest) =
    try_except (handler call)
      (λ e. log_error ("DSC dev hook " <> hook <> " -> " <> name <> " failed"))
    >> run_handlers hook call rest

module _ (P : Platform) where
  unfoldable pub run_dev_hooks : String → HookCall → Action Done
  unfolding run_handlers
  run_dev_hooks hook call = run_handlers hook call (P.hooks hook)
