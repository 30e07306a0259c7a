-- ===== src/Signing/Hooks/Swallowing.antt =====
-- api/signing.py, _run_dev_hooks: a developer hook never stops the signing flow.
use frappe_dsc.Base.{String, ◌<>◌, ◌≡◌, refl, List, [], ◌∷◌}
use frappe_dsc.Site.{Site, Result, ok, err, Action, Done, handle, Platform, HookCall, log_error}
use frappe_dsc.Signing.Hooks.{run_handlers, run_dev_hooks}

abbrev Succeeds : Result Done × Site → Type 0
Succeeds r = r ≡ (ok tt, r.1)

handled :
    (title : String) (r : Result Done) (s : Site) → Succeeds (handle (λ e. log_error title) r s)
handled title (ok a) s = refl
handled title (err e) s = refl

run_handlers_ok :
    (hook : String) (call : HookCall) (handlers : List (String × (HookCall → Action Done)))
    (s : Site)
    → Succeeds (run_handlers hook call handlers s)
unfolding run_handlers
run_handlers_ok hook call [] s = refl
run_handlers_ok hook call ((name, handler) ∷ rest) s =
    let (r, s') = handler call s in
    rw (handled ("DSC dev hook " <> hook <> " -> " <> name <> " failed") r s')
      (run_handlers_ok hook call rest _)

-- Whatever handlers are registered and whatever they raise, the hooks return.
pub run_dev_hooks_ok :
    (P : Platform) (hook : String) (call : HookCall) (s : Site)
    → run_dev_hooks P hook call s ≡ (ok tt, (run_dev_hooks P hook call s).1)
unfolding run_dev_hooks
run_dev_hooks_ok P hook call s = run_handlers_ok hook call (P.hooks hook) s
