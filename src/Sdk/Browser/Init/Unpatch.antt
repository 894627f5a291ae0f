-- ===== src/Sdk/Browser/Init/Unpatch.antt =====
-- Installing the interceptors and taking them out again.
use bataudit.Prelude.{◌≡◌, some, arith}
use bataudit.Sdk.Browser.Types.{BatAuditBrowserConfig}
use bataudit.Sdk.Browser.Fetch.{Platform}
use bataudit.Sdk.Browser.Init.{Globals, BatAuditBrowserInstance, init, unpatch}

-- `unpatch` right after `init` gives back the globals that `init` found.
pub unpatch-init :
    (platform : Platform) (config : BatAuditBrowserConfig) (g g' : Globals)
    (i : BatAuditBrowserInstance)
    → init platform config g ≡ some (i, g')
    → unpatch i g' ≡ g
unfolding init unpatch
unpatch-init platform config g g' i h = ground arith

-- Two instances taken out in the order in which they were installed: the second `unpatch` puts the
-- first one's interceptors back.
unpatch_in_order :
    (platform : Platform) (a b : BatAuditBrowserConfig) (g g' g'' : Globals)
    (i j : BatAuditBrowserInstance)
    → init platform a g ≡ some (i, g')
    → init platform b g' ≡ some (j, g'')
    → unpatch j (unpatch i g'') ≡ g'
unfolding init unpatch
unpatch_in_order platform a b g g' g'' i j h k = ground arith
