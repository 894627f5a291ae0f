-- ===== src/Sdk/Browser/Init.antt =====
-- sdks/browser/src/index.ts, with the end of each interceptor: what stands in the globals. A patch
-- of `fetch` or of `XMLHttpRequest` keeps the function that it found, and calls it.
pub mod Unpatch
use bataudit.Prelude.{Option, none, some}
use bataudit.Sdk.Browser.Types.{BatAuditBrowserConfig}
use bataudit.Sdk.Browser.Client.{BatAuditBrowserClient, new}
use bataudit.Sdk.Browser.Fetch.{Platform, writer_origin_of}
use Prim.Native.String.{String}

-- A global function: the browser's, or a patch by a client over the one that it found.
pub data Installed : Type 0 where
  native : Installed
  patched : BatAuditBrowserClient → String → Installed → Installed

pub record Globals : Type 0 where
  pub fetch : Installed
  pub xhr_open : Installed
  pub xhr_send : Installed

-- What a call of `patchFetch` or `patchXHR` leaves: the globals, and those that `unpatch` puts
-- back. `none` where `new URL(writerUrl)` throws.
unfoldable pub patch_fetch :
    Platform → BatAuditBrowserClient → Globals → Option (Globals × Installed)
patch_fetch platform c g = elim (writer_origin_of platform c) [
  | none ↦ none
  | some origin ↦ some (record g { fetch = patched c origin g.fetch }, g.fetch)
]

unfoldable pub unpatch_fetch : Installed → Globals → Globals
unpatch_fetch original g = record g { fetch = original }

unfoldable pub patch_xhr :
    Platform → BatAuditBrowserClient → Globals → Option (Globals × (Installed × Installed))
patch_xhr platform c g = elim (writer_origin_of platform c) [
  | none ↦ none
  | some origin ↦ some (
    record g { xhr_open = patched c origin g.xhr_open; xhr_send = patched c origin g.xhr_send },
    (g.xhr_open, g.xhr_send),
  )
]

unfoldable pub unpatch_xhr : Installed × Installed → Globals → Globals
unpatch_xhr (original_open, original_send) g = record g {
  xhr_open = original_open;
  xhr_send = original_send;
}

-- The value of `init`: the client, and what its `unpatch` puts back.
pub record BatAuditBrowserInstance : Type 0 where
  pub client : BatAuditBrowserClient
  pub original_fetch : Installed
  pub original_xhr : Installed × Installed

infixl 5 ◌>>=◌
abbrev ◌>>=◌ {ℓ κ} : {A : Type ℓ} {B : Type κ} → Option A → (A → Option B) → Option B
none >>= k = none
some a >>= k = k a

unfoldable pub init :
    Platform → BatAuditBrowserConfig → Globals → Option (BatAuditBrowserInstance × Globals)
unfolding new patch_fetch patch_xhr
init platform config g = do
  let client = new config
  (g', original_fetch) ← patch_fetch platform client g
  (g'', original_xhr) ← patch_xhr platform client g'
  some (
    record { client = client; original_fetch = original_fetch; original_xhr = original_xhr },
    g'',
  )

unfoldable pub unpatch : BatAuditBrowserInstance → Globals → Globals
unfolding unpatch_fetch unpatch_xhr
unpatch i g = unpatch_xhr i.original_xhr (unpatch_fetch i.original_fetch g)
