-- ===== src/Dashboard/PushKey.antt =====
-- `urlBase64ToUint8Array` of frontend/src/routes/app/_layout/settings/notifications.tsx: the key of
-- the push service, from the alphabet for URLs to that of `atob`.
use Prim.Native.Char.{code}
use Prim.Native.String.{String, [], ◌∷◌, len}
use bataudit.Prelude.{ℕ, ◌-◌, ◌%◌, ◌==◌, if◌then◌else◌}
use bataudit.Prelude.Text.{◌<>◌}

-- `'='.repeat((4 - (base64String.length % 4)) % 4)`, for the length of the text.
abbrev padding : ℕ → String
padding n =
    let k = (4 - n % 4) % 4 in
    if k == 0 then "" else if k == 1 then "=" else if k == 2 then "==" else "==="

-- `.replace(/-/g, '+').replace(/_/g, '/')`
unfoldable pub plain_alphabet : String → String
plain_alphabet [] = []
plain_alphabet (c ∷ s) =
    let rest = plain_alphabet s in
    if code c == b'-' then "+" <> rest else if code c == b'_' then "/" <> rest else c ∷ rest

-- `urlBase64ToUint8Array`, up to the call of `atob`.
abbrev pub base64_of : String → String
base64_of text = plain_alphabet (text <> padding (len text))
