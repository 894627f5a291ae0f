-- ===== src/Dashboard/Events/Hidden.antt =====
-- What the window of an event hides.
use mathlib.Core.List.{Memᴰ}
use bataudit.Dashboard.Screen.Offers.{Offers}
use bataudit.Prelude.{List}
use bataudit.Prelude.Json.{Json}
