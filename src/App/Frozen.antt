-- ===== src/App/Frozen.antt =====
-- Lemmas about what a running storm charge session freezes in internal/app/app.go.
use srne_inverter_to_mqtt.Base.{true, ◌≡◌}
use srne_inverter_to_mqtt.Base.Float.{Float64}
use srne_inverter_to_mqtt.Config.Disk.{ConfigFiles}
use srne_inverter_to_mqtt.Storm.World.{World}
use srne_inverter_to_mqtt.Storm.Disk.{DiskLaws}
use srne_inverter_to_mqtt.App.Operations.{App, is_active}
use srne_inverter_to_mqtt.App.Steps.{Step}

module _ {S E Num : Type 0} (w : World S E Num) (fs : ConfigFiles S E Num) (fl : Float64 Num)
    (laws : DiskLaws w) where
  -- Steps of which each starts while a session is active; the last one may end it.
  pub data Session (a : App S E Num) : App S E Num → Type 0 where
    begun : Session a a
    then_step :
        {b c : App S E Num}
        → Session a b
        → is_active w fs fl b ≡ true
        → Step w fs fl laws b c
        → Session a c

  -- The configuration and where it is kept.
  abbrev pub SameConfig : App S E Num → App S E Num → Type 0
  SameConfig a b = (b.cfg ≡ a.cfg) × (b.config_path ≡ a.config_path)
