-- ===== src/Base/Paths.antt =====
-- Names of files: the temporary file that a replacement is written to has another name.
use Prim.Native.String
use Prim.Native.String.append
use text.Mathlib.TextEquality.{eq_iff}
use srne_inverter_to_mqtt.Base.{String, ◌≢◌, sym, ap, ◌∙◌, arith}

tail : String → String
tail String.[] = ""
tail (String.◌∷◌ c s) = s

pub tmp_apart : (path : String) → String.◌++◌ path ".tmp" ≢ path
unfolding tail
tmp_apart String.[] e = ground (arith, eq_iff ".tmp" "", e)
tmp_apart (String.◌∷◌ c s) e = tmp_apart s (ap tail (sym (append.cons c s ".tmp") ∙ e))
