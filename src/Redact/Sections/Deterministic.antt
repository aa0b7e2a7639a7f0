-- ===== src/Redact/Sections/Deterministic.antt =====
-- The order of the config files in the snapshot does not matter to `redact_snapshot`.
use mathlib.Core.List.{Permᴰ}
use yoinkc.Base.{◌≡◌, List, map, Distinct, string_eq}
use yoinkc.Base.Sort.Order.{sort_by-Permᴰ}
use yoinkc.Schema.{ConfigFileEntry, ConfigSection}
use yoinkc.Redact.Scan.{Scan, pure, ◌>>=◌}
use yoinkc.Redact.Texts.{Regex}
use yoinkc.Redact.Sections.{redact_config}

-- If no path stands twice, the scan of the config files in another order gives the same files, findings and tokens.
pub redact_config_deterministic :
    (re : Regex) (config : ConfigSection) (files : List ConfigFileEntry) (s : Scan)
    → Permᴰ files config.files
    → Distinct (map (λ f. f.path) files)
    → redact_config re (record config { files = files }) s ≡ redact_config re config s
unfolding redact_config ◌>>=◌ pure
redact_config_deterministic re config files s d h = cc (sort_by-Permᴰ (λ f. f.path) d h)
