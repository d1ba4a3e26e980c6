-- ===== src/Control/Rendering.antt =====
-- `buildConfigJSON` of core/control/connect.go: the configuration of an attempt as JSON, and the shape
-- of its selector, which is read back out of it. The encoder is given.
pub mod Pinned
use tenebra.Prelude.{Option, none, some, List, Text}
use tenebra.Model.{Node}
use tenebra.Routing.Options.{Options}
use tenebra.Singbox.Tun.{TunOptions}
use tenebra.Singbox.Build
use tenebra.Singbox.Build.{Config, Host, built, failed, build, selector_default, selector_members}
use tenebra.Control.Tags.{or_empty}
use tenebra.Control.State.{Built}

unfoldable pub encoded : Config → Option Text → Option Built
encoded c none = none
encoded c (some json) =
    some (record {
      json = json;
      default = or_empty (selector_default c);
      members = selector_members c;
    })

unfoldable pub render : (Config → Option Text) → Build.Built → Option Built
unfolding encoded
render encode (built c) = encoded c (encode c)
render encode (failed e) = none

-- `buildConfigJSON`, where `none` is an error.
unfoldable pub build_config_json :
    Host → (Config → Option Text) → List Node → Text → Options → TunOptions → Option Built
unfolding render
build_config_json h encode nodes tag ro tun = render encode (build h nodes tag ro tun)
