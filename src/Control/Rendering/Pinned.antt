-- ===== src/Control/Rendering/Pinned.antt =====
-- The selector that core/control/connect.go reads back of a configuration.
use tenebra.Prelude.{Option, none, some, some_inj, List, In, Text, ◌≡◌, refl}
use tenebra.Model.{Node}
use tenebra.Routing.Options.{Options}
use tenebra.Singbox.Tun.{TunOptions}
use tenebra.Singbox.Build.{Config, Host, Built, built, failed, build}
use tenebra.Singbox.Build.Selector.{HasSelector, build-HasSelector}
use tenebra.Control.Tags.{or_empty}
use tenebra.Control.State
use tenebra.Control.Rendering.{encoded, render, build_config_json}

encoded-In :
    (c : Config) (json : Option Text) (b : State.Built)
    → HasSelector c
    → encoded c json ≡ some b
    → In b.default b.members
unfolding encoded or_empty
encoded-In c none b s e = cc
encoded-In c (some json) b s e = rw⁻¹ (some_inj e) (rw s.starts s.member)

render-In :
    (encode : Config → Option Text) (r : Built) (b : State.Built)
    → ((c : Config) → r ≡ built c → HasSelector c)
    → render encode r ≡ some b
    → In b.default b.members
unfolding render
render-In encode (built c) b s e = encoded-In c (encode c) b (s c refl) e
render-In encode (failed x) b s e = cc

-- What `buildConfigJSON` reports as the start of the selector is one of its members.
build_config_json-In :
    (h : Host) (encode : Config → Option Text) (nodes : List Node) (tag : Text) (ro : Options)
    (tun : TunOptions) (b : State.Built)
    → build_config_json h encode nodes tag ro tun ≡ some b
    → In b.default b.members
unfolding build_config_json
build_config_json-In h encode nodes tag ro tun b e =
    render-In encode (build h nodes tag ro tun) b (build-HasSelector h nodes tag ro tun) e
