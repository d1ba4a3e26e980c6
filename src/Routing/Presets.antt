-- ===== src/Routing/Presets.antt =====
-- The presets of core/routing/presets.go.
pub mod Services
use tenebra.Prelude.{
  Bool, true, false, not, ◌&&◌, ◌||◌, List, [], ◌∷◌, ◌++◌, Text, codes, text_eq, has_suffix, any,
  keep, length, ◌==◌, if◌then◌else◌,
}
use tenebra.Prelude.Sort.{sort_stable}
use tenebra.Routing.Suffixes.{text_lt, normalize_suffixes}
use tenebra.Routing.Options.{
  Options, mode_direct, split_exclude, split_include, direct_pin_allowed, proxy_rule_suffixes,
}

abbrev pub game_processes : List Text
game_processes =
    codes "steam.exe"
    ∷ codes "steamservice.exe"
    ∷ codes "steamerrorreporter.exe"
    ∷ codes "dota2.exe"
    ∷ codes "cs2.exe"
    ∷ codes "csgo.exe"
    ∷ codes "hl2.exe"
    ∷ codes "gmod.exe"
    ∷ codes "tf_win64.exe"
    ∷ codes "rustclient.exe"
    ∷ codes "minecraftlauncher.exe"
    ∷ codes "minecraft.windows.exe"
    ∷ codes "riotclientservices.exe"
    ∷ codes "leagueoflegends.exe"
    ∷ codes "valorant.exe"
    ∷ codes "valorant-win64-shipping.exe"
    ∷ codes "epicgameslauncher.exe"
    ∷ codes "battle.net.exe"
    ∷ codes "eadesktop.exe"
    ∷ codes "ealauncher.exe"
    ∷ codes "upc.exe"
    ∷ codes "ubisoftconnect.exe"
    ∷ codes "galaxyclient.exe"
    ∷ codes "rockstarservice.exe"
    ∷ codes "socialclubhelper.exe"
    ∷ []

abbrev pub blocked_service_suffixes : List Text
blocked_service_suffixes =
    codes "youtube.com"
    ∷ codes "youtu.be"
    ∷ codes "googlevideo.com"
    ∷ codes "ytimg.com"
    ∷ codes "yt3.ggpht.com"
    ∷ codes "youtubei.googleapis.com"
    ∷ codes "music.youtube.com"
    ∷ codes "ggpht.com"
    ∷ codes "googleusercontent.com"
    ∷ codes "gvt1.com"
    ∷ codes "gvt2.com"
    ∷ codes "discord.com"
    ∷ codes "discordapp.com"
    ∷ codes "discordapp.net"
    ∷ codes "discord.gg"
    ∷ codes "discord.media"
    ∷ codes "discordcdn.com"
    ∷ codes "discordstatus.com"
    ∷ codes "telegram.org"
    ∷ codes "t.me"
    ∷ codes "telegra.ph"
    ∷ codes "telesco.pe"
    ∷ codes "cdn-telegram.org"
    ∷ codes "instagram.com"
    ∷ codes "cdninstagram.com"
    ∷ codes "facebook.com"
    ∷ codes "fbcdn.net"
    ∷ codes "whatsapp.com"
    ∷ codes "twitter.com"
    ∷ codes "x.com"
    ∷ codes "twimg.com"
    ∷ codes "anthropic.com"
    ∷ codes "claude.ai"
    ∷ codes "claudeusercontent.com"
    ∷ codes "openai.com"
    ∷ codes "chatgpt.com"
    ∷ codes "oaistatic.com"
    ∷ codes "soundcloud.com"
    ∷ codes "spotify.com"
    ∷ codes "scdn.co"
    ∷ codes "linkedin.com"
    ∷ codes "licdn.com"
    ∷ codes "medium.com"
    ∷ codes "patreon.com"
    ∷ codes "signal.org"
    ∷ []

abbrev pub default_zapret_covered : List Text
default_zapret_covered =
    codes "youtube.com"
    ∷ codes "youtu.be"
    ∷ codes "googlevideo.com"
    ∷ codes "ytimg.com"
    ∷ codes "ggpht.com"
    ∷ codes "youtubei.googleapis.com"
    ∷ codes "discord.com"
    ∷ codes "discordapp.com"
    ∷ codes "discordapp.net"
    ∷ codes "discord.gg"
    ∷ codes "discord.media"
    ∷ codes "discordcdn.com"
    ∷ codes "discordstatus.com"
    ∷ []

-- `GameProcesses`.
pub sorted_game_processes : List Text
sorted_game_processes = sort_stable text_lt game_processes

-- `BlockedServiceSuffixes`.
pub sorted_blocked_service_suffixes : List Text
sorted_blocked_service_suffixes = sort_stable text_lt blocked_service_suffixes

abbrev pub is_empty : List Text → Bool
is_empty [] = true
is_empty (t ∷ ts) = false

unfoldable pub unblock_active : Options → Bool
unblock_active o = o.unblock_services && not (text_eq o.mode mode_direct)

unfoldable pub coverage : Options → List Text
coverage o = if is_empty o.zapret_covered then default_zapret_covered else o.zapret_covered

-- `coveredByZapret`: its loop returns at the first entry that covers the domain.
unfoldable pub covers : Text → Text → Bool
covers domain c = text_eq domain c || has_suffix domain (codes "." ++ c)

unfoldable pub covered_by_zapret : List Text → Text → Bool
unfolding covers
covered_by_zapret covered domain = any (covers domain) covered

-- `zapretDirectSuffixes`.
unfoldable pub zapret_direct_suffixes : Options → List Text
unfolding coverage
zapret_direct_suffixes o =
    if not o.zapret_active || not (direct_pin_allowed o)
    then []
    else normalize_suffixes (keep (covered_by_zapret (coverage o)) blocked_service_suffixes)

-- The preset services that stay in the tunnel, next to those that go direct.
unfoldable pub tunnelled_services : List Text → List Text
tunnelled_services direct =
    if is_empty direct
    then blocked_service_suffixes
    else keep (λ s. not (covered_by_zapret direct s)) blocked_service_suffixes

-- `proxySuffixesWithPresets`.
unfoldable pub proxy_suffixes_with_presets : Options → List Text
unfolding tunnelled_services
proxy_suffixes_with_presets o =
    let base = proxy_rule_suffixes o in
    if not (unblock_active o)
    then base
    else normalize_suffixes (base ++ tunnelled_services (zapret_direct_suffixes o))

abbrev pub voice_port_range : Text
voice_port_range = codes "50000:65535"

unfoldable pub games_direct_active : Options → Bool
games_direct_active o = o.games_direct && direct_pin_allowed o

unfoldable pub voice_direct_active : Options → Bool
voice_direct_active o = o.voice_direct && direct_pin_allowed o

-- `splitAppsWithPresets`. `normalizeApps` has the body of `normalizeSuffixes`.
unfoldable pub split_apps_with_presets : Options → List Text
split_apps_with_presets o =
    if not (games_direct_active o)
    then o.split_apps
    else normalize_suffixes (o.split_apps ++ game_processes)

-- `directSplitApps`.
unfoldable pub direct_split_apps : Options → List Text
unfolding split_apps_with_presets
direct_split_apps o =
    if text_eq o.split_mode split_include
    then []
    else if text_eq o.split_mode split_exclude
    then split_apps_with_presets o
    else if not (games_direct_active o)
    then []
    else normalize_suffixes game_processes
