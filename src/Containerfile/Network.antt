-- ===== src/Containerfile/Network.antt =====
-- renderers/containerfile/network.py: the notes on the firewall and the network.
use yoinkc.Base.{
  ℕ, ◌+◌, String, ◌<>◌, not, none, some, List, [], ◌∷◌, ◌++◌, map, keep_if, contains, length, take,
  ◌==◌, string_eq, nat_eq, if◌then◌else◌,
}
use yoinkc.Base.Text.{is_empty, join, decimal}
use yoinkc.Base.Slices.{holds_text}
use yoinkc.Schema.{
  InspectionSnapshot, NmConnection, FirewallZone, FirewallDirectRule, ProxyEntry, StaticRouteFile,
}

-- Lines, if there is something to say.
lines_if : {A : Type 0} → List A → List String → List String
lines_if [] lines = []
lines_if (a ∷ items) lines = lines

-- `total_rich`
rich_rule_count : List FirewallZone → ℕ
rich_rule_count [] = 0
rich_rule_count (z ∷ zones) = length z.rich_rules + rich_rule_count zones

-- `_firewall_lines`, of the included zones and rules
firewall_block : List FirewallZone → List FirewallDirectRule → List String
unfolding rich_rule_count lines_if decimal
firewall_block fw_zones fw_direct =
    let total_rich = rich_rule_count fw_zones in
    let rich = if total_rich == 0 then "" else ", " <> (decimal total_rich <> " rich rule(s)") in
    let zone_line =
      "# Detected: "
      <> (decimal (length fw_zones)
          <> (" zone(s)" <> (rich <> " — included in COPY config/etc/ below"))) in
    let direct_line =
      "# Detected: "
      <> (decimal (length fw_direct) <> " direct rule(s) — included in COPY config/etc/ below") in
    ("# === Firewall Configuration (bake into image) ===" ∷ [])
    ++ (lines_if fw_zones (zone_line ∷ [])
        ++ (lines_if fw_direct (direct_line ∷ [])
            ++ ("# See audit-report.md for firewall-offline-cmd equivalents per zone." ∷ "" ∷ [])))

-- `_firewall_lines`
unfoldable pub firewall_lines : InspectionSnapshot → List String
unfolding firewall_block lines_if keep_if
firewall_lines snapshot = elim snapshot.network [
  | none ↦ []
  | some net ↦
      let fw_zones = keep_if (λ z. z.include) net.firewall_zones in
      let fw_direct = keep_if (λ r. r.include) net.firewall_direct_rules in
      if length fw_zones + length fw_direct == 0 then [] else firewall_block fw_zones fw_direct
]

abbrev connection_names : List NmConnection → String
connection_names connections = join ", " (map (λ c. c.name) connections)

unfoldable pub connection_lines : List NmConnection → List String
unfolding lines_if keep_if join string_eq
connection_lines [] =
    "# NOTE: Interface-specific config (DHCP, DNS) should be applied via kickstart at deploy time."
    ∷ "# FIXME: review kickstart-suggestion.ks for deployment-time config" ∷ []
connection_lines (c ∷ connections) =
    let static_conns = keep_if (λ d. d.method == "static") (c ∷ connections) in
    let dhcp_conns = keep_if (λ d. d.method == "dhcp") (c ∷ connections) in
    lines_if static_conns (
      ("# Static connections (baked into image): "
        <> (connection_names static_conns <> " — included in COPY config/etc/ above"))
      ∷ [])
    ++ lines_if dhcp_conns (
        ("# DHCP connections (kickstart at deploy time): " <> connection_names dhcp_conns)
        ∷ "# FIXME: configure these interfaces via kickstart — see kickstart-suggestion.ks"
        ∷ [])

unfoldable pub resolv_lines : String → List String
unfolding string_eq
resolv_lines prov =
    if is_empty prov
    then []
    else if prov == "networkmanager"
    then "# resolv.conf: NM-managed — DNS assigned at deploy time via DHCP/kickstart" ∷ []
    else if prov == "systemd-resolved"
    then "# resolv.conf: systemd-resolved — DNS assigned at deploy time" ∷ []
    else "# resolv.conf: hand-edited — review whether to bake into image or manage at deploy" ∷ []

unfoldable pub hosts_lines : List String → List String
unfolding lines_if decimal
hosts_lines hosts = lines_if hosts (
    ("# " <> (decimal (length hosts) <> " custom /etc/hosts entries detected"))
    ∷ "RUN cat >> /etc/hosts << 'HOSTSEOF'"
    ∷ (hosts ++ ("HOSTSEOF" ∷ [])))

-- `_DNF_PROXY_SOURCES`
abbrev pub dnf_proxy_sources : List String
dnf_proxy_sources = "etc/dnf/dnf.conf" ∷ "etc/yum.conf" ∷ []

unfoldable pub proxy_lines : List ProxyEntry → List String
unfolding lines_if keep_if contains string_eq holds_text
proxy_lines proxy =
    let env_entries = keep_if (λ p. not (contains dnf_proxy_sources p.source)) proxy in
    let dnf_entries = keep_if (λ p. contains dnf_proxy_sources p.source) proxy in
    let env_lines = keep_if (holds_text "=") (map (λ p. p.line) env_entries) in
    lines_if env_entries (
      ("# Proxy settings detected — bake as environment defaults" ∷ [])
      ++ lines_if env_lines (
          ("RUN mkdir -p /etc/environment.d && cat > /etc/environment.d/proxy.conf << 'PROXYEOF'"
            ∷ env_lines)
          ++ ("PROXYEOF" ∷ [])))
    ++ lines_if dnf_entries (
        "# DNF proxy configured — preserved in etc/dnf/dnf.conf (included in COPY config/etc/)"
        ∷ map (λ p. "#   " <> p.line) dnf_entries)

unfoldable pub route_lines : List StaticRouteFile → List String
unfolding lines_if take decimal
route_lines routes = lines_if routes (
    ("# " <> (decimal (length routes) <> " static route file(s) detected"))
    ∷ "# FIXME: add static routes via NM connection or nmstatectl config"
    ∷ map
        (λ r.
          "# Route file: " <> (r.path <> " — review and translate to NM connection (+ipv4.routes)"))
        (take 10 routes))

-- `_network_lines`
unfoldable pub network_lines : InspectionSnapshot → List String
unfolding connection_lines resolv_lines hosts_lines proxy_lines route_lines
network_lines snapshot =
    ("# === Network / Kickstart ===" ∷ [])
    ++ ((elim snapshot.network [
      | none ↦ connection_lines []
      | some net ↦
          connection_lines net.connections
          ++ (resolv_lines net.resolv_provenance
              ++ (hosts_lines net.hosts_additions
                  ++ (proxy_lines net.proxy ++ route_lines net.static_routes)))
    ])
        ++ ("" ∷ []))
