-- ===== src/Redact/Patterns.antt =====
-- The tables of redact.py. A pattern is the text of a regular expression.
use yoinkc.Base.{String, List, [], ◌∷◌}

-- `EXCLUDED_PATHS`
abbrev pub excluded_paths : List String
excluded_paths =
    "/etc/shadow" ∷ "/etc/gshadow" ∷ "/etc/ssh/ssh_host_.*" ∷ "/etc/pki/.*\\.key" ∷ ".*\\.key$"
    ∷ ".*keytab$" ∷ ".*\\.p12$" ∷ ".*\\.pfx$" ∷ ".*\\.jks$" ∷ "/etc/cockpit/ws-certs\\.d/.*"
    ∷ "/etc/containers/auth\\.json" ∷ []

-- `REDACT_PATTERNS`
abbrev pub redact_patterns : List (String × String)
redact_patterns =
    (
      "-----BEGIN\\s+(?:\\w+\\s+)*PRIVATE KEY-----[\\s\\S]+?-----END\\s+(?:\\w+\\s+)*PRIVATE KEY-----",
      "PRIVATE_KEY",
    )
    ∷ ("(?:sk|rk)_(?:test|live)_[a-zA-Z0-9]{10,99}", "STRIPE_KEY")
    ∷ ("sk-ant-(?:api03|admin01)-[a-zA-Z0-9_\\-]{80,}", "ANTHROPIC_KEY")
    ∷ ("sk-(?:proj|svcacct|admin)-[A-Za-z0-9_-]{20,}", "OPENAI_KEY")
    ∷ ("AKIA[0-9A-Z]{16}", "AWS_KEY")
    ∷ ("(?:A3T[A-Z0-9]|ASIA|ABIA|ACCA)[A-Z2-7]{16}", "AWS_TEMP_KEY")
    ∷ ("ghp_[a-zA-Z0-9]{36}", "GITHUB_TOKEN")
    ∷ ("ghu_[a-zA-Z0-9]{36}", "GITHUB_TOKEN")
    ∷ ("github_pat_[a-zA-Z0-9_]{36,255}", "GITHUB_TOKEN")
    ∷ ("ghs_[0-9a-zA-Z]{36}", "GITHUB_TOKEN")
    ∷ ("gho_[a-zA-Z0-9]{36}", "GITHUB_TOKEN")
    ∷ ("glpat-[a-zA-Z0-9_-]{20,}", "GITLAB_TOKEN")
    ∷ ("glrt-[0-9a-zA-Z_\\-]{20}", "GITLAB_TOKEN")
    ∷ ("gldt-[0-9a-zA-Z_\\-]{20}", "GITLAB_TOKEN")
    ∷ ("glptt-[0-9a-f]{40}", "GITLAB_TOKEN")
    ∷ ("sha256~[\\w-]{43}", "OPENSHIFT_TOKEN")
    ∷ ("hvs\\.[a-zA-Z0-9_-]{24,}", "VAULT_TOKEN")
    ∷ ("hvb\\.[\\w-]{138,300}", "VAULT_TOKEN")
    ∷ ("xox[bp]-[a-zA-Z0-9-]{24,}", "SLACK_TOKEN")
    ∷ ("SG\\.[a-zA-Z0-9_-]{22,}", "SENDGRID_KEY")
    ∷ ("dapi[a-f0-9]{32}(?:-\\d)?", "DATABRICKS_TOKEN")
    ∷ ("ATATT3[A-Za-z0-9_\\-=]{186}", "ATLASSIAN_TOKEN")
    ∷ ("AKCp[A-Za-z0-9]{69}", "ARTIFACTORY_KEY")
    ∷ ("LTAI[a-zA-Z0-9]{20}", "ALIBABA_KEY")
    ∷ ("npm_[a-zA-Z0-9]{36}", "NPM_TOKEN")
    ∷ ("pypi-AgEIcHlwaS5vcmc[\\w-]{50,1000}", "PYPI_TOKEN")
    ∷ ("rubygems_[a-f0-9]{48}", "RUBYGEMS_TOKEN")
    ∷ ("AGE-SECRET-KEY-1[qpzry9x8gf2tvdw0s3jn54khce6mua7l]{58}", "AGE_KEY")
    ∷ ("dop_v1_[a-f0-9]{64}", "DIGITALOCEAN_TOKEN")
    ∷ ("doo_v1_[a-f0-9]{64}", "DIGITALOCEAN_TOKEN")
    ∷ ("HRKU-AA[0-9a-zA-Z_-]{58}", "HEROKU_KEY")
    ∷ ("glc_[A-Za-z0-9+/]{32,400}={0,3}", "GRAFANA_TOKEN")
    ∷ ("glsa_[A-Za-z0-9]{32}_[A-Fa-f0-9]{8}", "GRAFANA_TOKEN")
    ∷ ("NRAK-[a-z0-9]{27}", "NEWRELIC_KEY")
    ∷ ("NRII-[a-z0-9-]{32}", "NEWRELIC_KEY")
    ∷ ("sntrys_eyJpYXQiO[A-Za-z0-9+/=_-]{80,}", "SENTRY_TOKEN")
    ∷ ("dp\\.pt\\.[a-z0-9]{43}", "DOPPLER_TOKEN")
    ∷ ("pul-[a-f0-9]{40}", "PULUMI_TOKEN")
    ∷ ("(?i)(api[_-]?key|apikey)\\s*[:=]\\s*['\\\"]?([a-zA-Z0-9_\\-]{20,})['\\\"]?", "API_KEY")
    ∷ ("(?i)(token)\\s*[:=]\\s*['\\\"]?([a-zA-Z0-9_\\-]{20,})['\\\"]?", "TOKEN")
    ∷ (
      "(?i)(?<![a-z])(password|passwd|pass|passphrase)\\s*[:=]\\s*['\\\"]?([^\\s'\\\"]+)['\\\"]?",
      "PASSWORD",
    )
    ∷ ("(?i)secret\\s*[:=]\\s*['\\\"]?([^\\s'\\\"]+)['\\\"]?", "SECRET")
    ∷ ("(?i)bearer\\s+([a-zA-Z0-9_\\-\\.]{20,})", "BEARER_TOKEN")
    ∷ (
      "(?i)(?:gcp|google)[_-]?(?:api[_-]?key|credentials?)\\s*[:=]\\s*['\\\"]?([^\\s'\\\"]{10,})['\\\"]?",
      "GCP_CREDENTIAL",
    )
    ∷ (
      "(?i)(?:azure|az)[_-]?(?:storage[_-]?key|account[_-]?key|secret)\\s*[:=]\\s*['\\\"]?([^\\s'\\\"]{10,})['\\\"]?",
      "AZURE_CREDENTIAL",
    )
    ∷ ("(?i)jdbc:[^:]+://[^:]+:([^@\\s]+)@", "JDBC_PASSWORD")
    ∷ ("(?i)postgres(ql)?://[^:]+:([^@\\s]+)@", "POSTGRES_PASSWORD")
    ∷ ("(?i)mongodb(\\+srv)?://[^:]+:([^@\\s]+)@", "MONGODB_PASSWORD")
    ∷ ("(?i)redis://[^:]*:([^@\\s]+)@", "REDIS_PASSWORD")
    ∷ ("(PrivateKey\\s*=\\s*)([A-Za-z0-9+/]{43}=)", "WIREGUARD_KEY")
    ∷ ("(psk\\s*=\\s*)(\\S+)", "WIFI_PSK")
    ∷ []

-- `_EXCLUDED_REMEDIATION`
abbrev pub excluded_remediation : List (String × String)
excluded_remediation =
    ("/etc/cockpit/ws-certs\\.d/.*", "regenerate") ∷ ("/etc/ssh/ssh_host_.*", "regenerate") ∷ []

-- `_FALSE_POSITIVE_VALUES`
abbrev pub false_positive_values : List String
false_positive_values =
    "all" ∷ "blowfish" ∷ "compat" ∷ "des" ∷ "disabled" ∷ "dns" ∷ "false" ∷ "files" ∷ "include"
    ∷ "ldap" ∷ "md5" ∷ "nis" ∷ "no" ∷ "none" ∷ "null" ∷ "optional" ∷ "pam_deny.so" ∷ "pam_env.so"
    ∷ "pam_faildelay.so" ∷ "pam_faillock.so" ∷ "pam_localuser.so" ∷ "pam_permit.so"
    ∷ "pam_pwquality.so" ∷ "pam_sss.so" ∷ "pam_succeed_if.so" ∷ "pam_systemd.so" ∷ "pam_unix.so"
    ∷ "prompt" ∷ "required" ∷ "requisite" ∷ "sha256" ∷ "sha512" ∷ "sss" ∷ "substack" ∷ "sufficient"
    ∷ "systemd" ∷ "true" ∷ "winbind" ∷ "yes" ∷ "yescrypt" ∷ []

-- `_SHADOW_NOOP_HASHES`
abbrev pub shadow_noop_hashes : List String
shadow_noop_hashes = "*" ∷ "!" ∷ "!!" ∷ "" ∷ []
