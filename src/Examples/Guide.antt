-- ===== src/Examples/Guide.antt =====
-- The theorems of the access guide at one configuration.
use grouproxy.Base.{◌≡◌, some}
use grouproxy.Api.Entities.Accounts.{AccessConfig, production}
use grouproxy.Access.{
  endpoint, other_exports, curl_command, linux_quick_command, linux_validation_command,
}
use grouproxy.Access.Quoting.{assigned, assigned-endpoint}
use grouproxy.Access.Tokens.{highlight_code, bash}
use grouproxy.Access.Highlight.{shown_text, shown-highlight_code}

abbrev config : AccessConfig
config = record {
  environment = production;
  fqdn = "it's.example";
  port = 8080;
  macos_shortcut_url = "";
}

assigned-endpoint_example :
    (assigned "export http_proxy=" (linux_quick_command config)
      ≡ some (endpoint config, other_exports))
    × (assigned "proxy=" (linux_validation_command config) ≡ some (endpoint config, curl_command))
assigned-endpoint_example = assigned-endpoint config

shown-highlight_code_example :
    shown_text (highlight_code bash "curl -s \"$proxy\" # test") ≡ "curl -s \"$proxy\" # test"
shown-highlight_code_example = shown-highlight_code bash "curl -s \"$proxy\" # test"
