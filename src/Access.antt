-- ===== src/Access.antt =====
-- frontend/app/access/page.tsx: the commands that the guide shows, how a value is quoted in them, and
-- the copy buttons.
pub mod Quoting
pub mod Tokens
mod Matches
pub mod Highlight
use grouproxy.Base.{
  ℕ, String, Char, code, ◌<>◌, Bool, Option, none, some, ◌&&◌, ◌==◌, if◌then◌else◌, str_eq,
}
use grouproxy.Api.Url.{show}
use grouproxy.Api.Entities.Accounts.{AccessConfig}

-- `value.replaceAll("'", "'\\''")`: the quote ends, one stands escaped, and the quote begins again.
unfoldable pub escape_quotes : String → String
escape_quotes String.[] = ""
escape_quotes (String.◌∷◌ c s) =
    let rest = escape_quotes s in
    if code c == 39
    then String.◌∷◌ "'" (String.◌∷◌ "\\" (String.◌∷◌ "'" (String.◌∷◌ "'" rest)))
    else String.◌∷◌ c rest

unfoldable pub shell_quote : String → String
unfolding escape_quotes
shell_quote value = "'" <> (escape_quotes value <> "'")

abbrev pub newline : String
newline = String.◌∷◌ "\n" ""

unfoldable pub endpoint : AccessConfig → String
endpoint config = "http://" <> (config.fqdn <> (":" <> show config.port))

abbrev pub other_exports : String
other_exports =
    "export https_proxy=\"$http_proxy\"\nexport HTTP_PROXY=\"$http_proxy\"\nexport HTTPS_PROXY=\"$https_proxy\"\nexport no_proxy=\"localhost,127.0.0.1,::1\"\nexport NO_PROXY=\"$no_proxy\""

abbrev pub curl_command : String
curl_command =
    "curl --connect-timeout 5 --fail --silent --show-error --proxy \"$proxy\" https://ipinfo.io/ip"

unfoldable pub linux_quick_command : AccessConfig → String
linux_quick_command config =
    "export http_proxy=" <> (shell_quote (endpoint config) <> (newline <> other_exports))

unfoldable pub linux_validation_command : AccessConfig → String
linux_validation_command config =
    "proxy=" <> (shell_quote (endpoint config) <> (newline <> curl_command))

unfoldable pub windows_quick_command : AccessConfig → String
windows_quick_command config =
    "$settings = \"HKCU:\\Software\\Microsoft\\Windows\\CurrentVersion\\Internet Settings\"\nSet-ItemProperty -Path $settings -Name ProxyServer -Value \""
    <> (config.fqdn
        <> (":"
            <> (show config.port
                <> "\"\nSet-ItemProperty -Path $settings -Name ProxyEnable -Value 1")))

unfoldable pub windows_validation_command : AccessConfig → String
unfolding endpoint
windows_validation_command config =
    "$ProxyUrl = \""
    <> (endpoint config
        <> ("\"\nTest-NetConnection -ComputerName \""
            <> (config.fqdn
                <> ("\" -Port "
                    <> (show config.port
                        <> "\nInvoke-RestMethod -Uri \"https://ipinfo.io/ip\" -Proxy $ProxyUrl")))))
