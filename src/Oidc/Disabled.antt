-- ===== src/Oidc/Disabled.antt =====
-- src/oidc.rs without the feature `oidc`: every call answers `NotEnabled`.
use auth_kit.Base.{Bytes, codes}
use auth_kit.Base.Outcome.{Result, ok, err}
use auth_kit.Oidc.{DiscoveryDoc}

-- `DiscoveryError` of this build.
pub data DisabledError : Type 0 where
  not_enabled : DisabledError

-- `DiscoveryClient` of this build has no field.
pub record DisabledClient : Type 0 where

-- `Display` of the error.
unfoldable pub display_disabled : DisabledError → Bytes
display_disabled not_enabled = codes "oidc feature is not enabled on authkit"

-- `DiscoveryClient::new`.
unfoldable pub new_disabled : Result DisabledError DisabledClient
new_disabled = ok (record {})

-- `discover`.
unfoldable pub discover_disabled : Bytes → DisabledClient → Result DisabledError DiscoveryDoc
discover_disabled issuer client = err not_enabled
