-- ===== src/Grants.antt =====
-- src/nanoidp/routes/oauth_grants.py: one handler for each grant type of the token endpoint. The
-- handlers act on the stores and the audit log, and end in issuance parameters or an error response.
pub mod Monad
pub mod Defs
pub mod Refresh
pub mod Direct
pub mod Redeem
pub mod Laws
pub mod RefreshChecks
pub mod RefreshLaws
pub mod CodeLaws
pub mod DeviceLaws
pub mod DirectLaws
mod Tests
