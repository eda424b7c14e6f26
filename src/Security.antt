-- ===== src/Security.antt =====
-- The security page, frontend/src/features/security/security-page.tsx: the dialog of a rate limit
-- (RateDialog), and what the control plane makes of what it sends (Limits).
pub mod RateDialog
pub mod Limits
pub mod Policy
pub mod Page
pub mod Coverage
