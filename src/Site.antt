-- ===== src/Site.antt =====
-- The site editor, frontend/src/features/sites/site-detail-page.tsx: the form's draft and what it
-- sends (Draft), its port and node lists (Forwards, Nodes), the tasks of a site (Task, Detail), the
-- operations panel (Operations, Allowlist), and the page's own state (Page).
pub mod Summary
pub mod Requests
pub mod Form
pub mod Draft
pub mod Forwards
pub mod Nodes
pub mod Task
pub mod Detail
pub mod Operations
pub mod Allowlist
pub mod Page
pub mod Samples
