-- ===== src/Lib.antt =====
-- Verification of the administration console of the CDN platform (frontend/src).
--
-- The console is a single-page program over the HTTP API of the control plane. Its parts, with paths
-- under frontend/src unless they start with internal:
--   * the data model of the API (lib/types.ts): the modules under Types, one record or
--     data type for each interface and union of the source, with the source's names in snake_case;
--   * the API client `api` (lib/api.ts): Api builds the request from the caller's options and the
--     token, and Api.api_outcome is what the call returns, throws and announces;
--   * the session (features/auth): Auth is the provider's state with one function for each event
--     (`bootstrap`, `login`, `logout`, `setup`, the listener of `cdn:unauthorized`), the module variable
--     `csrfToken` and the query cache included; Auth.Session has the events as a step relation;
--     Auth.Screen has the two forms;
--   * the pager of every list (hooks/use-list-pagination.ts, components/list-pagination.tsx):
--     Pagination;
--   * the site editor (features/sites/site-detail-page.tsx), under Site: Draft (`emptyDraft`,
--     `draftFromSite`, `splitList`, `sitePayload`), Page (loading, saving and leaving the form, the cached
--     list), Forwards (the rows of `TCPForwards`), Nodes (`NodeSelector`), Task
--     (`taskMatchesCurrentSite`, poll intervals), Detail (`localizeTaskDetail`), Operations
--     (`SiteOperations`), Allowlist (`AllowlistDialog`), Form (the edits of `BasicSettings` and
--     `TrafficSettings`, what the browser asks of the fields, the button that saves), Requests (`save`,
--     `operation`, `deleteSite`, with the effects of their answers), Summary (the header, the panes and
--     the summary of the draft);
--   * the list of sites (features/sites/sites-page.tsx): SiteList, the badge and the protocol of a row;
--   * the security page (features/security/security-page.tsx), under Security: RateDialog, the dialog
--     of a rate limit as a state with one function over all its controls, its submit condition and its
--     payload, and Limits, the check of that payload in the control plane
--     (internal/domain/security.go); Policy, the dialog of an access policy; Coverage, the numbers at
--     the top; Page, the page around them as one function over its events;
--   * backups (features/settings/backup-restore.tsx, components/confirm-dialog.tsx): Restore, one
--     function over every event of the four dialogs and requests, and Confirm, the dialog that they
--     share;
--   * the nodes (features/nodes), under Nodes: the upgrade column and the status buttons, Uninstall,
--     the panel that removes a node beside the checks of the control plane on its requests
--     (internal/control/uninstall.go, internal/store/uninstall.go), Page, the page around it as one function over its events, Quota,
--     the cache quota of a node, and Forms, the smaller dialogs and forms;
--   * the access logs (features/logs): Logs, with Query and Paging, and Detail, the page of an entry;
--   * monitoring (features/monitoring): Monitoring, its numbers and rows; Targets, the list of
--     targets with its dialogs and requests; History, the chart of a node's probes;
--   * the message centre (components/message-center.tsx): Messages, whose paths are encoded by Uri;
--   * the certificates (features/certificates/certificates-page.tsx): Certificates, the states, numbers
--     and plans, with Action, the button that issues or renews;
--   * the overview (features/overview): Overview, the sorted table and its headers;
--   * the settings (features/settings/settings-page.tsx), under Settings: Logo, the check of the brand's
--     image, Pending, the requests of a section, Smtp, Backup, Cloudflare and Forms, its forms;
--   * the frame (App.tsx, components/app-shell.tsx, app-sidebar.tsx): Shell, the routes, the section in
--     the header and the marked entry of the sidebar;
--   * formatting (lib/format.ts): Format; the badges (components/status-badge.tsx,
--     http-status-badge.tsx): Badges;
--   * the branding (hooks/use-branding.ts, components/branding-sync.tsx): Branding.
-- The editor and the dialogs send through the API client, whose status 401 ends the session; the
-- lists are shown through the pager, but for the access logs, which the server pages.
--
-- Conventions. A text is a list of UTF-16 code units, as in the source's language, and Prelude.Strings
-- has the string functions that the source uses. Numbers that are counts, sizes, ports and
-- durations are natural numbers; numbers with a fraction are a parameter `Num` of the records that
-- hold them. `undefined` and `null` are `none`. Dates and JSON are parameters: `parse_date` for
-- Date.parse, `stringify` for JSON.stringify, `collate` for the collator of names. `sort` of an array is
-- Prelude.Sorting, the stable sort by insertion. A regular expression is written out as a function on
-- code units. An event handler is a function on the component's state, and a click on a disabled
-- control leaves the state. Every recursion is structural, but for the printing of a number
-- (Prelude.Decimal), whose fuel is the number itself: enough, as each digit divides it by ten.
--
-- Not modelled: markup, styles, toasts but those of the site page, timers, the network, the routing library beyond its table of
-- routes, whose decoding of addresses is an argument, and the query library beyond the cached values, the wrappers under components/ui, and the Go services, except for
-- the two checks named above.
pub mod Prelude
pub mod Types
pub mod Pagination
pub mod Api
pub mod Auth
pub mod Site
pub mod Security
pub mod Confirm
pub mod Restore
pub mod Branding
pub mod Logs
pub mod Format
pub mod Certificates
pub mod Overview
pub mod Badges
pub mod Shell
pub mod Nodes
pub mod Monitoring
pub mod Uri
pub mod Messages
pub mod SiteList
pub mod Settings
