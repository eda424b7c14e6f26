-- ===== src/Settings/Pending.antt =====
-- The three requests of a section of the settings and which of them are open
-- (frontend/src/features/settings/settings-page.tsx: `save`, `test`, `reset` and `busy` of
-- `CloudflareForm`, `SMTPForm` and `BackupForm`).
use cdn_platform.Prelude.{
  ℕ, ◌+◌, ◌≤◌, ◌≡◌, Bool, true, false, ◌||◌, Text, arith, codes, ◌===◌, if◌then◌else◌,
}

pub data Action : Type 0 where
  save test reset : Action

pub record Pending : Type 0 where
  pub save_pending : Bool
  pub test_pending : Bool
  pub reset_pending : Bool

abbrev pub idle : Pending
idle = record { save_pending = false; test_pending = false; reset_pending = false }

unfoldable pub busy : Pending → Bool
busy p = p.save_pending || (p.test_pending || p.reset_pending)

-- `mutate()`, and the end of the request with either outcome.
unfoldable pub mark : Action → Bool → Pending → Pending
mark save b p = record p { save_pending = b }
mark test b p = record p { test_pending = b }
mark reset b p = record p { reset_pending = b }

pub data Answer : Type 0 where
  done : Answer
  failed : (status : ℕ) (message : Text) → Answer

abbrev count : Bool → ℕ
count true = 1
count false = 0

-- At most one request is open.
abbrev pub IsSingle : Pending → Type 0
IsSingle p = count p.save_pending + (count p.test_pending + count p.reset_pending) ≤ 1

flag-le : (b : Bool) → count b ≤ 1
flag-le true = omega arith
flag-le false = omega arith

pub mark-IsSingle : (a : Action) (p : Pending) → busy p ≡ false → IsSingle (mark a true p)
unfolding busy mark
mark-IsSingle save p h = ground arith
mark-IsSingle test p h = ground arith
mark-IsSingle reset p h = ground arith

lower : (a b c : ℕ) → a + (b + c) ≤ 1 → (0 + (b + c) ≤ 1) × (a + (0 + c) ≤ 1) × (a + (b + 0) ≤ 1)
lower a b c h = (omega arith, omega arith, omega arith)

pub mark_off-IsSingle : (a : Action) (p : Pending) → IsSingle p → IsSingle (mark a false p)
unfolding mark
mark_off-IsSingle save p h = (lower _ _ _ h).0
mark_off-IsSingle test p h = (lower _ _ _ h).1
mark_off-IsSingle reset p h = (lower _ _ _ h).2

-- The text of the badge of a section, and whether the badge is that of success.
unfoldable pub source_label : Text → Text
unfolding ◌===◌
source_label source =
    if source === codes "database"
    then codes "控制台设置"
    else if source === codes "environment"
    then codes "环境变量"
    else codes "未配置"
