-- ===== src/Confirm.antt =====
-- The confirmation dialog (frontend/src/components/confirm-dialog.tsx): what has to be typed before
-- its button can be pressed.
use cdn_platform.Prelude.{Bool, true, not, ◌||◌, Option, none, some, Text, ◌===◌, is_truthy}

-- `!confirmation || value === confirmation`
unfoldable pub allowed : Option Text → Text → Bool
unfolding ◌===◌
allowed none value = true
allowed (some confirmation) value = not (is_truthy confirmation) || value === confirmation

-- `disabled` of the action button.
unfoldable pub confirm_disabled : Option Text → Text → Bool → Bool
unfolding allowed
confirm_disabled confirmation value busy = not (allowed confirmation value) || busy
