-- ===== src/Logger.antt =====
-- src/logger.rs: the line that `NodeLogger` makes of a record of LDK, and the level at which it goes
-- to the crate log. The clock and the display of LDK's levels are parameters.
use ln_node.Prelude.{◌≡◌, refl, ◌∙◌, ℕ, zero, suc, ◌-◌, String, max, arith}
use Prim.Native.String.{◌++◌, count}
use text.Mathlib.TextLemmas.{length-append as count-append}

-- LDK's `Level`, and that of the crate log.
pub data Level : Type 0 where
  gossip trace debug info warn error : Level

pub data LogLevel : Type 0 where
  at_trace at_debug at_info at_warn at_error : LogLevel

unfoldable pub log_level : Level → LogLevel
log_level gossip = at_trace
log_level trace = at_trace
log_level debug = at_debug
log_level info = at_info
log_level warn = at_warn
log_level error = at_error

pub record Record : Type 0 where
  pub level : Level
  pub args : String
  pub module_path : String
  pub line : String

unfoldable pub spaces : ℕ → String
spaces zero = ""
spaces (suc n) = " " ++ spaces n

-- `{:<5}`
unfoldable pub pad_right : ℕ → String → String
unfolding spaces
pad_right width text = text ++ spaces (width - count text)

module _ (now : String) (show_level : Level → String) where
  unfoldable pub log : Record → LogLevel × String
  unfolding pad_right log_level
  log r = (
    log_level r.level,
    now
        ++ (" "
            ++ (pad_right 5 (show_level r.level)
                ++ (" [" ++ (r.module_path ++ (":" ++ (r.line ++ ("] " ++ (r.args ++ "\n")))))))),
  )

-- How grave a record is, for LDK and for the crate log.
abbrev pub gravity : Level → ℕ
gravity gossip = 0
gravity trace = 1
gravity debug = 2
gravity info = 3
gravity warn = 4
gravity error = 5

abbrev pub log_gravity : LogLevel → ℕ
log_gravity at_trace = 1
log_gravity at_debug = 2
log_gravity at_info = 3
log_gravity at_warn = 4
log_gravity at_error = 5

-- A record is passed on with its gravity, but for gossip, which goes with trace.
pub log_gravity-log_level : (l : Level) → log_gravity (log_level l) ≡ max 1 (gravity l)
unfolding log_level
log_gravity-log_level gossip = refl
log_gravity-log_level trace = refl
log_gravity-log_level debug = refl
log_gravity-log_level info = refl
log_gravity-log_level warn = refl
log_gravity-log_level error = refl

count-spaces : (n : ℕ) → count (spaces n) ≡ n
unfolding spaces
count-spaces zero = refl
count-spaces (suc n) = count-append " " (spaces n) ∙ omega (arith, count-spaces n)

-- The column of the level is at least as wide as asked for, and wider only for a longer text.
pub count-pad_right :
    (width : ℕ) (text : String) → count (pad_right width text) ≡ max width (count text)
unfolding pad_right
count-pad_right width text =
    count-append text (spaces (width - count text))
    ∙ omega (arith, count-spaces (width - count text))
