-- ===== src/Policy/Document.antt =====
-- policy/src/lib.rs: the parts of the policy document that the rules read. Text is a list of code
-- points; `u8` days and `u32` limits are natural numbers.
use openscreentime.Common.{ℕ, Bool, ◌&&◌, List, Option, is_empty, is_some, not}
use openscreentime.Common.Text.{Text}

pub record Window : Type 0 where
  pub days : List ℕ
  pub start : Text
  pub end : Text

pub record Bedtime : Type 0 where
  pub start : Text
  pub end : Text

pub record ScreenTime : Type 0 where
  pub enabled : Bool
  pub daily_limit_minutes : ℕ
  pub schedule : List Window
  pub bedtime : Option Bedtime

pub record Focus : Type 0 where
  pub sites : List Text
  pub hours : Option Window

-- `Focus::is_default`.
unfoldable pub is_default : Focus → Bool
is_default f = is_empty f.sites && not (is_some f.hours)
